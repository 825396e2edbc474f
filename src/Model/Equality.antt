-- ===== src/Model/Equality.antt =====
-- Equality of rows is decided field by field.
use native.Mathlib.Decide.{ℕ_discrete}
use new_day.Model.{Status, RecurrencePattern, RecurrenceEnd, Task, RecurrenceSeries, FocusRecord}

unfoldable pub Status-discrete : Discrete Status
Status-discrete = hlevel

unfoldable pub RecurrencePattern-discrete : Discrete RecurrencePattern
RecurrencePattern-discrete = hlevel ℕ_discrete

unfoldable pub RecurrenceEnd-discrete : Discrete RecurrenceEnd
RecurrenceEnd-discrete = hlevel ℕ_discrete

unfoldable pub Task-discrete : Discrete Task
unfolding Status-discrete
Task-discrete = hlevel (ℕ_discrete, Status-discrete)

unfoldable pub RecurrenceSeries-discrete : Discrete RecurrenceSeries
unfolding RecurrencePattern-discrete RecurrenceEnd-discrete
RecurrenceSeries-discrete = hlevel (ℕ_discrete, RecurrencePattern-discrete, RecurrenceEnd-discrete)

unfoldable pub FocusRecord-discrete : Discrete FocusRecord
FocusRecord-discrete = hlevel ℕ_discrete
