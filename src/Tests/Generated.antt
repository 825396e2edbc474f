-- ===== src/Tests/Generated.antt =====
-- Generation of the tasks of a series at a small input.
use new_day.Prelude.{none, List, [], ◌∷◌}
use new_day.Host.Gregorian.{gregorian}
use new_day.Model.{Task, RecurrenceSeries, daily}
use new_day.Result.{Result}
use new_day.Session.{Session}
use new_day.Generation.{EnsureRecurrenceOccurrencesInput, materialize_series, occurrence_of}
use new_day.Tests.Data.{month_end, morning, session_of}

abbrev watering : RecurrenceSeries
watering = record month_end { pattern = daily }

abbrev one_day : EnsureRecurrenceOccurrencesInput
one_day = record {
  as_of_date = 20260922;
  through_date = 20260922;
  additionally_ensure_date = none;
  now = morning;
}

abbrev empty_day : Session
empty_day = session_of (record {
  tasks = [];
  series = watering ∷ [];
  focus = [];
  links = [];
  resources = [];
  revision = 4;
})

abbrev after : Session
after = (materialize_series gregorian one_day (watering ∷ []) [] empty_day).1

abbrev made : List Task
made = occurrence_of gregorian watering 20260922 morning ∷ []
