-- ===== src/Recurrence/Range.antt =====
-- The dates of a series in a range are the days of the range on which it recurs, in order.
use new_day.Prelude.{◌≤◌, ◌≡◌, ◌≢◌, true, Option, none, some, In}
use new_day.Dates.{LocalDate}
use new_day.Host.{Host}
use new_day.Model.{RecurrenceSeries, RecurrenceEnd, never, on_date}
use new_day.Recurrence.{pattern_matches}

-- A bound that may be absent.
abbrev pub UpTo : LocalDate → Option LocalDate → Type 0
UpTo d none = Unit
UpTo d (some last) = d ≤ last

abbrev pub UntilEnd : LocalDate → RecurrenceEnd → Type 0
UntilEnd d never = Unit
UntilEnd d (on_date last) = d ≤ last

-- What a reader of the rule means by "the series has an occurrence on `d`".
pub record IsOccurrence (host : Host) (s : RecurrenceSeries) (d : LocalDate) : Type 0 where
  pub enabled : s.disabled ≢ some true
  pub from_start : s.start_date ≤ d
  pub in_segment : UpTo d s.effective_end_date
  pub in_rule : UntilEnd d s.end
  pub not_excluded : ¬ In d s.excluded_dates
  pub on_pattern : pattern_matches host s.pattern d ≡ true
