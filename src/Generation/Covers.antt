-- ===== src/Generation/Covers.antt =====
-- Generation gives every occurrence in the range a task.
use new_day.Prelude.{◌≡◌, ◌≤◌, true}
use new_day.Prelude.Strings.{Text}
use new_day.Dates.{LocalDate, is_local_date}
use new_day.Host.{Host}
use new_day.Table
use new_day.Model.{RecurrenceSeries, recurrence_occurrence_key}
use new_day.Result.{Result}
use new_day.Session.{Session}
use new_day.Session.Returns.{Returns}
use new_day.Generation.{EnsureRecurrenceOccurrencesInput}
use new_day.Generation.Grows.{Grows}

module _ (host : Host) (series : RecurrenceSeries) (now : Text) where
  abbrev key_on : LocalDate → Text
  key_on date = recurrence_occurrence_key series.logical_series_id date

abbrev InRange : EnsureRecurrenceOccurrencesInput → LocalDate → Type 0
InRange input d = (is_local_date d ≡ true) × (input.as_of_date ≤ d) × (d ≤ input.through_date)
