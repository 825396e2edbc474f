-- ===== src/Recurrence.antt =====
-- packages/core/src/domain/planner-recurrence.ts: when a series recurs, and its dates in a range.
pub mod Range
pub mod Monthly
use new_day.Prelude.{
  ℕ, ◌%◌, ◌≤◌, ◌≡◌, min, Bool, true, false, not, ◌&&◌, ◌||◌, Option, none, some, List, [], ◌∷◌, ltb,
  leb, ◌==◌, if◌then◌else◌, any, holds,
}
use new_day.Dates.{LocalDate, is_local_date, day}
use new_day.Host.{Host}
use new_day.Model.{
  RecurrencePattern, daily, weekdays, weekly, monthly, RecurrenceSeries, ends_before,
}
use new_day.Result.{Result, ok, err, invalid, ◌>>=◌, ◌>>◌, guard}

-- `localDateSchema.parse` on a value that may already be a date.
unfoldable pub parse_date : LocalDate → Result LocalDate
parse_date d = if is_local_date d then ok d else err invalid

-- `includes` on a list of dates.
abbrev pub includes : List LocalDate → LocalDate → Bool
includes xs d = any (λ x. x == d) xs

module _ (host : Host) where
  unfoldable pub pattern_matches : RecurrencePattern → LocalDate → Bool
  pattern_matches daily d = true
  pattern_matches weekdays d = leb (host.get_iso_day d) 5
  pattern_matches (weekly days) d = any (λ w. w == host.get_iso_day d) days
  pattern_matches (monthly k) d = day d == min k (host.get_days_in_month d)

  -- `recursOnDate` after its argument has been parsed.
  unfoldable pub recurs : RecurrenceSeries → LocalDate → Bool
  recurs s d =
      if holds (λ b. b) s.disabled
      then false
      else if ltb d s.start_date
      then false
      else if holds (λ last. ltb last d) s.effective_end_date
      then false
      else if ends_before s.end d
      then false
      else if includes s.excluded_dates d
      then false
      else pattern_matches s.pattern d

  unfoldable pub recurs_on_date : RecurrenceSeries → LocalDate → Result Bool
  recurs_on_date s candidate = do date ← parse_date candidate; ok (recurs s date)

  -- `filter` with a test that may throw.
  unfoldable pub filter_recurring : RecurrenceSeries → List LocalDate → Result (List LocalDate)
  filter_recurring s [] = ok []
  filter_recurring s (d ∷ ds) = do
    keep ← recurs_on_date s d
    rest ← filter_recurring s ds
    ok (if keep then d ∷ rest else rest)

  unfoldable pub recurrence_dates_in_range :
      RecurrenceSeries → LocalDate → LocalDate → Result (List LocalDate)
  recurrence_dates_in_range s range_start range_end = do
    start ← parse_date range_start
    end ← parse_date range_end
    if ltb end start then ok [] else filter_recurring s (host.each_day_of_interval start end)
