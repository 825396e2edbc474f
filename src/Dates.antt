-- ===== src/Dates.antt =====
-- packages/core/src/domain/planner-model.ts, `localDateSchema` and `isRealCalendarDate`, and
-- planner-date.ts. A `LocalDate` is a string `yyyy-MM-dd`; the model keeps the number that its
-- eight digits spell, so that the string order is the order of the numbers (`Dates.Written`).
pub mod Written
pub mod Calendar
use new_day.Prelude.{
  ℕ, ◌+◌, ◌-◌, ◌*◌, ◌/◌, ◌%◌, Bool, true, false, not, ◌&&◌, ◌||◌, Option, none, some, List, [], ◌∷◌,
  ltb, leb, ◌==◌, if◌then◌else◌, holds,
}
use new_day.Prelude.Strings.{Text}

abbrev pub LocalDate : Type 0
LocalDate = ℕ

abbrev pub year : LocalDate → ℕ
year d = d / 10000

abbrev pub month : LocalDate → ℕ
month d = d / 100 % 100

abbrev pub day : LocalDate → ℕ
day d = d % 100

unfoldable pub is_leap : ℕ → Bool
is_leap y = y % 4 == 0 && (not (y % 100 == 0) || y % 400 == 0)

unfoldable pub days_in_month : ℕ → ℕ → ℕ
unfolding is_leap
days_in_month y m =
    if m == 2
    then (if is_leap y then 29 else 28)
    else if m == 4 || m == 6 || m == 9 || m == 11
    then 30
    else 31

-- `new Date(value + "T00:00:00.000Z").toISOString().slice(0, 10)`: an invalid date has no ISO
-- string, and a day past the end of its month is carried into the next.
unfoldable pub iso_day : LocalDate → Option LocalDate
iso_day d =
    let length_of_month = days_in_month (year d) (month d) in
    if leb 1 (month d) && leb (month d) 12 && leb 1 (day d) && leb (day d) 31
    then (if leb (day d) length_of_month then some d else some (d + 100 - length_of_month))
    else none

unfoldable pub is_real_calendar_date : LocalDate → Bool
unfolding iso_day
is_real_calendar_date d = holds (λ shown. shown == d) (iso_day d)

-- What `localDateSchema` accepts: eight digits that name a day of the calendar.
unfoldable pub is_local_date : LocalDate → Bool
unfolding is_real_calendar_date
is_local_date d = ltb d 100000000 && is_real_calendar_date d

is_digit : ℕ → Bool
is_digit c = leb b'0' c && leb c b'9'

-- The pattern `^\d{4}-\d{2}-\d{2}$`, with the number that the digits spell.
unfoldable pub read_date : Text → Option ℕ
unfolding is_digit
read_date (a ∷ b ∷ c ∷ d ∷ e ∷ f ∷ g ∷ h ∷ i ∷ j ∷ []) =
    if is_digit a
      && is_digit b
      && is_digit c
      && is_digit d
      && e == b'-'
      && is_digit f
      && is_digit g
      && h == b'-'
      && is_digit i
      && is_digit j
    then some (
        (a - 48) * 10000000
        + (b - 48) * 1000000
        + (c - 48) * 100000
        + (d - 48) * 10000
        + (f - 48) * 1000
        + (g - 48) * 100
        + (i - 48) * 10
        + (j - 48))
    else none
read_date _ = none

abbrev accept_date : Option ℕ → Option LocalDate
accept_date none = none
accept_date (some d) = if is_real_calendar_date d then some d else none

unfoldable pub local_date_schema : Text → Option LocalDate
unfolding read_date is_real_calendar_date
local_date_schema t = accept_date (read_date t)

digit : ℕ → ℕ → ℕ
digit d place = d / place % 10 + 48

-- The string of a date, as `format(_, "yyyy-MM-dd")` writes it.
unfoldable pub date_text : LocalDate → Text
unfolding digit
date_text d =
    digit d 10000000
    ∷ digit d 1000000
    ∷ digit d 100000
    ∷ digit d 10000
    ∷ b'-'
    ∷ digit d 1000
    ∷ digit d 100
    ∷ b'-'
    ∷ digit d 10
    ∷ digit d 1
    ∷ []
