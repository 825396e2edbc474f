-- ===== src/Dates/Calendar.antt =====
-- Which numbers are dates, by year, month and day.
use new_day.Prelude.{◌<◌, ◌≤◌, ◌≡◌, ◌↔◌, true, arith, ℕ}
use new_day.Dates.{LocalDate, year, month, day, days_in_month, is_local_date}

pub days_in_month_range : (y m : ℕ) → (28 ≤ days_in_month y m) × (days_in_month y m ≤ 31)
unfolding days_in_month
days_in_month_range y m = ground arith

pub record IsDate (d : LocalDate) : Type 0 where
  pub fits : d < 100000000
  pub month_in : (1 ≤ month d) × (month d ≤ 12)
  pub day_in : (1 ≤ day d) × (day d ≤ days_in_month (year d) (month d))

-- The schema accepts exactly the days of the Gregorian calendar.
pub is_local_date-IsDate : (d : LocalDate) → (is_local_date d ≡ true) ↔ IsDate d
unfolding is_local_date
is_local_date-IsDate d = (
  λ h. ground (arith, days_in_month_range (year d) (month d)),
  λ i. ground (arith, days_in_month_range (year d) (month d)),
)
