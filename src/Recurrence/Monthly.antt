-- ===== src/Recurrence/Monthly.antt =====
-- A monthly rule picks one day of every month: the day asked for, or the last day of a shorter one.
use new_day.Prelude.{◌+◌, ◌*◌, ◌/◌, min, ℕ}
use new_day.Dates.{LocalDate, year, month, days_in_month}
use new_day.Host.{Host}

-- The day of the month that holds `d` on which a rule for day `k` falls.
abbrev pub clamped : LocalDate → ℕ → LocalDate
clamped d k = d / 100 * 100 + min k (days_in_month (year d) (month d))
