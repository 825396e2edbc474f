-- ===== src/Host.antt =====
-- What the code takes from packages and from the host: date-fns on dates at local noon, zod's
-- pattern for instants, `Date.prototype.getTime`, `localeCompare` and `crypto.randomUUID`.
pub mod Gregorian
use new_day.Prelude.{ℕ, ◌<◌, ◌≤◌, ◌≡◌, ◌↔◌, Bool, true, List, In}
use new_day.Prelude.Sorting.{IsAscending}
use new_day.Prelude.Strings.{Text}
use new_day.Dates.{LocalDate, is_local_date, year, month, days_in_month}

-- `negsuc n` is -(n + 1).
pub data ℤ : Type 0 where
  pos : ℕ → ℤ
  negsuc : ℕ → ℤ

-- Each date-fns function stands between `parseLocalDate` and `format(_, "yyyy-MM-dd")`.
pub record Host : Type 0 where
  pub add_days : LocalDate → ℤ → LocalDate
  pub each_day_of_interval : LocalDate → LocalDate → List LocalDate
  pub get_iso_day : LocalDate → ℕ
  pub get_days_in_month : LocalDate → ℕ
  pub is_instant : Text → Bool
  pub get_time : Text → ℕ
  pub locale_le : Text → Text → Bool
  pub random_uuid : ℕ → Text

-- The documented behaviour of date-fns that the code relies on, from 0001-01-01 on.
pub record IsCalendar (host : Host) : Type 0 where
  pub each_day-In :
      (a b d : LocalDate)
      → is_local_date a ≡ true
      → is_local_date b ≡ true
      → 10101 ≤ a
      → a ≤ b
      → In d (host.each_day_of_interval a b) ↔ ((is_local_date d ≡ true) × (a ≤ d) × (d ≤ b))
  pub each_day-IsAscending : (a b : LocalDate) → IsAscending (host.each_day_of_interval a b)
  pub day_before :
      (d : LocalDate)
      → is_local_date d ≡ true
      → 10101 < d
      → (is_local_date (host.add_days d (negsuc 0)) ≡ true)
        × (host.add_days d (negsuc 0) < d)
        × ((e : LocalDate) → is_local_date e ≡ true → e < d → e ≤ host.add_days d (negsuc 0))
  pub days_in_month_is :
      (d : LocalDate)
      → is_local_date d ≡ true
      → host.get_days_in_month d ≡ days_in_month (year d) (month d)
