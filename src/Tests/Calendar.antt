-- ===== src/Tests/Calendar.antt =====
-- Dates and recurrence at small inputs.
use new_day.Prelude.{◌≡◌, refl, ◌↔◌, true, false, List, In}
use new_day.Prelude.Strings.{codes}
use new_day.Prelude.{ℕ, ◌∷◌, []}
use new_day.Prelude.Sorting.{IsAscending, unique_sorted, unique_sorted-IsSorted}
use new_day.Dates.{LocalDate, is_local_date, days_in_month}
use new_day.Dates.Calendar.{IsDate, is_local_date-IsDate}
use new_day.Model.Keys.{recurrence_occurrence_key-injective}

no_leap_day : is_local_date 20230229 ≡ false
unfolding is_local_date days_in_month
no_leap_day = refl

january : is_local_date 20260127 ≡ true
unfolding is_local_date days_in_month
january = refl

leap_day-IsDate : (is_local_date 20240229 ≡ true) ↔ IsDate 20240229
leap_day-IsDate = is_local_date-IsDate 20240229

key_example : (codes "s1" ≡ codes "s1") × (◌≡◌ {A = LocalDate} 20260127 20260127)
key_example =
    recurrence_occurrence_key-injective (codes "s1") (codes "s1") 20260127 20260127 january january
      refl

abbrev unsorted_dates : List ℕ
unsorted_dates = 20260305 ∷ 20260127 ∷ 20260305 ∷ []

sorted_example :
    IsAscending (unique_sorted unsorted_dates)
    × ((d : ℕ) → In d (unique_sorted unsorted_dates) ↔ In d unsorted_dates)
sorted_example = unique_sorted-IsSorted unsorted_dates
