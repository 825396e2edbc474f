-- ===== src/Host/Gregorian.antt =====
-- A host with the proleptic Gregorian calendar: it meets the laws that `IsCalendar` asks of
-- date-fns, and runs in the tests. Its instants are texts of at least twenty characters.
use native.Mathlib.Decide.{dec_le}
use new_day.Prelude.{
  ℕ, zero, suc, ◌+◌, ◌-◌, ◌*◌, ◌/◌, ◌%◌, ◌<◌, ◌≤◌, ◌≡◌, refl, ◌↔◌, Bool, true, false, not, List, [],
  ◌∷◌, leb, In, filter, length, arith, Bool-cases, inl, inr,
}
use new_day.Prelude.Lists.{In-filter, filter-In, All-of_In}
use new_day.Prelude.Sorting.{IsAscending}
use new_day.Prelude.Strings.{Text, text_lt}
use new_day.Dates.{LocalDate, year, month, day, days_in_month, is_local_date}
use new_day.Host.{Host, IsCalendar, ℤ, pos, negsuc}

-- The greatest date below a number.
below : ℕ → LocalDate
below zero = 0
below (suc n) = elim (is_local_date n) [ true ↦ n | false ↦ below n ]

-- The first date from a number on, within so many steps.
above : ℕ → ℕ → LocalDate
above zero n = n
above (suc fuel) n = elim (is_local_date n) [ true ↦ n | false ↦ above fuel (n + 1) ]

add_days : LocalDate → ℤ → LocalDate
unfolding above below
add_days d (pos zero) = d
add_days d (pos (suc n)) = above 10000 (add_days d (pos n) + 1)
add_days d (negsuc zero) = below d
add_days d (negsuc (suc n)) = below (add_days d (negsuc n))

numbers : ℕ → ℕ → List ℕ
numbers a zero = []
numbers a (suc n) = a ∷ numbers (suc a) n

each_day : LocalDate → LocalDate → List LocalDate
unfolding numbers
each_day a b = filter is_local_date (numbers a (suc b - a))

days_before : ℕ → ℕ → ℕ
unfolding days_in_month
days_before y zero = 0
days_before y (suc zero) = 0
days_before y (suc (suc m)) = days_before y (suc m) + days_in_month y (suc m)

iso_day_of_week : LocalDate → ℕ
unfolding days_before
iso_day_of_week d =
    let p = year d - 1 in
    (p * 365 + p / 4 - p / 100 + p / 400 + days_before (year d) (month d) + day d + 6) % 7 + 1

order_of : ℕ → Text → ℕ
order_of acc [] = acc
order_of acc (c ∷ s) = order_of (acc * 128 + c) s

unfoldable pub gregorian : Host
unfolding add_days each_day iso_day_of_week days_in_month order_of text_lt
gregorian = record {
  add_days = add_days;
  each_day_of_interval = each_day;
  get_iso_day = iso_day_of_week;
  get_days_in_month = λ d. days_in_month (year d) (month d);
  is_instant = λ t. leb 20 (length t);
  get_time = order_of 0;
  locale_le = λ s t. not (text_lt t s);
  random_uuid = λ n. n ∷ [];
}

numbers-In : (a n d : ℕ) → In d (numbers a n) → (a ≤ d) × (d < a + n)
unfolding numbers
numbers-In a zero d h = absurd h
numbers-In a (suc n) d (inl e) = omega arith
numbers-In a (suc n) d (inr i) = omega (arith, numbers-In (suc a) n d i)

In-numbers : (a n d : ℕ) → a ≤ d → d < a + n → In d (numbers a n)
unfolding numbers
In-numbers a zero d h k = absurd (omega arith)
In-numbers a (suc n) d h k = elim (dec_le d a) [
  | yes le ↦ inl (omega arith)
  | no gt ↦ inr (In-numbers (suc a) n d (omega arith) (omega arith))
]

numbers-IsAscending : (p : ℕ → Bool) (a n : ℕ) → IsAscending (filter p (numbers a n))
unfolding numbers
numbers-IsAscending p a zero = tt
numbers-IsAscending p a (suc n) = elim (Bool-cases (p a)) [
  | inl t ↦ rw t (
    All-of_In _ (filter p (numbers (suc a) n))
        (λ d i. (numbers-In (suc a) n d (filter-In p d (numbers (suc a) n) i).0).0),
    numbers-IsAscending p (suc a) n,
  )
  | inr f ↦ rw f (numbers-IsAscending p (suc a) n)
]

-- Every date below a number is at most `below` of it.
below-max : (n e : ℕ) → is_local_date e ≡ true → e < n → e ≤ below n
unfolding below
below-max zero e r h = elim h [ ]
below-max (suc n) e r h = ground (arith, below-max n e r)

below-local :
    (n e : ℕ) → is_local_date e ≡ true → e < n → (is_local_date (below n) ≡ true) × (below n < n)
unfolding below
below-local zero e r h = elim h [ ]
below-local (suc n) e r h = ground (arith, below-local n e r)

first_day : is_local_date 10101 ≡ true
unfolding is_local_date days_in_month
first_day = refl

each_day-exact :
    (a b d : LocalDate) → In d (each_day a b) ↔ ((is_local_date d ≡ true) × (a ≤ d) × (d ≤ b))
unfolding each_day
each_day-exact a b d =
    (inside, λ o. In-filter is_local_date d days (In-numbers a (suc b - a) d o.1 (omega arith)) o.0)
  where
    days : List ℕ
    days = numbers a (suc b - a)

    inside : In d (filter is_local_date days) → (is_local_date d ≡ true) × (a ≤ d) × (d ≤ b)
    inside i =
        let (j, r) = filter-In is_local_date d days i in
        let (lo, hi) = numbers-In a (suc b - a) d j in (r, lo, omega arith)

each_day-ascends : (a b : LocalDate) → IsAscending (each_day a b)
unfolding each_day
each_day-ascends a b = numbers-IsAscending is_local_date a (suc b - a)

day_before_exact :
    (d : LocalDate)
    → 10101 < d
    → (is_local_date (add_days d (negsuc 0)) ≡ true)
      × (add_days d (negsuc 0) < d)
      × ((e : LocalDate) → is_local_date e ≡ true → e < d → e ≤ add_days d (negsuc 0))
unfolding add_days
day_before_exact d h =
    let (r, lt) = below-local d 10101 first_day h in (r, lt, λ e re le. below-max d e re le)

-- The host meets the laws.
pub gregorian-IsCalendar : IsCalendar gregorian
unfolding gregorian
gregorian-IsCalendar = record {
  each_day-In = λ a b d ra rb lo le. each_day-exact a b d;
  each_day-IsAscending = each_day-ascends;
  day_before = λ d r h. day_before_exact d h;
  days_in_month_is = λ d r. refl;
}
