-- ===== src/Backup/Chains.antt =====
-- A chain of rule segments in the order of their start: each ends before every later one starts.
use new_day.Prelude.{
  ◌≡◌, sym, ◌∙◌, ◌≤◌, ◌<◌, true, false, some, List, [], ◌∷◌, In, All, ◌⊎◌, inl, inr, arith,
  Bool-cases, ◌==◌, ==_iff,
}
use new_day.Prelude.Lists.{along, All-In}
use new_day.Prelude.Maps.{holds-some}
use new_day.Prelude.Sorting.{insert_by, sort_by}
use new_day.Prelude.Checked.{require-passed}
use new_day.Dates.{LocalDate, is_local_date}
use new_day.Host.{Host, IsCalendar, negsuc}
use new_day.Model.{RecurrenceSeries}
use new_day.Backup.{segment_le, check_chain}

abbrev Start : RecurrenceSeries → LocalDate
Start s = s.start_date

-- Every later segment starts no earlier.
abbrev pub InOrder : List RecurrenceSeries → Type 0
InOrder [] = Unit
InOrder (s ∷ rest) = All (λ (t : RecurrenceSeries). s.start_date ≤ t.start_date) rest × InOrder rest

module _ (host : Host) where
  le_start : (s t : RecurrenceSeries) → segment_le host s t ≡ true → s.start_date ≤ t.start_date
  le_start s t h = ground (arith, ==_iff s.start_date t.start_date)

  not_le_start :
      (s t : RecurrenceSeries) → segment_le host s t ≡ false → t.start_date ≤ s.start_date
  not_le_start s t h = ground (arith, ==_iff s.start_date t.start_date)

  insert-All :
      (P : RecurrenceSeries → Type 0) (s : RecurrenceSeries) (ts : List RecurrenceSeries)
      → P s
      → All P ts
      → All P (insert_by (segment_le host) s ts)
  unfolding insert_by
  insert-All P s [] p h = (p, tt)
  insert-All P s (t ∷ ts) p h = elim (Bool-cases (segment_le host s t)) [
    | inl y ↦ rw y (p, h)
    | inr n ↦ rw n (h.0, insert-All P s ts p h.1)
  ]

  All-later :
      (d e : LocalDate) (ts : List RecurrenceSeries)
      → d ≤ e
      → All (λ (t : RecurrenceSeries). e ≤ t.start_date) ts
      → All (λ (t : RecurrenceSeries). d ≤ t.start_date) ts
  All-later d e [] h a = tt
  All-later d e (t ∷ ts) h a = (omega (arith, h, a.0), All-later d e ts h a.1)

  insert-InOrder :
      (s : RecurrenceSeries) (ts : List RecurrenceSeries)
      → InOrder ts
      → InOrder (insert_by (segment_le host) s ts)
  unfolding insert_by
  insert-InOrder s [] h = (tt, tt)
  insert-InOrder s (t ∷ ts) h = elim (Bool-cases (segment_le host s t)) [
    | inl y ↦
        rw y ((le_start s t y, All-later s.start_date t.start_date ts (le_start s t y) h.0), h)
    | inr n ↦ rw n (
      insert-All (λ (x : RecurrenceSeries). t.start_date ≤ x.start_date) s ts (not_le_start s t n)
          h.0,
      insert-InOrder s ts h.1,
    )
  ]

  pub sort-InOrder : (ts : List RecurrenceSeries) → InOrder (sort_by (segment_le host) ts)
  unfolding sort_by
  sort-InOrder [] = tt
  sort-InOrder (t ∷ ts) = insert-InOrder t (sort_by (segment_le host) ts) (sort-InOrder ts)

-- `s` ends before the date.
abbrev pub EndsBefore : RecurrenceSeries → LocalDate → Type 0
EndsBefore s d = (e : LocalDate) × (s.effective_end_date ≡ some e) × (e < d)

-- Each segment ends before every later one starts.
abbrev pub Disjoint : List RecurrenceSeries → Type 0
Disjoint [] = Unit
Disjoint (s ∷ rest) = All (λ (t : RecurrenceSeries). EndsBefore s t.start_date) rest × Disjoint rest

-- A start that is a date after the first day of the calendar.
abbrev pub StartsLate : RecurrenceSeries → Type 0
StartsLate s = (is_local_date s.start_date ≡ true) × (10101 < s.start_date)

EndsBefore-All :
    (s : RecurrenceSeries) (d : LocalDate) (ts : List RecurrenceSeries)
    → EndsBefore s d
    → All (λ (t : RecurrenceSeries). d ≤ t.start_date) ts
    → All (λ (t : RecurrenceSeries). EndsBefore s t.start_date) ts
EndsBefore-All s d [] h a = tt
EndsBefore-All s d (t ∷ ts) (e, q, l) a =
    ((e, q, omega (arith, l, a.0)), EndsBefore-All s d ts (e, q, l) a.1)

pub chain-Disjoint :
    (host : Host)
    → IsCalendar host
    → (chain : List RecurrenceSeries) → All StartsLate chain
    → InOrder chain
    → check_chain host chain ≡ inr tt
    → Disjoint chain
unfolding check_chain
chain-Disjoint host calendar [] late order h = tt
chain-Disjoint host calendar (s ∷ []) late order h = (tt, tt)
chain-Disjoint host calendar (s ∷ t ∷ rest) late order h =
    let (touches, later) = require-passed _ _ _ tt h in
    let (e, ends, same) =
      holds-some (λ e. e == host.add_days t.start_date (negsuc 0)) s.effective_end_date touches in
    let before = calendar.day_before t.start_date late.1.0.0 late.1.0.1 in
    let gap : EndsBefore s t.start_date = (
      e,
      ends,
      omega (arith, (==_iff e (host.add_days t.start_date (negsuc 0))).0 same, before.1),
    ) in
    (
      (gap, EndsBefore-All s t.start_date rest gap order.1.0),
      chain-Disjoint host calendar (t ∷ rest) late.1 order.1 later,
    )

-- Two segments of a chain are the same, or one ends before the other starts.
pub Disjoint-pair :
    (chain : List RecurrenceSeries)
    → Disjoint chain
    → (s t : RecurrenceSeries) → In s chain
    → In t chain
    → (s ≡ t) ⊎ (EndsBefore s t.start_date ⊎ EndsBefore t s.start_date)
Disjoint-pair [] h s t i j = absurd i
Disjoint-pair (x ∷ xs) h s t (inl e) (inl f) = inl (e ∙ sym f)
Disjoint-pair (x ∷ xs) h s t (inl e) (inr j) = inr (
    inl (
      along (λ y. EndsBefore y t.start_date) (sym e)
        (All-In (λ (y : RecurrenceSeries). EndsBefore x y.start_date) t xs h.0 j)))
Disjoint-pair (x ∷ xs) h s t (inr i) (inl f) = inr (
    inr (
      along (λ y. EndsBefore y s.start_date) (sym f)
        (All-In (λ (y : RecurrenceSeries). EndsBefore x y.start_date) s xs h.0 i)))
Disjoint-pair (x ∷ xs) h s t (inr i) (inr j) = Disjoint-pair xs h.1 s t i j
