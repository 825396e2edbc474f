-- ===== src/Prelude/Sorting.antt =====
-- `Array.prototype.sort` (stable), and the idiom `[...new Set(dates)].sort()` on dates, which are
-- numbers here. `IsAscending` is strict, so such a list has no repetition.
use new_day.Prelude.Tests.{leb, ◌==◌, if◌then◌else◌, Bool-cases, ==_iff}
use new_day.Prelude.Lists.{length, filter, In, All, In-filter, filter-In, All-In, All-of_In}
use Prim.Native.Nat.{ℕ, suc, ◌<◌}
use mathlib.Core.Path.{◌≡◌, refl, sym}
use mathlib.Core.Logic.{◌↔◌, ◌⊎◌, inl, inr}
use mathlib.Core.Bool.{Bool, true, false, not}
use mathlib.Core.List.{List, [], ◌∷◌}
use native.Mathlib.Omega.{arith}

module _ {A : Type 0} (le : A → A → Bool) where
  -- Before the first element that it does not exceed: elements that compare equal keep their order.
  unfoldable pub insert_by : A → List A → List A
  insert_by x [] = x ∷ []
  insert_by x (y ∷ ys) = let rest = insert_by x ys in if le x y then x ∷ y ∷ ys else y ∷ rest

  unfoldable pub sort_by : List A → List A
  unfolding insert_by
  sort_by [] = []
  sort_by (x ∷ xs) = insert_by x (sort_by xs)

module _ {A : Type 0} (le : A → A → Bool) where
  insert_by-In : (a x : A) (ys : List A) → In a (insert_by le x ys) → (a ≡ x) ⊎ In a ys
  unfolding insert_by
  insert_by-In a x [] h = h
  insert_by-In a x (y ∷ ys) h = elim (Bool-cases (le x y)) [
    | inl t ↦ rw t at h
    | inr f ↦ swap (rw f at h) (insert_by-In a x ys)
  ]
    where
      swap :
          (a ≡ y) ⊎ In a (insert_by le x ys)
          → (In a (insert_by le x ys) → (a ≡ x) ⊎ In a ys)
          → (a ≡ x) ⊎ In a (y ∷ ys)
      swap (inl e) k = inr (inl e)
      swap (inr i) k = elim (k i) [ inl e ↦ inl e | inr j ↦ inr (inr j) ]

  In-insert_by : (a x : A) (ys : List A) → (a ≡ x) ⊎ In a ys → In a (insert_by le x ys)
  unfolding insert_by
  In-insert_by a x [] h = h
  In-insert_by a x (y ∷ ys) h = elim (Bool-cases (le x y)) [
    | inl t ↦ rw t h
    | inr f ↦ rw f (swap h (In-insert_by a x ys))
  ]
    where
      swap :
          (a ≡ x) ⊎ In a (y ∷ ys)
          → ((a ≡ x) ⊎ In a ys → In a (insert_by le x ys))
          → (a ≡ y) ⊎ In a (insert_by le x ys)
      swap (inl e) k = inr (k (inl e))
      swap (inr (inl e)) k = inl e
      swap (inr (inr i)) k = inr (k (inr i))

  -- Sorting keeps the elements.
  pub sort_by-In : (a : A) (xs : List A) → In a (sort_by le xs) → In a xs
  unfolding sort_by
  sort_by-In a [] h = h
  sort_by-In a (x ∷ xs) h = elim (insert_by-In a x (sort_by le xs) h) [
    | inl e ↦ inl e
    | inr i ↦ inr (sort_by-In a xs i)
  ]

  pub In-sort_by : (a : A) (xs : List A) → In a xs → In a (sort_by le xs)
  unfolding sort_by
  In-sort_by a [] h = h
  In-sort_by a (x ∷ xs) (inl e) = In-insert_by a x (sort_by le xs) (inl e)
  In-sort_by a (x ∷ xs) (inr i) = In-insert_by a x (sort_by le xs) (inr (In-sort_by a xs i))

  length-insert_by : (x : A) (ys : List A) → length (insert_by le x ys) ≡ suc (length ys)
  unfolding insert_by
  length-insert_by x [] = refl
  length-insert_by x (y ∷ ys) = ground (arith, length-insert_by x ys)

  pub length-sort_by : (xs : List A) → length (sort_by le xs) ≡ length xs
  unfolding sort_by
  length-sort_by [] = refl
  length-sort_by (x ∷ xs) = omega (arith, length-insert_by x (sort_by le xs), length-sort_by xs)

abbrev pub IsAscending : List ℕ → Type 0
IsAscending [] = Unit
IsAscending (x ∷ xs) = All (λ y. x < y) xs × IsAscending xs

-- A `Set` built from a list keeps the first of each repeated value.
unfoldable pub unique : List ℕ → List ℕ
unique [] = []
unique (x ∷ xs) = x ∷ filter (λ y. not (x == y)) (unique xs)

unfoldable pub unique_sorted : List ℕ → List ℕ
unfolding unique sort_by
unique_sorted xs = sort_by leb (unique xs)

pub unique-In : (a : ℕ) (xs : List ℕ) → In a (unique xs) → In a xs
unfolding unique
unique-In a [] h = h
unique-In a (x ∷ xs) (inl e) = inl e
unique-In a (x ∷ xs) (inr i) =
    inr (unique-In a xs (filter-In (λ y. not (x == y)) a (unique xs) i).0)

pub In-unique : (a : ℕ) (xs : List ℕ) → In a xs → In a (unique xs)
unfolding unique
In-unique a [] h = h
In-unique a (x ∷ xs) (inl e) = inl e
In-unique a (x ∷ xs) (inr i) = elim (Bool-cases (x == a)) [
  | inl same ↦ inl (sym ((==_iff x a).0 same))
  | inr other ↦ inr (In-filter (λ y. not (x == y)) a (unique xs) (In-unique a xs i) (rw other))
]

-- No element twice.
abbrev pub IsUnique : List ℕ → Type 0
IsUnique [] = Unit
IsUnique (x ∷ xs) = (In x xs → ⊥) × IsUnique xs

filter-IsUnique : (p : ℕ → Bool) (xs : List ℕ) → IsUnique xs → IsUnique (filter p xs)
filter-IsUnique p [] h = tt
filter-IsUnique p (x ∷ xs) h = elim (Bool-cases (p x)) [
  | inl t ↦ rw t ((λ i. h.0 (filter-In p x xs i).0), filter-IsUnique p xs h.1)
  | inr f ↦ rw f (filter-IsUnique p xs h.1)
]

unique-IsUnique : (xs : List ℕ) → IsUnique (unique xs)
unfolding unique
unique-IsUnique [] = tt
unique-IsUnique (x ∷ xs) = (fresh, filter-IsUnique _ (unique xs) (unique-IsUnique xs))
  where
    fresh : In x (filter (λ y. not (x == y)) (unique xs)) → ⊥
    fresh i = let e = (filter-In (λ y. not (x == y)) x (unique xs) i).1 in ground arith

insert-IsAscending :
    (x : ℕ) (ys : List ℕ) → (In x ys → ⊥) → IsAscending ys → IsAscending (insert_by leb x ys)
unfolding insert_by
insert-IsAscending x [] n h = (tt, tt)
insert-IsAscending x (y ∷ ys) n h = elim (Bool-cases (leb x y)) [
  | inl t ↦ rw t (All-of_In _ (y ∷ ys) (above t), h)
  | inr f ↦
      rw f
        (All-of_In _ (insert_by leb x ys) (below f), insert-IsAscending x ys (λ i. n (inr i)) h.1)
]
  where
    x≢y : x ≡ y → ⊥
    x≢y e = n (inl e)

    above : leb x y ≡ true → (a : ℕ) → In a (y ∷ ys) → x < a
    above t a (inl e) = ground (arith, x≢y)
    above t a (inr i) = ground (arith, x≢y, All-In _ a ys h.0 i)

    below : leb x y ≡ false → (a : ℕ) → In a (insert_by leb x ys) → y < a
    below f a i = elim (insert_by-In leb a x ys i) [
      | inl e ↦ ground arith
      | inr j ↦ All-In _ a ys h.0 j
    ]

sort-IsAscending : (xs : List ℕ) → IsUnique xs → IsAscending (sort_by leb xs)
unfolding sort_by
sort-IsAscending [] h = tt
sort-IsAscending (x ∷ xs) h =
    insert-IsAscending x (sort_by leb xs) (λ i. h.0 (sort_by-In leb x xs i))
      (sort-IsAscending xs h.1)

unique_sorted-IsAscending : (xs : List ℕ) → IsAscending (unique_sorted xs)
unfolding unique_sorted
unique_sorted-IsAscending xs = sort-IsAscending (unique xs) (unique-IsUnique xs)

unique_sorted-In : (a : ℕ) (xs : List ℕ) → In a (unique_sorted xs) → In a xs
unfolding unique_sorted
unique_sorted-In a xs i = unique-In a xs (sort_by-In leb a (unique xs) i)

pub In-unique_sorted : (a : ℕ) (xs : List ℕ) → In a xs → In a (unique_sorted xs)
unfolding unique_sorted
In-unique_sorted a xs i = In-sort_by leb a (unique xs) (In-unique a xs i)

-- `[...new Set(dates)].sort()` has each of the dates exactly once, in ascending order.
pub unique_sorted-IsSorted :
    (dates : List ℕ)
    → IsAscending (unique_sorted dates) × ((d : ℕ) → In d (unique_sorted dates) ↔ In d dates)
unique_sorted-IsSorted dates =
    (unique_sorted-IsAscending dates, λ d. (unique_sorted-In d dates, In-unique_sorted d dates))
