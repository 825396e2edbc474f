-- ===== src/Table/Order.antt =====
-- Rows of a table: what a write keeps of every row, and that the keys stay in strict order, so that
-- no key occurs twice.
use new_day.Prelude.{
  ◌≡◌, refl, ◌⊎◌, inl, inr, Bool, true, false, not, List, [], ◌∷◌, In, All, filter, arith,
  Bool-cases, if◌then◌else◌, ◌==◌, length, ◌≤◌, suc,
}
use new_day.Prelude.Lists.{filter-In, All-In, All-of_In}
use new_day.Prelude.Strings.{Text, text_eq, text_lt, text_eq_iff}
use new_day.Table.{put, remove}

pub text_lt_trans : (a b c : Text) → text_lt a b ≡ true → text_lt b c ≡ true → text_lt a c ≡ true
unfolding text_lt
text_lt_trans [] [] c h k = absurd (ground arith)
text_lt_trans [] (y ∷ b) [] h k = absurd (ground arith)
text_lt_trans [] (y ∷ b) (z ∷ c) h k = refl
text_lt_trans (x ∷ a) [] c h k = absurd (ground arith)
text_lt_trans (x ∷ a) (y ∷ b) [] h k = absurd (ground arith)
text_lt_trans (x ∷ a) (y ∷ b) (z ∷ c) h k = ground (arith, text_lt_trans a b c)

pub text_lt_total : (a b : Text) → text_eq b a ≡ false → text_lt a b ≡ false → text_lt b a ≡ true
unfolding text_lt text_eq
text_lt_total [] [] e h = absurd (ground arith)
text_lt_total [] (y ∷ b) e h = absurd (ground arith)
text_lt_total (x ∷ a) [] e h = refl
text_lt_total (x ∷ a) (y ∷ b) e h = ground (arith, text_lt_total a b)

module _ {R : Type 0} (key : R → Text) where
  pub In-put : (a row : R) (rs : List R) → In a (put key row rs) → (a ≡ row) ⊎ In a rs
  unfolding put
  In-put a row [] h = h
  In-put a row (r ∷ rs) h = elim (Bool-cases (text_eq (key r) (key row))) [
    | inl e ↦ elim (rw e at h) [ inl q ↦ inl q | inr i ↦ inr (inr i) ]
    | inr f ↦ elim (Bool-cases (text_lt (key row) (key r))) [
      | inl l ↦ rw (f, l) at h
      | inr g ↦ skip (rw (f, g) at h) (In-put a row rs)
    ]
  ]
    where
      skip :
          (a ≡ r) ⊎ In a (put key row rs)
          → (In a (put key row rs) → (a ≡ row) ⊎ In a rs)
          → (a ≡ row) ⊎ In a (r ∷ rs)
      skip (inl q) k = inr (inl q)
      skip (inr i) k = elim (k i) [ inl q ↦ inl q | inr j ↦ inr (inr j) ]

  pub In-remove : (a : R) (id : Text) (rs : List R) → In a (remove key id rs) → In a rs
  unfolding remove
  In-remove a id rs i = (filter-In (λ r. not (text_eq (key r) id)) a rs i).0

  pub All-put : (P : R → Type 0) (row : R) (rs : List R) → P row → All P rs → All P (put key row rs)
  All-put P row rs p h = All-of_In P (put key row rs) λ a i. elim (In-put a row rs i) [
    | inl e ↦ new_day.Prelude.Lists.along P (new_day.Prelude.sym e) p
    | inr j ↦ All-In P a rs h j
  ]

  pub All-remove : (P : R → Type 0) (id : Text) (rs : List R) → All P rs → All P (remove key id rs)
  All-remove P id rs h =
      All-of_In P (remove key id rs) (λ a i. All-In P a rs h (In-remove a id rs i))

  abbrev pub IsOrdered : List R → Type 0
  IsOrdered [] = Unit
  IsOrdered (r ∷ rs) = All (λ q. text_lt (key r) (key q) ≡ true) rs × IsOrdered rs

  pub put-IsOrdered : (row : R) (rs : List R) → IsOrdered rs → IsOrdered (put key row rs)
  unfolding put
  put-IsOrdered row [] h = (tt, tt)
  put-IsOrdered row (r ∷ rs) h = elim (Bool-cases (text_eq (key r) (key row))) [
    | inl e ↦ rw e (All-of_In _ rs (λ a i. above e a i), h.1)
    | inr f ↦ elim (Bool-cases (text_lt (key row) (key r))) [
      | inl l ↦
          rw (f, l)
            (
              (
                l,
                All-of_In _ rs
                    (λ a i. text_lt_trans (key row) (key r) (key a) l (All-In _ a rs h.0 i)),
              ),
              h,
            )
      | inr g ↦
          rw (f, g)
            (
              All-put (λ q. text_lt (key r) (key q) ≡ true) row rs
                  (text_lt_total (key row) (key r) f g) h.0,
              put-IsOrdered row rs h.1,
            )
    ]
  ]
    where
      above :
          text_eq (key r) (key row) ≡ true → (a : R) → In a rs → text_lt (key row) (key a) ≡ true
      above e a i = rw ((text_eq_iff (key r) (key row)).0 e) at (All-In _ a rs h.0 i)

  filter-IsOrdered : (p : R → Bool) (rs : List R) → IsOrdered rs → IsOrdered (filter p rs)
  filter-IsOrdered p [] h = tt
  filter-IsOrdered p (r ∷ rs) h = elim (Bool-cases (p r)) [
    | inl t ↦ rw t (
      All-of_In _ (filter p rs) (λ a i. All-In _ a rs h.0 (filter-In p a rs i).0),
      filter-IsOrdered p rs h.1,
    )
    | inr f ↦ rw f (filter-IsOrdered p rs h.1)
  ]

  pub remove-IsOrdered : (id : Text) (rs : List R) → IsOrdered rs → IsOrdered (remove key id rs)
  unfolding remove
  remove-IsOrdered id rs h = filter-IsOrdered _ rs h

  -- A write adds at most one row that passes a test, a deletion none.
  pub length-filter-put :
      (p : R → Bool) (row : R) (rs : List R)
      → length (filter p (put key row rs)) ≤ suc (length (filter p rs))
  unfolding put
  length-filter-put p row [] = ground arith
  length-filter-put p row (r ∷ rs) = ground (arith, length-filter-put p row rs)

  -- A write adds no row that passes a test which the row itself fails.
  pub length-filter-put_other :
      (p : R → Bool) (row : R) (rs : List R)
      → p row ≡ false
      → length (filter p (put key row rs)) ≤ length (filter p rs)
  unfolding put
  length-filter-put_other p row [] h = ground arith
  length-filter-put_other p row (r ∷ rs) h = ground (arith, length-filter-put_other p row rs)

  pub length-filter-remove :
      (p : R → Bool) (id : Text) (rs : List R)
      → length (filter p (remove key id rs)) ≤ length (filter p rs)
  unfolding remove
  length-filter-remove p id [] = omega arith
  length-filter-remove p id (r ∷ rs) = ground (arith, length-filter-remove p id rs)
