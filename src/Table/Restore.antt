-- ===== src/Table/Restore.antt =====
-- Writing a row back: in an ordered table, a write of the old row undoes the write of a new one.
use new_day.Prelude.{
  ◌≡◌, refl, sym, ap, true, false, none, some, List, [], ◌∷◌, In, inl, inr, arith, Bool-cases,
}
use new_day.Prelude.Lists.{All-In}
use new_day.Prelude.Strings.{Text, text_eq, text_lt, text_eq_iff}
use new_day.Table.{find, put}
use new_day.Table.Order.{IsOrdered}

text_lt_asym : (a b : Text) → text_lt a b ≡ true → text_lt b a ≡ false
unfolding text_lt
text_lt_asym [] [] h = refl
text_lt_asym [] (y ∷ b) h = refl
text_lt_asym (x ∷ a) [] h = absurd (ground arith)
text_lt_asym (x ∷ a) (y ∷ b) h = ground (arith, text_lt_asym a b)

pub some_injective : {A : Type 0} (a b : A) → some a ≡ some b → a ≡ b
some_injective a b h = ap (λ o. elim o [ none ↦ a | some x ↦ x ]) h

module _ {R : Type 0} (key : R → Text) where
  pub find-In : (id : Text) (rs : List R) (row : R) → find key id rs ≡ some row → In row rs
  unfolding find
  find-In id [] row h = absurd (ground arith)
  find-In id (r ∷ rs) row h = elim (Bool-cases (text_eq (key r) id)) [
    | inl same ↦ inl (sym (some_injective r row (rw same at h)))
    | inr other ↦ inr (find-In id rs row (rw other at h))
  ]

  pub put-put_old :
      (old new : R) (rs : List R)
      → IsOrdered key rs
      → find key (key old) rs ≡ some old
      → key new ≡ key old
      → put key old (put key new rs) ≡ rs
  unfolding find put
  put-put_old old new [] h f k = absurd (ground arith)
  put-put_old old new (r ∷ rs) h f k = elim (Bool-cases (text_eq (key r) (key old))) [
    | inl same ↦
        let first : text_eq (key r) (key new) ≡ true = rw k same in
        let second : text_eq (key new) (key old) ≡ true = (text_eq_iff (key new) (key old)).1 k in
        rw (first, second) (ap (λ x. x ∷ rs) (sym (some_injective r old (rw same at f))))
    | inr other ↦
        let rest : find key (key old) rs ≡ some old = rw other at f in
        let above : text_lt (key r) (key old) ≡ true =
          All-In _ old rs h.0 (find-In (key old) rs old rest) in
        let below : text_lt (key old) (key r) ≡ false = text_lt_asym (key r) (key old) above in
        let first : text_eq (key r) (key new) ≡ false = rw k other in
        let second : text_lt (key new) (key r) ≡ false = rw k below in
        rw (first, second, other, below)
          (ap (λ (xs : List R). r ∷ xs) (put-put_old old new rs h.1 rest k))
  ]
