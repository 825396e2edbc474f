-- ===== src/Table.antt =====
-- A table of apps/api/src/storage/sqlite-planner-store.ts with a text primary key, as the list of
-- its payloads in the order of the key: `SELECT … ORDER BY id` is the list itself.
pub mod Order
pub mod Restore
use new_day.Prelude.{
  ◌≡◌, refl, Bool, true, false, not, Option, none, some, List, [], ◌∷◌, filter, arith,
  if◌then◌else◌, Bool-cases, inl, inr,
}
use new_day.Prelude.Strings.{Text, text_eq, text_lt, text_eq_iff}

module _ {R : Type 0} (key : R → Text) where
  -- `SELECT payload FROM … WHERE id = ?`.
  unfoldable pub find : Text → List R → Option R
  find id [] = none
  find id (r ∷ rs) = if text_eq (key r) id then some r else find id rs

  -- `INSERT … ON CONFLICT(id) DO UPDATE`.
  unfoldable pub put : R → List R → List R
  put row [] = row ∷ []
  put row (r ∷ rs) =
      let rest = put row rs in
      if text_eq (key r) (key row)
      then row ∷ rs
      else if text_lt (key row) (key r)
      then row ∷ r ∷ rs
      else r ∷ rest

  -- `DELETE FROM … WHERE id = ?`.
  unfoldable pub remove : Text → List R → List R
  remove id rs = filter (λ r. not (text_eq (key r) id)) rs

module _ {R : Type 0} (key : R → Text) where
  pub find-put :
      (id : Text) (row : R) (rs : List R)
      → find key id (put key row rs) ≡ (if text_eq (key row) id then some row else find key id rs)
  unfolding find put
  find-put id row [] = refl
  find-put id row (r ∷ rs) = ground (
    arith,
    text_eq_iff (key r) (key row),
    text_eq_iff (key r) id,
    text_eq_iff (key row) id,
    find-put id row rs,
  )

  pub find-remove :
      (id other : Text) (rs : List R)
      → find key id (remove key other rs) ≡ (if text_eq other id then none else find key id rs)
  unfolding find remove
  find-remove id other [] = ground arith
  find-remove id other (r ∷ rs) = ground (
    arith,
    text_eq_iff (key r) other,
    text_eq_iff (key r) id,
    text_eq_iff other id,
    find-remove id other rs,
  )

  -- The row that is found has the key that was asked for.
  pub key-find : (id : Text) (rs : List R) (row : R) → find key id rs ≡ some row → key row ≡ id
  unfolding find
  key-find id [] row h = ground arith
  key-find id (r ∷ rs) row h = ground (arith, text_eq_iff (key r) id, key-find id rs row)
