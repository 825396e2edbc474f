-- ===== src/Command/FreeKeys.antt =====
-- Where an occurrence key is free in well-formed tables.
use new_day.Prelude.{
  ◌≡◌, refl, sym, ap, ◌∙◌, inl, inr, true, false, not, ◌&&◌, some, List, In, any, arith, Bool-cases,
  Option-cases, &&_left, &&_right,
}
use new_day.Prelude.Strings.{Text, text_eq, text_eq_iff}
use new_day.Prelude.Lists.{any-witness}
use new_day.Host.{Host}
use new_day.Table
use new_day.Table.Order.{In-put}
use new_day.Table.{key-find, find-put}
use new_day.Model.{Task}
use new_day.Store.{key_taken, has_key}
use new_day.Store.Effects.{task_id}
use new_day.Command.WellFormed.{TasksOk}

has_key-some :
    (key : Text) (other : Task) → has_key key other ≡ true → other.occurrence_key ≡ some key
has_key-some key other h = elim (Option-cases other.occurrence_key) [
  | inl e ↦ absurd (ground arith)
  | inr (k, e) ↦
      let same : text_eq key k ≡ true = rw e at h in
      e ∙ ap (λ (x : Text). some x) (sym ((text_eq_iff key k).0 same))
]

-- A key is free where only rows with the id have it.
free_of :
    (new : Task) (tasks : List Task)
    → ((other : Task) (key : Text)
        → In other tasks
        → new.occurrence_key ≡ some key
        → other.occurrence_key ≡ some key
        → other.id ≡ new.id)
    → key_taken new tasks ≡ false
unfolding key_taken
free_of new tasks only = elim (Option-cases new.occurrence_key) [
  | inl e ↦ rw e refl
  | inr (key, e) ↦
      elim (Bool-cases (any (λ other. not (text_eq other.id new.id) && has_key key other) tasks)) [
        | inr free ↦ rw (e, free) refl
        | inl taken ↦ absurd (clash key e (any-witness _ tasks taken))
      ]
]
  where
    clash :
        (key : Text)
        → new.occurrence_key ≡ some key
        → ((other : Task) × In other tasks
            × ((not (text_eq other.id new.id) && has_key key other) ≡ true))
        → ⊥
    clash key e (other, i, h) =
        let k =
          has_key-some key other (&&_right (not (text_eq other.id new.id)) (has_key key other) h) in
        let d = &&_left (not (text_eq other.id new.id)) (has_key key other) h in
        let same = (text_eq_iff other.id new.id).1 (only other key i e k) in ground arith

-- In a well-formed table, a row with the id and the key of a row that is there has a free key.
pub key_free :
    (host : Host) (tasks : List Task) (old new : Task)
    → TasksOk host tasks
    → In old tasks
    → new.id ≡ old.id
    → new.occurrence_key ≡ old.occurrence_key
    → key_taken new tasks ≡ false
key_free host tasks old new h i same_id same_key =
    free_of new tasks
      (λ other key j e k. h.keys_unique other old key j i k (sym same_key ∙ e) ∙ sym same_id)

-- The same for the old row in the table that has the new row.
pub key_free_again :
    (host : Host) (tasks : List Task) (old new : Task)
    → TasksOk host tasks
    → In old tasks
    → new.id ≡ old.id
    → key_taken old (Table.put task_id new tasks) ≡ false
key_free_again host tasks old new h i same_id =
    free_of old (Table.put task_id new tasks) λ other key j e k.
      elim (In-put task_id other new tasks j) [
        | inl q ↦ ap task_id q ∙ same_id
        | inr m ↦ h.keys_unique other old key m i k e
      ]
