-- ===== src/Store/Lookup.antt =====
-- The table of tasks as a map from ids: what a read finds after a write and after a deletion.
use new_day.Prelude.{
  ◌≡◌, refl, ap, ◌⊎◌, inl, inr, true, false, Option, none, some, List, arith, Bool-cases,
  if◌then◌else◌,
}
use new_day.Prelude.Strings.{Text, text_eq, text_eq_iff}
use new_day.Prelude.Lists.{along}
use new_day.Table
use new_day.Table.{find-put}
use new_day.Model.{Task}
use new_day.Result.{ok, err, constraint}
use new_day.Session.{Session}
use new_day.Store.{same_row, nested_transaction, key_taken, write_task, put_task, get_task}
use new_day.Model.Equality.{Task-discrete}
use new_day.Store.Effects.{task_id}

says_yes : {A : Type 0} (x : Dec A) → (elim x [ yes _ ↦ true | no _ ↦ false ]) ≡ true → A
says_yes (yes a) h = a
says_yes (no n) h = absurd (ground arith)

pub same_row-found : (o : Option Task) (t : Task) → same_row Task-discrete o t ≡ true → o ≡ some t
unfolding same_row
same_row-found none t h = absurd (ground arith)
same_row-found (some b) t h = ap (λ (x : Task). some x) (says_yes (Task-discrete b t) h)

-- A row that is there already is found under its id.
found_as_is :
    (t : Task) (id : Text) (tasks : List Task)
    → Table.find task_id t.id tasks ≡ some t
    → Table.find task_id id tasks
      ≡ (if text_eq t.id id then some t else Table.find task_id id tasks)
found_as_is t id tasks h = elim (Bool-cases (text_eq t.id id)) [
  | inl same ↦
      rw same (along (λ x. Table.find task_id x tasks ≡ some t) ((text_eq_iff t.id id).0 same) h)
  | inr other ↦ rw other refl
]

-- A write of a task either returns, and then it is read back under its id and reads under other ids
-- find what they found before; or, only where another task has its occurrence key, it throws
-- `constraint` and changes no table.
pub get_task-put_task :
    (t : Task) (id : Text) (s : Session)
    → (((put_task t s).0 ≡ ok tt)
        × ((get_task id (put_task t s).1).0
            ≡ ok (if text_eq t.id id then some t else Table.find task_id id s.tasks)))
      ⊎ (((put_task t s).0 ≡ err constraint)
          × ((put_task t s).1.tables ≡ s.tables)
          × (key_taken t s.tasks ≡ true))
unfolding put_task nested_transaction write_task get_task
get_task-put_task t id s =
    elim (Bool-cases (same_row Task-discrete (Table.find task_id t.id s.tasks) t)) [
      | inl e ↦ rw e (
          inl (
            refl,
            ap (λ (o : Option Task). ok o) (found_as_is t id s.tasks (same_row-found _ t e)),
          ))
      | inr f ↦ elim (Bool-cases (key_taken t s.tasks)) [
        | inl k ↦ rw (f, k) (inr (refl, refl, refl))
        | inr n ↦
            rw (f, n) (inl (refl, ap (λ (o : Option Task). ok o) (find-put task_id id t s.tasks)))
      ]
    ]
