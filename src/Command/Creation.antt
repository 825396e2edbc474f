-- ===== src/Command/Creation.antt =====
-- `createTask`, on all its branches.
use new_day.Prelude.{◌≡◌, refl, ◌⊎◌, inl, inr, true, none, some, arith, Bool-cases, Option-cases}
use new_day.Prelude.Strings.{trim}
use new_day.Host.{Host}
use new_day.Table
use new_day.Model.{Task, task_check, task_schema}
use new_day.Result.{ok, err, invalid, task_exists}
use new_day.Session.{Session, pure, lift, ◌>>=◌}
use new_day.Store.{get_task, put_task, nested_transaction, write_task, same_row, key_taken}
use new_day.Store.Effects.{task_id}
use new_day.Command.{CreateTaskInput}
use new_day.Command.Tasks.{new_task, apply_create_task}

-- A write under a free id, of a task without an occurrence key, returns and adds the row.
put_new :
    (t : Task) (s : Session)
    → Table.find task_id t.id s.tasks ≡ none
    → t.occurrence_key ≡ none
    → ((put_task t s).0 ≡ ok tt) × ((put_task t s).1.tasks ≡ Table.put task_id t s.tasks)
unfolding put_task nested_transaction write_task same_row key_taken
put_new t s free plain = rw (free, plain) (refl, refl)

module _ (host : Host) where
  -- The schema keeps the id and the absence of an occurrence key.
  parsed_new :
      (input : CreateTaskInput) (t : Task)
      → task_schema host (new_task host input) ≡ ok t
      → (t.id ≡ input.id) × (t.occurrence_key ≡ none)
  unfolding task_schema
  parsed_new input t h = ground arith

  schema_or_invalid :
      (t : Task) → ((u : Task) × (task_schema host t ≡ ok u)) ⊎ (task_schema host t ≡ err invalid)
  unfolding task_schema
  schema_or_invalid t = elim (Bool-cases (task_check host (record t { title = trim t.title }))) [
    | inl c ↦ inl (record t { title = trim t.title }, rw c refl)
    | inr n ↦ inr (rw n refl)
  ]

  -- `createTask` either refuses an id that is taken; or refuses, with a ZodError, input that its
  -- schema does not accept; or returns true, the parsed task being the one row that is added. A
  -- refusal leaves the session as it was.
  pub apply_create_task-branches :
      (input : CreateTaskInput) (s : Session)
      → (((apply_create_task host input s) ≡ (err (task_exists input.id), s))
          × ((old : Task) × (Table.find task_id input.id s.tasks ≡ some old)))
        ⊎ (((apply_create_task host input s ≡ (err invalid, s))
              × (task_schema host (new_task host input) ≡ err invalid))
            ⊎ ((t : Task) × (task_schema host (new_task host input) ≡ ok t)
                × ((apply_create_task host input s).0 ≡ ok true)
                × ((apply_create_task host input s).1.tasks ≡ Table.put task_id t s.tasks)
                × (Table.find task_id input.id s.tasks ≡ none)))
  unfolding apply_create_task ◌>>=◌ get_task lift pure
  apply_create_task-branches input s = elim (Option-cases (Table.find task_id input.id s.tasks)) [
    | inr (old, e) ↦ inl (rw e refl, (old, e))
    | inl free ↦ inr (elim (schema_or_invalid (new_task host input)) [
      | inr bad ↦ inl (rw (free, bad) refl, bad)
      | inl (t, good) ↦
          let (same, plain) = parsed_new input t good in
          let (done, added) = put_new t s (rw same free) plain in
          inr (t, good, rw (free, good, done) refl, rw (free, good, done) added, free)
    ])
  ]
