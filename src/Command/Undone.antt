-- ===== src/Command/Undone.antt =====
-- Undo takes a reopening back: the batch returns a receipt, and the undo by it restores the table.
use new_day.Prelude.{
  ◌≡◌, refl, sym, ap, ◌∙◌, inl, inr, ◌+◌, true, false, Option, none, some, List, [], ◌∷◌, arith,
  Bool-cases, if◌then◌else◌,
}
use new_day.Prelude.Strings.{Text, text_eq_iff, text_eq_refl}
use new_day.Prelude.Lists.{along}
use new_day.Host.{Host}
use new_day.Table
use new_day.Table.Restore.{find-In, put-put_old}
use new_day.Table.{key-find, find-put}
use new_day.Model.{Task, open_task, completed, is_open, task_schema}
use new_day.Result.{Result, ok}
use new_day.Undo.{capture, create_undo_change_set}
use new_day.Session.{Session, pure, lift, ◌>>=◌, for_each}
use new_day.Store.{
  get_task, put_task, nested_transaction, write_task, same_row, key_taken, transaction,
  run_callbacks, after_commit,
}
use new_day.Model.Equality.{Task-discrete}
use new_day.Store.Effects.{task_id}
use new_day.Store.Lookup.{same_row-found}
use new_day.Generation.{parse_instant}
use new_day.Receipt.{
  is_empty, publish_undo_receipt, take_uuid, read_changes, undo_planner_command, read_latest,
  match_receipt, restore_changes, restored, created, delete_untracked_tasks_for_created_series,
}
use new_day.Command.{PlannerCommand, reopen_task, require_task, found_or, capture_task, change}
use new_day.Command.Tasks.{apply_reopen_task}
use new_day.Command.WellFormed.{TasksOk}
use new_day.Command.Run.{
  apply_planner_command, apply_all, finish_batch, run_planner_commands, execute_planner_commands,
}
use new_day.Command.FreeKeys.{key_free, key_free_again}

-- The batch that reopens the task `id`.
abbrev pub reopening : Text → Text → List PlannerCommand
reopening id now = reopen_task id now ∷ []

-- The receipt of the next batch.
abbrev pub token : Host → Session → Text
token host s = host.random_uuid s.uuids

-- What the batch leaves.
abbrev pub reopened : Host → Text → Text → Session → Session
reopened host id now s = (execute_planner_commands host (reopening id now) s).1

-- The reopened task before it is parsed.
abbrev pub candidate : Text → Task → Task
candidate now t = record t {
  status = open_task;
  completed_at = none;
  completed_on = none;
  updated_at = now;
}

module _ (host : Host) (id now : Text) (s : Session) (t u : Task) where
  abbrev expected : Session
  expected = record s {
    tables = record s.tables { tasks = Table.put task_id u s.tasks; revision = s.revision + 1 };
    callbacks = [];
    mutated = false;
    latest_undo = some (record {
      token = token host s;
      changes = record {
        tasks = (t.id, some t) ∷ [];
        recurrence_series = [];
        focus_records = [];
        resource_task_links = [];
      };
    });
    uuids = s.uuids + 1;
    changes = record {
      tasks = (t.id, some t) ∷ [];
      recurrence_series = [];
      focus_records = [];
      resource_task_links = [];
    };
  }

  reopening-returns :
      host.is_instant now ≡ true
      → Table.find task_id id s.tasks ≡ some t
      → is_open t.status ≡ false
      → task_schema host (candidate now t) ≡ ok u
      → same_row Task-discrete (Table.find task_id u.id s.tasks) u ≡ false
      → key_taken u s.tasks ≡ false
      → execute_planner_commands host (reopening id now) s ≡ (ok (some (token host s)), expected)
  unfolding execute_planner_commands run_planner_commands transaction ◌>>=◌ apply_all
      apply_planner_command apply_reopen_task parse_instant require_task get_task found_or
      capture_task change capture create_undo_change_set put_task nested_transaction write_task
      finish_batch publish_undo_receipt read_changes is_empty take_uuid after_commit run_callbacks
      pure lift
  reopening-returns instant found closed parsed changed free =
      rw (instant, found, closed, parsed, changed, free) refl

  undo-returns :
      same_row Task-discrete (Table.find task_id t.id (Table.put task_id u s.tasks)) t ≡ false
      → key_taken t (Table.put task_id u s.tasks) ≡ false
      → ((undo_planner_command (token host s) expected).0 ≡ ok tt)
        × ((undo_planner_command (token host s) expected).1.tasks
            ≡ Table.put task_id t (Table.put task_id u s.tasks))
        × ((undo_planner_command (token host s) expected).1.series ≡ s.series)
        × ((undo_planner_command (token host s) expected).1.focus ≡ s.focus)
        × ((undo_planner_command (token host s) expected).1.links ≡ s.links)
  unfolding undo_planner_command transaction ◌>>=◌ read_latest match_receipt restore_changes
      restored created delete_untracked_tasks_for_created_series for_each put_task
      nested_transaction write_task after_commit run_callbacks pure lift
  undo-returns changed free =
      rw (text_eq_refl, changed, free)
        (
          refl,
          rw (text_eq_refl (token host s)) refl,
          rw (text_eq_refl (token host s)) refl,
          rw (text_eq_refl (token host s)) refl,
          rw (text_eq_refl (token host s)) refl,
        )

  -- The stored row and the reopened one differ.
  differ :
      Table.find task_id u.id s.tasks ≡ some t
      → is_open t.status ≡ false
      → u.status ≡ open_task
      → same_row Task-discrete (Table.find task_id u.id s.tasks) u ≡ false
  differ found closed opened =
      elim (Bool-cases (same_row Task-discrete (Table.find task_id u.id s.tasks) u)) [
        | inr n ↦ n
        | inl e ↦
            let same : some t ≡ some u = sym found ∙ same_row-found _ u e in absurd (ground arith)
      ]

  differ_again :
      Table.find task_id t.id (Table.put task_id u s.tasks) ≡ some u
      → is_open t.status ≡ false
      → u.status ≡ open_task
      → same_row Task-discrete (Table.find task_id t.id (Table.put task_id u s.tasks)) t ≡ false
  differ_again found closed opened =
      elim (Bool-cases
        (same_row Task-discrete (Table.find task_id t.id (Table.put task_id u s.tasks)) t)) [
          | inr n ↦ n
          | inl e ↦
              let same : some u ≡ some t = sym found ∙ same_row-found _ t e in absurd (ground arith)
        ]

  parsed_candidate :
      task_schema host (candidate now t) ≡ ok u
      → (u.id ≡ t.id) × (u.occurrence_key ≡ t.occurrence_key) × (u.status ≡ open_task)
  unfolding task_schema
  parsed_candidate h = ground arith

  -- An undo by the token returns, and leaves the rows of `s`.
  abbrev IsTakenBack : Session → Type 0
  IsTakenBack v =
      ((undo_planner_command (token host s) v).0 ≡ ok tt)
      × ((undo_planner_command (token host s) v).1.tasks ≡ s.tasks)
      × ((undo_planner_command (token host s) v).1.series ≡ s.series)
      × ((undo_planner_command (token host s) v).1.focus ≡ s.focus)
      × ((undo_planner_command (token host s) v).1.links ≡ s.links)

  -- In a store with well-formed tasks, where `id` is a completed task and the instant and the reopened
  -- task pass their schemas: the batch that reopens the task returns a receipt, and the undo by this
  -- receipt, right after it, returns and leaves the tasks, series, focus records and links as they were
  -- before the batch.
  pub undo_planner_command-reopen :
      TasksOk host s.tasks
      → host.is_instant now ≡ true
      → Table.find task_id id s.tasks ≡ some t
      → t.status ≡ completed
      → task_schema host (candidate now t) ≡ ok u
      → ((execute_planner_commands host (reopening id now) s).0 ≡ ok (some (token host s)))
        × ((undo_planner_command (token host s) (reopened host id now s)).0 ≡ ok tt)
        × ((undo_planner_command (token host s) (reopened host id now s)).1.tasks ≡ s.tasks)
        × ((undo_planner_command (token host s) (reopened host id now s)).1.series ≡ s.series)
        × ((undo_planner_command (token host s) (reopened host id now s)).1.focus ≡ s.focus)
        × ((undo_planner_command (token host s) (reopened host id now s)).1.links ≡ s.links)
  undo_planner_command-reopen h instant found closed parsed =
      let shut : is_open t.status ≡ false = ground arith in
      let (same_id, same_key, opened) = parsed_candidate parsed in
      let id_is : t.id ≡ id = key-find task_id id s.tasks t found in
      let old_found : Table.find task_id t.id s.tasks ≡ some t =
        along (λ x. Table.find task_id x s.tasks ≡ some t) (sym id_is) found in
      let new_found : Table.find task_id u.id s.tasks ≡ some t =
        along (λ x. Table.find task_id x s.tasks ≡ some t) (sym same_id) old_found in
      let i = find-In task_id id s.tasks t found in
      let put_found : Table.find task_id t.id (Table.put task_id u s.tasks) ≡ some u =
        find-put task_id t.id u s.tasks
        ∙ ap (λ b. if b then some u else Table.find task_id t.id s.tasks)
            ((text_eq_iff u.id t.id).1 same_id) in
      let done =
        reopening-returns instant found shut parsed (differ new_found shut opened)
          (key_free host s.tasks t u h i same_id same_key) in
      let (a, b, c, d, e) =
        undo-returns (differ_again put_found shut opened)
          (key_free_again host s.tasks t u h i same_id) in
      let back = b ∙ put-put_old task_id t u s.tasks h.ordered old_found same_id in
      let after : expected ≡ (reopened host id now s) =
        sym (ap (λ (x : Result (Option Text) × Session). x.1) done) in
      let (f, g, i, j, k) = along IsTakenBack after (a, back, c, d, e) in
      (ap (λ (x : Result (Option Text) × Session). x.0) done, f, g, i, j, k)
