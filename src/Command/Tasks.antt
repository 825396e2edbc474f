-- ===== src/Command/Tasks.antt =====
-- `applyPlannerCommand` of planner-command.ts on single tasks.
use new_day.Prelude.{
  Bool, true, false, not, ◌&&◌, ◌||◌, Option, none, some, [], ◌∷◌, ◌++◌, ◌==◌, if◌then◌else◌,
  is_some, or_default, holds,
}
use new_day.Prelude.Strings.{Text, text_eq}
use new_day.Prelude.Lists.{take}
use new_day.Prelude.Sorting.{unique_sorted}
use new_day.Dates.{LocalDate}
use new_day.Host.{Host}
use new_day.Model.{Task, open_task, completed, is_open, task_schema, recurrence_series_schema}
use new_day.Recurrence.{parse_date}
use new_day.Result.{task_exists, guard}
use new_day.Session.{Exec, pure, lift, ◌>>=◌, ◌>>◌}
use new_day.Store.{get_task, put_task, delete_task, put_recurrence_series}
use new_day.Generation.{parse_instant}
use new_day.Command.{
  CreateTaskInput, UpdateTaskInput, truthy, date_of_text, capture_task, capture_recurrence_series,
  require_task, require_recurrence_series, capture_and_delete_task_focus,
  capture_task_resource_links,
}

module _ (host : Host) where
  abbrev pub new_task : CreateTaskInput → Task
  new_task input = record {
    id = input.id;
    title = input.title;
    notes = or_default input.notes [];
    start_date = some input.start_date;
    end_date = some input.end_date;
    status = open_task;
    created_at = input.now;
    updated_at = input.now;
    completed_at = none;
    completed_on = none;
    series_id = none;
    logical_series_id = none;
    occurrence_date = none;
    occurrence_key = none;
    is_series_exception = none;
    archived = none;
  }

  unfoldable pub apply_create_task : CreateTaskInput → Exec Bool
  apply_create_task input = do
    existing ← get_task input.id
    lift (guard (not (is_some existing)) (task_exists input.id))
    task ← lift (task_schema host (new_task input))
    put_task task
    pure true

  -- `a !== undefined && a !== b`.
  abbrev moves : Option LocalDate → Option LocalDate → Bool
  moves none b = false
  moves (some a) b = not (holds (λ d. a == d) b)

  abbrev or_else : {A : Type 0} → Option A → Option A → Option A
  or_else none b = b
  or_else (some a) b = some a

  abbrev updated_task : UpdateTaskInput → Bool → Task → Task
  updated_task input rescheduled task = record task {
    title = or_default input.title task.title;
    notes = or_default input.notes task.notes;
    start_date = or_else input.start_date task.start_date;
    end_date = or_else input.end_date task.end_date;
    is_series_exception =
        if truthy task.series_id
        then (if rescheduled then some true else task.is_series_exception)
        else none;
    updated_at = input.now;
  }

  abbrev same_details : Task → Task → Bool
  same_details a b = text_eq a.title b.title && text_eq a.notes b.notes

  unfoldable pub when : Bool → Exec (Unit {0}) → Exec (Unit {0})
  when b m = if b then m else pure tt

  unfoldable pub apply_update_task : UpdateTaskInput → Exec Bool
  apply_update_task input = do
    lift (parse_instant host input.now)
    task ← require_task input.task_id
    let rescheduled = moves input.start_date task.start_date || moves input.end_date task.end_date
    updated ← lift (task_schema host (updated_task input rescheduled task))
    if not rescheduled && same_details updated task then pure false else do
      when rescheduled (capture_task task >> capture_and_delete_task_focus task.id)
      put_task updated
      pure true

  unfoldable pub apply_update_task_details :
      Text → Option Text → Option Text → Text → Bool → Exec Bool
  apply_update_task_details task_id title notes now capture_details_for_batch = do
    lift (parse_instant host now)
    task ← require_task task_id
    updated ← lift (
        task_schema host (record task {
          title = or_default title task.title;
          notes = or_default notes task.notes;
          is_series_exception = if truthy task.series_id then some true else none;
          updated_at = now;
        }))
    if same_details updated task
        then pure false
        else do when capture_details_for_batch (capture_task task); put_task updated; pure true

  abbrev same_date : Option LocalDate → Option LocalDate → Bool
  same_date none none = true
  same_date (some a) (some b) = a == b
  same_date _ _ = false

  unfoldable pub apply_reschedule_task : Text → LocalDate → LocalDate → Text → Exec Bool
  apply_reschedule_task task_id start_date end_date now = do
    lift (parse_instant host now)
    task ← require_task task_id
    updated ← lift (
        task_schema host (record task {
          start_date = some start_date;
          end_date = some end_date;
          is_series_exception = if truthy task.series_id then some true else none;
          updated_at = now;
        }))
    let unmoved =
        same_date updated.start_date task.start_date && same_date updated.end_date task.end_date
    if unmoved then pure false else do
      capture_task task
      capture_and_delete_task_focus task.id
      put_task updated
      pure true

  unfoldable pub apply_complete_task : Text → Text → Option LocalDate → Option LocalDate → Exec Bool
  apply_complete_task task_id now_text completed_on_input as_of_date = do
    now ← lift (parse_instant host now_text)
    completed_on ← lift (
        parse_date
          (or_default completed_on_input (or_default as_of_date (date_of_text (take 10 now)))))
    task ← require_task task_id
    if not (is_open task.status) then pure false else do
      capture_task task
      capture_and_delete_task_focus task.id
      updated ← lift (
          task_schema host (record task {
            status = completed;
            completed_at = some now;
            completed_on = some completed_on;
            updated_at = now;
          }))
      put_task updated
      pure true

  unfoldable pub apply_reopen_task : Text → Text → Exec Bool
  apply_reopen_task task_id now_text = do
    now ← lift (parse_instant host now_text)
    task ← require_task task_id
    if is_open task.status then pure false else do
      capture_task task
      updated ← lift (
          task_schema host (record task {
            status = open_task;
            completed_at = none;
            completed_on = none;
            updated_at = now;
          }))
      put_task updated
      pure true

  unfoldable pub parse_if_given : Option Text → Exec (Unit {0})
  parse_if_given none = pure tt
  parse_if_given (some t) = lift (parse_instant host t) >> pure tt

  -- The series of a deleted occurrence leaves that date out from then on.
  unfoldable pub exclude_date : Task → Option Text → Option LocalDate → Exec (Unit {0})
  exclude_date task now none = pure tt
  exclude_date task now (some date) = when (truthy task.series_id) (do
    series ← require_recurrence_series (or_default task.series_id [])
    capture_recurrence_series series
    updated ← lift (
        recurrence_series_schema host (record series {
          excluded_dates = unique_sorted (series.excluded_dates ++ date ∷ []);
          updated_at = or_default now series.updated_at;
        }))
    put_recurrence_series updated)

  unfoldable pub apply_delete_task : Text → Option Text → Exec Bool
  apply_delete_task task_id now = do
    parse_if_given now
    task ← require_task task_id
    capture_task task
    capture_and_delete_task_focus task.id
    capture_task_resource_links task.id
    exclude_date task now task.occurrence_date
    delete_task task.id
    pure true
