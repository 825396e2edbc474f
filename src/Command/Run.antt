-- ===== src/Command/Run.antt =====
-- `applyPlannerCommand` and `runPlannerCommands` of planner-command.ts: a batch of commands is one
-- transaction, with one undo receipt.
use new_day.Prelude.{Bool, true, false, ◌||◌, Option, none, List, [], ◌∷◌}
use new_day.Prelude.Strings.{Text, text_eq}
use new_day.Host.{Host}
use new_day.Undo.{create_undo_change_set}
use new_day.Session.{Session, Exec, pure, ◌>>=◌, ◌>>◌}
use new_day.Store.{transaction}
use new_day.Receipt.{publish_undo_receipt, clear_undo_receipts}
use new_day.Command.{
  PlannerCommand, create_task, update_task, update_task_details, reschedule_task, complete_task,
  reopen_task, delete_task, set_today_focus, remove_today_focus, create_recurrence_series,
  create_recurrence_series_from_task, update_recurrence_series, stop_recurrence_series,
}
use new_day.Command.Tasks.{
  apply_create_task, apply_update_task, apply_update_task_details, apply_reschedule_task,
  apply_complete_task, apply_reopen_task, apply_delete_task,
}
use new_day.Command.Focus.{apply_set_today_focus, apply_remove_today_focus}
use new_day.Command.Series.{
  apply_create_recurrence_series, apply_create_recurrence_series_from_task,
}
use new_day.Command.Series.Change.{apply_update_recurrence_series, apply_stop_recurrence_series}

-- `detailsIncludedInReschedule`: the batch moves the task as well.
unfoldable pub rescheduled_in : List PlannerCommand → Text → Bool
rescheduled_in [] id = false
rescheduled_in (reschedule_task task_id start end now ∷ rest) id =
    text_eq task_id id || rescheduled_in rest id
rescheduled_in (other ∷ rest) id = rescheduled_in rest id

module _ (host : Host) where
  unfoldable pub apply_planner_command : List PlannerCommand → PlannerCommand → Exec Bool
  apply_planner_command batch (create_task input) = apply_create_task host input
  apply_planner_command batch (update_task input) = apply_update_task host input
  apply_planner_command batch (update_task_details task_id title notes now) =
      apply_update_task_details host task_id title notes now (rescheduled_in batch task_id)
  apply_planner_command batch (reschedule_task task_id start end now) =
      apply_reschedule_task host task_id start end now
  apply_planner_command batch (complete_task task_id now completed_on as_of_date) =
      apply_complete_task host task_id now completed_on as_of_date
  apply_planner_command batch (reopen_task task_id now) = apply_reopen_task host task_id now
  apply_planner_command batch (delete_task task_id now) = apply_delete_task host task_id now
  apply_planner_command batch (set_today_focus task_id date now) =
      apply_set_today_focus host task_id date now
  apply_planner_command batch (remove_today_focus task_id date) =
      apply_remove_today_focus host task_id date
  apply_planner_command batch (create_recurrence_series input) =
      apply_create_recurrence_series host input
  apply_planner_command batch (create_recurrence_series_from_task input) =
      apply_create_recurrence_series_from_task host input
  apply_planner_command batch (update_recurrence_series input) =
      apply_update_recurrence_series host input
  apply_planner_command batch (stop_recurrence_series input) =
      apply_stop_recurrence_series host input

  -- The loop: whether any of the commands changed something.
  unfoldable pub apply_all : List PlannerCommand → List PlannerCommand → Bool → Exec Bool
  apply_all batch [] did_mutate = pure did_mutate
  apply_all batch (command ∷ rest) did_mutate = do
    mutated ← apply_planner_command batch command
    apply_all batch rest (mutated || did_mutate)

  abbrev pub start_changes : Session → Session
  start_changes s = record s { changes = create_undo_change_set }

  unfoldable pub finish_batch : Bool → Bool → Exec (Option Text)
  finish_batch publish_undo false = pure none
  finish_batch true true = publish_undo_receipt host
  finish_batch false true = clear_undo_receipts >> pure none

  unfoldable pub run_planner_commands : List PlannerCommand → Bool → Exec (Option Text)
  run_planner_commands [] publish_undo = pure none
  run_planner_commands (command ∷ rest) publish_undo = λ s.
      transaction (apply_all (command ∷ rest) (command ∷ rest) false >>= finish_batch publish_undo)
        (start_changes s)

  unfoldable pub execute_planner_commands : List PlannerCommand → Exec (Option Text)
  execute_planner_commands commands = run_planner_commands commands true

  unfoldable pub execute_planner_commands_without_undo : List PlannerCommand → Exec (Option Text)
  execute_planner_commands_without_undo commands = run_planner_commands commands false
