-- ===== src/Command/Focus.antt =====
-- `applyPlannerCommand` of planner-command.ts on today's focus.
use new_day.Prelude.{
  Bool, true, false, not, ◌&&◌, ◌∷◌, ◌++◌, any, filter, length, ltb, leb, ◌==◌, if◌then◌else◌,
  is_some, holds,
}
use new_day.Prelude.Strings.{Text, codes}
use new_day.Dates.{LocalDate, date_text}
use new_day.Host.{Host}
use new_day.Model.{FocusRecord, is_open, focus_record_schema}
use new_day.Recurrence.{parse_date}
use new_day.Result.{not_focusable, not_visible, focus_full, guard}
use new_day.Session.{Exec, pure, lift, ◌>>=◌, ◌>>◌, for_each}
use new_day.Store.{
  put_focus_record, delete_focus_record, list_focus_records_for_date, list_focus_records_for_task,
}
use new_day.Generation.{parse_instant}
use new_day.Command.{require_task}

-- `focus:${date}:${task.id}`.
abbrev pub focus_id : LocalDate → Text → Text
focus_id date task_id = codes "focus:" ++ (date_text date ++ b':' ∷ task_id)

module _ (host : Host) where
  -- The end of `setTodayFocus`: at most three tasks a day.
  unfoldable pub add_focus : LocalDate → Text → Text → Exec Bool
  add_focus date task_id focused_at = do
    date_focus ← list_focus_records_for_date date
    lift (guard (not (leb 3 (length date_focus))) focus_full)
    f ← lift (
        focus_record_schema host (record {
          id = focus_id date task_id;
          date = date;
          task_id = task_id;
          focused_at = focused_at;
        }))
    put_focus_record f
    pure true

  unfoldable pub apply_set_today_focus : Text → LocalDate → Text → Exec Bool
  apply_set_today_focus task_id date_input now = do
    date ← lift (parse_date date_input)
    focused_at ← lift (parse_instant host now)
    task ← require_task task_id
    lift (guard (is_open task.status && not (holds (λ b. b) task.archived)) not_focusable)
    lift (
        guard (is_some task.end_date && holds (λ start. not (ltb date start)) task.start_date)
          not_visible)
    task_focus ← list_focus_records_for_task task.id
    if any (λ (f : FocusRecord). f.date == date) task_focus
        then pure false
        else add_focus date task.id focused_at

  unfoldable pub apply_remove_today_focus : Text → LocalDate → Exec Bool
  apply_remove_today_focus task_id date_input = do
    date ← lift (parse_date date_input)
    records ← list_focus_records_for_task task_id
    let matching = filter (λ (f : FocusRecord). f.date == date) records
    for_each matching (λ f. delete_focus_record f.id)
    pure (leb 1 (length matching))
