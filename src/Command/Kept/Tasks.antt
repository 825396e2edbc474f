-- ===== src/Command/Kept/Tasks.antt =====
-- The commands on single tasks keep what checked writes keep.
use new_day.Prelude.{Bool, true, false, Option, none, some}
use new_day.Prelude.Strings.{Text}
use new_day.Dates.{LocalDate}
use new_day.Host.{Host}
use new_day.Model.{Task}
use new_day.Session.{Session, Exec}
use new_day.Session.Keeps.{Keeps, Keeps-pure, Keeps-bind-lift, keeps_rules}
use new_day.Store.Queries.{query_rules}
use new_day.Command.{CreateTaskInput, UpdateTaskInput}
use new_day.Command.Kept.{
  KeptByWrites, task_schema-check, series_schema-check, kept-capture_task,
  kept-capture_recurrence_series, kept-require_task, kept-require_recurrence_series,
  kept-capture_and_delete_task_focus, kept-capture_task_resource_links,
}
use new_day.Command.Tasks.{
  when, parse_if_given, exclude_date, apply_create_task, apply_update_task,
  apply_update_task_details, apply_reschedule_task, apply_complete_task, apply_reopen_task,
  apply_delete_task,
}
use new_day.Command.Focus.{apply_remove_today_focus}

ruleset reads = (query_rules, kept-require_task, kept-require_recurrence_series)

module _ (host : Host) {P : Session → Type 0} where
  kept-when : (b : Bool) (m : Exec (Unit {0})) → Keeps P m → Keeps P (when host b m)
  unfolding when
  kept-when true m h = h
  kept-when false m h = Keeps-pure tt

  kept-parse_if_given : (now : Option Text) → Keeps P (parse_if_given host now)
  unfolding parse_if_given
  kept-parse_if_given none = Keeps-pure tt
  kept-parse_if_given (some t) = search keeps_rules

module _ (host : Host) {P : Session → Type 0} (k : KeptByWrites host P) where
  open k use {put_task_kept, delete_task_kept, put_series_kept, delete_focus_kept}

  pub kept-create_task : (input : CreateTaskInput) → Keeps P (apply_create_task host input)
  unfolding apply_create_task
  kept-create_task input =
      search (Keeps-bind-lift, keeps_rules, reads, put_task_kept, task_schema-check host) depth 12

  pub kept-update_task : (input : UpdateTaskInput) → Keeps P (apply_update_task host input)
  unfolding apply_update_task
  kept-update_task input =
      search
        (
          Keeps-bind-lift,
          keeps_rules,
          reads,
          put_task_kept,
          task_schema-check host,
          kept-when,
          kept-capture_task host k,
          kept-capture_and_delete_task_focus host k,
        )
        depth 12

  pub kept-update_task_details :
      (task_id : Text) (title notes : Option Text) (now : Text) (batch : Bool)
      → Keeps P (apply_update_task_details host task_id title notes now batch)
  unfolding apply_update_task_details
  kept-update_task_details task_id title notes now batch =
      search
        (
          Keeps-bind-lift,
          keeps_rules,
          reads,
          put_task_kept,
          task_schema-check host,
          kept-when,
          kept-capture_task host k,
        )
        depth 12

  pub kept-reschedule_task :
      (task_id : Text) (start end : LocalDate) (now : Text)
      → Keeps P (apply_reschedule_task host task_id start end now)
  unfolding apply_reschedule_task
  kept-reschedule_task task_id start end now =
      search
        (
          Keeps-bind-lift,
          keeps_rules,
          reads,
          put_task_kept,
          task_schema-check host,
          kept-capture_task host k,
          kept-capture_and_delete_task_focus host k,
        )
        depth 12

  pub kept-complete_task :
      (task_id now : Text) (completed_on as_of_date : Option LocalDate)
      → Keeps P (apply_complete_task host task_id now completed_on as_of_date)
  unfolding apply_complete_task
  kept-complete_task task_id now completed_on as_of_date =
      search
        (
          Keeps-bind-lift,
          keeps_rules,
          reads,
          put_task_kept,
          task_schema-check host,
          kept-capture_task host k,
          kept-capture_and_delete_task_focus host k,
        )
        depth 12

  pub kept-reopen_task : (task_id now : Text) → Keeps P (apply_reopen_task host task_id now)
  unfolding apply_reopen_task
  kept-reopen_task task_id now =
      search
        (
          Keeps-bind-lift,
          keeps_rules,
          reads,
          put_task_kept,
          task_schema-check host,
          kept-capture_task host k,
        )
        depth 12

  kept-exclude_date :
      (task : Task) (now : Option Text) (date : Option LocalDate)
      → Keeps P (exclude_date host task now date)
  unfolding exclude_date
  kept-exclude_date task now none = Keeps-pure tt
  kept-exclude_date task now (some date) =
      search
        (
          Keeps-bind-lift,
          keeps_rules,
          reads,
          put_series_kept,
          series_schema-check host,
          kept-when,
          kept-capture_recurrence_series host k,
        )
        depth 12

  pub kept-delete_task :
      (task_id : Text) (now : Option Text) → Keeps P (apply_delete_task host task_id now)
  unfolding apply_delete_task
  kept-delete_task task_id now =
      search
        (
          keeps_rules,
          reads,
          delete_task_kept,
          kept-exclude_date,
          kept-parse_if_given,
          kept-capture_task host k,
          kept-capture_and_delete_task_focus host k,
          kept-capture_task_resource_links host k,
        )
        depth 12

  pub kept-remove_today_focus :
      (task_id : Text) (date : LocalDate) → Keeps P (apply_remove_today_focus host task_id date)
  unfolding apply_remove_today_focus
  kept-remove_today_focus task_id date = search (keeps_rules, reads, delete_focus_kept) depth 12
