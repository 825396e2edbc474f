-- ===== src/Tests/Commands.antt =====
-- Batches of commands and undo at small inputs.
use new_day.Prelude.{◌≡◌, refl, inl, inr, true, none, List, [], ◌∷◌, In, arith}
use new_day.Prelude.Strings.{codes, text_eq, text_lt, utf16_length, trim}
use new_day.Dates.{is_local_date, days_in_month, read_date}
use new_day.Host.Gregorian.{gregorian}
use new_day.Model.{Task, FocusRecord, task_check, task_schema, series_check, focus_record_check}
use new_day.Table.{find, put, remove}
use native.Mathlib.Decide.{ℕ_discrete}
use new_day.Undo.{capture, create_undo_change_set}
use new_day.Generation.{parse_instant}
use new_day.Recurrence.{parse_date}
use new_day.Store.{
  transaction, nested_transaction, put_task, write_task, get_task, same_row, key_taken,
  list_focus_records_for_task, delete_focus_record,
}
use new_day.Model.Equality.{Task-discrete}
use new_day.Command.Tasks.{apply_complete_task, apply_reopen_task}
use new_day.Command.{
  require_task, found_or, change, capture_task, capture_focus_record, capture_and_delete_task_focus,
}
use new_day.Result.{err, task_not_found, undo_expired}
use new_day.Session.{◌>>=◌, for_each, pure, lift, throw}
use new_day.Receipt.{undo_planner_command}
use new_day.Receipt.Expired.{undo_planner_command-expired, undo_planner_command-error}
use new_day.Command.{PlannerCommand, complete_task, reopen_task}
use new_day.Command.Atomic.{run_planner_commands-error}
use new_day.Command.WellFormed.{WellFormed}
use new_day.Command.WellFormed.Batch.{run_planner_commands-WellFormed}
use new_day.Command.Run.{run_planner_commands, apply_all, apply_planner_command}
use new_day.Tests.Data.{report, report_focus, focused_day, month_end, noon}

report_checks : task_check gregorian report ≡ true
unfolding task_check gregorian utf16_length is_local_date
report_checks = refl

month_end_checks : series_check gregorian month_end ≡ true
unfolding series_check gregorian utf16_length is_local_date
month_end_checks = refl

focus_checks : focus_record_check gregorian report_focus ≡ true
unfolding focus_record_check gregorian utf16_length is_local_date
focus_checks = refl

only_focus : (f : FocusRecord) → In f (report_focus ∷ []) → f ≡ report_focus
only_focus f i = elim i [ inl e ↦ e | inr n ↦ absurd n ]

only_task : (t : Task) → In t (report ∷ []) → t ≡ report
only_task t i = elim i [ inl e ↦ e | inr n ↦ absurd n ]

focused_day-WellFormed : WellFormed gregorian focused_day.tables
focused_day-WellFormed = record {
  tasks_ok = record {
    valid = (report_checks, tt);
    ordered = (tt, tt);
    keys_unique = λ a b key i j ea eb. let p = only_task a i in let q = only_task b j in cc;
  };
  series_ok = record { valid = (month_end_checks, tt); ordered = (tt, tt) };
  focus_ok = record {
    valid = (focus_checks, tt);
    ordered = (tt, tt);
    at_most_three = λ date. ground arith;
    once_a_day = λ f g i j ed et. let p = only_focus f i in let q = only_focus g j in cc;
  };
}

abbrev finish_report : List PlannerCommand
finish_report = complete_task (codes "t1") noon none none ∷ []

WellFormed-example :
    WellFormed gregorian (run_planner_commands gregorian finish_report true focused_day).1.tables
WellFormed-example =
    run_planner_commands-WellFormed gregorian finish_report true focused_day focused_day-WellFormed

-- The second command of this batch throws.
abbrev half_good : List PlannerCommand
half_good = complete_task (codes "t1") noon none none ∷ reopen_task (codes "t9") noon ∷ []

half_good_throws :
    (run_planner_commands gregorian half_good true focused_day).0
    ≡ err (task_not_found (codes "t9"))
unfolding run_planner_commands transaction ◌>>=◌ apply_all apply_planner_command apply_complete_task
    apply_reopen_task parse_instant gregorian parse_date is_local_date days_in_month read_date
    require_task get_task found_or find text_eq capture_task change capture create_undo_change_set
    capture_and_delete_task_focus list_focus_records_for_task for_each capture_focus_record
    delete_focus_record remove task_schema trim task_check utf16_length put_task nested_transaction
    write_task same_row Task-discrete ℕ_discrete key_taken put text_lt pure lift throw
half_good_throws = refl

error_example :
    (run_planner_commands gregorian half_good true focused_day).1.tables ≡ focused_day.tables
error_example =
    run_planner_commands-error gregorian half_good true focused_day (task_not_found (codes "t9"))
      half_good_throws

expired_example :
    ((undo_planner_command (codes "u1") focused_day).0 ≡ err undo_expired)
    × ((undo_planner_command (codes "u1") focused_day).1.tables ≡ focused_day.tables)
    × ((undo_planner_command (codes "u1") focused_day).1.latest_undo ≡ focused_day.latest_undo)
expired_example = undo_planner_command-expired (codes "u1") focused_day (λ stored h. ground arith)

undo_throws : (undo_planner_command (codes "u1") focused_day).0 ≡ err undo_expired
undo_throws = (undo_planner_command-expired (codes "u1") focused_day (λ stored h. ground arith)).0

undo_error_example : (undo_planner_command (codes "u1") focused_day).1.tables ≡ focused_day.tables
undo_error_example = undo_planner_command-error (codes "u1") focused_day undo_expired undo_throws
