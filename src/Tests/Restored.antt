-- ===== src/Tests/Restored.antt =====
-- Backups at small inputs: two segments of a daily rule, one focus record, and a file of version 2.
use new_day.Prelude.{◌≡◌, refl, none, some, [], ◌∷◌, inr}
use new_day.Prelude.Strings.{Text, codes, text_eq, text_lt, utf16_length, trim}
use new_day.Prelude.Sorting.{insert_by, sort_by}
use new_day.Prelude.Maps.{map_get}
use new_day.Prelude.Checked.{require, then_check, check_each, unique_from}
use new_day.Dates.{is_local_date, days_in_month}
use new_day.Host.Gregorian.{gregorian}
use new_day.Model.{Task, RecurrenceSeries, daily, open_task}
use new_day.Life.{LifeFolder}
use new_day.Backup.{PlannerBackup}
use new_day.Backup.Versions.{
  VersionTwoTask, current, parse_list, planner_backup_schema, parse_and_validate_current_backup,
  parse_planner_backup,
}
use new_day.Backup.Valid.{IsBackup}
use new_day.Backup.Accepted.{parse-IsBackup}
use new_day.Tests.Data.{morning, report, report_focus, month_end}

abbrev january : RecurrenceSeries
january = record month_end { pattern = daily; effective_end_date = some 20260131 }

abbrev february : RecurrenceSeries
february = record month_end { id = codes "s2"; pattern = daily; start_date = 20260201 }

abbrev home : LifeFolder
home = record {
  id = codes "f";
  parent_id = none;
  name = codes "home";
  created_at = morning;
  updated_at = morning;
}

abbrev garden : LifeFolder
garden = record home { id = codes "g"; parent_id = some (codes "f"); name = codes "garden" }

abbrev saved : PlannerBackup
saved = record {
  exported_at = morning;
  tasks = report ∷ [];
  recurrence_series = january ∷ february ∷ [];
  focus_records = report_focus ∷ [];
  inbox_items = [];
  folders = home ∷ garden ∷ [];
  resources = [];
  resource_task_links = [];
  mapped_task_ids = none;
}

-- The names of the tests are in lower case.
abbrev same_text : Text → Text
same_text t = t

saved_parses : parse_planner_backup gregorian same_text (current saved) ≡ inr saved
unfolding parse_planner_backup parse_and_validate_current_backup planner_backup_schema parse_list
    gregorian new_day.Model.task_schema new_day.Model.task_check
    new_day.Model.recurrence_series_schema new_day.Model.series_check
    new_day.Model.focus_record_schema new_day.Model.focus_record_check utf16_length trim
    is_local_date days_in_month new_day.Life.folder_check then_check
    new_day.Backup.validate_planner_backup new_day.Backup.assert_unique new_day.Backup.check_chain
    new_day.Backup.check_excluded new_day.Backup.check_focus new_day.Backup.check_focus_count
    new_day.Backup.check_folders new_day.Backup.check_ids new_day.Backup.check_occurrence
    new_day.Backup.check_parent new_day.Backup.check_series new_day.Backup.check_task
    new_day.Model.completion_check new_day.Model.dates_check new_day.Model.ends_before
    new_day.Model.occurrence_check new_day.Model.recurrence_end_check
    new_day.Model.recurrence_pattern_check new_day.Model.series_order_check
    new_day.Model.task_fields_check check_each require unique_from map_get insert_by sort_by text_eq
    text_lt
saved_parses = refl

saved_example : IsBackup gregorian same_text saved
saved_example = parse-IsBackup gregorian same_text (current saved) saved saved_parses

abbrev old_task : VersionTwoTask
old_task = record {
  id = codes "t1";
  title = codes " report ";
  notes = [];
  start_date = 20260922;
  end_date = 20260923;
  status = open_task;
  created_at = morning;
  updated_at = morning;
  completed_at = none;
}

abbrev old_backup : PlannerBackup
old_backup = record saved { recurrence_series = []; focus_records = []; folders = [] }
