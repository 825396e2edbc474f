-- ===== src/Backup/Versions.antt =====
-- packages/core/src/contracts/planner-backup.ts: reading a backup of any version. A source is given
-- as decoded. Each check in the schema of an old version is one of the current schema too, so that an
-- old row is checked once, after it is brought up to date.
use new_day.Prelude.{
  ℕ, Bool, Option, none, some, List, [], ◌∷◌, all, leb, if◌then◌else◌, ◌⊎◌, inl, inr,
}
use new_day.Prelude.Checked.{then_check}
use new_day.Prelude.Strings.{Text}
use new_day.Dates.{LocalDate}
use new_day.Host.{Host}
use new_day.Model.{
  Status, RecurrencePattern, RecurrenceEnd, Task, RecurrenceSeries, FocusRecord, task_schema,
  recurrence_series_schema, focus_record_schema, if_some,
}
use new_day.Result.{Result, ok, err, invalid, ◌>>=◌}
use new_day.Life.{
  inbox_item_check, folder_check, resource_check, link_check, trim_item, trim_folder, trim_resource,
}
use new_day.Backup.{PlannerBackup, BackupError, unreadable, validate_planner_backup}

pub record VersionThreeTask : Type 0 where
  pub id : Text
  pub title : Text
  pub notes : Text
  pub start_date : LocalDate
  pub end_date : LocalDate
  pub status : Status
  pub created_at : Text
  pub updated_at : Text
  pub completed_at : Option Text
  pub completed_on : Option LocalDate
  pub series_id : Option Text
  pub occurrence_date : Option LocalDate
  pub occurrence_key : Option Text
  pub is_series_exception : Option Bool

pub record VersionThreeRecurrenceSeries : Type 0 where
  pub id : Text
  pub title : Text
  pub notes : Text
  pub start_date : LocalDate
  pub pattern : RecurrencePattern
  pub end : RecurrenceEnd
  pub excluded_dates : List LocalDate
  pub created_at : Text
  pub updated_at : Text

pub record VersionTwoTask : Type 0 where
  pub id : Text
  pub title : Text
  pub notes : Text
  pub start_date : LocalDate
  pub end_date : LocalDate
  pub status : Status
  pub created_at : Text
  pub updated_at : Text
  pub completed_at : Option Text

pub record LegacyTask : Type 0 where
  pub id : Text
  pub title : Text
  pub notes : Text
  pub planned_date : LocalDate
  pub status : Status
  pub estimated_minutes : Option ℕ
  pub created_at : Text
  pub updated_at : Text
  pub completed_at : Option Text

-- What stands in a backup file, after `exportedAt`.
pub data BackupSource : Type 0 where
  not_a_backup : BackupSource
  current : PlannerBackup → BackupSource
  version_four : Text → List Task → List RecurrenceSeries → List FocusRecord → BackupSource
  version_three :
      Text
      → List VersionThreeTask
      → List VersionThreeRecurrenceSeries
      → List FocusRecord
      → BackupSource
  version_two : Text → List VersionTwoTask → BackupSource
  version_one : Text → List LegacyTask → BackupSource

-- `array.map` with a schema, and `z.array`.
unfoldable pub parse_list : {A B : Type 0} → (A → Result B) → List A → Result (List B)
parse_list f [] = ok []
parse_list f (x ∷ xs) = f x >>= λ y. parse_list f xs >>= λ ys. ok (y ∷ ys)

abbrev pub checked : {A : Type 0} → (A → Bool) → A → Result A
checked test a = if test a then ok a else err invalid

abbrev pub raise_task : VersionThreeTask → Task
raise_task t = record {
  id = t.id;
  title = t.title;
  notes = t.notes;
  start_date = some t.start_date;
  end_date = some t.end_date;
  status = t.status;
  created_at = t.created_at;
  updated_at = t.updated_at;
  completed_at = t.completed_at;
  completed_on = t.completed_on;
  series_id = t.series_id;
  logical_series_id = t.series_id;
  occurrence_date = t.occurrence_date;
  occurrence_key = t.occurrence_key;
  is_series_exception = t.is_series_exception;
  archived = none;
}

abbrev pub raise_series : VersionThreeRecurrenceSeries → RecurrenceSeries
raise_series s = record {
  id = s.id;
  logical_series_id = s.id;
  title = s.title;
  notes = s.notes;
  start_date = s.start_date;
  effective_end_date = none;
  pattern = s.pattern;
  end = s.end;
  excluded_dates = s.excluded_dates;
  disabled = none;
  created_at = s.created_at;
  updated_at = s.updated_at;
}

-- A task that does not recur.
abbrev single_task :
    Text → Text → Text → LocalDate → LocalDate → Status → Text → Text → Option Text → Task
single_task id title notes start end status created_at updated_at completed_at = record {
  id = id;
  title = title;
  notes = notes;
  start_date = some start;
  end_date = some end;
  status = status;
  created_at = created_at;
  updated_at = updated_at;
  completed_at = completed_at;
  completed_on = none;
  series_id = none;
  logical_series_id = none;
  occurrence_date = none;
  occurrence_key = none;
  is_series_exception = none;
  archived = none;
}

abbrev pub raise_version_two : VersionTwoTask → Task
raise_version_two t =
    single_task t.id t.title t.notes t.start_date t.end_date t.status t.created_at t.updated_at
      t.completed_at

abbrev pub raise_legacy : LegacyTask → Task
raise_legacy t =
    single_task t.id t.title t.notes t.planned_date t.planned_date t.status t.created_at
      t.updated_at t.completed_at

abbrev pub backup_of : Text → List Task → List RecurrenceSeries → List FocusRecord → PlannerBackup
backup_of exported_at tasks series focus = record {
  exported_at = exported_at;
  tasks = tasks;
  recurrence_series = series;
  focus_records = focus;
  inbox_items = [];
  folders = [];
  resources = [];
  resource_task_links = [];
  mapped_task_ids = none;
}

abbrev pub read :
    {A : Type 0} → Result A → (A → BackupError ⊎ PlannerBackup) → BackupError ⊎ PlannerBackup
read (ok a) next = next a
read (err e) next = inl unreadable

module _ (host : Host) (lower : Text → Text) where
  -- `plannerBackupSchema`.
  unfoldable pub planner_backup_schema : PlannerBackup → Result PlannerBackup
  planner_backup_schema b = checked host.is_instant b.exported_at >>= λ exported_at.
      parse_list (task_schema host) b.tasks >>= λ tasks.
      parse_list (recurrence_series_schema host) b.recurrence_series >>= λ series.
      parse_list (focus_record_schema host) b.focus_records >>= λ focus.
      parse_list (λ i. checked (inbox_item_check host.is_instant) (trim_item i)) b.inbox_items
      >>= λ items.
          parse_list (λ f. checked (folder_check host.is_instant) (trim_folder f)) b.folders
          >>= λ folders.
              parse_list (λ r. checked (resource_check host.is_instant) (trim_resource r))
                b.resources
              >>= λ resources. parse_list (checked link_check) b.resource_task_links >>= λ links.
                  ok (record b {
                    tasks = tasks;
                    recurrence_series = series;
                    focus_records = focus;
                    inbox_items = items;
                    folders = folders;
                    resources = resources;
                    resource_task_links = links;
                  })

  -- `parseAndValidateCurrentBackup`.
  unfoldable pub parse_and_validate_current_backup : PlannerBackup → BackupError ⊎ PlannerBackup
  parse_and_validate_current_backup candidate =
      read (planner_backup_schema candidate)
        (λ b. then_check (validate_planner_backup host lower b) (inr b))

  unfoldable pub parse_planner_backup : BackupSource → BackupError ⊎ PlannerBackup
  parse_planner_backup not_a_backup = inl unreadable
  parse_planner_backup (current b) = parse_and_validate_current_backup b
  parse_planner_backup (version_four at tasks series focus) =
      parse_and_validate_current_backup (backup_of at tasks series focus)
  parse_planner_backup (version_three at tasks series focus) =
      read (parse_list (λ t. task_schema host (raise_task t)) tasks) (λ raised.
        read (parse_list (λ s. recurrence_series_schema host (raise_series s)) series)
          (λ chains. parse_and_validate_current_backup (backup_of at raised chains focus)))
  parse_planner_backup (version_two at tasks) =
      read (parse_list (λ t. task_schema host (raise_version_two t)) tasks)
        (λ raised. parse_and_validate_current_backup (backup_of at raised [] []))
  parse_planner_backup (version_one at tasks) =
      if all (λ (t : LegacyTask). if_some (leb 1) t.estimated_minutes) tasks
      then read (parse_list (λ t. task_schema host (raise_legacy t)) tasks)
          (λ raised. parse_and_validate_current_backup (backup_of at raised [] []))
      else inl unreadable
