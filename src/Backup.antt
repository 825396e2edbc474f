-- ===== src/Backup.antt =====
-- packages/core/src/contracts/planner-backup.ts: backups of the planner and how they are validated.
-- Of `notionSync` in version 6 the task mappings are modelled; `validateNotionSyncBackup` is not.
pub mod Versions
pub mod Valid
pub mod Rows
pub mod Accepted
pub mod Chains
pub mod Segments
pub mod Again
use new_day.Prelude.{
  ℕ, Bool, true, false, not, ◌&&◌, ◌||◌, Option, none, some, List, [], ◌∷◌, filter, any, length,
  is_some, holds, or_default, if◌then◌else◌, leb, ltb, ◌==◌, ◌⊎◌, inl, inr, map,
}
use new_day.Prelude.Checked.{require, then_check, check_each, unique_from}
use new_day.Prelude.Sorting.{sort_by}
use new_day.Prelude.Strings.{Text, text_eq}
use new_day.Dates.{LocalDate}
use new_day.Host.{Host, negsuc}
use new_day.Model.{Task, RecurrenceSeries, FocusRecord, ResourceTaskLink, is_open, task_schema}
use new_day.Recurrence.{recurs_on_date}
use new_day.Result.{Result, ok, err}
use new_day.Life.{InboxItem, LifeFolder, LifeResource}
use new_day.Notion.Records.{same_id}
use new_day.Prelude.Maps.{map_get}

-- Version 5, and version 6 where the ids of the tasks that are mapped to Notion are given.
pub record PlannerBackup : Type 0 where
  pub exported_at : Text
  pub tasks : List Task
  pub recurrence_series : List RecurrenceSeries
  pub focus_records : List FocusRecord
  pub inbox_items : List InboxItem
  pub folders : List LifeFolder
  pub resources : List LifeResource
  pub resource_task_links : List ResourceTaskLink
  pub mapped_task_ids : Option (List Text)

-- The messages of the exceptions.
pub data BackupError : Type 0 where
  unreadable : BackupError
  repeated_task_id repeated_series_id repeated_focus_id repeated_item_id : BackupError
  repeated_folder_id repeated_resource_id repeated_link : BackupError
  parent_missing folder_too_deep repeated_name : BackupError
  unlinked_undated unlinked_archived unlinked_untimed : BackupError
  source_missing folder_missing link_broken : BackupError
  repeated_occurrence_key series_missing lineage_differs outside_rule : BackupError
  repeated_excluded_date last_segment_ends segments_apart : BackupError
  focus_task_missing focus_task_done focus_invisible focus_repeated focus_overfull : BackupError

abbrev Checks : Type 0
Checks = BackupError ⊎ Unit {0}

abbrev pub same_key : {A : Type 0} → (A → Text) → A → A → Bool
same_key key a b = text_eq (key a) (key b)

-- `assertUnique`.
unfoldable pub assert_unique : {A : Type 0} → (A → A → Bool) → BackupError → List A → Checks
assert_unique same error xs = unique_from same error [] xs

abbrev pub same_link_key : ResourceTaskLink → ResourceTaskLink → Bool
same_link_key a b = text_eq a.resource_id b.resource_id && text_eq a.task_id b.task_id

-- `undefined` keys do not occur among occurrence tasks.
abbrev pub same_occurrence : Task → Task → Bool
same_occurrence a b = same_id a.occurrence_key b.occurrence_key

abbrev pub is_occurrence : Task → Bool
is_occurrence t =
    is_some t.occurrence_key
    && is_some t.series_id
    && is_some t.logical_series_id
    && is_some t.occurrence_date

abbrev pub has_task : List Task → Text → Bool
has_task tasks id = any (λ (t : Task). text_eq t.id id) tasks

abbrev pub has_resource : List LifeResource → Text → Bool
has_resource resources id = any (λ (r : LifeResource). text_eq r.id id) resources

abbrev pub folder_by_id : List LifeFolder → Text → Option LifeFolder
folder_by_id folders id = map_get (λ (f : LifeFolder). f.id) id folders

-- A folder stands at the root, or in a folder at the root.
unfoldable pub check_parent : List LifeFolder → LifeFolder → Checks
check_parent folders f = elim f.parent_id [
  | none ↦ inr tt
  | some parent ↦ require (is_some (folder_by_id folders parent)) parent_missing (
      require (holds (λ (p : LifeFolder). not (is_some p.parent_id)) (folder_by_id folders parent))
        folder_too_deep (inr tt))
]

module _ (lower : Text → Text) where
  -- `siblingKey`, with `toLocaleLowerCase`.
  abbrev pub same_sibling : LifeFolder → LifeFolder → Bool
  same_sibling a b = same_id a.parent_id b.parent_id && text_eq (lower a.name) (lower b.name)

  -- The loop over the folders; `seen` are the folders of `siblingNames`.
  unfoldable pub check_folders : List LifeFolder → List LifeFolder → List LifeFolder → Checks
  check_folders folders seen [] = inr tt
  check_folders folders seen (f ∷ rest) = then_check (check_parent folders f) (
      require (not (any (same_sibling f) seen)) repeated_name
        (check_folders folders (f ∷ seen) rest))

abbrev pub is_mapped : PlannerBackup → Text → Bool
is_mapped b id = holds (λ ids. any (text_eq id) ids) b.mapped_task_ids

unfoldable pub check_task : PlannerBackup → Task → Checks
check_task b t = require (is_some t.start_date || is_mapped b t.id) unlinked_undated (
    require (not (or_default t.archived false) || is_mapped b t.id) unlinked_archived (
      require (is_open t.status || is_some t.completed_at || is_mapped b t.id) unlinked_untimed
        (inr tt)))

unfoldable pub check_item : PlannerBackup → InboxItem → Checks
check_item b i =
    require
      (not (is_some i.source_resource_id) || holds (has_resource b.resources) i.source_resource_id)
      source_missing (inr tt)

unfoldable pub check_resource : PlannerBackup → LifeResource → Checks
check_resource b r =
    require
      (not (is_some r.folder_id) || holds (λ id. is_some (folder_by_id b.folders id)) r.folder_id)
      folder_missing (inr tt)

unfoldable pub check_link : PlannerBackup → ResourceTaskLink → Checks
check_link b l =
    require (has_resource b.resources l.resource_id && has_task b.tasks l.task_id) link_broken
      (inr tt)

abbrev pub series_by_id : PlannerBackup → Option Text → Option RecurrenceSeries
series_by_id b none = none
series_by_id b (some id) = map_get (λ (s : RecurrenceSeries). s.id) id b.recurrence_series

-- `recursOnDate`, which throws on a date that is none.
abbrev returned_true : Result Bool → Bool
returned_true (ok b) = b
returned_true (err e) = false

module _ (host : Host) where
  abbrev pub in_rule : RecurrenceSeries → Option LocalDate → Bool
  in_rule s date = holds (λ d. returned_true (recurs_on_date host s d)) date

  unfoldable pub check_occurrence : PlannerBackup → Task → Checks
  check_occurrence b t =
      let series = series_by_id b t.series_id in
      require (is_some series) series_missing (
        require
          (holds (λ (s : RecurrenceSeries). holds (text_eq s.logical_series_id) t.logical_series_id)
            series)
          lineage_differs
          (require
            (not (is_open t.status && holds not t.is_series_exception)
              || holds (λ s. in_rule s t.occurrence_date) series)
            outside_rule (inr tt)))

  -- `left.startDate.localeCompare(right.startDate) || left.id.localeCompare(right.id)`.
  abbrev pub segment_le : RecurrenceSeries → RecurrenceSeries → Bool
  segment_le a b =
      ltb a.start_date b.start_date || (a.start_date == b.start_date && host.locale_le a.id b.id)

  abbrev pub chain_of : PlannerBackup → Text → List RecurrenceSeries
  chain_of b logical =
      sort_by segment_le
        (filter (λ (s : RecurrenceSeries). text_eq s.logical_series_id logical) b.recurrence_series)

  -- The last segment has no end, and each other ends on the day before the next one starts.
  unfoldable pub check_chain : List RecurrenceSeries → Checks
  check_chain [] = inr tt
  check_chain (s ∷ []) = require (not (is_some s.effective_end_date)) last_segment_ends (inr tt)
  check_chain (s ∷ t ∷ rest) =
      require (holds (λ e. e == host.add_days t.start_date (negsuc 0)) s.effective_end_date)
        segments_apart (check_chain (t ∷ rest))

abbrev same_number : LocalDate → LocalDate → Bool
same_number a b = a == b

unfoldable pub check_excluded : RecurrenceSeries → Checks
check_excluded s = unique_from same_number repeated_excluded_date [] s.excluded_dates

abbrev pub task_by_id : PlannerBackup → Text → Option Task
task_by_id b id = map_get (λ (t : Task). t.id) id b.tasks

-- On the record's date the task is planned, or overdue.
abbrev pub is_visible : Task → LocalDate → Bool
is_visible t date =
    holds (λ start. holds (λ end. (leb start date && leb date end) || ltb end date) t.end_date)
      t.start_date

abbrev pub same_focus : FocusRecord → FocusRecord → Bool
same_focus a b = a.date == b.date && text_eq a.task_id b.task_id

-- The loop over the focus records; `seen` are those of `focusKeys`.
unfoldable pub check_focus : PlannerBackup → List FocusRecord → List FocusRecord → Checks
check_focus b seen [] = inr tt
check_focus b seen (f ∷ rest) =
    let task = task_by_id b f.task_id in
    require (is_some task) focus_task_missing (
      require (holds (λ (t : Task). is_open t.status && not (or_default t.archived false)) task)
        focus_task_done
        (require (holds (λ t. is_visible t f.date) task) focus_invisible
          (require (not (any (same_focus f) seen)) focus_repeated (check_focus b (f ∷ seen) rest))))

abbrev pub focus_on : PlannerBackup → LocalDate → List FocusRecord
focus_on b date = filter (λ (f : FocusRecord). f.date == date) b.focus_records

unfoldable pub check_focus_count : PlannerBackup → FocusRecord → Checks
check_focus_count b f = require (leb (length (focus_on b f.date)) 3) focus_overfull (inr tt)

module _ (host : Host) (lower : Text → Text) where
  -- The chains are those of the logical ids that occur.
  unfoldable pub check_series : PlannerBackup → Checks
  check_series b = then_check (check_each check_excluded b.recurrence_series) (
      check_each (λ (s : RecurrenceSeries). check_chain host (chain_of host b s.logical_series_id))
        b.recurrence_series)

  unfoldable pub check_ids : PlannerBackup → Checks
  check_ids b =
      then_check (assert_unique (same_key (λ (t : Task). t.id)) repeated_task_id b.tasks) (
        then_check
          (assert_unique (same_key (λ (s : RecurrenceSeries). s.id)) repeated_series_id
            b.recurrence_series)
          (then_check
            (assert_unique (same_key (λ (f : FocusRecord). f.id)) repeated_focus_id b.focus_records)
            (then_check
              (assert_unique (same_key (λ (i : InboxItem). i.id)) repeated_item_id b.inbox_items)
              (then_check
                (assert_unique (same_key (λ (f : LifeFolder). f.id)) repeated_folder_id b.folders)
                (then_check
                  (assert_unique (same_key (λ (r : LifeResource). r.id)) repeated_resource_id
                    b.resources)
                  (assert_unique same_link_key repeated_link b.resource_task_links))))))

  unfoldable pub validate_planner_backup : PlannerBackup → Checks
  validate_planner_backup b = then_check (check_ids b) (
      then_check (check_folders lower b.folders [] b.folders) (
        then_check (check_each (check_task b) b.tasks) (
          then_check (check_each (check_item b) b.inbox_items) (
            then_check (check_each (check_resource b) b.resources) (
              then_check (check_each (check_link b) b.resource_task_links) (
                then_check
                  (assert_unique same_occurrence repeated_occurrence_key
                    (filter is_occurrence b.tasks))
                  (then_check (check_each (check_occurrence host b) (filter is_occurrence b.tasks))
                    (then_check (check_series b) (
                      then_check (check_focus b [] b.focus_records)
                        (check_each (check_focus_count b) b.focus_records))))))))))
