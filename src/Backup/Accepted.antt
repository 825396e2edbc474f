-- ===== src/Backup/Accepted.antt =====
-- Every backup that is read from a file is a backup in the sense of `IsBackup`.
use new_day.Prelude.{
  ◌≡◌, refl, sym, ap, ◌∙◌, ℕ, ◌≤◌, Bool, true, false, not, ◌&&◌, ◌||◌, Option, none, some, List, [],
  ◌∷◌, filter, any, length, is_some, holds, or_default, In, ◌⊎◌, inl, inr, arith, Bool-cases,
  if◌then◌else◌, leb, ltb, ◌==◌, ==_iff,
}
use new_day.Prelude.Lists.{along, In-filter}
use new_day.Prelude.Checked.{
  require, check_each, Apart, require-passed, then_check-passed, check_each-In, unique-Apart,
}
use new_day.Prelude.Strings.{Text}
use new_day.Host.{Host}
use new_day.Model.{Task, RecurrenceSeries, FocusRecord, ResourceTaskLink, is_open}
use new_day.Result.{Result, ok, err}
use new_day.Backup.{
  PlannerBackup, BackupError, same_key, assert_unique, same_link_key, same_occurrence,
  is_occurrence, has_task, has_resource, folder_by_id, check_parent, same_sibling, check_folders,
  is_mapped, check_task, check_item, check_resource, check_link, series_by_id, in_rule,
  returned_true, check_occurrence, check_excluded, check_series, check_chain, chain_of, task_by_id,
  is_visible, same_focus, check_focus, focus_on, check_focus_count, check_ids,
  validate_planner_backup,
}
use new_day.Backup.{unreadable}
use new_day.Backup.Versions.{
  BackupSource, not_a_backup, current, version_four, version_three, version_two, version_one,
  LegacyTask, read, planner_backup_schema, parse_and_validate_current_backup, parse_planner_backup,
  parse_list,
}
use new_day.Backup.Valid.{IsBackup, parent-rooted, folders-rooted, folders-Apart}
use new_day.Backup.Rows.{
  task-planned, item-Refers, resource-Refers, link-Refers, occurrence-Belongs, focus-Focusable,
  focus-Apart, focus-three,
}

-- The parts of the validation, which all passed.
pub record Passed (host : Host) (lower : Text → Text) (b : PlannerBackup) : Type 0 where
  pub ids : check_ids host lower b ≡ inr tt
  pub folders : check_folders lower b.folders [] b.folders ≡ inr tt
  pub tasks : check_each (check_task b) b.tasks ≡ inr tt
  pub items : check_each (check_item b) b.inbox_items ≡ inr tt
  pub resources : check_each (check_resource b) b.resources ≡ inr tt
  pub links : check_each (check_link b) b.resource_task_links ≡ inr tt
  pub keys :
      assert_unique same_occurrence new_day.Backup.repeated_occurrence_key
        (filter is_occurrence b.tasks)
      ≡ inr tt
  pub occurrences : check_each (check_occurrence host b) (filter is_occurrence b.tasks) ≡ inr tt
  pub series : check_series host lower b ≡ inr tt
  pub focus : check_focus b [] b.focus_records ≡ inr tt
  pub counts : check_each (check_focus_count b) b.focus_records ≡ inr tt

module _ (host : Host) (lower : Text → Text) (b : PlannerBackup) where
  pub validated-Passed : validate_planner_backup host lower b ≡ inr tt → Passed host lower b
  unfolding validate_planner_backup
  validated-Passed h0 =
      let (ids, h1) = then_check-passed _ _ tt h0 in
      let (folders, h2) = then_check-passed _ _ tt h1 in
      let (tasks, h3) = then_check-passed _ _ tt h2 in
      let (items, h4) = then_check-passed _ _ tt h3 in
      let (resources, h5) = then_check-passed _ _ tt h4 in
      let (links, h6) = then_check-passed _ _ tt h5 in
      let (keys, h7) = then_check-passed _ _ tt h6 in
      let (occurrences, h8) = then_check-passed _ _ tt h7 in
      let (series, h9) = then_check-passed _ _ tt h8 in
      let (focus, counts) = then_check-passed _ _ tt h9 in
      record {
        ids = ids;
        folders = folders;
        tasks = tasks;
        items = items;
        resources = resources;
        links = links;
        keys = keys;
        occurrences = occurrences;
        series = series;
        focus = focus;
        counts = counts;
      }

  Passed-IsBackup : Passed host lower b → IsBackup host lower b
  unfolding check_ids assert_unique
  Passed-IsBackup p =
      let (task_ids, h1) = then_check-passed _ _ tt p.ids in
      let (series_ids, h2) = then_check-passed _ _ tt h1 in
      let (focus_ids, h3) = then_check-passed _ _ tt h2 in
      let (item_ids, h4) = then_check-passed _ _ tt h3 in
      let (folder_ids, h5) = then_check-passed _ _ tt h4 in
      let (resource_ids, link_keys) = then_check-passed _ _ tt h5 in
      record {
        task_ids = unique-Apart _ _ [] b.tasks task_ids;
        series_ids = unique-Apart _ _ [] b.recurrence_series series_ids;
        focus_ids = unique-Apart _ _ [] b.focus_records focus_ids;
        item_ids = unique-Apart _ _ [] b.inbox_items item_ids;
        folder_ids = unique-Apart _ _ [] b.folders folder_ids;
        resource_ids = unique-Apart _ _ [] b.resources resource_ids;
        link_keys = unique-Apart _ _ [] b.resource_task_links link_keys;
        occurrence_keys = unique-Apart _ _ [] (filter is_occurrence b.tasks) p.keys;
        two_levels = λ f parent i e.
            parent-rooted b.folders f parent
              (folders-rooted lower b.folders [] b.folders p.folders f i) e;
        names_differ = folders-Apart lower b.folders [] b.folders p.folders;
        planned = λ t i. task-planned b t (check_each-In (check_task b) b.tasks p.tasks t i);
        sources =
            λ i id j. item-Refers b i id (check_each-In (check_item b) b.inbox_items p.items i j);
        filed = λ r id i.
            resource-Refers b r id (check_each-In (check_resource b) b.resources p.resources r i);
        linked =
            λ l i. link-Refers b l (check_each-In (check_link b) b.resource_task_links p.links l i);
        occurrences = λ t i e. occurrence-Belongs b host t (
            check_each-In (check_occurrence host b) (filter is_occurrence b.tasks) p.occurrences t
              (In-filter is_occurrence t b.tasks i e));
        focusable = focus-Focusable b p.focus;
        focus_differ = focus-Apart b [] b.focus_records p.focus;
        three_a_day = focus-three b p.counts;
      }

-- A backup that is read is a value of the schema and has passed the validation.
abbrev pub IsRead : Host → (Text → Text) → PlannerBackup → Type 0
IsRead host lower b =
    ((c : PlannerBackup) × (planner_backup_schema host lower c ≡ ok b))
    × (validate_planner_backup host lower b ≡ inr tt)

module _ (host : Host) (lower : Text → Text) where
  schema-IsRead :
      (c : PlannerBackup) (r : Result PlannerBackup) (b : PlannerBackup)
      → planner_backup_schema host lower c ≡ r
      → read r
          (λ x. new_day.Prelude.Checked.then_check (validate_planner_backup host lower x) (inr x))
        ≡ inr b
      → IsRead host lower b
  schema-IsRead c (err e) b q h = absurd (ground arith)
  schema-IsRead c (ok x) b q h =
      let (passed, same) = then_check-passed _ _ b h in
      along (IsRead host lower) (value x b same) ((c, q), passed)
    where
      value : (x y : PlannerBackup) → ◌≡◌ {A = BackupError ⊎ PlannerBackup} (inr x) (inr y) → x ≡ y
      value x y k = ap (λ (r : BackupError ⊎ PlannerBackup). elim r [ inl e ↦ x | inr z ↦ z ]) k

  current-IsRead :
      (candidate b : PlannerBackup)
      → parse_and_validate_current_backup host lower candidate ≡ inr b
      → IsRead host lower b
  unfolding parse_and_validate_current_backup
  current-IsRead candidate b h =
      schema-IsRead candidate (planner_backup_schema host lower candidate) b refl h

  read-IsRead :
      {A : Type 0} (r : Result A) (next : A → BackupError ⊎ PlannerBackup) (b : PlannerBackup)
      → ((a : A) → next a ≡ inr b → IsRead host lower b)
      → read r next ≡ inr b
      → IsRead host lower b
  read-IsRead (ok a) next b k h = k a h
  read-IsRead (err e) next b k h = absurd (ground arith)

  pub parsed-IsRead :
      (source : BackupSource) (b : PlannerBackup)
      → parse_planner_backup host lower source ≡ inr b
      → IsRead host lower b
  unfolding parse_planner_backup
  parsed-IsRead not_a_backup b h = absurd (ground arith)
  parsed-IsRead (current c) b h = current-IsRead c b h
  parsed-IsRead (version_four at tasks series focus) b h = current-IsRead _ b h
  parsed-IsRead (version_three at tasks series focus) b h =
      read-IsRead (parse_list _ tasks) _ b
        (λ raised. read-IsRead (parse_list _ series) _ b (λ chains. current-IsRead _ b)) h
  parsed-IsRead (version_two at tasks) b h =
      read-IsRead (parse_list _ tasks) _ b (λ raised. current-IsRead _ b) h
  parsed-IsRead (version_one at tasks) b h = go _ h
    where
      go :
          (positive : Bool)
          → (if positive
              then read
                  (parse_list
                    (λ t. new_day.Model.task_schema host (new_day.Backup.Versions.raise_legacy t))
                    tasks)
                  (λ raised.
                    parse_and_validate_current_backup host lower
                      (new_day.Backup.Versions.backup_of at raised [] []))
              else inl unreadable)
            ≡ inr b
          → IsRead host lower b
      go true k = read-IsRead (parse_list _ tasks) _ b (λ raised. current-IsRead _ b) k
      go false k = absurd (ground arith)

  -- Whatever the version of its file, a backup that is read satisfies the rules of a backup: ids,
  -- occurrence keys, links and the names of sibling folders are unique, every reference leads to a
  -- row of the backup, folders are two levels deep, open occurrences fall on the dates of their
  -- rule, tasks not mapped to Notion are planned, and each day has at most three focus records, of
  -- different tasks that are open and visible on that day.
  pub parse-IsBackup :
      (source : BackupSource) (b : PlannerBackup)
      → parse_planner_backup host lower source ≡ inr b
      → IsBackup host lower b
  parse-IsBackup source b h =
      Passed-IsBackup host lower b (validated-Passed host lower b (parsed-IsRead source b h).1)
