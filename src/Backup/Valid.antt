-- ===== src/Backup/Valid.antt =====
-- What a backup that is accepted is known to satisfy, said without the checks.
use new_day.Prelude.{
  ◌≡◌, refl, sym, ◌≤◌, true, false, not, ◌||◌, Option, none, some, List, [], ◌∷◌, filter, any,
  length, is_some, or_default, In, inl, inr, arith,
}
use new_day.Prelude.Lists.{along, any-witness}
use new_day.Prelude.Maps.{map_get-In, holds-some}
use new_day.Prelude.Checked.{Apart, require-passed, then_check-passed}
use new_day.Prelude.Strings.{Text, text_eq, text_eq_iff}
use new_day.Dates.{LocalDate}
use new_day.Host.{Host}
use new_day.Model.{Task, RecurrenceSeries, FocusRecord, ResourceTaskLink, is_open}
use new_day.Recurrence.{recurs_on_date}
use new_day.Result.{ok}
use new_day.Life.{InboxItem, LifeFolder, LifeResource}
use new_day.Backup.{
  PlannerBackup, same_key, same_link_key, same_occurrence, is_occurrence, folder_by_id,
  check_parent, same_sibling, check_folders, is_mapped, is_visible, same_focus, focus_on,
}

-- The row of a table that an id refers to.
abbrev pub Refers : {A : Type 0} → (A → Text) → List A → Text → A → Type 0
Refers key rows id row = In row rows × (key row ≡ id)

-- The rule segment that an occurrence belongs to.
pub record Belongs (host : Host) (b : PlannerBackup) (t : Task) (s : RecurrenceSeries)
    : Type 0 where
  pub there : In s b.recurrence_series
  pub same_series : t.series_id ≡ some s.id
  pub same_lineage : t.logical_series_id ≡ some s.logical_series_id
  -- an open occurrence that is no exception falls on a date of the rule
  pub ordinary :
      is_open t.status ≡ true
      → t.is_series_exception ≡ some false
      → (d : LocalDate) × (t.occurrence_date ≡ some d) × (recurs_on_date host s d ≡ ok true)

-- The task of a focus record: open, not archived, and planned for that day or overdue.
pub record Focusable (b : PlannerBackup) (f : FocusRecord) (t : Task) : Type 0 where
  pub there : In t b.tasks
  pub same_task : t.id ≡ f.task_id
  pub undone : is_open t.status ≡ true
  pub kept : or_default t.archived false ≡ false
  pub visible : is_visible t f.date ≡ true

pub record IsBackup (host : Host) (lower : Text → Text) (b : PlannerBackup) : Type 0 where
  pub task_ids : Apart (same_key (λ (t : Task). t.id)) b.tasks
  pub series_ids : Apart (same_key (λ (s : RecurrenceSeries). s.id)) b.recurrence_series
  pub focus_ids : Apart (same_key (λ (f : FocusRecord). f.id)) b.focus_records
  pub item_ids : Apart (same_key (λ (i : InboxItem). i.id)) b.inbox_items
  pub folder_ids : Apart (same_key (λ (f : LifeFolder). f.id)) b.folders
  pub resource_ids : Apart (same_key (λ (r : LifeResource). r.id)) b.resources
  pub link_keys : Apart same_link_key b.resource_task_links
  pub occurrence_keys : Apart same_occurrence (filter is_occurrence b.tasks)
  -- folders are at most two levels deep, and siblings have different names
  pub two_levels :
      (f : LifeFolder) (parent : Text)
      → In f b.folders
      → f.parent_id ≡ some parent
      → (g : LifeFolder) × Refers (λ (x : LifeFolder). x.id) b.folders parent g
        × (g.parent_id ≡ none)
  pub names_differ : Apart (same_sibling lower) b.folders
  -- what a task that is not mapped to Notion has
  pub planned :
      (t : Task)
      → In t b.tasks
      → is_mapped b t.id ≡ false
      → (is_some t.start_date ≡ true)
        × (or_default t.archived false ≡ false)
        × ((is_open t.status || is_some t.completed_at) ≡ true)
  pub sources :
      (i : InboxItem) (id : Text)
      → In i b.inbox_items
      → i.source_resource_id ≡ some id
      → (r : LifeResource) × Refers (λ (x : LifeResource). x.id) b.resources id r
  pub filed :
      (r : LifeResource) (id : Text)
      → In r b.resources
      → r.folder_id ≡ some id
      → (f : LifeFolder) × Refers (λ (x : LifeFolder). x.id) b.folders id f
  pub linked :
      (l : ResourceTaskLink)
      → In l b.resource_task_links
      → ((r : LifeResource) × Refers (λ (x : LifeResource). x.id) b.resources l.resource_id r)
        × ((t : Task) × Refers (λ (x : Task). x.id) b.tasks l.task_id t)
  pub occurrences :
      (t : Task)
      → In t b.tasks
      → is_occurrence t ≡ true
      → (s : RecurrenceSeries) × Belongs host b t s
  pub focusable : (f : FocusRecord) → In f b.focus_records → (t : Task) × Focusable b f t
  pub focus_differ : Apart same_focus b.focus_records
  pub three_a_day : (d : LocalDate) → length (focus_on b d) ≤ 3

pub any-Refers :
    {A : Type 0} (key : A → Text) (rows : List A) (id : Text)
    → any (λ row. text_eq (key row) id) rows ≡ true
    → (row : A) × Refers key rows id row
any-Refers key rows id h =
    let (row, i, e) = any-witness (λ row. text_eq (key row) id) rows h in
    (row, (i, (text_eq_iff (key row) id).0 e))

pub parent-rooted :
    (folders : List LifeFolder) (f : LifeFolder) (parent : Text)
    → check_parent folders f ≡ inr tt
    → f.parent_id ≡ some parent
    → (g : LifeFolder) × Refers (λ (x : LifeFolder). x.id) folders parent g × (g.parent_id ≡ none)
unfolding check_parent
parent-rooted folders f parent h e =
    let (found, h1) = require-passed _ _ _ tt (rw e at h) in
    let (root, _) = require-passed _ _ _ tt h1 in
    let (g, got, at_root) =
      holds-some (λ (p : LifeFolder). not (is_some p.parent_id)) (folder_by_id folders parent)
        root in
    let (i, same) = map_get-In (λ (x : LifeFolder). x.id) parent folders g got in
    (g, (i, same), no_parent g.parent_id at_root)
  where
    no_parent : (o : Option Text) → not (is_some o) ≡ true → o ≡ none
    no_parent none k = refl
    no_parent (some x) k = absurd (ground arith)

module _ (lower : Text → Text) (folders : List LifeFolder) where
  pub folders-rooted :
      (seen rest : List LifeFolder)
      → check_folders lower folders seen rest ≡ inr tt
      → (f : LifeFolder) → In f rest
      → check_parent folders f ≡ inr tt
  unfolding check_folders
  folders-rooted seen [] h f i = absurd i
  folders-rooted seen (x ∷ xs) h f (inl e) =
      along (λ y. check_parent folders y ≡ inr tt) (sym e) (then_check-passed _ _ tt h).0
  folders-rooted seen (x ∷ xs) h f (inr i) =
      folders-rooted (x ∷ seen) xs (require-passed _ _ _ tt (then_check-passed _ _ tt h).1).1 f i

  folders-unseen :
      (seen rest : List LifeFolder)
      → check_folders lower folders seen rest ≡ inr tt
      → (f : LifeFolder) → In f rest
      → any (same_sibling lower f) seen ≡ false
  unfolding check_folders
  folders-unseen seen [] h f i = absurd i
  folders-unseen seen (x ∷ xs) h f (inl e) =
      let (fresh, _) = require-passed _ _ _ tt (then_check-passed _ _ tt h).1 in
      along (λ z. any (same_sibling lower z) seen ≡ false) (sym e) (ground arith)
  folders-unseen seen (x ∷ xs) h f (inr i) =
      let (fresh, later) = require-passed _ _ _ tt (then_check-passed _ _ tt h).1 in
      ground (arith, folders-unseen (x ∷ seen) xs later f i)

  pub folders-Apart :
      (seen rest : List LifeFolder)
      → check_folders lower folders seen rest ≡ inr tt
      → Apart (same_sibling lower) rest
  unfolding check_folders
  folders-Apart seen [] h = tt
  folders-Apart seen (x ∷ xs) h =
      let (fresh, later) = require-passed _ _ _ tt (then_check-passed _ _ tt h).1 in
      (
        λ y i. ground (arith, folders-unseen (x ∷ seen) xs later y i),
        folders-Apart (x ∷ seen) xs later,
      )
