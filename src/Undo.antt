-- ===== src/Undo.antt =====
-- packages/core/src/application/planner-undo.ts, its data: the snapshots taken before a change. A
-- `Map` keeps the order in which its keys were first set, and `none` stands for a row that was not
-- there.
use new_day.Prelude.{Bool, Option, List, [], ◌∷◌, ◌++◌, any, if◌then◌else◌}
use new_day.Prelude.Strings.{Text, text_eq}
use new_day.Model.{Task, RecurrenceSeries, FocusRecord, ResourceTaskLink}

abbrev pub Snapshots : Type 0 → Type 0
Snapshots R = List (Text × Option R)

abbrev pub has : {R : Type 0} → Text → Snapshots R → Bool
has id snaps = any (λ e. text_eq e.0 id) snaps

-- Only the first snapshot of a row counts.
unfoldable pub capture : {R : Type 0} → Text → Option R → Snapshots R → Snapshots R
capture id row snaps = if has id snaps then snaps else snaps ++ (id, row) ∷ []

pub record UndoChangeSet : Type 0 where
  pub tasks : Snapshots Task
  pub recurrence_series : Snapshots RecurrenceSeries
  pub focus_records : Snapshots FocusRecord
  pub resource_task_links : List ResourceTaskLink

unfoldable pub create_undo_change_set : UndoChangeSet
create_undo_change_set = record {
  tasks = [];
  recurrence_series = [];
  focus_records = [];
  resource_task_links = [];
}

pub record StoredUndo : Type 0 where
  pub token : Text
  pub changes : UndoChangeSet
