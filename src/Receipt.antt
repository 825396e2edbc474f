-- ===== src/Receipt.antt =====
-- packages/core/src/application/planner-undo.ts: publishing a receipt, and undoing by it.
pub mod Expired
use new_day.Prelude.{
  Bool, true, false, not, ◌&&◌, ◌||◌, Option, none, some, List, [], ◌∷◌, ◌++◌, length, ◌+◌, ◌==◌,
  if◌then◌else◌, holds,
}
use new_day.Prelude.Strings.{Text, text_eq}
use new_day.Host.{Host}
use new_day.Model.{Task, RecurrenceSeries, FocusRecord, ResourceTaskLink, is_open}
use new_day.Result.{Result, ok, err, undo_expired, series_changed, guard}
use new_day.Undo.{Snapshots, has, UndoChangeSet, StoredUndo}
use new_day.Session.{
  Session, Callback, set_latest, delete_latest, delete_if_latest, Exec, pure, throw, lift, continue,
  ◌>>=◌, ◌>>◌, for_each,
}
use new_day.Store.{
  put_task, delete_task, list_tasks_by_series, put_recurrence_series, delete_recurrence_series,
  put_focus_record, delete_focus_record, list_focus_records_for_task, put_resource_task_link,
  after_commit, transaction,
}

-- `size`, and `length` of the links, all zero.
unfoldable pub is_empty : UndoChangeSet → Bool
is_empty c =
    length c.tasks == 0
    && length c.recurrence_series == 0
    && length c.focus_records == 0
    && length c.resource_task_links == 0

unfoldable pub clear_undo_receipts : Exec (Unit {0})
clear_undo_receipts = after_commit delete_latest

module _ (host : Host) where
  unfoldable pub take_uuid : Exec Text
  take_uuid s = (ok (host.random_uuid s.uuids), record s { uuids = s.uuids + 1 })

  unfoldable pub read_changes : Exec UndoChangeSet
  read_changes s = (ok s.changes, s)

  -- The receipt is the token of what was stored.
  unfoldable pub publish_undo_receipt : Exec (Option Text)
  publish_undo_receipt = do
    changes ← read_changes
    if is_empty changes then (clear_undo_receipts >> pure none) else (do
      token ← take_uuid
      after_commit (set_latest (record { token = token; changes = changes }))
      pure (some token))

-- The snapshots of rows that were there.
unfoldable pub restored : {R : Type 0} → Snapshots R → List R
restored [] = []
restored ((id, none) ∷ snaps) = restored snaps
restored ((id, some row) ∷ snaps) = row ∷ restored snaps

-- The keys of rows that were not there.
unfoldable pub created : {R : Type 0} → Snapshots R → List Text
created [] = []
created ((id, none) ∷ snaps) = id ∷ created snaps
created ((id, some row) ∷ snaps) = created snaps

-- The body of the inner loop of `deleteUntrackedTasksForCreatedSeries`.
unfoldable pub delete_untracked : Snapshots Task → Task → Exec (Unit {0})
delete_untracked tracked task = if has task.id tracked then pure tt else (do
  lift (guard (is_open task.status && holds not task.is_series_exception) series_changed)
  records ← list_focus_records_for_task task.id
  for_each records (λ f. delete_focus_record f.id)
  delete_task task.id)

unfoldable pub delete_untracked_tasks_for_created_series : UndoChangeSet → Exec (Unit {0})
delete_untracked_tasks_for_created_series c =
    for_each (created c.recurrence_series)
      (λ id. list_tasks_by_series id >>= λ tasks. for_each tasks (delete_untracked c.tasks))

-- What `undoPlannerCommand` does to the tables once the receipt has been accepted.
unfoldable pub restore_changes : UndoChangeSet → Exec (Unit {0})
restore_changes c = do
  for_each (created c.focus_records) delete_focus_record
  delete_untracked_tasks_for_created_series c
  for_each (created c.tasks) delete_task
  for_each (created c.recurrence_series) delete_recurrence_series
  for_each (restored c.recurrence_series) put_recurrence_series
  for_each (restored c.tasks) put_task
  for_each (restored c.focus_records) put_focus_record
  for_each c.resource_task_links put_resource_task_link

-- The stored undo, if the receipt is its own.
unfoldable pub match_receipt : Text → Option StoredUndo → Result UndoChangeSet
match_receipt receipt none = err undo_expired
match_receipt receipt (some stored) =
    if text_eq stored.token receipt then ok stored.changes else err undo_expired

unfoldable pub read_latest : Exec (Option StoredUndo)
read_latest s = (ok s.latest_undo, s)

unfoldable pub undo_planner_command : Text → Exec (Unit {0})
undo_planner_command receipt = transaction (do
  latest ← read_latest
  changes ← lift (match_receipt receipt latest)
  restore_changes changes
  after_commit (delete_if_latest receipt))
