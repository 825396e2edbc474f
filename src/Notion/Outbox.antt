-- ===== src/Notion/Outbox.antt =====
-- The outbox of Notion writes: `enqueueNotionOutbox`, `markNotionOutboxSending` and the operations
-- on a claimed send of apps/api/src/storage/sqlite-planner-store.ts. A loop that writes back each
-- selected row under its own primary key is one pass over the table.
pub mod Sends
pub mod Confirm
pub mod Moves
pub mod Paths
pub mod Frames
pub mod Claims
pub mod Settles
pub mod Confirms
pub mod Steps
pub mod Promises
pub mod Queue
pub mod Fence
use new_day.Prelude.{
  ◌≡◌, ℕ, ◌+◌, Bool, true, false, not, ◌&&◌, ◌||◌, Option, none, some, List, [], ◌∷◌, ◌++◌, map,
  filter, any, all, is_some, holds, if◌then◌else◌, ◌⊎◌, inl, inr, ◌==◌,
}
use new_day.Prelude.Strings.{Text, text_eq, text_lt}
use new_day.Table
use new_day.Dates.{LocalDate}
use new_day.Model.{Task, is_open, if_some}
use new_day.Reconcile.{NotionTaskFields, fields_check, same_bool}
use new_day.Notion.Records.{
  NotionConnection, NotionTaskMapping, NotionOutboxOperation, SendingOwner, ConnectionStatus,
  active, paused, paused_unknown, paused_after_restore, disconnected, manual, preflight_read,
  PauseReason, OperationStatus, pending, sending, unknown, confirmed, superseded, quarantined,
  operation_check, trim_fields, trim_some, same_fields, same_baseline, same_id, active_mapping,
  non_empty_id,
}
use new_day.Notion.Sync.{
  SyncState, Process, Probe, running, not_permitted, no_such_process, NotionError, Outcome, threw,
  gave, Body, ◌>>=◌, ◌>>◌, done, check, present, when, ask, modify, invalid_value,
  constraint_failed, operation_not_new, operation_mapping_missing, operation_epoch_stale,
  operation_baseline_stale, operation_task_differs, inside_transaction, operation_not_pending,
  connection_paused, unresolved_send, pre_restore_send, operation_not_sending,
  paused_during_preflight, epoch_changed, mapping_changed, page_id_missing, no_send_attempt,
  operation_workspace_missing, operation_mapping_changed,
}
use new_day.Notion.Links.{
  get_notion_connection, get_notion_task_mapping, get_sync_task, put_notion_connection,
  put_notion_task_mapping,
}

abbrev pub is_status : OperationStatus → OperationStatus → Bool
is_status pending pending = true
is_status sending sending = true
is_status unknown unknown = true
is_status confirmed confirmed = true
is_status superseded superseded = true
is_status quarantined quarantined = true
is_status _ _ = false

-- `status IN ('sending','unknown','quarantined')`.
abbrev pub is_unresolved : OperationStatus → Bool
is_unresolved sending = true
is_unresolved unknown = true
is_unresolved quarantined = true
is_unresolved _ = false

abbrev pub is_active : ConnectionStatus → Bool
is_active active = true
is_active _ = false

abbrev pub is_paused : ConnectionStatus → Bool
is_paused paused = true
is_paused _ = false

abbrev pub is_manual : Option PauseReason → Bool
is_manual (some manual) = true
is_manual _ = false

abbrev pub get_notion_outbox_operation : Text → SyncState → Option NotionOutboxOperation
get_notion_outbox_operation id s =
    Table.find (λ (o : NotionOutboxOperation). o.operation_id) id s.outbox

abbrev pub waits_for : Text → NotionOutboxOperation → Bool
waits_for task o = text_eq o.local_task_id task && is_status o.status pending

-- `UPDATE notion_outbox … WHERE operation_id=?`.
abbrev pub replace_row : NotionOutboxOperation → NotionOutboxOperation → NotionOutboxOperation
replace_row new o = if text_eq o.operation_id new.operation_id then new else o

abbrev pub rewrite_rows : (NotionOutboxOperation → NotionOutboxOperation) → SyncState → SyncState
rewrite_rows g s = record s { outbox = map g s.outbox }

-- The date range of a task, against the desired one.
abbrev same_date : Option LocalDate → Option LocalDate → Bool
same_date none none = true
same_date (some a) (some b) = a == b
same_date _ _ = false

abbrev start_of : Option (LocalDate × LocalDate) → Option LocalDate
start_of none = none
start_of (some (a, b)) = some a

abbrev end_of : Option (LocalDate × LocalDate) → Option LocalDate
end_of none = none
end_of (some (a, b)) = some b

unfoldable pub task_matches : NotionOutboxOperation → Option Task → Bool
task_matches o none = false
task_matches o (some task) =
    text_eq task.title o.desired.title
    && same_date task.start_date (start_of o.desired.date)
    && same_date task.end_date (end_of o.desired.date)
    && same_bool (not (is_open task.status)) o.desired.completed

-- `assertNotionOperationTaskState`.
abbrev pub assert_notion_operation_task_state : NotionOutboxOperation → Body (Unit {0})
assert_notion_operation_task_state o = ask (get_sync_task o.local_task_id) >>= λ task.
    check (task_matches o task) operation_task_differs

-- `!mapping || mapping.workspaceId !== operation.workspaceId`, negated, and the baseline's test.
abbrev pub maps_workspace : NotionOutboxOperation → Option NotionTaskMapping → Bool
maps_workspace o mapping =
    holds (λ (m : NotionTaskMapping). text_eq m.workspace_id o.workspace_id) mapping

abbrev pub maps_baseline : NotionOutboxOperation → Option NotionTaskMapping → Bool
maps_baseline o mapping =
    holds (λ (m : NotionTaskMapping). same_baseline m.baseline o.baseline) mapping

-- `isNotionSenderLive`.
unfoldable pub is_notion_sender_live : Process → Option SendingOwner → Bool
is_notion_sender_live p none = false
is_notion_sender_live p (some owner) =
    if owner.pid == p.pid
    then any (text_eq owner.instance_id) p.active_sender_instances
    else elim (p.kill owner.pid) [ running ↦ true | not_permitted ↦ true | no_such_process ↦ false ]

abbrev pub is_absent {ℓ} : {A : Type ℓ} → Option A → Bool
is_absent a = not (is_some a)

-- What the schema returns.
abbrev pub trim_operation : NotionOutboxOperation → NotionOutboxOperation
trim_operation o = record o { desired = trim_fields o.desired; baseline = trim_some o.baseline }

module _ (process : Process) where
  -- `updateNotionOutbox`.
  unfoldable pub update_notion_outbox : NotionOutboxOperation → Body (Unit {0})
  update_notion_outbox value =
      let operation = trim_operation value in
      check (operation_check process.is_datetime operation) invalid_value
      >> modify (rewrite_rows (replace_row operation))

  -- `for (const row of SELECT … WHERE test) this.updateNotionOutbox(change(row))`.
  unfoldable pub update_each :
      (NotionOutboxOperation → Bool)
      → (NotionOutboxOperation → NotionOutboxOperation)
      → Body (Unit {0})
  update_each test change = ask (λ s. s.outbox) >>= λ rows.
      check
        (all (λ o. not (test o) || operation_check process.is_datetime (trim_operation (change o)))
          rows)
        invalid_value
      >> modify (rewrite_rows (λ o. if test o then trim_operation (change o) else o))

  unfoldable pub enqueue_notion_outbox : NotionOutboxOperation → Body (Unit {0})
  enqueue_notion_outbox value =
      let operation = trim_operation value in
      check (operation_check process.is_datetime operation) invalid_value
      >> check
          (is_status operation.status pending
            && operation.attempt_count == 0
            && is_absent operation.last_attempt_at)
          operation_not_new
      >> ask (get_notion_task_mapping operation.local_task_id)
      >>= λ mapping.
          check (maps_workspace operation mapping) operation_mapping_missing
          >> ask (λ s. s.dataset_epoch)
          >>= λ epoch.
              check (text_eq epoch operation.dataset_epoch) operation_epoch_stale
              >> check (maps_baseline operation mapping) operation_baseline_stale
              >> assert_notion_operation_task_state operation
              >> update_each (waits_for operation.local_task_id)
                  (λ o. record o { status = superseded })
              >> ask (λ s. s)
              >>= λ now.
                  check
                    (not (any (λ o. text_eq o.operation_id operation.operation_id) now.outbox)
                      && is_some (get_notion_connection operation.workspace_id now))
                    constraint_failed
                  >> modify (λ s. record s { outbox = s.outbox ++ operation ∷ [] })

  -- The test of `recoverOrphanedNotionSends`, for one workspace or for all.
  abbrev pub is_orphan : Option Text → NotionOutboxOperation → Bool
  is_orphan workspace o =
      is_status o.status sending
      && if_some (text_eq o.workspace_id) workspace
      && not (is_notion_sender_live process o.sending_owner)

  -- `UPDATE notion_connections … WHERE workspace_id=? AND status IN ('active','paused')`.
  abbrev pub pause_unknown : List NotionOutboxOperation → NotionConnection → NotionConnection
  pause_unknown orphans c =
      if any (λ o. text_eq o.workspace_id c.workspace_id) orphans
        && (is_active c.status || is_paused c.status)
      then record c { status = paused_unknown; updated_at = process.now }
      else c

  unfoldable pub recover_orphaned_notion_sends : Option Text → Body Bool
  recover_orphaned_notion_sends workspace =
      ask (λ s. filter (is_orphan workspace) s.outbox) >>= λ orphans.
      update_each (is_orphan workspace) (λ o. record o { status = unknown })
      >> modify (λ s. record s { connections = map (pause_unknown orphans) s.connections })
      >> done (any (λ o. true) orphans)

  -- The second transaction of `markNotionOutboxSending`, once its row is found to be pending.
  unfoldable pub claim_pending : Text → NotionOutboxOperation → Body (Option NotionOutboxOperation)
  claim_pending at operation = ask (get_notion_connection operation.workspace_id) >>= λ connection.
      check (holds (λ (c : NotionConnection). is_active c.status) connection) connection_paused
      >> ask (λ s. s.dataset_epoch)
      >>= λ epoch.
          check (text_eq epoch operation.dataset_epoch) operation_epoch_stale
          >> ask (get_notion_task_mapping operation.local_task_id)
          >>= λ mapping.
              check (maps_workspace operation mapping && maps_baseline operation mapping)
                operation_baseline_stale
              >> assert_notion_operation_task_state operation
              >> ask (λ s. s)
              >>= λ now.
                  check
                    (not (
                      any
                        (λ o.
                          text_eq o.local_task_id operation.local_task_id && is_unresolved o.status)
                        now.outbox))
                    unresolved_send
                  >> check (not (any (text_eq operation.workspace_id) now.quarantine))
                      pre_restore_send
                  >> let claimed = trim_operation (record operation {
                    status = sending;
                    attempt_count = operation.attempt_count + 1;
                    last_attempt_at = some at;
                    sending_owner =
                        some
                          (record { pid = process.pid; instance_id = process.sender_instance_id });
                  }) in
                    update_notion_outbox claimed >> done (some claimed)

  unfoldable pub claim_send : Text → Text → Body (Option NotionOutboxOperation)
  claim_send id at = ask (get_notion_outbox_operation id) >>= λ found.
      present found operation_not_pending >>= λ operation.
      check (is_status operation.status pending) operation_not_pending
      >> recover_orphaned_notion_sends (some operation.workspace_id)
      >>= λ lost. when lost (done none) (claim_pending at operation)

  -- The claim commits what it has recovered, also where it then reports a pause.
  abbrev pub settle_claim :
      SyncState
      → Outcome (Option NotionOutboxOperation)
      → (NotionError ⊎ NotionOutboxOperation) × SyncState
  settle_claim s (threw e) = (inl e, s)
  settle_claim s (gave none t) = (inl connection_paused, t)
  settle_claim s (gave (some o) t) = (inr o, t)

  abbrev pub claim_after_recovery :
      Text → Text → SyncState → Outcome Bool → (NotionError ⊎ NotionOutboxOperation) × SyncState
  claim_after_recovery id at s (threw e) = (inl e, s)
  claim_after_recovery id at s (gave lost t) = settle_claim t (claim_send id at t)

  unfoldable pub mark_notion_outbox_sending :
      Text → Text → SyncState → (NotionError ⊎ NotionOutboxOperation) × SyncState
  mark_notion_outbox_sending id at s =
      if process.in_transaction
      then (inl inside_transaction, s)
      else claim_after_recovery id at s (recover_orphaned_notion_sends none s)
