-- ===== src/Notion/Outbox/Sends.antt =====
-- What happens to a claimed send: `supersedeNotionUnsentIfNewer` to `confirmNotionOutbox`, and
-- `pauseNotionForRestore`, of apps/api/src/storage/sqlite-planner-store.ts.
use new_day.Prelude.{
  Bool, true, false, not, ◌&&◌, ◌||◌, Option, none, some, [], map, is_some, holds, if◌then◌else◌,
}
use new_day.Prelude.Strings.{Text, text_eq, text_lt}
use new_day.Store.{first_match}
use new_day.Reconcile.{NotionTaskFields, fields_check}
use new_day.Notion.Records.{
  NotionConnection, NotionOutboxOperation, paused, paused_unknown, paused_after_restore,
  preflight_read, pending, sending, unknown, superseded, operation_check, trim_fields,
  same_baseline,
}
use new_day.Notion.Sync.{
  SyncState, Process, Body, ◌>>=◌, ◌>>◌, done, check, present, if_present, when, ask, invalid_value,
  operation_not_sending, paused_during_preflight, epoch_changed, mapping_changed,
}
use new_day.Notion.Links.{
  get_notion_connection, get_notion_task_mapping, put_notion_connection, put_notion_task_mapping,
}
use new_day.Notion.Outbox.{
  is_status, is_active, is_paused, is_manual, get_notion_outbox_operation, waits_for,
  assert_notion_operation_task_state, maps_baseline, update_notion_outbox, trim_operation,
}

-- `WHERE local_task_id=? AND operation_id<>? AND status='pending'`.
abbrev is_newer : NotionOutboxOperation → NotionOutboxOperation → Bool
is_newer o other =
    waits_for o.local_task_id other && not (text_eq other.operation_id o.operation_id)

abbrev same_intent_scope : NotionOutboxOperation → NotionOutboxOperation → Bool
same_intent_scope o newer =
    text_eq newer.workspace_id o.workspace_id && text_eq newer.dataset_epoch o.dataset_epoch

-- `operation?.status === "sending"`, and the operation.
abbrev pub sending_row : Option NotionOutboxOperation → Option NotionOutboxOperation
sending_row none = none
sending_row (some o) = if is_status o.status sending then some o else none

abbrev pub dispatch_row : Text → NotionOutboxOperation → Bool
dispatch_row epoch o = is_status o.status sending && text_eq o.dataset_epoch epoch

-- `canDispatchNotionOutbox`.
unfoldable pub can_dispatch_notion_outbox : Text → Text → SyncState → Bool
can_dispatch_notion_outbox id epoch s =
    holds
      (λ (o : NotionOutboxOperation).
        dispatch_row epoch o
        && holds (λ (c : NotionConnection). is_active c.status)
            (get_notion_connection o.workspace_id s)
        && text_eq s.dataset_epoch epoch)
      (get_notion_outbox_operation id s)

-- `pauseNotionForRestore`.
abbrev pub fence : Text → NotionConnection → NotionConnection
fence at c = record c { status = paused_after_restore; updated_at = at }

unfoldable pub pause_notion_for_restore : Process → SyncState → SyncState
pause_notion_for_restore process s = record s {
  connections = map (fence process.now) s.connections;
}

-- A retry time that is later than the one that is kept.
abbrev later_retry : Option Text → Option Text → Bool
later_retry none kept = false
later_retry (some []) kept = false
later_retry (some at) none = true
later_retry (some at) (some kept) = text_lt kept at

module _ (process : Process) where
  unfoldable pub supersede_by : NotionOutboxOperation → NotionOutboxOperation → Body Bool
  supersede_by operation newer =
      ask (get_notion_task_mapping operation.local_task_id) >>= λ mapping.
      when (maps_baseline newer mapping)
        (assert_notion_operation_task_state newer
          >> update_notion_outbox process (record operation { status = superseded })
          >> done true)
        (done false)

  unfoldable pub supersede_notion_unsent_if_newer : Text → Body Bool
  unfolding supersede_by
  supersede_notion_unsent_if_newer id =
      ask (λ s. sending_row (get_notion_outbox_operation id s)) >>= λ found.
      if_present found
        (λ operation. ask (λ s. first_match (is_newer operation) s.outbox) >>= λ next.
          if_present next
            (λ newer.
              when (same_intent_scope operation newer) (supersede_by operation newer) (done false))
            (done false))
        (done false)

  unfoldable pub mark_notion_outbox_unknown : Text → Body (Unit {0})
  mark_notion_outbox_unknown id = ask (get_notion_outbox_operation id) >>= λ found.
      present (sending_row found) operation_not_sending >>= λ operation.
      update_notion_outbox process (record operation { status = unknown })
      >> ask (get_notion_connection operation.workspace_id)
      >>= λ connection.
          if_present connection
            (λ c.
              put_notion_connection process
                (record c { status = paused_unknown; updated_at = process.now }))
            (done tt)

  -- A newer intent takes the place of the send, or the send waits again.
  unfoldable pub return_unsent : Text → NotionOutboxOperation → Body (Unit {0})
  return_unsent id operation = supersede_notion_unsent_if_newer id >>= λ replaced.
      when replaced (done tt)
        (update_notion_outbox process (record operation { status = pending; sending_owner = none }))

  abbrev pub pause_after_read : NotionConnection → Text → Option Text → Body (Unit {0})
  pause_after_read c at retry_after_at =
      when (is_active c.status)
        (put_notion_connection process (record c {
          status = paused;
          pause_reason = some preflight_read;
          retry_after_at = retry_after_at;
          updated_at = at;
        }))
        (when (later_retry retry_after_at c.retry_after_at)
          (put_notion_connection process
            (record c { retry_after_at = retry_after_at; updated_at = at }))
          (done tt))

  abbrev can_pause : NotionConnection → Bool
  can_pause c = is_active c.status || (is_paused c.status && is_manual c.pause_reason)

  unfoldable pub pause_notion_unsent : Text → Text → Option Text → Body Bool
  pause_notion_unsent id at retry_after_at =
      ask (λ s. sending_row (get_notion_outbox_operation id s)) >>= λ found.
      if_present found
        (λ operation. ask (get_notion_connection operation.workspace_id) >>= λ connection.
          ask (λ s. s.dataset_epoch) >>= λ current.
          if_present connection
            (λ c.
              when (can_pause c && text_eq current operation.dataset_epoch)
                (return_unsent id operation >> pause_after_read c at retry_after_at >> done true)
                (done false))
            (done false))
        (done false)

  unfoldable pub defer_notion_unsent_after_manual_pause : Text → Text → Body Bool
  defer_notion_unsent_after_manual_pause id epoch =
      ask (λ s. sending_row (get_notion_outbox_operation id s)) >>= λ found.
      if_present found
        (λ operation. ask (get_notion_connection operation.workspace_id) >>= λ connection.
          ask (λ s. s.dataset_epoch) >>= λ current.
          when
            (text_eq operation.dataset_epoch epoch
              && holds (λ (c : NotionConnection). is_paused c.status && is_manual c.pause_reason)
                  connection
              && text_eq current epoch)
            (return_unsent id operation >> done true) (done false))
        (done false)

  unfoldable pub rebase_notion_sending :
      Text → NotionTaskFields → NotionTaskFields → Text → Body NotionOutboxOperation
  rebase_notion_sending id remote merged at =
      check (fields_check (trim_fields remote) && fields_check (trim_fields merged)) invalid_value
      >> ask (get_notion_outbox_operation id)
      >>= λ found. present (sending_row found) operation_not_sending >>= λ operation.
          ask (get_notion_connection operation.workspace_id) >>= λ connection.
          check (holds (λ (c : NotionConnection). is_active c.status) connection)
            paused_during_preflight
          >> ask (λ s. s.dataset_epoch)
          >>= λ epoch.
              check (text_eq epoch operation.dataset_epoch) epoch_changed
              >> ask (get_notion_task_mapping operation.local_task_id)
              >>= λ found_mapping. present found_mapping mapping_changed >>= λ mapping.
                  check
                    (text_eq mapping.workspace_id operation.workspace_id
                      && is_some mapping.remote_page_id
                      && same_baseline mapping.baseline operation.baseline)
                    mapping_changed
                  >> let next = trim_operation (record operation {
                    baseline = some (trim_fields remote);
                    desired = trim_fields merged;
                  }) in
                    check (operation_check process.is_datetime next) invalid_value
                    >> assert_notion_operation_task_state next
                    >> put_notion_task_mapping process
                        (record mapping { baseline = some (trim_fields remote); updated_at = at })
                    >> update_notion_outbox process next
                    >> done next
