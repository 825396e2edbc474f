-- ===== src/Notion/Outbox/Confirm.antt =====
-- `confirmNotionOutbox` of apps/api/src/storage/sqlite-planner-store.ts: a write is confirmed by
-- reading the desired fields back.
use new_day.Prelude.{Bool, ◌&&◌, ◌||◌, Option, none, some, if◌then◌else◌}
use new_day.Prelude.Strings.{Text, text_eq}
use new_day.Model.{if_some}
use new_day.Reconcile.{NotionTaskFields, fields_check}
use new_day.Notion.Records.{
  NotionConnection, NotionTaskMapping, NotionOutboxOperation, paused_unknown, sending, unknown,
  confirmed, quarantined, active_mapping, trim_fields, same_fields, non_empty_id,
}
use new_day.Notion.Sync.{
  Process, Body, ◌>>=◌, ◌>>◌, done, check, present, when, ask, invalid_value, page_id_missing,
  no_send_attempt, operation_workspace_missing, operation_mapping_changed,
}
use new_day.Notion.Links.{
  get_notion_connection, get_notion_task_mapping, put_notion_connection, put_notion_task_mapping,
}
use new_day.Notion.Outbox.{
  is_status, get_notion_outbox_operation, waits_for, update_notion_outbox, update_each,
}

pub data Confirmation : Type 0 where
  was_confirmed was_unknown was_quarantined : Confirmation

-- `["sending", "unknown"].includes(operation.status)`.
abbrev pub attempted_row : Option NotionOutboxOperation → Option NotionOutboxOperation
attempted_row none = none
attempted_row (some o) =
    if is_status o.status sending || is_status o.status unknown then some o else none

-- A later intent is compared with the fields that were read; it is confirmed where it asks for them.
abbrev pub rebase_pending : NotionTaskFields → Text → NotionOutboxOperation → NotionOutboxOperation
rebase_pending fields at o =
    if same_fields o.desired fields
    then record o { baseline = some fields; status = confirmed; confirmed_at = some at }
    else record o { baseline = some fields }

abbrev page_agrees : NotionOutboxOperation → Text → NotionTaskMapping → Bool
page_agrees o page m =
    text_eq m.workspace_id o.workspace_id && if_some (text_eq page) m.remote_page_id

module _ (process : Process) where
  unfoldable pub close_attempt :
      NotionOutboxOperation → NotionConnection → Text → Confirmation → Body Confirmation
  close_attempt operation connection at result =
      update_notion_outbox process operation
      >> put_notion_connection process
          (record connection { status = paused_unknown; updated_at = at })
      >> done result

  unfoldable pub accept_read_back :
      NotionOutboxOperation → Text → NotionTaskFields → Text → Body Confirmation
  accept_read_back operation page fields at =
      ask (get_notion_task_mapping operation.local_task_id) >>= λ found.
      present found operation_mapping_changed >>= λ mapping.
      check (page_agrees operation page mapping) operation_mapping_changed
      >> put_notion_task_mapping process (record mapping {
        remote_page_id = some page;
        baseline = some fields;
        status = active_mapping;
        updated_at = at;
      })
      >> update_notion_outbox process
          (record operation { status = confirmed; confirmed_at = some at })
      >> update_each process (waits_for operation.local_task_id) (rebase_pending fields at)
      >> done was_confirmed

  unfoldable pub confirm_notion_outbox : Text → Text → NotionTaskFields → Text → Body Confirmation
  confirm_notion_outbox id page read_back at =
      let fields = trim_fields read_back in
      check (fields_check fields) invalid_value
      >> check (non_empty_id page) page_id_missing
      >> ask (get_notion_outbox_operation id)
      >>= λ found. present (attempted_row found) no_send_attempt >>= λ operation.
          ask (get_notion_connection operation.workspace_id) >>= λ workspace.
          present workspace operation_workspace_missing >>= λ connection.
          ask (λ s. s.dataset_epoch) >>= λ epoch.
          when (text_eq epoch operation.dataset_epoch)
            (when (same_fields fields operation.desired) (accept_read_back operation page fields at)
              (close_attempt (record operation { status = unknown }) connection at was_unknown))
            (close_attempt (record operation { status = quarantined }) connection at
              was_quarantined)
