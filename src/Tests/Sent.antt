-- ===== src/Tests/Sent.antt =====
-- The outbox of Notion writes at small inputs: an operation that is queued, claimed and read back.
use new_day.Prelude.{◌≡◌, refl, ℕ, true, false, Option, none, some, List, [], ◌∷◌, filter, inl, inr}
use new_day.Prelude.Strings.{Text, codes, text_eq, utf16_length, trim}
use new_day.Table
use new_day.Dates.{is_local_date, days_in_month}
use new_day.Reconcile.{NotionTaskFields, fields_check, plan_date_check}
use new_day.Notion.Records.{
  NotionConnection, NotionTaskMapping, NotionOutboxOperation, active, pending_create, pending,
  sending, confirmed, connection_check, mapping_check, operation_check, notion_client_key,
  data_source_check,
}
use new_day.Notion.Sync.{
  SyncState, Process, no_such_process, gave, ◌>>=◌, done, check, present, if_present, when, ask,
  modify,
}
use new_day.Notion.Links.{put_notion_task_mapping, check_recurrence, keeps_identity, mapping_taken}
use new_day.Notion.Outbox.{
  task_matches, update_notion_outbox, update_each, enqueue_notion_outbox,
  mark_notion_outbox_sending, waits_for, trim_operation, get_notion_outbox_operation,
}
use new_day.Notion.Outbox.Confirm.{
  was_confirmed, attempted_row, accept_read_back, close_attempt, confirm_notion_outbox,
}
use new_day.Notion.Outbox.Queue.{enqueue-one_waits, confirm-rebases_waiting}
use new_day.Notion.Outbox.Fence.{Refused, restore_fence_holds}
use new_day.Notion.Outbox.Sends.{can_dispatch_notion_outbox, pause_notion_for_restore}
use new_day.Tests.Data.{morning, noon, report}

abbrev pub read_clock : Text → Option ℕ
read_clock (n ∷ []) = some n
read_clock _ = none

abbrev pub one_process : Process
one_process = record {
  is_datetime = λ t. true;
  parse_date = read_clock;
  iso_string = λ n. some (n ∷ []);
  now = noon;
  pid = 7;
  sender_instance_id = codes "i";
  active_sender_instances = codes "i" ∷ [];
  kill = λ pid. no_such_process;
  in_transaction = false;
}

abbrev pub workspace : NotionConnection
workspace = record {
  workspace_id = codes "w";
  installation_id = codes "n";
  root_page_id = none;
  data_sources = record { areas = none; projects = none; tasks = none; rules = none };
  credential_revision = none;
  status = active;
  pause_reason = none;
  retry_after_at = none;
  updated_at = morning;
}

abbrev link : NotionTaskMapping
link = record {
  local_task_id = codes "t1";
  workspace_id = codes "w";
  data_source_id = codes "d";
  remote_page_id = none;
  client_key = codes "newday:n:t1";
  rule_page_id = none;
  occurrence_key = none;
  baseline = none;
  status = pending_create;
  updated_at = morning;
}

abbrev report_fields : NotionTaskFields
report_fields = record {
  title = codes "report";
  date = some (20260922, 20260923);
  completed = false;
}

abbrev send_report : NotionOutboxOperation
send_report = record {
  operation_id = codes "o1";
  local_task_id = codes "t1";
  workspace_id = codes "w";
  dataset_epoch = codes "e";
  desired = report_fields;
  baseline = none;
  status = pending;
  attempt_count = 0;
  created_at = morning;
  last_attempt_at = none;
  confirmed_at = none;
  sending_owner = none;
}

abbrev send_again : NotionOutboxOperation
send_again = record send_report { operation_id = codes "o2" }

abbrev linked : List NotionOutboxOperation → SyncState
linked rows = record {
  tasks = report ∷ [];
  connections = workspace ∷ [];
  mappings = link ∷ [];
  rule_mappings = [];
  outbox = rows;
  watermarks = [];
  quarantine = [];
  dataset_epoch = codes "e";
}

abbrev pub sent_report : NotionOutboxOperation
sent_report = record send_report {
  status = sending;
  attempt_count = 1;
  last_attempt_at = some noon;
  sending_owner = some (record { pid = 7; instance_id = codes "i" });
}

enqueue_run :
    enqueue_notion_outbox one_process send_report (linked []) ≡ gave tt (linked (send_report ∷ []))
unfolding enqueue_notion_outbox ◌>>=◌ done check present if_present when ask modify text_eq
    utf16_length trim operation_check fields_check plan_date_check task_matches update_each
    Table.find is_local_date days_in_month
enqueue_run = refl

enqueue_example :
    filter (waits_for (codes "t1")) (linked (send_report ∷ [])).outbox
    ≡ trim_operation send_report ∷ []
enqueue_example = enqueue-one_waits one_process send_report (linked []) _ enqueue_run

fence_example :
    Refused (
      mark_notion_outbox_sending one_process
        (codes "o1")
        noon
        (pause_notion_for_restore one_process (linked (send_report ∷ []))))
    × (can_dispatch_notion_outbox
          (codes "o1")
          (codes "e")
          (pause_notion_for_restore one_process (linked (send_report ∷ [])))
        ≡ false)
fence_example =
    restore_fence_holds one_process one_process (linked (send_report ∷ [])) (codes "o1") noon
      (codes "e")

abbrev confirmed_report : NotionOutboxOperation
confirmed_report = record sent_report { status = confirmed; confirmed_at = some noon }

-- The second operation asks for the same fields, so the read-back confirms it too.
abbrev confirmed_again : NotionOutboxOperation
confirmed_again = record send_again {
  status = confirmed;
  confirmed_at = some noon;
  baseline = some report_fields;
}

abbrev confirmed_state : SyncState
confirmed_state = record (linked (confirmed_report ∷ confirmed_again ∷ [])) {
  mappings =
      (record link {
        remote_page_id = some (codes "p");
        baseline = some report_fields;
        status = new_day.Notion.Records.active_mapping;
        updated_at = noon;
      })
      ∷ [];
}

-- An operation that asks for another title than the one that is read back goes on waiting.
abbrev send_letter : NotionOutboxOperation
send_letter = record send_again { desired = record report_fields { title = codes "letter" } }

abbrev letter_state : SyncState
letter_state = record confirmed_state {
  outbox = confirmed_report ∷ record send_letter { baseline = some report_fields } ∷ [];
}

letter_run :
    confirm_notion_outbox one_process
      (codes "o1")
      (codes "p")
      report_fields
      noon
      (linked (sent_report ∷ send_letter ∷ []))
    ≡ gave was_confirmed letter_state
unfolding confirm_notion_outbox accept_read_back close_attempt ◌>>=◌ done check present if_present
    when ask modify text_eq utf16_length trim operation_check fields_check plan_date_check
    task_matches update_each update_notion_outbox put_notion_task_mapping check_recurrence
    keeps_identity mapping_taken mapping_check notion_client_key Table.find Table.put is_local_date
    days_in_month
letter_run = refl

found_run :
    attempted_row
      (get_notion_outbox_operation (codes "o1") (linked (sent_report ∷ send_letter ∷ [])))
    ≡ some sent_report
unfolding Table.find text_eq
found_run = refl

confirm_example :
    (record send_letter { baseline = some report_fields }).baseline ≡ some report_fields
unfolding trim text_eq
confirm_example =
    confirm-rebases_waiting one_process (codes "o1") (codes "p") report_fields noon sent_report
      (linked (sent_report ∷ send_letter ∷ [])) letter_state found_run letter_run
      (record send_letter { baseline = some report_fields }) (inr (inl refl)) refl
