-- ===== src/Notion/Sync.antt =====
-- The state of the Notion tables of apps/api/src/storage/sqlite-planner-store.ts, and the bodies of
-- its transactions: a body that throws leaves no state, so that its transaction, or the savepoint
-- of a nested one, is rolled back.
pub mod Ends
use new_day.Prelude.{
  ◌≡◌, refl, ap, ℕ, Bool, true, false, Option, none, some, List, [], ◌∷◌, if◌then◌else◌, arith,
  Bool-cases, inl, inr,
}
use new_day.Prelude.Strings.{Text}
use new_day.Model.{Task}
use new_day.Notion.Records.{
  NotionConnection, NotionTaskMapping, NotionRuleMapping, NotionOutboxOperation,
  NotionScanWatermark, SendingOwner,
}

-- The exceptions; `invalid_value` is a ZodError, and `constraint_failed` one of SQLite's.
pub data NotionError : Type 0 where
  invalid_value constraint_failed : NotionError
  operation_not_new operation_mapping_missing operation_epoch_stale : NotionError
  operation_baseline_stale operation_task_differs inside_transaction : NotionError
  operation_not_pending connection_paused unresolved_send pre_restore_send : NotionError
  operation_not_sending paused_during_preflight epoch_changed mapping_changed : NotionError
  page_id_missing no_send_attempt operation_workspace_missing : NotionError
  operation_mapping_changed installation_changed mapping_task_missing : NotionError
  mapping_workspace_missing client_key_differs data_source_differs : NotionError
  occurrence_differs local_recurrence mapping_identity_changed : NotionError
  rule_identity_differs scan_time_invalid scan_time_out_of_range scan_workspace_missing :
      NotionError

-- `mappings` is ordered by task and `connections` by workspace; `quarantine` is the column
-- `workspace_id` of notion_restore_quarantine.
pub record SyncState : Type 0 where
  pub tasks : List Task
  pub connections : List NotionConnection
  pub mappings : List NotionTaskMapping
  pub rule_mappings : List NotionRuleMapping
  pub outbox : List NotionOutboxOperation
  pub watermarks : List NotionScanWatermark
  pub quarantine : List Text
  pub dataset_epoch : Text

-- `process.kill(pid, 0)`, which returns or throws.
pub data Probe : Type 0 where
  running not_permitted no_such_process : Probe

-- What an operation takes from the process at the time of its call.
pub record Process : Type 0 where
  pub is_datetime : Text → Bool
  -- `Date.parse`, none for NaN
  pub parse_date : Text → Option ℕ
  -- `new Date(ms).toISOString()`, none for a RangeError
  pub iso_string : ℕ → Option Text
  -- `new Date().toISOString()`
  pub now : Text
  pub pid : ℕ
  pub sender_instance_id : Text
  pub active_sender_instances : List Text
  pub kill : ℕ → Probe
  -- `this.transactionContext.getStore()?.active`
  pub in_transaction : Bool

pub data Outcome (A : Type 0) : Type 0 where
  threw : NotionError → Outcome A
  gave : A → SyncState → Outcome A

-- The body of a transaction.
abbrev pub Body : Type 0 → Type 0
Body A = SyncState → Outcome A

abbrev pub after : {A B : Type 0} → Outcome A → (A → Body B) → Outcome B
after (threw e) next = threw e
after (gave a s) next = next a s

infixr 5 ◌>>=◌ ◌>>◌
unfoldable pub ◌>>=◌ : {A B : Type 0} → Body A → (A → Body B) → Body B
◌>>=◌ body next s = after (body s) next

abbrev pub ◌>>◌ : {A B : Type 0} → Body A → Body B → Body B
body >> rest = body >>= λ passed. rest

unfoldable pub done : {A : Type 0} → A → Body A
done a s = gave a s

-- `if (!condition) throw error`.
unfoldable pub check : Bool → NotionError → Body (Unit {0})
check condition error s = if condition then gave tt s else threw error

-- `if (!value) throw error`, and the value after it.
unfoldable pub present : {A : Type 0} → Option A → NotionError → Body A
present none error s = threw error
present (some a) error s = gave a s

-- `if (!value) …`, with what is done otherwise.
unfoldable pub if_present : {A B : Type 0} → Option A → (A → Body B) → Body B → Body B
if_present none next otherwise = otherwise
if_present (some a) next otherwise = next a

-- `if (condition) …`, with what is done otherwise.
unfoldable pub when : {B : Type 0} → Bool → Body B → Body B → Body B
when condition next otherwise s = if condition then next s else otherwise s

unfoldable pub ask : {A : Type 0} → (SyncState → A) → Body A
ask f s = gave (f s) s

unfoldable pub modify : (SyncState → SyncState) → Body (Unit {0})
modify f s = gave tt (f s)

-- The state that a settled transaction leaves: COMMIT, or ROLLBACK to the state before.
abbrev pub committed : {A : Type 0} → SyncState → Outcome A → SyncState
committed s (threw e) = s
committed s (gave a t) = t
