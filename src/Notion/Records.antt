-- ===== src/Notion/Records.antt =====
-- packages/core/src/contracts/notion-sync.ts: the rows of the Notion tables and their checks.
-- `.strict()` holds by the types, and instants are texts that a parameter accepts.
use new_day.Prelude.{
  ℕ, Bool, true, false, not, ◌&&◌, ◌||◌, Option, none, some, List, [], ◌∷◌, ◌++◌, leb, is_some,
  Bool-cases,
}
use new_day.Prelude.Strings.{Text, text_eq, utf16_length, trim, codes}
use new_day.Dates.{LocalDate}
use new_day.Model.{RecurrencePattern, if_some}
use new_day.Reconcile.{NotionTaskFields, fields_check, same_plan, same_bool}

pub record NotionDataSourceRef : Type 0 where
  pub database_id : Text
  pub data_source_id : Text
  pub property_ids : List (Text × Text)
  pub schema_fingerprint : Text

pub record NotionDataSources : Type 0 where
  pub areas : Option NotionDataSourceRef
  pub projects : Option NotionDataSourceRef
  pub tasks : Option NotionDataSourceRef
  pub rules : Option NotionDataSourceRef

pub data ConnectionStatus : Type 0 where
  disconnected active paused paused_after_restore paused_unknown : ConnectionStatus

pub data PauseReason : Type 0 where
  preflight_read manual : PauseReason

pub record NotionConnection : Type 0 where
  pub workspace_id : Text
  pub installation_id : Text
  pub root_page_id : Option Text
  pub data_sources : NotionDataSources
  pub credential_revision : Option ℕ
  pub status : ConnectionStatus
  pub pause_reason : Option PauseReason
  pub retry_after_at : Option Text
  pub updated_at : Text

pub data MappingStatus : Type 0 where
  pending_create active_mapping needs_review archived_mapping : MappingStatus

pub record NotionTaskMapping : Type 0 where
  pub local_task_id : Text
  pub workspace_id : Text
  pub data_source_id : Text
  pub remote_page_id : Option Text
  pub client_key : Text
  pub rule_page_id : Option Text
  pub occurrence_key : Option Text
  pub baseline : Option NotionTaskFields
  pub status : MappingStatus
  pub updated_at : Text

pub record NotionRuleSource : Type 0 where
  pub title : Text
  pub start_date : LocalDate
  pub end_date : Option LocalDate
  pub pattern : RecurrencePattern
  pub excluded_dates : List LocalDate

pub data RuleStatus : Type 0 where
  active_rule archived_rule : RuleStatus

pub record NotionRuleMapping : Type 0 where
  pub workspace_id : Text
  pub data_source_id : Text
  pub remote_page_id : Text
  pub logical_series_id : Text
  pub source : NotionRuleSource
  pub generation_after : Option LocalDate
  pub generation_reconcile_pending : Option Bool
  pub status : RuleStatus
  pub updated_at : Text

pub data OperationStatus : Type 0 where
  pending sending unknown confirmed superseded quarantined : OperationStatus

pub record SendingOwner : Type 0 where
  pub pid : ℕ
  pub instance_id : Text

pub record NotionOutboxOperation : Type 0 where
  pub operation_id : Text
  pub local_task_id : Text
  pub workspace_id : Text
  pub dataset_epoch : Text
  pub desired : NotionTaskFields
  pub baseline : Option NotionTaskFields
  pub status : OperationStatus
  pub attempt_count : ℕ
  pub created_at : Text
  pub last_attempt_at : Option Text
  pub confirmed_at : Option Text
  pub sending_owner : Option SendingOwner

pub record NotionScanWatermark : Type 0 where
  pub workspace_id : Text
  pub data_source_id : Text
  pub completed_through : Option Text
  pub last_attempt_at : Option Text
  pub last_success_at : Option Text
  pub last_error : Option Text
  pub last_error_at : Option Text

-- `nonEmptyId`.
abbrev pub non_empty_id : Text → Bool
non_empty_id t = leb 1 (utf16_length t)

unfoldable pub data_source_check : NotionDataSourceRef → Bool
data_source_check d =
    non_empty_id d.database_id
    && non_empty_id d.data_source_id
    && new_day.Prelude.all (λ p. non_empty_id p.1) d.property_ids
    && non_empty_id d.schema_fingerprint

-- What `notionTaskFieldsSchema` returns.
abbrev pub trim_fields : NotionTaskFields → NotionTaskFields
trim_fields t = record t { title = trim t.title }

abbrev pub trim_some : Option NotionTaskFields → Option NotionTaskFields
trim_some none = none
trim_some (some t) = some (trim_fields t)

-- `Boolean(rulePageId) === Boolean(occurrenceKey)`, for ids that are not empty.
abbrev pub both_or_neither : {A B : Type 0} → Option A → Option B → Bool
both_or_neither a b = same_bool (is_some a) (is_some b)

abbrev pub is_linked : MappingStatus → Bool
is_linked active_mapping = true
is_linked _ = false

-- `z.number().int().positive()`.
abbrev pub owner_check : SendingOwner → Bool
owner_check o = leb 1 o.pid && non_empty_id o.instance_id

-- The comparison of two nullable field sets by `JSON.stringify`.
abbrev pub same_fields : NotionTaskFields → NotionTaskFields → Bool
same_fields a b =
    text_eq a.title b.title && same_plan a.date b.date && same_bool a.completed b.completed

abbrev pub same_baseline : Option NotionTaskFields → Option NotionTaskFields → Bool
same_baseline none none = true
same_baseline (some a) (some b) = same_fields a b
same_baseline _ _ = false

-- `===` on an id that may be null or absent.
abbrev pub same_id : Option Text → Option Text → Bool
same_id none none = true
same_id (some a) (some b) = text_eq a b
same_id _ _ = false

-- `notionClientKey` and `notionLogicalSeriesId`, of ids that are not empty.
unfoldable pub notion_client_key : Text → Text → Text
notion_client_key installation_id local_task_id =
    codes "newday:" ++ installation_id ++ codes ":" ++ local_task_id

unfoldable pub notion_logical_series_id : Text → Text → Text
notion_logical_series_id workspace_id rule_page_id =
    codes "notion:" ++ workspace_id ++ codes ":" ++ rule_page_id

module _ (is_datetime : Text → Bool) where
  unfoldable pub connection_check : NotionConnection → Bool
  connection_check c =
      non_empty_id c.workspace_id
      && non_empty_id c.installation_id
      && if_some non_empty_id c.root_page_id
      && if_some data_source_check c.data_sources.areas
      && if_some data_source_check c.data_sources.projects
      && if_some data_source_check c.data_sources.tasks
      && if_some data_source_check c.data_sources.rules
      && if_some (leb 1) c.credential_revision
      && if_some is_datetime c.retry_after_at
      && is_datetime c.updated_at

  -- The row is trimmed before this check.
  unfoldable pub mapping_check : NotionTaskMapping → Bool
  mapping_check m =
      non_empty_id m.local_task_id
      && non_empty_id m.workspace_id
      && non_empty_id m.data_source_id
      && if_some non_empty_id m.remote_page_id
      && non_empty_id m.client_key
      && if_some non_empty_id m.rule_page_id
      && if_some non_empty_id m.occurrence_key
      && if_some fields_check m.baseline
      && is_datetime m.updated_at
      && both_or_neither m.rule_page_id m.occurrence_key
      && (not (is_linked m.status) || (is_some m.remote_page_id && is_some m.baseline))

  unfoldable pub operation_check : NotionOutboxOperation → Bool
  operation_check o =
      non_empty_id o.operation_id
      && non_empty_id o.local_task_id
      && non_empty_id o.workspace_id
      && non_empty_id o.dataset_epoch
      && fields_check o.desired
      && if_some fields_check o.baseline
      && is_datetime o.created_at
      && if_some is_datetime o.last_attempt_at
      && if_some is_datetime o.confirmed_at
      && if_some owner_check o.sending_owner

  unfoldable pub watermark_check : NotionScanWatermark → Bool
  watermark_check w =
      non_empty_id w.workspace_id
      && non_empty_id w.data_source_id
      && if_some is_datetime w.completed_through
      && if_some is_datetime w.last_attempt_at
      && if_some is_datetime w.last_success_at
      && if_some is_datetime w.last_error_at
