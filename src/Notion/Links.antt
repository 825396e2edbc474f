-- ===== src/Notion/Links.antt =====
-- Connections, rule mappings and task mappings: `putNotionConnection`, `putNotionRuleMapping` and
-- `putNotionTaskMapping` of apps/api/src/storage/sqlite-planner-store.ts. Two rows of a table with
-- the same unique columns are the error `constraint_failed`.
use new_day.Prelude.{
  Bool, true, false, not, ◌&&◌, ◌||◌, Option, none, some, List, [], ◌∷◌, filter, any, is_some,
  holds, if◌then◌else◌, ltb, ◌==◌, all, leb,
}
use new_day.Prelude.Strings.{Text, text_eq, utf16_length, trim}
use new_day.Table
use new_day.Dates.{is_local_date, LocalDate}
use new_day.Model.{Task, if_some, recurrence_pattern_check}
use new_day.Notion.Records.{
  NotionConnection, NotionTaskMapping, NotionRuleMapping, NotionRuleSource, connection_check,
  mapping_check, trim_some, non_empty_id, same_id, notion_client_key, notion_logical_series_id,
}
use new_day.Notion.Sync.{
  SyncState, Process, Body, ◌>>=◌, ◌>>◌, check, present, if_present, ask, modify, invalid_value,
  constraint_failed, installation_changed, mapping_task_missing, mapping_workspace_missing,
  client_key_differs, data_source_differs, occurrence_differs, local_recurrence,
  mapping_identity_changed, rule_identity_differs,
}

abbrev pub get_notion_connection : Text → SyncState → Option NotionConnection
get_notion_connection id s = Table.find (λ (c : NotionConnection). c.workspace_id) id s.connections

abbrev pub get_notion_task_mapping : Text → SyncState → Option NotionTaskMapping
get_notion_task_mapping id s = Table.find (λ (m : NotionTaskMapping). m.local_task_id) id s.mappings

abbrev pub get_sync_task : Text → SyncState → Option Task
get_sync_task id s = Table.find (λ (t : Task). t.id) id s.tasks

abbrev write_connection : NotionConnection → SyncState → SyncState
write_connection c s = record s {
  connections = Table.put (λ (c : NotionConnection). c.workspace_id) c s.connections;
}

abbrev same_installation : NotionConnection → Option NotionConnection → Bool
same_installation c existing =
    if_some (λ (e : NotionConnection). text_eq e.installation_id c.installation_id) existing

module _ (process : Process) where
  unfoldable pub put_notion_connection : NotionConnection → Body (Unit {0})
  put_notion_connection connection =
      check (connection_check process.is_datetime connection) invalid_value
      >> ask (get_notion_connection connection.workspace_id)
      >>= λ existing.
          check (same_installation connection existing) installation_changed
          >> modify (write_connection connection)

-- `listNotionRuleMappings(workspaceId).find(…)`.
abbrev rule_of : Text → Text → SyncState → Option NotionRuleMapping
rule_of workspace_id page s =
    Table.find (λ (r : NotionRuleMapping). r.remote_page_id) page
      (filter (λ r. text_eq r.workspace_id workspace_id) s.rule_mappings)

abbrev trim_mapping : NotionTaskMapping → NotionTaskMapping
trim_mapping m = record m { baseline = trim_some m.baseline }

-- `!rule || task.logicalSeriesId !== rule.logicalSeriesId || …`, negated.
unfoldable pub occurrence_matches : NotionTaskMapping → Task → Option NotionRuleMapping → Bool
occurrence_matches m task none = false
occurrence_matches m task (some rule) =
    holds (text_eq rule.logical_series_id) task.logical_series_id
    && same_id task.occurrence_key m.occurrence_key

-- A one-off task, or an occurrence of the rule that the mapping names.
unfoldable pub check_recurrence : NotionTaskMapping → Task → Body (Unit {0})
check_recurrence m task =
    if_present m.rule_page_id
      (λ page. ask (rule_of m.workspace_id page) >>= λ rule.
        check (occurrence_matches m task rule) occurrence_differs)
      (check (not (is_some task.series_id)) local_recurrence)

-- The identity of a mapping does not change; its page may become known.
unfoldable pub keeps_identity : NotionTaskMapping → Option NotionTaskMapping → Bool
keeps_identity m none = true
keeps_identity m (some e) =
    text_eq e.workspace_id m.workspace_id
    && text_eq e.data_source_id m.data_source_id
    && text_eq e.client_key m.client_key
    && same_id e.rule_page_id m.rule_page_id
    && same_id e.occurrence_key m.occurrence_key
    && (not (is_some e.remote_page_id) || same_id e.remote_page_id m.remote_page_id)

-- `UNIQUE(workspace_id,client_key)` and the index on the remote page.
unfoldable pub mapping_taken : NotionTaskMapping → List NotionTaskMapping → Bool
mapping_taken m rows =
    any
      (λ other.
        not (text_eq other.local_task_id m.local_task_id)
        && text_eq other.workspace_id m.workspace_id
        && (text_eq other.client_key m.client_key
            || (text_eq other.data_source_id m.data_source_id
                && is_some m.remote_page_id
                && same_id other.remote_page_id m.remote_page_id)))
      rows

abbrev write_mapping : NotionTaskMapping → SyncState → SyncState
write_mapping m s = record s {
  mappings = Table.put (λ (m : NotionTaskMapping). m.local_task_id) m s.mappings;
}

abbrev data_source_matches : NotionTaskMapping → NotionConnection → Bool
data_source_matches m c =
    if_some (λ d. text_eq d.data_source_id m.data_source_id) c.data_sources.tasks

module _ (process : Process) where
  unfoldable pub put_notion_task_mapping : NotionTaskMapping → Body (Unit {0})
  put_notion_task_mapping value =
      let mapping = trim_mapping value in
      check (mapping_check process.is_datetime mapping) invalid_value
      >> ask (get_sync_task mapping.local_task_id)
      >>= λ found. present found mapping_task_missing >>= λ task.
          ask (get_notion_connection mapping.workspace_id) >>= λ workspace.
          present workspace mapping_workspace_missing >>= λ connection.
          check
            (text_eq mapping.client_key
              (notion_client_key connection.installation_id mapping.local_task_id))
            client_key_differs
          >> check (data_source_matches mapping connection) data_source_differs
          >> check_recurrence mapping task
          >> ask (get_notion_task_mapping mapping.local_task_id)
          >>= λ existing.
              check (keeps_identity mapping existing) mapping_identity_changed
              >> ask (λ s. s.mappings)
              >>= λ rows.
                  check (not (mapping_taken mapping rows)) constraint_failed
                  >> modify (write_mapping mapping)

unfoldable pub distinct_dates : List LocalDate → Bool
distinct_dates [] = true
distinct_dates (d ∷ ds) = not (any (λ e. e == d) ds) && distinct_dates ds

-- `notionRuleSourceSchema`, of a source whose title is trimmed.
unfoldable pub rule_source_check : NotionRuleSource → Bool
rule_source_check r =
    leb 1 (utf16_length r.title)
    && leb (utf16_length r.title) 200
    && is_local_date r.start_date
    && if_some is_local_date r.end_date
    && recurrence_pattern_check r.pattern
    && all is_local_date r.excluded_dates
    && if_some (λ e. not (ltb e r.start_date)) r.end_date
    && distinct_dates r.excluded_dates

abbrev trim_rule : NotionRuleMapping → NotionRuleMapping
trim_rule r = record r { source = record r.source { title = trim r.source.title } }

abbrev same_rule : NotionRuleMapping → NotionRuleMapping → Bool
same_rule a b = text_eq a.workspace_id b.workspace_id && text_eq a.remote_page_id b.remote_page_id

-- The row of the same key is replaced, and otherwise the row is added.
unfoldable pub put_rule_row : NotionRuleMapping → List NotionRuleMapping → List NotionRuleMapping
put_rule_row rule [] = rule ∷ []
put_rule_row rule (r ∷ rs) =
    let rest = put_rule_row rule rs in if same_rule r rule then rule ∷ rs else r ∷ rest

-- `connection.dataSources.rules?.dataSourceId !== …` and the logical id, negated.
abbrev rule_belongs : NotionRuleMapping → Option NotionConnection → Bool
rule_belongs r connection =
    holds
      (λ (c : NotionConnection).
        holds (λ d. text_eq d.data_source_id r.data_source_id) c.data_sources.rules
        && text_eq r.logical_series_id (notion_logical_series_id r.workspace_id r.remote_page_id))
      connection

module _ (process : Process) where
  abbrev rule_check : NotionRuleMapping → Bool
  rule_check r =
      non_empty_id r.workspace_id
      && non_empty_id r.data_source_id
      && non_empty_id r.remote_page_id
      && non_empty_id r.logical_series_id
      && rule_source_check r.source
      && if_some is_local_date r.generation_after
      && process.is_datetime r.updated_at

  unfoldable pub put_notion_rule_mapping : NotionRuleMapping → Body (Unit {0})
  put_notion_rule_mapping value =
      let rule = trim_rule value in
      check (rule_check rule) invalid_value
      >> ask (get_notion_connection rule.workspace_id)
      >>= λ connection.
          check (rule_belongs rule connection) rule_identity_differs
          >> ask (λ s. s.rule_mappings)
          >>= λ rows.
              check
                (not (
                  any
                    (λ other.
                      not (same_rule other rule)
                      && text_eq other.logical_series_id rule.logical_series_id)
                    rows))
                constraint_failed
              >> modify (λ s. record s { rule_mappings = put_rule_row rule s.rule_mappings })
