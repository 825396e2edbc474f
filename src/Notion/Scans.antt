-- ===== src/Notion/Scans.antt =====
-- Scan attempts of apps/api/src/storage/sqlite-planner-store.ts: `putNotionScanWatermark`,
-- `beginNotionScanAttempt`, `isNotionScanAttemptCurrent` and `updateCurrentNotionScanAttempt`.
pub mod Attempts
use new_day.Prelude.{
  ℕ, ◌+◌, Bool, true, false, ◌&&◌, Option, none, some, List, [], ◌∷◌, is_some, holds, or_default,
  if◌then◌else◌, ltb,
}
use new_day.Prelude.Strings.{Text, text_eq}
use new_day.Notion.Records.{NotionScanWatermark, watermark_check}
use new_day.Notion.Sync.{
  SyncState, Process, Body, ◌>>=◌, ◌>>◌, done, check, present, if_present, when, ask, modify,
  invalid_value, scan_time_invalid, scan_time_out_of_range, scan_workspace_missing,
}
use new_day.Notion.Links.{get_notion_connection}

abbrev pub has_source : Text → Text → NotionScanWatermark → Bool
has_source workspace source w = text_eq w.workspace_id workspace && text_eq w.data_source_id source

-- `listNotionScanWatermarks().find(…)`.
unfoldable pub find_watermark : Text → Text → List NotionScanWatermark → Option NotionScanWatermark
find_watermark workspace source [] = none
find_watermark workspace source (w ∷ ws) =
    let rest = find_watermark workspace source ws in
    if has_source workspace source w then some w else rest

-- `ON CONFLICT(workspace_id,data_source_id) DO UPDATE`.
unfoldable pub put_watermark_row :
    NotionScanWatermark → List NotionScanWatermark → List NotionScanWatermark
put_watermark_row new [] = new ∷ []
put_watermark_row new (w ∷ ws) =
    let rest = put_watermark_row new ws in
    if has_source new.workspace_id new.data_source_id w then new ∷ ws else w ∷ rest

-- `Math.max`.
abbrev pub later_of : ℕ → ℕ → ℕ
later_of a b = if ltb a b then b else a

-- `Partial<…>` of the fields that a request may publish.
pub record WatermarkPatch : Type 0 where
  pub completed_through : Option (Option Text)
  pub last_success_at : Option (Option Text)
  pub last_error : Option (Option Text)
  pub last_error_at : Option (Option Text)

abbrev field_of :
    {A : Type 0} → (NotionScanWatermark → Option A) → Option NotionScanWatermark → Option A
field_of f none = none
field_of f (some w) = f w

module _ (process : Process) where
  unfoldable pub put_notion_scan_watermark : NotionScanWatermark → Body (Unit {0})
  put_notion_scan_watermark w =
      check (watermark_check process.is_datetime w) invalid_value
      >> ask (get_notion_connection w.workspace_id)
      >>= λ connection.
          check (is_some connection) scan_workspace_missing
          >> modify (λ s. record s { watermarks = put_watermark_row w s.watermarks })

  -- `old?.lastAttemptAt ? Date.parse(old.lastAttemptAt) : NaN`.
  abbrev pub previous_attempt : Option NotionScanWatermark → Option ℕ
  previous_attempt none = none
  previous_attempt (some w) = elim w.last_attempt_at [
    | none ↦ none
    | some at ↦ process.parse_date at
  ]

  -- The time of the new attempt, later than the one before it.
  abbrev pub attempt_time : ℕ → Option ℕ → ℕ
  attempt_time requested none = requested
  attempt_time requested (some previous) = later_of requested (previous + 1)

  unfoldable pub begin_notion_scan_attempt : Text → Text → Text → Body Text
  begin_notion_scan_attempt workspace source requested_at =
      present (process.parse_date requested_at) scan_time_invalid >>= λ requested.
      ask (get_notion_connection workspace) >>= λ connection.
      check (is_some connection) scan_workspace_missing
      >> ask (λ s. find_watermark workspace source s.watermarks)
      >>= λ old.
          present (process.iso_string (attempt_time requested (previous_attempt old)))
            scan_time_out_of_range
          >>= λ attempt_at.
              put_notion_scan_watermark (record {
                workspace_id = workspace;
                data_source_id = source;
                completed_through = field_of (λ w. w.completed_through) old;
                last_attempt_at = some attempt_at;
                last_success_at = field_of (λ w. w.last_success_at) old;
                last_error = field_of (λ w. w.last_error) old;
                last_error_at = field_of (λ w. w.last_error_at) old;
              })
              >> done attempt_at

  -- `current?.lastAttemptAt === attemptAt`.
  abbrev pub is_current : Text → Option NotionScanWatermark → Bool
  is_current attempt_at current =
      holds (λ (w : NotionScanWatermark). holds (text_eq attempt_at) w.last_attempt_at) current

  unfoldable pub is_notion_scan_attempt_current : Text → Text → Text → SyncState → Bool
  is_notion_scan_attempt_current workspace source attempt_at s =
      is_current attempt_at (find_watermark workspace source s.watermarks)

  unfoldable pub update_current_notion_scan_attempt :
      Text → Text → Text → WatermarkPatch → Body Bool
  update_current_notion_scan_attempt workspace source attempt_at patch =
      ask (λ s. find_watermark workspace source s.watermarks) >>= λ current.
      if_present current
        (λ w.
          when (holds (text_eq attempt_at) w.last_attempt_at)
            (put_notion_scan_watermark (record w {
              completed_through = or_default patch.completed_through w.completed_through;
              last_attempt_at = some attempt_at;
              last_success_at = or_default patch.last_success_at w.last_success_at;
              last_error = or_default patch.last_error w.last_error;
              last_error_at = or_default patch.last_error_at w.last_error_at;
            })
              >> done true)
            (done false))
        (done false)
