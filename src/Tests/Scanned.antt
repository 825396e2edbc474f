-- ===== src/Tests/Scanned.antt =====
-- Two scan attempts of one source, where the clock of the second request stands behind.
use new_day.Prelude.{◌≡◌, refl, ap, ℕ, ◌<◌, false, Option, none, some, List, [], ◌∷◌, sym}
use new_day.Prelude.Strings.{Text, codes, text_eq, utf16_length}
use new_day.Table
use new_day.Notion.Records.{NotionScanWatermark, watermark_check}
use new_day.Notion.Sync.{SyncState, gave, ◌>>=◌, done, check, present, ask, modify}
use new_day.Notion.Scans.{
  WatermarkPatch, find_watermark, put_watermark_row, put_notion_scan_watermark,
  begin_notion_scan_attempt, update_current_notion_scan_attempt,
}
use new_day.Notion.Scans.Attempts.{ReadsIso, newer_attempt_wins}
use new_day.Tests.Sent.{one_process, workspace, read_clock}

abbrev marked : List NotionScanWatermark → SyncState
marked ws = record {
  tasks = [];
  connections = workspace ∷ [];
  mappings = [];
  rule_mappings = [];
  outbox = [];
  watermarks = ws;
  quarantine = [];
  dataset_epoch = codes "e";
}

abbrev mark_at : ℕ → NotionScanWatermark
mark_at n = record {
  workspace_id = codes "w";
  data_source_id = codes "d";
  completed_through = none;
  last_attempt_at = some (n ∷ []);
  last_success_at = none;
  last_error = none;
  last_error_at = none;
}

first_run :
    begin_notion_scan_attempt one_process (codes "w") (codes "d") (500 ∷ []) (marked [])
    ≡ gave (500 ∷ []) (marked (mark_at 500 ∷ []))
unfolding begin_notion_scan_attempt put_notion_scan_watermark ◌>>=◌ done check present ask modify
    text_eq utf16_length watermark_check find_watermark put_watermark_row Table.find
first_run = refl

second_run :
    begin_notion_scan_attempt one_process
      (codes "w")
      (codes "d")
      (400 ∷ [])
      (marked (mark_at 500 ∷ []))
    ≡ gave (501 ∷ []) (marked (mark_at 501 ∷ []))
unfolding begin_notion_scan_attempt put_notion_scan_watermark ◌>>=◌ done check present ask modify
    text_eq utf16_length watermark_check find_watermark put_watermark_row Table.find
second_run = refl

read_clock-iso : ReadsIso one_process
read_clock-iso n x h = ap read_there (sym h)
  where
    read_there : Option Text → Option ℕ
    read_there none = some n
    read_there (some y) = read_clock y

abbrev nothing_new : WatermarkPatch
nothing_new = record {
  completed_through = none;
  last_success_at = none;
  last_error = some none;
  last_error_at = none;
}

newer_attempt_example :
    (500 < 501)
    × (update_current_notion_scan_attempt one_process
          (codes "w")
          (codes "d")
          (500 ∷ [])
          nothing_new
          (marked (mark_at 501 ∷ []))
        ≡ gave false (marked (mark_at 501 ∷ [])))
newer_attempt_example =
    newer_attempt_wins one_process read_clock-iso (codes "w") (codes "d") (500 ∷ []) (400 ∷ [])
      (500 ∷ []) (501 ∷ []) 500 501 nothing_new (marked []) (marked (mark_at 500 ∷ []))
      (marked (mark_at 501 ∷ [])) first_run second_run refl refl
