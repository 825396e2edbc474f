-- ===== src/Notion/Scans/Attempts.antt =====
-- Attempts of one source are strictly later one after the other, and a request that is not the
-- latest publishes nothing.
use new_day.Prelude.{
  ◌≡◌, refl, ap, ◌∙◌, ℕ, ◌<◌, false, some, List, [], ◌∷◌, inl, inr, arith, Bool-cases,
}
use new_day.Prelude.Lists.{along}
use new_day.Prelude.Strings.{Text, text_eq, text_eq_iff, text_eq_refl}
use new_day.Notion.Records.{NotionScanWatermark}
use new_day.Notion.Sync.{SyncState, Process, gave, ◌>>=◌, ask, if_present, when, done}
use new_day.Notion.Sync.Ends.{
  Ends, Ends-at, Ends-call, Ends-present, Ends-ask, Ends-check, Ends-done, Ends-last_modify,
}
use new_day.Notion.Scans.{
  has_source, find_watermark, put_watermark_row, previous_attempt, attempt_time, WatermarkPatch,
  put_notion_scan_watermark, begin_notion_scan_attempt, update_current_notion_scan_attempt,
}

-- `Date.parse` reads what `toISOString` writes.
abbrev pub ReadsIso : Process → Type 0
ReadsIso p = (n : ℕ) (x : Text) → p.iso_string n ≡ some x → p.parse_date x ≡ some n

find-put_watermark :
    (w : NotionScanWatermark) (ws : List NotionScanWatermark)
    → find_watermark w.workspace_id w.data_source_id (put_watermark_row w ws) ≡ some w
unfolding find_watermark put_watermark_row
find-put_watermark w [] = ground (arith, text_eq_refl w.workspace_id, text_eq_refl w.data_source_id)
find-put_watermark w (x ∷ ws) = elim (Bool-cases (has_source w.workspace_id w.data_source_id x)) [
  | inl y ↦ rw y (ground (arith, text_eq_refl w.workspace_id, text_eq_refl w.data_source_id))
  | inr n ↦ rw n (rw n (find-put_watermark w ws))
]

put_watermark-Ends :
    (p : Process) (w : NotionScanWatermark) (s : SyncState)
    → Ends
        (put_notion_scan_watermark p w)
        s
        (λ u t. t.watermarks ≡ put_watermark_row w s.watermarks)
unfolding put_notion_scan_watermark
put_watermark-Ends p w s =
    Ends-check _ _ (λ valid. Ends-ask _ _ (Ends-check _ _ (λ linked. Ends-last_modify _ refl)))

-- The mark of a source holds the attempt, at a time that follows the mark before.
abbrev Begun : Process → Text → Text → SyncState → Text → SyncState → Type 0
Begun p workspace source s x t =
    ((w : NotionScanWatermark) × (find_watermark workspace source t.watermarks ≡ some w)
      × (w.last_attempt_at ≡ some x))
    × (requested : ℕ) × (p.iso_string (
          attempt_time p requested
            (previous_attempt p (find_watermark workspace source s.watermarks)))
        ≡ some x)

begin-Ends :
    (p : Process) (workspace source requested_at : Text) (s : SyncState)
    → Ends
        (begin_notion_scan_attempt p workspace source requested_at)
        s
        (Begun p workspace source s)
unfolding begin_notion_scan_attempt
begin-Ends p workspace source requested_at s = Ends-present _ (λ requested parsed. Ends-ask _ _ (
    Ends-check _ _ (λ linked. Ends-ask _ _ (
      Ends-present _ (λ x written. Ends-call (put_watermark-Ends p _ s) (λ u t rows. Ends-done _ (
        (
          _,
          ap (λ ws. find_watermark workspace source ws) rows ∙ find-put_watermark _ s.watermarks,
          refl,
        ),
        requested,
        written,
      )))))))

later_than :
    (p : Process) (requested previous : ℕ) → previous < attempt_time p requested (some previous)
later_than p requested previous = ground arith

not_current :
    (p : Process) (workspace source x y : Text) (patch : WatermarkPatch) (w : NotionScanWatermark)
    (s : SyncState)
    → find_watermark workspace source s.watermarks ≡ some w
    → w.last_attempt_at ≡ some y
    → text_eq x y ≡ false
    → update_current_notion_scan_attempt p workspace source x patch s ≡ gave false s
unfolding update_current_notion_scan_attempt ◌>>=◌ ask if_present when done
not_current p workspace source x y patch w s found at n = rw found (rw at (rw n refl))

-- Where two attempts of one source begin one after the other, the second is at a later time, and a
-- request of the first publishes nothing over it. `Date.parse` reads what `toISOString` writes.
pub newer_attempt_wins :
    (p : Process)
    → ReadsIso p
    → (workspace source first second x y : Text) (a b : ℕ) (patch : WatermarkPatch)
      (s t u : SyncState)
    → begin_notion_scan_attempt p workspace source first s ≡ gave x t
    → begin_notion_scan_attempt p workspace source second t ≡ gave y u
    → p.parse_date x ≡ some a
    → p.parse_date y ≡ some b
    → (a < b) × (update_current_notion_scan_attempt p workspace source x patch u ≡ gave false u)
newer_attempt_wins p reads workspace source first second x y a b patch s t u hx hy ex ey =
    let ((w, found, at), r, _) = Ends-at (begin-Ends p workspace source first s) x t hx in
    let ((v, found', at'), r', written) = Ends-at (begin-Ends p workspace source second t) y u hy in
    let order = in_order r' (written_after w found at r' written) in
    (order, not_current p workspace source x y patch v u found' at' (differs order))
  where
    previous_is :
        (w : NotionScanWatermark)
        → find_watermark workspace source t.watermarks ≡ some w
        → w.last_attempt_at ≡ some x
        → previous_attempt p (find_watermark workspace source t.watermarks) ≡ some a
    previous_is w found at = rw found (rw at ex)

    written_after :
        (w : NotionScanWatermark)
        → find_watermark workspace source t.watermarks ≡ some w
        → w.last_attempt_at ≡ some x
        → (r : ℕ)
        → p.iso_string
            (attempt_time p r (previous_attempt p (find_watermark workspace source t.watermarks)))
          ≡ some y
        → p.iso_string (attempt_time p r (some a)) ≡ some y
    written_after w found at r h =
        along (λ o. p.iso_string (attempt_time p r o) ≡ some y) (previous_is w found at) h

    in_order : (r : ℕ) → p.iso_string (attempt_time p r (some a)) ≡ some y → a < b
    in_order r h = ground (arith, later_than p r a, reads (attempt_time p r (some a)) y h, ey)

    differs : a < b → text_eq x y ≡ false
    differs order = ground (arith, text_eq_iff x y, order, ex, ey)
