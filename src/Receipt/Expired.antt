-- ===== src/Receipt/Expired.antt =====
-- An undo that fails changes no table.
use new_day.Prelude.{◌≡◌, refl, ◌≢◌, inl, inr, Option, none, some, Bool-cases}
use new_day.Prelude.Strings.{Text, text_eq, text_eq_iff}
use new_day.Result.{err, PlannerError, undo_expired}
use new_day.Session.{Session, lift, ◌>>=◌}
use new_day.Undo.{StoredUndo}
use new_day.Store.{transaction}
use new_day.Store.Transaction.{transaction-error}
use new_day.Receipt.{match_receipt, read_latest, undo_planner_command}

-- A receipt that is not the latest one is refused.
match_receipt-other :
    (receipt : Text) (o : Option StoredUndo)
    → ((stored : StoredUndo) → o ≡ some stored → stored.token ≢ receipt)
    → match_receipt receipt o ≡ err undo_expired
unfolding match_receipt
match_receipt-other receipt none h = refl
match_receipt-other receipt (some stored) h = elim (Bool-cases (text_eq stored.token receipt)) [
  | inl same ↦ absurd (h stored refl ((text_eq_iff stored.token receipt).0 same))
  | inr other ↦ rw other refl
]

-- Where the receipt is not that of the latest batch, the undo throws `undo_expired` and leaves the
-- tables and the stored undo as they are.
pub undo_planner_command-expired :
    (receipt : Text) (s : Session)
    → ((stored : StoredUndo) → s.latest_undo ≡ some stored → stored.token ≢ receipt)
    → ((undo_planner_command receipt s).0 ≡ err undo_expired)
      × ((undo_planner_command receipt s).1.tables ≡ s.tables)
      × ((undo_planner_command receipt s).1.latest_undo ≡ s.latest_undo)
unfolding undo_planner_command transaction ◌>>=◌ read_latest lift
undo_planner_command-expired receipt s h =
    rw (match_receipt-other receipt s.latest_undo h) (refl, refl, refl)

-- Where the undo throws, for whatever reason, no table has changed.
pub undo_planner_command-error :
    (receipt : Text) (s : Session) (e : PlannerError)
    → (undo_planner_command receipt s).0 ≡ err e
    → (undo_planner_command receipt s).1.tables ≡ s.tables
unfolding undo_planner_command
undo_planner_command-error receipt s e h = transaction-error _ s e h
