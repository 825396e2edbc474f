-- ===== src/Notion/Outbox/Fence.antt =====
-- The fence of a restore: once `pauseNotionForRestore` is committed, no send is claimed and none is
-- dispatched.
use new_day.Prelude.{
  ◌≡◌, refl, sym, Bool, true, false, not, ◌&&◌, ◌||◌, Option, none, some, List, [], ◌∷◌, map, any,
  all, ◌⊎◌, inl, inr, arith, Bool-cases, if◌then◌else◌, holds,
}
use new_day.Prelude.Lists.{along, all-In}
use new_day.Prelude.Strings.{Text, text_eq}
use new_day.Table.Restore.{find-In}
use new_day.Notion.Records.{NotionConnection, NotionOutboxOperation}
use new_day.Notion.Sync.{
  SyncState, Process, NotionError, inside_transaction, connection_paused, Outcome, threw, gave,
}
use new_day.Notion.Sync.Ends.{
  Ends, EndsIn, Ends-call, Ends-present, Ends-ask, Ends-check, Ends-when, Ends-modify, Ends-done,
  Ends-last_modify,
}
use new_day.Notion.Links.{get_notion_connection}
use new_day.Notion.Outbox.{
  is_active, is_paused, get_notion_outbox_operation, update_each, recover_orphaned_notion_sends,
  pause_unknown, claim_pending, claim_send, claim_after_recovery, settle_claim,
  mark_notion_outbox_sending,
}
use new_day.Notion.Outbox.Sends.{
  dispatch_row, can_dispatch_notion_outbox, pause_notion_for_restore, fence,
}

abbrev inactive : NotionConnection → Bool
inactive c = not (is_active c.status)

-- No workspace is active.
abbrev NoneActive : List NotionConnection → Type 0
NoneActive cs = all inactive cs ≡ true

fenced-NoneActive : (at : Text) (cs : List NotionConnection) → NoneActive (map (fence at) cs)
fenced-NoneActive at [] = refl
fenced-NoneActive at (c ∷ cs) = fenced-NoneActive at cs

paused-NoneActive :
    (p : Process) (orphans : List NotionOutboxOperation) (cs : List NotionConnection)
    → NoneActive cs
    → NoneActive (map (pause_unknown p orphans) cs)
paused-NoneActive p orphans [] h = refl
paused-NoneActive p orphans (c ∷ cs) h =
    let rest = paused-NoneActive p orphans cs (ground arith) in
    elim (Bool-cases (
      any (λ o. text_eq o.workspace_id c.workspace_id) orphans
      && (is_active c.status || is_paused c.status))) [
        | inl y ↦ rw y rest
        | inr n ↦ rw n (ground (arith, h, rest))
      ]

-- What the store reads of a workspace.
inactive-found :
    (id : Text) (s : SyncState)
    → NoneActive s.connections
    → holds (λ (c : NotionConnection). is_active c.status) (get_notion_connection id s) ≡ false
inactive-found id s h = go (get_notion_connection id s) refl
  where
    go :
        (found : Option NotionConnection)
        → get_notion_connection id s ≡ found
        → holds (λ (c : NotionConnection). is_active c.status) found ≡ false
    go none e = refl
    go (some c) e =
        ground (arith, all-In inactive c s.connections h (find-In _ id s.connections c e))

same_connections-Ends :
    (test : NotionOutboxOperation → Bool) (change : NotionOutboxOperation → NotionOutboxOperation)
    (p : Process) (s : SyncState)
    → Ends (update_each p test change) s (λ u t. t.connections ≡ s.connections)
unfolding update_each
same_connections-Ends test change p s =
    Ends-ask _ _ (Ends-check _ _ (λ valid. Ends-last_modify _ refl))

module _ (p : Process) (s : SyncState) (quiet : NoneActive s.connections) where
  recover-NoneActive :
      (w : Option Text)
      → Ends (recover_orphaned_notion_sends p w) s (λ lost t. NoneActive t.connections)
  unfolding recover_orphaned_notion_sends
  recover-NoneActive w = Ends-ask _ _ (
      Ends-call (same_connections-Ends _ _ p s) (λ u t same.
        Ends-modify _ _
          (Ends-done _ (paused-NoneActive p _ t.connections (along NoneActive (sym same) quiet)))))

  pending_refused :
      (at : Text) (o : NotionOutboxOperation)
      → Ends (claim_pending p at o) s (λ claimed t. claimed ≡ none)
  unfolding claim_pending
  pending_refused at o =
      Ends-ask _ _
        (Ends-check _ _ (λ on. absurd (ground (arith, on, inactive-found o.workspace_id s quiet))))

send_refused :
    (p : Process) (s : SyncState)
    → NoneActive s.connections
    → (id at : Text) → Ends (claim_send p id at) s (λ claimed t. claimed ≡ none)
unfolding claim_send
send_refused p s quiet id at = Ends-ask _ _ (
    Ends-present _ (λ o found. Ends-check _ _ (λ waits.
      Ends-call (recover-NoneActive p s quiet (some o.workspace_id)) (λ lost t still.
        Ends-when (λ gone. Ends-done _ refl) (λ kept. pending_refused p t still at o)))))

-- The result of a claim is an exception.
abbrev pub Refused : (NotionError ⊎ NotionOutboxOperation) × SyncState → Type 0
Refused r = (e : NotionError) × (r.0 ≡ inl e)

module _ (p : Process) (s : SyncState) (quiet : NoneActive s.connections) (id at : Text) where
  Refused-after :
      (r : Outcome Bool)
      → EndsIn r (λ lost t. NoneActive t.connections)
      → Refused (claim_after_recovery p id at s r)
  Refused-after (threw e) h = (e, refl)
  Refused-after (gave lost t) h = go (claim_send p id at t) (send_refused p t h id at).reached
    where
      go :
          (r : Outcome (Option NotionOutboxOperation))
          → EndsIn r (λ claimed u. claimed ≡ none)
          → Refused (settle_claim p t r)
      go (threw e) h = (e, refl)
      go (gave none u) h = (connection_paused, refl)
      go (gave (some o) u) h = absurd (ground arith)

  claim-Refused : Refused (mark_notion_outbox_sending p id at s)
  unfolding mark_notion_outbox_sending
  claim-Refused = go p.in_transaction
    where
      go :
          (inside : Bool)
          → Refused (
              if inside
              then (inl inside_transaction, s)
              else claim_after_recovery p id at s (recover_orphaned_notion_sends p none s))
      go true = (inside_transaction, refl)
      go false =
          Refused-after (recover_orphaned_notion_sends p none s)
            (recover-NoneActive p s quiet none).reached

  no_dispatch : can_dispatch_notion_outbox id at s ≡ false
  unfolding can_dispatch_notion_outbox
  no_dispatch = go (get_notion_outbox_operation id s)
    where
      go :
          (found : Option NotionOutboxOperation)
          → holds
              (λ (o : NotionOutboxOperation).
                dispatch_row at o
                && holds
                    (λ (c : NotionConnection). is_active c.status)
                    (get_notion_connection o.workspace_id s)
                && text_eq s.dataset_epoch at)
              found
            ≡ false
      go none = refl
      go (some o) = ground (arith, inactive-found o.workspace_id s quiet)

fence-NoneActive :
    (p : Process) (s : SyncState) → NoneActive (pause_notion_for_restore p s).connections
unfolding pause_notion_for_restore
fence-NoneActive p s = fenced-NoneActive p.now s.connections

-- Once the fence of a restore is committed, every claim of a send is refused with an exception, and
-- no send may be dispatched, whichever process asks.
pub restore_fence_holds :
    (p q : Process) (s : SyncState) (id at epoch : Text)
    → Refused (mark_notion_outbox_sending q id at (pause_notion_for_restore p s))
      × (can_dispatch_notion_outbox id epoch (pause_notion_for_restore p s) ≡ false)
restore_fence_holds p q s id at epoch =
    let quiet = fence-NoneActive p s in
    (claim-Refused q _ quiet id at, no_dispatch q _ quiet id epoch)
