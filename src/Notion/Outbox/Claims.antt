-- ===== src/Notion/Outbox/Claims.antt =====
-- Queueing an operation, recovering lost sends and claiming a send are moves of the outbox.
use new_day.Prelude.{
  ◌≡◌, refl, sym, ◌+◌, Bool, true, false, ◌&&◌, Option, none, some, List, any, In, inl, inr, arith,
  if◌then◌else◌,
}
use new_day.Prelude.Lists.{along, any-In}
use new_day.Prelude.Strings.{Text, text_eq, text_eq_iff}
use new_day.Table.Restore.{find-In}
use new_day.Notion.Records.{NotionOutboxOperation, pending, sending}
use new_day.Notion.Sync.{SyncState, Process, inside_transaction, Outcome, threw, gave}
use new_day.Notion.Sync.Ends.{
  Ends, EndsIn, Ends-call, Ends-pass, Ends-present, Ends-ask, Ends-check, Ends-when, Ends-modify,
  Ends-done, Ends-weaken, Ends-last_modify, Ends-last_check,
}
use new_day.Notion.Outbox.{
  is_unresolved, waits_for, trim_operation, assert_notion_operation_task_state,
  enqueue_notion_outbox, is_orphan, recover_orphaned_notion_sends, claim_pending, claim_send,
  claim_after_recovery, settle_claim, mark_notion_outbox_sending,
}
use new_day.Notion.Outbox.Moves.{
  ◌⟶◌, claim, lose, supersede_waiting, IsFinal, Edit, Move, queued, Trail, start, further,
  Trail-append, Sound,
}
use new_day.Notion.Outbox.Paths.{Sound-Move}
use new_day.Notion.Outbox.Frames.{
  is_status_sound, Edit-from, pending-live, sending-live, update-Ends, each-Ends,
}

abbrev pub Along : {A : Type 0} → SyncState → A → SyncState → Type 0
Along s a t = Trail s.outbox t.outbox

pub assert-Ends :
    (o : NotionOutboxOperation) (s : SyncState)
    → Ends (assert_notion_operation_task_state o) s (λ a t. t ≡ s)
assert-Ends o s = Ends-ask _ _ (Ends-last_check _ _ refl)

waits_for-pending :
    (task : Text) (o : NotionOutboxOperation) → waits_for task o ≡ true → o.status ≡ pending
waits_for-pending task o h = is_status_sound o.status pending (ground arith)

module _ (process : Process) (s : SyncState) where
  pub enqueue-Ends :
      (value : NotionOutboxOperation) → Ends (enqueue_notion_outbox process value) s (Along s)
  unfolding enqueue_notion_outbox
  enqueue-Ends value = Ends-check _ _ (λ valid. Ends-check _ _ (λ new. Ends-ask _ _ (
      Ends-check _ _ (λ mapped. Ends-ask _ _ (
        Ends-check _ _ (λ current. Ends-check _ _ (λ based. Ends-pass (assert-Ends _ s) (λ a.
          Ends-call
            (each-Ends _ _ process s
              (λ o e.
                Edit-from pending o _ (waits_for-pending _ o e) supersede_waiting pending-live
                  (inl (λ q. absurd (ground arith))) refl refl refl refl refl)
              (λ o e q. absurd (ground arith)))
            (λ u t m. Ends-ask _ _ (
              Ends-check _ _ (λ free. Ends-last_modify _ (
                further (further start m.0) (
                  queued (trim_operation value)
                    (λ o i e. absurd (
                      ground (
                        arith,
                        any-In (λ x. text_eq x.operation_id value.operation_id) o t.outbox i
                            ((text_eq_iff o.operation_id value.operation_id).1 e),
                      )))
                    (is_status_sound value.status pending (ground arith))
                    (ground arith))))))))))))))

  is_orphan-sending :
      (workspace : Option Text) (o : NotionOutboxOperation)
      → is_orphan process workspace o ≡ true
      → o.status ≡ sending
  is_orphan-sending workspace o h = is_status_sound o.status sending (ground arith)

  -- A row that waits is not touched.
  pub recover-Ends :
      (workspace : Option Text)
      → Ends (recover_orphaned_notion_sends process workspace) s (λ lost t.
        Move s.outbox t.outbox
        × ((o : NotionOutboxOperation) → In o s.outbox → o.status ≡ pending → In o t.outbox))
  unfolding recover_orphaned_notion_sends
  recover-Ends workspace = Ends-ask _ _ (
      Ends-call
        (each-Ends _ _ process s
          (λ o e.
            Edit-from sending o _ (is_orphan-sending workspace o e) lose sending-live
              (inl (λ q. absurd (ground arith))) refl refl refl refl refl)
          (λ o e q. absurd (ground arith)))
        (λ u t m. Ends-modify _ _ (Ends-done _ (m.0, λ o i p. m.1 o i (ground arith)))))

-- A claim of a row that waits, where no row of its task is unresolved.
claimed-Edit :
    (o claimed : NotionOutboxOperation)
    → o.status ≡ pending
    → claimed.status ≡ sending
    → claimed.operation_id ≡ o.operation_id
    → claimed.local_task_id ≡ o.local_task_id
    → claimed.workspace_id ≡ o.workspace_id
    → claimed.dataset_epoch ≡ o.dataset_epoch
    → claimed.attempt_count ≡ o.attempt_count + 1
    → Edit o claimed
claimed-Edit o claimed p q i t w e c = record {
  same_operation = i;
  same_task = t;
  same_workspace = w;
  same_epoch = e;
  moves = along (λ x. x ⟶ claimed.status) (sym p) (along (λ y. pending ⟶ y) (sym q) claim);
  counts = inr (p, q, c);
  claims = λ a b. c;
  keeps = λ f. absurd (pending-live (along IsFinal p f));
}

none_unresolved :
    (task : Text) (rows : List NotionOutboxOperation)
    → any (λ o. text_eq o.local_task_id task && is_unresolved o.status) rows ≡ false
    → (b : NotionOutboxOperation) → In b rows
    → b.local_task_id ≡ task
    → is_unresolved b.status ≡ false
none_unresolved task rows none_there b i same = ground (
  arith,
  any-In (λ o. text_eq o.local_task_id task && is_unresolved o.status) b rows i,
  text_eq_iff b.local_task_id task,
)

module _ (process : Process) (s : SyncState) (sound : Sound s.outbox) where
  pub claim_pending-Ends :
      (at : Text) (o : NotionOutboxOperation)
      → o.status ≡ pending
      → In o s.outbox
      → Ends (claim_pending process at o) s (Along s)
  unfolding claim_pending
  claim_pending-Ends at o p i = Ends-ask _ _ (
      Ends-check _ _ (λ open_there. Ends-ask _ _ (
        Ends-check _ _ (λ current. Ends-ask _ _ (
          Ends-check _ _ (λ mapped. Ends-pass (assert-Ends _ s) (λ a. Ends-ask _ _ (
            Ends-check _ _ (λ free. Ends-check _ _ (λ unfenced.
              Ends-call
                (update-Ends process o _ s sound i
                  (claimed-Edit o _ p refl refl refl refl refl refl)
                  (λ q r. none_unresolved o.local_task_id s.outbox (ground arith)))
                (λ u t m. Ends-done _ (further start m))))))))))))

pub claim_send-Ends :
    (process : Process) (s : SyncState)
    → Sound s.outbox
    → (id at : Text) → Ends (claim_send process id at) s (Along s)
unfolding claim_send
claim_send-Ends process s sound id at = Ends-ask _ _ (
    Ends-present _ (λ o found. Ends-check _ _ (λ waits.
      let p = is_status_sound o.status pending waits in
      Ends-call (recover-Ends process s (some o.workspace_id)) (λ lost t m.
        Ends-when (λ gone. Ends-done _ (further start m.0))
          (λ kept.
            Ends-weaken
              (claim_pending-Ends process t (Sound-Move sound m.0) at o p
                (m.1 o (find-In _ id s.outbox o found) p))
              (λ a u q. Trail-append (further start m.0) q))))))

module _ (process : Process) (s : SyncState) (sound : Sound s.outbox) where
  settled :
      (id at : Text) (r : Outcome Bool)
      → EndsIn r (λ lost t.
        Move s.outbox t.outbox
        × ((o : NotionOutboxOperation) → In o s.outbox → o.status ≡ pending → In o t.outbox))
      → Trail s.outbox (claim_after_recovery process id at s r).1.outbox
  settled id at (threw e) m = start
  settled id at (gave lost t) m =
      go (claim_send process id at t)
        (claim_send-Ends process t (Sound-Move sound m.0) id at).reached
    where
      go :
          (r : Outcome (Option NotionOutboxOperation))
          → EndsIn r (Along t)
          → Trail s.outbox (settle_claim process t r).1.outbox
      go (threw e) q = further start m.0
      go (gave none u) q = Trail-append (further start m.0) q
      go (gave (some o) u) q = Trail-append (further start m.0) q

  -- A claim, whether it is given or refused, moves the rows along the diagram.
  pub mark_sending-Trail :
      (id at : Text) → Trail s.outbox (mark_notion_outbox_sending process id at s).1.outbox
  unfolding mark_notion_outbox_sending
  mark_sending-Trail id at = go process.in_transaction
    where
      go :
          (inside : Bool)
          → Trail s.outbox
              (if inside
                then (inl inside_transaction, s)
                else claim_after_recovery process id at s
                    (recover_orphaned_notion_sends process none s)).1.outbox
      go true = start
      go false =
          settled id at (recover_orphaned_notion_sends process none s)
            (recover-Ends process s none).reached
