-- ===== src/Notion/Outbox/Confirms.antt =====
-- Reading a write back is a move of the outbox.
use new_day.Prelude.{
  ◌≡◌, refl, sym, true, ◌||◌, Option, none, some, In, inl, inr, arith, Bool-cases, ◌≢◌,
}
use new_day.Prelude.Lists.{along}
use new_day.Prelude.Strings.{Text}
use new_day.Table.Restore.{find-In}
use new_day.Reconcile.{NotionTaskFields}
use new_day.Notion.Records.{
  NotionConnection, NotionOutboxOperation, OperationStatus, pending, sending, unknown, confirmed,
  superseded, quarantined, same_fields,
}
use new_day.Notion.Sync.{SyncState, Process}
use new_day.Notion.Sync.Ends.{
  Ends, Ends-call, Ends-present, Ends-ask, Ends-check, Ends-when, Ends-done,
}
use new_day.Notion.Outbox.{
  is_status, get_notion_outbox_operation, waits_for, trim_operation, update_notion_outbox,
}
use new_day.Notion.Outbox.Confirm.{
  Confirmation, attempted_row, rebase_pending, close_attempt, accept_read_back,
  confirm_notion_outbox,
}
use new_day.Notion.Outbox.Moves.{
  ◌⟶◌, stay, lose, fence_sending, fence_unknown, confirm_sending, confirm_unknown, confirm_waiting,
  IsFinal, Edit, Move, Trail, start, further, Sound,
}
use new_day.Notion.Outbox.Frames.{
  is_status_sound, Edit-from, pending-live, update-Ends, each-Ends, put_connection-Ends,
  put_mapping-Ends,
}
use new_day.Notion.Outbox.Claims.{Along}

-- A send that was made and is not settled.
pub data Attempted : OperationStatus → Type 0 where
  attempted_sending : Attempted sending
  attempted_unknown : Attempted unknown

Attempted-live : {x : OperationStatus} → Attempted x → IsFinal x → ⊥
Attempted-live attempted_sending = elim [ ]
Attempted-live attempted_unknown = elim [ ]

Attempted-waits : {x : OperationStatus} → Attempted x → x ≢ pending
Attempted-waits attempted_sending e = absurd (ground arith)
Attempted-waits attempted_unknown e = absurd (ground arith)

pub is_Attempted :
    (x : OperationStatus) → (is_status x sending || is_status x unknown) ≡ true → Attempted x
is_Attempted pending h = absurd (ground arith)
is_Attempted sending h = attempted_sending
is_Attempted unknown h = attempted_unknown
is_Attempted confirmed h = absurd (ground arith)
is_Attempted superseded h = absurd (ground arith)
is_Attempted quarantined h = absurd (ground arith)

pub attempted_row-some :
    (x o : NotionOutboxOperation) → attempted_row (some x) ≡ some o → (x ≡ o) × Attempted x.status
attempted_row-some x o h =
    elim (Bool-cases (is_status x.status sending || is_status x.status unknown)) [
      | inl y ↦ (ground arith, is_Attempted x.status y)
      | inr n ↦ absurd (ground arith)
    ]

pub attempted_row-In :
    (id : Text) (s : SyncState) (o : NotionOutboxOperation)
    → attempted_row (get_notion_outbox_operation id s) ≡ some o
    → In o s.outbox × Attempted o.status
attempted_row-In id s o h = go (get_notion_outbox_operation id s) refl h
  where
    go :
        (found : Option NotionOutboxOperation)
        → get_notion_outbox_operation id s ≡ found
        → attempted_row found ≡ some o
        → In o s.outbox × Attempted o.status
    go none e k = absurd (ground arith)
    go (some x) e k =
        let (same, at) = attempted_row-some x o k in
        along (λ (z : NotionOutboxOperation). In z s.outbox × Attempted z.status) same
          (find-In _ id s.outbox x e, at)

to_unknown : {x : OperationStatus} → Attempted x → x ⟶ unknown
to_unknown attempted_sending = lose
to_unknown attempted_unknown = stay

to_quarantined : {x : OperationStatus} → Attempted x → x ⟶ quarantined
to_quarantined attempted_sending = fence_sending
to_quarantined attempted_unknown = fence_unknown

to_confirmed : {x : OperationStatus} → Attempted x → x ⟶ confirmed
to_confirmed attempted_sending = confirm_sending
to_confirmed attempted_unknown = confirm_unknown

waiting : (task : Text) (o : NotionOutboxOperation) → waits_for task o ≡ true → o.status ≡ pending
waiting task o h = is_status_sound o.status pending (ground arith)

rebased-Edit :
    (fields : NotionTaskFields) (at : Text) (o : NotionOutboxOperation)
    → o.status ≡ pending
    → Edit o (trim_operation (rebase_pending fields at o))
rebased-Edit fields at o p = elim (Bool-cases (same_fields o.desired fields)) [
  | inl y ↦ rw y (
      Edit-from pending o
        (trim_operation
          (record o { baseline = some fields; status = confirmed; confirmed_at = some at }))
        p confirm_waiting pending-live (inl (λ q. absurd (ground arith))) refl refl refl refl refl)
  | inr n ↦ rw n (
      Edit-from pending o (trim_operation (record o { baseline = some fields })) p
        (along (λ x. pending ⟶ x) (sym p) stay) pending-live
        (inl (λ q. absurd (ground (arith, p, q)))) refl refl refl refl refl)
]

rebased-unclaimed :
    (fields : NotionTaskFields) (at : Text) (o : NotionOutboxOperation)
    → o.status ≡ pending
    → (rebase_pending fields at o).status ≡ sending
    → ⊥
rebased-unclaimed fields at o p q = elim (Bool-cases (same_fields o.desired fields)) [
  | inl y ↦ absurd (ground (arith, rw y at q))
  | inr n ↦ absurd (ground (arith, p, rw n at q))
]

module _ (process : Process) (s : SyncState) (sound : Sound s.outbox) (o : NotionOutboxOperation)
    (there : In o s.outbox) (live : Attempted o.status) where
  written-Ends :
      (new : NotionOutboxOperation)
      → o.status ⟶ new.status
      → new.operation_id ≡ o.operation_id
      → new.local_task_id ≡ o.local_task_id
      → new.workspace_id ≡ o.workspace_id
      → new.dataset_epoch ≡ o.dataset_epoch
      → new.attempt_count ≡ o.attempt_count
      → Ends (update_notion_outbox process new) s (λ u t. Move s.outbox t.outbox)
  written-Ends new moves i t w e c =
      update-Ends process o new s sound there
        (Edit-from o.status o (trim_operation new) refl moves (Attempted-live live)
          (inr (Attempted-waits live)) i t w e c)
        (λ p q. absurd (Attempted-waits live q))

  close-Ends :
      (new : NotionOutboxOperation) (c : NotionConnection) (at : Text) (result : Confirmation)
      → o.status ⟶ new.status
      → new.operation_id ≡ o.operation_id
      → new.local_task_id ≡ o.local_task_id
      → new.workspace_id ≡ o.workspace_id
      → new.dataset_epoch ≡ o.dataset_epoch
      → new.attempt_count ≡ o.attempt_count
      → Ends (close_attempt process new c at result) s (Along s)
  unfolding close_attempt
  close-Ends new c at result moves i t w e n =
      Ends-call (written-Ends new moves i t w e n) (λ u v m.
        Ends-call (put_connection-Ends process _ v) (λ a x same.
          Ends-done _ (along (λ rows. Trail s.outbox rows) (sym same) (further start m))))

module _ (process : Process) (s : SyncState) (sound : Sound s.outbox) where
  accept-Ends :
      (o : NotionOutboxOperation) (page : Text) (fields : NotionTaskFields) (at : Text)
      → In o s.outbox
      → Attempted o.status
      → Ends (accept_read_back process o page fields at) s (Along s)
  unfolding accept_read_back
  accept-Ends o page fields at there live = Ends-ask _ _ (
      Ends-present _ (λ m found. Ends-check _ _ (λ agrees.
        Ends-call (put_mapping-Ends process _ s) (λ u t same.
          Ends-call
            (written-Ends process t (along Sound (sym same) sound) o
              (along (λ rows. In o rows) (sym same) there) live _ (to_confirmed live) refl refl refl
              refl refl)
            (λ v w one.
              Ends-call
                (each-Ends _ _ process w (λ x e. rebased-Edit fields at x (waiting _ x e))
                  (λ x e. rebased-unclaimed fields at x (waiting _ x e)))
                (λ y z more. Ends-done _ (
                  along (λ rows. Trail rows z.outbox) same
                    (further (further start one) more.0))))))))

  pub confirm-Ends :
      (id page : Text) (read_back : NotionTaskFields) (at : Text)
      → Ends (confirm_notion_outbox process id page read_back at) s (Along s)
  unfolding confirm_notion_outbox
  confirm-Ends id page read_back at = Ends-check _ _ (λ valid. Ends-check _ _ (λ named.
      Ends-ask _ _ (
        Ends-present _ (λ o found.
          let (there, live) = attempted_row-In id s o found in
          Ends-ask _ _ (
            Ends-present _ (λ c linked. Ends-ask _ _ (
              Ends-when
                (λ current.
                  Ends-when (λ equal. accept-Ends o page _ at there live)
                    (λ differs.
                      close-Ends process s sound o there live _ c at _ (to_unknown live) refl refl
                        refl refl refl))
                (λ stale.
                  close-Ends process s sound o there live _ c at _ (to_quarantined live) refl refl
                    refl refl refl))))))))
