-- ===== src/Notion/Outbox/Frames.antt =====
-- Writes to the outbox as moves of its rows, and the operations that write other tables.
use new_day.Prelude.{
  ◌≡◌, refl, sym, ap, ◌∙◌, Bool, true, false, List, map, In, ◌⊎◌, inl, inr, arith, Bool-cases,
  if◌then◌else◌, ◌≢◌,
}
use new_day.Prelude.Lists.{along, In-map}
use new_day.Prelude.Strings.{text_eq, text_eq_iff}
use new_day.Notion.Records.{
  NotionConnection, NotionTaskMapping, NotionOutboxOperation, OperationStatus, pending, sending,
}
use new_day.Notion.Sync.{SyncState, Process}
use new_day.Notion.Sync.Ends.{
  Ends, Ends-call, Ends-present, Ends-ask, Ends-if_present, Ends-check, Ends-last_modify,
  Ends-last_check,
}
use new_day.Model.{Task}
use new_day.Notion.Links.{check_recurrence, put_notion_connection, put_notion_task_mapping}
use new_day.Notion.Outbox.{
  is_status, is_unresolved, replace_row, update_notion_outbox, update_each, trim_operation,
}
use new_day.Notion.Outbox.Moves.{◌⟶◌, stay, IsFinal, Edit, Alone, Move, edited, Sound}

pub is_status_sound : (x y : OperationStatus) → is_status x y ≡ true → x ≡ y
is_status_sound x y h = ground arith

pub kept-Edit : (o : NotionOutboxOperation) → Edit o o
kept-Edit o = record {
  same_operation = refl;
  same_task = refl;
  same_workspace = refl;
  same_epoch = refl;
  moves = stay;
  counts = inl refl;
  claims = λ p q. absurd (ground arith);
  keeps = λ f. refl;
}

-- A row whose identity and count stay, and which is not claimed.
pub settled-Edit :
    (old new : NotionOutboxOperation)
    → new.operation_id ≡ old.operation_id
    → new.local_task_id ≡ old.local_task_id
    → new.workspace_id ≡ old.workspace_id
    → new.dataset_epoch ≡ old.dataset_epoch
    → new.attempt_count ≡ old.attempt_count
    → old.status ⟶ new.status
    → (old.status ≡ pending → new.status ≡ sending → ⊥)
    → (IsFinal old.status → ⊥)
    → Edit old new
settled-Edit old new i t w e c m n f = record {
  same_operation = i;
  same_task = t;
  same_workspace = w;
  same_epoch = e;
  moves = m;
  counts = inl c;
  claims = λ p q. absurd (n p q);
  keeps = λ final. absurd (f final);
}

module _ (rows : List NotionOutboxOperation) (sound : Sound rows) (old new : NotionOutboxOperation)
    (there : In old rows) (edit : Edit old new) where
  is_old :
      (o : NotionOutboxOperation)
      → In o rows
      → text_eq o.operation_id new.operation_id ≡ true
      → o ≡ old
  is_old o i e =
      sound.unique o old i there
        ((text_eq_iff o.operation_id new.operation_id).0 e ∙ edit.same_operation)

  replaced-Edit : (o : NotionOutboxOperation) → In o rows → Edit o (replace_row new o)
  replaced-Edit o i = elim (Bool-cases (text_eq o.operation_id new.operation_id)) [
    | inl e ↦ rw e (along (λ x. Edit x new) (sym (is_old o i e)) edit)
    | inr n ↦ rw n (kept-Edit o)
  ]

  replaced-Alone :
      (new.status ≡ sending
        → old.status ≡ pending
        → (b : NotionOutboxOperation) → In b rows
        → b.local_task_id ≡ old.local_task_id
        → is_unresolved b.status ≡ false)
      → Alone rows (replace_row new)
  replaced-Alone free a b i j p q task u =
      elim (Bool-cases (text_eq a.operation_id new.operation_id)) [
        | inr n ↦ absurd (ground (arith, p, rw n at q))
        | inl e ↦ elim (Bool-cases (text_eq b.operation_id new.operation_id)) [
          | inl d ↦
              ap (λ (o : NotionOutboxOperation). o.operation_id) (is_old b j d ∙ sym (is_old a i e))
          | inr n ↦ absurd (
              ground (
                arith,
                free (rw e at q)
                    (along (λ (o : NotionOutboxOperation). o.status ≡ pending) (is_old a i e) p) b j
                    (task ∙ ap (λ (o : NotionOutboxOperation). o.local_task_id) (is_old a i e)),
                rw n at u,
              ))
        ]
      ]

  pub replaced-Move :
      (new.status ≡ sending
        → old.status ≡ pending
        → (b : NotionOutboxOperation) → In b rows
        → b.local_task_id ≡ old.local_task_id
        → is_unresolved b.status ≡ false)
      → Move rows (map (replace_row new) rows)
  replaced-Move free = edited (replace_row new) replaced-Edit (replaced-Alone free)

-- `updateNotionOutbox` of a row that is there.
pub update-Ends :
    (process : Process) (old new : NotionOutboxOperation) (s : SyncState)
    → Sound s.outbox
    → In old s.outbox
    → Edit old (trim_operation new)
    → (new.status ≡ sending
        → old.status ≡ pending
        → (b : NotionOutboxOperation) → In b s.outbox
        → b.local_task_id ≡ old.local_task_id
        → is_unresolved b.status ≡ false)
    → Ends (update_notion_outbox process new) s (λ u t. Move s.outbox t.outbox)
unfolding update_notion_outbox
update-Ends process old new s sound there edit free = Ends-check _ _ (λ valid.
    Ends-last_modify _ (replaced-Move s.outbox sound old (trim_operation new) there edit free))

module _ (test : NotionOutboxOperation → Bool)
    (change : NotionOutboxOperation → NotionOutboxOperation) where
  abbrev each_row : NotionOutboxOperation → NotionOutboxOperation
  each_row o = if test o then trim_operation (change o) else o

  each-Edit :
      ((o : NotionOutboxOperation) → test o ≡ true → Edit o (trim_operation (change o)))
      → (o : NotionOutboxOperation) → Edit o (each_row o)
  each-Edit edit o = elim (Bool-cases (test o)) [
    | inl e ↦ rw e (edit o e)
    | inr n ↦ rw n (kept-Edit o)
  ]

  each-Alone :
      (rows : List NotionOutboxOperation)
      → ((o : NotionOutboxOperation) → test o ≡ true → (change o).status ≡ sending → ⊥)
      → Alone rows each_row
  each-Alone rows never a b i j p q task u = elim (Bool-cases (test a)) [
    | inl e ↦ absurd (never a e (rw e at q))
    | inr n ↦ absurd (ground (arith, p, rw n at q))
  ]

  each_kept : (o : NotionOutboxOperation) → test o ≡ false → each_row o ≡ o
  each_kept o n = rw n refl

  -- A pass over the selected rows that claims none of them.
  pub each-Ends :
      (process : Process) (s : SyncState)
      → ((o : NotionOutboxOperation) → test o ≡ true → Edit o (trim_operation (change o)))
      → ((o : NotionOutboxOperation) → test o ≡ true → (change o).status ≡ sending → ⊥)
      → Ends (update_each process test change) s (λ u t.
        Move s.outbox t.outbox
        × ((o : NotionOutboxOperation) → In o s.outbox → test o ≡ false → In o t.outbox))
  unfolding update_each
  each-Ends process s edit never = Ends-ask _ _ (
      Ends-check _ _ (λ valid. Ends-last_modify _ (
        edited each_row (λ o i. each-Edit edit o) (each-Alone s.outbox never),
        λ o i n.
            along (λ (x : NotionOutboxOperation). In x (map each_row s.outbox)) (each_kept o n)
              (In-map each_row o s.outbox i),
      )))

-- An edit of a row that stands at `x`.
pub Edit-from :
    (x : OperationStatus) (old new : NotionOutboxOperation)
    → old.status ≡ x
    → x ⟶ new.status
    → (IsFinal x → ⊥)
    → (new.status ≡ sending → ⊥) ⊎ (x ≢ pending)
    → new.operation_id ≡ old.operation_id
    → new.local_task_id ≡ old.local_task_id
    → new.workspace_id ≡ old.workspace_id
    → new.dataset_epoch ≡ old.dataset_epoch
    → new.attempt_count ≡ old.attempt_count
    → Edit old new
Edit-from x old new at m live quiet i t w e c =
    settled-Edit old new i t w e c (along (λ y. y ⟶ new.status) (sym at) m)
      (λ p q. elim quiet [ inl n ↦ n q | inr n ↦ n (sym at ∙ p) ]) (λ f. live (along IsFinal at f))

pub sending-live : IsFinal sending → ⊥
sending-live = elim [ ]

pub pending-live : IsFinal pending → ⊥
pending-live = elim [ ]

-- Connections and mappings stand in other tables.
abbrev pub SameOutbox : {A : Type 0} → SyncState → A → SyncState → Type 0
SameOutbox s a t = t.outbox ≡ s.outbox

pub put_connection-Ends :
    (process : Process) (c : NotionConnection) (s : SyncState)
    → Ends (put_notion_connection process c) s (SameOutbox s)
unfolding put_notion_connection
put_connection-Ends process c s =
    Ends-check _ _ (λ valid. Ends-ask _ _ (Ends-check _ _ (λ same. Ends-last_modify _ refl)))

check_recurrence-Ends :
    (m : NotionTaskMapping) (task : Task) (s : SyncState)
    → Ends (check_recurrence m task) s (SameOutbox s)
unfolding check_recurrence
check_recurrence-Ends m task s =
    Ends-if_present (λ page e. Ends-ask _ _ (Ends-last_check _ _ refl))
      (λ e. Ends-last_check _ _ refl)

pub put_mapping-Ends :
    (process : Process) (m : NotionTaskMapping) (s : SyncState)
    → Ends (put_notion_task_mapping process m) s (SameOutbox s)
unfolding put_notion_task_mapping
put_mapping-Ends process m s = Ends-check _ _ (λ valid. Ends-ask _ _ (
    Ends-present _ (λ task found. Ends-ask _ _ (
      Ends-present _ (λ connection linked. Ends-check _ _ (λ key. Ends-check _ _ (λ source.
        Ends-call (check_recurrence-Ends _ task s) (λ a t same. Ends-ask _ _ (
          Ends-check _ _
            (λ identity. Ends-ask _ _ (Ends-check _ _ (λ free. Ends-last_modify _ same))))))))))))
