-- ===== src/Notion/Outbox/Moves.antt =====
-- The promise of the outbox, apart from the tables around it: a state machine on its rows. A row
-- moves along the diagram of statuses, and only a row whose task has no unresolved send is claimed.
use new_day.Prelude.{◌≡◌, ◌+◌, ◌≤◌, true, List, [], ◌∷◌, ◌++◌, map, In, ◌⊎◌}
use new_day.Notion.Records.{
  NotionOutboxOperation, OperationStatus, pending, sending, unknown, confirmed, superseded,
  quarantined,
}
use new_day.Notion.Outbox.{is_unresolved}

infix 40 ◌⟶◌
pub data ◌⟶◌ : OperationStatus → OperationStatus → Type 0 where
  stay : {x : OperationStatus} → x ⟶ x
  claim : pending ⟶ sending
  supersede_waiting : pending ⟶ superseded
  supersede_unsent : sending ⟶ superseded
  give_back : sending ⟶ pending
  lose : sending ⟶ unknown
  fence_sending : sending ⟶ quarantined
  fence_unknown : unknown ⟶ quarantined
  confirm_sending : sending ⟶ confirmed
  confirm_unknown : unknown ⟶ confirmed
  confirm_waiting : pending ⟶ confirmed

pub data IsFinal : OperationStatus → Type 0 where
  final_confirmed : IsFinal confirmed
  final_superseded : IsFinal superseded
  final_quarantined : IsFinal quarantined

-- A row before and after it is written.
pub record Edit (old new : NotionOutboxOperation) : Type 0 where
  pub same_operation : new.operation_id ≡ old.operation_id
  pub same_task : new.local_task_id ≡ old.local_task_id
  pub same_workspace : new.workspace_id ≡ old.workspace_id
  pub same_epoch : new.dataset_epoch ≡ old.dataset_epoch
  pub moves : old.status ⟶ new.status
  -- a claim is counted, and nothing else is
  pub counts :
      (new.attempt_count ≡ old.attempt_count)
      ⊎ ((old.status ≡ pending)
          × (new.status ≡ sending)
          × (new.attempt_count ≡ old.attempt_count + 1))
  -- a claim is counted
  pub claims :
      old.status ≡ pending → new.status ≡ sending → new.attempt_count ≡ old.attempt_count + 1
  -- a final row is not written again
  pub keeps : IsFinal old.status → new ≡ old

-- Two rows of one task are not both unresolved after a claim.
abbrev pub Alone :
    List NotionOutboxOperation → (NotionOutboxOperation → NotionOutboxOperation) → Type 0
Alone rows g =
    (a b : NotionOutboxOperation)
    → In a rows
    → In b rows
    → a.status ≡ pending
    → (g a).status ≡ sending
    → b.local_task_id ≡ a.local_task_id
    → is_unresolved (g b).status ≡ true
    → b.operation_id ≡ a.operation_id

-- Every row is kept or edited, or a new row is added that waits.
pub data Move (rows : List NotionOutboxOperation) : List NotionOutboxOperation → Type 0 where
  edited :
      (g : NotionOutboxOperation → NotionOutboxOperation)
      → ((o : NotionOutboxOperation) → In o rows → Edit o (g o))
      → Alone rows g
      → Move rows (map g rows)
  queued :
      (new : NotionOutboxOperation)
      → ((o : NotionOutboxOperation) → In o rows → o.operation_id ≡ new.operation_id → ⊥)
      → new.status ≡ pending
      → new.attempt_count ≡ 0
      → Move rows (rows ++ new ∷ [])

pub data Trail (rows : List NotionOutboxOperation) : List NotionOutboxOperation → Type 0 where
  start : Trail rows rows
  further :
      {mid last : List NotionOutboxOperation} → Trail rows mid → Move mid last → Trail rows last

pub Trail-append : {a b c : List NotionOutboxOperation} → Trail a b → Trail b c → Trail a c
Trail-append p start = p
Trail-append p (further q m) = further (Trail-append p q) m

-- What holds of the rows between two operations.
pub record Sound (rows : List NotionOutboxOperation) : Type 0 where
  -- the primary key
  pub unique :
      (a b : NotionOutboxOperation)
      → In a rows
      → In b rows
      → a.operation_id ≡ b.operation_id
      → a ≡ b
  pub one_unresolved :
      (a b : NotionOutboxOperation)
      → In a rows
      → In b rows
      → is_unresolved a.status ≡ true
      → is_unresolved b.status ≡ true
      → a.local_task_id ≡ b.local_task_id
      → a.operation_id ≡ b.operation_id
  pub attempted :
      (o : NotionOutboxOperation) → In o rows → is_unresolved o.status ≡ true → 1 ≤ o.attempt_count
