-- ===== src/Notion/Outbox/Queue.antt =====
-- What waits for a task after an operation is queued, and after a write is read back.
use new_day.Prelude.{
  ◌≡◌, refl, sym, ap, ◌∙◌, Bool, true, some, List, [], ◌∷◌, ◌++◌, map, filter, In, inl, inr, arith,
  Bool-cases, if◌then◌else◌,
}
use new_day.Prelude.Lists.{along, map-In}
use new_day.Prelude.Strings.{Text, text_eq_refl, trim-trim}
use new_day.Reconcile.{NotionTaskFields}
use new_day.Notion.Records.{
  NotionOutboxOperation, NotionConnection, superseded, trim_fields, same_fields,
}
use new_day.Notion.Sync.{SyncState, Process, gave}
use new_day.Notion.Sync.Ends.{
  Ends, Ends-at, Ends-any, Ends-call, Ends-pass, Ends-weaken, Ends-present, Ends-ask, Ends-check,
  Ends-when, Ends-done, Ends-last_modify,
}
use new_day.Notion.Outbox.{
  waits_for, get_notion_outbox_operation, trim_operation, update_each, enqueue_notion_outbox,
}
use new_day.Notion.Outbox.Confirm.{
  Confirmation, attempted_row, was_confirmed, was_unknown, was_quarantined, rebase_pending,
  accept_read_back, close_attempt, confirm_notion_outbox,
}
use new_day.Notion.Outbox.Claims.{assert-Ends}

abbrev each_row :
    (NotionOutboxOperation → Bool)
    → (NotionOutboxOperation → NotionOutboxOperation)
    → NotionOutboxOperation
    → NotionOutboxOperation
each_row test change o = if test o then trim_operation (change o) else o

rows-Ends :
    (test : NotionOutboxOperation → Bool) (change : NotionOutboxOperation → NotionOutboxOperation)
    (process : Process) (s : SyncState)
    → Ends
        (update_each process test change)
        s
        (λ u t. t.outbox ≡ map (each_row test change) s.outbox)
unfolding update_each
rows-Ends test change process s = Ends-ask _ _ (Ends-check _ _ (λ valid. Ends-last_modify _ refl))

none_waits :
    (task : Text) (rows : List NotionOutboxOperation)
    → filter
        (waits_for task)
        (map (each_row (waits_for task) (λ o. record o { status = superseded })) rows)
      ≡ []
none_waits task [] = refl
none_waits task (o ∷ rows) = elim (Bool-cases (waits_for task o)) [
  | inl y ↦ rw y (rw (none_waits task rows) (ground arith))
  | inr n ↦ rw n (rw n (none_waits task rows))
]

filter-last :
    (p : NotionOutboxOperation → Bool) (rows : List NotionOutboxOperation)
    (o : NotionOutboxOperation)
    → p o ≡ true
    → filter p rows ≡ []
    → filter p (rows ++ o ∷ []) ≡ o ∷ []
filter-last p [] o y h = rw y refl
filter-last p (x ∷ rows) o y h = elim (Bool-cases (p x)) [
  | inl k ↦ absurd (ground arith)
  | inr n ↦ rw n (filter-last p rows o y (rw n at h))
]

-- Where an operation is queued, it is the one operation that waits for its task: each one that
-- waited is superseded.
pub enqueue-one_waits :
    (process : Process) (value : NotionOutboxOperation) (s t : SyncState)
    → enqueue_notion_outbox process value s ≡ gave tt t
    → filter (waits_for value.local_task_id) t.outbox ≡ trim_operation value ∷ []
unfolding enqueue_notion_outbox
enqueue-one_waits process value s t h = Ends-at ends tt t h
  where
    ends :
        Ends
          (enqueue_notion_outbox process value)
          s
          (λ u t. filter (waits_for value.local_task_id) t.outbox ≡ trim_operation value ∷ [])
    ends = Ends-check _ _ (λ valid. Ends-check _ _ (λ new. Ends-ask _ _ (
        Ends-check _ _ (λ mapped. Ends-ask _ _ (
          Ends-check _ _ (λ current. Ends-check _ _ (λ based. Ends-pass (assert-Ends _ s) (λ a.
            Ends-call (rows-Ends _ _ process s) (λ u w rows. Ends-ask _ _ (
              Ends-check _ _ (λ free. Ends-last_modify _ (
                filter-last (waits_for value.local_task_id) w.outbox (trim_operation value)
                  (ground (arith, text_eq_refl value.local_task_id))
                  (ap (λ x. filter (waits_for value.local_task_id) x) rows
                    ∙ none_waits value.local_task_id s.outbox)))))))))))))

-- A row that waits for the task is compared with the fields.
abbrev pub Rebased : Text → NotionTaskFields → NotionOutboxOperation → Type 0
Rebased task fields o = waits_for task o ≡ true → o.baseline ≡ some (trim_fields fields)

module _ (task : Text) (fields : NotionTaskFields) (at : Text) where
  rebased_baseline :
      (x : NotionOutboxOperation)
      → (trim_operation (rebase_pending (trim_fields fields) at x)).baseline
        ≡ some (trim_fields fields)
  rebased_baseline x = elim (Bool-cases (same_fields x.desired (trim_fields fields))) [
    | inl y ↦ rw y (rw (trim-trim fields.title) refl)
    | inr n ↦ rw n (rw (trim-trim fields.title) refl)
  ]

  row-Rebased :
      (x : NotionOutboxOperation)
      → Rebased task fields (each_row (waits_for task) (rebase_pending (trim_fields fields) at) x)
  row-Rebased x h = elim (Bool-cases (waits_for task x)) [
    | inl y ↦ rw y (rebased_baseline x)
    | inr n ↦ absurd (ground (arith, n, rw n at h))
  ]

  rows-Rebased :
      (rows last : List NotionOutboxOperation)
      → last ≡ map (each_row (waits_for task) (rebase_pending (trim_fields fields) at)) rows
      → (o : NotionOutboxOperation) → In o last
      → Rebased task fields o
  rows-Rebased rows last e o i =
      let (x, j, same) = map-In _ o rows (along (λ xs. In o xs) e i) in
      along (Rebased task fields) (sym same) (row-Rebased x)

module _ (process : Process) (fields : NotionTaskFields) (page at : Text) where
  accept-Rebased :
      (operation : NotionOutboxOperation) (s : SyncState)
      → Ends (accept_read_back process operation page (trim_fields fields) at) s (λ result t.
        (o : NotionOutboxOperation) → In o t.outbox → Rebased operation.local_task_id fields o)
  unfolding accept_read_back
  accept-Rebased operation s = Ends-ask _ _ (
      Ends-present _ (λ m found. Ends-check _ _ (λ agrees. Ends-call (Ends-any _ s) (λ u t one.
        Ends-call (Ends-any _ t) (λ v w two. Ends-call (rows-Ends _ _ process w) (λ x y rows.
          Ends-done _ (rows-Rebased operation.local_task_id fields at w.outbox y.outbox rows)))))))

  close-result :
      (new : NotionOutboxOperation) (c : NotionConnection) (result : Confirmation) (s : SyncState)
      → Ends (close_attempt process new c at result) s (λ r t. r ≡ result)
  unfolding close_attempt
  close-result new c result s =
      Ends-call (Ends-any _ s) (λ a t one. Ends-call (Ends-any _ t) (λ b u two. Ends-done _ refl))

  confirm-Rebased :
      (id : Text) (operation : NotionOutboxOperation) (s : SyncState)
      → attempted_row (get_notion_outbox_operation id s) ≡ some operation
      → Ends (confirm_notion_outbox process id page fields at) s (λ result t.
        result ≡ was_confirmed
        → (o : NotionOutboxOperation) → In o t.outbox
        → Rebased operation.local_task_id fields o)
  unfolding confirm_notion_outbox
  confirm-Rebased id operation s h = Ends-check _ _ (λ valid. Ends-check _ _ (λ named.
      Ends-ask _ _ (
        Ends-present _ (λ x found. Ends-ask _ _ (
          Ends-present _ (λ c linked. Ends-ask _ _ (
            Ends-when
              (λ current.
                Ends-when
                  (λ equal.
                    Ends-weaken (accept-Rebased x s)
                      (λ r t rebased same o i w. rebased o i (ground (arith, w, sym h ∙ found))))
                  (λ differs.
                    Ends-weaken (close-result _ c was_unknown s)
                      (λ r t e same. absurd (ground (arith, e, same)))))
              (λ stale.
                Ends-weaken (close-result _ c was_quarantined s)
                  (λ r t e same. absurd (ground (arith, e, same)))))))))))

-- Where a read-back confirms an operation, each operation that still waits for its task is from then
-- on compared with the fields that were read back, with their title trimmed.
pub confirm-rebases_waiting :
    (process : Process) (id page : Text) (read_back : NotionTaskFields) (at : Text)
    (operation : NotionOutboxOperation) (s t : SyncState)
    → attempted_row (get_notion_outbox_operation id s) ≡ some operation
    → confirm_notion_outbox process id page read_back at s ≡ gave was_confirmed t
    → (o : NotionOutboxOperation) → In o t.outbox
    → waits_for operation.local_task_id o ≡ true
    → o.baseline ≡ some (trim_fields read_back)
confirm-rebases_waiting process id page read_back at operation s t found h o i w =
    Ends-at (confirm-Rebased process read_back page at id operation s found) was_confirmed t h refl
      o i w
