-- ===== src/Notion/Outbox/Promises.antt =====
-- What the outbox promises in every state that its operations reach.
use new_day.Prelude.{◌≡◌, ◌≤◌}
use new_day.Notion.Records.{NotionOutboxOperation}

-- A row, later: the same operation for the same task, with at least as many attempts.
pub record Later (old new : NotionOutboxOperation) : Type 0 where
  pub same_operation : new.operation_id ≡ old.operation_id
  pub same_task : new.local_task_id ≡ old.local_task_id
  pub same_epoch : new.dataset_epoch ≡ old.dataset_epoch
  pub attempts : old.attempt_count ≤ new.attempt_count
