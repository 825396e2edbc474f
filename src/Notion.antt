-- ===== src/Notion.antt =====
-- The Notion tables of apps/api/src/storage/sqlite-planner-store.ts and the operations of the store
-- on them: connections, initialization steps, rule and task mappings, the outbox and scan attempts.
-- The records are those of packages/core/src/contracts/notion-sync.ts.
pub mod Records
pub mod Sync
pub mod Links
pub mod Outbox
pub mod Scans
pub mod Drain
