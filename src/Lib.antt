-- ===== src/Lib.antt =====
-- NewDay, a planner for tasks, recurring tasks and the focus of the day: a verification library for
-- the core of the repository.
--
-- The program. packages/core/src holds the planner: domain/ has the schemas of its rows and the
-- rules of recurrence, application/ has the commands, their undo, the generation of the tasks of a
-- recurring series, the plan of a day and the reconciliation with a Notion page. The commands run on
-- a store, in production the SQLite store of apps/api/src/storage, which keeps the tables, the
-- transactions and the revision counter. The API, the web application, the OAuth worker and the
-- deployment scripts stand around this core.
--
-- The files.
--   Prelude           the names that the modules share; lists (Prelude/Lists), texts as lists of
--                     Unicode code points (Prelude/Strings), sorting (Prelude/Sorting), Boolean tests
--                     (Prelude/Tests),
--                     chains of checks that throw (Prelude/Checked), maps (Prelude/Maps)
--   Dates             packages/core/src/domain/planner-model.ts, `localDateSchema` and
--                     `isRealCalendarDate`. A date is the number of its eight digits, 20260927, so
--                     that `<` on strings is `<` on numbers (Dates/Written); a string that is no
--                     date is a number that the schema refuses (Dates/Calendar)
--   Result            what is thrown, as values
--   Host              what comes from packages and from the runtime: date-fns, zod's instants,
--                     `getTime`, `localeCompare`, `crypto.randomUUID`. These are parameters, with
--                     the documented laws of the calendar functions in `IsCalendar`; Host/Gregorian
--                     is a host that meets them
--   Model             packages/core/src/domain/planner-model.ts: rows and schemas
--   Recurrence        packages/core/src/domain/planner-recurrence.ts
--   Table, Store      apps/api/src/storage/sqlite-planner-store.ts: a table is the list of its
--                     payloads in the order of the key; `transaction`, `nestedTransaction`,
--                     `afterCommit` and the operations on tasks, series, focus records and resource
--                     links. Store/Effects has what each write does, Store/Queries that reads change
--                     nothing, Store/Transaction how a transaction ends
--   Session           the state that commands run on (tables, revision, callbacks of the open
--                     transaction, latest undo, change set) and the steps on it; Session/Keeps has
--                     the rules of invariants, Session/Returns what a block that returns has done
--   Undo, Receipt     packages/core/src/application/planner-undo.ts
--   Generation        packages/core/src/application/recurrence-generation.ts
--   Command           packages/core/src/application/planner-command.ts: Command/Tasks has the
--                     commands on single tasks, Command/Focus those on the focus, Command/Series
--                     those on series, Command/Run `applyPlannerCommand` and the batch. Command/Kept walks through
--                     all commands once, for every invariant; Command/Invariant does so for
--                     batches; Command/WellFormed is the invariant of the tables
--   Reconcile         packages/core/src/application/notion-sync-reconcile.ts and
--                     `notionTaskFieldsSchema` of packages/core/src/contracts/notion-sync.ts
--   Notion            the Notion tables of apps/api/src/storage/sqlite-planner-store.ts and the
--                     contracts of packages/core/src/contracts/notion-sync.ts: Notion/Links has the
--                     connections and mappings, Notion/Outbox the queue of writes (Sends and Confirm
--                     are the operations on a claimed send), Notion/Scans the scan attempts,
--                     Notion/Drain the wait for the sends in flight.
--                     Notion/Sync has the bodies of transactions and Notion/Sync/Ends the rules for
--                     what they leave. Notion/Outbox/Moves is the abstract machine of the outbox,
--                     Notion/Outbox/Steps the store operations as steps of it
--   Planning          apps/api/src/agent/validate-planning-output.ts, with the records of
--                     packages/core/src/contracts/agent-planning.ts; Planning/Accepted has the
--                     specification of a plan
--   Life              packages/core/src/domain/life-model.ts
--   LifeService       apps/api/src/services/life-service.ts and the life tables of
--                     apps/api/src/storage/sqlite-planner-store.ts; LifeService/Writes has the shape
--                     of their state, LifeService/Requests the calls that keep it
--   Backup            packages/core/src/contracts/planner-backup.ts: Backup/Versions reads a file of
--                     any version, Backup/Valid has the specification, Backup/Chains the segments
--                     of a series
--   DayPlan           packages/core/src/application/day-plan.ts
--   Tests             runs on small inputs, and the theorems at such inputs
--
-- How the code is read. An asynchronous function that may throw is a function from a session to a
-- result and a session: what was written before a throw stays written until a transaction takes it
-- back. Transactions of different callers do not interleave, since the store queues them. SQL
-- statements are read by their meaning, and a violated UNIQUE or foreign key throws `constraint`. Two
-- payloads that the code compares by `JSON.stringify` are compared as records, because parsed records
-- have their keys in one order. Loops are structural recursion over lists; only the wait of
-- Notion/Drain, a `while (true)`, runs on fuel: a read of the outbox for each 25 milliseconds of the
-- timeout, the length of a sleep, and two more are enough. Numbers are unbounded, because the code
-- does no arithmetic that could leave the safe integers. The laws of the calendar are asked for from
-- 0001-01-01 on, where date-fns and the digits of a date agree.
--
-- The bodies of transactions on the Notion tables are functions to a value and a new state, or to an
-- exception that leaves no state: a transaction, or the savepoint of a nested one, is rolled back.
-- `markNotionOutboxSending` runs two transactions, so it is a function to its result and the state.
-- What an operation takes from its process (the clock, `process.kill`, the ids of the senders) is a
-- record of parameters, given anew at each step.
--
-- What is not modelled: the event journal, the agent records and the execution ledger of the store;
-- the replacement of all data with its quarantine, initialization steps, conflicts and read caches of
-- Notion, and the Notion part of a backup; JSON texts and the shapes that zod refuses (a decoded
-- value of the right shape is taken); schema migration; `toTask`, `link`, `unlink` and `workspace` of
-- the life service; task capture, the other services and routes of the API, the web application, the
-- OAuth worker and the deployment. They are I/O around the core or separate components with their own
-- state.
pub mod Prelude
pub mod Dates
pub mod Result
pub mod Host
pub mod Model
pub mod Recurrence
pub mod Table
pub mod Undo
pub mod Session
pub mod Store
pub mod Generation
pub mod Receipt
pub mod Command
pub mod Reconcile
pub mod Notion
pub mod DayPlan
pub mod Planning
pub mod Life
pub mod LifeService
pub mod Backup
pub mod Tests
