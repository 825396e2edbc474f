-- ===== src/Store.antt =====
-- The planner operations of apps/api/src/storage/sqlite-planner-store.ts. SQL statements are read by
-- their meaning: `UNIQUE` and `REFERENCES` violations are the error `constraint`. Two payloads are
-- compared by `JSON.stringify` in the source; parsed records have their keys in one order, so that
-- is equality of the records. `recordMutation` and the Notion tables are not modelled.
pub mod Queries
pub mod Effects
pub mod Transaction
pub mod Lookup
use native.Mathlib.Decide.{ℕ_discrete}
use new_day.Prelude.{
  ℕ, ◌+◌, Bool, true, false, not, ◌&&◌, ◌||◌, Option, none, some, List, [], ◌∷◌, ◌++◌, filter, any,
  leb, ◌==◌, if◌then◌else◌, holds,
}
use new_day.Prelude.Strings.{Text, text_eq, text_lt}
use new_day.Prelude.Sorting.{sort_by}
use new_day.Table
use new_day.Dates.{LocalDate}
use new_day.Model.{
  Status, RecurrencePattern, RecurrenceEnd, Task, RecurrenceSeries, FocusRecord, ResourceTaskLink,
}
use new_day.Result.{Result, ok, err, constraint}
use new_day.Undo.{StoredUndo}
use new_day.Session.{
  Session, Tables, Callback, set_latest, delete_latest, delete_if_latest, Exec, pure, throw,
  continue, ◌>>=◌, ◌>>◌,
}
use new_day.Model.Equality.{Task-discrete, RecurrenceSeries-discrete, FocusRecord-discrete}

-- `JSON.stringify(before) === JSON.stringify(row)`.
unfoldable pub same_row : {R : Type 0} → Discrete R → Option R → R → Bool
same_row d none row = false
same_row d (some before) row = elim (d before row) [ yes _ ↦ true | no _ ↦ false ]

abbrev pub settle : {A : Type 0} → Session → Result A → Session → Result A × Session
settle s (ok a) s' = (ok a, s')
settle s (err e) s' =
    (err e, record s' { tables = s.tables; callbacks = s.callbacks; mutated = s.mutated })

-- `nestedTransaction`: a failure takes back the writes and the registered callbacks.
unfoldable pub nested_transaction : {A : Type 0} → Exec A → Exec A
nested_transaction operation s = let (r, s') = operation s in settle s r s'

-- `afterCommit` inside a transaction.
unfoldable pub after_commit : Callback → Exec (Unit {0})
after_commit callback s = (ok tt, record s { callbacks = s.callbacks ++ callback ∷ [] })

-- The first write of a transaction counts it in `planner_revision`.
abbrev pub mark_mutation : Session → Session
mark_mutation s = record s {
  tables = record s.tables { revision = if s.mutated then s.revision else s.revision + 1 };
  mutated = true;
}

unfoldable pub get_task : Text → Exec (Option Task)
get_task id s = (ok (Table.find (λ (t : Task). t.id) id s.tasks), s)

abbrev pub has_key : Text → Task → Bool
has_key key t = holds (text_eq key) t.occurrence_key

unfoldable pub first_match : {R : Type 0} → (R → Bool) → List R → Option R
first_match p [] = none
first_match p (x ∷ xs) = let rest = first_match p xs in if p x then some x else rest

-- `SELECT payload FROM tasks WHERE occurrence_key = ?`.
unfoldable pub get_task_by_occurrence_key : Text → Exec (Option Task)
get_task_by_occurrence_key key s = (ok (first_match (has_key key) s.tasks), s)

-- `occurrence_key TEXT UNIQUE`: another task has the key.
unfoldable pub key_taken : Task → List Task → Bool
key_taken t tasks =
    holds (λ key. any (λ other. not (text_eq other.id t.id) && has_key key other) tasks)
      t.occurrence_key

unfoldable pub write_task : Task → Exec (Unit {0})
write_task t s =
    if same_row Task-discrete (Table.find (λ (t : Task). t.id) t.id s.tasks) t
    then (ok tt, s)
    else if key_taken t s.tasks
    then (err constraint, s)
    else (
      ok tt,
      mark_mutation (record s {
        tables = record s.tables { tasks = Table.put (λ (t : Task). t.id) t s.tasks };
      }),
    )

unfoldable pub put_task : Task → Exec (Unit {0})
put_task t = nested_transaction (write_task t)

-- `life_resource_tasks` refers to the task with ON DELETE CASCADE.
abbrev erase_task : Text → Session → Session
erase_task id s = record s {
  tables = record s.tables {
    tasks = Table.remove (λ (t : Task). t.id) id s.tasks;
    links = filter (λ l. not (text_eq l.task_id id)) s.links;
  };
}

unfoldable pub delete_task : Text → Exec (Unit {0})
delete_task id s = elim (Table.find (λ (t : Task). t.id) id s.tasks) [
  | none ↦ (ok tt, s)
  | some before ↦ (ok tt, mark_mutation (erase_task id s))
]

unfoldable pub list_all_tasks : Exec (List Task)
list_all_tasks s = (ok s.tasks, s)

unfoldable pub list_tasks_by_series : Text → Exec (List Task)
list_tasks_by_series id s = (ok (filter (λ t. holds (text_eq id) t.series_id) s.tasks), s)

unfoldable pub get_recurrence_series : Text → Exec (Option RecurrenceSeries)
get_recurrence_series id s = (ok (Table.find (λ (r : RecurrenceSeries). r.id) id s.series), s)

unfoldable pub put_recurrence_series : RecurrenceSeries → Exec (Unit {0})
put_recurrence_series r s =
    if same_row RecurrenceSeries-discrete
      (Table.find (λ (r : RecurrenceSeries). r.id) r.id s.series) r
    then (ok tt, s)
    else (
      ok tt,
      mark_mutation (record s {
        tables = record s.tables { series = Table.put (λ (r : RecurrenceSeries). r.id) r s.series };
      }),
    )

unfoldable pub delete_recurrence_series : Text → Exec (Unit {0})
delete_recurrence_series id s = elim (Table.find (λ (r : RecurrenceSeries). r.id) id s.series) [
  | none ↦ (ok tt, s)
  | some before ↦ (
    ok tt,
    mark_mutation (record s {
      tables = record s.tables {
        series = Table.remove (λ (r : RecurrenceSeries). r.id) id s.series;
      };
    }),
  )
]

unfoldable pub list_all_recurrence_series : Exec (List RecurrenceSeries)
list_all_recurrence_series s = (ok s.series, s)

-- `ORDER BY start_date,id`: the table is in the order of `id`, and the sort is stable.
unfoldable pub list_recurrence_series_by_logical_series_id : Text → Exec (List RecurrenceSeries)
list_recurrence_series_by_logical_series_id id s = (
  ok (
      sort_by (λ a b. leb a.start_date b.start_date)
        (filter (λ r. text_eq r.logical_series_id id) s.series)),
  s,
)

-- `UNIQUE(date,task_id)`.
unfoldable pub focus_taken : FocusRecord → List FocusRecord → Bool
focus_taken f records =
    any
      (λ other.
        not (text_eq other.id f.id) && other.date == f.date && text_eq other.task_id f.task_id)
      records

unfoldable pub write_focus_record : FocusRecord → Exec (Unit {0})
write_focus_record f s =
    if same_row FocusRecord-discrete (Table.find (λ (f : FocusRecord). f.id) f.id s.focus) f
    then (ok tt, s)
    else if focus_taken f s.focus
    then (err constraint, s)
    else (
      ok tt,
      mark_mutation (record s {
        tables = record s.tables { focus = Table.put (λ (f : FocusRecord). f.id) f s.focus };
      }),
    )

unfoldable pub put_focus_record : FocusRecord → Exec (Unit {0})
put_focus_record f = nested_transaction (write_focus_record f)

unfoldable pub delete_focus_record : Text → Exec (Unit {0})
delete_focus_record id s = elim (Table.find (λ (f : FocusRecord). f.id) id s.focus) [
  | none ↦ (ok tt, s)
  | some before ↦ (
    ok tt,
    mark_mutation (record s {
      tables = record s.tables { focus = Table.remove (λ (f : FocusRecord). f.id) id s.focus };
    }),
  )
]

unfoldable pub list_focus_records_for_date : LocalDate → Exec (List FocusRecord)
list_focus_records_for_date date s = (ok (filter (λ f. f.date == date) s.focus), s)

unfoldable pub list_focus_records_for_task : Text → Exec (List FocusRecord)
list_focus_records_for_task id s = (ok (filter (λ f. text_eq f.task_id id) s.focus), s)

-- `ORDER BY resource_id`.
unfoldable pub list_resource_task_links_for_task : Text → Exec (List ResourceTaskLink)
list_resource_task_links_for_task id s = (
  ok (
      sort_by (λ a b. not (text_lt b.resource_id a.resource_id))
        (filter (λ l. text_eq l.task_id id) s.links)),
  s,
)

abbrev pub same_link : ResourceTaskLink → ResourceTaskLink → Bool
same_link a b = text_eq a.resource_id b.resource_id && text_eq a.task_id b.task_id

-- `INSERT OR IGNORE`, which ignores a row that is there and not a row that is missing on the other
-- side of a foreign key.
unfoldable pub put_resource_task_link : ResourceTaskLink → Exec (Unit {0})
put_resource_task_link l s =
    if any (same_link l) s.links
    then (ok tt, s)
    else if any (text_eq l.resource_id) s.resources && any (λ t. text_eq t.id l.task_id) s.tasks
    then (ok tt, record s { tables = record s.tables { links = s.links ++ l ∷ [] } })
    else (err constraint, s)

abbrev pub run_callback : Callback → Session → Session
run_callback (set_latest u) s = record s { latest_undo = some u }
run_callback delete_latest s = record s { latest_undo = none }
run_callback (delete_if_latest token) s =
    if holds (λ (u : StoredUndo). text_eq u.token token) s.latest_undo
    then record s { latest_undo = none }
    else s

unfoldable pub run_callbacks : List Callback → Session → Session
run_callbacks [] s = s
run_callbacks (c ∷ cs) s = run_callbacks cs (run_callback c s)

abbrev pub close_transaction : {A : Type 0} → Session → Result A → Session → Result A × Session
close_transaction s (ok a) s' =
    (ok a, run_callbacks s'.callbacks (record s' { callbacks = []; mutated = false }))
close_transaction s (err e) s' =
    (err e, record s' { tables = s.tables; callbacks = []; mutated = false })

-- `transaction`, when no transaction is open: COMMIT and the callbacks, or ROLLBACK.
unfoldable pub transaction : {A : Type 0} → Exec A → Exec A
transaction operation s =
    let (r, s') = operation (record s { callbacks = []; mutated = false }) in
    close_transaction s r s'
