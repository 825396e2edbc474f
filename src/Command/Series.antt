-- ===== src/Command/Series.antt =====
-- `applyPlannerCommand` of planner-command.ts on recurring series: creation, and what the update and
-- the stop of a series share (`loadLogicalTail`, `calculateStopRecurrenceImpact`).
pub mod Impact
pub mod Change
use native.Mathlib.Decide.{ℕ_discrete}
use new_day.Prelude.{
  ℕ, suc, ◌-◌, Bool, true, false, not, ◌&&◌, ◌||◌, Option, none, some, List, [], ◌∷◌, ◌++◌, any,
  filter, length, ltb, leb, ◌==◌, if◌then◌else◌, is_some, or_default, holds, map,
}
use new_day.Prelude.Strings.{Text, text_eq}
use new_day.Prelude.Sorting.{sort_by}
use new_day.Dates.{LocalDate}
use new_day.Host.{Host}
use new_day.Model.{
  Task, RecurrenceSeries, RecurrencePattern, RecurrenceEnd, FocusRecord, Status, never, on_date,
  is_open, task_schema, recurrence_series_schema, recurrence_occurrence_key, ends_before,
}
use new_day.Recurrence.{parse_date, recurs_on_date}
use new_day.Result.{
  Result, ok, err, series_exists, not_single_day, already_recurring, start_not_in_rule,
  occurrence_exists, outside_segment, lineage_broken, guard,
}
use new_day.Session.{Exec, pure, throw, lift, continue, ◌>>=◌, ◌>>◌, for_each}
use new_day.Store.{
  get_task_by_occurrence_key, put_task, get_recurrence_series, put_recurrence_series,
  list_recurrence_series_by_logical_series_id, list_tasks_by_series, list_focus_records_for_task,
}
use new_day.Generation.{parse_instant}
use new_day.Command.{
  CreateRecurrenceSeriesInput, SeriesFromTaskInput, truthy, require_task, require_recurrence_series,
  delete_task_focus,
}

module _ (host : Host) where
  unfoldable pub apply_create_recurrence_series : CreateRecurrenceSeriesInput → Exec Bool
  apply_create_recurrence_series input = do
    existing ← get_recurrence_series input.id
    lift (guard (not (is_some existing)) (series_exists input.id))
    series ← lift (
        recurrence_series_schema host (record {
          id = input.id;
          logical_series_id = input.id;
          title = input.title;
          notes = or_default input.notes [];
          start_date = input.start_date;
          effective_end_date = none;
          pattern = input.pattern;
          end = input.end;
          excluded_dates = or_default input.excluded_dates [];
          disabled = none;
          created_at = input.now;
          updated_at = input.now;
        }))
    put_recurrence_series series
    pure true

  abbrev single_day : Task → Bool
  single_day task = holds (λ a. holds (λ b. a == b) task.end_date) task.start_date

  -- The writes of `createRecurrenceSeriesFromTask`: the task becomes an occurrence of the series.
  unfoldable pub adopt_task :
      Text → Task → RecurrenceSeries → LocalDate → LocalDate → Text → Exec Bool
  adopt_task now task series task_date occurrence_date occurrence_key = do
    if occurrence_date == task_date then pure tt else delete_task_focus task.id
    put_recurrence_series series
    updated ← lift (
        task_schema host (record task {
          title = series.title;
          notes = series.notes;
          start_date = some occurrence_date;
          end_date = some occurrence_date;
          series_id = some series.id;
          logical_series_id = some series.logical_series_id;
          occurrence_date = some occurrence_date;
          occurrence_key = some occurrence_key;
          is_series_exception = some false;
          updated_at = now;
        }))
    put_task updated
    pure true

  unfoldable pub apply_create_recurrence_series_from_task : SeriesFromTaskInput → Exec Bool
  apply_create_recurrence_series_from_task input = do
    now ← lift (parse_instant host input.now)
    task ← require_task input.task_id
    lift (guard (single_day task) not_single_day)
    lift (guard (not (truthy task.series_id)) already_recurring)
    existing ← get_recurrence_series input.series_id
    lift (guard (not (is_some existing)) (series_exists input.series_id))
    let task_date = or_default task.start_date 100000000
    occurrence_date ← lift (parse_date (or_default input.occurrence_date task_date))
    series ← lift (
        recurrence_series_schema host (record {
          id = input.series_id;
          logical_series_id = input.series_id;
          title = or_default input.title task.title;
          notes = or_default input.notes task.notes;
          start_date = occurrence_date;
          effective_end_date = none;
          pattern = input.pattern;
          end = input.end;
          excluded_dates = [];
          disabled = none;
          created_at = now;
          updated_at = now;
        }))
    recurring ← lift (recurs_on_date host series occurrence_date)
    lift (guard recurring start_not_in_rule)
    let occurrence_key = recurrence_occurrence_key series.logical_series_id occurrence_date
    taken ← get_task_by_occurrence_key occurrence_key
    lift (guard (not (is_some taken)) (occurrence_exists occurrence_key))
    adopt_task now task series task_date occurrence_date occurrence_key

pub record LogicalTail : Type 0 where
  pub source : RecurrenceSeries
  pub chain : List RecurrenceSeries
  pub successors : List RecurrenceSeries
  pub tasks : List Task

-- `chain.slice(chain.findIndex((series) => series.id === id) + 1)`, none where there is no index.
unfoldable pub successors_of : Text → List RecurrenceSeries → Option (List RecurrenceSeries)
successors_of id [] = none
successors_of id (r ∷ rs) =
    let rest = successors_of id rs in if text_eq r.id id then some rs else rest

-- `taskById.set(task.id, task)`: a key keeps its first place and takes its last value.
unfoldable pub set_by_id : Task → List Task → List Task
set_by_id t [] = t ∷ []
set_by_id t (x ∷ xs) = let rest = set_by_id t xs in if text_eq x.id t.id then t ∷ xs else x ∷ rest

unfoldable pub set_all_by_id : List Task → List Task → List Task
set_all_by_id [] acc = acc
set_all_by_id (t ∷ ts) acc = set_all_by_id ts (set_by_id t acc)

unfoldable pub collect_tasks : List RecurrenceSeries → List Task → Exec (List Task)
collect_tasks [] acc = pure acc
collect_tasks (segment ∷ rest) acc = do
  tasks ← list_tasks_by_series segment.id
  collect_tasks rest (set_all_by_id tasks acc)

abbrev some_or : {A : Type 0} → new_day.Result.PlannerError → Option A → Result A
some_or e none = err e
some_or e (some a) = ok a

unfoldable pub load_logical_tail : Text → Exec LogicalTail
load_logical_tail series_id = do
  source ← require_recurrence_series series_id
  chain ← list_recurrence_series_by_logical_series_id source.logical_series_id
  successors ←
      lift (some_or (lineage_broken source.logical_series_id) (successors_of source.id chain))
  tasks ← collect_tasks (source ∷ successors) []
  pure (record { source = source; chain = chain; successors = successors; tasks = tasks })

-- `validateDateWithinSegment`.
unfoldable pub validate_date_within_segment : RecurrenceSeries → LocalDate → Result (Unit {0})
validate_date_within_segment series date =
    guard
      (not (ltb date series.start_date || holds (λ last. ltb last date) series.effective_end_date))
      outside_segment

-- `shouldRemoveAfterStop`.
unfoldable pub should_remove_after_stop : LocalDate → Task → Bool
should_remove_after_stop end_date task =
    holds (λ d. ltb end_date d) task.occurrence_date
    && is_open task.status
    && holds not task.is_series_exception
