-- ===== src/Command.antt =====
-- packages/core/src/application/planner-command.ts: the commands, the snapshots that they take, and
-- what the cases of `applyPlannerCommand` share. A date that a caller sends may be any string; one
-- that is no date at all is a number of more than eight digits here, which the schemas refuse too.
pub mod Tasks
pub mod Focus
pub mod Series
pub mod Kept
pub mod Run
pub mod Invariant
pub mod Atomic
pub mod Creation
pub mod FreeKeys
pub mod Undone
pub mod WellFormed
use new_day.Prelude.{
  ℕ, Bool, true, false, not, ◌&&◌, ◌||◌, Option, none, some, List, [], ◌∷◌, ◌++◌, any, leb,
  if◌then◌else◌, or_default,
}
use new_day.Prelude.Strings.{Text, text_eq, utf16_length}
use new_day.Dates.{LocalDate, read_date}
use new_day.Model.{
  Task, RecurrenceSeries, RecurrencePattern, RecurrenceEnd, FocusRecord, ResourceTaskLink, Status,
}
use new_day.Result.{Result, ok, err, task_not_found, series_not_found}
use new_day.Undo.{UndoChangeSet, capture}
use new_day.Session.{Session, Exec, pure, throw, continue, ◌>>=◌, ◌>>◌, for_each}
use new_day.Store.{
  get_task, get_recurrence_series, list_focus_records_for_task, delete_focus_record,
  list_resource_task_links_for_task, same_link,
}
use new_day.Generation.{EnsureRecurrenceOccurrencesInput}

pub record CreateTaskInput : Type 0 where
  pub id : Text
  pub title : Text
  pub notes : Option Text
  pub start_date : LocalDate
  pub end_date : LocalDate
  pub now : Text

pub record UpdateTaskInput : Type 0 where
  pub task_id : Text
  pub title : Option Text
  pub notes : Option Text
  pub start_date : Option LocalDate
  pub end_date : Option LocalDate
  pub now : Text

pub record CreateRecurrenceSeriesInput : Type 0 where
  pub id : Text
  pub title : Text
  pub notes : Option Text
  pub start_date : LocalDate
  pub pattern : RecurrencePattern
  pub end : RecurrenceEnd
  pub excluded_dates : Option (List LocalDate)
  pub now : Text

pub record SeriesFromTaskInput : Type 0 where
  pub task_id : Text
  pub series_id : Text
  pub title : Option Text
  pub notes : Option Text
  pub occurrence_date : Option LocalDate
  pub pattern : RecurrencePattern
  pub end : RecurrenceEnd
  pub now : Text

pub record UpdateSeriesInput : Type 0 where
  pub series_id : Text
  pub new_series_id : Text
  pub title : Option Text
  pub notes : Option Text
  pub pattern : Option RecurrencePattern
  pub end : Option RecurrenceEnd
  pub effective_date : Option LocalDate
  pub as_of_date : LocalDate
  pub through_date : LocalDate
  pub additionally_ensure_date : Option LocalDate
  pub now : Text

-- What `StopRecurrenceImpact.revision` serialises with `JSON.stringify`, as the data itself.
pub record SegmentRevision : Type 0 where
  pub id : Text
  pub start_date : LocalDate
  pub effective_end_date : Option LocalDate
  pub end : RecurrenceEnd
  pub excluded_dates : List LocalDate
  pub updated_at : Text

pub record OccurrenceRevision : Type 0 where
  pub id : Text
  pub series_id : Option Text
  pub occurrence_date : Option LocalDate
  pub status : Status
  pub is_series_exception : Option Bool
  pub updated_at : Text

pub record StopRevision : Type 0 where
  pub end_date : LocalDate
  pub series : List SegmentRevision
  pub tasks : List OccurrenceRevision
  pub focus_records : List FocusRecord

-- `expected_impact` is the `revision` of the impact that the user confirmed.
pub record StopSeriesInput : Type 0 where
  pub series_id : Text
  pub end_date : LocalDate
  pub expected_impact : Option StopRevision
  pub now : Text

-- The arguments of a constructor that has no record of its own stand in the source's order.
pub data PlannerCommand : Type 0 where
  create_task : CreateTaskInput → PlannerCommand
  update_task : UpdateTaskInput → PlannerCommand
  update_task_details : Text → Option Text → Option Text → Text → PlannerCommand
  reschedule_task : Text → LocalDate → LocalDate → Text → PlannerCommand
  complete_task : Text → Text → Option LocalDate → Option LocalDate → PlannerCommand
  reopen_task : Text → Text → PlannerCommand
  delete_task : Text → Option Text → PlannerCommand
  set_today_focus : Text → LocalDate → Text → PlannerCommand
  remove_today_focus : Text → LocalDate → PlannerCommand
  create_recurrence_series : CreateRecurrenceSeriesInput → PlannerCommand
  create_recurrence_series_from_task : SeriesFromTaskInput → PlannerCommand
  update_recurrence_series : UpdateSeriesInput → PlannerCommand
  stop_recurrence_series : StopSeriesInput → PlannerCommand

-- A string that is there and not empty.
abbrev pub truthy : Option Text → Bool
truthy none = false
truthy (some t) = leb 1 (utf16_length t)

-- A string read where a date is expected.
abbrev pub date_of_text : Text → LocalDate
date_of_text t = or_default (read_date t) 100000000

unfoldable pub change : (UndoChangeSet → UndoChangeSet) → Exec (Unit {0})
change f s = (ok tt, record s { changes = f s.changes })

unfoldable pub capture_task : Task → Exec (Unit {0})
capture_task t = change (λ c. record c { tasks = capture t.id (some t) c.tasks })

unfoldable pub capture_missing_task : Text → Exec (Unit {0})
capture_missing_task id = change (λ c. record c { tasks = capture id none c.tasks })

unfoldable pub capture_recurrence_series : RecurrenceSeries → Exec (Unit {0})
capture_recurrence_series r =
    change (λ c. record c { recurrence_series = capture r.id (some r) c.recurrence_series })

unfoldable pub capture_missing_recurrence_series : Text → Exec (Unit {0})
capture_missing_recurrence_series id =
    change (λ c. record c { recurrence_series = capture id none c.recurrence_series })

unfoldable pub capture_focus_record : FocusRecord → Exec (Unit {0})
capture_focus_record f =
    change (λ c. record c { focus_records = capture f.id (some f) c.focus_records })

unfoldable pub capture_link : ResourceTaskLink → Exec (Unit {0})
capture_link l = change (λ c.
    if any (same_link l) c.resource_task_links
    then c
    else record c { resource_task_links = c.resource_task_links ++ l ∷ [] })

unfoldable pub found_or : {A : Type 0} → new_day.Result.PlannerError → Option A → Exec A
found_or e none = throw e
found_or e (some a) = pure a

unfoldable pub require_task : Text → Exec Task
require_task id = do task ← get_task id; found_or (task_not_found id) task

unfoldable pub require_recurrence_series : Text → Exec RecurrenceSeries
require_recurrence_series id = do
  series ← get_recurrence_series id
  found_or (series_not_found id) series

unfoldable pub delete_task_focus : Text → Exec (Unit {0})
delete_task_focus task_id = do
  records ← list_focus_records_for_task task_id
  for_each records (λ r. delete_focus_record r.id)

unfoldable pub capture_and_delete_task_focus : Text → Exec (Unit {0})
capture_and_delete_task_focus task_id = do
  records ← list_focus_records_for_task task_id
  for_each records (λ r. capture_focus_record r >> delete_focus_record r.id)

unfoldable pub capture_task_resource_links : Text → Exec (Unit {0})
capture_task_resource_links task_id = do
  links ← list_resource_task_links_for_task task_id
  for_each links capture_link
