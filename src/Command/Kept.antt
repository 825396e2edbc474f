-- ===== src/Command/Kept.antt =====
-- What every command keeps: a property that the writes of checked rows keep. One walk through the
-- code serves every invariant.
pub mod Tasks
pub mod Series
use new_day.Prelude.{◌≡◌, Bool, true, false, Option, none, some, List, [], ◌∷◌, arith, ltb}
use new_day.Prelude.Strings.{Text}
use new_day.Dates.{LocalDate}
use new_day.Host.{Host}
use new_day.Model.{
  Task, RecurrenceSeries, FocusRecord, ResourceTaskLink, task_check, series_check, task_schema,
  recurrence_series_schema,
}
use new_day.Result.{Result, ok, err, PlannerError}
use new_day.Undo.{UndoChangeSet}
use new_day.Session.{Session, Exec, pure, throw, lift, ◌>>=◌, ◌>>◌, for_each}
use new_day.Session.Keeps.{
  Keeps, Keeps-pure, Keeps-throw, Keeps-bind, Keeps-bind-lift, Keeps-for_each, keeps_rules,
}
use new_day.Store.{
  put_task, delete_task, put_recurrence_series, delete_recurrence_series, put_focus_record,
  delete_focus_record,
}
use new_day.Store.Queries.{query_rules}
use new_day.Generation.{
  EnsureRecurrenceOccurrencesInput, parse_generation_input, create_unless, materialize_date,
  materialize_dates, materialize_series, materialize_recurrence_occurrences,
}
use new_day.Command.{
  CreateTaskInput, UpdateTaskInput, CreateRecurrenceSeriesInput, SeriesFromTaskInput,
  UpdateSeriesInput, StopSeriesInput, change, capture_task, capture_missing_task,
  capture_recurrence_series, capture_missing_recurrence_series, capture_focus_record, capture_link,
  found_or, require_task, require_recurrence_series, delete_task_focus,
  capture_and_delete_task_focus, capture_task_resource_links,
}

-- The writes that a command may make, but for the one of `setTodayFocus`.
pub record KeptByWrites (host : Host) (P : Session → Type 0) : Type 0 where
  pub put_task_kept : (t : Task) → task_check host t ≡ true → Keeps P (put_task t)
  pub delete_task_kept : (id : Text) → Keeps P (delete_task id)
  pub put_series_kept :
      (r : RecurrenceSeries) → series_check host r ≡ true → Keeps P (put_recurrence_series r)
  pub delete_series_kept : (id : Text) → Keeps P (delete_recurrence_series id)
  pub delete_focus_kept : (id : Text) → Keeps P (delete_focus_record id)
  pub change_kept : (f : UndoChangeSet → UndoChangeSet) → Keeps P (change f)

-- What a schema returns has passed its checks.
pub task_schema-check :
    (host : Host) (t u : Task) → task_schema host t ≡ ok u → task_check host u ≡ true
unfolding task_schema
task_schema-check host t u h = ground arith

pub series_schema-check :
    (host : Host) (r u : RecurrenceSeries)
    → recurrence_series_schema host r ≡ ok u
    → series_check host u ≡ true
unfolding recurrence_series_schema
series_schema-check host r u h = ground arith

module _ (host : Host) {P : Session → Type 0} (k : KeptByWrites host P) where
  open k use {
    put_task_kept, delete_task_kept, put_series_kept, delete_series_kept, delete_focus_kept,
    change_kept,
  }

  pub kept-capture_task : (t : Task) → Keeps P (capture_task t)
  unfolding capture_task
  kept-capture_task t = change_kept _

  pub kept-capture_missing_task : (id : Text) → Keeps P (capture_missing_task id)
  unfolding capture_missing_task
  kept-capture_missing_task id = change_kept _

  pub kept-capture_recurrence_series :
      (r : RecurrenceSeries) → Keeps P (capture_recurrence_series r)
  unfolding capture_recurrence_series
  kept-capture_recurrence_series r = change_kept _

  pub kept-capture_missing_recurrence_series :
      (id : Text) → Keeps P (capture_missing_recurrence_series id)
  unfolding capture_missing_recurrence_series
  kept-capture_missing_recurrence_series id = change_kept _

  pub kept-capture_focus_record : (f : FocusRecord) → Keeps P (capture_focus_record f)
  unfolding capture_focus_record
  kept-capture_focus_record f = change_kept _

  pub kept-capture_link : (l : ResourceTaskLink) → Keeps P (capture_link l)
  unfolding capture_link
  kept-capture_link l = change_kept _

module _ {A : Type 0} {P : Session → Type 0} where
  pub kept-found_or : (e : PlannerError) (o : Option A) → Keeps P (found_or e o)
  unfolding found_or
  kept-found_or e none = Keeps-throw e
  kept-found_or e (some a) = Keeps-pure a

module _ {P : Session → Type 0} where
  pub kept-require_task : (id : Text) → Keeps P (require_task id)
  unfolding require_task
  kept-require_task id = search (keeps_rules, query_rules, kept-found_or)

  pub kept-require_recurrence_series : (id : Text) → Keeps P (require_recurrence_series id)
  unfolding require_recurrence_series
  kept-require_recurrence_series id = search (keeps_rules, query_rules, kept-found_or)

module _ (host : Host) {P : Session → Type 0} (k : KeptByWrites host P) where
  open k use {
    put_task_kept, delete_task_kept, put_series_kept, delete_series_kept, delete_focus_kept,
    change_kept,
  }

  pub kept-delete_task_focus : (id : Text) → Keeps P (delete_task_focus id)
  unfolding delete_task_focus
  kept-delete_task_focus id = search (keeps_rules, query_rules, delete_focus_kept)

  pub kept-capture_and_delete_task_focus : (id : Text) → Keeps P (capture_and_delete_task_focus id)
  unfolding capture_and_delete_task_focus
  kept-capture_and_delete_task_focus id =
      search (keeps_rules, query_rules, delete_focus_kept, kept-capture_focus_record host k)

  pub kept-capture_task_resource_links : (id : Text) → Keeps P (capture_task_resource_links id)
  unfolding capture_task_resource_links
  kept-capture_task_resource_links id = search (keeps_rules, query_rules, kept-capture_link host k)
