-- ===== src/Store/Queries.antt =====
-- The reads of the store leave the session alone, so they keep every property of it.
use new_day.Prelude.Strings.{Text}
use new_day.Dates.{LocalDate}
use new_day.Session.{Session}
use new_day.Session.Keeps.{Keeps}
use new_day.Store.{
  get_task, get_task_by_occurrence_key, list_tasks_by_series, get_recurrence_series,
  list_all_recurrence_series, list_recurrence_series_by_logical_series_id,
  list_focus_records_for_date, list_focus_records_for_task, list_resource_task_links_for_task,
}

module _ {P : Session → Type 0} where
  pub Keeps-get_task : (id : Text) → Keeps P (get_task id)
  unfolding get_task
  Keeps-get_task id = record { at = λ s h. h }

  pub Keeps-get_task_by_occurrence_key : (key : Text) → Keeps P (get_task_by_occurrence_key key)
  unfolding get_task_by_occurrence_key
  Keeps-get_task_by_occurrence_key key = record { at = λ s h. h }

  pub Keeps-list_tasks_by_series : (id : Text) → Keeps P (list_tasks_by_series id)
  unfolding list_tasks_by_series
  Keeps-list_tasks_by_series id = record { at = λ s h. h }

  pub Keeps-get_recurrence_series : (id : Text) → Keeps P (get_recurrence_series id)
  unfolding get_recurrence_series
  Keeps-get_recurrence_series id = record { at = λ s h. h }

  pub Keeps-list_all_recurrence_series : Keeps P list_all_recurrence_series
  unfolding list_all_recurrence_series
  Keeps-list_all_recurrence_series = record { at = λ s h. h }

  pub Keeps-list_recurrence_series_by_logical_series_id :
      (id : Text) → Keeps P (list_recurrence_series_by_logical_series_id id)
  unfolding list_recurrence_series_by_logical_series_id
  Keeps-list_recurrence_series_by_logical_series_id id = record { at = λ s h. h }

  pub Keeps-list_focus_records_for_date :
      (date : LocalDate) → Keeps P (list_focus_records_for_date date)
  unfolding list_focus_records_for_date
  Keeps-list_focus_records_for_date date = record { at = λ s h. h }

  pub Keeps-list_focus_records_for_task : (id : Text) → Keeps P (list_focus_records_for_task id)
  unfolding list_focus_records_for_task
  Keeps-list_focus_records_for_task id = record { at = λ s h. h }

  pub Keeps-list_resource_task_links_for_task :
      (id : Text) → Keeps P (list_resource_task_links_for_task id)
  unfolding list_resource_task_links_for_task
  Keeps-list_resource_task_links_for_task id = record { at = λ s h. h }

pub ruleset query_rules = (
  Keeps-get_task, Keeps-get_task_by_occurrence_key, Keeps-list_tasks_by_series,
  Keeps-get_recurrence_series, Keeps-list_all_recurrence_series,
  Keeps-list_recurrence_series_by_logical_series_id, Keeps-list_focus_records_for_date,
  Keeps-list_focus_records_for_task, Keeps-list_resource_task_links_for_task,
)
