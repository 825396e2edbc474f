-- ===== src/Generation.antt =====
-- packages/core/src/application/recurrence-generation.ts: the tasks of a recurring series.
pub mod Grows
pub mod Covers
use new_day.Prelude.{
  Bool, true, false, not, ◌&&◌, Option, none, some, List, [], ◌∷◌, ◌++◌, ltb, leb, if◌then◌else◌,
}
use new_day.Prelude.Strings.{Text}
use new_day.Prelude.Sorting.{unique_sorted}
use new_day.Dates.{LocalDate}
use new_day.Host.{Host}
use new_day.Model.{Task, RecurrenceSeries, open_task, task_schema, recurrence_occurrence_key}
use new_day.Recurrence.{parse_date, recurs_on_date, recurrence_dates_in_range}
use new_day.Result
use new_day.Result.{Result, ok, err, invalid, generation_range, occurrence_id_conflict, guard}
use new_day.Session.{Exec, pure, throw, lift, continue, ◌>>=◌, ◌>>◌}
use new_day.Store.{
  get_task, get_task_by_occurrence_key, put_task, list_all_recurrence_series, transaction,
}

pub record EnsureRecurrenceOccurrencesInput : Type 0 where
  pub as_of_date : LocalDate
  pub through_date : LocalDate
  pub additionally_ensure_date : Option LocalDate
  pub now : Text

abbrev parse_optional : Option LocalDate → Result (Option LocalDate)
parse_optional none = ok none
parse_optional (some d) = Result.◌>>=◌ (parse_date d) (λ d'. ok (some d'))

module _ (host : Host) where
  -- `instantSchema.parse`.
  unfoldable pub parse_instant : Text → Result Text
  parse_instant t = if host.is_instant t then ok t else err invalid

  unfoldable pub parse_generation_input :
      EnsureRecurrenceOccurrencesInput → Exec EnsureRecurrenceOccurrencesInput
  parse_generation_input input = do
    as_of_date ← lift (parse_date input.as_of_date)
    through_date ← lift (parse_date input.through_date)
    additionally_ensure_date ← lift (parse_optional input.additionally_ensure_date)
    now ← lift (parse_instant input.now)
    lift (guard (not (ltb through_date as_of_date)) generation_range)
    pure (record {
      as_of_date = as_of_date;
      through_date = through_date;
      additionally_ensure_date = additionally_ensure_date;
      now = now;
    })

  -- Whether the date that is asked for in addition counts: `recursOnDate` is called only if it is
  -- not before the range.
  unfoldable pub additional_dates :
      RecurrenceSeries → LocalDate → Option LocalDate → Result (List LocalDate)
  additional_dates series as_of_date none = ok []
  additional_dates series as_of_date (some d) =
      if leb as_of_date d
      then Result.◌>>=◌ (recurs_on_date host series d)
          (λ yes_it_does. ok (if yes_it_does then d ∷ [] else []))
      else ok []

  -- The candidate of the task that stands for a series on a date.
  unfoldable pub occurrence_of : RecurrenceSeries → LocalDate → Text → Task
  occurrence_of series date now = record {
    id = recurrence_occurrence_key series.logical_series_id date;
    title = series.title;
    notes = series.notes;
    start_date = some date;
    end_date = some date;
    status = open_task;
    created_at = now;
    updated_at = now;
    completed_at = none;
    completed_on = none;
    series_id = some series.id;
    logical_series_id = some series.logical_series_id;
    occurrence_date = some date;
    occurrence_key = some (recurrence_occurrence_key series.logical_series_id date);
    is_series_exception = some false;
    archived = none;
  }

  -- The body of the inner loop. `created` is the list of the tasks made so far.
  unfoldable pub create_unless :
      RecurrenceSeries → LocalDate → Text → List Task → Option Task → Exec (List Task)
  create_unless series date now created (some existing) = pure created
  create_unless series date now created none = do
    same_id ← get_task (recurrence_occurrence_key series.logical_series_id date)
    lift (
        guard (elim same_id [ none ↦ true | some t ↦ false ])
          (occurrence_id_conflict (recurrence_occurrence_key series.logical_series_id date)))
    occurrence ← lift (task_schema host (occurrence_of series date now))
    put_task occurrence
    pure (created ++ occurrence ∷ [])

  unfoldable pub materialize_date :
      RecurrenceSeries → Text → LocalDate → List Task → Exec (List Task)
  materialize_date series now date created = do
    existing ← get_task_by_occurrence_key (recurrence_occurrence_key series.logical_series_id date)
    create_unless series date now created existing

  unfoldable pub materialize_dates :
      RecurrenceSeries → Text → List LocalDate → List Task → Exec (List Task)
  materialize_dates series now [] created = pure created
  materialize_dates series now (date ∷ dates) created = do
    created' ← materialize_date series now date created
    materialize_dates series now dates created'

  unfoldable pub materialize_series :
      EnsureRecurrenceOccurrencesInput → List RecurrenceSeries → List Task → Exec (List Task)
  materialize_series input [] created = pure created
  materialize_series input (series ∷ rest) created = do
    in_range ← lift (recurrence_dates_in_range host series input.as_of_date input.through_date)
    more ← lift (additional_dates series input.as_of_date input.additionally_ensure_date)
    created' ← materialize_dates series input.now (unique_sorted (in_range ++ more)) created
    materialize_series input rest created'

  unfoldable pub materialize_recurrence_occurrences :
      List RecurrenceSeries → EnsureRecurrenceOccurrencesInput → Exec (List Task)
  materialize_recurrence_occurrences series_list input = do
    parsed ← parse_generation_input input
    materialize_series parsed series_list []

  -- What `ensureRecurrenceOccurrences` runs inside its transaction.
  unfoldable pub ensure_recurrence_occurrences : EnsureRecurrenceOccurrencesInput → Exec (List Task)
  ensure_recurrence_occurrences parsed = do
    all_series ← list_all_recurrence_series
    materialize_recurrence_occurrences all_series parsed

  unfoldable pub ensure_in_transaction : EnsureRecurrenceOccurrencesInput → Exec (List Task)
  ensure_in_transaction input = do
    parsed ← parse_generation_input input
    transaction (ensure_recurrence_occurrences parsed)
