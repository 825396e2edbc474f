-- ===== src/Command/Series/Impact.antt =====
-- `calculateStopRecurrenceImpact`, `previewStopRecurrenceSeries`, `recurrencePatternsEqual` and
-- `recurrenceEndsEqual` of planner-command.ts. `JSON.stringify` of the revision is read as the data
-- that it writes, and two revisions are compared as data.
use native.Mathlib.Decide.{ℕ_discrete}
use new_day.Prelude.{
  ℕ, ◌-◌, Bool, true, false, not, ◌&&◌, List, [], ◌∷◌, ◌++◌, filter, length, ltb, ◌==◌, holds, map,
}
use new_day.Prelude.Strings.{Text}
use new_day.Prelude.Sorting.{sort_by}
use new_day.Dates.{LocalDate}
use new_day.Host.{Host}
use new_day.Model.{
  Task, RecurrenceSeries, RecurrencePattern, RecurrenceEnd, FocusRecord, daily, weekdays, weekly,
  monthly, never, on_date, ends_before,
}
use new_day.Recurrence.{parse_date}
use new_day.Result.{cannot_extend, guard}
use new_day.Session.{Exec, pure, lift, ◌>>=◌, ◌>>◌}
use new_day.Store.{list_focus_records_for_task, transaction}
use new_day.Model.Equality.{Status-discrete, RecurrenceEnd-discrete, FocusRecord-discrete}
use new_day.Command.{SegmentRevision, OccurrenceRevision, StopRevision}
use new_day.Command.Series.{
  LogicalTail, load_logical_tail, validate_date_within_segment, should_remove_after_stop,
}

pub record StopRecurrenceImpact : Type 0 where
  pub open_ordinary_task_count : ℕ
  pub focus_record_count : ℕ
  pub preserved_task_count : ℕ
  pub successor_segment_count : ℕ
  pub revision : StopRevision

unfoldable pub weekdays_equal : List ℕ → List ℕ → Bool
weekdays_equal [] [] = true
weekdays_equal (a ∷ days) (b ∷ others) = a == b && weekdays_equal days others
weekdays_equal _ _ = false

unfoldable pub recurrence_patterns_equal : RecurrencePattern → RecurrencePattern → Bool
recurrence_patterns_equal daily daily = true
recurrence_patterns_equal weekdays weekdays = true
recurrence_patterns_equal (weekly a) (weekly b) = weekdays_equal a b
recurrence_patterns_equal (monthly a) (monthly b) = a == b
recurrence_patterns_equal _ _ = false

unfoldable pub recurrence_ends_equal : RecurrenceEnd → RecurrenceEnd → Bool
recurrence_ends_equal never never = true
recurrence_ends_equal (on_date a) (on_date b) = a == b
recurrence_ends_equal _ _ = false

abbrev segment_revision : RecurrenceSeries → SegmentRevision
segment_revision r = record {
  id = r.id;
  start_date = r.start_date;
  effective_end_date = r.effective_end_date;
  end = r.end;
  excluded_dates = r.excluded_dates;
  updated_at = r.updated_at;
}

abbrev occurrence_revision : Task → OccurrenceRevision
occurrence_revision t = record {
  id = t.id;
  series_id = t.series_id;
  occurrence_date = t.occurrence_date;
  status = t.status;
  is_series_exception = t.is_series_exception;
  updated_at = t.updated_at;
}

unfoldable pub SegmentRevision-discrete : Discrete SegmentRevision
SegmentRevision-discrete = hlevel (ℕ_discrete, RecurrenceEnd-discrete)

unfoldable pub OccurrenceRevision-discrete : Discrete OccurrenceRevision
OccurrenceRevision-discrete = hlevel (ℕ_discrete, Status-discrete)

unfoldable pub StopRevision-discrete : Discrete StopRevision
unfolding SegmentRevision-discrete OccurrenceRevision-discrete
StopRevision-discrete =
    hlevel (ℕ_discrete, SegmentRevision-discrete, OccurrenceRevision-discrete, FocusRecord-discrete)

unfoldable pub focus_records_of : List Task → Exec (List FocusRecord)
focus_records_of [] = pure []
focus_records_of (t ∷ ts) = do
  records ← list_focus_records_for_task t.id
  rest ← focus_records_of ts
  pure (records ++ rest)

module _ (host : Host) where
  unfoldable pub calculate_stop_recurrence_impact :
      LogicalTail → LocalDate → Exec StopRecurrenceImpact
  calculate_stop_recurrence_impact tail end_date = do
    let affected =
        sort_by (λ (a b : Task). host.locale_le a.id b.id)
          (filter (λ (t : Task). holds (λ d. ltb end_date d) t.occurrence_date) tail.tasks)
    let removable = filter (should_remove_after_stop end_date) affected
    records ← focus_records_of removable
    let focus_records = sort_by (λ (a b : FocusRecord). host.locale_le a.id b.id) records
    pure (record {
      open_ordinary_task_count = length removable;
      focus_record_count = length focus_records;
      preserved_task_count = length affected - length removable;
      successor_segment_count = length tail.successors;
      revision = record {
        end_date = end_date;
        series = map segment_revision (tail.source ∷ tail.successors);
        tasks = map occurrence_revision affected;
        focus_records = focus_records;
      };
    })

  unfoldable pub preview_stop_recurrence_series : Text → LocalDate → Exec StopRecurrenceImpact
  preview_stop_recurrence_series series_id end_date_input = do
    end_date ← lift (parse_date end_date_input)
    transaction (do
      tail ← load_logical_tail series_id
      lift (validate_date_within_segment tail.source end_date)
      lift (guard (not (ends_before tail.source.end end_date)) cannot_extend)
      calculate_stop_recurrence_impact tail end_date)
