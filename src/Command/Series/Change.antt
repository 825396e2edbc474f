-- ===== src/Command/Series/Change.antt =====
-- The cases `updateRecurrenceSeries` and `stopRecurrenceSeries` of `applyPlannerCommand` in
-- planner-command.ts.
use new_day.Prelude.{
  Bool, true, false, not, ◌&&◌, ◌||◌, Option, none, some, List, [], ◌∷◌, ◌++◌, filter, length, ltb,
  leb, ◌==◌, if◌then◌else◌, is_some, or_default, holds,
}
use new_day.Prelude.Strings.{Text, text_eq}
use new_day.Prelude.Sorting.{unique_sorted}
use new_day.Dates.{LocalDate}
use new_day.Host.{Host, negsuc}
use new_day.Model.{
  Task, RecurrenceSeries, on_date, is_open, task_schema, recurrence_series_schema, ends_before,
}
use new_day.Recurrence.{parse_date, recurs_on_date}
use new_day.Result.{series_exists, cannot_extend, impact_changed, guard}
use new_day.Session.{Exec, pure, lift, ◌>>=◌, ◌>>◌, for_each}
use new_day.Store.{
  put_task, delete_task, get_recurrence_series, put_recurrence_series, delete_recurrence_series,
}
use new_day.Generation.{parse_instant, materialize_recurrence_occurrences}
use new_day.Command.{
  UpdateSeriesInput, StopSeriesInput, StopRevision, capture_task, capture_missing_task,
  capture_recurrence_series, capture_missing_recurrence_series, capture_and_delete_task_focus,
  capture_task_resource_links,
}
use new_day.Command.Series.{
  LogicalTail, load_logical_tail, validate_date_within_segment, should_remove_after_stop,
}
use new_day.Command.Series.Impact.{
  recurrence_patterns_equal, recurrence_ends_equal, StopRevision-discrete,
  calculate_stop_recurrence_impact,
}

-- `x === undefined || same(x, y)`.
abbrev unchanged : {A : Type 0} → (A → A → Bool) → Option A → A → Bool
unchanged same none b = true
unchanged same (some a) b = same a b

-- The call asks for nothing that is not so already.
unfoldable pub update_is_noop : UpdateSeriesInput → LogicalTail → Bool
update_is_noop input tail =
    length tail.successors == 0
    && not (is_some tail.source.effective_end_date)
    && unchanged text_eq input.title tail.source.title
    && unchanged text_eq input.notes tail.source.notes
    && unchanged recurrence_patterns_equal input.pattern tail.source.pattern
    && unchanged recurrence_ends_equal input.end tail.source.end

unfoldable pub excluded_of : List RecurrenceSeries → List LocalDate
excluded_of [] = []
excluded_of (r ∷ rs) = r.excluded_dates ++ excluded_of rs

-- `chain[0]?.createdAt ?? source.createdAt`.
abbrev created_at_of : List RecurrenceSeries → RecurrenceSeries → Text
created_at_of [] source = source.created_at
created_at_of (first ∷ rest) source = first.created_at

module _ (host : Host) where
  abbrev replacement_of : UpdateSeriesInput → LogicalTail → LocalDate → Text → RecurrenceSeries
  replacement_of input tail effective_date now = record {
    id = input.new_series_id;
    logical_series_id = tail.source.logical_series_id;
    title = or_default input.title tail.source.title;
    notes = or_default input.notes tail.source.notes;
    start_date = effective_date;
    effective_end_date = none;
    pattern = or_default input.pattern tail.source.pattern;
    end = or_default input.end tail.source.end;
    excluded_dates = unique_sorted (
        filter (λ d. leb effective_date d) tail.source.excluded_dates
        ++ excluded_of tail.successors);
    disabled = none;
    created_at = created_at_of tail.chain tail.source;
    updated_at = now;
  }

  -- The segment that is cut short, or dropped if the change reaches its first day.
  unfoldable pub cut_source : RecurrenceSeries → LocalDate → Text → Exec (Unit {0})
  cut_source source effective_date now =
      if effective_date == source.start_date then delete_recurrence_series source.id else (do
        prefix ← lift (
            recurrence_series_schema host (record source {
              effective_end_date = some (host.add_days effective_date (negsuc 0));
              excluded_dates = filter (λ d. ltb d effective_date) source.excluded_dates;
              updated_at = now;
            }))
        put_recurrence_series prefix)

  unfoldable pub put_parsed : Task → Exec (Unit {0})
  put_parsed candidate = do task ← lift (task_schema host candidate); put_task task

  unfoldable pub remove_occurrence : Task → Exec (Unit {0})
  remove_occurrence occurrence = do
    capture_and_delete_task_focus occurrence.id
    capture_task_resource_links occurrence.id
    delete_task occurrence.id

  -- What becomes of an occurrence on `date` that is still ordinary.
  unfoldable pub move_ordinary :
      RecurrenceSeries → LocalDate → Text → Task → LocalDate → Bool → Exec (Unit {0})
  move_ordinary replacement effective_date now occurrence date true =
      put_parsed (record occurrence {
        title = replacement.title;
        notes = replacement.notes;
        start_date = some date;
        end_date = some date;
        series_id = some replacement.id;
        updated_at = now;
      })
  move_ordinary replacement effective_date now occurrence date false =
      if date == effective_date
      then put_parsed (record occurrence {
        title = replacement.title;
        notes = replacement.notes;
        series_id = some replacement.id;
        is_series_exception = some true;
        updated_at = now;
      })
      else remove_occurrence occurrence

  unfoldable pub move_from :
      RecurrenceSeries → LocalDate → Text → Task → Option LocalDate → Exec (Unit {0})
  move_from replacement effective_date now occurrence none = pure tt
  move_from replacement effective_date now occurrence (some date) =
      if ltb date effective_date then pure tt else (do
        capture_task occurrence
        if not (is_open occurrence.status) || holds (λ b. b) occurrence.is_series_exception
            then put_parsed (record occurrence {
              series_id = some replacement.id;
              is_series_exception = some true;
            })
            else (do
              ordinary ← lift (recurs_on_date host replacement date)
              move_ordinary replacement effective_date now occurrence date ordinary))

  unfoldable pub move_occurrence : RecurrenceSeries → LocalDate → Text → Task → Exec (Unit {0})
  move_occurrence replacement effective_date now occurrence =
      move_from replacement effective_date now occurrence occurrence.occurrence_date

  unfoldable pub apply_update_recurrence_series : UpdateSeriesInput → Exec Bool
  apply_update_recurrence_series input = do
    now ← lift (parse_instant host input.now)
    tail ← load_logical_tail input.series_id
    effective_date ← lift (parse_date (or_default input.effective_date tail.source.start_date))
    lift (validate_date_within_segment tail.source effective_date)
    if update_is_noop input tail then pure false else do
      existing ← get_recurrence_series input.new_series_id
      lift (guard (not (is_some existing)) (series_exists input.new_series_id))
      replacement ←
          lift (recurrence_series_schema host (replacement_of input tail effective_date now))
      capture_recurrence_series tail.source
      for_each tail.successors capture_recurrence_series
      capture_missing_recurrence_series replacement.id
      cut_source tail.source effective_date now
      for_each tail.successors (λ r. delete_recurrence_series r.id)
      put_recurrence_series replacement
      for_each tail.tasks (move_occurrence replacement effective_date now)
      created ← materialize_recurrence_occurrences host (replacement ∷ []) (record {
        as_of_date = input.as_of_date;
        through_date = input.through_date;
        additionally_ensure_date = input.additionally_ensure_date;
        now = now;
      })
      for_each created (λ t. capture_missing_task t.id)
      pure true

  unfoldable pub confirm_impact : LogicalTail → LocalDate → Option StopRevision → Exec (Unit {0})
  confirm_impact tail end_date none = pure tt
  confirm_impact tail end_date (some expected) = do
    actual ← calculate_stop_recurrence_impact host tail end_date
    lift (
        guard
          (elim (StopRevision-discrete actual.revision expected) [ yes _ ↦ true | no _ ↦ false ])
          impact_changed)

  unfoldable pub stop_occurrence : Text → LocalDate → Task → Exec (Unit {0})
  stop_occurrence stopped_id end_date occurrence =
      if holds (λ d. ltb end_date d) occurrence.occurrence_date
      then (do
        capture_task occurrence
        if should_remove_after_stop end_date occurrence
            then remove_occurrence occurrence
            else put_parsed (record occurrence {
              series_id = some stopped_id;
              is_series_exception = some true;
            }))
      else pure tt

  unfoldable pub apply_stop_recurrence_series : StopSeriesInput → Exec Bool
  apply_stop_recurrence_series input = do
    now ← lift (parse_instant host input.now)
    end_date ← lift (parse_date input.end_date)
    tail ← load_logical_tail input.series_id
    lift (validate_date_within_segment tail.source end_date)
    lift (guard (not (ends_before tail.source.end end_date)) cannot_extend)
    confirm_impact tail end_date input.expected_impact
    capture_recurrence_series tail.source
    for_each tail.successors capture_recurrence_series
    stopped ← lift (
        recurrence_series_schema host (record tail.source {
          effective_end_date = none;
          end = on_date end_date;
          excluded_dates = unique_sorted (excluded_of tail.chain);
          updated_at = now;
        }))
    put_recurrence_series stopped
    for_each tail.successors (λ r. delete_recurrence_series r.id)
    for_each tail.tasks (stop_occurrence stopped.id end_date)
    pure true
