-- ===== src/Command/Kept/Series.antt =====
-- The generation of occurrences and the commands on series keep what checked writes keep.
use new_day.Prelude.{◌≡◌, Bool, true, false, Option, none, some, List, [], ◌∷◌}
use new_day.Prelude.Strings.{Text}
use new_day.Dates.{LocalDate}
use new_day.Host.{Host}
use new_day.Model.{Task, RecurrenceSeries, series_check}
use new_day.Session.{Session}
use new_day.Session.Keeps.{Keeps, Keeps-pure, Keeps-bind, Keeps-bind-lift, keeps_rules}
use new_day.Store.Queries.{query_rules}
use new_day.Generation.{
  EnsureRecurrenceOccurrencesInput, parse_generation_input, create_unless, materialize_date,
  materialize_dates, materialize_series, materialize_recurrence_occurrences,
}
use new_day.Command.{
  CreateRecurrenceSeriesInput, SeriesFromTaskInput, UpdateSeriesInput, StopSeriesInput,
  StopRevision,
}
use new_day.Command.Kept.{
  KeptByWrites, task_schema-check, series_schema-check, kept-capture_task,
  kept-capture_missing_task, kept-capture_recurrence_series, kept-capture_missing_recurrence_series,
  kept-require_task, kept-require_recurrence_series, kept-delete_task_focus,
  kept-capture_and_delete_task_focus, kept-capture_task_resource_links,
}
use new_day.Command.Series.{
  LogicalTail, collect_tasks, load_logical_tail, apply_create_recurrence_series,
  apply_create_recurrence_series_from_task, adopt_task,
}
use new_day.Command.Series.Impact.{focus_records_of, calculate_stop_recurrence_impact}
use new_day.Command.Series.Change.{
  cut_source, put_parsed, remove_occurrence, move_ordinary, move_from, move_occurrence,
  confirm_impact, stop_occurrence, apply_update_recurrence_series, apply_stop_recurrence_series,
}

module _ {P : Session → Type 0} where
  kept-collect_tasks :
      (rs : List RecurrenceSeries) (acc : List Task) → Keeps P (collect_tasks rs acc)
  unfolding collect_tasks
  kept-collect_tasks [] acc = Keeps-pure acc
  kept-collect_tasks (r ∷ rs) acc =
      Keeps-bind _ _ (search query_rules) (λ ts. kept-collect_tasks rs _)

  kept-load_logical_tail : (id : Text) → Keeps P (load_logical_tail id)
  unfolding load_logical_tail
  kept-load_logical_tail id =
      search (keeps_rules, query_rules, kept-require_recurrence_series, kept-collect_tasks) depth 12

  kept-focus_records_of : (ts : List Task) → Keeps P (focus_records_of ts)
  unfolding focus_records_of
  kept-focus_records_of [] = Keeps-pure []
  kept-focus_records_of (t ∷ ts) =
      Keeps-bind _ _ (search query_rules)
        (λ fs. Keeps-bind _ _ (kept-focus_records_of ts) (λ rest. search keeps_rules))

  kept-calculate_stop_recurrence_impact :
      (host : Host) (tail : LogicalTail) (end : LocalDate)
      → Keeps P (calculate_stop_recurrence_impact host tail end)
  unfolding calculate_stop_recurrence_impact
  kept-calculate_stop_recurrence_impact host tail end =
      search (keeps_rules, kept-focus_records_of) depth 8

  kept-parse_generation_input :
      (host : Host) (input : EnsureRecurrenceOccurrencesInput)
      → Keeps P (parse_generation_input host input)
  unfolding parse_generation_input
  kept-parse_generation_input host input = search keeps_rules depth 12

  kept-confirm_impact :
      (host : Host) (tail : LogicalTail) (end : LocalDate) (expected : Option StopRevision)
      → Keeps P (confirm_impact host tail end expected)
  unfolding confirm_impact
  kept-confirm_impact host tail end none = Keeps-pure tt
  kept-confirm_impact host tail end (some expected) =
      search (keeps_rules, kept-calculate_stop_recurrence_impact) depth 8

ruleset reads = (
  query_rules, kept-require_task, kept-require_recurrence_series, kept-load_logical_tail,
  kept-confirm_impact,
)

module _ (host : Host) {P : Session → Type 0} (k : KeptByWrites host P) where
  open k use {
    put_task_kept, delete_task_kept, put_series_kept, delete_series_kept, delete_focus_kept,
  }

  kept-create_unless :
      (r : RecurrenceSeries) (d : LocalDate) (now : Text) (created : List Task) (o : Option Task)
      → Keeps P (create_unless host r d now created o)
  unfolding create_unless
  kept-create_unless r d now created none =
      search (Keeps-bind-lift, keeps_rules, query_rules, put_task_kept, task_schema-check host)
        depth 12
  kept-create_unless r d now created (some t) = Keeps-pure created

  kept-materialize_date :
      (r : RecurrenceSeries) (now : Text) (d : LocalDate) (created : List Task)
      → Keeps P (materialize_date host r now d created)
  unfolding materialize_date
  kept-materialize_date r now d created = search (keeps_rules, query_rules, kept-create_unless)

  kept-materialize_dates :
      (r : RecurrenceSeries) (now : Text) (ds : List LocalDate) (created : List Task)
      → Keeps P (materialize_dates host r now ds created)
  unfolding materialize_dates
  kept-materialize_dates r now [] created = Keeps-pure created
  kept-materialize_dates r now (d ∷ ds) created =
      Keeps-bind _ _ (kept-materialize_date r now d created)
        (λ c. kept-materialize_dates r now ds c)

  kept-materialize_series :
      (input : EnsureRecurrenceOccurrencesInput) (rs : List RecurrenceSeries) (created : List Task)
      → Keeps P (materialize_series host input rs created)
  unfolding materialize_series
  kept-materialize_series input [] created = Keeps-pure created
  kept-materialize_series input (r ∷ rs) created = Keeps-bind _ _ (search keeps_rules) (λ a.
      Keeps-bind _ _ (search keeps_rules) (λ b.
        Keeps-bind _ _ (kept-materialize_dates r _ _ _) (λ c. kept-materialize_series input rs c)))

  pub kept-materialize_recurrence_occurrences :
      (rs : List RecurrenceSeries) (input : EnsureRecurrenceOccurrencesInput)
      → Keeps P (materialize_recurrence_occurrences host rs input)
  unfolding materialize_recurrence_occurrences
  kept-materialize_recurrence_occurrences rs input =
      search (keeps_rules, kept-parse_generation_input, kept-materialize_series)

  pub kept-create_recurrence_series :
      (input : CreateRecurrenceSeriesInput) → Keeps P (apply_create_recurrence_series host input)
  unfolding apply_create_recurrence_series
  kept-create_recurrence_series input =
      search (Keeps-bind-lift, keeps_rules, reads, put_series_kept, series_schema-check host) depth
        12

  kept-adopt_task :
      (now : Text) (t : Task) (r : RecurrenceSeries) (d e : LocalDate) (key : Text)
      → series_check host r ≡ true
      → Keeps P (adopt_task host now t r d e key)
  unfolding adopt_task
  kept-adopt_task now t r d e key h =
      search
        (
          Keeps-bind-lift,
          keeps_rules,
          put_series_kept,
          put_task_kept,
          task_schema-check host,
          kept-delete_task_focus host k,
        )
        depth 12

  pub kept-create_recurrence_series_from_task :
      (input : SeriesFromTaskInput) → Keeps P (apply_create_recurrence_series_from_task host input)
  unfolding apply_create_recurrence_series_from_task
  kept-create_recurrence_series_from_task input = Keeps-bind-lift _ _ λ now _.
      Keeps-bind _ _ (kept-require_task input.task_id) λ task. Keeps-bind-lift _ _ λ _ _.
        Keeps-bind-lift _ _ λ _ _. Keeps-bind _ _ (search query_rules) λ existing.
          Keeps-bind-lift _ _ λ _ _. Keeps-bind-lift _ _ λ date _. Keeps-bind-lift _ _ λ series e.
            search
              (
                keeps_rules,
                query_rules,
                kept-adopt_task _ _ series _ _ _ (series_schema-check host _ series e),
              )
              depth 8

  kept-cut_source :
      (r : RecurrenceSeries) (d : LocalDate) (now : Text) → Keeps P (cut_source host r d now)
  unfolding cut_source
  kept-cut_source r d now =
      search
        (
          Keeps-bind-lift,
          keeps_rules,
          put_series_kept,
          delete_series_kept,
          series_schema-check host,
        )
        depth 8

  kept-put_parsed : (t : Task) → Keeps P (put_parsed host t)
  unfolding put_parsed
  kept-put_parsed t = search (Keeps-bind-lift, put_task_kept, task_schema-check host)

  kept-remove_occurrence : (t : Task) → Keeps P (remove_occurrence host t)
  unfolding remove_occurrence
  kept-remove_occurrence t =
      search
        (
          keeps_rules,
          delete_task_kept,
          kept-capture_and_delete_task_focus host k,
          kept-capture_task_resource_links host k,
        )
        depth 8

  kept-move_ordinary :
      (r : RecurrenceSeries) (e : LocalDate) (now : Text) (t : Task) (d : LocalDate) (b : Bool)
      → Keeps P (move_ordinary host r e now t d b)
  unfolding move_ordinary
  kept-move_ordinary r e now t d true = kept-put_parsed _
  kept-move_ordinary r e now t d false =
      search (keeps_rules, kept-put_parsed, kept-remove_occurrence)

  kept-move_from :
      (r : RecurrenceSeries) (e : LocalDate) (now : Text) (t : Task) (o : Option LocalDate)
      → Keeps P (move_from host r e now t o)
  unfolding move_from
  kept-move_from r e now t none = Keeps-pure tt
  kept-move_from r e now t (some d) =
      search (keeps_rules, kept-put_parsed, kept-move_ordinary, kept-capture_task host k) depth 10

  kept-move_occurrence :
      (r : RecurrenceSeries) (e : LocalDate) (now : Text) (t : Task)
      → Keeps P (move_occurrence host r e now t)
  unfolding move_occurrence
  kept-move_occurrence r e now t = kept-move_from r e now t t.occurrence_date

  pub kept-update_recurrence_series :
      (input : UpdateSeriesInput) → Keeps P (apply_update_recurrence_series host input)
  unfolding apply_update_recurrence_series
  kept-update_recurrence_series input =
      search
        (
          Keeps-bind-lift,
          keeps_rules,
          reads,
          put_series_kept,
          delete_series_kept,
          series_schema-check host,
          kept-cut_source,
          kept-move_occurrence,
          kept-materialize_recurrence_occurrences,
          kept-capture_recurrence_series host k,
          kept-capture_missing_recurrence_series host k,
          kept-capture_missing_task host k,
        )
        depth 30 fits 20000

  kept-stop_occurrence :
      (id : Text) (d : LocalDate) (t : Task) → Keeps P (stop_occurrence host id d t)
  unfolding stop_occurrence
  kept-stop_occurrence id d t =
      search (keeps_rules, kept-put_parsed, kept-remove_occurrence, kept-capture_task host k) depth
        10

  pub kept-stop_recurrence_series :
      (input : StopSeriesInput) → Keeps P (apply_stop_recurrence_series host input)
  unfolding apply_stop_recurrence_series
  kept-stop_recurrence_series input =
      search
        (
          Keeps-bind-lift,
          keeps_rules,
          reads,
          put_series_kept,
          delete_series_kept,
          series_schema-check host,
          kept-stop_occurrence,
          kept-capture_recurrence_series host k,
        )
        depth 30 fits 20000
