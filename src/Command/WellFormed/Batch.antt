-- ===== src/Command/WellFormed/Batch.antt =====
-- `executePlannerCommands` keeps the tables well formed.
use new_day.Prelude.{
  ◌≡◌, Bool, true, List, arith, Bool-cases, inl, inr, filter, length, leb, ◌≤◌, ◌==◌,
}
use new_day.Prelude.Strings.{Text}
use new_day.Dates.{LocalDate}
use new_day.Host.{Host}
use new_day.Model.{FocusRecord, focus_record_check, focus_record_schema}
use new_day.Session.{Session, lift, ◌>>=◌}
use new_day.Session.Keeps.{Keeps, Keeps-continue, Keeps-pure, keeps_rules}
use new_day.Store.{put_focus_record, list_focus_records_for_date}
use new_day.Store.Effects.{
  put_task-effect, delete_task-effect, put_series-effect, delete_series-effect, put_focus-effect,
  delete_focus-effect,
}
use new_day.Store.Queries.{query_rules}
use new_day.Command.{PlannerCommand, change}
use new_day.Command.Focus.{add_focus, focus_id, apply_set_today_focus}
use new_day.Command.Kept.{KeptByWrites, kept-require_task}
use new_day.Command.Invariant.{OnTables, kept-run_planner_commands}
use new_day.Command.WellFormed.{WellFormed}
use new_day.Command.WellFormed.Tasks.{
  TaskPut-TasksOk, TaskDeleted-TasksOk, SeriesPut-SeriesOk, SeriesDeleted-SeriesOk,
}
use new_day.Command.WellFormed.Focus.{FocusPut-FocusOk, FocusDeleted-FocusOk}
use new_day.Command.Run.{run_planner_commands}

module _ (host : Host) where
  kept : KeptByWrites host (OnTables (WellFormed host))
  unfolding change
  kept = record {
    put_task_kept = λ t c. record {
      at = λ s h.
          let e = put_task-effect t s in
          record {
            tasks_ok = TaskPut-TasksOk host t s.tables _ c e h.tasks_ok;
            series_ok = rw e.series_kept h.series_ok;
            focus_ok = rw e.focus_kept h.focus_ok;
          };
    };
    delete_task_kept = λ id. record {
      at = λ s h.
          let e = delete_task-effect id s in
          record {
            tasks_ok = TaskDeleted-TasksOk host id s.tables _ e h.tasks_ok;
            series_ok = rw e.series_kept h.series_ok;
            focus_ok = rw e.focus_kept h.focus_ok;
          };
    };
    put_series_kept = λ r c. record {
      at = λ s h.
          let e = put_series-effect r s in
          record {
            tasks_ok = rw e.tasks_kept h.tasks_ok;
            series_ok = SeriesPut-SeriesOk host r s.tables _ c e h.series_ok;
            focus_ok = rw e.focus_kept h.focus_ok;
          };
    };
    delete_series_kept = λ id. record {
      at = λ s h.
          let e = delete_series-effect id s in
          record {
            tasks_ok = rw e.tasks_kept h.tasks_ok;
            series_ok = SeriesDeleted-SeriesOk host id s.tables _ e h.series_ok;
            focus_ok = rw e.focus_kept h.focus_ok;
          };
    };
    delete_focus_kept = λ id. record {
      at = λ s h.
          let e = delete_focus-effect id s in
          record {
            tasks_ok = rw e.tasks_kept h.tasks_ok;
            series_ok = rw e.series_kept h.series_ok;
            focus_ok = FocusDeleted-FocusOk host id s.tables _ e h.focus_ok;
          };
    };
    change_kept = λ f. record { at = λ s h. h };
  }

  put_with_room :
      (f : FocusRecord) (s : Session)
      → focus_record_check host f ≡ true
      → length (filter (λ g. g.date == f.date) s.focus) ≤ 2
      → WellFormed host s.tables
      → WellFormed host (put_focus_record f s).1.tables
  put_with_room f s c room h =
      let e = put_focus-effect f s in
      record {
        tasks_ok = rw e.tasks_kept h.tasks_ok;
        series_ok = rw e.series_kept h.series_ok;
        focus_ok = FocusPut-FocusOk host f s.tables _ c room e h.focus_ok;
      }

  kept-add_focus :
      (date : LocalDate) (task_id focused_at : Text)
      → Keeps (OnTables (WellFormed host)) (add_focus host date task_id focused_at)
  unfolding add_focus ◌>>=◌ lift list_focus_records_for_date focus_record_schema
  kept-add_focus date task_id focused_at = record { at = λ s h. by_count s h }
    where
      row : FocusRecord
      row = record {
        id = focus_id date task_id;
        date = date;
        task_id = task_id;
        focused_at = focused_at;
      }

      by_count :
          (s : Session)
          → WellFormed host s.tables
          → WellFormed host (add_focus host date task_id focused_at s).1.tables
      by_count s h = elim (Bool-cases (leb 3 (length (filter (λ f. f.date == date) s.focus)))) [
        | inl full ↦ rw full h
        | inr free ↦ elim (Bool-cases (focus_record_check host row)) [
          | inl c ↦
              rw (free, c)
                (Keeps-continue {P = OnTables (WellFormed host)} (put_focus_record row s).0 _
                  (put_focus_record row s).1 (put_with_room row s c (ground arith) h)
                  (λ _. Keeps-pure true))
          | inr n ↦ rw (free, n) h
        ]
      ]

  kept-set_today_focus :
      (task_id : Text) (date : LocalDate) (now : Text)
      → Keeps (OnTables (WellFormed host)) (apply_set_today_focus host task_id date now)
  unfolding apply_set_today_focus
  kept-set_today_focus task_id date now =
      search (keeps_rules, query_rules, kept-require_task, kept-add_focus) depth 12

  -- Every batch of commands, with or without an undo receipt, leaves well-formed tables well formed,
  -- whether it returns or throws: all rows pass their schemas, ids occur once, no two tasks share an
  -- occurrence key, and every day has at most three focus records, at most one for each task.
  pub run_planner_commands-WellFormed :
      (commands : List PlannerCommand) (publish_undo : Bool) (s : Session)
      → WellFormed host s.tables
      → WellFormed host (run_planner_commands host commands publish_undo s).1.tables
  run_planner_commands-WellFormed commands publish_undo s h =
      (kept-run_planner_commands (WellFormed host) host kept kept-set_today_focus commands
          publish_undo).at
        s h
