-- ===== src/Command/Invariant.antt =====
-- A property of the tables that checked writes keep holds after every batch of commands.
use new_day.Prelude.{Bool-cases, inl, inr, Bool, true, false, List, [], ◌∷◌}
use new_day.Prelude.Strings.{Text}
use new_day.Dates.{LocalDate}
use new_day.Host.{Host}
use new_day.Result.{Result, ok, err}
use new_day.Session.{Session, Exec, Tables, ◌>>=◌, Callback}
use new_day.Session.Keeps.{Keeps, Keeps-pure, Keeps-bind, keeps_rules}
use new_day.Store.{transaction, after_commit, close_transaction}
use new_day.Store.Transaction.{tables-run_callbacks}
use new_day.Receipt.{publish_undo_receipt, clear_undo_receipts, take_uuid, read_changes, is_empty}
use new_day.Command.{
  PlannerCommand, create_task, update_task, update_task_details, reschedule_task, complete_task,
  reopen_task, delete_task, set_today_focus, remove_today_focus, create_recurrence_series,
  create_recurrence_series_from_task, update_recurrence_series, stop_recurrence_series,
}
use new_day.Command.Focus.{apply_set_today_focus}
use new_day.Command.Kept.{KeptByWrites}
use new_day.Command.Kept.Tasks
use new_day.Command.Kept.Series
use new_day.Command.Run.{
  apply_planner_command, apply_all, finish_batch, run_planner_commands, start_changes,
}

-- The property looks only at the tables.
abbrev pub OnTables : (Tables → Type 0) → Session → Type 0
OnTables T s = T s.tables

module _ (host : Host) {P : Session → Type 0} (k : KeptByWrites host P)
    (focus : (task_id : Text) (date : LocalDate) (now : Text)
      → Keeps P (apply_set_today_focus host task_id date now)) where
  pub kept-apply_planner_command :
      (batch : List PlannerCommand) (c : PlannerCommand)
      → Keeps P (apply_planner_command host batch c)
  unfolding apply_planner_command
  kept-apply_planner_command batch (create_task input) = Tasks.kept-create_task host k input
  kept-apply_planner_command batch (update_task input) = Tasks.kept-update_task host k input
  kept-apply_planner_command batch (update_task_details t title notes now) =
      Tasks.kept-update_task_details host k t title notes now _
  kept-apply_planner_command batch (reschedule_task t a b now) =
      Tasks.kept-reschedule_task host k t a b now
  kept-apply_planner_command batch (complete_task t now a b) =
      Tasks.kept-complete_task host k t now a b
  kept-apply_planner_command batch (reopen_task t now) = Tasks.kept-reopen_task host k t now
  kept-apply_planner_command batch (delete_task t now) = Tasks.kept-delete_task host k t now
  kept-apply_planner_command batch (set_today_focus t d now) = focus t d now
  kept-apply_planner_command batch (remove_today_focus t d) =
      Tasks.kept-remove_today_focus host k t d
  kept-apply_planner_command batch (create_recurrence_series input) =
      Series.kept-create_recurrence_series host k input
  kept-apply_planner_command batch (create_recurrence_series_from_task input) =
      Series.kept-create_recurrence_series_from_task host k input
  kept-apply_planner_command batch (update_recurrence_series input) =
      Series.kept-update_recurrence_series host k input
  kept-apply_planner_command batch (stop_recurrence_series input) =
      Series.kept-stop_recurrence_series host k input

  pub kept-apply_all :
      (batch cs : List PlannerCommand) (b : Bool) → Keeps P (apply_all host batch cs b)
  unfolding apply_all
  kept-apply_all batch [] b = Keeps-pure b
  kept-apply_all batch (c ∷ cs) b =
      Keeps-bind _ _ (kept-apply_planner_command batch c) (λ m. kept-apply_all batch cs _)

module _ (T : Tables → Type 0) {A : Type 0} where
  -- COMMIT leaves the tables as they are, and ROLLBACK takes the old ones.
  Keeps-close :
      (s : Session) (r : Result A) (s' : Session)
      → T s.tables
      → T s'.tables
      → T (close_transaction s r s').1.tables
  Keeps-close s (ok a) s' h h' = rw tables-run_callbacks h'
  Keeps-close s (err e) s' h h' = h

  pub Keeps-transaction : (m : Exec A) → Keeps (OnTables T) m → Keeps (OnTables T) (transaction m)
  unfolding transaction
  Keeps-transaction m k = record {
    at = λ s h.
        let start = record s { callbacks = []; mutated = false } in
        Keeps-close s (m start).0 (m start).1 h (k.at start h);
  }

module _ (T : Tables → Type 0) where
  kept-after_commit : (c : Callback) → Keeps (OnTables T) (after_commit c)
  unfolding after_commit
  kept-after_commit c = record { at = λ s h. h }

  kept-publish : (host : Host) → Keeps (OnTables T) (publish_undo_receipt host)
  unfolding publish_undo_receipt read_changes take_uuid ◌>>=◌ clear_undo_receipts after_commit
  kept-publish host = record {
    at = λ s h. elim (Bool-cases (is_empty s.changes)) [ inl e ↦ rw e h | inr f ↦ rw f h ];
  }

  kept-finish_batch :
      (host : Host) (publish mutated : Bool)
      → Keeps (OnTables T) (finish_batch host publish mutated)
  unfolding finish_batch clear_undo_receipts
  kept-finish_batch host publish false = Keeps-pure _
  kept-finish_batch host true true = kept-publish host
  kept-finish_batch host false true = search (keeps_rules, kept-after_commit)

  module _ (host : Host) (k : KeptByWrites host (OnTables T))
      (focus : (task_id : Text) (date : LocalDate) (now : Text)
        → Keeps (OnTables T) (apply_set_today_focus host task_id date now)) where
    -- From good tables every batch, whether it succeeds or throws, leads to good tables.
    pub kept-run_planner_commands :
        (cs : List PlannerCommand) (publish : Bool)
        → Keeps (OnTables T) (run_planner_commands host cs publish)
    unfolding run_planner_commands
    kept-run_planner_commands [] publish = Keeps-pure _
    kept-run_planner_commands (c ∷ cs) publish = record {
      at = λ s h.
          (Keeps-transaction T _ (
              Keeps-bind _ _ (kept-apply_all host k focus (c ∷ cs) (c ∷ cs) false)
                (kept-finish_batch host publish))).at
            (start_changes host s) h;
    }
