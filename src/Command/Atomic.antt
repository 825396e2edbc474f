-- ===== src/Command/Atomic.antt =====
-- A batch of commands that throws leaves no trace in the tables.
use new_day.Prelude.{◌≡◌, refl, List, [], ◌∷◌, Bool}
use new_day.Host.{Host}
use new_day.Result.{err, PlannerError}
use new_day.Session.{Session, pure}
use new_day.Store.Transaction.{transaction-error}
use new_day.Command.{PlannerCommand}
use new_day.Command.Run.{run_planner_commands}

module _ (host : Host) where
  -- A batch of commands that throws, at whichever command, leaves all tables as they were.
  pub run_planner_commands-error :
      (commands : List PlannerCommand) (publish_undo : Bool) (s : Session) (e : PlannerError)
      → (run_planner_commands host commands publish_undo s).0 ≡ err e
      → (run_planner_commands host commands publish_undo s).1.tables ≡ s.tables
  unfolding run_planner_commands pure
  run_planner_commands-error [] publish_undo s e h = refl
  run_planner_commands-error (c ∷ cs) publish_undo s e h = transaction-error _ _ e h
