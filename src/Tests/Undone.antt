-- ===== src/Tests/Undone.antt =====
-- The undo of a reopening at a small input.
use new_day.Prelude.{◌≡◌, refl, true, some, [], ◌∷◌, In, inl, inr}
use new_day.Prelude.Strings.{codes, text_eq, trim, utf16_length}
use new_day.Dates.{is_local_date, days_in_month}
use new_day.Host.Gregorian.{gregorian}
use new_day.Table.{find}
use new_day.Model.{Task, completed, task_check, task_schema}
use new_day.Result.{ok}
use new_day.Session.{Session}
use new_day.Store.Effects.{task_id}
use new_day.Receipt.{undo_planner_command}
use new_day.Command.Run.{execute_planner_commands}
use new_day.Command.WellFormed.{TasksOk}
use new_day.Command.Undone.{reopening, token, reopened, candidate, undo_planner_command-reopen}
use new_day.Tests.Data.{report, noon, session_of}

abbrev finished : Task
finished = record report {
  status = completed;
  completed_at = some noon;
  completed_on = some 20260922;
}

abbrev again : Task
again = record report { updated_at = noon }

abbrev finished_day : Session
finished_day = session_of (record {
  tasks = finished ∷ [];
  series = [];
  focus = [];
  links = [];
  resources = [];
  revision = 4;
})

finished_checks : task_check gregorian finished ≡ true
unfolding task_check gregorian utf16_length is_local_date days_in_month
finished_checks = refl

only_finished : (t : Task) → In t (finished ∷ []) → t ≡ finished
only_finished t i = elim i [ inl e ↦ e | inr n ↦ absurd n ]

finished_day-TasksOk : TasksOk gregorian finished_day.tasks
finished_day-TasksOk = record {
  valid = (finished_checks, tt);
  ordered = (tt, tt);
  keys_unique = λ a b key i j ea eb. let p = only_finished a i in let q = only_finished b j in cc;
}

noon_is_instant : gregorian.is_instant noon ≡ true
unfolding gregorian
noon_is_instant = refl

finished_found : find task_id (codes "t1") finished_day.tasks ≡ some finished
unfolding find text_eq
finished_found = refl

again_parses : task_schema gregorian (candidate noon finished) ≡ ok again
unfolding task_schema trim task_check utf16_length is_local_date days_in_month gregorian
again_parses = refl

reopen_example :
    ((execute_planner_commands gregorian (reopening (codes "t1") noon) finished_day).0
      ≡ ok (some (token gregorian finished_day)))
    × ((undo_planner_command
          (token gregorian finished_day)
          (reopened gregorian (codes "t1") noon finished_day)).0
        ≡ ok tt)
    × ((undo_planner_command
          (token gregorian finished_day)
          (reopened gregorian (codes "t1") noon finished_day)).1.tasks
        ≡ finished_day.tasks)
    × ((undo_planner_command
          (token gregorian finished_day)
          (reopened gregorian (codes "t1") noon finished_day)).1.series
        ≡ finished_day.series)
    × ((undo_planner_command
          (token gregorian finished_day)
          (reopened gregorian (codes "t1") noon finished_day)).1.focus
        ≡ finished_day.focus)
    × ((undo_planner_command
          (token gregorian finished_day)
          (reopened gregorian (codes "t1") noon finished_day)).1.links
        ≡ finished_day.links)
reopen_example =
    undo_planner_command-reopen gregorian (codes "t1") noon finished_day finished again
      finished_day-TasksOk noon_is_instant finished_found refl again_parses
