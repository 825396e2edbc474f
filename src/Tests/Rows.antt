-- ===== src/Tests/Rows.antt =====
-- Single writes and the creation of a task at small inputs.
use new_day.Prelude.{◌≡◌, ◌⊎◌, true, none, some, if◌then◌else◌}
use new_day.Prelude.Strings.{codes, text_eq}
use new_day.Table
use new_day.Host.Gregorian.{gregorian}
use new_day.Model.{Task, task_schema}
use new_day.Result.{ok, err, constraint, task_exists, invalid}
use new_day.Store.{put_task, get_task, key_taken}
use new_day.Store.Effects.{task_id}
use new_day.Store.Lookup.{get_task-put_task}
use new_day.Command.{CreateTaskInput}
use new_day.Command.Tasks.{new_task, apply_create_task}
use new_day.Command.Creation.{apply_create_task-branches}
use new_day.Tests.Data.{report, focused_day, morning}

put_example :
    (((put_task report focused_day).0 ≡ ok tt)
      × ((get_task (codes "t1") (put_task report focused_day).1).0
          ≡ ok (
              if text_eq report.id (codes "t1")
              then some report
              else Table.find task_id (codes "t1") focused_day.tasks)))
    ⊎ (((put_task report focused_day).0 ≡ err constraint)
        × ((put_task report focused_day).1.tables ≡ focused_day.tables)
        × (key_taken report focused_day.tasks ≡ true))
put_example = get_task-put_task report (codes "t1") focused_day

abbrev input : CreateTaskInput
input = record {
  id = codes "t2";
  title = codes " letter ";
  notes = none;
  start_date = 20260922;
  end_date = 20260922;
  now = morning;
}

create_example :
    ((apply_create_task gregorian input focused_day ≡ (err (task_exists input.id), focused_day))
      × ((old : Task) × (Table.find task_id input.id focused_day.tasks ≡ some old)))
    ⊎ (((apply_create_task gregorian input focused_day ≡ (err invalid, focused_day))
          × (task_schema gregorian (new_task gregorian input) ≡ err invalid))
        ⊎ ((t : Task) × (task_schema gregorian (new_task gregorian input) ≡ ok t)
            × ((apply_create_task gregorian input focused_day).0 ≡ ok true)
            × ((apply_create_task gregorian input focused_day).1.tasks
                ≡ Table.put task_id t focused_day.tasks)
            × (Table.find task_id input.id focused_day.tasks ≡ none)))
create_example = apply_create_task-branches gregorian input focused_day
