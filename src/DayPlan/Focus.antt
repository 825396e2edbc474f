-- ===== src/DayPlan/Focus.antt =====
-- The focus list of a day: where its items come from.
use new_day.Prelude.{◌≡◌, ◌⊎◌, true, List, any, In, ltb}
use new_day.Prelude.Strings.{text_eq}
use new_day.Dates.{LocalDate}
use new_day.Host.{Host}
use new_day.Model.{FocusRecord, open_task}
use new_day.DayPlan.{DatedTask, DayPlanItem, id_of, scheduled_on, is_late}

-- What an item of the focus list stands for.
pub record IsFocused (tasks visible : List DatedTask) (as_of : LocalDate)
    (records : List FocusRecord) (i : DayPlanItem) : Type 0 where
  pub dated_in : In i.dated tasks
  pub is_open_task : i.dated.task.status ≡ open_task
  pub overdue_flag : i.is_overdue ≡ ltb i.dated.end_date as_of
  pub visible_id : any (λ v. text_eq (id_of v) (id_of i.dated)) visible ≡ true
  pub by_record : (f : FocusRecord) × In f records × (id_of i.dated ≡ f.task_id)

module _ (host : Host) (selected as_of : LocalDate) (tasks : List DatedTask)
    (records : List FocusRecord) where
  -- A shown open task is scheduled on the selected day or overdue today.
  pub record IsShown (d : DatedTask) : Type 0 where
    pub shown_in : In d tasks
    pub shown_open : d.task.status ≡ open_task
    pub shown_when : (scheduled_on selected d ≡ true) ⊎ (is_late as_of d ≡ true)
