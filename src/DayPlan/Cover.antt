-- ===== src/DayPlan/Cover.antt =====
-- Which tasks stand in the lists of a day, against a description that mentions no list operation.
use new_day.Prelude.{
  ◌≡◌, ◌↔◌, inl, inr, refl, ◌<◌, Bool, true, List, map, filter, In, ◌==◌, arith, Bool-cases,
}
use new_day.Prelude.Lists.{In-filter, filter-In}
use new_day.Prelude.Sorting.{sort_by}
use new_day.Dates.{LocalDate}
use new_day.Host.{Host}
use new_day.Model.{FocusRecord, Status, open_task, completed, is_open}
use new_day.DayPlan.{DatedTask, DayPlanItem, is_late, overdue_tasks}

-- A sorted list of the items of the tasks that pass a test.
module _ (le : DayPlanItem → DayPlanItem → Bool) (flag : Bool) (p : DatedTask → Bool)
    (tasks : List DatedTask) where
  abbrev item : DatedTask → DayPlanItem
  item d = record { dated = d; is_overdue = flag }

  abbrev items : List DayPlanItem
  items = sort_by le (map item (filter p tasks))

pub is_open_iff : (status : Status) → (is_open status ≡ true) ↔ (status ≡ open_task)
is_open_iff open_task = (λ h. refl, λ h. refl)
is_open_iff completed = (λ h. absurd (ground arith), λ h. absurd (ground arith))

pub is_late_iff :
    (as_of : LocalDate) (d : DatedTask)
    → (is_late as_of d ≡ true) ↔ ((d.task.status ≡ open_task) × (d.end_date < as_of))
is_late_iff as_of d = (
  λ h. ((is_open_iff d.task.status).0 (ground arith), ground arith),
  λ (o, l). let q = (is_open_iff d.task.status).1 o in ground arith,
)

module _ (host : Host) (selected as_of : LocalDate) (tasks : List DatedTask)
    (records : List FocusRecord) where
  pub overdue_tasks-In :
      (d : DatedTask)
      → In d (overdue_tasks host selected as_of tasks records)
        ↔ ((selected ≡ as_of) × In d tasks × (is_late as_of d ≡ true))
  overdue_tasks-In d = elim (Bool-cases (selected == as_of)) [
    | inl e ↦ rw e (
      (λ h. let (i, l) = filter-In (is_late as_of) d tasks h in (ground arith, i, l)),
      λ (q, i, l). In-filter (is_late as_of) d tasks i l,
    )
    | inr n ↦ rw n ((λ h. absurd h), λ (q, i, l). absurd (ground arith))
  ]
