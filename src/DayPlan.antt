-- ===== src/DayPlan.antt =====
-- packages/core/src/application/day-plan.ts: the tasks of a day in four lists.
pub mod Cover
pub mod Focus
use new_day.Prelude.{
  ℕ, ◌+◌, Bool, true, false, not, ◌&&◌, ◌||◌, Option, none, some, List, [], ◌∷◌, ◌++◌, map, filter,
  any, length, ltb, leb, ◌==◌, if◌then◌else◌, or_default, holds,
}
use new_day.Prelude.Strings.{Text, text_eq}
use new_day.Prelude.Sorting.{sort_by}
use new_day.Dates.{LocalDate}
use new_day.Host.{Host}
use new_day.Model.{Task, FocusRecord, Status, is_open}
use new_day.Recurrence.{parse_date}
use new_day.Session.{Exec, pure, lift, continue, ◌>>=◌}
use new_day.Store.{list_all_tasks, list_focus_records_for_date}

-- A task with both dates.
pub record DatedTask : Type 0 where
  pub task : Task
  pub start_date : LocalDate
  pub end_date : LocalDate

pub record DayPlanItem : Type 0 where
  pub dated : DatedTask
  pub is_overdue : Bool

pub record Counts : Type 0 where
  pub open_count : ℕ
  pub completed_count : ℕ
  pub overdue_count : ℕ
  pub focus_count : ℕ

pub record DayPlan : Type 0 where
  pub selected_date : LocalDate
  pub as_of_date : LocalDate
  pub is_today : Bool
  pub focus : List DayPlanItem
  pub overdue : List DayPlanItem
  pub open_items : List DayPlanItem
  pub completed_items : List DayPlanItem
  pub counts : Counts

abbrev pub id_of : DatedTask → Text
id_of d = d.task.id

abbrev dates_of : Task → Option LocalDate → Option LocalDate → List DatedTask → List DatedTask
dates_of t (some a) (some b) rest = record { task = t; start_date = a; end_date = b } ∷ rest
dates_of t _ _ rest = rest

-- `filter(hasTaskDates)`, for tasks that are not archived.
unfoldable pub dated_tasks : List Task → List DatedTask
dated_tasks [] = []
dated_tasks (t ∷ ts) =
    let rest = dated_tasks ts in
    if holds (λ b. b) t.archived then rest else dates_of t t.start_date t.end_date rest

-- `Map.set` with the id as key: the place of the first task, the value of the last one.
unfoldable pub set_task : DatedTask → List DatedTask → List DatedTask
set_task d [] = d ∷ []
set_task d (x ∷ xs) =
    let rest = set_task d xs in if text_eq (id_of x) (id_of d) then d ∷ xs else x ∷ rest

unfoldable pub set_tasks : List DatedTask → List DatedTask → List DatedTask
set_tasks [] acc = acc
set_tasks (d ∷ ds) acc = set_tasks ds (set_task d acc)

abbrev pub unique_tasks : List DatedTask → List DatedTask
unique_tasks ds = set_tasks ds []

-- `a || b` on the results of two comparisons.
abbrev then_by : ℕ → ℕ → Bool → Bool
then_by a b rest = ltb a b || (a == b && rest)

module _ (host : Host) where
  abbrev compare_created_tasks : Task → Task → Bool
  compare_created_tasks a b =
      then_by (host.get_time a.created_at) (host.get_time b.created_at) (host.locale_le a.id b.id)

  unfoldable pub compare_overdue_items : DayPlanItem → DayPlanItem → Bool
  compare_overdue_items a b =
      then_by a.dated.end_date b.dated.end_date (compare_created_tasks a.dated.task b.dated.task)

  unfoldable pub compare_open_items : DayPlanItem → DayPlanItem → Bool
  compare_open_items a b = then_by a.dated.end_date b.dated.end_date (
      then_by a.dated.start_date b.dated.start_date
        (compare_created_tasks a.dated.task b.dated.task))

  -- `completedAt ?? updatedAt`, the later one first.
  unfoldable pub compare_completed_items : DayPlanItem → DayPlanItem → Bool
  compare_completed_items a b =
      then_by (host.get_time (or_default b.dated.task.completed_at b.dated.task.updated_at))
        (host.get_time (or_default a.dated.task.completed_at a.dated.task.updated_at))
        (compare_created_tasks a.dated.task b.dated.task)

  abbrev pub compare_focus : FocusRecord → FocusRecord → Bool
  compare_focus a b =
      then_by (host.get_time a.focused_at) (host.get_time b.focused_at)
        (host.locale_le a.task_id b.task_id)

abbrev pub scheduled_on : LocalDate → DatedTask → Bool
scheduled_on day d = leb d.start_date day && leb day d.end_date

abbrev pub is_late : LocalDate → DatedTask → Bool
is_late as_of d = is_open d.task.status && ltb d.end_date as_of

-- The item of a focus record: `taskById` has the last task of an id.
unfoldable pub focused_item :
    List DatedTask → List DatedTask → LocalDate → List FocusRecord → List DayPlanItem
focused_item tasks visible as_of [] = []
focused_item tasks visible as_of (f ∷ fs) =
    let rest = focused_item tasks visible as_of fs in
    elim (filter (λ d. text_eq (id_of d) f.task_id) (unique_tasks tasks)) [
      | [] ↦ rest
      | d ∷ ds ↦
          if is_open d.task.status && any (λ v. text_eq (id_of v) (id_of d)) visible
          then record { dated = d; is_overdue = ltb d.end_date as_of } ∷ rest
          else rest
    ]

abbrev pub in_items : List DayPlanItem → DatedTask → Bool
in_items items d = any (λ i. text_eq (id_of i.dated) (id_of d)) items

abbrev pub when_today : {A : Type 0} → Bool → List A → List A
when_today is_today xs = if is_today then xs else []

module _ (host : Host) (selected as_of : LocalDate) (tasks : List DatedTask)
    (records : List FocusRecord) where
  abbrev pub scheduled_tasks : List DatedTask
  scheduled_tasks = filter (scheduled_on selected) tasks

  abbrev pub overdue_tasks : List DatedTask
  overdue_tasks = when_today (selected == as_of) (filter (is_late as_of) tasks)

  abbrev completed_carry_through : List DatedTask
  completed_carry_through = when_today (selected == as_of) (
      filter
        (λ d.
          not (is_open d.task.status)
          && holds (λ day. day == as_of) d.task.completed_on
          && ltb d.end_date as_of)
        tasks)

  abbrev pub visible_open_tasks : List DatedTask
  visible_open_tasks =
      unique_tasks (filter (λ d. is_open d.task.status) scheduled_tasks ++ overdue_tasks)

  unfoldable pub focused_items : List DayPlanItem
  focused_items =
      focused_item tasks visible_open_tasks as_of
        (sort_by (compare_focus host) (when_today (selected == as_of) records))

  unfoldable pub overdue_items : List DayPlanItem
  overdue_items = sort_by (compare_overdue_items host) (
      map (λ d. record { dated = d; is_overdue = true })
        (filter (λ d. not (in_items focused_items d)) overdue_tasks))

  unfoldable pub open_day_items : List DayPlanItem
  open_day_items = sort_by (compare_open_items host) (
      map (λ d. record { dated = d; is_overdue = false })
        (filter (λ d. is_open d.task.status && not (in_items focused_items d)) scheduled_tasks))

  unfoldable pub completed_day_items : List DayPlanItem
  completed_day_items = sort_by (compare_completed_items host) (
      map (λ d. record { dated = d; is_overdue = ltb d.end_date as_of })
        (unique_tasks
          (filter (λ d. not (is_open d.task.status)) scheduled_tasks ++ completed_carry_through)))

  unfoldable pub day_plan : DayPlan
  day_plan = record {
    selected_date = selected;
    as_of_date = as_of;
    is_today = selected == as_of;
    focus = focused_items;
    overdue = overdue_items;
    open_items = open_day_items;
    completed_items = completed_day_items;
    counts = record {
      open_count = length focused_items + length overdue_items + length open_day_items;
      completed_count = length completed_day_items;
      overdue_count = length (filter (λ i. i.is_overdue) focused_items) + length overdue_items;
      focus_count = length focused_items;
    };
  }

module _ (host : Host) where
  unfoldable pub get_day_plan : LocalDate → LocalDate → Exec DayPlan
  get_day_plan selected_input as_of_input = do
    selected ← lift (parse_date selected_input)
    as_of ← lift (parse_date as_of_input)
    tasks ← list_all_tasks
    records ← list_focus_records_for_date as_of
    pure (day_plan host selected as_of (dated_tasks tasks) records)
