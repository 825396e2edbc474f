-- ===== src/Command/WellFormed.antt =====
-- The tables that commands leave behind are well formed: every row passes its schema, keys are in
-- order and occur once, occurrence keys are not shared, and a day has at most three focus records, at
-- most one for each task.
pub mod Tasks
pub mod Focus
pub mod Batch
use new_day.Prelude.{
  ℕ, ◌≤◌, ◌≡◌, Bool, true, Option, some, none, List, In, All, filter, length, ◌==◌, ◌⊎◌, inl, inr,
}
use new_day.Prelude.Strings.{Text}
use new_day.Prelude.Lists.{along}
use new_day.Dates.{LocalDate}
use new_day.Host.{Host}
use new_day.Model.{
  Task, RecurrenceSeries, FocusRecord, task_check, series_check, focus_record_check,
}
use new_day.Session.{Tables}
use new_day.Table.Order.{IsOrdered}
use new_day.Store.Effects.{task_id, series_id, focus_id}

pub record TasksOk (host : Host) (tasks : List Task) : Type 0 where
  pub valid : All (λ t. task_check host t ≡ true) tasks
  pub ordered : IsOrdered task_id tasks
  pub keys_unique :
      (a b : Task) (key : Text)
      → In a tasks
      → In b tasks
      → a.occurrence_key ≡ some key
      → b.occurrence_key ≡ some key
      → a.id ≡ b.id

pub record SeriesOk (host : Host) (series : List RecurrenceSeries) : Type 0 where
  pub valid : All (λ r. series_check host r ≡ true) series
  pub ordered : IsOrdered series_id series

pub record FocusOk (host : Host) (focus : List FocusRecord) : Type 0 where
  pub valid : All (λ f. focus_record_check host f ≡ true) focus
  pub ordered : IsOrdered focus_id focus
  pub at_most_three :
      (date : LocalDate) → length (filter (λ (f : FocusRecord). f.date == date) focus) ≤ 3
  pub once_a_day :
      (f g : FocusRecord)
      → In f focus
      → In g focus
      → f.date ≡ g.date
      → f.task_id ≡ g.task_id
      → f.id ≡ g.id

pub record WellFormed (host : Host) (t : Tables) : Type 0 where
  pub tasks_ok : TasksOk host t.tasks
  pub series_ok : SeriesOk host t.series
  pub focus_ok : FocusOk host t.focus
