-- ===== src/Store/Effects.antt =====
-- What each write does to the tables: one table changes, by one row.
use new_day.Prelude.{◌≡◌, refl, ◌⊎◌, inl, inr, false, Bool-cases, Option-cases}
use new_day.Prelude.Strings.{Text}
use new_day.Table
use new_day.Model.{Task, RecurrenceSeries, FocusRecord}
use new_day.Session.{Session, Tables}
use new_day.Store.{
  same_row, nested_transaction, key_taken, write_task, put_task, delete_task, put_recurrence_series,
  delete_recurrence_series, focus_taken, write_focus_record, put_focus_record, delete_focus_record,
}
use new_day.Model.Equality.{Task-discrete, RecurrenceSeries-discrete, FocusRecord-discrete}

abbrev pub task_id : Task → Text
task_id t = t.id

abbrev pub series_id : RecurrenceSeries → Text
series_id r = r.id

abbrev pub focus_id : FocusRecord → Text
focus_id f = f.id

pub record TaskPut (t : Task) (before after : Tables) : Type 0 where
  pub series_kept : after.series ≡ before.series
  pub focus_kept : after.focus ≡ before.focus
  pub tasks_set :
      (after.tasks ≡ before.tasks)
      ⊎ ((after.tasks ≡ Table.put task_id t before.tasks) × (key_taken t before.tasks ≡ false))

pub put_task-effect : (t : Task) (s : Session) → TaskPut t s.tables (put_task t s).1.tables
unfolding put_task nested_transaction write_task
put_task-effect t s =
    elim (Bool-cases (same_row Task-discrete (Table.find task_id t.id s.tasks) t)) [
      | inl e ↦ rw e (record { series_kept = refl; focus_kept = refl; tasks_set = inl refl })
      | inr f ↦ elim (Bool-cases (key_taken t s.tasks)) [
        | inl e ↦ rw (f, e) (record { series_kept = refl; focus_kept = refl; tasks_set = inl refl })
        | inr g ↦
            rw (f, g) (record { series_kept = refl; focus_kept = refl; tasks_set = inr (refl, g) })
      ]
    ]

pub record TaskDeleted (id : Text) (before after : Tables) : Type 0 where
  pub series_kept : after.series ≡ before.series
  pub focus_kept : after.focus ≡ before.focus
  pub tasks_set :
      (after.tasks ≡ before.tasks) ⊎ (after.tasks ≡ Table.remove task_id id before.tasks)

pub delete_task-effect :
    (id : Text) (s : Session) → TaskDeleted id s.tables (delete_task id s).1.tables
unfolding delete_task
delete_task-effect id s = elim (Option-cases (Table.find task_id id s.tasks)) [
  | inl e ↦
      rw (e, delete_task) (record { series_kept = refl; focus_kept = refl; tasks_set = inl refl })
  | inr (t, e) ↦
      rw (e, delete_task) (record { series_kept = refl; focus_kept = refl; tasks_set = inr refl })
]

pub record SeriesPut (r : RecurrenceSeries) (before after : Tables) : Type 0 where
  pub tasks_kept : after.tasks ≡ before.tasks
  pub focus_kept : after.focus ≡ before.focus
  pub series_set :
      (after.series ≡ before.series) ⊎ (after.series ≡ Table.put series_id r before.series)

pub put_series-effect :
    (r : RecurrenceSeries) (s : Session) → SeriesPut r s.tables (put_recurrence_series r s).1.tables
unfolding put_recurrence_series
put_series-effect r s =
    elim (Bool-cases (same_row RecurrenceSeries-discrete (Table.find series_id r.id s.series) r)) [
      | inl e ↦ rw e (record { tasks_kept = refl; focus_kept = refl; series_set = inl refl })
      | inr f ↦ rw f (record { tasks_kept = refl; focus_kept = refl; series_set = inr refl })
    ]

pub record SeriesDeleted (id : Text) (before after : Tables) : Type 0 where
  pub tasks_kept : after.tasks ≡ before.tasks
  pub focus_kept : after.focus ≡ before.focus
  pub series_set :
      (after.series ≡ before.series) ⊎ (after.series ≡ Table.remove series_id id before.series)

pub delete_series-effect :
    (id : Text) (s : Session) → SeriesDeleted id s.tables (delete_recurrence_series id s).1.tables
unfolding delete_recurrence_series
delete_series-effect id s = elim (Option-cases (Table.find series_id id s.series)) [
  | inl e ↦
      rw (e, delete_recurrence_series)
        (record { tasks_kept = refl; focus_kept = refl; series_set = inl refl })
  | inr (r, e) ↦
      rw (e, delete_recurrence_series)
        (record { tasks_kept = refl; focus_kept = refl; series_set = inr refl })
]

pub record FocusPut (f : FocusRecord) (before after : Tables) : Type 0 where
  pub tasks_kept : after.tasks ≡ before.tasks
  pub series_kept : after.series ≡ before.series
  pub focus_set :
      (after.focus ≡ before.focus)
      ⊎ ((after.focus ≡ Table.put focus_id f before.focus) × (focus_taken f before.focus ≡ false))

pub put_focus-effect :
    (f : FocusRecord) (s : Session) → FocusPut f s.tables (put_focus_record f s).1.tables
unfolding put_focus_record nested_transaction write_focus_record
put_focus-effect f s =
    elim (Bool-cases (same_row FocusRecord-discrete (Table.find focus_id f.id s.focus) f)) [
      | inl e ↦ rw e (record { tasks_kept = refl; series_kept = refl; focus_set = inl refl })
      | inr n ↦ elim (Bool-cases (focus_taken f s.focus)) [
        | inl e ↦ rw (n, e) (record { tasks_kept = refl; series_kept = refl; focus_set = inl refl })
        | inr g ↦
            rw (n, g) (record { tasks_kept = refl; series_kept = refl; focus_set = inr (refl, g) })
      ]
    ]

pub record FocusDeleted (id : Text) (before after : Tables) : Type 0 where
  pub tasks_kept : after.tasks ≡ before.tasks
  pub series_kept : after.series ≡ before.series
  pub focus_set :
      (after.focus ≡ before.focus) ⊎ (after.focus ≡ Table.remove focus_id id before.focus)

pub delete_focus-effect :
    (id : Text) (s : Session) → FocusDeleted id s.tables (delete_focus_record id s).1.tables
unfolding delete_focus_record
delete_focus-effect id s = elim (Option-cases (Table.find focus_id id s.focus)) [
  | inl e ↦
      rw (e, delete_focus_record)
        (record { tasks_kept = refl; series_kept = refl; focus_set = inl refl })
  | inr (f, e) ↦
      rw (e, delete_focus_record)
        (record { tasks_kept = refl; series_kept = refl; focus_set = inr refl })
]
