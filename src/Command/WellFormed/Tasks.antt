-- ===== src/Command/WellFormed/Tasks.antt =====
-- Writes of tasks and series keep their tables well formed.
use new_day.Prelude.{
  ◌≡◌, ◌⊎◌, inl, inr, true, false, not, ◌&&◌, some, List, In, arith, Bool-cases, any,
}
use new_day.Prelude.Strings.{Text, text_eq, text_eq_iff}
use new_day.Prelude.Lists.{along, any-In}
use new_day.Host.{Host}
use new_day.Model.{Task, RecurrenceSeries, task_check, series_check}
use new_day.Table.{put, remove}
use new_day.Table.Order.{In-put, In-remove, All-put, All-remove, put-IsOrdered, remove-IsOrdered}
use new_day.Session.{Tables}
use new_day.Store.{key_taken, has_key}
use new_day.Store.Effects.{task_id, series_id, TaskPut, TaskDeleted, SeriesPut, SeriesDeleted}
use new_day.Command.WellFormed.{TasksOk, SeriesOk}

module _ (host : Host) where
  -- Where `key_taken` says no, a task that has the key of `t` has its id.
  untaken :
      (t a : Task) (key : Text) (tasks : List Task)
      → key_taken t tasks ≡ false
      → In a tasks
      → t.occurrence_key ≡ some key
      → a.occurrence_key ≡ some key
      → a.id ≡ t.id
  unfolding key_taken
  untaken t a key tasks h i ek ea = elim (Bool-cases (text_eq a.id t.id)) [
    | inl same ↦ (text_eq_iff a.id t.id).0 same
    | inr other ↦ absurd (clash other (rw ek at h))
  ]
    where
      clash :
          text_eq a.id t.id ≡ false
          → any (λ o. not (text_eq o.id t.id) && has_key key o) tasks ≡ false
          → ⊥
      clash other g = ground (
        arith,
        text_eq_iff key key,
        any-In (λ o. not (text_eq o.id t.id) && has_key key o) a tasks i,
      )

  put-TasksOk :
      (t : Task) (tasks : List Task)
      → task_check host t ≡ true
      → key_taken t tasks ≡ false
      → TasksOk host tasks
      → TasksOk host (put task_id t tasks)
  put-TasksOk t tasks c free h = record {
    valid = All-put task_id _ t tasks c h.valid;
    ordered = put-IsOrdered task_id t tasks h.ordered;
    keys_unique = λ a b key ia ib ea eb.
        cases a b key ea eb (In-put task_id a t tasks ia) (In-put task_id b t tasks ib);
  }
    where
      cases :
          (a b : Task) (key : Text)
          → a.occurrence_key ≡ some key
          → b.occurrence_key ≡ some key
          → (a ≡ t) ⊎ In a tasks
          → (b ≡ t) ⊎ In b tasks
          → a.id ≡ b.id
      cases a b key ea eb (inl p) (inl q) = cc
      cases a b key ea eb (inl p) (inr j) =
          let e : t.occurrence_key ≡ some key = along (λ x. x.occurrence_key ≡ some key) p ea in
          let f = untaken t b key tasks free j e eb in cc
      cases a b key ea eb (inr i) (inl q) =
          let e : t.occurrence_key ≡ some key = along (λ x. x.occurrence_key ≡ some key) q eb in
          let f = untaken t a key tasks free i e ea in cc
      cases a b key ea eb (inr i) (inr j) = h.keys_unique a b key i j ea eb

  remove-TasksOk :
      (id : Text) (tasks : List Task) → TasksOk host tasks → TasksOk host (remove task_id id tasks)
  remove-TasksOk id tasks h = record {
    valid = All-remove task_id _ id tasks h.valid;
    ordered = remove-IsOrdered task_id id tasks h.ordered;
    keys_unique = λ a b key ia ib.
        h.keys_unique a b key (In-remove task_id a id tasks ia) (In-remove task_id b id tasks ib);
  }

  pub TaskPut-TasksOk :
      (t : Task) (before after : Tables)
      → task_check host t ≡ true
      → TaskPut t before after
      → TasksOk host before.tasks
      → TasksOk host after.tasks
  TaskPut-TasksOk t before after c e h = elim e.tasks_set [
    | inl q ↦ rw q h
    | inr (q, free) ↦ rw q (put-TasksOk t before.tasks c free h)
  ]

  pub TaskDeleted-TasksOk :
      (id : Text) (before after : Tables)
      → TaskDeleted id before after
      → TasksOk host before.tasks
      → TasksOk host after.tasks
  TaskDeleted-TasksOk id before after e h = elim e.tasks_set [
    | inl q ↦ rw q h
    | inr q ↦ rw q (remove-TasksOk id before.tasks h)
  ]

  pub SeriesPut-SeriesOk :
      (r : RecurrenceSeries) (before after : Tables)
      → series_check host r ≡ true
      → SeriesPut r before after
      → SeriesOk host before.series
      → SeriesOk host after.series
  SeriesPut-SeriesOk r before after c e h = elim e.series_set [
    | inl q ↦ rw q h
    | inr q ↦ rw q (record {
      valid = All-put series_id _ r before.series c h.valid;
      ordered = put-IsOrdered series_id r before.series h.ordered;
    })
  ]

  pub SeriesDeleted-SeriesOk :
      (id : Text) (before after : Tables)
      → SeriesDeleted id before after
      → SeriesOk host before.series
      → SeriesOk host after.series
  SeriesDeleted-SeriesOk id before after e h = elim e.series_set [
    | inl q ↦ rw q h
    | inr q ↦ rw q (record {
      valid = All-remove series_id _ id before.series h.valid;
      ordered = remove-IsOrdered series_id id before.series h.ordered;
    })
  ]
