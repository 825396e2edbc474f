-- ===== src/Backup/Rows.antt =====
-- The rows of an accepted backup refer to rows that exist.
use new_day.Prelude.{
  ◌≡◌, refl, sym, ap, ◌≤◌, Bool, true, false, not, ◌&&◌, ◌||◌, Option, none, some, List, [], ◌∷◌,
  any, length, is_some, holds, or_default, In, inl, inr, arith, leb, ◌==◌, ==_iff,
}
use new_day.Prelude.Lists.{along, filter-In}
use new_day.Prelude.Maps.{map_get-In, holds-some, is_some-some}
use new_day.Prelude.Checked.{check_each, Apart, require-passed, check_each-In}
use new_day.Prelude.Strings.{Text, text_eq, text_eq_iff}
use new_day.Dates.{LocalDate}
use new_day.Host.{Host}
use new_day.Model.{Task, RecurrenceSeries, FocusRecord, ResourceTaskLink, is_open}
use new_day.Recurrence.{recurs_on_date}
use new_day.Result.{Result, ok, err}
use new_day.Life.{InboxItem, LifeFolder, LifeResource}
use new_day.Backup.{
  PlannerBackup, has_resource, folder_by_id, is_mapped, check_task, check_item, check_resource,
  check_link, series_by_id, in_rule, returned_true, check_occurrence, task_by_id, same_focus,
  check_focus, focus_on, check_focus_count,
}
use new_day.Backup.Valid.{Refers, Belongs, Focusable, any-Refers}

-- A test of an id that is given.
given :
    (test : Text → Bool) (o : Option Text) (id : Text)
    → (not (is_some o) || holds test o) ≡ true
    → o ≡ some id
    → test id ≡ true
given test o id h e = rw e at h

-- An option that holds an id.
holds-id : (id : Text) (o : Option Text) → holds (text_eq id) o ≡ true → o ≡ some id
holds-id id none h = absurd (ground arith)
holds-id id (some t) h = ap some (sym ((text_eq_iff id t).0 h))

returned : (r : Result Bool) → returned_true r ≡ true → r ≡ ok true
returned (ok b) h = ap ok h
returned (err e) h = absurd (ground arith)

and_left : (p o : Bool) → (p && not o) ≡ true → p ≡ true
and_left p o h = ground arith

and_right : (p o : Bool) → (p && not o) ≡ true → o ≡ false
and_right p o h = ground arith

module _ (b : PlannerBackup) where
  pub task-planned :
      (t : Task)
      → check_task b t ≡ inr tt
      → is_mapped b t.id ≡ false
      → (is_some t.start_date ≡ true)
        × (or_default t.archived false ≡ false)
        × ((is_open t.status || is_some t.completed_at) ≡ true)
  unfolding check_task
  task-planned t h free =
      let (dated, h1) = require-passed _ _ _ tt h in
      let (kept, h2) = require-passed _ _ _ tt h1 in
      let (timed, _) = require-passed _ _ _ tt h2 in (ground arith, ground arith, ground arith)

  pub item-Refers :
      (i : InboxItem) (id : Text)
      → check_item b i ≡ inr tt
      → i.source_resource_id ≡ some id
      → (r : LifeResource) × Refers (λ (x : LifeResource). x.id) b.resources id r
  unfolding check_item
  item-Refers i id h e =
      any-Refers (λ (x : LifeResource). x.id) b.resources id
        (given (has_resource b.resources) i.source_resource_id id (require-passed _ _ _ tt h).0 e)

  pub resource-Refers :
      (r : LifeResource) (id : Text)
      → check_resource b r ≡ inr tt
      → r.folder_id ≡ some id
      → (f : LifeFolder) × Refers (λ (x : LifeFolder). x.id) b.folders id f
  unfolding check_resource
  resource-Refers r id h e =
      let (f, found) = is_some-some (folder_by_id b.folders id) (
        given (λ x. is_some (folder_by_id b.folders x)) r.folder_id id (require-passed _ _ _ tt h).0
          e) in
      (f, map_get-In (λ (x : LifeFolder). x.id) id b.folders f found)

  pub link-Refers :
      (l : ResourceTaskLink)
      → check_link b l ≡ inr tt
      → ((r : LifeResource) × Refers (λ (x : LifeResource). x.id) b.resources l.resource_id r)
        × ((t : Task) × Refers (λ (x : Task). x.id) b.tasks l.task_id t)
  unfolding check_link
  link-Refers l h =
      let (both, _) = require-passed _ _ _ tt h in
      (
        any-Refers (λ (x : LifeResource). x.id) b.resources l.resource_id (ground arith),
        any-Refers (λ (x : Task). x.id) b.tasks l.task_id (ground arith),
      )

  series_by_id-In :
      (o : Option Text) (s : RecurrenceSeries)
      → series_by_id b o ≡ some s
      → In s b.recurrence_series × (o ≡ some s.id)
  series_by_id-In none s h = absurd (ground arith)
  series_by_id-In (some id) s h =
      let (i, e) = map_get-In (λ (x : RecurrenceSeries). x.id) id b.recurrence_series s h in
      (i, ap some (sym e))

  pub occurrence-Belongs :
      (host : Host) (t : Task)
      → check_occurrence host b t ≡ inr tt
      → (s : RecurrenceSeries) × Belongs host b t s
  unfolding check_occurrence
  occurrence-Belongs host t h =
      let (found, h1) = require-passed _ _ _ tt h in
      let (lineage, h2) = require-passed _ _ _ tt h1 in
      let (ruled, _) = require-passed _ _ _ tt h2 in
      let (s, e) = is_some-some (series_by_id b t.series_id) found in
      let (i, same) = series_by_id-In t.series_id s e in
      (
        s,
        record {
          there = i;
          same_series = same;
          same_lineage = holds-id s.logical_series_id t.logical_series_id (rw e at lineage);
          ordinary = λ undone plain. in_rule-some s (
              open_ruled s undone plain (
                along
                  (λ o.
                    (not (is_open t.status && holds not t.is_series_exception)
                      || holds (λ x. in_rule host x t.occurrence_date) o)
                    ≡ true)
                  e ruled));
        },
      )
    where
      open_ruled :
          (s : RecurrenceSeries)
          → is_open t.status ≡ true
          → t.is_series_exception ≡ some false
          → (not (is_open t.status && holds not t.is_series_exception)
              || in_rule host s t.occurrence_date)
            ≡ true
          → in_rule host s t.occurrence_date ≡ true
      open_ruled s undone plain k = rw undone at (rw plain at k)

      in_rule-some :
          (s : RecurrenceSeries)
          → in_rule host s t.occurrence_date ≡ true
          → (d : LocalDate) × (t.occurrence_date ≡ some d) × (recurs_on_date host s d ≡ ok true)
      in_rule-some s k =
          let (d, e, r) =
            holds-some (λ d. returned_true (recurs_on_date host s d)) t.occurrence_date k in
          (d, e, returned (recurs_on_date host s d) r)

  focus-each :
      (seen rest : List FocusRecord)
      → check_focus b seen rest ≡ inr tt
      → (f : FocusRecord) → In f rest
      → (any (same_focus f) seen ≡ false) × ((t : Task) × Focusable b f t)
  unfolding check_focus
  focus-each seen [] h f i = absurd i
  focus-each seen (x ∷ xs) h f (inr i) =
      let (_, h1) = require-passed _ _ _ tt h in
      let (_, h2) = require-passed _ _ _ tt h1 in
      let (_, h3) = require-passed _ _ _ tt h2 in
      let (_, h4) = require-passed _ _ _ tt h3 in
      let (unseen, good) = focus-each (x ∷ seen) xs h4 f i in (ground arith, good)
  focus-each seen (x ∷ xs) h f (inl e) =
      let (found, h1) = require-passed _ _ _ tt h in
      let (live, h2) = require-passed _ _ _ tt h1 in
      let (seen_there, h3) = require-passed _ _ _ tt h2 in
      let (fresh, _) = require-passed _ _ _ tt h3 in
      let (t, got) = is_some-some (task_by_id b x.task_id) found in
      let (i, same) = map_get-In (λ (y : Task). y.id) x.task_id b.tasks t got in
      along
        (λ (y : FocusRecord). (any (same_focus y) seen ≡ false) × ((t : Task) × Focusable b y t))
        (sym e)
        (
          ground arith,
          (
            t,
            record {
              there = i;
              same_task = same;
              undone = and_left (is_open t.status) _ (rw got at live);
              kept = and_right (is_open t.status) _ (rw got at live);
              visible = rw got at seen_there;
            },
          ),
        )

  pub focus-Focusable :
      check_focus b [] b.focus_records ≡ inr tt
      → (f : FocusRecord) → In f b.focus_records
      → (t : Task) × Focusable b f t
  focus-Focusable h f i = (focus-each [] b.focus_records h f i).1

  pub focus-Apart :
      (seen rest : List FocusRecord) → check_focus b seen rest ≡ inr tt → Apart same_focus rest
  unfolding check_focus
  focus-Apart seen [] h = tt
  focus-Apart seen (x ∷ xs) h =
      let (_, h1) = require-passed _ _ _ tt h in
      let (_, h2) = require-passed _ _ _ tt h1 in
      let (_, h3) = require-passed _ _ _ tt h2 in
      let (_, h4) = require-passed _ _ _ tt h3 in
      (λ y i. ground (arith, (focus-each (x ∷ seen) xs h4 y i).0), focus-Apart (x ∷ seen) xs h4)

  counted :
      (d : LocalDate) (f : FocusRecord) (fs : List FocusRecord)
      → focus_on b d ≡ f ∷ fs
      → f.date ≡ d
      → leb (length (focus_on b f.date)) 3 ≡ true
      → length (f ∷ fs) ≤ 3
  counted d f fs e same few = ground (
    arith,
    along (λ xs. leb (length xs) 3 ≡ true) e
        (along (λ x. leb (length (focus_on b x)) 3 ≡ true) same few),
  )

  pub focus-three :
      check_each (check_focus_count b) b.focus_records ≡ inr tt
      → (d : LocalDate) → length (focus_on b d) ≤ 3
  unfolding check_focus_count
  focus-three h d = go (focus_on b d) refl
    where
      go : (fs : List FocusRecord) → focus_on b d ≡ fs → length fs ≤ 3
      go [] e = omega arith
      go (f ∷ fs) e =
          let (i, same) =
            filter-In (λ (x : FocusRecord). x.date == d) f b.focus_records
              (along (λ xs. In f xs) (sym e) (inl refl)) in
          let (few, _) =
            require-passed _ _ _ tt (check_each-In (check_focus_count b) b.focus_records h f i) in
          counted d f fs e ((==_iff f.date d).0 same) few
