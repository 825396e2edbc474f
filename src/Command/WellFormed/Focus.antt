-- ===== src/Command/WellFormed/Focus.antt =====
-- Writes of focus records keep their table well formed: `setTodayFocus` counts the records of the day
-- before it adds one.
use new_day.Prelude.{
  ◌≡◌, sym, ◌⊎◌, inl, inr, true, false, not, ◌&&◌, List, In, arith, Bool-cases, ◌==◌, filter,
  length, ◌≤◌,
}
use new_day.Prelude.Strings.{Text, text_eq, text_eq_iff}
use new_day.Prelude.Lists.{along, any-In}
use new_day.Dates.{LocalDate}
use new_day.Host.{Host}
use new_day.Model.{FocusRecord, focus_record_check}
use new_day.Table.{put, remove}
use new_day.Table.Order.{
  In-put, In-remove, All-put, All-remove, put-IsOrdered, remove-IsOrdered, length-filter-put,
  length-filter-put_other, length-filter-remove,
}
use new_day.Session.{Tables}
use new_day.Store.{focus_taken}
use new_day.Store.Effects.{focus_id, FocusPut, FocusDeleted}
use new_day.Command.WellFormed.{FocusOk}

-- Where `focus_taken` says no, a record of the same day and task has the same id.
not_taken :
    (f a : FocusRecord) (focus : List FocusRecord)
    → focus_taken f focus ≡ false
    → In a focus
    → a.date ≡ f.date
    → a.task_id ≡ f.task_id
    → a.id ≡ f.id
unfolding focus_taken
not_taken f a focus h i ed et = elim (Bool-cases (text_eq a.id f.id)) [
  | inl same ↦ (text_eq_iff a.id f.id).0 same
  | inr other ↦ absurd (
      ground (
        arith,
        text_eq_iff a.task_id f.task_id,
        any-In (λ o. not (text_eq o.id f.id) && o.date == f.date && text_eq o.task_id f.task_id) a
            focus i,
      ))
]

module _ (host : Host) where
  put-FocusOk :
      (f : FocusRecord) (focus : List FocusRecord)
      → focus_record_check host f ≡ true
      → focus_taken f focus ≡ false
      → length (filter (λ g. g.date == f.date) focus) ≤ 2
      → FocusOk host focus
      → FocusOk host (put focus_id f focus)
  put-FocusOk f focus c free room h = record {
    valid = All-put focus_id _ f focus c h.valid;
    ordered = put-IsOrdered focus_id f focus h.ordered;
    at_most_three = λ date. count date (Bool-cases (f.date == date));
    once_a_day = λ a b ia ib ed et.
        cases a b ed et (In-put focus_id a f focus ia) (In-put focus_id b f focus ib);
  }
    where
      count :
          (date : LocalDate)
          → (f.date == date ≡ true) ⊎ (f.date == date ≡ false)
          → length (filter (λ g. g.date == date) (put focus_id f focus)) ≤ 3
      count date (inl e) =
          let d : f.date ≡ date = ground arith in
          along (λ x. length (filter (λ g. g.date == x) (put focus_id f focus)) ≤ 3) d
            (let l = length-filter-put focus_id (λ (g : FocusRecord). g.date == f.date) f focus in
              omega arith)
      count date (inr n) =
          let l =
            length-filter-put_other focus_id (λ (g : FocusRecord). g.date == date) f focus n in
          let m = h.at_most_three date in omega arith

      cases :
          (a b : FocusRecord)
          → a.date ≡ b.date
          → a.task_id ≡ b.task_id
          → (a ≡ f) ⊎ In a focus
          → (b ≡ f) ⊎ In b focus
          → a.id ≡ b.id
      cases a b ed et (inl p) (inl q) = cc
      cases a b ed et (inl p) (inr j) = sym (
          along (λ x. b.id ≡ x.id) (sym p)
            (not_taken f b focus free j (along (λ x. b.date ≡ x.date) p (sym ed))
              (along (λ x. b.task_id ≡ x.task_id) p (sym et))))
      cases a b ed et (inr i) (inl q) =
          along (λ x. a.id ≡ x.id) (sym q)
            (not_taken f a focus free i (along (λ x. a.date ≡ x.date) q ed)
              (along (λ x. a.task_id ≡ x.task_id) q et))
      cases a b ed et (inr i) (inr j) = h.once_a_day a b i j ed et

  remove-FocusOk :
      (id : Text) (focus : List FocusRecord)
      → FocusOk host focus
      → FocusOk host (remove focus_id id focus)
  remove-FocusOk id focus h = record {
    valid = All-remove focus_id _ id focus h.valid;
    ordered = remove-IsOrdered focus_id id focus h.ordered;
    at_most_three = λ date.
        let l = length-filter-remove focus_id (λ (g : FocusRecord). g.date == date) id focus in
        let m = h.at_most_three date in omega arith;
    once_a_day = λ a b ia ib.
        h.once_a_day a b (In-remove focus_id a id focus ia) (In-remove focus_id b id focus ib);
  }

  pub FocusPut-FocusOk :
      (f : FocusRecord) (before after : Tables)
      → focus_record_check host f ≡ true
      → length (filter (λ g. g.date == f.date) before.focus) ≤ 2
      → FocusPut f before after
      → FocusOk host before.focus
      → FocusOk host after.focus
  FocusPut-FocusOk f before after c room e h = elim e.focus_set [
    | inl q ↦ rw q h
    | inr (q, free) ↦ rw q (put-FocusOk f before.focus c free room h)
  ]

  pub FocusDeleted-FocusOk :
      (id : Text) (before after : Tables)
      → FocusDeleted id before after
      → FocusOk host before.focus
      → FocusOk host after.focus
  FocusDeleted-FocusOk id before after e h = elim e.focus_set [
    | inl q ↦ rw q h
    | inr q ↦ rw q (remove-FocusOk id before.focus h)
  ]
