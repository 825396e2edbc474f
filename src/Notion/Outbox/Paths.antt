-- ===== src/Notion/Outbox/Paths.antt =====
-- The invariant of the outbox rows holds along every path of moves, and final rows stay.
use new_day.Prelude.{
  ◌≡◌, refl, sym, ap, ◌∙◌, ◌≤◌, true, List, [], ◌∷◌, ◌++◌, map, In, ◌⊎◌, inl, inr, arith,
}
use new_day.Prelude.Lists.{map-In, In-append, along, In-map, In-append_left}
use new_day.Notion.Records.{NotionOutboxOperation, OperationStatus, pending, sending}
use new_day.Notion.Outbox.{is_unresolved}
use new_day.Notion.Outbox.Moves.{
  ◌⟶◌, stay, claim, supersede_waiting, supersede_unsent, give_back, lose, fence_sending,
  fence_unknown, confirm_sending, confirm_unknown, confirm_waiting, IsFinal, Edit, Alone, Move,
  edited, queued, Trail, start, further, Sound,
}

-- A row becomes unresolved by a claim only.
pub unresolved_origin :
    {x y : OperationStatus}
    → x ⟶ y
    → is_unresolved y ≡ true
    → (is_unresolved x ≡ true) ⊎ ((x ≡ pending) × (y ≡ sending))
unresolved_origin stay h = inl h
unresolved_origin claim h = inr (refl, refl)
unresolved_origin supersede_waiting h = absurd (ground arith)
unresolved_origin supersede_unsent h = inl refl
unresolved_origin give_back h = inl refl
unresolved_origin lose h = inl refl
unresolved_origin fence_sending h = inl refl
unresolved_origin fence_unknown h = inl refl
unresolved_origin confirm_sending h = inl refl
unresolved_origin confirm_unknown h = inl refl
unresolved_origin confirm_waiting h = absurd (ground arith)

module _ (rows : List NotionOutboxOperation) (sound : Sound rows)
    (g : NotionOutboxOperation → NotionOutboxOperation)
    (edits : (o : NotionOutboxOperation) → In o rows → Edit o (g o)) (alone : Alone rows g) where
  unique_edited :
      (a b : NotionOutboxOperation)
      → In a rows
      → In b rows
      → (g a).operation_id ≡ (g b).operation_id
      → g a ≡ g b
  unique_edited a b i j e =
      ap g (sound.unique a b i j (sym (edits a i).same_operation ∙ e ∙ (edits b j).same_operation))

  one_edited :
      (a b : NotionOutboxOperation)
      → In a rows
      → In b rows
      → is_unresolved (g a).status ≡ true
      → is_unresolved (g b).status ≡ true
      → (g a).local_task_id ≡ (g b).local_task_id
      → a.operation_id ≡ b.operation_id
  one_edited a b i j u v e =
      let same = sym (edits a i).same_task ∙ e ∙ (edits b j).same_task in
      elim (unresolved_origin (edits a i).moves u) [
        | inr (p, q) ↦ sym (alone a b i j p q (sym same) v)
        | inl x ↦ elim (unresolved_origin (edits b j).moves v) [
          | inr (p, q) ↦ alone b a j i p q same u
          | inl y ↦ sound.one_unresolved a b i j x y same
        ]
      ]

  attempted_edited :
      (o : NotionOutboxOperation)
      → In o rows
      → is_unresolved (g o).status ≡ true
      → 1 ≤ (g o).attempt_count
  attempted_edited o i u = elim (unresolved_origin (edits o i).moves u) [
    | inr (p, q) ↦ omega (arith, (edits o i).claims p q)
    | inl x ↦ elim (edits o i).counts [
      | inl same ↦ omega (arith, same, sound.attempted o i x)
      | inr (p, q, c) ↦ omega (arith, c)
    ]
  ]

  pub Sound-edited : Sound (map g rows)
  Sound-edited = record {
    unique = λ a b i j e.
        let (x, k, p) = map-In g a rows i in
        let (y, l, q) = map-In g b rows j in
        p
        ∙ unique_edited x y k l (
            ap (λ (o : NotionOutboxOperation). o.operation_id) (sym p)
            ∙ e
            ∙ ap (λ (o : NotionOutboxOperation). o.operation_id) q)
        ∙ sym q;
    one_unresolved = λ a b i j u v e.
        let (x, k, p) = map-In g a rows i in
        let (y, l, q) = map-In g b rows j in
        ap (λ (o : NotionOutboxOperation). o.operation_id) p
        ∙ (edits x k).same_operation
        ∙ one_edited x y k l
            (along (λ (o : NotionOutboxOperation). is_unresolved o.status ≡ true) p u)
            (along (λ (o : NotionOutboxOperation). is_unresolved o.status ≡ true) q v)
            (ap (λ (o : NotionOutboxOperation). o.local_task_id) (sym p)
              ∙ e
              ∙ ap (λ (o : NotionOutboxOperation). o.local_task_id) q)
        ∙ sym (edits y l).same_operation
        ∙ ap (λ (o : NotionOutboxOperation). o.operation_id) (sym q);
    attempted = λ o i u.
        let (x, k, p) = map-In g o rows i in
        along (λ (o : NotionOutboxOperation). 1 ≤ o.attempt_count) (sym p)
          (attempted_edited x k
            (along (λ (o : NotionOutboxOperation). is_unresolved o.status ≡ true) p u));
  }

module _ (rows : List NotionOutboxOperation) (sound : Sound rows) (new : NotionOutboxOperation)
    (fresh : (o : NotionOutboxOperation) → In o rows → o.operation_id ≡ new.operation_id → ⊥)
    (waits : new.status ≡ pending) where
  old_or_new : (a : NotionOutboxOperation) → In a (rows ++ new ∷ []) → In a rows ⊎ (a ≡ new)
  old_or_new a i = elim (In-append a rows (new ∷ []) i) [
    | inl j ↦ inl j
    | inr (inl e) ↦ inr e
    | inr (inr bad) ↦ absurd bad
  ]

  new_resolved : (a : NotionOutboxOperation) → a ≡ new → is_unresolved a.status ≡ true → ⊥
  new_resolved a e u =
      ground
        (arith, along (λ (o : NotionOutboxOperation). is_unresolved o.status ≡ true) e u, waits)

  Sound-queued : Sound (rows ++ new ∷ [])
  Sound-queued = record {
    unique = λ a b i j e. elim (old_or_new a i) [
      | inl k ↦ elim (old_or_new b j) [
        | inl l ↦ sound.unique a b k l e
        | inr q ↦ absurd (fresh a k (e ∙ ap (λ (o : NotionOutboxOperation). o.operation_id) q))
      ]
      | inr p ↦ elim (old_or_new b j) [
        | inl l ↦ absurd (fresh b l (sym e ∙ ap (λ (o : NotionOutboxOperation). o.operation_id) p))
        | inr q ↦ p ∙ sym q
      ]
    ];
    one_unresolved = λ a b i j u v e. elim (old_or_new a i) [
      | inr p ↦ absurd (new_resolved a p u)
      | inl k ↦ elim (old_or_new b j) [
        | inr q ↦ absurd (new_resolved b q v)
        | inl l ↦ sound.one_unresolved a b k l u v e
      ]
    ];
    attempted = λ o i u. elim (old_or_new o i) [
      | inr p ↦ absurd (new_resolved o p u)
      | inl k ↦ sound.attempted o k u
    ];
  }

pub Sound-Move : {rows last : List NotionOutboxOperation} → Sound rows → Move rows last → Sound last
Sound-Move sound (edited g edits alone) = Sound-edited _ sound g edits alone
Sound-Move sound (queued new fresh waits unsent) = Sound-queued _ sound new fresh waits

pub Sound-Trail :
    {rows last : List NotionOutboxOperation} → Sound rows → Trail rows last → Sound last
Sound-Trail sound start = sound
Sound-Trail sound (further p m) = Sound-Move (Sound-Trail sound p) m

final-move :
    {rows last : List NotionOutboxOperation} (o : NotionOutboxOperation)
    → IsFinal o.status
    → In o rows
    → Move rows last
    → In o last
final-move {rows = rows} o f i (edited g edits alone) =
    along (λ x. In x (map g rows)) ((edits o i).keeps f) (In-map g o rows i)
final-move o f i (queued new fresh waits unsent) = In-append_left o _ (new ∷ []) i

-- A confirmed, superseded or quarantined row stays as it is.
pub final-trail :
    {rows last : List NotionOutboxOperation} (o : NotionOutboxOperation)
    → IsFinal o.status
    → In o rows
    → Trail rows last
    → In o last
final-trail o f i start = i
final-trail o f i (further p m) = final-move o f (final-trail o f i p) m
