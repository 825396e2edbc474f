-- ===== src/Reconcile/Merge.antt =====
-- What the reconciliation decides for each shared field, against a table of the four cases.
use new_day.Prelude.{
  ◌≡◌, ◌⊎◌, refl, ◌∙◌, Bool, true, false, none, [], ◌∷◌, ◌++◌, arith, filter, if◌then◌else◌,
  Bool-cases, inl, inr,
}
use new_day.Prelude.Strings.{trim-trim, trim}
use new_day.Prelude.Lists.{append_nil, along}
use new_day.Result.{ok}
use new_day.Reconcile.{
  NotionTaskFields, NotionSharedField, title_field, date_field, completed_field, title_value,
  date_value, Reconciled, fields_check, notion_task_fields_schema, equal_field, conflict_of,
  reconcile_field, reconcile_fields, shared_fields, nothing_yet, reconcile_notion_task,
}
use new_day.Reconcile.Fields.{
  patch_of, same_field, conflicts_of, IsThreeWay, filter-snoc, same_field_refl,
  value_of-assign_field, patch_of-assign_patch, assign_field_other, assign_patch_other, Agrees,
}

module _ (baseline local remote : NotionTaskFields) where
  -- One round of the loop leaves the other fields.
  elsewhere :
      (r : Reconciled) (f g : NotionSharedField)
      → same_field f g ≡ false
      → Agrees g (reconcile_field baseline local remote r f) r
  unfolding reconcile_field
  elsewhere r f g h = elim (Bool-cases (equal_field f local baseline)) [
    | inl same ↦ rw same (record { merged_same = refl; patch_same = refl; conflicts_same = refl })
    | inr changed ↦ elim (Bool-cases (equal_field f remote baseline)) [
      | inl kept ↦
          rw (changed, kept)
            (record {
              merged_same = assign_field_other r.merged local f g h;
              patch_same = assign_patch_other r.remote_patch local f g h;
              conflicts_same = refl;
            })
      | inr moved ↦ elim (Bool-cases (equal_field f local remote)) [
        | inl equal ↦
            rw (changed, moved, equal)
              (record { merged_same = refl; patch_same = refl; conflicts_same = refl })
        | inr differ ↦
            rw (changed, moved, differ)
              (record {
                merged_same = refl;
                patch_same = refl;
                conflicts_same = filter-snoc _ r.conflicts _ ∙ other;
              })
      ]
    ]
  ]
    where
      other :
          filter (λ c. same_field c.field g) r.conflicts
            ++ (if same_field f g then conflict_of baseline local remote f ∷ [] else [])
          ≡ conflicts_of g r.conflicts
      other = rw h (append_nil _)

  -- Nothing has been decided about a field.
  abbrev IsFresh : Reconciled → NotionSharedField → Type 0
  IsFresh r field = Agrees field r (nothing_yet remote)

  -- One round of the loop settles its field.
  settled :
      (r : Reconciled) (f : NotionSharedField)
      → IsFresh r f
      → IsThreeWay baseline local remote (reconcile_field baseline local remote r f) f
  unfolding reconcile_field
  settled r f h = elim (Bool-cases (equal_field f local baseline)) [
    | inl same ↦ rw same (record {
      merged_value = rw same h.merged_same;
      patch_value = rw same (h.patch_same ∙ fresh_patch f);
      conflict_value = rw same h.conflicts_same;
    })
    | inr changed ↦ elim (Bool-cases (equal_field f remote baseline)) [
      | inl kept ↦
          rw (changed, kept)
            (record {
              merged_value = rw (changed, kept) (value_of-assign_field r.merged local f);
              patch_value = rw (changed, kept) (patch_of-assign_patch r.remote_patch local f);
              conflict_value = rw (changed, kept) h.conflicts_same;
            })
      | inr moved ↦ elim (Bool-cases (equal_field f local remote)) [
        | inl equal ↦
            rw (changed, moved, equal)
              (record {
                merged_value = rw (changed, moved) h.merged_same;
                patch_value = rw (changed, moved) (h.patch_same ∙ fresh_patch f);
                conflict_value = rw (changed, moved, equal) h.conflicts_same;
              })
        | inr differ ↦
            rw (changed, moved, differ)
              (record {
                merged_value = rw (changed, moved) h.merged_same;
                patch_value = rw (changed, moved) (h.patch_same ∙ fresh_patch f);
                conflict_value = rw (changed, moved, differ) (filter-snoc _ r.conflicts _ ∙ added);
              })
      ]
    ]
  ]
    where
      fresh_patch : (g : NotionSharedField) → patch_of g (nothing_yet remote).remote_patch ≡ none
      fresh_patch title_field = refl
      fresh_patch date_field = refl
      fresh_patch completed_field = refl

      added :
          filter (λ c. same_field c.field f) r.conflicts
            ++ (if same_field f f then conflict_of baseline local remote f ∷ [] else [])
          ≡ conflict_of baseline local remote f ∷ []
      added = rw (same_field_refl f, h.conflicts_same) refl

  -- What is said of a field carries over.
  carry :
      (r q : Reconciled) (f : NotionSharedField)
      → Agrees f q r
      → IsThreeWay baseline local remote r f
      → IsThreeWay baseline local remote q f
  carry r q f a h = record {
    merged_value = a.merged_same ∙ h.merged_value;
    patch_value = a.patch_same ∙ h.patch_value;
    conflict_value = a.conflicts_same ∙ h.conflict_value;
  }

  agree : {f : NotionSharedField} {r q z : Reconciled} → Agrees f r q → Agrees f q z → Agrees f r z
  agree a b = record {
    merged_same = a.merged_same ∙ b.merged_same;
    patch_same = a.patch_same ∙ b.patch_same;
    conflicts_same = a.conflicts_same ∙ b.conflicts_same;
  }

  -- The loop settles all three fields.
  all_settled :
      (f : NotionSharedField)
      → IsThreeWay baseline local remote
          (reconcile_fields baseline local remote shared_fields (nothing_yet remote))
          f
  unfolding reconcile_fields
  all_settled f = go f
    where
      step : Reconciled → NotionSharedField → Reconciled
      step = reconcile_field baseline local remote

      r0 : Reconciled
      r0 = nothing_yet remote

      r1 : Reconciled
      r1 = step r0 title_field

      r2 : Reconciled
      r2 = step r1 date_field

      fresh : (g : NotionSharedField) → IsFresh r0 g
      fresh g = record { merged_same = refl; patch_same = refl; conflicts_same = refl }

      go : (g : NotionSharedField) → IsThreeWay baseline local remote (step r2 completed_field) g
      go title_field =
          carry r1 _ title_field
            (agree (elsewhere r2 completed_field title_field refl)
              (elsewhere r1 date_field title_field refl))
            (settled r0 title_field (fresh title_field))
      go date_field =
          carry r2 _ date_field (elsewhere r2 completed_field date_field refl)
            (settled r1 date_field (elsewhere r0 title_field date_field refl))
      go completed_field = settled r2 completed_field (
          agree (elsewhere r1 date_field completed_field refl)
            (elsewhere r0 title_field completed_field refl))

-- A parsed value passes the checks, and its title has no spaces around it.
record IsParsed (t : NotionTaskFields) : Type 0 where
  checked : fields_check t ≡ true
  trimmed : trim t.title ≡ t.title

schema_is :
    (t u : NotionTaskFields)
    → notion_task_fields_schema t ≡ ok u
    → record t { title = trim t.title } ≡ u
unfolding notion_task_fields_schema
schema_is t u h = ground arith

schema-IsParsed : (t u : NotionTaskFields) → notion_task_fields_schema t ≡ ok u → IsParsed u
unfolding notion_task_fields_schema
schema-IsParsed t u h = record {
  checked = ground arith;
  trimmed =
      along (λ (x : NotionTaskFields). trim x.title ≡ x.title) (schema_is t u h)
        (trim-trim t.title);
}

reparse : (t : NotionTaskFields) → IsParsed t → notion_task_fields_schema t ≡ ok t
unfolding notion_task_fields_schema
reparse t h = rw (h.trimmed, h.checked) refl

-- Every field of `t` is that of `a` or that of `b`.
IsParsed-fields :
    (a b t : NotionTaskFields)
    → IsParsed a
    → IsParsed b
    → (t.title ≡ a.title) ⊎ (t.title ≡ b.title)
    → (t.date ≡ a.date) ⊎ (t.date ≡ b.date)
    → IsParsed t
unfolding fields_check
IsParsed-fields a b t ha hb title date = elim title [
  | inl p ↦ record {
    checked = elim date [ inl q ↦ rw (p, q) ha.checked | inr q ↦ rw (p, q) (ground arith) ];
    trimmed = rw p ha.trimmed;
  }
  | inr p ↦ record {
    checked = elim date [ inl q ↦ rw (p, q) (ground arith) | inr q ↦ rw (p, q) hb.checked ];
    trimmed = rw p hb.trimmed;
  }
]

module _ (baseline local remote : NotionTaskFields) (r : Reconciled)
    (h : (f : NotionSharedField) → IsThreeWay baseline local remote r f) where
  -- What the loop leaves is parsed again without a change.
  merged-IsParsed : IsParsed local → IsParsed remote → IsParsed r.merged
  merged-IsParsed hl hr =
      IsParsed-fields local remote r.merged hl hr (by_title _ (h title_field).merged_value)
        (by_date _ (h date_field).merged_value)
    where
      by_title :
          (c : Bool)
          → title_value r.merged.title
            ≡ (if c then title_value local.title else title_value remote.title)
          → (r.merged.title ≡ local.title) ⊎ (r.merged.title ≡ remote.title)
      by_title true e = inl (ground arith)
      by_title false e = inr (ground arith)

      by_date :
          (c : Bool)
          → date_value r.merged.date ≡ (if c then date_value local.date else date_value remote.date)
          → (r.merged.date ≡ local.date) ⊎ (r.merged.date ≡ remote.date)
      by_date true e = inl (ground arith)
      by_date false e = inr (ground arith)

-- The reconciliation of three versions that parse always succeeds, and decides each field by the
-- changes since the baseline: a field that only the local side changed is sent to Notion; one that
-- both sides changed to different values is a conflict, and Notion's value stays; any other field is
-- Notion's, and nothing is sent.
pub reconcile_notion_task-IsThreeWay :
    (baseline_input local_input remote_input baseline local remote : NotionTaskFields)
    → notion_task_fields_schema baseline_input ≡ ok baseline
    → notion_task_fields_schema local_input ≡ ok local
    → notion_task_fields_schema remote_input ≡ ok remote
    → (r : Reconciled) × (reconcile_notion_task baseline_input local_input remote_input ≡ ok r)
      × ((field : NotionSharedField) → IsThreeWay baseline local remote r field)
unfolding reconcile_notion_task
reconcile_notion_task-IsThreeWay bi li ri b l m eb el em =
    (r, rw (eb, el, em) (rw again refl), all_settled b l m)
  where
    r : Reconciled
    r = reconcile_fields b l m shared_fields (nothing_yet m)

    again : notion_task_fields_schema r.merged ≡ ok r.merged
    again = reparse r.merged (
        merged-IsParsed b l m r (all_settled b l m) (schema-IsParsed li l el)
          (schema-IsParsed ri m em))
