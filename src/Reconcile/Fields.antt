-- ===== src/Reconcile/Fields.antt =====
-- Single fields of a reconciliation: what an assignment sets, and what it leaves.
use new_day.Prelude.{
  ◌≡◌, refl, Bool, true, false, not, ◌&&◌, Option, none, some, List, [], ◌∷◌, ◌++◌, arith, filter,
  if◌then◌else◌,
}
use new_day.Reconcile.{
  NotionTaskFields, NotionSharedField, title_field, date_field, completed_field, RemotePatch,
  FieldValue, title_value, date_value, completed_value, value_of, NotionFieldConflict, Reconciled,
  equal_field, assign_field, assign_patch, conflict_of,
}

abbrev pub patch_of : NotionSharedField → RemotePatch → Option FieldValue
patch_of title_field p = elim p.title [ none ↦ none | some x ↦ some (title_value x) ]
patch_of date_field p = elim p.date [ none ↦ none | some x ↦ some (date_value x) ]
patch_of completed_field p = elim p.completed [ none ↦ none | some x ↦ some (completed_value x) ]

abbrev pub same_field : NotionSharedField → NotionSharedField → Bool
same_field title_field title_field = true
same_field date_field date_field = true
same_field completed_field completed_field = true
same_field _ _ = false

abbrev pub conflicts_of : NotionSharedField → List NotionFieldConflict → List NotionFieldConflict
conflicts_of field = filter (λ c. same_field c.field field)

-- A field that only the local side changed is sent; one that both changed to different values is a
-- conflict, which Notion wins; any other field is taken from Notion.
pub record IsThreeWay (baseline local remote : NotionTaskFields) (r : Reconciled)
    (field : NotionSharedField) : Type 0 where
  pub merged_value : value_of field r.merged ≡ (
      if not (equal_field field local baseline) && equal_field field remote baseline
      then value_of field local
      else value_of field remote)
  pub patch_value : patch_of field r.remote_patch ≡ (
      if not (equal_field field local baseline) && equal_field field remote baseline
      then some (value_of field local)
      else none)
  pub conflict_value : conflicts_of field r.conflicts ≡ (
      if not (equal_field field local baseline)
        && not (equal_field field remote baseline)
        && not (equal_field field local remote)
      then conflict_of baseline local remote field ∷ []
      else [])

pub filter-snoc :
    (p : NotionFieldConflict → Bool) (cs : List NotionFieldConflict) (c : NotionFieldConflict)
    → filter p (cs ++ c ∷ []) ≡ filter p cs ++ (if p c then c ∷ [] else [])
filter-snoc p [] c = refl
filter-snoc p (x ∷ cs) c = ground (arith, filter-snoc p cs c)

pub same_field_refl : (f : NotionSharedField) → same_field f f ≡ true
same_field_refl title_field = refl
same_field_refl date_field = refl
same_field_refl completed_field = refl

-- An assignment sets its field.
pub value_of-assign_field :
    (t s : NotionTaskFields) (f : NotionSharedField)
    → value_of f (assign_field t f s) ≡ value_of f s
unfolding assign_field
value_of-assign_field t s title_field = refl
value_of-assign_field t s date_field = refl
value_of-assign_field t s completed_field = refl

pub patch_of-assign_patch :
    (t : RemotePatch) (s : NotionTaskFields) (f : NotionSharedField)
    → patch_of f (assign_patch t f s) ≡ some (value_of f s)
unfolding assign_patch
patch_of-assign_patch t s title_field = refl
patch_of-assign_patch t s date_field = refl
patch_of-assign_patch t s completed_field = refl

-- An assignment leaves the other fields.
pub assign_field_other :
    (t s : NotionTaskFields) (f g : NotionSharedField)
    → same_field f g ≡ false
    → value_of g (assign_field t f s) ≡ value_of g t
unfolding assign_field
assign_field_other t s title_field title_field h = ground arith
assign_field_other t s title_field date_field h = refl
assign_field_other t s title_field completed_field h = refl
assign_field_other t s date_field title_field h = refl
assign_field_other t s date_field date_field h = ground arith
assign_field_other t s date_field completed_field h = refl
assign_field_other t s completed_field title_field h = refl
assign_field_other t s completed_field date_field h = refl
assign_field_other t s completed_field completed_field h = ground arith

pub assign_patch_other :
    (t : RemotePatch) (s : NotionTaskFields) (f g : NotionSharedField)
    → same_field f g ≡ false
    → patch_of g (assign_patch t f s) ≡ patch_of g t
unfolding assign_patch
assign_patch_other t s title_field title_field h = ground arith
assign_patch_other t s title_field date_field h = refl
assign_patch_other t s title_field completed_field h = refl
assign_patch_other t s date_field title_field h = refl
assign_patch_other t s date_field date_field h = ground arith
assign_patch_other t s date_field completed_field h = refl
assign_patch_other t s completed_field title_field h = refl
assign_patch_other t s completed_field date_field h = refl
assign_patch_other t s completed_field completed_field h = ground arith

-- Two results say the same of a field.
pub record Agrees (field : NotionSharedField) (r q : Reconciled) : Type 0 where
  pub merged_same : value_of field r.merged ≡ value_of field q.merged
  pub patch_same : patch_of field r.remote_patch ≡ patch_of field q.remote_patch
  pub conflicts_same : conflicts_of field r.conflicts ≡ conflicts_of field q.conflicts
