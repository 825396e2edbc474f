-- ===== src/Reconcile.antt =====
-- packages/core/src/application/notion-sync-reconcile.ts: the three-way merge of a task's shared
-- fields with its Notion page, and `notionTaskFieldsSchema` of contracts/notion-sync.ts.
pub mod Fields
pub mod Merge
use new_day.Prelude.{
  Bool, true, false, not, ◌&&◌, Option, none, some, List, [], ◌∷◌, ◌++◌, ltb, leb, ◌==◌,
  if◌then◌else◌,
}
use new_day.Prelude.Strings.{Text, text_eq, utf16_length, trim}
use new_day.Dates.{LocalDate, is_local_date}
use new_day.Result.{Result, ok, err, invalid, ◌>>=◌}

-- The complete date range is one field.
pub record NotionTaskFields : Type 0 where
  pub title : Text
  pub date : Option (LocalDate × LocalDate)
  pub completed : Bool

pub data NotionSharedField : Type 0 where
  title_field date_field completed_field : NotionSharedField

-- `Partial<NotionTaskFields>`.
pub record RemotePatch : Type 0 where
  pub title : Option Text
  pub date : Option (Option (LocalDate × LocalDate))
  pub completed : Option Bool

-- What a shared field holds.
pub data FieldValue : Type 0 where
  title_value : Text → FieldValue
  date_value : Option (LocalDate × LocalDate) → FieldValue
  completed_value : Bool → FieldValue

-- `fields[field]`.
abbrev pub value_of : NotionSharedField → NotionTaskFields → FieldValue
value_of title_field t = title_value t.title
value_of date_field t = date_value t.date
value_of completed_field t = completed_value t.completed

-- The winner of a conflict is always "notion".
pub record NotionFieldConflict : Type 0 where
  pub field : NotionSharedField
  pub baseline : FieldValue
  pub local : FieldValue
  pub remote : FieldValue

pub record Reconciled : Type 0 where
  pub merged : NotionTaskFields
  pub remote_patch : RemotePatch
  pub conflicts : List NotionFieldConflict

unfoldable pub plan_date_check : Option (LocalDate × LocalDate) → Bool
plan_date_check none = true
plan_date_check (some (a, b)) = is_local_date a && is_local_date b && not (ltb b a)

unfoldable pub fields_check : NotionTaskFields → Bool
unfolding plan_date_check
fields_check t =
    leb 1 (utf16_length t.title) && leb (utf16_length t.title) 200 && plan_date_check t.date

unfoldable pub notion_task_fields_schema : NotionTaskFields → Result NotionTaskFields
notion_task_fields_schema t =
    let parsed = record t { title = trim t.title } in
    if fields_check parsed then ok parsed else err invalid

abbrev pub same_plan : Option (LocalDate × LocalDate) → Option (LocalDate × LocalDate) → Bool
same_plan none none = true
same_plan (some (a, b)) (some (c, d)) = a == c && b == d
same_plan _ _ = false

abbrev pub same_bool : Bool → Bool → Bool
same_bool true b = b
same_bool false b = not b

unfoldable pub equal_field : NotionSharedField → NotionTaskFields → NotionTaskFields → Bool
equal_field title_field a b = text_eq a.title b.title
equal_field date_field a b = same_plan a.date b.date
equal_field completed_field a b = same_bool a.completed b.completed

unfoldable pub assign_field :
    NotionTaskFields → NotionSharedField → NotionTaskFields → NotionTaskFields
assign_field target title_field source = record target { title = source.title }
assign_field target date_field source = record target { date = source.date }
assign_field target completed_field source = record target { completed = source.completed }

unfoldable pub assign_patch : RemotePatch → NotionSharedField → NotionTaskFields → RemotePatch
assign_patch target title_field source = record target { title = some source.title }
assign_patch target date_field source = record target { date = some source.date }
assign_patch target completed_field source = record target { completed = some source.completed }

abbrev pub conflict_of :
    NotionTaskFields → NotionTaskFields → NotionTaskFields → NotionSharedField → NotionFieldConflict
conflict_of baseline local remote field = record {
  field = field;
  baseline = value_of field baseline;
  local = value_of field local;
  remote = value_of field remote;
}

module _ (baseline local remote : NotionTaskFields) where
  -- The body of the loop.
  unfoldable pub reconcile_field : Reconciled → NotionSharedField → Reconciled
  reconcile_field r field =
      if equal_field field local baseline
      then r
      else if equal_field field remote baseline
      then record r {
        merged = assign_field r.merged field local;
        remote_patch = assign_patch r.remote_patch field local;
      }
      else if equal_field field local remote
      then r
      else record r { conflicts = r.conflicts ++ conflict_of baseline local remote field ∷ [] }

  unfoldable pub reconcile_fields : List NotionSharedField → Reconciled → Reconciled
  reconcile_fields [] r = r
  reconcile_fields (field ∷ fields) r = reconcile_fields fields (reconcile_field r field)

abbrev pub shared_fields : List NotionSharedField
shared_fields = title_field ∷ date_field ∷ completed_field ∷ []

abbrev pub nothing_yet : NotionTaskFields → Reconciled
nothing_yet remote = record {
  merged = remote;
  remote_patch = record { title = none; date = none; completed = none };
  conflicts = [];
}

unfoldable pub reconcile_notion_task :
    NotionTaskFields → NotionTaskFields → NotionTaskFields → Result Reconciled
reconcile_notion_task baseline_input local_input remote_input =
    notion_task_fields_schema baseline_input >>= λ baseline.
    notion_task_fields_schema local_input >>= λ local.
    notion_task_fields_schema remote_input >>= λ remote.
    let r = reconcile_fields baseline local remote shared_fields (nothing_yet remote) in
    notion_task_fields_schema r.merged >>= λ merged. ok (record r { merged = merged })
