-- ===== src/Tests/Merged.antt =====
-- The reconciliation with Notion at a small input.
use new_day.Prelude.{◌≡◌, refl, true, false, none}
use new_day.Prelude.Strings.{codes, utf16_length, trim}
use new_day.Result.{ok}
use new_day.Reconcile.{
  NotionTaskFields, NotionSharedField, Reconciled, notion_task_fields_schema, fields_check,
  reconcile_notion_task,
}
use new_day.Reconcile.Fields.{IsThreeWay}
use new_day.Reconcile.Merge.{reconcile_notion_task-IsThreeWay}

abbrev confirmed : NotionTaskFields
confirmed = record { title = codes "report"; date = none; completed = false }

-- The local side renamed the task, and both sides completed it.
abbrev local_side : NotionTaskFields
local_side = record { title = codes "annual report"; date = none; completed = true }

abbrev remote_side : NotionTaskFields
remote_side = record { title = codes "report"; date = none; completed = true }

confirmed_parses : notion_task_fields_schema confirmed ≡ ok confirmed
unfolding notion_task_fields_schema fields_check trim utf16_length
confirmed_parses = refl

local_parses : notion_task_fields_schema local_side ≡ ok local_side
unfolding notion_task_fields_schema fields_check trim utf16_length
local_parses = refl

remote_parses : notion_task_fields_schema remote_side ≡ ok remote_side
unfolding notion_task_fields_schema fields_check trim utf16_length
remote_parses = refl

reconcile_example :
    (r : Reconciled) × (reconcile_notion_task confirmed local_side remote_side ≡ ok r)
    × ((field : NotionSharedField) → IsThreeWay confirmed local_side remote_side r field)
reconcile_example =
    reconcile_notion_task-IsThreeWay confirmed local_side remote_side confirmed local_side
      remote_side confirmed_parses local_parses remote_parses
