-- ===== src/Tests/Plans.antt =====
-- The plan of a day at a small input.
use new_day.Prelude.{true, false}
use new_day.DayPlan.{DatedTask, DayPlanItem}
use new_day.Tests.Data.{report}

abbrev dated_report : DatedTask
dated_report = record { task = report; start_date = 20260922; end_date = 20260923 }

abbrev report_item : DayPlanItem
report_item = record { dated = dated_report; is_overdue = true }

abbrev open_item : DayPlanItem
open_item = record { dated = dated_report; is_overdue = false }

abbrev focus_item : DayPlanItem
focus_item = record { dated = dated_report; is_overdue = false }
