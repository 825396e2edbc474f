-- ===== src/Tests/Data.antt =====
-- A host, texts and rows that the tests share.
use new_day.Prelude.{none, some, [], ◌∷◌, false}
use new_day.Prelude.Strings.{Text, codes}
use new_day.Model.{Task, RecurrenceSeries, FocusRecord, open_task, never, monthly}
use new_day.Session.{Session, Tables}

abbrev pub morning : Text
morning = codes "2026-09-22T08:00:00.000Z"

abbrev pub noon : Text
noon = codes "2026-09-22T12:00:00.000Z"

abbrev pub report : Task
report = record {
  id = codes "t1";
  title = codes "report";
  notes = [];
  start_date = some 20260922;
  end_date = some 20260923;
  status = open_task;
  created_at = morning;
  updated_at = morning;
  completed_at = none;
  completed_on = none;
  series_id = none;
  logical_series_id = none;
  occurrence_date = none;
  occurrence_key = none;
  is_series_exception = none;
  archived = none;
}

abbrev pub report_focus : FocusRecord
report_focus = record {
  id = codes "focus:2026-09-22:t1";
  date = 20260922;
  task_id = codes "t1";
  focused_at = morning;
}

abbrev pub month_end : RecurrenceSeries
month_end = record {
  id = codes "s1";
  logical_series_id = codes "s1";
  title = codes "rent";
  notes = [];
  start_date = 20260101;
  effective_end_date = none;
  pattern = monthly 31;
  end = never;
  excluded_dates = [];
  disabled = none;
  created_at = morning;
  updated_at = morning;
}

abbrev pub session_of : Tables → Session
session_of t = record {
  tables = t;
  mutated = false;
  callbacks = [];
  latest_undo = none;
  uuids = 7;
  changes = record {
    tasks = [];
    recurrence_series = [];
    focus_records = [];
    resource_task_links = [];
  };
}

abbrev pub focused_day : Session
focused_day = session_of (record {
  tasks = report ∷ [];
  series = month_end ∷ [];
  focus = report_focus ∷ [];
  links = [];
  resources = [];
  revision = 4;
})
