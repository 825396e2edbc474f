-- ===== src/Model.antt =====
-- packages/core/src/domain/planner-model.ts: tasks, recurrence series and focus records, and the
-- checks of their schemas. zod's combinators are read by their documented meaning: a schema is a
-- function from a candidate to the parsed value, whose title is trimmed, or the error `invalid`.
pub mod Equality
pub mod Keys
pub mod Schemas
use new_day.Prelude.{
  ℕ, ◌+◌, ◌<◌, ◌≡◌, Bool, true, false, not, ◌&&◌, ◌||◌, Option, none, some, List, [], ◌∷◌, ltb, leb,
  ◌==◌, if◌then◌else◌, is_some, holds, all, length, ◌++◌,
}
use new_day.Prelude.Strings.{Text, text_eq, utf16_length, trim}
use new_day.Dates.{LocalDate, is_local_date, date_text}
use new_day.Host.{Host}
use new_day.Result.{Result, ok, err, PlannerError, invalid}

pub data Status : Type 0 where
  open_task completed : Status

abbrev pub is_open : Status → Bool
is_open open_task = true
is_open completed = false

pub data RecurrencePattern : Type 0 where
  daily weekdays : RecurrencePattern
  weekly : List ℕ → RecurrencePattern
  monthly : ℕ → RecurrencePattern

pub data RecurrenceEnd : Type 0 where
  never : RecurrenceEnd
  on_date : LocalDate → RecurrenceEnd

pub record RecurrenceSeries : Type 0 where
  pub id : Text
  pub logical_series_id : Text
  pub title : Text
  pub notes : Text
  pub start_date : LocalDate
  pub effective_end_date : Option LocalDate
  pub pattern : RecurrencePattern
  pub end : RecurrenceEnd
  pub excluded_dates : List LocalDate
  pub disabled : Option Bool
  pub created_at : Text
  pub updated_at : Text

pub record FocusRecord : Type 0 where
  pub id : Text
  pub date : LocalDate
  pub task_id : Text
  pub focused_at : Text

pub record Task : Type 0 where
  pub id : Text
  pub title : Text
  pub notes : Text
  pub start_date : Option LocalDate
  pub end_date : Option LocalDate
  pub status : Status
  pub created_at : Text
  pub updated_at : Text
  pub completed_at : Option Text
  pub completed_on : Option LocalDate
  pub series_id : Option Text
  pub logical_series_id : Option Text
  pub occurrence_date : Option LocalDate
  pub occurrence_key : Option Text
  pub is_series_exception : Option Bool
  pub archived : Option Bool

-- packages/core/src/domain/life-model.ts, `resourceTaskLinkSchema`.
pub record ResourceTaskLink : Type 0 where
  pub resource_id : Text
  pub task_id : Text

-- An absent or null field passes its check.
abbrev pub if_some {ℓ} : {A : Type ℓ} → (A → Bool) → Option A → Bool
if_some p none = true
if_some p (some a) = p a

abbrev non_empty : Text → Bool
non_empty t = leb 1 (utf16_length t)

abbrev is_title : Text → Bool
is_title t = leb 1 (utf16_length t) && leb (utf16_length t) 200

-- `iso_weekday_schema`: 1 for Monday to 7 for Sunday.
abbrev is_iso_weekday : ℕ → Bool
is_iso_weekday d = leb 1 d && leb d 7

-- Each weekday is later in the week than the one before it.
unfoldable pub weekdays_ascend : List ℕ → Bool
weekdays_ascend [] = true
weekdays_ascend (a ∷ []) = true
weekdays_ascend (a ∷ b ∷ rest) = ltb a b && weekdays_ascend (b ∷ rest)

unfoldable pub recurrence_pattern_check : RecurrencePattern → Bool
unfolding weekdays_ascend
recurrence_pattern_check daily = true
recurrence_pattern_check weekdays = true
recurrence_pattern_check (weekly days) =
    all is_iso_weekday days && leb 1 (length days) && weekdays_ascend days
recurrence_pattern_check (monthly day) = leb 1 day && leb day 31

unfoldable pub recurrence_end_check : RecurrenceEnd → Bool
recurrence_end_check never = true
recurrence_end_check (on_date date) = is_local_date date

-- `end.kind === "onDate" && end.date < date`.
unfoldable pub ends_before : RecurrenceEnd → LocalDate → Bool
ends_before never date = false
ends_before (on_date end) date = ltb end date

unfoldable pub series_order_check : RecurrenceSeries → Bool
unfolding ends_before
series_order_check s =
    not (ends_before s.end s.start_date)
    && if_some (λ last. not (ltb last s.start_date) && not (ends_before s.end last))
        s.effective_end_date

-- `${logicalSeriesId}:${occurrenceDate}`.
unfoldable pub recurrence_occurrence_key : Text → LocalDate → Text
recurrence_occurrence_key logical_series_id date = logical_series_id ++ b':' ∷ date_text date

unfoldable pub dates_check : Option LocalDate → Option LocalDate → Bool
dates_check none none = true
dates_check (some a) (some b) = not (ltb b a)
dates_check _ _ = false

unfoldable pub completion_check : Task → Bool
completion_check t =
    if is_open t.status
    then not (is_some t.completed_at) && not (is_some t.completed_on)
    else is_some t.completed_at || not (is_some t.completed_on)

unfoldable pub occurrence_check :
    Task → Option Text → Option Text → Option LocalDate → Option Text → Option Bool → Bool
unfolding recurrence_occurrence_key
occurrence_check t none none none none none = true
occurrence_check t (some series) (some logical) (some date) (some key) (some exception) =
    text_eq key (recurrence_occurrence_key logical date)
    && holds (λ a. holds (λ b. a == b) t.end_date) t.start_date
    && (exception || (holds (λ a. a == date) t.start_date && holds (λ b. b == date) t.end_date))
occurrence_check t _ _ _ _ _ = false

module _ (host : Host) where
  unfoldable pub task_fields_check : Task → Bool
  task_fields_check t =
      non_empty t.id
      && is_title t.title
      && leb (utf16_length t.notes) 10000
      && if_some is_local_date t.start_date
      && if_some is_local_date t.end_date
      && host.is_instant t.created_at
      && host.is_instant t.updated_at
      && if_some host.is_instant t.completed_at
      && if_some is_local_date t.completed_on
      && if_some non_empty t.series_id
      && if_some non_empty t.logical_series_id
      && if_some is_local_date t.occurrence_date
      && if_some non_empty t.occurrence_key

  unfoldable pub task_check : Task → Bool
  unfolding task_fields_check dates_check completion_check occurrence_check
  task_check t =
      task_fields_check t
      && dates_check t.start_date t.end_date
      && completion_check t
      && occurrence_check t t.series_id t.logical_series_id t.occurrence_date t.occurrence_key
          t.is_series_exception

  unfoldable pub task_schema : Task → Result Task
  task_schema t =
      let parsed = record t { title = trim t.title } in
      if task_check parsed then ok parsed else err invalid

  unfoldable pub series_check : RecurrenceSeries → Bool
  unfolding recurrence_pattern_check recurrence_end_check series_order_check
  series_check s =
      non_empty s.id
      && non_empty s.logical_series_id
      && is_title s.title
      && leb (utf16_length s.notes) 10000
      && is_local_date s.start_date
      && if_some is_local_date s.effective_end_date
      && recurrence_pattern_check s.pattern
      && recurrence_end_check s.end
      && all is_local_date s.excluded_dates
      && host.is_instant s.created_at
      && host.is_instant s.updated_at
      && series_order_check s

  unfoldable pub recurrence_series_schema : RecurrenceSeries → Result RecurrenceSeries
  recurrence_series_schema s =
      let parsed = record s { title = trim s.title } in
      if series_check parsed then ok parsed else err invalid

  unfoldable pub focus_record_check : FocusRecord → Bool
  focus_record_check f =
      non_empty f.id && is_local_date f.date && non_empty f.task_id && host.is_instant f.focused_at

  unfoldable pub focus_record_schema : FocusRecord → Result FocusRecord
  focus_record_schema f = if focus_record_check f then ok f else err invalid
