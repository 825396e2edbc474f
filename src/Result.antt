-- ===== src/Result.antt =====
-- The exceptions that the planner throws, as values. A constructor names the message; `invalid` is
-- a ZodError, and `constraint` the error of a SQLite constraint.
use new_day.Prelude.{Bool, if◌then◌else◌}
use new_day.Prelude.Strings.{Text}

pub data PlannerError : Type 0 where
  invalid constraint : PlannerError
  task_exists task_not_found series_exists series_not_found : Text → PlannerError
  occurrence_exists occurrence_id_conflict lineage_broken : Text → PlannerError
  not_focusable not_visible focus_full : PlannerError
  not_single_day already_recurring start_not_in_rule : PlannerError
  outside_segment cannot_extend impact_changed : PlannerError
  generation_range undo_expired series_changed : PlannerError

-- A promise that is settled: rejected with an exception, or resolved with a value.
pub data Result {ℓ} (A : Type ℓ) : Type ℓ where
  err : PlannerError → Result A
  ok : A → Result A

-- `if (!condition) throw error`.
abbrev pub guard : Bool → PlannerError → Result (Unit {0})
guard condition error = if condition then ok tt else err error

-- The continuation runs only after a value.
infixl 5 ◌>>=◌
abbrev pub ◌>>=◌ {ℓ κ} : {A : Type ℓ} {B : Type κ} → Result A → (A → Result B) → Result B
err error >>= next = err error
ok value >>= next = next value

infixl 5 ◌>>◌
abbrev pub ◌>>◌ {κ} : {B : Type κ} → Result (Unit {0}) → Result B → Result B
check >> rest = check >>= λ passed. rest
