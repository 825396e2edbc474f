-- ===== src/Planning.antt =====
-- apps/api/src/agent/validate-planning-output.ts: which output of the planning model is accepted,
-- with the records of packages/core/src/contracts/agent-planning.ts that it reads. The output is
-- taken as decoded; a text that is not JSON, or of another shape, is refused before.
pub mod Deadline
pub mod Checks
pub mod Accepted
use new_day.Prelude.{
  ℕ, suc, ◌==◌, Bool, true, false, not, ◌&&◌, ◌||◌, Option, none, some, List, [], ◌∷◌, filter, any,
  all, length, is_some, holds, or_default, if◌then◌else◌, leb, ltb, ◌⊎◌, inl, inr, map,
}
use new_day.Prelude.Maps.{map_get}
use new_day.Prelude.Checked.{require, then_check, check_each}
use new_day.Prelude.Strings.{Text, text_eq, utf16_length, trim}
use new_day.Dates.{LocalDate}
use new_day.Model.{Task, is_open}
use new_day.Planning.Deadline.{has_deadline_claim}

pub data ConstraintKind : Type 0 where
  blocked_task must_include hard_deadline rest other : ConstraintKind

-- `source` is always "user".
pub record ExplicitConstraint : Type 0 where
  pub id : Text
  pub kind : ConstraintKind
  pub task_id : Option Text
  pub value : Text
  pub source_text : Text

pub data FactSource : Type 0 where
  task_fact context_fact preference_fact history_fact : FactSource

pub record PlanningFact : Type 0 where
  pub id : Text
  pub source : FactSource
  pub text : Text
  pub task_id : Option Text
  pub constraint_id : Option Text

pub record SnapshotTask : Type 0 where
  pub task : Task
  pub executable : Bool
  pub blocked : Bool
  pub fact_refs : List Text

-- The fields of `PlanningSnapshot`, and of its context, that validation reads.
pub record PlanningSnapshot : Type 0 where
  pub date : LocalDate
  pub capacity : Option ℕ
  pub constraints : List ExplicitConstraint
  pub candidates : List SnapshotTask
  pub facts : List PlanningFact

pub record ProposalSelection : Type 0 where
  pub task_id : Text
  pub reason : Text
  pub fact_refs : List Text

pub record ClarificationQuestion : Type 0 where
  pub id : Text
  pub question : Text

pub data PlanningModelOutput : Type 0 where
  ready : List ProposalSelection → List Text → PlanningModelOutput
  needs_clarification : List ClarificationQuestion → List Text → PlanningModelOutput
  no_action : Text → List Text → PlanningModelOutput

pub data PlanningError : Type 0 where
  invalid_format clarification_limit repeated_question : PlanningError
  violates_constraints repeated_task over_capacity missing_required : PlanningError
  unknown_task unknown_fact no_task_fact invented_deadline : PlanningError

-- An exception, or the output.
abbrev pub Checked : Type 0 → Type 0
Checked A = PlanningError ⊎ A

abbrev is_kind : ConstraintKind → ConstraintKind → Bool
is_kind blocked_task blocked_task = true
is_kind must_include must_include = true
is_kind hard_deadline hard_deadline = true
is_kind rest rest = true
is_kind other other = true
is_kind _ _ = false

abbrev pub of_kind : ConstraintKind → ExplicitConstraint → Bool
of_kind k c = is_kind k c.kind

-- `id` and `text` of the contract; a text is trimmed.
abbrev is_id : Text → Bool
is_id t = leb 1 (utf16_length t) && leb (utf16_length t) 200

abbrev is_text : Text → Bool
is_text t = leb 1 (utf16_length t) && leb (utf16_length t) 2000

abbrev trim_selection : ProposalSelection → ProposalSelection
trim_selection s = record s { reason = trim s.reason }

abbrev trim_question : ClarificationQuestion → ClarificationQuestion
trim_question q = record q { question = trim q.question }

abbrev selection_check : ProposalSelection → Bool
selection_check s =
    is_id s.task_id
    && is_text s.reason
    && all is_id s.fact_refs
    && leb 1 (length s.fact_refs)
    && leb (length s.fact_refs) 20

abbrev assumptions_check : List Text → Bool
assumptions_check a = all is_text a && leb (length a) 10

-- What `planningModelOutputSchema` returns, and its checks.
unfoldable pub trim_output : PlanningModelOutput → PlanningModelOutput
trim_output (ready s a) = ready (map trim_selection s) (map trim a)
trim_output (needs_clarification q a) = needs_clarification (map trim_question q) (map trim a)
trim_output (no_action reason a) = no_action (trim reason) (map trim a)

unfoldable pub output_check : PlanningModelOutput → Bool
output_check (ready s a) =
    all selection_check s && leb 1 (length s) && leb (length s) 3 && assumptions_check a
output_check (needs_clarification q a) =
    all (λ x. is_id x.id && is_text x.question) q
    && leb 1 (length q)
    && leb (length q) 2
    && assumptions_check a
output_check (no_action reason a) = is_text reason && assumptions_check a

-- `new Set(xs).size`: how many different elements there are.
unfoldable pub set_size : List Text → ℕ
set_size [] = 0
set_size (x ∷ xs) = let rest = set_size xs in if any (text_eq x) xs then rest else suc rest

-- `new Set(xs).size === xs.length`.
unfoldable pub no_repeats : List Text → Bool
no_repeats xs = set_size xs == length xs

abbrev starts_by : LocalDate → Task → Bool
starts_by date t = holds (λ d. leb d date) t.start_date

-- The filter of `executableCandidates`.
abbrev pub is_executable : PlanningSnapshot → SnapshotTask → Bool
is_executable snapshot c =
    c.executable
    && not c.blocked
    && is_open c.task.status
    && not (or_default c.task.archived false)
    && starts_by snapshot.date c.task
    && not (
        any (λ x. of_kind blocked_task x && holds (text_eq c.task.id) x.task_id)
          snapshot.constraints)

unfoldable pub executable_candidates : PlanningSnapshot → List SnapshotTask
executable_candidates snapshot = filter (is_executable snapshot) snapshot.candidates

abbrev pub capacity_of : PlanningSnapshot → ℕ
capacity_of snapshot = or_default snapshot.capacity 3

abbrev pub required_of : PlanningSnapshot → List ExplicitConstraint
required_of snapshot = filter (of_kind must_include) snapshot.constraints

-- The different values of `value.taskId`; a constraint with none counts as one value.
abbrev required_size : List ExplicitConstraint → ℕ
required_size cs = set_size (map (λ (c : ExplicitConstraint). or_default c.task_id []) cs)

pub data NoActionReason : Type 0 where
  rests nothing_executable cannot_satisfy : NoActionReason

-- `forcedNoAction`: the reason of the output that the host gives instead of the model.
unfoldable pub forced_no_action : PlanningSnapshot → Option NoActionReason
unfolding executable_candidates
forced_no_action snapshot =
    let eligible = executable_candidates snapshot in
    let required = required_of snapshot in
    if any (of_kind rest) snapshot.constraints
    then some rests
    else if not (any (λ c. true) eligible)
    then some nothing_executable
    else if ltb (capacity_of snapshot) (required_size required)
        || any (λ r. not (holds (λ id. any (λ c. text_eq c.task.id id) eligible) r.task_id))
            required
    then some cannot_satisfy
    else none

abbrev pub selects : List ProposalSelection → Text → Bool
selects selections id = any (λ s. text_eq s.task_id id) selections

abbrev pub fact_of : PlanningSnapshot → Text → Option PlanningFact
fact_of snapshot ref = map_get (λ (f : PlanningFact). f.id) ref snapshot.facts

abbrev is_context : FactSource → Bool
is_context context_fact = true
is_context _ = false

-- The user gave the constraint `id` as a deadline of the task.
abbrev pub is_deadline : Text → Text → ExplicitConstraint → Bool
is_deadline task id c = of_kind hard_deadline c && holds (text_eq task) c.task_id && text_eq c.id id

abbrev pub gives_deadline : PlanningSnapshot → Text → Text → Bool
gives_deadline snapshot task id = any (is_deadline task id) snapshot.constraints

-- A reason that claims a deadline refers to a deadline that the user gave.
abbrev pub backs_deadline : PlanningSnapshot → Text → PlanningFact → Bool
backs_deadline snapshot task fact =
    is_context fact.source
    && holds (text_eq task) fact.task_id
    && holds (gives_deadline snapshot task) fact.constraint_id

-- The body of the loop over the selections.
unfoldable pub check_selection : PlanningSnapshot → ProposalSelection → Checked (Unit {0})
check_selection snapshot s =
    let candidate =
      map_get (λ (c : SnapshotTask). c.task.id) s.task_id (executable_candidates snapshot) in
    require (is_some candidate) unknown_task (
      require (no_repeats s.fact_refs && all (λ ref. is_some (fact_of snapshot ref)) s.fact_refs)
        unknown_fact
        (require
          (any
            (λ ref.
              holds (λ (c : SnapshotTask). any (text_eq ref) c.fact_refs) candidate
              && holds (λ (f : PlanningFact). holds (text_eq s.task_id) f.task_id)
                  (fact_of snapshot ref))
            s.fact_refs)
          no_task_fact
          (require
            (not (has_deadline_claim s.reason)
              || any (λ ref. holds (backs_deadline snapshot s.task_id) (fact_of snapshot ref))
                  s.fact_refs)
            invented_deadline (inr tt))))

unfoldable pub check_ready :
    PlanningSnapshot → List ProposalSelection → PlanningModelOutput → Checked PlanningModelOutput
check_ready snapshot selections output =
    require (not (is_some (forced_no_action snapshot))) violates_constraints (
      require (no_repeats (map (λ (s : ProposalSelection). s.task_id) selections)) repeated_task (
        require
          (leb (set_size (map (λ (s : ProposalSelection). s.task_id) selections))
            (capacity_of snapshot))
          over_capacity
          (require (all (λ r. holds (selects selections) r.task_id) (required_of snapshot))
            missing_required
            (then_check (check_each (check_selection snapshot) selections) (inr output)))))

-- `validatePlanningOutput`, of a parsed output.
unfoldable pub check_output :
    PlanningSnapshot → ℕ → PlanningModelOutput → Checked PlanningModelOutput
check_output snapshot round (ready s a) = check_ready snapshot s (ready s a)
check_output snapshot round (needs_clarification q a) = require (leb round 0) clarification_limit (
    require (no_repeats (map (λ (x : ClarificationQuestion). x.id) q)) repeated_question
      (inr (needs_clarification q a)))
check_output snapshot round (no_action reason a) = inr (no_action reason a)

unfoldable pub validate_planning_output :
    PlanningModelOutput → PlanningSnapshot → ℕ → Checked PlanningModelOutput
validate_planning_output raw snapshot round =
    let output = trim_output raw in
    require (output_check output) invalid_format (check_output snapshot round output)
