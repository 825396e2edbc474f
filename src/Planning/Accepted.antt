-- ===== src/Planning/Accepted.antt =====
-- What an accepted output of the planning model is known to satisfy, said without the checks.
use new_day.Prelude.{
  ◌≡◌, refl, sym, ap, ◌∙◌, ℕ, ◌≤◌, true, false, not, ◌&&◌, Option, none, some, List, all, map,
  length, is_some, holds, or_default, In, inr, arith, leb,
}
use new_day.Prelude.Lists.{along, any-witness, all-In, any-In, filter-In, In-filter}
use new_day.Prelude.Strings.{Text, text_eq, text_eq_iff, text_eq_refl}
use new_day.Dates.{LocalDate}
use new_day.Model.{is_open}
use new_day.Planning.{
  blocked_task, must_include, hard_deadline, rest, ExplicitConstraint, context_fact, PlanningFact,
  SnapshotTask, PlanningSnapshot, ProposalSelection, ClarificationQuestion, PlanningModelOutput,
  NoActionReason, ready, needs_clarification, no_action, Checked, of_kind, trim_output,
  output_check, no_repeats, is_executable, executable_candidates, capacity_of, required_of,
  forced_no_action, selects, fact_of, backs_deadline, is_deadline, gives_deadline, check_selection,
  check_ready, check_output, validate_planning_output,
}
use new_day.Planning.Deadline.{has_deadline_claim}
use new_day.Prelude.Maps.{map_get-In, holds-some, is_some-some}
use new_day.Prelude.Checked.{check_each, require-passed, then_check-passed, check_each-In}
use new_day.Planning.Checks.{
  NoRepeats, no_repeats_sound, holds-id, of_kind_sound, of_kind_refl, length-map,
}

-- The fact that a reference names.
pub record Names (snapshot : PlanningSnapshot) (ref : Text) (f : PlanningFact) : Type 0 where
  pub there : In f snapshot.facts
  pub named : f.id ≡ ref

-- A candidate that may be done today.
pub record Doable (snapshot : PlanningSnapshot) (task : Text) (c : SnapshotTask) : Type 0 where
  pub there : In c snapshot.candidates
  pub same_task : c.task.id ≡ task
  pub executable : c.executable ≡ true
  pub unblocked : c.blocked ≡ false
  pub undone : is_open c.task.status ≡ true
  pub kept : or_default c.task.archived false ≡ false
  pub started : (d : LocalDate) × (c.task.start_date ≡ some d) × (d ≤ snapshot.date)
  pub allowed :
      (x : ExplicitConstraint)
      → In x snapshot.constraints
      → x.kind ≡ blocked_task
      → x.task_id ≡ some task
      → ⊥

-- A deadline that the user gave for the task, and the fact that tells it.
pub record UserDeadline (snapshot : PlanningSnapshot) (task : Text) (f : PlanningFact)
    : Type 0 where
  pub told : f.source ≡ context_fact
  pub about : f.task_id ≡ some task
  pub given :
      (x : ExplicitConstraint) × In x snapshot.constraints
      × (x.kind ≡ hard_deadline)
      × (x.task_id ≡ some task)
      × (f.constraint_id ≡ some x.id)

pub record Grounded (snapshot : PlanningSnapshot) (s : ProposalSelection) : Type 0 where
  pub doable : (c : SnapshotTask) × Doable snapshot s.task_id c
  pub refs_differ : NoRepeats s.fact_refs
  pub refs_named : (ref : Text) → In ref s.fact_refs → (f : PlanningFact) × Names snapshot ref f
  pub own_fact :
      (ref : Text) × In ref s.fact_refs
      × (f : PlanningFact) × Names snapshot ref f
      × (f.task_id ≡ some s.task_id)
  pub deadline :
      has_deadline_claim s.reason ≡ true
      → (ref : Text) × In ref s.fact_refs
        × (f : PlanningFact) × Names snapshot ref f
        × UserDeadline snapshot s.task_id f

-- A plan for the day that keeps to what the user said.
pub record IsPlan (snapshot : PlanningSnapshot) (selections : List ProposalSelection) : Type 0 where
  pub no_rest : (x : ExplicitConstraint) → In x snapshot.constraints → x.kind ≡ rest → ⊥
  pub tasks_differ : NoRepeats (map (λ (s : ProposalSelection). s.task_id) selections)
  pub some_task : 1 ≤ length selections
  pub three_tasks : length selections ≤ 3
  pub within_capacity : length selections ≤ capacity_of snapshot
  pub includes :
      (x : ExplicitConstraint)
      → In x snapshot.constraints
      → x.kind ≡ must_include
      → (s : ProposalSelection) × In s selections × (x.task_id ≡ some s.task_id)
  pub grounded : (s : ProposalSelection) → In s selections → Grounded snapshot s

module _ (snapshot : PlanningSnapshot) where
  fact_of-Names :
      (ref : Text) (f : PlanningFact) → fact_of snapshot ref ≡ some f → Names snapshot ref f
  fact_of-Names ref f h =
      let (i, e) = map_get-In (λ (x : PlanningFact). x.id) ref snapshot.facts f h in
      record { there = i; named = e }

  executable-Doable :
      (task : Text) (c : SnapshotTask)
      → In c snapshot.candidates
      → c.task.id ≡ task
      → is_executable snapshot c ≡ true
      → Doable snapshot task c
  executable-Doable task c i e h =
      let (d, start, early) =
        holds-some (λ d. leb d snapshot.date) c.task.start_date (ground arith) in
      record {
        there = i;
        same_task = e;
        executable = ground arith;
        unblocked = ground arith;
        undone = ground arith;
        kept = ground arith;
        started = (d, start, ground arith);
        allowed = λ x j k t. absurd (
            ground (
              arith,
              h,
              any-In (λ y. of_kind blocked_task y && holds (text_eq c.task.id) y.task_id) x
                  snapshot.constraints j (blocks x k t),
            ));
      }
    where
      blocks :
          (x : ExplicitConstraint)
          → x.kind ≡ blocked_task
          → x.task_id ≡ some task
          → (of_kind blocked_task x && holds (text_eq c.task.id) x.task_id) ≡ true
      blocks x k t = rw t (rw e (ground (arith, of_kind_refl blocked_task x k, text_eq_refl task)))

  backed-UserDeadline :
      (task : Text) (f : PlanningFact)
      → backs_deadline snapshot task f ≡ true
      → UserDeadline snapshot task f
  backed-UserDeadline task f h =
      let (id, given_id, found) =
        holds-some (gives_deadline snapshot task) f.constraint_id (ground arith) in
      let (x, i, same) = any-witness (is_deadline task id) snapshot.constraints found in
      record {
        told = ground arith;
        about = holds-id task f.task_id (ground arith);
        given = (
          x,
          i,
          of_kind_sound hard_deadline x (ground arith),
          holds-id task x.task_id (ground arith),
          given_id ∙ ap some (sym ((text_eq_iff x.id id).0 (ground arith))),
        );
      }

  selection-Grounded :
      (s : ProposalSelection) → check_selection snapshot s ≡ inr tt → Grounded snapshot s
  unfolding check_selection executable_candidates
  selection-Grounded s h =
      let (found, h1) = require-passed _ _ _ tt h in
      let (refs, h2) = require-passed _ _ _ tt h1 in
      let (own, h3) = require-passed _ _ _ tt h2 in
      let (backed, _) = require-passed _ _ _ tt h3 in
      let (c, e) = is_some-some _ found in
      let (i, same) = map_get-In _ s.task_id _ c e in
      let (j, can) = filter-In (is_executable snapshot) c snapshot.candidates i in
      let (ref, k, tells) = any-witness _ s.fact_refs own in
      let (f, named, about) =
        holds-some (λ (f : PlanningFact). holds (text_eq s.task_id) f.task_id)
          (fact_of snapshot ref) (ground arith) in
      record {
        doable = (c, executable-Doable s.task_id c j same can);
        refs_differ = no_repeats_sound s.fact_refs (ground arith);
        refs_named = λ r l.
            let (g, q) =
              is_some-some (fact_of snapshot r)
                (all-In (λ x. is_some (fact_of snapshot x)) r s.fact_refs (ground arith) l) in
            (g, fact_of-Names r g q);
        own_fact = (ref, k, f, fact_of-Names ref f named, holds-id s.task_id f.task_id about);
        deadline = λ claims.
            let (r, l, q) =
              any-witness (λ x. holds (backs_deadline snapshot s.task_id) (fact_of snapshot x))
                s.fact_refs (ground arith) in
            let (g, n, b) = holds-some (backs_deadline snapshot s.task_id) (fact_of snapshot r) q in
            (r, l, g, fact_of-Names r g n, backed-UserDeadline s.task_id g b);
      }

  selections-Grounded :
      (selections : List ProposalSelection)
      → check_each (check_selection snapshot) selections ≡ inr tt
      → (s : ProposalSelection) → In s selections
      → Grounded snapshot s
  selections-Grounded selections h s i =
      selection-Grounded s (check_each-In (check_selection snapshot) selections h s i)

  no_forced-no_rest :
      forced_no_action snapshot ≡ none
      → (x : ExplicitConstraint) → In x snapshot.constraints
      → x.kind ≡ rest
      → ⊥
  unfolding forced_no_action
  no_forced-no_rest h x i k =
      absurd
        (ground (arith, h, any-In (of_kind rest) x snapshot.constraints i (of_kind_refl rest x k)))

  includes-required :
      (selections : List ProposalSelection)
      → all (λ r. holds (selects selections) r.task_id) (required_of snapshot) ≡ true
      → (x : ExplicitConstraint) → In x snapshot.constraints
      → x.kind ≡ must_include
      → (s : ProposalSelection) × In s selections × (x.task_id ≡ some s.task_id)
  includes-required selections h x i k =
      let required =
        In-filter (of_kind must_include) x snapshot.constraints i (of_kind_refl must_include x k) in
      let (id, e, chosen) =
        holds-some (selects selections) x.task_id (
          all-In (λ r. holds (selects selections) r.task_id) x (required_of snapshot) h required) in
      let (s, j, same) =
        any-witness (λ (y : ProposalSelection). text_eq y.task_id id) selections chosen in
      (s, j, e ∙ ap some (sym ((text_eq_iff s.task_id id).0 same)))

  ready-IsPlan :
      (selections : List ProposalSelection) (output accepted : PlanningModelOutput)
      → leb 1 (length selections) ≡ true
      → leb (length selections) 3 ≡ true
      → check_ready snapshot selections output ≡ inr accepted
      → IsPlan snapshot selections
  unfolding check_ready no_repeats
  ready-IsPlan selections output accepted few many h =
      let (free, h1) = require-passed _ _ _ accepted h in
      let (differ, h2) = require-passed _ _ _ accepted h1 in
      let (fits, h3) = require-passed _ _ _ accepted h2 in
      let (required, h4) = require-passed _ _ _ accepted h3 in
      let (each, _) = then_check-passed _ _ accepted h4 in
      record {
        no_rest = no_forced-no_rest (unforced (forced_no_action snapshot) free);
        tasks_differ = no_repeats_sound _ differ;
        some_task = ground arith;
        three_tasks = ground arith;
        within_capacity =
            ground
              (arith, fits, differ, length-map (λ (s : ProposalSelection). s.task_id) selections);
        includes = includes-required selections required;
        grounded = selections-Grounded selections each;
      }
    where
      unforced : (r : Option NoActionReason) → not (is_some r) ≡ true → r ≡ none
      unforced none k = refl
      unforced (some x) k = absurd (ground arith)

  ready-same :
      (selections : List ProposalSelection) (output accepted : PlanningModelOutput)
      → check_ready snapshot selections output ≡ inr accepted
      → ◌≡◌ {A = Checked PlanningModelOutput} (inr output) (inr accepted)
  unfolding check_ready
  ready-same selections output accepted h =
      let (free, h1) = require-passed _ _ _ accepted h in
      let (differ, h2) = require-passed _ _ _ accepted h1 in
      let (fits, h3) = require-passed _ _ _ accepted h2 in
      let (required, h4) = require-passed _ _ _ accepted h3 in (then_check-passed _ _ accepted h4).1

-- The selections of a plan that was returned.
abbrev selections_of : List ProposalSelection → Checked PlanningModelOutput → List ProposalSelection
selections_of none_there (inr (ready s a)) = s
selections_of none_there _ = none_there

checked-IsPlan :
    (snapshot : PlanningSnapshot) (round : ℕ) (output : PlanningModelOutput)
    (selections : List ProposalSelection) (assumptions : List Text)
    → output_check output ≡ true
    → check_output snapshot round output ≡ inr (ready selections assumptions)
    → IsPlan snapshot selections
unfolding check_output output_check
checked-IsPlan snapshot round (ready s a) selections assumptions valid h =
    along (IsPlan snapshot)
      (ap (selections_of s) (ready-same snapshot s (ready s a) (ready selections assumptions) h))
      (ready-IsPlan snapshot s (ready s a) (ready selections assumptions) (ground arith)
        (ground arith) h)
checked-IsPlan snapshot round (needs_clarification q a) selections assumptions valid h =
    let (_, h1) = require-passed _ _ _ (ready selections assumptions) h in
    let (_, h2) = require-passed _ _ _ (ready selections assumptions) h1 in absurd (ground arith)
checked-IsPlan snapshot round (no_action reason a) selections assumptions valid h =
    absurd (ground arith)

-- Where the validation returns a plan, no constraint asks for rest; the plan selects one to three
-- different tasks, no more than the user's capacity; it selects every task that the user asked to
-- include; each selected task is a candidate that is open, executable, not blocked and not in the
-- future; its reason refers to facts that exist, one of them about the task; and a reason that claims
-- a deadline refers to one that the user gave for that task.
pub validate-IsPlan :
    (raw : PlanningModelOutput) (snapshot : PlanningSnapshot) (round : ℕ)
    (selections : List ProposalSelection) (assumptions : List Text)
    → validate_planning_output raw snapshot round ≡ inr (ready selections assumptions)
    → IsPlan snapshot selections
unfolding validate_planning_output
validate-IsPlan raw snapshot round selections assumptions h =
    let (valid, checked) = require-passed _ _ _ (ready selections assumptions) h in
    checked-IsPlan snapshot round (trim_output raw) selections assumptions valid checked

-- The questions that were returned.
abbrev questions_of :
    List ClarificationQuestion → Checked PlanningModelOutput → List ClarificationQuestion
questions_of none_there (inr (needs_clarification q a)) = q
questions_of none_there _ = none_there

abbrev AskedOnce : ℕ → List ClarificationQuestion → Type 0
AskedOnce round questions =
    (round ≡ 0)
    × NoRepeats (map (λ (x : ClarificationQuestion). x.id) questions)
    × (1 ≤ length questions)
    × (length questions ≤ 2)

checked-AskedOnce :
    (snapshot : PlanningSnapshot) (round : ℕ) (output : PlanningModelOutput)
    (questions : List ClarificationQuestion) (assumptions : List Text)
    → output_check output ≡ true
    → check_output snapshot round output ≡ inr (needs_clarification questions assumptions)
    → AskedOnce round questions
unfolding check_output output_check
checked-AskedOnce snapshot round (ready s a) questions assumptions valid h = absurd (
    ground (arith, ready-same snapshot s (ready s a) (needs_clarification questions assumptions) h))
checked-AskedOnce snapshot round (needs_clarification q a) questions assumptions valid h =
    let (first, h1) = require-passed _ _ _ (needs_clarification questions assumptions) h in
    let (differ, h2) = require-passed _ _ _ (needs_clarification questions assumptions) h1 in
    along (AskedOnce round) (ap (questions_of q) h2)
      (ground arith, no_repeats_sound _ differ, ground arith, ground arith)
checked-AskedOnce snapshot round (no_action reason a) questions assumptions valid h =
    absurd (ground arith)

-- Questions are returned in the first round only, one or two of them and with different ids.
pub validate-AskedOnce :
    (raw : PlanningModelOutput) (snapshot : PlanningSnapshot) (round : ℕ)
    (questions : List ClarificationQuestion) (assumptions : List Text)
    → validate_planning_output raw snapshot round ≡ inr (needs_clarification questions assumptions)
    → (round ≡ 0)
      × NoRepeats (map (λ (x : ClarificationQuestion). x.id) questions)
      × (1 ≤ length questions)
      × (length questions ≤ 2)
unfolding validate_planning_output
validate-AskedOnce raw snapshot round questions assumptions h =
    let (valid, checked) = require-passed _ _ _ (needs_clarification questions assumptions) h in
    checked-AskedOnce snapshot round (trim_output raw) questions assumptions valid checked
