-- ===== src/Tests/Planned.antt =====
-- The validation of the planning model's output at small inputs.
use new_day.Prelude.{◌≡◌, refl, ℕ, ◌≤◌, true, false, some, [], ◌∷◌, inr, map, length}
use new_day.Prelude.Strings.{codes, text_eq, utf16_length, trim}
use new_day.Prelude.Maps.{map_get}
use new_day.Prelude.Checked.{require, then_check, check_each}
use new_day.Planning.{
  ExplicitConstraint, must_include, hard_deadline, PlanningFact, context_fact, PlanningSnapshot,
  ProposalSelection, ClarificationQuestion, ready, needs_clarification, trim_output, output_check,
  set_size, no_repeats, executable_candidates, forced_no_action, check_selection, check_ready,
  check_output, validate_planning_output,
}
use new_day.Planning.Deadline.{has_deadline_claim, claim_in, claim_at, after_word, within}
use new_day.Planning.Checks.{NoRepeats}
use new_day.Planning.Accepted.{IsPlan, validate-IsPlan, validate-AskedOnce}
use new_day.Tests.Data.{report}

abbrev keep_report : ExplicitConstraint
keep_report = record {
  id = codes "c1";
  kind = must_include;
  task_id = some (codes "t1");
  value = codes "report";
  source_text = codes "the report today";
}

abbrev report_deadline : ExplicitConstraint
report_deadline = record keep_report { id = codes "c2"; kind = hard_deadline }

abbrev deadline_fact : PlanningFact
deadline_fact = record {
  id = codes "fact";
  source = context_fact;
  text = codes "due today";
  task_id = some (codes "t1");
  constraint_id = some (codes "c2");
}

abbrev snapshot : PlanningSnapshot
snapshot = record {
  date = 20260922;
  capacity = some 2;
  constraints = keep_report ∷ report_deadline ∷ [];
  candidates =
      record { task = report; executable = true; blocked = false; fact_refs = codes "fact" ∷ [] }
      ∷ [];
  facts = deadline_fact ∷ [];
}

abbrev choose_report : ProposalSelection
choose_report = record {
  task_id = codes "t1";
  reason = codes "must be done today";
  fact_refs = codes "fact" ∷ [];
}

report_validates :
    validate_planning_output (ready (choose_report ∷ []) []) snapshot 0
    ≡ inr (ready (choose_report ∷ []) [])
unfolding validate_planning_output require output_check trim_output utf16_length trim check_output
    check_ready forced_no_action executable_candidates set_size text_eq no_repeats then_check
    check_each check_selection map_get has_deadline_claim claim_in claim_at after_word within
report_validates = refl

IsPlan-example : IsPlan snapshot (choose_report ∷ [])
IsPlan-example =
    validate-IsPlan (ready (choose_report ∷ []) []) snapshot 0 (choose_report ∷ []) []
      report_validates

abbrev how_long : ClarificationQuestion
how_long = record { id = codes "q1"; question = codes "how long" }

question_validates :
    validate_planning_output (needs_clarification (how_long ∷ []) []) snapshot 0
    ≡ inr (needs_clarification (how_long ∷ []) [])
unfolding validate_planning_output require output_check trim_output utf16_length trim check_output
    no_repeats set_size
question_validates = refl

question_example :
    ◌≡◌ {A = ℕ} 0 0
    × NoRepeats (map (λ (x : ClarificationQuestion). x.id) (how_long ∷ []))
    × (1 ≤ length (how_long ∷ []))
    × (length (how_long ∷ []) ≤ 2)
question_example =
    validate-AskedOnce (needs_clarification (how_long ∷ []) []) snapshot 0 (how_long ∷ []) []
      question_validates
