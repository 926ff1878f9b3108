-- ===== src/Workflow/Examples.antt =====
-- Decisions on one proposal: a granted read, on the second of three steps.
use meeseek_collective.Common.{◌≡◌, refl, inr, some, ne_of_test, [], ◌∷◌, arith, string_dec}
use meeseek_collective.Common.Int.{pos}
use meeseek_collective.Common.Sets.{has_string}
use meeseek_collective.Common.Text.{trim_space}
use meeseek_collective.Common.Result.{ok}
use meeseek_collective.Workflow.{
  Verdict, Outcome, WorkProposal, Input, is_subset, decide, some_blank, has_evidence,
}
use meeseek_collective.Workflow.Authority.{Within, IsAllowed, decide-IsAllowed, IsAllowed-decide}

abbrev work : WorkProposal
work = record {
  kind = "review";
  required_capabilities = "read" ∷ [];
  authority_ceiling = "read" ∷ "list" ∷ [];
  proposed_actions = "comment" ∷ [];
}

abbrev input : Input
input = record {
  assessment = record {
    verdict = Verdict.continue;
    reason = "more to read";
    evidence_ids = "evidence_1" ∷ [];
    next = some work;
  };
  grant = record { capabilities = "list" ∷ "read" ∷ []; actions = "comment" ∷ [] };
  limits = record { max_steps = pos 3; remaining_budget = pos 10 };
  completed_steps = pos 1;
  progress_signature = "b";
  previous_progress_signature = "a";
}

work-IsAllowed : IsAllowed input work
unfolding has_string string_dec trim_space
work-IsAllowed = record {
  named = refl;
  granted = λ x. ground arith;
  needed = λ x. ground arith;
  acts = λ x m. m;
  steps = refl;
  budget = refl;
  progress = inr (ne_of_test "b" "a" refl);
}

decide-IsAllowed_example :
    (next : WorkProposal) × (some work ≡ some next)
    × (input.assessment.next ≡ some next)
    × IsAllowed input next
    × Within next.required_capabilities input.grant.capabilities
unfolding decide is_subset has_string string_dec trim_space
decide-IsAllowed_example =
    decide-IsAllowed input
      (record { outcome = Outcome.continue; reason = "more to read"; next = some work }) refl refl

IsAllowed-decide_example :
    decide input
    ≡ ok (record { outcome = Outcome.continue; reason = "more to read"; next = some work })
unfolding some_blank has_evidence string_dec trim_space
IsAllowed-decide_example = IsAllowed-decide input work refl refl refl refl work-IsAllowed
