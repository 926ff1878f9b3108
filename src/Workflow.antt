-- ===== src/Workflow.antt =====
-- internal/workflow/decision.go: what a workflow case does next. `int` and `int64` counters are
-- integers; a Go `*WorkProposal` is an option.
pub mod Authority
mod Examples
use meeseek_collective.Common.{
  ◌≡◌, refl, Bool, true, false, ◌&&◌, not, Option, none, some, List, [], ◌∷◌, String, ◌==◌,
  if◌then◌else◌,
}
use meeseek_collective.Common.Int.{ℤ, pos, leb_ℤ}
use meeseek_collective.Common.Sets.{has_string}
use meeseek_collective.Common.Text.{trim_space}
use meeseek_collective.Common.Result.{Error, failure, Result, ok, err}

pub data Verdict : Type 0 where
  ready continue unknown : Verdict
  unlisted : String → Verdict

pub data Outcome : Type 0 where
  ready continue blocked : Outcome

pub record Grant : Type 0 where
  pub capabilities : List String
  pub actions : List String

pub record WorkProposal : Type 0 where
  pub kind : String
  pub required_capabilities : List String
  pub authority_ceiling : List String
  pub proposed_actions : List String

pub record Assessment : Type 0 where
  pub verdict : Verdict
  pub reason : String
  pub evidence_ids : List String
  pub next : Option WorkProposal

pub record Limits : Type 0 where
  pub max_steps : ℤ
  pub remaining_budget : ℤ

pub record Input : Type 0 where
  pub assessment : Assessment
  pub grant : Grant
  pub limits : Limits
  pub completed_steps : ℤ
  pub progress_signature : String
  pub previous_progress_signature : String

pub record Decision : Type 0 where
  pub outcome : Outcome
  pub reason : String
  pub next : Option WorkProposal

-- The set that the loop builds is read by its elements.
unfoldable pub is_subset : List String → List String → Bool
is_subset [] allowed = true
is_subset (x ∷ xs) allowed = if has_string allowed x then is_subset xs allowed else false

-- The copy shares nothing with its argument; its value is the same.
clone_proposal : Option WorkProposal → Option WorkProposal
clone_proposal none = none
clone_proposal (some p) = some p

unfoldable pub some_blank : List String → Bool
some_blank [] = false
some_blank (x ∷ xs) = if trim_space x == "" then true else some_blank xs

-- The `Continue` case, once the next work is known to be there.
decide_continue : Input → WorkProposal → Result Decision
unfolding clone_proposal
decide_continue input next =
    if trim_space next.kind == ""
    then err (failure "continue assessment must include a next work kind")
    else if not (is_subset next.authority_ceiling input.grant.capabilities)
    then err (failure "next work authority ceiling exceeds grant capabilities")
    else if not (is_subset next.required_capabilities next.authority_ceiling)
    then err (failure "next work required capabilities exceed its authority ceiling")
    else if not (is_subset next.proposed_actions input.grant.actions)
    then err (failure "next work proposed actions exceed grant actions")
    else if leb_ℤ input.limits.max_steps input.completed_steps
    then ok (record { outcome = Outcome.blocked; reason = "maximum steps exhausted"; next = none })
    else if leb_ℤ input.limits.remaining_budget (pos 0)
    then ok
        (record { outcome = Outcome.blocked; reason = "remaining budget exhausted"; next = none })
    else if not (input.progress_signature == "")
        && (input.progress_signature == input.previous_progress_signature)
    then ok (record { outcome = Outcome.blocked; reason = "no progress detected"; next = none })
    else ok (record {
      outcome = Outcome.continue;
      reason = input.assessment.reason;
      next = clone_proposal (some next);
    })

decide_verdict : Input → Verdict → Option WorkProposal → Result Decision
unfolding decide_continue
decide_verdict input Verdict.ready (some next) =
    err (failure "ready assessment cannot include next work")
decide_verdict input Verdict.ready none =
    ok (record { outcome = Outcome.ready; reason = input.assessment.reason; next = none })
decide_verdict input Verdict.unknown _ =
    ok (record { outcome = Outcome.blocked; reason = input.assessment.reason; next = none })
decide_verdict input Verdict.continue none =
    err (failure "continue assessment must include a next work kind")
decide_verdict input Verdict.continue (some next) = decide_continue input next
decide_verdict input (Verdict.unlisted _) _ = err (failure "invalid assessment verdict")

unfoldable pub has_evidence : List String → Bool
has_evidence [] = false
has_evidence (x ∷ xs) = true

unfoldable pub decide : Input → Result Decision
unfolding decide_verdict some_blank has_evidence
decide input =
    if not (has_evidence input.assessment.evidence_ids)
    then err (failure "assessment must include evidence")
    else if some_blank input.assessment.evidence_ids
    then err (failure "assessment evidence ID must not be blank")
    else decide_verdict input input.assessment.verdict input.assessment.next
