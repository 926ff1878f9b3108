-- ===== src/Operations/Plan.antt =====
-- internal/operations/service.go: Prepare, with what it reads and decides before its transaction.
use meeseek_collective.Common.{true, false, ◌&&◌, ◌||◌, not, List, String, ◌==◌}
use meeseek_collective.Common.Int.{pos, leb_ℤ}
use meeseek_collective.Common.Text.{trim_space}
use meeseek_collective.Common.Sets.{normalize}
use meeseek_collective.Common.Result.{policy_denied, failure, Result, err}
use meeseek_collective.Common.Run.{Run, ◌>>=◌, ◌>>◌, read, commit, stop_if, try, on_error}
use meeseek_collective.Operations.{Operation, Database}
use meeseek_collective.Operations.Policy.{
  Intent, Provider, Providers, Outside, validate_decision_provenance, evaluate_prepare_outcome,
  no_ids, required_approvers_for, has_authority, control_for_attempt, evaluate_policy,
  canonical_intent, provider_for, map_policy_profile_error,
}
use meeseek_collective.Operations.Prepare.{Draws, prepare_in_tx}

pub record PrepareRequest : Type 0 where
  pub attempt : String
  pub provider : String
  pub trusted_key : String
  pub intent : Intent
  pub risk : String
  pub attributes : List (String × String)
  pub required_approvals : List String

unfoldable pub validate_prepare_request : Providers → PrepareRequest → Result Provider
validate_prepare_request providers r =
    elim (r.attempt == "" || trim_space r.provider == "" || trim_space r.trusted_key == "") [
      | true ↦ err (failure "attempt, provider, trusted slot key, and typed intent are required")
      | false ↦ provider_for providers r.provider
    ]

-- `Prepare`: nothing is written before the transaction.
unfoldable pub prepare :
    Outside → Providers → String → Draws → PrepareRequest → Run Database Operation
prepare o providers collective w r = do
  p ← try (validate_prepare_request providers r)
  intent ← try (canonical_intent o p r.intent)
  cost ← try (p.cost_profile r.intent)
  stop_if (leb_ℤ cost.max_exposure (pos 0))
      (failure "provider cost profile must declare positive maximum exposure")
  control ← read (control_for_attempt r.attempt)
  decision ← try (
      evaluate_policy o p (record {
        now = w.now;
        risk = r.risk;
        authority_valid = has_authority p control;
        task = control.task;
        attempt = r.attempt;
        descriptor_type = r.intent.descriptor_type;
        phase = "PREPARE";
        attributes = r.attributes;
      }))
  try (validate_decision_provenance decision w.now)
  approval ← try (evaluate_prepare_outcome decision)
  stop_if
      ((approval || not (no_ids (normalize r.required_approvals)))
        && no_ids (required_approvers_for decision (normalize r.required_approvals)))
      policy_denied
  on_error map_policy_profile_error (
      commit (
        prepare_in_tx o collective w
          (record {
            attempt = r.attempt;
            trusted_key = r.trusted_key;
            risk = r.risk;
            kind = r.intent.descriptor_type;
            canonical = intent.0;
            fingerprint = intent.1;
            cost = cost;
            caller = normalize r.required_approvals;
            decision = decision;
          })
          p control.task))
