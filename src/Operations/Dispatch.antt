-- ===== src/Operations/Dispatch.antt =====
-- internal/operations/service.go: Dispatch, from the load of the operation to the record of its outcome.
-- An error drops the operation that Go returns beside it.
use meeseek_collective.Common.{ℕ, Bool, true, false, ◌||◌, not, none, some, [], String, ◌==◌}
use meeseek_collective.Common.Rows.{find}
use meeseek_collective.Common.Result.{stale_attempt, policy_denied, failure, Result, ok, err}
use meeseek_collective.Common.Run.{
  Run, ◌>>=◌, ◌>>◌, return, fail, try, stop_if, read, commit, on_error,
}
use meeseek_collective.Domain.{OperationState}
use meeseek_collective.Operations.{
  Operation, ProviderOutcome, Database, slot_key, load_operation, settle_outcome, cancel_prepared,
  guard_attempt_for_task,
}
use meeseek_collective.Operations.Policy.{
  Provider, Providers, PolicyDecision, Outside, validate_decision_provenance,
  validate_dispatch_outcome, has_authority, control_for_attempt, evaluate_policy, provider_for,
  map_policy_profile_error,
}
use meeseek_collective.Operations.Claim.{ClaimDraws, commit_dispatch}
use meeseek_collective.Operations.Reconcile.{OutcomeDraws, stay_unknown, reconcile}

pub record DispatchDraws : Type 0 where
  pub claim : ClaimDraws
  pub outcome : OutcomeDraws
  pub cancelled : String
  pub cancelled_at : ℕ
  pub cancel_guarded_at : ℕ
  pub guarded_at : ℕ

unfoldable pub descriptor_type_of : String → Database → Result (String × Database)
descriptor_type_of slot s = elim (find slot s.slots) [
  | some x ↦ ok (x.descriptor_type, s)
  | none ↦ err (failure "load descriptor type for effect slot")
]

abbrev pub is_failed : Result (Unit {0}) → Bool
is_failed (ok u) = false
is_failed (err e) = true

-- What the provider has answered to the dispatch.
unfoldable pub record_dispatch_as :
    OutcomeDraws → String → ProviderOutcome → OperationState → Run Database Operation
record_dispatch_as w id outcome OperationState.confirmed_effect =
    commit (settle_outcome w.settled w.settled_at id outcome)
record_dispatch_as w id outcome OperationState.confirmed_no_effect =
    commit (settle_outcome w.settled w.settled_at id outcome)
record_dispatch_as w id outcome _ = stay_unknown w.marked w.marked_at id

unfoldable pub record_dispatch :
    OutcomeDraws → String → Result ProviderOutcome → Run Database Operation
record_dispatch w id (err e) = stay_unknown w.marked w.marked_at id
record_dispatch w id (ok outcome) = record_dispatch_as w id outcome outcome.state

-- The operation is cancelled, and the dispatch refused.
unfoldable pub refuse_dispatch : DispatchDraws → Operation → String → Run Database Operation
refuse_dispatch w op attempt = do
  commit (cancel_prepared w.cancelled w.cancelled_at w.cancel_guarded_at op attempt)
  cancelled ← read (load_operation op.id)
  fail policy_denied

-- The claim is committed first; only then is the provider called.
unfoldable pub send :
    Outside
    → DispatchDraws
    → Provider
    → PolicyDecision
    → String
    → Operation
    → String
    → Run Database Operation
send o w p d kind op attempt = do
  request ←
      on_error map_policy_profile_error
        (commit (commit_dispatch o w.claim p d kind op.task op.id attempt))
  record_dispatch w.outcome op.id (p.dispatch request)

-- A dispatch that the policy or the authority of the task does not allow any more is refused.
unfoldable pub dispatch_unless :
    Outside
    → DispatchDraws
    → Provider
    → PolicyDecision
    → String
    → Operation
    → String
    → Bool
    → Run Database Operation
dispatch_unless o w p d kind op attempt true = refuse_dispatch w op attempt
dispatch_unless o w p d kind op attempt false = send o w p d kind op attempt

unfoldable pub dispatch_prepared :
    Outside → Providers → DispatchDraws → Operation → String → Run Database Operation
dispatch_prepared o providers w op attempt = do
  p ← try (provider_for providers op.provider)
  control ← read (control_for_attempt attempt)
  stop_if (not (control.task == op.task)) stale_attempt
  kind ← read (descriptor_type_of op.slot)
  d ← try (
      evaluate_policy o p (record {
        now = w.claim.now;
        risk = op.risk;
        authority_valid = has_authority p control;
        task = op.task;
        attempt = attempt;
        descriptor_type = kind;
        phase = "DISPATCH";
        attributes = [];
      }))
  dispatch_unless o w p d kind op attempt (
      is_failed (validate_decision_provenance d w.claim.now)
      || is_failed (validate_dispatch_outcome d)
      || not (has_authority p control))

-- An effect that may have been sent is never sent again: its outcome is looked up.
unfoldable pub resume :
    Providers → DispatchDraws → String → String → Operation → Run Database Operation
resume providers w id attempt op = do
  commit (guard_attempt_for_task w.guarded_at attempt op.task)
  reconcile w.outcome providers id

-- The `switch` on the state of the operation.
unfoldable pub dispatch_by :
    Outside
    → Providers
    → DispatchDraws
    → String
    → String
    → Operation
    → OperationState
    → Run Database Operation
dispatch_by o providers w id attempt op OperationState.confirmed_effect = return op
dispatch_by o providers w id attempt op OperationState.confirmed_no_effect = return op
dispatch_by o providers w id attempt op OperationState.cancelled =
    fail (failure "cancelled operation cannot be dispatched")
dispatch_by o providers w id attempt op OperationState.dispatched = resume providers w id attempt op
dispatch_by o providers w id attempt op OperationState.outcome_unknown =
    resume providers w id attempt op
dispatch_by o providers w id attempt op OperationState.prepared = do
  stop_if (not (op.attempt == attempt)) stale_attempt
  dispatch_prepared o providers w op attempt
dispatch_by o providers w id attempt op (OperationState.unlisted _) =
    fail (failure "unsupported operation state")

unfoldable pub dispatch :
    Outside → Providers → DispatchDraws → String → String → Run Database Operation
dispatch o providers w id attempt = do
  stop_if (id == "" || attempt == "") (failure "operation id and current attempt id are required")
  op ← read (load_operation id)
  dispatch_by o providers w id attempt op op.state
