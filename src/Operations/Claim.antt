-- ===== src/Operations/Claim.antt =====
-- internal/operations/service.go: the transaction of Dispatch, which commits an operation to its dispatch
-- before its provider is called.
use meeseek_collective.Common.{
  ℕ, Bool, true, false, ◌&&◌, ◌||◌, not, Option, none, some, List, [], ◌∷◌, String, ◌==◌,
  if◌then◌else◌, nat_eq,
}
use meeseek_collective.Common.Sets.{normalize}
use meeseek_collective.Common.Rows.{find, changed}
use meeseek_collective.Common.Result.{
  stale_attempt, policy_denied, intent_conflict, no_rows, constraint_failed, failure, Tx, ◌>>=◌,
  ◌>>◌, pure, reject_if, or_raise, gets, lift,
}
use meeseek_collective.Domain.{ReservationState, OperationState, TaskState, held}
use meeseek_collective.Resources.{reservation_key}
use meeseek_collective.Execution.Lease.{guard_attempt}
use meeseek_collective.Operations.{
  Operation, EffectSlot, Database, operation_key, slot_key, on_store, is_prepared, load_operation,
  update_operation, append_operation_event,
}
use meeseek_collective.Operations.Policy.{
  DispatchRequest, Provider, PolicyDecision, Outside, validate_decision_provenance,
  validate_dispatch_outcome, has_authority, load_task_control_tx, provenance_of,
}
use meeseek_collective.Operations.Gate.{validate_and_consume_approval_in_tx}
use meeseek_collective.Operations.Prepare.{is_active_profile}

-- The fresh claim and event, and the readings of the clock, `now` before the transaction.
pub record ClaimDraws : Type 0 where
  pub claim : String
  pub event : String
  pub now : ℕ
  pub guarded_at : ℕ
  pub consumed_at : ℕ

abbrev pub is_held : ReservationState → Bool
is_held held = true
is_held _ = false

abbrev pub is_unclaimed : Option String → Bool
is_unclaimed none = true
is_unclaimed (some _) = false

-- `WHERE state = 'PREPARED' AND dispatcher_claim IS NULL AND cancel_requested = 0`
abbrev pub is_dispatchable : Operation → Bool
is_dispatchable o = is_prepared o.state && is_unclaimed o.dispatcher_claim && not o.cancel_requested

abbrev pub dispatch_operation : String → PolicyDecision → ℕ → Operation → Operation
dispatch_operation claim d now o = elim (is_dispatchable o) [
  | true ↦ record o {
    state = OperationState.dispatched;
    dispatcher_claim = some claim;
    dispatched_under = some (provenance_of d);
    dispatched_at = some now;
  }
  | false ↦ o
]

abbrev pub claims : String → Option String → Bool
claims claim none = false
claims claim (some c) = c == claim

-- The unique index on `dispatcher_claim`.
unfoldable pub claim_taken : String → List Operation → Bool
claim_taken claim [] = false
claim_taken claim (o ∷ os) = if claims claim o.dispatcher_claim then true else claim_taken claim os

-- The `UPDATE`, with the trigger and the unique index that a row it changes meets.
unfoldable pub claim_operation : String → PolicyDecision → ℕ → String → Tx Database (Unit {0})
claim_operation claim d now id = do
  rows ← gets (λ s. changed id is_dispatchable s.operations)
  active ← gets (λ s. is_active_profile (provenance_of d) s.policies)
  taken ← gets (λ s. claim_taken claim s.operations)
  reject_if (not (nat_eq rows 0) && not active) (failure "SUMMA42_POLICY_PROFILE_INACTIVE")
  reject_if (not (nat_eq rows 0) && taken) constraint_failed
  reject_if (not (nat_eq rows 1)) stale_attempt
  update_operation id (dispatch_operation claim d now)

-- The join of the operation with its reservation and its slot.
unfoldable pub check_reserved : Operation → Tx Database EffectSlot
check_reserved op = do
  reserved ← gets (λ s. find op.reservation s.ledger.reservations)
  r ← or_raise reserved no_rows
  bound ← gets (λ s. find op.slot s.slots)
  slot ← or_raise bound no_rows
  reject_if (op.cancel_requested || not (is_held r.state)) policy_denied
  reject_if
      (not (slot.intent_fingerprint == op.intent_fingerprint)
        || not (nat_eq slot.intent_revision op.intent_revision))
      intent_conflict
  pure slot

-- The attempt holds the task of the operation, and the provider has the task's authority.
unfoldable pub check_authority : ℕ → Provider → String → String → Tx Database (Unit {0})
check_authority guarded_at p attempt task = do
  g ← on_store (guard_attempt guarded_at attempt (TaskState.executing ∷ []))
  reject_if (not (g.task == task)) stale_attempt
  c ← load_task_control_tx g.task
  reject_if (not (has_authority p c)) policy_denied

unfoldable pub load_prepared : String → String → Tx Database Operation
load_prepared id attempt = do
  current ← load_operation id
  reject_if (not (is_prepared current.state) || not (current.attempt == attempt)) stale_attempt
  pure current

abbrev pub request_for : Operation → EffectSlot → DispatchRequest
request_for op slot = record {
  operation = op.id;
  task = op.task;
  slot = op.slot;
  intent_fingerprint = op.intent_fingerprint;
  intent_revision = op.intent_revision;
  canonical_intent = slot.canonical_intent;
}

-- The part of the transaction that follows the load: `kind` is the descriptor's type as it was read before.
unfoldable pub commit_reserved :
    Outside
    → ClaimDraws
    → Provider
    → PolicyDecision
    → String
    → String
    → Operation
    → Tx Database EffectSlot
commit_reserved o w p d kind id current = do
  slot ← check_reserved current
  validate_and_consume_approval_in_tx o w.consumed_at current d (normalize current.caller_required)
      p kind slot.canonical_intent
  claim_operation w.claim d w.now id
  append_operation_event w.event current.task current.attempt "OPERATION_DISPATCH_COMMITTED" w.now
  pure slot

unfoldable pub commit_dispatch :
    Outside
    → ClaimDraws
    → Provider
    → PolicyDecision
    → String
    → String
    → String
    → String
    → Tx Database DispatchRequest
commit_dispatch o w p d kind task id attempt = do
  check_authority w.guarded_at p attempt task
  lift (validate_decision_provenance d w.now)
  lift (validate_dispatch_outcome d)
  current ← load_prepared id attempt
  slot ← commit_reserved o w p d kind id current
  pure (request_for current slot)
