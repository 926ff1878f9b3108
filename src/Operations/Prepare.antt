-- ===== src/Operations/Prepare.antt =====
-- internal/operations/service.go: the transaction of Prepare. The fresh identifiers and the readings of the
-- clock are arguments.
use meeseek_collective.Common.{
  ℕ, ◌+◌, Bool, true, false, ◌&&◌, not, Option, none, some, List, [], ◌∷◌, String, ◌==◌,
  if◌then◌else◌, ltb,
}
use meeseek_collective.Common.Text.{trim_space}
use meeseek_collective.Common.Sets.{normalize}
use meeseek_collective.Common.Rows.{insert}
use meeseek_collective.Common.Result.{
  stale_attempt, policy_denied, constraint_failed, failure, ok, err, Tx, ◌>>=◌, ◌>>◌, pure, raise,
  reject_if, gets, lift,
}
use meeseek_collective.Domain.{OperationState, TaskState}
use meeseek_collective.Resources.{Reservation, reserve_in_tx, release_in_tx}
use meeseek_collective.Execution.State.{Guarded}
use meeseek_collective.Execution.Lease.{guard_attempt}
use meeseek_collective.Operations.{
  Provenance, Operation, EffectSlot, PolicySet, Database, operation_key, slot_key, on_ledger,
  on_store, update_operation, load_operation, cancel_operation, append_operation_event,
}
use meeseek_collective.Operations.Policy.{
  CostProfile, Provider, PolicyDecision, TaskControl, Outside, validate_decision_provenance,
  evaluate_prepare_outcome, has_authority, load_task_control_tx, provenance_of,
}
use meeseek_collective.Operations.Slots.{resolve_effect_slot}
use meeseek_collective.Operations.Gate.{prepare_approval_in_tx, prepared_approval_matches_in_tx}

-- What a call draws: identifiers, and the readings of the clock, `now` before the transaction.
pub record Draws : Type 0 where
  pub operation : String
  pub slot : String
  pub reservation : String
  pub approval : String
  pub event : String
  pub now : ℕ
  pub guarded_at : ℕ
  pub released_at : ℕ
  pub reserved_at : ℕ
  pub requested_at : ℕ

-- `ORDER BY operation_sequence DESC LIMIT 1`
abbrev pub later_of : Operation → Option Operation → Option Operation
later_of o none = some o
later_of o (some x) = if ltb x.sequence o.sequence then some o else some x

unfoldable pub latest_for_slot : String → List Operation → Option Operation
latest_for_slot slot [] = none
latest_for_slot slot (o ∷ os) =
    if o.slot == slot then later_of o (latest_for_slot slot os) else latest_for_slot slot os

abbrev pub sequence_of : Option Operation → ℕ
sequence_of none = 0
sequence_of (some o) = o.sequence

unfoldable pub next_operation_sequence : String → List Operation → ℕ
next_operation_sequence slot os = sequence_of (latest_for_slot slot os) + 1

-- The trigger on a new operation: the policy set that it was decided under is active.
unfoldable pub is_active_profile : Provenance → List PolicySet → Bool
is_active_profile v [] = false
is_active_profile v (p ∷ ps) =
    if p.active
      && p.id == v.policy_set
      && p.policy_hash == v.policy_set_hash
      && p.capabilities_hash == v.capabilities_hash
    then true
    else is_active_profile v ps

unfoldable pub insert_operation : Operation → Tx Database (Unit {0})
insert_operation o s = elim (is_active_profile o.prepared_under s.policies) [
  | false ↦ err (failure "SUMMA42_POLICY_PROFILE_INACTIVE")
  | true ↦ elim (insert o s.operations) [
    | some rows ↦ ok (tt, record s { operations = rows })
    | none ↦ err constraint_failed
  ]
]

-- What is settled before the transaction.
pub record Prepared : Type 0 where
  pub attempt : String
  pub trusted_key : String
  pub risk : String
  pub kind : String
  pub canonical : String
  pub fingerprint : String
  pub cost : CostProfile
  pub caller : List String
  pub decision : PolicyDecision

unfoldable pub new_operation :
    Draws → Prepared → Provider → Guarded → EffectSlot → Reservation → ℕ → Operation
new_operation w q p g slot r sequence = record {
  id = w.operation;
  task = g.task;
  attempt = q.attempt;
  slot = slot.id;
  sequence = sequence;
  state = OperationState.prepared;
  intent_fingerprint = q.fingerprint;
  intent_revision = slot.intent_revision;
  provider = p.name;
  adapter_version = p.adapter_version;
  provider_reference = "";
  reservation = r.id;
  risk = trim_space q.risk;
  prepared_under = provenance_of q.decision;
  dispatched_under = none;
  dispatcher_claim = none;
  approval = "";
  caller_required = normalize q.caller;
  cancel_requested = false;
  created_at = w.now;
  dispatched_at = none;
  reconciliation_required = false;
  actual_cost = none;
  settled_at = none;
}

-- A new operation with its reservation and, where one is required, its approval.
unfoldable pub open_operation :
    Outside
    → Draws
    → Prepared
    → Provider
    → Guarded
    → TaskControl
    → EffectSlot
    → Tx Database Operation
open_operation o w q p g c slot = do
  r ← on_ledger (
      reserve_in_tx w.reservation w.reserved_at c.resource_envelope q.cost.max_exposure
        q.cost.enforceability)
  sequence ← gets (λ s. next_operation_sequence slot.id s.operations)
  let op = new_operation w q p g slot r sequence
  approval ←
      prepare_approval_in_tx o w.approval w.requested_at op g.lease_expires_at q.decision q.caller p
        q.kind q.canonical
  insert_operation (record op { approval = approval })
  append_operation_event w.event g.task q.attempt "OPERATION_PREPARED" w.now
  pure (record op { approval = approval })

-- A preparation that no longer fits is cancelled before another takes its place.
unfoldable pub replace_operation :
    Outside
    → Draws
    → Prepared
    → Provider
    → Guarded
    → TaskControl
    → EffectSlot
    → Operation
    → Tx Database Operation
replace_operation o w q p g c slot old = do
  on_ledger (release_in_tx w.released_at old.reservation)
  update_operation old.id (cancel_operation w.now)
  open_operation o w q p g c slot

unfoldable pub keep_or_replace :
    Outside
    → Draws
    → Prepared
    → Provider
    → Guarded
    → TaskControl
    → EffectSlot
    → Operation
    → Bool
    → Tx Database Operation
keep_or_replace o w q p g c slot old true = pure old
keep_or_replace o w q p g c slot old false = replace_operation o w q p g c slot old

unfoldable pub reuse_or_replace :
    Outside
    → Draws
    → Prepared
    → Provider
    → Guarded
    → TaskControl
    → EffectSlot
    → Operation
    → Tx Database Operation
reuse_or_replace o w q p g c slot old = elim (old.attempt == q.attempt) [
  | false ↦ replace_operation o w q p g c slot old
  | true ↦ do
    matches ← prepared_approval_matches_in_tx o old q.decision q.caller p q.kind q.canonical
    keep_or_replace o w q p g c slot old matches
]

-- The `switch` on the state of the latest operation of the slot.
unfoldable pub continue_by :
    Outside
    → Draws
    → Prepared
    → Provider
    → Guarded
    → TaskControl
    → EffectSlot
    → Operation
    → OperationState
    → Tx Database Operation
continue_by o w q p g c slot old OperationState.dispatched = pure old
continue_by o w q p g c slot old OperationState.outcome_unknown = pure old
continue_by o w q p g c slot old OperationState.confirmed_effect = pure old
continue_by o w q p g c slot old OperationState.prepared = reuse_or_replace o w q p g c slot old
continue_by o w q p g c slot old OperationState.confirmed_no_effect =
    open_operation o w q p g c slot
continue_by o w q p g c slot old OperationState.cancelled = open_operation o w q p g c slot
continue_by o w q p g c slot old (OperationState.unlisted _) =
    raise (failure "unsupported previous operation state")

unfoldable pub prepare_after :
    Outside
    → Draws
    → Prepared
    → Provider
    → Guarded
    → TaskControl
    → EffectSlot
    → Option Operation
    → Tx Database Operation
prepare_after o w q p g c slot none = open_operation o w q p g c slot
prepare_after o w q p g c slot (some old) = do
  row ← load_operation old.id
  continue_by o w q p g c slot row row.state

unfoldable pub prepare_slot :
    Outside
    → Draws
    → Prepared
    → Provider
    → Guarded
    → TaskControl
    → EffectSlot
    → Tx Database Operation
prepare_slot o w q p g c slot = do
  latest ← gets (λ s. latest_for_slot slot.id s.operations)
  prepare_after o w q p g c slot latest

unfoldable pub prepare_in_tx :
    Outside → String → Draws → Prepared → Provider → String → Tx Database Operation
prepare_in_tx o collective w q p task = do
  g ← on_store (guard_attempt w.guarded_at q.attempt (TaskState.executing ∷ []))
  reject_if (not (g.task == task)) stale_attempt
  c ← load_task_control_tx g.task
  reject_if (not (has_authority p c)) policy_denied
  lift (validate_decision_provenance q.decision w.now)
  lift (evaluate_prepare_outcome q.decision)
  slot ←
      resolve_effect_slot collective w.slot g.task q.trusted_key p q.kind q.fingerprint q.canonical
  prepare_slot o w q p g c slot
