-- ===== src/Operations.antt =====
-- internal/operations/service.go: the outcome of an operation with an external effect, which settles its
-- reservation. The database joins the tables of the ledger and of the execution service.
pub mod Policy
pub mod Gate
pub mod Slots
pub mod Prepare
pub mod Plan
pub mod Claim
pub mod Reconcile
pub mod Dispatch
pub mod Quiet
pub mod Moves
pub mod Safe
pub mod Unmoved
pub mod Calls
pub mod Committed
pub mod Preserved
pub mod Runs
pub mod Traces
pub mod Methods
pub mod Recovery
pub mod Settlement
pub mod Recorded
pub mod Outcome
pub mod Cancelled
pub mod Departure
pub mod Silent
mod Examples
mod Trials
use meeseek_collective.Common.{
  ℕ, Bool, true, false, ◌&&◌, ◌||◌, not, Option, none, some, List, [], ◌∷◌, String, ◌==◌, nat_eq,
}
use meeseek_collective.Common.Int.{ℤ, pos, pos_part, ltb_ℤ}
use meeseek_collective.Common.Text.{trim_space}
use meeseek_collective.Common.Rows.{Keyed, find, update}
use meeseek_collective.Common.Result.{
  stale_attempt, failure, ok, err, Tx, ◌>>=◌, ◌>>◌, pure, raise, reject_if, or_raise, gets, zoom,
  with_tx,
}
use meeseek_collective.Domain.{OperationState, TaskState}
use meeseek_collective.Resources.{Ledger, settle_in_tx, mark_unresolved_in_tx, release_in_tx}
use meeseek_collective.Approvals.Requests.{Registry}
use meeseek_collective.Execution.State.{Store, Guarded, append_event}
use meeseek_collective.Execution.Lease.{guard_attempt}

-- What a policy decision leaves on an operation.
pub record Provenance : Type 0 where
  pub decision : String
  pub policy_set : String
  pub policy_set_hash : String
  pub capabilities_hash : String

-- A row of external_operations.
pub record Operation : Type 0 where
  pub id : String
  pub task : String
  pub attempt : String
  pub slot : String
  pub sequence : ℕ
  pub state : OperationState
  pub intent_fingerprint : String
  pub intent_revision : ℕ
  pub provider : String
  pub adapter_version : String
  pub provider_reference : String
  pub reservation : String
  pub risk : String
  pub prepared_under : Provenance
  pub dispatched_under : Option Provenance
  pub dispatcher_claim : Option String
  pub approval : String
  pub caller_required : List String
  pub cancel_requested : Bool
  pub created_at : ℕ
  pub dispatched_at : Option ℕ
  pub reconciliation_required : Bool
  pub actual_cost : Option ℕ
  pub settled_at : Option ℕ

-- A row of effect_slots: one intended effect of a task under a trusted key.
pub record EffectSlot : Type 0 where
  pub id : String
  pub collective : String
  pub task : String
  pub trusted_key : String
  pub provider : String
  pub descriptor_type : String
  pub intent_fingerprint : String
  pub intent_revision : ℕ
  pub canonical_intent : String
  pub adapter_version : String
  pub adapter_semantic : Bool

-- A row of policy_sets.
pub record PolicySet : Type 0 where
  pub id : String
  pub policy_hash : String
  pub capabilities_hash : String
  pub active : Bool

pub record ProviderOutcome : Type 0 where
  pub state : OperationState
  pub provider_reference : String
  pub actual_cost : ℤ

pub record Database : Type 0 where
  pub ledger : Ledger
  pub store : Store
  pub registry : Registry
  pub policies : List PolicySet
  pub slots : List EffectSlot
  pub operations : List Operation

instance abbrev pub operation_key : Keyed Operation
operation_key = record { key = λ o. o.id }

abbrev pub on_ledger : {A : Type 0} → Tx Ledger A → Tx Database A
on_ledger = zoom (λ s. s.ledger) (λ l s. record s { ledger = l })

abbrev pub on_store : {A : Type 0} → Tx Store A → Tx Database A
on_store = zoom (λ s. s.store) (λ x s. record s { store = x })

abbrev pub on_registry : {A : Type 0} → Tx Registry A → Tx Database A
on_registry = zoom (λ s. s.registry) (λ r s. record s { registry = r })

instance abbrev pub slot_key : Keyed EffectSlot
slot_key = record { key = λ x. x.id }

abbrev pub is_confirmed : OperationState → Bool
is_confirmed OperationState.confirmed_effect = true
is_confirmed OperationState.confirmed_no_effect = true
is_confirmed _ = false

-- The effect may have happened, and its outcome is open.
abbrev pub is_in_flight : OperationState → Bool
is_in_flight OperationState.dispatched = true
is_in_flight OperationState.outcome_unknown = true
is_in_flight _ = false

abbrev pub is_prepared : OperationState → Bool
is_prepared OperationState.prepared = true
is_prepared _ = false

-- `current.State == outcome.State`, for an outcome that is confirmed.
abbrev pub same_confirmed : OperationState → OperationState → Bool
same_confirmed OperationState.confirmed_effect OperationState.confirmed_effect = true
same_confirmed OperationState.confirmed_no_effect OperationState.confirmed_no_effect = true
same_confirmed _ _ = false

abbrev pub same_cost : Option ℕ → ℤ → Bool
same_cost none actual = false
same_cost (some n) actual = nat_eq n (pos_part actual)

abbrev pub load_operation : String → Tx Database Operation
load_operation id s = elim (find id s.operations) [
  | some o ↦ ok (o, s)
  | none ↦ err (failure "operation not found")
]

abbrev pub update_operation : String → (Operation → Operation) → Tx Database (Unit {0})
update_operation id f s = ok (tt, record s { operations = update id f s.operations })

unfoldable pub append_operation_event :
    String → String → String → String → ℕ → Tx Database (Unit {0})
append_operation_event event task attempt kind now = on_store (
    append_event
      (record { id = event; task = task; attempt = some attempt; kind = kind; at = now }))

abbrev pub settle_operation : ProviderOutcome → ℕ → Operation → Operation
settle_operation outcome now o = record o {
  state = outcome.state;
  provider_reference = trim_space outcome.provider_reference;
  reconciliation_required = false;
  actual_cost = some (pos_part outcome.actual_cost);
  settled_at = some now;
}

-- The first settlement, of an operation whose outcome is open.
unfoldable pub settle_open : String → ℕ → ProviderOutcome → Operation → Tx Database Operation
settle_open event now outcome o = do
  reject_if (not (is_in_flight o.state)) (failure "cannot settle operation")
  on_ledger (settle_in_tx now o.reservation outcome.actual_cost)
  update_operation o.id (settle_operation outcome now)
  append_operation_event event o.task o.attempt "OPERATION_OUTCOME_SETTLED" now
  pure (settle_operation outcome now o)

-- A settlement that is repeated has to agree with the one that is stored.
unfoldable pub settle_repeated : ProviderOutcome → Operation → Tx Database Operation
settle_repeated outcome o = do
  reject_if
      (not (same_cost o.actual_cost outcome.actual_cost)
        || not (o.provider_reference == trim_space outcome.provider_reference))
      (failure "conflicting repeated operation settlement")
  pure o

unfoldable pub settle_outcome : String → ℕ → String → ProviderOutcome → Tx Database Operation
settle_outcome event now id outcome = do
  reject_if (not (is_confirmed outcome.state))
      (failure "settlement requires confirmed effect or confirmed no-effect")
  reject_if (ltb_ℤ outcome.actual_cost (pos 0)) (failure "actual cost cannot be negative")
  o ← load_operation id
  elim (same_confirmed o.state outcome.state) [
    | true ↦ settle_repeated outcome o
    | false ↦ settle_open event now outcome o
  ]

abbrev pub suspend_operation : Operation → Operation
suspend_operation o = record o {
  state = OperationState.outcome_unknown;
  reconciliation_required = true;
}

unfoldable pub mark_open : String → ℕ → Operation → Tx Database Operation
mark_open event now o = do
  reject_if (not (is_in_flight o.state)) (failure "cannot mark operation unknown")
  on_ledger (mark_unresolved_in_tx now o.reservation)
  update_operation o.id suspend_operation
  append_operation_event event o.task o.attempt "OPERATION_OUTCOME_UNKNOWN" now
  pure (record o { state = OperationState.outcome_unknown })

unfoldable pub mark_unknown : String → ℕ → String → Tx Database Operation
mark_unknown event now id = do
  o ← load_operation id
  elim (is_confirmed o.state) [ true ↦ pure o | false ↦ mark_open event now o ]

abbrev pub cancel_operation : ℕ → Operation → Operation
cancel_operation now o = elim (is_prepared o.state) [
  | true ↦ record o { state = OperationState.cancelled; settled_at = some now }
  | false ↦ o
]

unfoldable pub cancel_open : String → ℕ → Operation → Tx Database (Unit {0})
cancel_open event now o = do
  on_ledger (release_in_tx now o.reservation)
  update_operation o.id (cancel_operation now)
  append_operation_event event o.task o.attempt "OPERATION_CANCELLED_BEFORE_DISPATCH" now

-- `cancelPrepared`: `now` is its own reading of the clock, `later` that of the guard.
unfoldable pub cancel_prepared : String → ℕ → ℕ → Operation → String → Tx Database (Unit {0})
cancel_prepared event now later o attempt = do
  guarded ← on_store (guard_attempt later attempt (TaskState.executing ∷ []))
  reject_if (not (guarded.task == o.task)) stale_attempt
  current ← load_operation o.id
  elim (is_prepared current.state) [ true ↦ cancel_open event now current | false ↦ pure tt ]

unfoldable pub guard_attempt_for_task : ℕ → String → String → Tx Database (Unit {0})
guard_attempt_for_task now attempt task = do
  guarded ← on_store (guard_attempt now attempt (TaskState.executing ∷ []))
  reject_if (not (guarded.task == task)) stale_attempt
