-- ===== src/Operations/Reconcile.antt =====
-- internal/operations: reconcile of service.go, which asks the provider for the outcome and never sends
-- anything, and ReconcilePending of reconciler.go.
use Prim.Native.Nat.{Ordering, compare}
use Prim.Native.String.{compare as string_compare}
use meeseek_collective.Common.{
  ℕ, Bool, true, false, none, some, List, [], ◌∷◌, String, if◌then◌else◌,
}
use meeseek_collective.Common.Rows.{find}
use meeseek_collective.Common.Result.{Error, outcome_unknown, no_rows, failure, Result, ok, err}
use meeseek_collective.Common.Run.{Run, ◌>>=◌, return, fail, try, read, commit}
use meeseek_collective.Domain.{OperationState}
use meeseek_collective.Operations.{
  Operation, ProviderOutcome, Database, operation_key, slot_key, load_operation, mark_unknown,
  settle_outcome,
}
use meeseek_collective.Operations.Policy.{DispatchRequest, Providers, provider_for}
use meeseek_collective.Operations.Claim.{request_for}

-- The events and the readings of the clock of one reconciliation: its first mark, its second, and the
-- settlement.
pub record OutcomeDraws : Type 0 where
  pub marked : String
  pub marked_at : ℕ
  pub remarked : String
  pub remarked_at : ℕ
  pub settled : String
  pub settled_at : ℕ

-- The operation with its slot.
unfoldable pub provider_request : String → Database → Result (DispatchRequest × Database)
provider_request id s = elim (find id s.operations) [
  | none ↦ err no_rows
  | some op ↦ elim (find op.slot s.slots) [
    | none ↦ err no_rows
    | some slot ↦ ok (request_for op slot, s)
  ]
]

-- The outcome stays unknown: it is recorded as such, and reported.
unfoldable pub stay_unknown : String → ℕ → String → Run Database Operation
stay_unknown event now id = do op ← commit (mark_unknown event now id); fail outcome_unknown

-- What a lookup has answered.
unfoldable pub record_lookup_as :
    OutcomeDraws → String → ProviderOutcome → OperationState → Run Database Operation
record_lookup_as w id outcome OperationState.outcome_unknown =
    stay_unknown w.remarked w.remarked_at id
record_lookup_as w id outcome OperationState.confirmed_effect =
    commit (settle_outcome w.settled w.settled_at id outcome)
record_lookup_as w id outcome OperationState.confirmed_no_effect =
    commit (settle_outcome w.settled w.settled_at id outcome)
record_lookup_as w id outcome OperationState.prepared = fail outcome_unknown
record_lookup_as w id outcome OperationState.dispatched = fail outcome_unknown
record_lookup_as w id outcome OperationState.cancelled = fail outcome_unknown
record_lookup_as w id outcome (OperationState.unlisted _) = fail outcome_unknown

unfoldable pub record_lookup :
    OutcomeDraws → String → Result ProviderOutcome → Run Database Operation
record_lookup w id (err e) = stay_unknown w.remarked w.remarked_at id
record_lookup w id (ok outcome) = record_lookup_as w id outcome outcome.state

unfoldable pub look_up : OutcomeDraws → Providers → String → Operation → Run Database Operation
look_up w providers id op = do
  p ← try (provider_for providers op.provider)
  request ← read (provider_request id)
  record_lookup w id (p.lookup_outcome request)

-- The `switch` on the state of the operation.
unfoldable pub reconcile_by :
    OutcomeDraws → Providers → String → Operation → OperationState → Run Database Operation
reconcile_by w providers id op OperationState.confirmed_effect = return op
reconcile_by w providers id op OperationState.confirmed_no_effect = return op
reconcile_by w providers id op OperationState.cancelled =
    fail (failure "cancelled operation has no outcome to reconcile")
reconcile_by w providers id op OperationState.prepared =
    fail (failure "prepared operation must be revalidated at dispatch; reconciler will not send it")
reconcile_by w providers id op OperationState.dispatched = do
  marked ← commit (mark_unknown w.marked w.marked_at id)
  look_up w providers id marked
reconcile_by w providers id op OperationState.outcome_unknown = look_up w providers id op
reconcile_by w providers id op (OperationState.unlisted _) =
    fail (failure "unsupported reconciliation state")

unfoldable pub reconcile : OutcomeDraws → Providers → String → Run Database Operation
reconcile w providers id = do op ← read (load_operation id); reconcile_by w providers id op op.state

-- `state = 'DISPATCHED' OR (state = 'OUTCOME_UNKNOWN' AND reconciliation_required = 1)`
unfoldable pub is_pending_outcome : Operation → Bool
is_pending_outcome o = elim o.state [
  | OperationState.dispatched ↦ true
  | OperationState.outcome_unknown ↦ o.reconciliation_required
  | OperationState.prepared ↦ false
  | OperationState.confirmed_effect ↦ false
  | OperationState.confirmed_no_effect ↦ false
  | OperationState.cancelled ↦ false
  | OperationState.unlisted _ ↦ false
]

-- `created_at, operation_id`
unfoldable pub is_before : Operation → Operation → Bool
is_before a b = elim (compare a.created_at b.created_at) [
  | Ordering.lt ↦ true
  | Ordering.gt ↦ false
  | Ordering.eq ↦ elim (string_compare a.id b.id) [
    | Ordering.gt ↦ false
    | Ordering.lt ↦ true
    | Ordering.eq ↦ true
  ]
]

unfoldable pub insert_in_order : Operation → List Operation → List Operation
insert_in_order o [] = o ∷ []
insert_in_order o (x ∷ xs) = if is_before o x then o ∷ x ∷ xs else x ∷ insert_in_order o xs

unfoldable pub pending_operations : List Operation → List Operation
pending_operations [] = []
pending_operations (o ∷ os) =
    let rest = pending_operations os in
    if is_pending_outcome o then insert_in_order o rest else rest

abbrev pub is_outcome_unknown : Error → Bool
is_outcome_unknown outcome_unknown = true
is_outcome_unknown _ = false

-- An outcome that stays unknown is expected; any other error ends the loop.
unfoldable pub expect_unknown : Result Operation → Result (Unit {0})
expect_unknown (ok op) = ok tt
expect_unknown (err e) = if is_outcome_unknown e then ok tt else err e

unfoldable pub reconcile_each :
    (String → OutcomeDraws) → Providers → List Operation → Run Database (Unit {0})
reconcile_each draws providers [] s = (ok tt, s)
reconcile_each draws providers (o ∷ os) s =
    elim (expect_unknown (reconcile (draws o.id) providers o.id s).0) [
      | ok u ↦ reconcile_each draws providers os (reconcile (draws o.id) providers o.id s).1
      | err e ↦ (err e, (reconcile (draws o.id) providers o.id s).1)
    ]

unfoldable pub reconcile_pending : (String → OutcomeDraws) → Providers → Run Database (Unit {0})
reconcile_pending draws providers s =
    reconcile_each draws providers (pending_operations s.operations) s
