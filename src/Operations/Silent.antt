-- ===== src/Operations/Silent.antt =====
-- internal/operations: a reconciliation asks the providers for outcomes and never sends an effect.
use meeseek_collective.Common.{
  ◌≡◌, ◌≢◌, refl, ap, inl, inr, some, none, List, [], ◌∷◌, String, arith, Option-cases, Bool-cases,
  false, ◌||◌, ◌==◌,
}
use meeseek_collective.Common.Text.{trim_space}
use meeseek_collective.Common.Result.{Result, ok, err}
use meeseek_collective.Common.Run.{◌>>=◌, ◌>>◌, read, commit}
use meeseek_collective.Domain.{OperationState}
use meeseek_collective.Operations.{
  Operation, ProviderOutcome, Database, load_operation, mark_unknown, operation_key, is_prepared,
  guard_attempt_for_task,
}
use meeseek_collective.Operations.Policy.{
  DispatchRequest, Outside, PolicyDecision, Provider, Providers, provider_for,
}
use meeseek_collective.Operations.Reconcile.{
  OutcomeDraws, look_up, reconcile_by, reconcile, expect_unknown, reconcile_each, reconcile_pending,
  pending_operations,
}
use meeseek_collective.Common.Rows.{find, Unique}
use meeseek_collective.Operations.Claim.{ClaimDraws, commit_dispatch}
use meeseek_collective.Operations.Dispatch.{DispatchDraws, resume, dispatch_by, dispatch}
use meeseek_collective.Operations.Calls.{Call, run}
use meeseek_collective.Operations.Runs.{committed_unprepared, commit_dispatch_once}

-- The same providers, but for what they do when an effect is sent.
abbrev pub redirect : (String → DispatchRequest → Result ProviderOutcome) → Providers → Providers
redirect f providers name = elim (providers name) [
  | some p ↦ some (record p { dispatch = f name })
  | none ↦ none
]

module _ (f : String → DispatchRequest → Result ProviderOutcome) (providers : Providers) where
  look_up_silent :
      (w : OutcomeDraws) (id : String) (op : Operation) (s : Database)
      → look_up w (redirect f providers) id op s ≡ look_up w providers id op s
  unfolding look_up provider_for
  look_up_silent w id op s = elim (Option-cases (providers (trim_space op.provider))) [
    | inl missing ↦ ground (arith, missing)
    | inr (p, found) ↦ ground (arith, found)
  ]

  reconcile_by_silent :
      (w : OutcomeDraws) (id : String) (op : Operation) (x : OperationState)
      → reconcile_by w (redirect f providers) id op x ≡ reconcile_by w providers id op x
  unfolding reconcile_by
  reconcile_by_silent w id op OperationState.confirmed_effect = refl
  reconcile_by_silent w id op OperationState.confirmed_no_effect = refl
  reconcile_by_silent w id op OperationState.cancelled = refl
  reconcile_by_silent w id op OperationState.prepared = refl
  reconcile_by_silent w id op OperationState.dispatched =
      λ i. (commit (mark_unknown w.marked w.marked_at id) >>= λ x s. look_up_silent w id x s i)
  reconcile_by_silent w id op OperationState.outcome_unknown = λ i s. look_up_silent w id op s i
  reconcile_by_silent w id op (OperationState.unlisted _) = refl

  pub reconcile_silent :
      (w : OutcomeDraws) (id : String)
      → reconcile w (redirect f providers) id ≡ reconcile w providers id
  unfolding reconcile
  reconcile_silent w id =
      λ i. (read (load_operation id) >>= λ op. reconcile_by_silent w id op op.state i)

  reconcile_each_silent :
      (draws : String → OutcomeDraws) (os : List Operation)
      → reconcile_each draws (redirect f providers) os ≡ reconcile_each draws providers os
  unfolding reconcile_each
  reconcile_each_silent draws [] = refl
  reconcile_each_silent draws (o ∷ os) = λ i s.
      elim (expect_unknown (reconcile_silent (draws o.id) o.id i s).0)
        as (λ _. Result (Unit {0}) × Database) [
          | ok u ↦ reconcile_each_silent draws os i (reconcile_silent (draws o.id) o.id i s).1
          | err e ↦ (err e, (reconcile_silent (draws o.id) o.id i s).1)
        ]

  pub reconcile_pending_silent :
      (draws : String → OutcomeDraws)
      → reconcile_pending draws (redirect f providers) ≡ reconcile_pending draws providers
  unfolding reconcile_pending
  reconcile_pending_silent draws =
      λ i s. reconcile_each_silent draws (pending_operations s.operations) i s

  dispatch_by_silent :
      (o : Outside) (w : DispatchDraws) (id attempt : String) (op : Operation) (x : OperationState)
      → is_prepared x ≡ false
      → dispatch_by o (redirect f providers) w id attempt op x
        ≡ dispatch_by o providers w id attempt op x
  unfolding dispatch_by resume
  dispatch_by_silent o w id attempt op OperationState.confirmed_effect h = refl
  dispatch_by_silent o w id attempt op OperationState.confirmed_no_effect h = refl
  dispatch_by_silent o w id attempt op OperationState.cancelled h = refl
  dispatch_by_silent o w id attempt op OperationState.prepared h = absurd (ground arith)
  dispatch_by_silent o w id attempt op OperationState.dispatched h = λ i.
      (commit (guard_attempt_for_task w.guarded_at attempt op.task)
        >> reconcile_silent w.outcome id i)
  dispatch_by_silent o w id attempt op OperationState.outcome_unknown h = λ i.
      (commit (guard_attempt_for_task w.guarded_at attempt op.task)
        >> reconcile_silent w.outcome id i)
  dispatch_by_silent o w id attempt op (OperationState.unlisted _) h = refl

  dispatch_silent :
      (o : Outside) (w : DispatchDraws) (id attempt : String) (y : Operation) (s : Database)
      → find id s.operations ≡ some y
      → is_prepared y.state ≡ false
      → dispatch o (redirect f providers) w id attempt s ≡ dispatch o providers w id attempt s
  unfolding dispatch
  dispatch_silent o w id attempt y s fy past = elim (Bool-cases (id == "" || attempt == "")) [
    | inl blank ↦ ground (arith, blank)
    | inr named ↦
        ground (arith, named, fy, ap (λ r. r s) (dispatch_by_silent o w id attempt y y.state past))
  ]

-- In a table with unique keys, an operation that has been committed to its dispatch is, whatever calls come
-- after, never committed again, and a later dispatch of it sends nothing: it does the same whatever the
-- providers would do with an effect.
pub sent_once :
    (o o' : Outside) (w w' : ClaimDraws) (p p' : Provider) (d d' : PolicyDecision)
    (kind kind' task task' id attempt attempt' : String) (q q' : DispatchRequest)
    (s t t' : Database) (cs : List Call) (draws : DispatchDraws) (providers : Providers)
    (f : String → DispatchRequest → Result ProviderOutcome)
    → Unique s.operations
    → commit_dispatch o w p d kind task id attempt s ≡ ok (q, t)
    → (commit_dispatch o' w' p' d' kind' task' id attempt' (run t cs) ≢ ok (q', t'))
      × (dispatch o' (redirect f providers) draws id attempt' (run t cs)
          ≡ dispatch o' providers draws id attempt' (run t cs))
sent_once o o' w w' p p' d d' kind kind' task task' id attempt attempt' q q' s t t' cs draws
      providers f u h =
    let (y, fy, past) = committed_unprepared o w p d kind task id attempt q s t cs u h in
    (
      commit_dispatch_once o o' w w' p p' d d' kind kind' task task' id attempt attempt' q q' s t t'
          cs u h,
      dispatch_silent f providers o' draws id attempt' y (run t cs) fy past,
    )
