-- ===== src/Operations/Methods.antt =====
-- internal/operations: the methods that open several transactions, as sequences of calls.
use meeseek_collective.Common.{ℕ, Bool, true, false, refl, List, [], ◌∷◌, String}
use meeseek_collective.Common.Result.{Result, ok, err}
use meeseek_collective.Common.Run.{commit}
use meeseek_collective.Domain.{OperationState}
use meeseek_collective.Operations.{Operation, ProviderOutcome, Database, load_operation}
use meeseek_collective.Operations.Policy.{Provider, Providers, PolicyDecision, Outside}
use meeseek_collective.Operations.Prepare.{Draws}
use meeseek_collective.Operations.Plan.{PrepareRequest, prepare}
use meeseek_collective.Operations.Reconcile.{
  OutcomeDraws, stay_unknown, record_lookup_as, record_lookup, look_up, reconcile_by, reconcile,
  expect_unknown, reconcile_each, reconcile_pending, pending_operations,
}
use meeseek_collective.Operations.Dispatch.{
  DispatchDraws, record_dispatch_as, record_dispatch, refuse_dispatch, send, dispatch_unless,
  dispatch_prepared, resume, dispatch_by, dispatch,
}
use meeseek_collective.Operations.Calls.{prepares, commits, after}
use meeseek_collective.Operations.Traces.{
  Traces, Traces-refl, Traces-trans, IsTraced, bind-IsTraced, then-IsTraced, return-IsTraced,
  fail-IsTraced, stop_if-IsTraced, read-IsTraced, commit-IsTraced, marks-IsTraced, settles-IsTraced,
  cancels-IsTraced, guards-IsTraced, traced_rules,
}
use meeseek_collective.Operations.Prepare.{prepare_in_tx, Prepared}
use meeseek_collective.Operations.Claim.{ClaimDraws, commit_dispatch}

stay_unknown-IsTraced :
    (event : String) (now : ℕ) (id : String) → IsTraced (stay_unknown event now id)
unfolding stay_unknown
stay_unknown-IsTraced event now id =
    bind-IsTraced (marks-IsTraced event now id) (λ op. fail-IsTraced _)

record_lookup_as-IsTraced :
    (w : OutcomeDraws) (id : String) (outcome : ProviderOutcome) (x : OperationState)
    → IsTraced (record_lookup_as w id outcome x)
unfolding record_lookup_as
record_lookup_as-IsTraced w id outcome OperationState.outcome_unknown = stay_unknown-IsTraced _ _ id
record_lookup_as-IsTraced w id outcome OperationState.confirmed_effect =
    settles-IsTraced _ _ id outcome
record_lookup_as-IsTraced w id outcome OperationState.confirmed_no_effect =
    settles-IsTraced _ _ id outcome
record_lookup_as-IsTraced w id outcome OperationState.prepared = fail-IsTraced _
record_lookup_as-IsTraced w id outcome OperationState.dispatched = fail-IsTraced _
record_lookup_as-IsTraced w id outcome OperationState.cancelled = fail-IsTraced _
record_lookup_as-IsTraced w id outcome (OperationState.unlisted _) = fail-IsTraced _

record_lookup-IsTraced :
    (w : OutcomeDraws) (id : String) (r : Result ProviderOutcome) → IsTraced (record_lookup w id r)
unfolding record_lookup
record_lookup-IsTraced w id (ok outcome) = record_lookup_as-IsTraced w id outcome outcome.state
record_lookup-IsTraced w id (err e) = stay_unknown-IsTraced _ _ id

pub look_up-IsTraced :
    (w : OutcomeDraws) (providers : Providers) (id : String) (op : Operation)
    → IsTraced (look_up w providers id op)
unfolding look_up
look_up-IsTraced w providers id op = search (traced_rules, record_lookup-IsTraced) depth 8

reconcile_by-IsTraced :
    (w : OutcomeDraws) (providers : Providers) (id : String) (op : Operation) (x : OperationState)
    → IsTraced (reconcile_by w providers id op x)
unfolding reconcile_by
reconcile_by-IsTraced w providers id op OperationState.confirmed_effect = return-IsTraced op
reconcile_by-IsTraced w providers id op OperationState.confirmed_no_effect = return-IsTraced op
reconcile_by-IsTraced w providers id op OperationState.cancelled = fail-IsTraced _
reconcile_by-IsTraced w providers id op OperationState.prepared = fail-IsTraced _
reconcile_by-IsTraced w providers id op OperationState.dispatched =
    bind-IsTraced (marks-IsTraced w.marked w.marked_at id) (look_up-IsTraced w providers id)
reconcile_by-IsTraced w providers id op OperationState.outcome_unknown =
    look_up-IsTraced w providers id op
reconcile_by-IsTraced w providers id op (OperationState.unlisted _) = fail-IsTraced _

pub reconcile-IsTraced :
    (w : OutcomeDraws) (providers : Providers) (id : String) → IsTraced (reconcile w providers id)
unfolding reconcile
reconcile-IsTraced w providers id =
    bind-IsTraced (read-IsTraced (load_operation id))
      (λ op. reconcile_by-IsTraced w providers id op op.state)

pub reconcile_each-Traces :
    (draws : String → OutcomeDraws) (providers : Providers) (os : List Operation) (s : Database)
    → Traces s (reconcile_each draws providers os s).1
unfolding reconcile_each
reconcile_each-Traces draws providers [] s = Traces-refl s
reconcile_each-Traces draws providers (o ∷ os) s =
    go (reconcile_each-Traces draws providers os (reconcile (draws o.id) providers o.id s).1)
      (expect_unknown (reconcile (draws o.id) providers o.id s).0)
  where
    first : Traces s (reconcile (draws o.id) providers o.id s).1
    first = (reconcile-IsTraced (draws o.id) providers o.id).from s

    go :
        Traces
          (reconcile (draws o.id) providers o.id s).1
          (reconcile_each draws providers os (reconcile (draws o.id) providers o.id s).1).1
        → (r : Result (Unit {0}))
        → Traces s
            (elim r as (λ _. Result (Unit {0}) × Database) [
              | ok u ↦ reconcile_each draws providers os (reconcile (draws o.id) providers o.id s).1
              | err e ↦ (err e, (reconcile (draws o.id) providers o.id s).1)
            ]).1
    go rest (ok u) = Traces-trans first rest
    go rest (err e) = first

-- The reconciliation of what a crash has left behind is a sequence of calls.
pub reconcile_pending-Traces :
    (draws : String → OutcomeDraws) (providers : Providers) (s : Database)
    → Traces s (reconcile_pending draws providers s).1
unfolding reconcile_pending
reconcile_pending-Traces draws providers s =
    reconcile_each-Traces draws providers (pending_operations s.operations) s

record_dispatch_as-IsTraced :
    (w : OutcomeDraws) (id : String) (outcome : ProviderOutcome) (x : OperationState)
    → IsTraced (record_dispatch_as w id outcome x)
unfolding record_dispatch_as
record_dispatch_as-IsTraced w id outcome OperationState.confirmed_effect =
    settles-IsTraced _ _ id outcome
record_dispatch_as-IsTraced w id outcome OperationState.confirmed_no_effect =
    settles-IsTraced _ _ id outcome
record_dispatch_as-IsTraced w id outcome _ = stay_unknown-IsTraced _ _ id

record_dispatch-IsTraced :
    (w : OutcomeDraws) (id : String) (r : Result ProviderOutcome)
    → IsTraced (record_dispatch w id r)
unfolding record_dispatch
record_dispatch-IsTraced w id (ok outcome) = record_dispatch_as-IsTraced w id outcome outcome.state
record_dispatch-IsTraced w id (err e) = stay_unknown-IsTraced _ _ id

commits-IsTraced :
    (o : Outside) (w : ClaimDraws) (p : Provider) (d : PolicyDecision)
    (kind task id attempt : String)
    → IsTraced (commit (commit_dispatch o w p d kind task id attempt))
unfolding after
commits-IsTraced o w p d kind task id attempt =
    commit-IsTraced _ (commits o w p d kind task id attempt) (λ s. refl)

prepares-IsTraced :
    (o : Outside) (collective : String) (w : Draws) (q : Prepared) (p : Provider) (task : String)
    → IsTraced (commit (prepare_in_tx o collective w q p task))
unfolding after
prepares-IsTraced o collective w q p task =
    commit-IsTraced _ (prepares o collective w q p task) (λ s. refl)

refuse_dispatch-IsTraced :
    (w : DispatchDraws) (op : Operation) (attempt : String)
    → IsTraced (refuse_dispatch w op attempt)
unfolding refuse_dispatch
refuse_dispatch-IsTraced w op attempt = search (traced_rules, cancels-IsTraced) depth 8

send-IsTraced :
    (o : Outside) (w : DispatchDraws) (p : Provider) (d : PolicyDecision) (kind : String)
    (op : Operation) (attempt : String)
    → IsTraced (send o w p d kind op attempt)
unfolding send
send-IsTraced o w p d kind op attempt =
    search (traced_rules, commits-IsTraced, record_dispatch-IsTraced) depth 8

dispatch_unless-IsTraced :
    (o : Outside) (w : DispatchDraws) (p : Provider) (d : PolicyDecision) (kind : String)
    (op : Operation) (attempt : String) (refused : Bool)
    → IsTraced (dispatch_unless o w p d kind op attempt refused)
unfolding dispatch_unless
dispatch_unless-IsTraced o w p d kind op attempt true = refuse_dispatch-IsTraced w op attempt
dispatch_unless-IsTraced o w p d kind op attempt false = send-IsTraced o w p d kind op attempt

dispatch_prepared-IsTraced :
    (o : Outside) (providers : Providers) (w : DispatchDraws) (op : Operation) (attempt : String)
    → IsTraced (dispatch_prepared o providers w op attempt)
unfolding dispatch_prepared
dispatch_prepared-IsTraced o providers w op attempt =
    search (traced_rules, dispatch_unless-IsTraced) depth 14

resume-IsTraced :
    (providers : Providers) (w : DispatchDraws) (id attempt : String) (op : Operation)
    → IsTraced (resume providers w id attempt op)
unfolding resume
resume-IsTraced providers w id attempt op =
    then-IsTraced (guards-IsTraced w.guarded_at attempt op.task)
      (reconcile-IsTraced w.outcome providers id)

dispatch_by-IsTraced :
    (o : Outside) (providers : Providers) (w : DispatchDraws) (id attempt : String) (op : Operation)
    (x : OperationState)
    → IsTraced (dispatch_by o providers w id attempt op x)
unfolding dispatch_by
dispatch_by-IsTraced o providers w id attempt op OperationState.confirmed_effect =
    return-IsTraced op
dispatch_by-IsTraced o providers w id attempt op OperationState.confirmed_no_effect =
    return-IsTraced op
dispatch_by-IsTraced o providers w id attempt op OperationState.cancelled = fail-IsTraced _
dispatch_by-IsTraced o providers w id attempt op OperationState.dispatched =
    resume-IsTraced providers w id attempt op
dispatch_by-IsTraced o providers w id attempt op OperationState.outcome_unknown =
    resume-IsTraced providers w id attempt op
dispatch_by-IsTraced o providers w id attempt op OperationState.prepared =
    then-IsTraced (stop_if-IsTraced _ _) (dispatch_prepared-IsTraced o providers w op attempt)
dispatch_by-IsTraced o providers w id attempt op (OperationState.unlisted _) = fail-IsTraced _

-- A dispatch, whatever the provider answers and wherever it fails, has changed the database by a sequence
-- of calls: its claim, its cancellation, its doubt or its settlement, each of them atomic.
dispatch-IsTraced :
    (o : Outside) (providers : Providers) (w : DispatchDraws) (id attempt : String)
    → IsTraced (dispatch o providers w id attempt)
unfolding dispatch
dispatch-IsTraced o providers w id attempt = search (traced_rules, dispatch_by-IsTraced) depth 8

-- A preparation changes the database by one call at most.
prepare-IsTraced :
    (o : Outside) (providers : Providers) (collective : String) (w : Draws) (r : PrepareRequest)
    → IsTraced (prepare o providers collective w r)
unfolding prepare
prepare-IsTraced o providers collective w r = search (traced_rules, prepares-IsTraced) depth 18
