-- ===== src/Operations/Runs.antt =====
-- internal/operations with the components that it writes: interleavings of their transactions.
use meeseek_collective.Common.{
  ◌≡◌, ◌≢◌, refl, ap, ◌∙◌, sym, subst, true, false, some, List, [], ◌∷◌, String, arith,
}
use meeseek_collective.Common.Rows.{find, changed_one, Unique, find-update_self}
use meeseek_collective.Common.Result.{ok, with_tx_cases}
use meeseek_collective.Domain.{OperationState}
use meeseek_collective.Resources.Cover
use meeseek_collective.Resources.Steps.{after-LedgerStep}
use meeseek_collective.Approvals.Unanimity
use meeseek_collective.Approvals.Grant
use meeseek_collective.Execution.Exclusive
use meeseek_collective.Execution.Exclusive.{IsSoundStore}
use meeseek_collective.Operations.{
  Operation, Database, operation_key, is_confirmed, is_prepared, settle_outcome, mark_unknown,
  cancel_prepared,
}
use meeseek_collective.Operations.Policy.{DispatchRequest, Provider, PolicyDecision, Outside}
use meeseek_collective.Operations.Claim.{
  ClaimDraws, is_dispatchable, dispatch_operation, commit_dispatch,
}
use meeseek_collective.Operations.Calls.{
  Call, prepares, commits, settles_as, marks_unknown, cancels, executes, approves, budgets, after,
  run,
}
use meeseek_collective.Operations.Quiet.{Preserves}
use meeseek_collective.Operations.Moves.{
  Follows, Follows-refl, Reaches, Reaches-confirmed, Reaches-unprepared,
}
use meeseek_collective.Operations.Safe.{Safe, Safe-refl, Safe-trans, with_tx-Safe}
use meeseek_collective.Operations.Outcome.{
  OutcomeStep-Safe, settle_outcome-OutcomeStep, mark_unknown-OutcomeStep,
}
use meeseek_collective.Operations.Cancelled.{cancel_prepared_cases}
use meeseek_collective.Operations.Committed.{Committed, commit_dispatch-Committed}
use meeseek_collective.Operations.Preserved.{prepare_in_tx-IsSafe, commit_dispatch-IsSafe}

-- A write of one component that keeps it sound.
beside-Safe : {s t : Database} → t.operations ≡ s.operations → Preserves s t → Safe s t
beside-Safe {s} {t} e kept = record {
  rows = subst (Follows s.operations) (sym e) (Follows-refl s.operations);
  unique = subst Unique (sym e);
  kept = kept;
}

after-Safe : (s : Database) (c : Call) → Safe s (after s c)
unfolding after
after-Safe s (prepares o collective w q p task) =
    with_tx-Safe _ s (prepare_in_tx-IsSafe o collective w q p task)
after-Safe s (commits o w p d kind task id attempt) =
    with_tx-Safe _ s (commit_dispatch-IsSafe o w p d kind task id attempt)
after-Safe s (settles_as event now id outcome) =
    with_tx_cases (Safe s) (settle_outcome event now id outcome) s (Safe-refl s)
      λ u t h. OutcomeStep-Safe (settle_outcome-OutcomeStep event now id outcome s t u h)
after-Safe s (marks_unknown event now id) =
    with_tx_cases (Safe s) (mark_unknown event now id) s (Safe-refl s)
      λ u t h. OutcomeStep-Safe (mark_unknown-OutcomeStep event now id s t u h)
after-Safe s (cancels event now later o attempt) =
    with_tx_cases (Safe s) (cancel_prepared event now later o attempt) s (Safe-refl s)
      λ u t h. OutcomeStep-Safe (cancel_prepared_cases event now later o attempt s t h).1
after-Safe s (executes c) =
    beside-Safe refl
      (record { ledger = λ v. v; store = Exclusive.after-IsSound s.store c; registry = λ v. v })
after-Safe s (approves c) =
    beside-Safe refl
      (record { ledger = λ v. v; store = λ v. v; registry = Grant.after-IsSound s.registry c })
after-Safe s (budgets c) = beside-Safe refl (record {
  ledger = Cover.LedgerStep-IsCovered (after-LedgerStep s.ledger c);
  store = λ v. v;
  registry = λ v. v;
})

pub run-Safe : (s : Database) (cs : List Call) → Safe s (run s cs)
unfolding run
run-Safe s [] = Safe-refl s
run-Safe s (c ∷ cs) = Safe-trans (after-Safe s c) (run-Safe (after s c) cs)

-- The invariants of the components, and of the table of the operations.
pub record IsSoundDatabase (s : Database) : Type 0 where
  pub ledger : Cover.IsCovered s.ledger
  pub store : IsSoundStore s.store
  pub registry : Unanimity.IsSound s.registry
  pub unique : Unique s.operations

-- However the transactions of the components interleave, from a sound database they lead to a sound one:
-- what an envelope has held and unresolved, with its settled costs, each up to the amount that was
-- reserved for it, is within its limit, an active lease is that of the current attempt of its task, every grant is unanimous, and the operations have unique keys.
pub run-IsSoundDatabase :
    (s : Database) (cs : List Call) → IsSoundDatabase s → IsSoundDatabase (run s cs)
run-IsSoundDatabase s cs v =
    let safe = run-Safe s cs in
    record {
      ledger = safe.kept.ledger v.ledger;
      store = safe.kept.store v.store;
      registry = safe.kept.registry v.registry;
      unique = safe.unique v.unique;
    }

-- However the transactions interleave, an operation is never lost, and between two states of the database
-- its row makes transitions of the state machine only.
pub run-Reaches :
    (s : Database) (cs : List Call) (i : String) (x : Operation)
    → find i s.operations ≡ some x
    → (y : Operation) × (find i (run s cs).operations ≡ some y) × Reaches x y
run-Reaches s cs i x fx = (run-Safe s cs).rows.row i x fx

-- Whatever calls are made, an operation whose outcome is confirmed is never changed again.
pub run_confirmed :
    (s : Database) (cs : List Call) (i : String) (x : Operation)
    → find i s.operations ≡ some x
    → is_confirmed x.state ≡ true
    → find i (run s cs).operations ≡ some x
run_confirmed s cs i x fx done =
    let (y, fy, r) = run-Reaches s cs i x fx in fy ∙ ap some (Reaches-confirmed r done)

-- A covered ledger stays covered, whatever calls of any component are made.
run-IsCoveredLedger :
    (s : Database) (cs : List Call) → Cover.IsCovered s.ledger → Cover.IsCovered (run s cs).ledger
run-IsCoveredLedger s cs v = (run-Safe s cs).kept.ledger v

-- The row that a committed dispatch leaves.
Committed-row :
    (o : Outside) (w : ClaimDraws) (p : Provider) (d : PolicyDecision)
    (kind task id attempt : String) (q : DispatchRequest) (s t : Database)
    → Unique s.operations
    → Committed o w p d kind task id attempt q s t
    → (x : Operation) × (find id t.operations ≡ some x)
      × (x.state ≡ OperationState.dispatched)
      × (x.dispatcher_claim ≡ some w.claim)
Committed-row o w p d kind task id attempt q s t u v =
    let f = dispatch_operation w.claim d w.now in
    let free =
      changed_one id is_dispatchable s.operations {r = v.current} u v.row v.cleared.claimed in
    (
      f v.current,
      ap (find id) v.cleared.written ∙ find-update_self id f s.operations (λ x. ground arith) v.row,
      ground (arith, free),
      ground (arith, free),
    )

-- An operation that has been committed to its dispatch is never prepared again.
pub committed_unprepared :
    (o : Outside) (w : ClaimDraws) (p : Provider) (d : PolicyDecision)
    (kind task id attempt : String) (q : DispatchRequest) (s t : Database) (cs : List Call)
    → Unique s.operations
    → commit_dispatch o w p d kind task id attempt s ≡ ok (q, t)
    → (y : Operation) × (find id (run t cs).operations ≡ some y) × (is_prepared y.state ≡ false)
committed_unprepared o w p d kind task id attempt q s t cs u h =
    let v = commit_dispatch-Committed o w p d kind task id attempt q s t h in
    let (x, fx, sent, _) = Committed-row o w p d kind task id attempt q s t u v in
    let (y, fy, r) = run-Reaches t cs id x fx in
    (y, fy, Reaches-unprepared r (ground (arith, sent)))

-- In a table with unique keys, an operation that has been committed to its dispatch is never committed
-- to one again, whatever calls come between.
pub commit_dispatch_once :
    (o o' : Outside) (w w' : ClaimDraws) (p p' : Provider) (d d' : PolicyDecision)
    (kind kind' task task' id attempt attempt' : String) (q q' : DispatchRequest)
    (s t t' : Database) (cs : List Call)
    → Unique s.operations
    → commit_dispatch o w p d kind task id attempt s ≡ ok (q, t)
    → commit_dispatch o' w' p' d' kind' task' id attempt' (run t cs) ≢ ok (q', t')
commit_dispatch_once o o' w w' p p' d d' kind kind' task task' id attempt attempt' q q' s t t' cs u
      h h' =
    let (y, fy, past) = committed_unprepared o w p d kind task id attempt q s t cs u h in
    let v = commit_dispatch-Committed o' w' p' d' kind' task' id attempt' q' (run t cs) t' h' in
    ground (arith, fy, v.row, v.prepared, past)
