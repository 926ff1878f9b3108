-- ===== src/Operations/Calls.antt =====
-- internal/operations with internal/execution, internal/approvals and internal/resources over one
-- database: every transaction of them as a call, so that a sequence of calls is an interleaving.
use meeseek_collective.Common.{ℕ, List, [], ◌∷◌, String}
use meeseek_collective.Common.Result.{with_tx}
use meeseek_collective.Resources
use meeseek_collective.Approvals.Decisions
use meeseek_collective.Execution.Calls.{Call as ExecutionCall, after as after_execution}
use meeseek_collective.Operations.{
  Operation, ProviderOutcome, Database, settle_outcome, mark_unknown, cancel_prepared,
}
use meeseek_collective.Operations.Policy.{Provider, PolicyDecision, Outside}
use meeseek_collective.Operations.Prepare.{Draws, Prepared, prepare_in_tx}
use meeseek_collective.Operations.Claim.{ClaimDraws, commit_dispatch}

-- One transaction, with the identifiers and the readings of the clock that it draws.
pub data Call : Type 0 where
  prepares : Outside → String → Draws → Prepared → Provider → String → Call
  commits :
      Outside → ClaimDraws → Provider → PolicyDecision → String → String → String → String → Call
  settles_as : String → ℕ → String → ProviderOutcome → Call
  marks_unknown : String → ℕ → String → Call
  cancels : String → ℕ → ℕ → Operation → String → Call
  executes : ExecutionCall → Call
  approves : Decisions.Call → Call
  budgets : Resources.Call → Call

unfoldable pub after : Database → Call → Database
after s (prepares o collective w q p task) = (with_tx (prepare_in_tx o collective w q p task) s).1
after s (commits o w p d kind task id attempt) =
    (with_tx (commit_dispatch o w p d kind task id attempt) s).1
after s (settles_as event now id outcome) = (with_tx (settle_outcome event now id outcome) s).1
after s (marks_unknown event now id) = (with_tx (mark_unknown event now id) s).1
after s (cancels event now later o attempt) =
    (with_tx (cancel_prepared event now later o attempt) s).1
after s (executes c) = record s { store = after_execution s.store c }
after s (approves c) = record s { registry = Decisions.after s.registry c }
after s (budgets c) = record s { ledger = Resources.after s.ledger c }

unfoldable pub run : Database → List Call → Database
run s [] = s
run s (c ∷ cs) = run (after s c) cs
