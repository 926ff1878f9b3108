-- ===== src/Execution/Calls.antt =====
-- The calls of the execution service on attempts, each in a transaction of its own, and runs of them.
use meeseek_collective.Common.{ℕ, List, [], ◌∷◌, String}
use meeseek_collective.Common.Int.{ℤ}
use meeseek_collective.Common.Result.{with_tx}
use meeseek_collective.Common.Run.{Run, ◌>>=◌, read, commit}
use meeseek_collective.Domain.{FailureClass, ChallengeScope}
use meeseek_collective.Execution.State.{
  Task, Store, load_task, task_key, attempt_key, failure_key, challenge_key, event_key,
}
use meeseek_collective.Execution.Lease.{Fresh, Recorder, start_attempt, renew_lease, revoke_lease}
use meeseek_collective.Execution.Setback.{fail_attempt, challenge_task}
use meeseek_collective.Execution.Intake.{TaskRequest}
use meeseek_collective.Execution.Creation.{Outside, Guard, create_task, create_child}

-- `CreateChildTask`: the parent is read before the transaction.
unfoldable pub create_child_task : Outside → String → ℕ → String → TaskRequest → Run Store Task
create_child_task o fresh now parent request = do
  p ← read (load_task parent)
  commit (create_child o fresh now p request)

pub data Call : Type 0 where
  creates : Outside → String → ℕ → TaskRequest → Guard → Call
  creates_child : Outside → String → ℕ → Task → TaskRequest → Call
  starts : List Recorder → Fresh → ℕ → String → String → ℤ → Call
  renews : ℕ → ℕ → String → ℤ → Call
  revokes : String → ℕ → String → Call
  fails : Fresh → ℕ → ℕ → String → FailureClass → String → List String → Call
  challenges : Fresh → ℕ → String → ChallengeScope → String → List String → Call

unfoldable pub after : Store → Call → Store
after s (creates o fresh now request guard) = (with_tx (create_task o fresh now request guard) s).1
after s (creates_child o fresh now p request) = (with_tx (create_child o fresh now p request) s).1
after s (starts recorders fresh now task kind duration) =
    (with_tx (start_attempt recorders fresh now task kind duration) s).1
after s (renews now later id duration) = (with_tx (renew_lease now later id duration) s).1
after s (revokes event now id) = (with_tx (revoke_lease event now id) s).1
after s (fails fresh now later id class signature evidence) =
    (with_tx (fail_attempt fresh now later id class signature evidence) s).1
after s (challenges fresh now task scope reason evidence) =
    (with_tx (challenge_task fresh now task scope reason evidence) s).1

unfoldable pub run : Store → List Call → Store
run s [] = s
run s (c ∷ cs) = run (after s c) cs
