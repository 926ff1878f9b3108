-- ===== src/Execution/Reads.antt =====
-- internal/execution/read.go: Task, FindByIdempotencyKey and Attempt.
use meeseek_collective.Common.{ℕ, ◌≡◌, ◌≢◌, Option, none, some, String, ◌==◌, arith, if◌then◌else◌}
use meeseek_collective.Common.Text.{trim_space}
use meeseek_collective.Common.Rows.{find}
use meeseek_collective.Common.Result.{failure, Result, ok, err}
use meeseek_collective.Execution.State.{Task, Attempt, Store, task_key, attempt_key}
use meeseek_collective.Execution.Intake.{TaskRequest}
use meeseek_collective.Execution.Creation.{Outside, Guard, find_by_key, insert_task_tx}
use meeseek_collective.Execution.Replay.{inserted_row}

unfoldable pub read_task : String → Store → Result Task
read_task id s =
    if trim_space id == ""
    then err (failure "task id is required")
    else elim (find (trim_space id) s.tasks) [
      | some t ↦ ok t
      | none ↦ err (failure "task not found")
    ]

read_by_row : Option Task → Store → Result (Option Task)
read_by_row none s = ok none
read_by_row (some row) s = elim (find row.id s.tasks) [
  | some t ↦ ok (some t)
  | none ↦ err (failure "task not found")
]

unfoldable pub find_by_idempotency_key : String → Store → Result (Option Task)
unfolding read_by_row
find_by_idempotency_key key s =
    if trim_space key == ""
    then err (failure "idempotency key is required")
    else read_by_row (find_by_key (trim_space key) s.tasks) s

unfoldable pub read_attempt : String → Store → Result Attempt
read_attempt id s =
    if trim_space id == ""
    then err (failure "attempt id is required")
    else elim (find (trim_space id) s.attempts) [
      | some a ↦ ok a
      | none ↦ err (failure "attempt not found")
    ]

-- A request with an idempotency key that has been accepted is found under that key, as the task that
-- the request was answered with.
pub insert_task_tx-find_by_idempotency_key :
    (o : Outside) (fresh : String) (now : ℕ) (parent : String) (q : TaskRequest) (guard : Guard)
    (s t : Store) (a : Task)
    → trim_space q.idempotency_key ≢ ""
    → insert_task_tx o fresh now parent q guard s ≡ ok (a, t)
    → find_by_idempotency_key q.idempotency_key t ≡ ok (some a)
unfolding find_by_idempotency_key
insert_task_tx-find_by_idempotency_key o fresh now parent q guard s t a n h =
    let (old, found, row) = inserted_row o fresh now parent q guard s t a n h in
    ground (arith, n, found, row)
