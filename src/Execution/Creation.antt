-- ===== src/Execution/Creation.antt =====
-- internal/execution/service.go: insertTaskTx, which a repeated idempotency key answers with the task
-- that is there, and the entry points that create tasks.
use meeseek_collective.Common.{
  ℕ, ◌&&◌, not, Option, none, some, List, [], ◌∷◌, String, ◌==◌, if◌then◌else◌,
}
use meeseek_collective.Common.Text.{trim_space}
use meeseek_collective.Common.Rows.{insert}
use meeseek_collective.Common.Result.{
  constraint_failed, failure, Result, ok, err, Tx, ◌>>=◌, ◌>>◌, gets,
}
use meeseek_collective.Domain.{TaskState, PurposeRef}
use meeseek_collective.Execution.State.{Task, Store, task_key, load_task}
use meeseek_collective.Execution.Intake.{TaskRequest, normalize_root_request, child_request}

-- What the intake uses of other code: the canonical form of a payload, the hash of a request under its
-- parent, and the check of a purpose.
pub record Outside : Type 0 where
  pub canonical : String → Result String
  pub hash : String → TaskRequest → String
  pub validate_purpose : Store → PurposeRef → Result (Unit {0})

unfoldable pub canonical_payload : (String → Result String) → String → Result String
canonical_payload canonical payload =
    if trim_space payload == "" then ok "{}" else canonical payload

unfoldable pub normalize_task_intent : Outside → TaskRequest → Tx Store TaskRequest
unfolding canonical_payload
normalize_task_intent o r s = elim (canonical_payload o.canonical r.payload) [
  | err e ↦ err e
  | ok payload ↦ ok (
    record r {
      objective = trim_space r.objective;
      idempotency_key = trim_space r.idempotency_key;
      payload = payload;
    },
    s,
  )
]

unfoldable pub request_hash : Outside → String → TaskRequest → String
request_hash o parent r = if r.idempotency_key == "" then "" else o.hash parent r

unfoldable pub new_task : String → String → String → ℕ → TaskRequest → Task
new_task fresh parent hash now r = record {
  id = fresh;
  parent = parent;
  purpose = r.purpose;
  task_class = r.task_class;
  objective = r.objective;
  payload = r.payload;
  idempotency_key = r.idempotency_key;
  request_hash = hash;
  state = TaskState.eligible;
  current_attempt = none;
  current_fence = 0;
  acceptance_criteria = r.acceptance_criteria;
  required_capabilities = r.required_capabilities;
  required_enforcement = r.required_enforcement;
  authority_ceiling = r.authority_ceiling;
  resource_envelope = r.resource_envelope;
  priority = r.priority;
  earliest_start = r.earliest_start;
  deadline = r.deadline;
  created_at = now;
  updated_at = now;
}

-- The unique index on `idempotency_key`, which leaves out the tasks without one.
unfoldable pub find_by_key : String → List Task → Option Task
find_by_key key [] = none
find_by_key key (t ∷ ts) =
    if not (key == "") && t.idempotency_key == key then some t else find_by_key key ts

unfoldable pub insert_task : Task → Tx Store (Unit {0})
insert_task t s = elim (insert t s.tasks) [
  | some rows ↦ ok (tt, record s { tasks = rows })
  | none ↦ err constraint_failed
]

unfoldable pub insert_or_replay : Outside → Task → Option Task → Tx Store Task
unfolding insert_task
insert_or_replay o t none s = elim (insert_task t s) [
  | err e ↦ err e
  | ok (u, s') ↦ elim (o.validate_purpose s' t.purpose) [ ok v ↦ ok (t, s') | err e ↦ err e ]
]
insert_or_replay o t (some old) s =
    if old.request_hash == t.request_hash
    then load_task old.id s
    else err (failure "task idempotency key conflicts with a different request")

-- The guard of the caller reads the tables and may fail.
abbrev pub Guard : Type 0
Guard = Store → Result (Unit {0})

unfoldable pub check_task_guard : Guard → Tx Store (Unit {0})
check_task_guard guard s = elim (guard s) [ ok u ↦ ok (tt, s) | err e ↦ err e ]

unfoldable pub insert_task_tx : Outside → String → ℕ → String → TaskRequest → Guard → Tx Store Task
unfolding insert_or_replay check_task_guard
insert_task_tx o fresh now parent request guard = do
  r ← normalize_task_intent o request
  let t = new_task fresh parent (request_hash o parent r) now r
  check_task_guard guard
  old ← gets (λ s. find_by_key t.idempotency_key s.tasks)
  insert_or_replay o t old

-- `CreateTaskWithGuard`, `CreateTask` being the one whose guard always passes.
unfoldable pub create_task : Outside → String → ℕ → TaskRequest → Guard → Tx Store Task
create_task o fresh now request guard = do
  r ← normalize_root_request request
  insert_task_tx o fresh now "" r guard

-- `CreateChildTask`, from the row of the parent that was read before: the checks of the request and the
-- transaction.
unfoldable pub create_child : Outside → String → ℕ → Task → TaskRequest → Tx Store Task
create_child o fresh now p request = do
  r ← child_request p request
  insert_task_tx o fresh now p.id r (λ s. ok tt)
