-- ===== src/Completion.antt =====
-- internal/verification/service.go: CompleteAttempt, with which an attempt gives its work up to a verifier,
-- and AcceptTask, which accepts it and releases the tasks that wait for it.
pub mod Accepted
pub mod Release
pub mod Effect
mod Examples
use meeseek_collective.Common.{
  ℕ, Bool, true, false, ◌&&◌, ◌||◌, not, Option, none, some, List, [], ◌∷◌, map, String, ◌==◌,
  if◌then◌else◌, nat_eq,
}
use meeseek_collective.Common.Text.{trim_space}
use meeseek_collective.Common.Sets.{has_string}
use meeseek_collective.Common.Rows.{Keyed, find, update, insert, changed}
use meeseek_collective.Common.Result.{
  constraint_failed, failure, ok, err, Tx, ◌>>=◌, ◌>>◌, pure, reject_if, or_raise, gets, modify,
  zoom,
}
use meeseek_collective.Domain.{TaskState, AttemptState, LeaseState, task_state_eq}
use meeseek_collective.Execution.State.{
  Task, Attempt, Store, Guarded, task_key, attempt_key, update_task, update_attempt, append_event,
}
use meeseek_collective.Execution.Lease.{guard_attempt}
use meeseek_collective.Cases.{normalize_evidence}
use meeseek_collective.Cases.Verify.{has_all}

-- A row of attempt_completion_records.
pub record Record : Type 0 where
  pub id : String
  pub task : String
  pub attempt : String
  pub manifest_hash : String
  pub evidence : List String
  pub completed_at : ℕ

pub data WorkState : Type 0 where
  waiting accepted rejected : WorkState

-- A row of verification_work.
pub record Work : Type 0 where
  pub id : String
  pub task : String
  pub attempt : String
  pub completion : String
  pub state : WorkState
  pub updated_at : ℕ

-- A row of acceptance_records.
pub record Acceptance : Type 0 where
  pub id : String
  pub task : String
  pub attempt : String
  pub verifier : String
  pub verifier_type : String
  pub criteria_met : Bool
  pub evidence : List String
  pub created_at : ℕ

pub record AcceptanceRequest : Type 0 where
  pub verifier : String
  pub verifier_type : String
  pub criteria_met : Bool
  pub evidence : List String

-- The tables; a dependency is a task with the one that it waits for.
pub record Desk : Type 0 where
  pub store : Store
  pub evidence : List String
  pub completions : List Record
  pub works : List Work
  pub acceptances : List Acceptance
  pub dependencies : List (String × String)

instance abbrev pub completion_key : Keyed Record
completion_key = record { key = λ c. c.id }

instance abbrev pub work_key : Keyed Work
work_key = record { key = λ w. w.id }

instance abbrev pub acceptance_key : Keyed Acceptance
acceptance_key = record { key = λ a. a.id }

abbrev pub on_store : {A : Type 0} → Tx Store A → Tx Desk A
on_store = zoom (λ s. s.store) (λ x s. record s { store = x })

-- `requireEvidence`
unfoldable pub require_known : List String → Tx Desk (Unit {0})
require_known ids = do
  known ← gets (λ s. s.evidence)
  reject_if (not (has_all ids known)) (failure "evidence not found")

abbrev pub no_evidence : List String → Bool
no_evidence [] = true
no_evidence (x ∷ xs) = false

-- The unique `attempt_id`.
unfoldable pub completion_by : String → List Record → Option Record
completion_by attempt [] = none
completion_by attempt (c ∷ cs) = if c.attempt == attempt then some c else completion_by attempt cs

unfoldable pub insert_completion : Record → Tx Desk (Unit {0})
insert_completion c s = elim (completion_by c.attempt s.completions) [
  | some _ ↦ err constraint_failed
  | none ↦ elim (insert c s.completions) [
    | some rows ↦ ok (tt, record s { completions = rows })
    | none ↦ err constraint_failed
  ]
]

-- The unique `attempt_id` and `completion_id`.
unfoldable pub work_taken : Work → List Work → Bool
work_taken w [] = false
work_taken w (x ∷ xs) =
    if x.attempt == w.attempt || x.completion == w.completion then true else work_taken w xs

unfoldable pub insert_work : Work → Tx Desk (Unit {0})
insert_work w s = if work_taken w s.works then err constraint_failed else elim (insert w s.works) [
  | some rows ↦ ok (tt, record s { works = rows })
  | none ↦ err constraint_failed
]

abbrev pub complete_row : ℕ → Attempt → Attempt
complete_row now a = record a {
  state = AttemptState.completed;
  lease_state = LeaseState.revoked;
  completed_at = some now;
}

abbrev pub await_row : ℕ → Task → Task
await_row now t = record t { state = TaskState.awaiting_verification; updated_at = now }

-- The fresh identifiers, and the readings of the clock, `now` before the transaction.
pub record CompletionDraws : Type 0 where
  pub completion : String
  pub work : String
  pub event : String
  pub now : ℕ
  pub guarded_at : ℕ

unfoldable pub new_completion :
    (List String → String) → CompletionDraws → Guarded → List String → Record
new_completion hash w g ids = record {
  id = w.completion;
  task = g.task;
  attempt = g.attempt;
  manifest_hash = hash ids;
  evidence = ids;
  completed_at = w.now;
}

-- The body of the guarded transaction.
unfoldable pub complete_guarded :
    (List String → String) → CompletionDraws → List String → Guarded → Tx Desk Record
complete_guarded hash w ids g = do
  require_known ids
  insert_completion (new_completion hash w g ids)
  on_store (update_attempt g.attempt (complete_row w.now))
  on_store (update_task g.task (await_row w.now))
  insert_work (record {
    id = w.work;
    task = g.task;
    attempt = g.attempt;
    completion = w.completion;
    state = WorkState.waiting;
    updated_at = w.now;
  })
  on_store (
      append_event (record {
        id = w.event;
        task = g.task;
        attempt = some g.attempt;
        kind = "ATTEMPT_COMPLETED";
        at = w.now;
      }))
  pure (new_completion hash w g ids)

-- `hash` is that of the manifest.
unfoldable pub complete_attempt :
    (List String → String) → CompletionDraws → String → List String → Tx Desk Record
complete_attempt hash w attempt evidence = do
  reject_if (attempt == "") (failure "attempt id is required")
  reject_if (no_evidence (normalize_evidence evidence))
      (failure "completion manifest requires evidence")
  g ← on_store (guard_attempt w.guarded_at attempt (TaskState.executing ∷ []))
  complete_guarded hash w (normalize_evidence evidence) g

unfoldable pub completion_of : String → String → List Record → Option Record
completion_of task attempt [] = none
completion_of task attempt (c ∷ cs) =
    if c.task == task && c.attempt == attempt then some c else completion_of task attempt cs

-- The primary key, and the unique `task_id`.
unfoldable pub acceptance_of : String → List Acceptance → Option Acceptance
acceptance_of task [] = none
acceptance_of task (a ∷ as_) = if a.task == task then some a else acceptance_of task as_

unfoldable pub insert_acceptance : Acceptance → Tx Desk (Unit {0})
insert_acceptance a s = elim (acceptance_of a.task s.acceptances) [
  | some _ ↦ err constraint_failed
  | none ↦ elim (insert a s.acceptances) [
    | some rows ↦ ok (tt, record s { acceptances = rows })
    | none ↦ err constraint_failed
  ]
]

abbrev pub is_waiting : WorkState → Bool
is_waiting WorkState.waiting = true
is_waiting WorkState.accepted = false
is_waiting WorkState.rejected = false

abbrev pub accept_work : String → String → ℕ → Work → Work
accept_work task attempt now w =
    if w.task == task && w.attempt == attempt && is_waiting w.state
    then record w { state = WorkState.accepted; updated_at = now }
    else w

abbrev pub is_awaiting : TaskState → Bool
is_awaiting TaskState.awaiting_verification = true
is_awaiting _ = false

abbrev pub is_succeeded : TaskState → Bool
is_succeeded TaskState.succeeded = true
is_succeeded _ = false

abbrev pub is_created : TaskState → Bool
is_created TaskState.created = true
is_created _ = false

abbrev pub succeed_row : ℕ → Task → Task
succeed_row now t =
    if is_awaiting t.state then record t { state = TaskState.succeeded; updated_at = now } else t

unfoldable pub waits_for : String → String → List (String × String) → Bool
waits_for task other [] = false
waits_for task other ((a, b) ∷ ds) =
    if a == task && b == other then true else waits_for task other ds

-- The tables are joined: a dependency on a task that is not there does not hold anything back.
unfoldable pub is_done : String → List Task → Bool
is_done id ts = elim (find id ts) [ some t ↦ is_succeeded t.state | none ↦ true ]

unfoldable pub all_done : String → List (String × String) → List Task → Bool
all_done task [] ts = true
all_done task ((a, b) ∷ ds) ts =
    if a == task && not (is_done b ts) then false else all_done task ds ts

unfoldable pub release_row : String → ℕ → List (String × String) → List Task → Task → Task
release_row done now ds ts t =
    if is_created t.state && waits_for t.id done ds && all_done t.id ds ts
    then record t { state = TaskState.eligible; updated_at = now }
    else t

-- The `UPDATE` reads the tasks as they were before it.
unfoldable pub release_dependents : String → ℕ → Tx Desk (Unit {0})
release_dependents done now s = ok (
  tt,
  record s {
    store = record s.store {
      tasks = map (release_row done now s.dependencies s.store.tasks) s.store.tasks;
    };
  },
)

-- The fresh acceptance and event, and the reading of the clock.
pub record AcceptanceDraws : Type 0 where
  pub acceptance : String
  pub event : String
  pub now : ℕ

unfoldable pub new_acceptance : AcceptanceDraws → String → String → AcceptanceRequest → Acceptance
new_acceptance w task attempt r = record {
  id = w.acceptance;
  task = task;
  attempt = attempt;
  verifier = r.verifier;
  verifier_type = trim_space r.verifier_type;
  criteria_met = true;
  evidence = normalize_evidence r.evidence;
  created_at = w.now;
}

-- The writes of an acceptance whose checks have passed.
unfoldable pub record_acceptance :
    AcceptanceDraws → String → String → Acceptance → Tx Desk Acceptance
record_acceptance w task attempt a = do
  insert_acceptance a
  modify (λ s. record s { works = map (accept_work task attempt w.now) s.works })
  rows ← gets (λ s. changed task (λ t. is_awaiting t.state) s.store.tasks)
  reject_if (not (nat_eq rows 1)) (failure "task acceptance lost state race")
  on_store (update_task task (succeed_row w.now))
  release_dependents task w.now
  on_store (
      append_event (record {
        id = w.event;
        task = task;
        attempt = some attempt;
        kind = "TASK_ACCEPTED";
        at = w.now;
      }))
  pure a

-- The current attempt of a task that awaits its verification.
unfoldable pub awaited_attempt : String → Tx Desk String
awaited_attempt task = do
  row ← gets (λ s. find task s.store.tasks)
  t ← or_raise row (failure "task not found")
  reject_if (not (is_awaiting t.state)) (failure "task is not awaiting verification")
  or_raise t.current_attempt (failure "task is not awaiting verification")

unfoldable pub accept_in_tx : AcceptanceDraws → String → AcceptanceRequest → Tx Desk Acceptance
accept_in_tx w task r = do
  attempt ← awaited_attempt task
  completion ← gets (λ s. completion_of task attempt s.completions)
  or_raise completion (failure "durable completion record is required before acceptance")
  require_known (normalize_evidence r.evidence)
  record_acceptance w task attempt (new_acceptance w task attempt r)

unfoldable pub accept_task : AcceptanceDraws → String → AcceptanceRequest → Tx Desk Acceptance
accept_task w task r = do
  reject_if (task == "" || r.verifier == "" || trim_space r.verifier_type == "")
      (failure "task, verifier id, and verifier type are required")
  reject_if (not r.criteria_met) (failure "AcceptTask requires satisfied acceptance criteria")
  reject_if (no_evidence (normalize_evidence r.evidence)) (failure "acceptance requires evidence")
  accept_in_tx w task r
