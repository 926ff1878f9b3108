-- ===== src/Execution/State.antt =====
-- The tables of the execution service and the statements on them. An operation is the body of a
-- transaction; a time is the nanoseconds since Go's zero time.
use meeseek_collective.Common.{
  ℕ, Bool, true, false, ◌&&◌, not, Option, none, some, List, String, ◌==◌,
}
use meeseek_collective.Common.Int.{ℤ}
use meeseek_collective.Common.Rows.{Keyed, find, update, insert}
use meeseek_collective.Common.Result.{
  constraint_failed, failure, ok, err, Tx, ◌>>=◌, ◌>>◌, reject_if, or_raise, gets, modify,
}
use meeseek_collective.Domain.{
  TaskState, AttemptState, LeaseState, EnforcementLevel, FailureClass, ChallengeScope, PurposeRef,
}

pub record Task : Type 0 where
  pub id : String
  pub parent : String
  pub purpose : PurposeRef
  pub task_class : String
  pub objective : String
  pub payload : String
  pub idempotency_key : String
  pub request_hash : String
  pub state : TaskState
  pub current_attempt : Option String
  pub current_fence : ℕ
  pub acceptance_criteria : List String
  pub required_capabilities : List String
  pub required_enforcement : EnforcementLevel
  pub authority_ceiling : List String
  pub resource_envelope : String
  pub priority : ℤ
  pub earliest_start : ℕ
  pub deadline : ℕ
  pub created_at : ℕ
  pub updated_at : ℕ

pub record Attempt : Type 0 where
  pub id : String
  pub task : String
  pub state : AttemptState
  pub fence : ℕ
  pub lease_state : LeaseState
  pub lease_expires_at : ℕ
  pub executor_kind : String
  pub started_at : ℕ
  pub completed_at : Option ℕ

pub record Failure : Type 0 where
  pub id : String
  pub attempt : String
  pub task : String
  pub class : FailureClass
  pub signature : String
  pub evidence : List String

pub record Challenge : Type 0 where
  pub id : String
  pub task : String
  pub scope : ChallengeScope
  pub reason : String
  pub evidence : List String

pub record Event : Type 0 where
  pub id : String
  pub task : String
  pub attempt : Option String
  pub kind : String
  pub at : ℕ

pub record Store : Type 0 where
  pub tasks : List Task
  pub attempts : List Attempt
  pub failures : List Failure
  pub challenges : List Challenge
  pub events : List Event

pub record Guarded : Type 0 where
  pub task : String
  pub attempt : String
  pub fence : ℕ
  pub lease_expires_at : ℕ
  pub task_state : TaskState

instance abbrev pub task_key : Keyed Task
task_key = record { key = λ t. t.id }

instance abbrev pub attempt_key : Keyed Attempt
attempt_key = record { key = λ a. a.id }

instance abbrev pub failure_key : Keyed Failure
failure_key = record { key = λ f. f.id }

instance abbrev pub challenge_key : Keyed Challenge
challenge_key = record { key = λ c. c.id }

instance abbrev pub event_key : Keyed Event
event_key = record { key = λ e. e.id }

abbrev pub is_eligible : TaskState → Bool
is_eligible TaskState.eligible = true
is_eligible _ = false

abbrev pub is_executing : TaskState → Bool
is_executing TaskState.executing = true
is_executing _ = false

abbrev pub is_active : LeaseState → Bool
is_active LeaseState.active = true
is_active _ = false

abbrev pub is_current : Option String → String → Bool
is_current none id = false
is_current (some j) id = j == id

unfoldable pub insert_attempt : Attempt → Tx Store (Unit {0})
insert_attempt a s = elim (insert a s.attempts) [
  | some rows ↦ ok (tt, record s { attempts = rows })
  | none ↦ err constraint_failed
]

unfoldable pub insert_failure : Failure → Tx Store (Unit {0})
insert_failure f s = elim (insert f s.failures) [
  | some rows ↦ ok (tt, record s { failures = rows })
  | none ↦ err constraint_failed
]

unfoldable pub insert_challenge : Challenge → Tx Store (Unit {0})
insert_challenge c s = elim (insert c s.challenges) [
  | some rows ↦ ok (tt, record s { challenges = rows })
  | none ↦ err constraint_failed
]

unfoldable pub update_task : String → (Task → Task) → Tx Store (Unit {0})
update_task id f s = ok (tt, record s { tasks = update id f s.tasks })

unfoldable pub update_attempt : String → (Attempt → Attempt) → Tx Store (Unit {0})
update_attempt id f s = ok (tt, record s { attempts = update id f s.attempts })

unfoldable pub load_task : String → Tx Store Task
load_task id s = elim (find id s.tasks) [
  | some t ↦ ok (t, s)
  | none ↦ err (failure "task not found")
]

-- The foreign keys of an event: its task and, where it names one, its attempt.
refers : Event → Store → Bool
refers e s = elim (find e.task s.tasks) [ some _ ↦ true | none ↦ false ] && elim e.attempt [
  | none ↦ true
  | some a ↦ elim (find a s.attempts) [ some _ ↦ true | none ↦ false ]
]

unfoldable pub append_event : Event → Tx Store (Unit {0})
unfolding refers
append_event e = do
  good ← gets (refers e)
  reject_if (not good) constraint_failed
  rows ← gets (λ s. insert e s.events)
  events ← or_raise rows constraint_failed
  modify (λ s. record s { events = events })
