-- ===== src/Execution/Lease.antt =====
-- internal/execution/service.go: StartAttempt, RenewLease, RevokeLease, GuardAttempt and
-- WithGuardedAttempt. The readings of the clock and the fresh identifiers are arguments.
use meeseek_collective.Common.{
  ℕ, ◌+◌, ◌^◌, Bool, true, false, ◌&&◌, ◌||◌, not, none, some, List, [], ◌∷◌, String, ◌==◌,
  if◌then◌else◌, leb, nat_eq,
}
use meeseek_collective.Common.Int.{ℤ, pos, pos_part, leb_ℤ}
use meeseek_collective.Common.Text.{trim_space}
use meeseek_collective.Common.Rows.{find, changed}
use meeseek_collective.Common.Result.{
  stale_attempt, lease_inactive, constraint_failed, failure, Result, ok, err, Tx, ◌>>=◌, ◌>>◌, pure,
  reject_if, or_raise, gets, lift,
}
use meeseek_collective.Domain.{TaskState, task_state_eq, AttemptState, LeaseState}
use meeseek_collective.Execution.State.{
  Task, Attempt, Store, Guarded, task_key, attempt_key, failure_key, challenge_key, event_key,
  is_eligible, is_executing, is_active, is_current, insert_attempt, update_task, update_attempt,
  load_task, append_event,
}

-- A callback of `AttemptStartRecorder`: of this component's state it writes nothing, and it may fail.
abbrev pub Recorder : Type 0
Recorder = Store → Attempt → Task → Result (Unit {0})

unfoldable pub record_start : List Recorder → Attempt → Task → Tx Store (Unit {0})
record_start [] a t s = ok (tt, s)
record_start (r ∷ rs) a t s = elim (r s a t) [ ok _ ↦ record_start rs a t s | err e ↦ err e ]

-- The identifiers that one call draws.
pub record Fresh : Type 0 where
  pub row : String
  pub event : String

unfoldable pub new_attempt : String → String → String → ℕ → ℕ → ℕ → Attempt
new_attempt id task kind fence expires now = record {
  id = id;
  task = task;
  state = AttemptState.leased;
  fence = fence;
  lease_state = LeaseState.active;
  lease_expires_at = expires;
  executor_kind = trim_space kind;
  started_at = now;
  completed_at = none;
}

abbrev pub lease_task : String → ℕ → ℕ → Task → Task
lease_task attempt fence now t = record t {
  state = TaskState.executing;
  current_attempt = some attempt;
  current_fence = fence;
  updated_at = now;
}

-- `StartAttempt`. The fence is an `int64` that the table wants positive, so the one that wraps around
-- is refused; the last `UPDATE` repeats the conditions that have just been read.
unfoldable pub start_attempt_tx : List Recorder → Fresh → ℕ → String → String → ℕ → Tx Store Attempt
unfolding insert_attempt update_task load_task
start_attempt_tx recorders fresh now task kind duration = do
  t ← load_task task
  reject_if (not (is_eligible t.state)) (failure "task is not ELIGIBLE")
  let attempt = new_attempt fresh.row task kind (t.current_fence + 1) (now + duration) now
  reject_if (leb (2 ^ 63) attempt.fence) constraint_failed
  insert_attempt attempt
  rows ← gets (λ s.
      changed task (λ x. is_eligible x.state && nat_eq x.current_fence t.current_fence) s.tasks)
  reject_if (not (nat_eq rows 1)) stale_attempt
  update_task task (lease_task attempt.id attempt.fence now)
  record_start recorders attempt t
  append_event (record {
    id = fresh.event;
    task = task;
    attempt = some attempt.id;
    kind = "ATTEMPT_LEASED";
    at = now;
  })
  pure attempt

unfoldable pub start_attempt : List Recorder → Fresh → ℕ → String → String → ℤ → Tx Store Attempt
unfolding start_attempt_tx
start_attempt recorders fresh now task kind duration = do
  reject_if (task == "" || trim_space kind == "" || leb_ℤ duration (pos 0))
      (failure "task, executor kind, and positive lease duration are required")
  start_attempt_tx recorders fresh now task kind (pos_part duration)

unfoldable pub state_allowed : TaskState → List TaskState → Bool
unfolding task_state_eq
state_allowed x [] = false
state_allowed x (y ∷ ys) = if task_state_eq x y then true else state_allowed x ys

-- The checks on the row that joins an attempt to its task.
unfoldable pub check_guard : ℕ → List TaskState → Attempt → Task → Result Guarded
check_guard now allowed a t =
    if not (is_current t.current_attempt a.id) || not (nat_eq t.current_fence a.fence)
    then err stale_attempt
    else if not (is_active a.lease_state) || leb a.lease_expires_at now
    then err lease_inactive
    else if not (state_allowed t.state allowed)
    then err stale_attempt
    else ok (record {
      task = a.task;
      attempt = a.id;
      fence = a.fence;
      lease_expires_at = a.lease_expires_at;
      task_state = t.state;
    })

unfoldable pub guard_attempt : ℕ → String → List TaskState → Tx Store Guarded
unfolding check_guard
guard_attempt now id allowed = do
  row ← gets (λ s. find id s.attempts)
  a ← or_raise row stale_attempt
  joined ← gets (λ s. find a.task s.tasks)
  t ← or_raise joined stale_attempt
  lift (check_guard now allowed a t)

unfoldable pub with_guarded_attempt :
    {A : Type 0} → ℕ → String → List TaskState → (Guarded → Tx Store A) → Tx Store A
with_guarded_attempt now id allowed body = guard_attempt now id allowed >>= body

abbrev pub extend_lease : ℕ → Attempt → Attempt
extend_lease expires a =
    if is_active a.lease_state then record a { lease_expires_at = expires } else a

-- `later` is the clock's second reading, after the guard.
unfoldable pub renew_lease : ℕ → ℕ → String → ℤ → Tx Store (Unit {0})
unfolding with_guarded_attempt update_attempt
renew_lease now later id duration = do
  reject_if (leb_ℤ duration (pos 0)) (failure "positive lease duration is required")
  with_guarded_attempt now id (TaskState.executing ∷ [])
      (λ guarded. update_attempt guarded.attempt (extend_lease (later + pos_part duration)))

abbrev pub cancel_attempt : ℕ → Attempt → Attempt
cancel_attempt now a = record a {
  lease_state = LeaseState.revoked;
  state = AttemptState.cancelled;
  completed_at = some now;
}

-- `CASE WHEN current_attempt_id = ? AND state = 'EXECUTING' THEN 'ELIGIBLE' ELSE state END`
abbrev pub requeue_task : String → ℕ → Task → Task
requeue_task attempt now t = record t {
  state =
      if is_current t.current_attempt attempt && is_executing t.state
      then TaskState.eligible
      else t.state;
  updated_at = now;
}

unfoldable pub revoke_lease : String → ℕ → String → Tx Store (Unit {0})
unfolding update_attempt update_task
revoke_lease event now id = do
  row ← gets (λ s. find id s.attempts)
  a ← or_raise row stale_attempt
  if not (is_active a.lease_state) then pure tt else do
    update_attempt id (cancel_attempt now)
    update_task a.task (requeue_task id now)
    append_event
        (record { id = event; task = a.task; attempt = some id; kind = "LEASE_REVOKED"; at = now })
