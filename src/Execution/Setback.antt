-- ===== src/Execution/Setback.antt =====
-- internal/execution/service.go: FailAttempt and ChallengeTask.
use meeseek_collective.Common.{
  ℕ, Bool, true, false, ◌&&◌, ◌||◌, not, Option, none, some, List, [], ◌∷◌, String, ◌==◌,
  if◌then◌else◌, ltb,
}
use meeseek_collective.Common.Text.{trim_space}
use meeseek_collective.Common.Rows.{count}
use meeseek_collective.Common.Result.{failure, Tx, ◌>>=◌, ◌>>◌, pure, reject_if, gets}
use meeseek_collective.Domain.{TaskState, AttemptState, LeaseState, FailureClass, ChallengeScope}
use meeseek_collective.Execution.State.{
  Task, Attempt, Failure, Store, task_key, attempt_key, failure_key, challenge_key, event_key,
  is_active, insert_failure, insert_challenge, update_task, update_attempt, load_task, append_event,
}
use meeseek_collective.Execution.Lease.{Fresh, with_guarded_attempt}

abbrev pub fail_row : ℕ → Attempt → Attempt
fail_row now a = record a {
  state = AttemptState.failed;
  lease_state = LeaseState.revoked;
  completed_at = some now;
}

abbrev pub move_task : TaskState → ℕ → Task → Task
move_task state now t = record t { state = state; updated_at = now }

valid_failure_class : FailureClass → Bool
valid_failure_class (FailureClass.unlisted _) = false
valid_failure_class _ = true

repeats : String → String → List Failure → ℕ
repeats task signature = count (λ f. (f.task == task) && (f.signature == signature))

-- `FailAttempt`: the second failure of a task with one signature blocks it.
unfoldable pub fail_attempt :
    Fresh → ℕ → ℕ → String → FailureClass → String → List String → Tx Store (Unit {0})
unfolding with_guarded_attempt insert_failure update_attempt update_task valid_failure_class repeats
fail_attempt fresh now later id class signature evidence = do
  let text = trim_space signature
  reject_if (text == "" || not (valid_failure_class class))
      (failure "valid failure class and signature are required")
  with_guarded_attempt later id (TaskState.executing ∷ []) (λ guarded. do
    insert_failure (record {
      id = fresh.row;
      attempt = id;
      task = guarded.task;
      class = class;
      signature = text;
      evidence = evidence;
    })
    n ← gets (λ s. repeats guarded.task text s.failures)
    update_attempt id (fail_row now)
    update_task guarded.task
        (move_task (if ltb 1 n then TaskState.blocked else TaskState.eligible) now)
    append_event (record {
      id = fresh.event;
      task = guarded.task;
      attempt = some id;
      kind = "ATTEMPT_FAILED";
      at = now;
    }))

valid_challenge_scope : ChallengeScope → Bool
valid_challenge_scope (ChallengeScope.unlisted _) = false
valid_challenge_scope _ = true

-- `COALESCE(completed_at, ?)`, for an attempt whose lease is active.
abbrev pub or_now : Option ℕ → ℕ → Option ℕ
or_now none now = some now
or_now (some t) now = some t

abbrev pub withdraw_attempt : ℕ → Attempt → Attempt
withdraw_attempt now a =
    if is_active a.lease_state
    then record a {
      lease_state = LeaseState.revoked;
      state = AttemptState.cancelled;
      completed_at = or_now a.completed_at now;
    }
    else a

unfoldable pub withdraw_current : ℕ → Option String → Tx Store (Unit {0})
unfolding update_attempt
withdraw_current now none = pure tt
withdraw_current now (some id) = update_attempt id (withdraw_attempt now)

unfoldable pub challenge_task :
    Fresh → ℕ → String → ChallengeScope → String → List String → Tx Store (Unit {0})
unfolding load_task insert_challenge withdraw_current update_task valid_challenge_scope
challenge_task fresh now task scope reason evidence = do
  let text = trim_space reason
  reject_if (task == "" || text == "" || not (valid_challenge_scope scope))
      (failure "task, valid challenge scope, and reason are required")
  t ← load_task task
  insert_challenge
      (record { id = fresh.row; task = task; scope = scope; reason = text; evidence = evidence })
  withdraw_current now t.current_attempt
  update_task task (move_task TaskState.challenged now)
  append_event (record {
    id = fresh.event;
    task = task;
    attempt = t.current_attempt;
    kind = "TASK_CHALLENGED";
    at = now;
  })
