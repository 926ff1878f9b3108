-- ===== src/Execution/Examples.antt =====
-- The theorems on tasks and attempts at one task, its attempt, and a child.
use meeseek_collective.Common.{
  ◌≡◌, ◌≢◌, refl, some, none, List, [], ◌∷◌, String, arith, string_dec, ne_of_test,
}
use meeseek_collective.Common.Int.{pos}
use meeseek_collective.Common.Text.{trim_space}
use meeseek_collective.Common.Sets.{normalize, insert_sorted, has_string}
use meeseek_collective.Common.Rows.{find, insert, update, changed, count}
use meeseek_collective.Common.Result.{ok}
use meeseek_collective.Domain.{
  TaskState, AttemptState, LeaseState, EnforcementLevel, PurposeKind, task_state_eq,
}
use meeseek_collective.Execution.State.{
  Task, Attempt, Store, task_key, attempt_key, event_key, failure_key, insert_attempt, update_task,
  update_attempt, load_task, append_event,
}
use meeseek_collective.Execution.Lease.{
  record_start, new_attempt, start_attempt, start_attempt_tx, guard_attempt, check_guard,
  state_allowed, revoke_lease,
}
use meeseek_collective.Execution.Intake.{
  TaskRequest, child_request, check_child_authority, check_child_terms, check_child_window, inherit,
  all_in, is_empty, normalize_criteria, inherit_list, inherit_level, inherit_time, bad_window,
  is_blank_level, valid_enforcement, enforcement_rank,
}
use meeseek_collective.Execution.Creation.{
  Outside, insert_task_tx, normalize_task_intent, canonical_payload, request_hash, new_task,
  find_by_key, insert_task, insert_or_replay, check_task_guard,
}
use meeseek_collective.Execution.Child.{IsNarrower, child_request-IsNarrower}
use meeseek_collective.Execution.Reads.{
  find_by_idempotency_key, insert_task_tx-find_by_idempotency_key,
}
use meeseek_collective.Execution.Replay.{insert_task_tx_again}
use meeseek_collective.Execution.Guard.{Holds, guarded_by, guard_attempt-Holds, Holds-guard_attempt}
use meeseek_collective.Execution.Calls.{Call, starts, revokes, after, run}
use meeseek_collective.Execution.Exclusive.{IsSoundStore, run-IsSoundStore, run_exclusive}
use meeseek_collective.Execution.Ended.{run_ended_guard}

abbrev work : Task
work = record {
  id = "t1";
  parent = "";
  purpose = record { kind = PurposeKind.mission; id = "m1" };
  task_class = "CODE";
  objective = "read";
  payload = "{}";
  idempotency_key = "";
  request_hash = "";
  state = TaskState.eligible;
  current_attempt = none;
  current_fence = 0;
  acceptance_criteria = "done" ∷ [];
  required_capabilities = "repo.read" ∷ [];
  required_enforcement = EnforcementLevel.partial;
  authority_ceiling = "repo.read" ∷ "repo.write" ∷ [];
  resource_envelope = "env";
  priority = pos 1;
  earliest_start = 10;
  deadline = 90;
  created_at = 1;
  updated_at = 1;
}

abbrev pub idle : Store
idle = record { tasks = work ∷ []; attempts = []; failures = []; challenges = []; events = [] }

pub idle-IsSound : IsSoundStore idle
unfolding find
idle-IsSound = record {
  tasks_unique = (refl, tt);
  attempts_unique = tt;
  executes = λ i a e active. absurd (cc);
  fenced = λ i a e. absurd (cc);
}

abbrev calls : List Call
calls =
    starts [] (record { row = "x1"; event = "e1" }) 20 "t1" "codex" (pos 30)
    ∷ revokes "e2" 25 "x1"
    ∷ starts [] (record { row = "x2"; event = "e3" }) 26 "t1" "codex" (pos 30)
    ∷ []

run-IsSoundStore_example : IsSoundStore (run idle calls)
run-IsSoundStore_example = run-IsSoundStore idle calls idle-IsSound

abbrev pub second : Attempt
second = record {
  id = "x2";
  task = "t1";
  state = AttemptState.leased;
  fence = 2;
  lease_state = LeaseState.active;
  lease_expires_at = 56;
  executor_kind = "codex";
  started_at = 26;
  completed_at = none;
}

run_row : find "x2" (run idle calls).attempts ≡ some second
unfolding run after start_attempt start_attempt_tx record_start new_attempt revoke_lease
    insert_attempt update_task update_attempt load_task append_event find insert update changed
    count string_dec trim_space
run_row = refl

run_exclusive_example : ◌≡◌ {A = String} "x2" "x2"
run_exclusive_example =
    run_exclusive idle calls "x2" "x2" second second idle-IsSound run_row run_row refl refl refl

abbrev first : Attempt
first = record second {
  id = "x1";
  state = AttemptState.cancelled;
  fence = 1;
  lease_state = LeaseState.revoked;
  completed_at = some 25;
}

abbrev revoked : Store
revoked = record idle { attempts = first ∷ [] }

run_ended_guard_example :
    guard_attempt 27 "x1" (TaskState.executing ∷ []) (run revoked calls)
    ≢ ok (guarded_by first work, run revoked calls)
unfolding find string_dec
run_ended_guard_example =
    run_ended_guard "x1" first revoked calls 27 (TaskState.executing ∷ []) (run revoked calls)
      (guarded_by first work) refl (λ e. cc)

abbrev pub busy_task : Task
busy_task = record work {
  state = TaskState.executing;
  current_attempt = some "x2";
  current_fence = 2;
}

abbrev busy : Store
busy = record idle { tasks = busy_task ∷ []; attempts = second ∷ [] }

guard_attempt-Holds_example :
    (h : Holds 30 "x2" (TaskState.executing ∷ []) busy) × (busy ≡ busy)
    × (guarded_by second busy_task ≡ guarded_by h.attempt h.task)
unfolding guard_attempt check_guard state_allowed task_state_eq find string_dec
guard_attempt-Holds_example =
    guard_attempt-Holds 30 "x2" (TaskState.executing ∷ []) busy busy (guarded_by second busy_task)
      refl

Holds-guard_attempt_example :
    guard_attempt 30 "x2" (TaskState.executing ∷ []) busy ≡ ok (guarded_by second busy_task, busy)
unfolding state_allowed task_state_eq find string_dec
Holds-guard_attempt_example = Holds-guard_attempt 30 "x2" (TaskState.executing ∷ []) busy (record {
  attempt = second;
  task = busy_task;
  attempt_row = refl;
  task_row = refl;
  current = refl;
  fence = refl;
  active = refl;
  unexpired = omega arith;
  task_state = refl;
})

abbrev part : TaskRequest
part = record {
  purpose = record { kind = PurposeKind.unlisted ""; id = "" };
  task_class = "";
  objective = " look ";
  payload = "";
  idempotency_key = "k1";
  acceptance_criteria = "seen" ∷ [];
  required_capabilities = "repo.read" ∷ [];
  required_enforcement = EnforcementLevel.enforced;
  authority_ceiling = " repo.read" ∷ [];
  resource_envelope = "";
  priority = pos 0;
  earliest_start = 0;
  deadline = 50;
}

child_request-IsNarrower_example : IsNarrower work (inherit work part)
unfolding child_request check_child_authority check_child_terms check_child_window all_in is_empty
    has_string normalize_criteria inherit_list inherit_level inherit_time bad_window is_blank_level
    valid_enforcement enforcement_rank normalize insert_sorted string_dec trim_space
child_request-IsNarrower_example =
    child_request-IsNarrower work part (inherit work part) idle idle refl

abbrev outside : Outside
outside = record {
  canonical = λ s. ok s;
  hash = λ parent r. r.objective;
  validate_purpose = λ s p. ok tt;
}

abbrev keyed : TaskRequest
keyed = record part {
  purpose = record { kind = PurposeKind.mission; id = "m1" };
  resource_envelope = "env";
}

abbrev made : Task
made = record work {
  id = "t2";
  parent = "t1";
  purpose = keyed.purpose;
  task_class = "";
  objective = "look";
  idempotency_key = "k1";
  request_hash = "look";
  acceptance_criteria = "seen" ∷ [];
  required_enforcement = EnforcementLevel.enforced;
  authority_ceiling = " repo.read" ∷ [];
  priority = pos 0;
  earliest_start = 0;
  deadline = 50;
  created_at = 20;
  updated_at = 20;
}

insert_task_tx_again_example :
    insert_task_tx outside "t3" 30 "t1" keyed
      (λ s. ok tt)
      (record idle { tasks = made ∷ work ∷ [] })
    ≡ ok (made, record idle { tasks = made ∷ work ∷ [] })
unfolding insert_task_tx normalize_task_intent canonical_payload request_hash new_task find_by_key
    insert_or_replay insert_task check_task_guard find insert string_dec trim_space
insert_task_tx_again_example =
    insert_task_tx_again outside "t2" "t3" 20 30 "t1" keyed (λ s. ok tt) idle
      (record idle { tasks = made ∷ work ∷ [] }) made (ne_of_test "k1" "" refl) refl refl

insert_task_tx-find_by_idempotency_key_example :
    find_by_idempotency_key " k1" (record idle { tasks = made ∷ work ∷ [] }) ≡ ok (some made)
unfolding insert_task_tx normalize_task_intent canonical_payload request_hash new_task find_by_key
    insert_or_replay insert_task check_task_guard find insert string_dec trim_space
insert_task_tx-find_by_idempotency_key_example =
    insert_task_tx-find_by_idempotency_key outside "t2" 20 "t1"
      (record keyed { idempotency_key = " k1" }) (λ s. ok tt) idle
      (record idle { tasks = made ∷ work ∷ [] }) made (ne_of_test "k1" "" refl) refl
