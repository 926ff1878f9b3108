-- ===== src/Execution/Guard.antt =====
-- GuardAttempt of internal/execution/service.go against an independent description of the attempt that
-- holds its task.
use meeseek_collective.Common.{
  ℕ, ◌<◌, ◌≡◌, ◌≢◌, inl, inr, true, none, some, List, String, arith, Option-cases,
}
use meeseek_collective.Common.Rows.{find, find-key}
use meeseek_collective.Common.Result.{ok}
use meeseek_collective.Domain.{TaskState, LeaseState}
use meeseek_collective.Execution.State.{
  Task, Attempt, Store, Guarded, task_key, attempt_key, failure_key, challenge_key, event_key,
}
use meeseek_collective.Execution.Lease.{state_allowed, guard_attempt}

-- The attempt is the task's current one at the task's fence, its lease is active and has not run
-- out, and the task is in one of the states.
pub record Holds (now : ℕ) (id : String) (allowed : List TaskState) (s : Store) : Type 0 where
  pub attempt : Attempt
  pub task : Task
  pub attempt_row : find id s.attempts ≡ some attempt
  pub task_row : find attempt.task s.tasks ≡ some task
  pub current : task.current_attempt ≡ some id
  pub fence : task.current_fence ≡ attempt.fence
  pub active : attempt.lease_state ≡ LeaseState.active
  pub unexpired : now < attempt.lease_expires_at
  pub task_state : state_allowed task.state allowed ≡ true

abbrev pub guarded_by : Attempt → Task → Guarded
guarded_by a t = record {
  task = a.task;
  attempt = a.id;
  fence = a.fence;
  lease_expires_at = a.lease_expires_at;
  task_state = t.state;
}

guard_rows :
    (now : ℕ) (id : String) (allowed : List TaskState) (a : Attempt) (t : Task) (s u : Store)
    (g : Guarded)
    → find id s.attempts ≡ some a
    → find a.task s.tasks ≡ some t
    → a.id ≡ id
    → guard_attempt now id allowed s ≡ ok (g, u)
    → (u ≡ s)
      × (g ≡ guarded_by a t)
      × (t.current_attempt ≡ some id)
      × (t.current_fence ≡ a.fence)
      × (a.lease_state ≡ LeaseState.active)
      × (now < a.lease_expires_at)
      × (state_allowed t.state allowed ≡ true)
unfolding guard_attempt
guard_rows now id allowed a t s u g fa ft own h = ground arith

guard_no_attempt :
    (now : ℕ) (id : String) (allowed : List TaskState) (s u : Store) (g : Guarded)
    → find id s.attempts ≡ none
    → guard_attempt now id allowed s ≢ ok (g, u)
unfolding guard_attempt
guard_no_attempt now id allowed s u g e h = ground arith

guard_no_task :
    (now : ℕ) (id : String) (allowed : List TaskState) (a : Attempt) (s u : Store) (g : Guarded)
    → find id s.attempts ≡ some a
    → find a.task s.tasks ≡ none
    → guard_attempt now id allowed s ≢ ok (g, u)
unfolding guard_attempt
guard_no_task now id allowed a s u g e n h = ground arith

-- A guard that passes changes nothing, reports the attempt's row, and means that the attempt holds
-- its task.
pub guard_attempt-Holds :
    (now : ℕ) (id : String) (allowed : List TaskState) (s u : Store) (g : Guarded)
    → guard_attempt now id allowed s ≡ ok (g, u)
    → (h : Holds now id allowed s) × (u ≡ s) × (g ≡ guarded_by h.attempt h.task)
guard_attempt-Holds now id allowed s u g h = elim (Option-cases (find id s.attempts)) [
  | inl e ↦ absurd (guard_no_attempt now id allowed s u g e h)
  | inr (a, fa) ↦ elim (Option-cases (find a.task s.tasks)) [
    | inl e ↦ absurd (guard_no_task now id allowed a s u g fa e h)
    | inr (t, ft) ↦
        let (same, report, c, f, act, exp, st) =
          guard_rows now id allowed a t s u g fa ft (find-key id s.attempts fa) h in
        (
          record {
            attempt = a;
            task = t;
            attempt_row = fa;
            task_row = ft;
            current = c;
            fence = f;
            active = act;
            unexpired = exp;
            task_state = st;
          },
          same,
          report,
        )
  ]
]

-- An attempt that holds its task passes the guard.
pub Holds-guard_attempt :
    (now : ℕ) (id : String) (allowed : List TaskState) (s : Store) (h : Holds now id allowed s)
    → guard_attempt now id allowed s ≡ ok (guarded_by h.attempt h.task, s)
unfolding guard_attempt
Holds-guard_attempt now id allowed s h = ground (
  arith,
  find-key id s.attempts {r = h.attempt},
  h.attempt_row,
  h.task_row,
  h.current,
  h.fence,
  h.active,
  h.unexpired,
  h.task_state,
)

-- Two attempts on one task never both hold it.
pub Holds-exclusive :
    (now later : ℕ) (i j : String) (xs ys : List TaskState) (s : Store) (h : Holds now i xs s)
    (k : Holds later j ys s)
    → h.attempt.task ≡ k.attempt.task
    → i ≡ j
Holds-exclusive now later i j xs ys s h k e =
    ground (arith, h.task_row, k.task_row, h.current, k.current)
