-- ===== src/Execution/Writes.antt =====
-- What each operation on attempts writes to the tables of tasks and attempts when it succeeds.
use meeseek_collective.Common.{
  ℕ, ◌+◌, ◌≡◌, ◌⊎◌, inl, inr, none, some, List, [], ◌∷◌, String, arith, Option-cases,
}
use meeseek_collective.Common.Int.{ℤ, pos_part}
use meeseek_collective.Common.Rows.{find, update, insert, find-key}
use meeseek_collective.Common.Result.{ok, Result-cases}
use meeseek_collective.Domain.{TaskState, LeaseState, FailureClass, ChallengeScope}
use meeseek_collective.Execution.State.{
  Task, Attempt, Event, Store, task_key, attempt_key, failure_key, challenge_key, event_key,
  append_event,
}
use meeseek_collective.Execution.Lease.{
  Fresh, Recorder, record_start, new_attempt, lease_task, start_attempt, guard_attempt,
  extend_lease, renew_lease, cancel_attempt, requeue_task, revoke_lease,
}
use meeseek_collective.Execution.Setback.{
  fail_row, move_task, fail_attempt, withdraw_attempt, challenge_task,
}
use meeseek_collective.Execution.Guard.{Holds, guard_attempt-Holds}

-- The two tables that the invariant reads.
abbrev pub SameTables : Store → Store → Type 0
SameTables s t = (t.tasks ≡ s.tasks) × (t.attempts ≡ s.attempts)

pub append_event-SameTables :
    (e : Event) (s t : Store) → append_event e s ≡ ok (tt, t) → SameTables s t
unfolding append_event
append_event-SameTables e s t h = ground arith

pub revoke_lease_cases :
    (event : String) (now : ℕ) (id : String) (s t : Store)
    → revoke_lease event now id s ≡ ok (tt, t)
    → SameTables s t
      ⊎ ((a : Attempt) × (find id s.attempts ≡ some a)
          × (a.lease_state ≡ LeaseState.active)
          × (t.tasks ≡ update a.task (requeue_task id now) s.tasks)
          × (t.attempts ≡ update id (cancel_attempt now) s.attempts))
unfolding revoke_lease append_event
revoke_lease_cases event now id s t h = elim (Option-cases (find id s.attempts)) [
  | inl e ↦ absurd (ground arith)
  | inr (a, e) ↦ ground (arith, h, e)
]

pub renew_lease_cases :
    (now later : ℕ) (id : String) (duration : ℤ) (s t : Store)
    → renew_lease now later id duration s ≡ ok (tt, t)
    → (h : Holds now id (TaskState.executing ∷ []) s) × (t.tasks ≡ s.tasks)
      × (t.attempts ≡ update id (extend_lease (later + pos_part duration)) s.attempts)
unfolding renew_lease
renew_lease_cases now later id duration s t h =
    elim (Result-cases (guard_attempt now id (TaskState.executing ∷ []) s)) [
      | inl (g, u, e) ↦
          let (held, same, report) =
            guard_attempt-Holds now id (TaskState.executing ∷ []) s u g e in
          let own = find-key id s.attempts held.attempt_row in
          (held, ground (arith, h, e, same), ground (arith, h, e, same, report, own))
      | inr (x, e) ↦ absurd (ground (arith, h, e))
    ]

pub fail_attempt_cases :
    (fresh : Fresh) (now later : ℕ) (id : String) (class : FailureClass) (signature : String)
    (evidence : List String) (s t : Store)
    → fail_attempt fresh now later id class signature evidence s ≡ ok (tt, t)
    → (h : Holds later id (TaskState.executing ∷ []) s) × ((t.tasks
          ≡ update h.attempt.task (move_task TaskState.eligible now) s.tasks)
        ⊎ (t.tasks ≡ update h.attempt.task (move_task TaskState.blocked now) s.tasks))
      × (t.attempts ≡ update id (fail_row now) s.attempts)
unfolding fail_attempt append_event
fail_attempt_cases fresh now later id class signature evidence s t h =
    elim (Result-cases (guard_attempt later id (TaskState.executing ∷ []) s)) [
      | inl (g, u, e) ↦
          let (held, same, report) =
            guard_attempt-Holds later id (TaskState.executing ∷ []) s u g e in
          (held, ground (arith, h, e, same, report), ground (arith, h, e, same, report))
      | inr (x, e) ↦ absurd (ground (arith, h, e))
    ]

pub challenge_task_cases :
    (fresh : Fresh) (now : ℕ) (task : String) (scope : ChallengeScope) (reason : String)
    (evidence : List String) (s t : Store)
    → challenge_task fresh now task scope reason evidence s ≡ ok (tt, t)
    → (x : Task) × (find task s.tasks ≡ some x)
      × (t.tasks ≡ update task (move_task TaskState.challenged now) s.tasks)
      × (((x.current_attempt ≡ none) × (t.attempts ≡ s.attempts))
          ⊎ ((j : String) × (x.current_attempt ≡ some j)
              × (t.attempts ≡ update j (withdraw_attempt now) s.attempts)))
unfolding challenge_task append_event
challenge_task_cases fresh now task scope reason evidence s t h =
    elim (Option-cases (find task s.tasks)) [
      | inl e ↦ absurd (ground arith)
      | inr (x, e) ↦ (x, e, ground (arith, h, e), ground (arith, h, e))
    ]

record_start_reads :
    (recorders : List Recorder) (a : Attempt) (x : Task) (s t : Store)
    → record_start recorders a x s ≡ ok (tt, t)
    → t ≡ s
unfolding record_start
record_start_reads [] a x s t h = ground arith
record_start_reads (r ∷ rs) a x s t h = ground (arith, record_start_reads rs a x s t)

pub start_attempt_cases :
    (recorders : List Recorder) (fresh : Fresh) (now : ℕ) (task kind : String) (duration : ℤ)
    (s t : Store) (a : Attempt)
    → start_attempt recorders fresh now task kind duration s ≡ ok (a, t)
    → (x : Task) × (find task s.tasks ≡ some x)
      × (x.state ≡ TaskState.eligible)
      × (a ≡ new_attempt fresh.row task kind (x.current_fence + 1) (now + pos_part duration) now)
      × (insert a s.attempts ≡ some t.attempts)
      × (t.tasks ≡ update task (lease_task a.id a.fence now) s.tasks)
unfolding start_attempt append_event
start_attempt_cases recorders fresh now task kind duration s t a h =
    elim (Option-cases (find task s.tasks)) [
      | inl e ↦ absurd (ground (arith, h, e))
      | inr (x, e) ↦
          let b : Attempt =
            new_attempt fresh.row task kind (x.current_fence + 1) (now + pos_part duration) now in
          elim (Option-cases (insert b s.attempts)) [
            | inl i ↦ absurd (ground (arith, h, e, i))
            | inr (rows, i) ↦
                let u : Store = record s {
                  attempts = rows;
                  tasks = update task (lease_task b.id b.fence now) s.tasks;
                } in
                elim (Result-cases (record_start recorders b x u)) [
                  | inl (v, u', r) ↦
                      let same = record_start_reads recorders b x u u' r in
                      (
                        x,
                        e,
                        ground (arith, h, e),
                        ground (arith, h, e, i, r),
                        ground (arith, h, e, i, r, same),
                        ground (arith, h, e, i, r, same),
                      )
                  | inr (y, r) ↦ absurd (ground (arith, h, e, i, r))
                ]
          ]
    ]
