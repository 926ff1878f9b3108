-- ===== src/Execution/Exclusive.antt =====
-- internal/execution/service.go: each call against the invariant, and the runs of calls.
use native.Mathlib.Nat.{le_refl}
use meeseek_collective.Common.{
  ℕ, ◌+◌, ◌≡◌, ◌≢◌, refl, sym, ap, subst, inl, inr, none, some, List, [], ◌∷◌, String, arith,
}
use meeseek_collective.Common.Int.{ℤ, pos_part}
use meeseek_collective.Common.Rows.{
  find, update, insert, KeepsKey, find-update_self, find-insert_cases, update-Unique, insert-Unique,
}
use meeseek_collective.Common.Result.{ok, with_tx_cases}
use meeseek_collective.Domain.{TaskState, LeaseState, FailureClass, ChallengeScope}
use meeseek_collective.Execution.State.{
  Task, Attempt, Store, task_key, attempt_key, failure_key, challenge_key, event_key,
}
use meeseek_collective.Execution.Lease.{
  Fresh, Recorder, new_attempt, lease_task, start_attempt, extend_lease, renew_lease,
  cancel_attempt, requeue_task, revoke_lease,
}
use meeseek_collective.Execution.Setback.{
  fail_row, move_task, fail_attempt, withdraw_attempt, challenge_task,
}
use meeseek_collective.Execution.Invariant.{
  IsSound, Executes, Fenced, Prior, EndsLease, KeepsFence, relabelled-IsSound, taken-IsSound,
  current_only, ended-Prior, retask-Executes, retask-Fenced,
}
use meeseek_collective.Execution.Writes.{
  SameTables, revoke_lease_cases, renew_lease_cases, fail_attempt_cases, challenge_task_cases,
  start_attempt_cases,
}
use meeseek_collective.Execution.Creation.{create_task, create_child}
use meeseek_collective.Execution.Created.{create_task-Added, create_child-Added, Added-IsSound}
use meeseek_collective.Execution.Calls.{
  creates, creates_child, Call, starts, renews, revokes, fails, challenges, after, run,
}

abbrev pub IsSoundStore : Store → Type 0
IsSoundStore s = IsSound s.tasks s.attempts

stored-IsSound :
    (t : Store) (tasks : List Task) (attempts : List Attempt)
    → t.tasks ≡ tasks
    → t.attempts ≡ attempts
    → IsSound tasks attempts
    → IsSoundStore t
stored-IsSound t tasks attempts e e' v =
    subst (λ x. IsSound x t.attempts) (sym e) (subst (λ x. IsSound tasks x) (sym e') v)

pub same-IsSound : (s t : Store) → SameTables s t → IsSoundStore s → IsSoundStore t
same-IsSound s t e v = stored-IsSound t s.tasks s.attempts e.0 e.1 v

cancel-EndsLease : (now : ℕ) → EndsLease (cancel_attempt now)
cancel-EndsLease now = record {
  keeps = λ a. refl;
  task = λ a. refl;
  fence = λ a. refl;
  ends = λ a e. cc;
}

fail-EndsLease : (now : ℕ) → EndsLease (fail_row now)
fail-EndsLease now = record {
  keeps = λ a. refl;
  task = λ a. refl;
  fence = λ a. refl;
  ends = λ a e. cc;
}

withdraw-EndsLease : (now : ℕ) → EndsLease (withdraw_attempt now)
withdraw-EndsLease now = record {
  keeps = λ a. ground arith;
  task = λ a. ground arith;
  fence = λ a. ground arith;
  ends = λ a e. ground arith;
}

-- Ending the lease of a task's current attempt, and moving the task, keeps the invariant.
ended-IsSound :
    (s : Store) (x : Task) (T j : String) (f : Task → Task) (g : Attempt → Attempt)
    → IsSoundStore s
    → EndsLease g
    → KeepsKey f
    → KeepsFence s.tasks T f
    → find T s.tasks ≡ some x
    → x.current_attempt ≡ some j
    → IsSound (update T f s.tasks) (update j g s.attempts)
ended-IsSound s x T j f g v ends keeps kf fx c =
    taken-IsSound s.tasks s.attempts (update j g s.attempts) T f v keeps kf
      (update-Unique j g s.attempts ends.keeps v.attempts_unique)
      (ended-Prior s.tasks s.attempts x T j g v ends fx c)

revoke_lease-IsSound :
    (event : String) (now : ℕ) (id : String) (s t : Store)
    → revoke_lease event now id s ≡ ok (tt, t)
    → IsSoundStore s
    → IsSoundStore t
revoke_lease-IsSound event now id s t h v = elim (revoke_lease_cases event now id s t h) [
  | inl e ↦ same-IsSound s t e v
  | inr (a, fa, active, e, e') ↦
      let x = v.executes id a fa active in
      stored-IsSound t _ _ e e' (
        ended-IsSound s x.task a.task id (requeue_task id now) (cancel_attempt now) v
          (cancel-EndsLease now) (λ y. refl) (λ y _. le_refl y.current_fence) x.row x.current)
]

fail_attempt-IsSound :
    (fresh : Fresh) (now later : ℕ) (id : String) (class : FailureClass) (signature : String)
    (evidence : List String) (s t : Store)
    → fail_attempt fresh now later id class signature evidence s ≡ ok (tt, t)
    → IsSoundStore s
    → IsSoundStore t
fail_attempt-IsSound fresh now later id class signature evidence s t h v =
    let (k, e, e') = fail_attempt_cases fresh now later id class signature evidence s t h in
    let sound : (z : TaskState)
        → IsSound (update k.attempt.task (move_task z now) s.tasks)
            (update id (fail_row now) s.attempts) =
      λ z.
        ended-IsSound s k.task k.attempt.task id (move_task z now) (fail_row now) v
          (fail-EndsLease now) (λ y. refl) (λ y _. le_refl y.current_fence) k.task_row k.current in
    elim e [
      | inl w ↦ stored-IsSound t _ _ w e' (sound TaskState.eligible)
      | inr w ↦ stored-IsSound t _ _ w e' (sound TaskState.blocked)
    ]

-- A task with no current attempt has no attempt with an active lease.
idle-Prior :
    (s : Store) (x : Task) (T : String)
    → IsSoundStore s
    → find T s.tasks ≡ some x
    → x.current_attempt ≡ none
    → (i : String) (a : Attempt) → find i s.attempts ≡ some a
    → Prior s.attempts T i a
idle-Prior s x T v fx idle i a e = record {
  before = a;
  row = e;
  same_task = refl;
  same_fence = refl;
  still = λ active. (active, λ on_T. absurd (idle_clash i a (v.executes i a e active) on_T));
}
  where
    idle_clash : (i : String) (a : Attempt) → Executes s.tasks i a → a.task ≡ T → ⊥
    idle_clash i a y on_T = ground (arith, y.row, y.current, fx, idle, on_T)

challenge_task-IsSound :
    (fresh : Fresh) (now : ℕ) (task : String) (scope : ChallengeScope) (reason : String)
    (evidence : List String) (s t : Store)
    → challenge_task fresh now task scope reason evidence s ≡ ok (tt, t)
    → IsSoundStore s
    → IsSoundStore t
challenge_task-IsSound fresh now task scope reason evidence s t h v =
    let (x, fx, e, current) = challenge_task_cases fresh now task scope reason evidence s t h in
    elim current [
      | inl (idle, same) ↦ stored-IsSound t _ _ e same (
          taken-IsSound s.tasks s.attempts s.attempts task (move_task TaskState.challenged now) v
            (λ y. refl) (λ y _. le_refl y.current_fence) v.attempts_unique
            (idle-Prior s x task v fx idle))
      | inr (j, c, e') ↦ stored-IsSound t _ _ e e' (
          ended-IsSound s x task j (move_task TaskState.challenged now) (withdraw_attempt now) v
            (withdraw-EndsLease now) (λ y. refl) (λ y _. le_refl y.current_fence) fx c)
    ]

renew_lease-IsSound :
    (now later : ℕ) (id : String) (duration : ℤ) (s t : Store)
    → renew_lease now later id duration s ≡ ok (tt, t)
    → IsSoundStore s
    → IsSoundStore t
renew_lease-IsSound now later id duration s t h v =
    let (held, e, e') = renew_lease_cases now later id duration s t h in
    stored-IsSound t _ _ e e' (
      relabelled-IsSound s.tasks s.attempts id (extend_lease (later + pos_part duration)) v
        (λ a. ground arith) (λ a. (ground arith, ground arith, ground arith)))

not_on_eligible :
    (s : Store) (x : Task) (T : String)
    → IsSoundStore s
    → find T s.tasks ≡ some x
    → x.state ≡ TaskState.eligible
    → (i : String) (b : Attempt) → find i s.attempts ≡ some b
    → b.lease_state ≡ LeaseState.active
    → b.task ≢ T
not_on_eligible s x T v fx eligible i b e active on_T =
    let y = v.executes i b e active in ground (arith, y.row, y.executing, fx, eligible, on_T)

-- A new attempt on an eligible task, one fence above the last.
leased-IsSound :
    (s : Store) (rows : List Attempt) (x : Task) (T : String) (a : Attempt) (now : ℕ)
    → IsSoundStore s
    → find T s.tasks ≡ some x
    → x.state ≡ TaskState.eligible
    → a.task ≡ T
    → a.fence ≡ x.current_fence + 1
    → insert a s.attempts ≡ some rows
    → IsSound (update T (lease_task a.id a.fence now) s.tasks) rows
leased-IsSound s rows x T a now v fx eligible own fence ins =
    let f : Task → Task = lease_task a.id a.fence now in
    let keeps : KeepsKey f = λ y. refl in
    let row : find a.task (update T f s.tasks) ≡ some (f x) =
      subst (λ k. find k (update T f s.tasks) ≡ some (f x)) (sym own)
        (find-update_self T f s.tasks keeps fx) in
    let raises : KeepsFence s.tasks T f = λ y fy. ground (arith, fx, fy, fence) in
    record {
      tasks_unique = update-Unique T f s.tasks keeps v.tasks_unique;
      attempts_unique = insert-Unique a s.attempts ins v.attempts_unique;
      executes = λ i b e active. elim (find-insert_cases a s.attempts i ins e) [
        | inl (k, w) ↦
            subst (Executes (update T f s.tasks) i) (sym w) (record {
              task = f x;
              row = row;
              current = ap some k;
              fence = refl;
              executing = refl;
            })
        | inr old ↦
            retask-Executes s.tasks T f keeps i b
              (not_on_eligible s x T v fx eligible i b old active) (v.executes i b old active)
      ];
      fenced = λ i b e. elim (find-insert_cases a s.attempts i ins e) [
        | inl (k, w) ↦
            subst (Fenced (update T f s.tasks)) (sym w)
              (record { task = f x; row = row; below = le_refl a.fence })
        | inr old ↦ retask-Fenced s.tasks T f keeps b b refl refl raises (v.fenced i b old)
      ];
    }

start_attempt-IsSound :
    (recorders : List Recorder) (fresh : Fresh) (now : ℕ) (task kind : String) (duration : ℤ)
    (s t : Store) (a : Attempt)
    → start_attempt recorders fresh now task kind duration s ≡ ok (a, t)
    → IsSoundStore s
    → IsSoundStore t
unfolding new_attempt
start_attempt-IsSound recorders fresh now task kind duration s t a h v =
    let (x, fx, eligible, b, ins, e) =
      start_attempt_cases recorders fresh now task kind duration s t a h in
    stored-IsSound t _ _ e refl (
      leased-IsSound s t.attempts x task a now v fx eligible (ap (λ (y : Attempt). y.task) b)
        (ap (λ (y : Attempt). y.fence) b) ins)

pub after-IsSound : (s : Store) (c : Call) → IsSoundStore s → IsSoundStore (after s c)
unfolding after
after-IsSound s (creates o fresh now request guard) v =
    with_tx_cases IsSoundStore (create_task o fresh now request guard) s v
      λ a t h. Added-IsSound s t (create_task-Added o fresh now request guard s t a h) v
after-IsSound s (creates_child o fresh now p request) v =
    with_tx_cases IsSoundStore (create_child o fresh now p request) s v
      λ a t h. Added-IsSound s t (create_child-Added o fresh now p request s t a h) v
after-IsSound s (starts recorders fresh now task kind duration) v =
    with_tx_cases IsSoundStore (start_attempt recorders fresh now task kind duration) s v
      λ a t h. start_attempt-IsSound recorders fresh now task kind duration s t a h v
after-IsSound s (renews now later id duration) v =
    with_tx_cases IsSoundStore (renew_lease now later id duration) s v
      λ u t h. renew_lease-IsSound now later id duration s t h v
after-IsSound s (revokes event now id) v =
    with_tx_cases IsSoundStore (revoke_lease event now id) s v
      λ u t h. revoke_lease-IsSound event now id s t h v
after-IsSound s (fails fresh now later id class signature evidence) v =
    with_tx_cases IsSoundStore (fail_attempt fresh now later id class signature evidence) s v
      λ u t h. fail_attempt-IsSound fresh now later id class signature evidence s t h v
after-IsSound s (challenges fresh now task scope reason evidence) v =
    with_tx_cases IsSoundStore (challenge_task fresh now task scope reason evidence) s v
      λ u t h. challenge_task-IsSound fresh now task scope reason evidence s t h v

-- Whatever calls are made on a sound store, an active lease is always that of the current attempt of an executing task
-- at the task's fence, and no attempt is fenced above its task.
pub run-IsSoundStore : (s : Store) (cs : List Call) → IsSoundStore s → IsSoundStore (run s cs)
unfolding run
run-IsSoundStore s [] v = v
run-IsSoundStore s (c ∷ cs) v = run-IsSoundStore (after s c) cs (after-IsSound s c v)

-- After any calls on a sound store two attempts with active leases on one task are the same.
pub run_exclusive :
    (s : Store) (cs : List Call) (i j : String) (a b : Attempt)
    → IsSoundStore s
    → find i (run s cs).attempts ≡ some a
    → find j (run s cs).attempts ≡ some b
    → a.lease_state ≡ LeaseState.active
    → b.lease_state ≡ LeaseState.active
    → a.task ≡ b.task
    → i ≡ j
run_exclusive s cs i j a b v fa fb active active' e =
    let w = run-IsSoundStore s cs v in
    let x = w.executes j b fb active' in
    current_only (run s cs).tasks (run s cs).attempts x.task j i a w
      (subst (λ k. find k (run s cs).tasks ≡ some x.task) (sym e) x.row) x.current fa active
