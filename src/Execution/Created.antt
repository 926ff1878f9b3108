-- ===== src/Execution/Created.antt =====
-- internal/execution/service.go: what the creation of a task writes to the tables.
use meeseek_collective.Common.{
  ℕ, ◌≡◌, refl, sym, ap, subst, ◌∙◌, ◌⊎◌, inl, inr, Option, none, some, String, arith, Option-cases,
}
use meeseek_collective.Common.Rows.{insert, find-insert_other, insert-Unique}
use meeseek_collective.Common.Result.{Error, Result, ok, err, Result-cases}
use meeseek_collective.Execution.State.{Task, Store, task_key, attempt_key}
use meeseek_collective.Execution.Intake.{TaskRequest, normalize_root_request, child_request}
use meeseek_collective.Execution.Creation.{
  Outside, Guard, new_task, find_by_key, insert_task, insert_or_replay, insert_task_tx,
  normalize_task_intent, check_task_guard, request_hash, create_task, create_child,
}
use meeseek_collective.Execution.Child.{
  child_request_cases, authority_cases, terms_cases, window_cases,
}
use meeseek_collective.Execution.Replay.{load_task_cases, intent_cases}
use meeseek_collective.Execution.Invariant.{IsSound}

-- Nothing is written, or one task is added.
pub data Added (s t : Store) : Type 0 where
  same : t ≡ s → Added s t
  adds : (x : Task) → insert x s.tasks ≡ some t.tasks → t.attempts ≡ s.attempts → Added s t

insert_or_replay-Added :
    (o : Outside) (x : Task) (found : Option Task) (s t : Store) (a : Task)
    → insert_or_replay o x found s ≡ ok (a, t)
    → Added s t
unfolding insert_or_replay insert_task
insert_or_replay-Added o x (some old) s t a h =
    same (load_task_cases old.id s t a (ground (arith, h))).0
insert_or_replay-Added o x none s t a h = elim (Option-cases (insert x s.tasks)) [
  | inl clash ↦ absurd (ground (arith, clash, h))
  | inr (rows, ins) ↦ elim (checked (o.validate_purpose (record s { tasks = rows }) x.purpose)) [
    | inr (e, bad) ↦ absurd (ground (arith, ins, bad, h))
    | inl (u, good) ↦
        let left : t ≡ record s { tasks = rows } = ground (arith, ins, good, h) in
        adds x (ins ∙ ap some (sym (ap (λ (y : Store). y.tasks) left)))
          (ap (λ (y : Store). y.attempts) left)
  ]
]
  where
    checked : (r : Result (Unit {0})) → ((u : Unit {0}) × (r ≡ ok u)) ⊎ ((e : Error) × (r ≡ err e))
    checked (ok u) = inl (u, refl)
    checked (err e) = inr (e, refl)

insert_task_tx-Added :
    (o : Outside) (fresh : String) (now : ℕ) (parent : String) (q : TaskRequest) (guard : Guard)
    (s t : Store) (a : Task)
    → insert_task_tx o fresh now parent q guard s ≡ ok (a, t)
    → Added s t
unfolding insert_task_tx new_task check_task_guard
insert_task_tx-Added o fresh now parent q guard s t a h =
    elim (Result-cases (normalize_task_intent o q s)) [
      | inr (e, bad) ↦ absurd (ground (arith, bad, h))
      | inl (r, u, good) ↦
          let (stays, again, key) = intent_cases o q r s u t good in
          let x = new_task fresh parent (request_hash o parent r) now r in
          insert_or_replay-Added o x (find_by_key x.idempotency_key s.tasks) s t a
            (ground (arith, good, stays, h))
    ]

root_request_stays :
    (q r : TaskRequest) (s t : Store) → normalize_root_request q s ≡ ok (r, t) → t ≡ s
unfolding normalize_root_request
root_request_stays q r s t h = ground arith

child_request_stays :
    (p : Task) (q r : TaskRequest) (s t : Store) → child_request p q s ≡ ok (r, t) → t ≡ s
unfolding child_request
child_request_stays p q r s t h =
    let (u, v, w, a, b, c, e) = child_request_cases p q r s t h in
    let last : t ≡ w = ground (arith, a, b, c, h) in
    last ∙ (window_cases p q v w c).0 ∙ (terms_cases p q u v b).0 ∙ (authority_cases p q s u a).0

pub create_task-Added :
    (o : Outside) (fresh : String) (now : ℕ) (q : TaskRequest) (guard : Guard) (s t : Store)
    (a : Task)
    → create_task o fresh now q guard s ≡ ok (a, t)
    → Added s t
unfolding create_task
create_task-Added o fresh now q guard s t a h = elim (Result-cases (normalize_root_request q s)) [
  | inr (e, bad) ↦ absurd (ground (arith, bad, h))
  | inl (r, u, good) ↦
      insert_task_tx-Added o fresh now "" r guard s t a
        (ground (arith, root_request_stays q r s u good, good, h))
]

pub create_child-Added :
    (o : Outside) (fresh : String) (now : ℕ) (p : Task) (q : TaskRequest) (s t : Store) (a : Task)
    → create_child o fresh now p q s ≡ ok (a, t)
    → Added s t
unfolding create_child
create_child-Added o fresh now p q s t a h = elim (Result-cases (child_request p q s)) [
  | inr (e, bad) ↦ absurd (ground (arith, bad, h))
  | inl (r, v, fine) ↦
      insert_task_tx-Added o fresh now p.id r (λ x. ok tt) s t a
        (ground (arith, fine, child_request_stays p q r s v fine, h))
]

-- A new task leaves the attempts sound.
pub Added-IsSound :
    (s t : Store) → Added s t → IsSound s.tasks s.attempts → IsSound t.tasks t.attempts
Added-IsSound s t (same e) v = subst (λ (x : Store). IsSound x.tasks x.attempts) (sym e) v
Added-IsSound s t (adds x ins e) v =
    subst (λ attempts. IsSound t.tasks attempts) (sym e)
      (record {
        tasks_unique = insert-Unique x s.tasks ins v.tasks_unique;
        attempts_unique = v.attempts_unique;
        executes = λ i a fa active.
            let y = v.executes i a fa active in
            record {
              task = y.task;
              row = find-insert_other a.task x s.tasks ins y.row;
              current = y.current;
              fence = y.fence;
              executing = y.executing;
            };
        fenced = λ i a fa.
            let y = v.fenced i a fa in
            record {
              task = y.task;
              row = find-insert_other a.task x s.tasks ins y.row;
              below = y.below;
            };
      })

pub Added-attempts : (s t : Store) → Added s t → t.attempts ≡ s.attempts
Added-attempts s t (same e) = ap (λ (x : Store). x.attempts) e
Added-attempts s t (adds x ins e) = e
