-- ===== src/Execution/Replay.antt =====
-- insertTaskTx of internal/execution/service.go, called again with the same idempotency key.
use meeseek_collective.Common.{
  ℕ, ◌≡◌, ◌≢◌, refl, sym, ap, subst, ◌∙◌, ◌⊎◌, inl, inr, some, List, String, arith, Option-cases,
}
use meeseek_collective.Common.Text.{trim_space}
use meeseek_collective.Common.Rows.{find, insert, find-insert_self}
use meeseek_collective.Common.Result.{Error, Result, ok, err, Result-cases}
use meeseek_collective.Execution.State.{Task, Store, task_key, load_task}
use meeseek_collective.Execution.Intake.{TaskRequest}
use meeseek_collective.Execution.Creation.{
  Outside, Guard, new_task, find_by_key, insert_task, insert_or_replay, insert_task_tx,
  normalize_task_intent, check_task_guard, request_hash,
}

find_by_key-insert :
    (x : Task) (ts rows : List Task)
    → x.idempotency_key ≢ ""
    → insert x ts ≡ some rows
    → find_by_key x.idempotency_key rows ≡ some x
unfolding find_by_key insert
find_by_key-insert x ts rows n ins = ground arith

pub load_task_cases :
    (id : String) (s t : Store) (a : Task)
    → load_task id s ≡ ok (a, t)
    → (t ≡ s) × (find id s.tasks ≡ some a)
unfolding load_task
load_task_cases id s t a h = ground arith

find-load_task :
    (id : String) (s : Store) (a : Task) → find id s.tasks ≡ some a → load_task id s ≡ ok (a, s)
unfolding load_task
find-load_task id s a h = ground arith

-- The outcome of an insertion: a new task that the index then finds, or the old task under its hash.
pub insert_or_replay_cases :
    (o : Outside) (x : Task) (s t : Store) (a : Task)
    → x.idempotency_key ≢ ""
    → insert_or_replay o x (find_by_key x.idempotency_key s.tasks) s ≡ ok (a, t)
    → (old : Task) × (find_by_key x.idempotency_key t.tasks ≡ some old)
      × (old.request_hash ≡ x.request_hash)
      × (find old.id t.tasks ≡ some a)
unfolding insert_or_replay insert_task
insert_or_replay_cases o x s t a n h = elim (Option-cases (find_by_key x.idempotency_key s.tasks)) [
  | inl none_ ↦ elim (Option-cases (insert x s.tasks)) [
    | inl clash ↦ absurd (ground (arith, none_, clash, h))
    | inr (rows, ins) ↦
        elim (Result-cases_value (o.validate_purpose (record s { tasks = rows }) x.purpose)) [
          | inr (e, bad) ↦ absurd (ground (arith, none_, ins, bad, h))
          | inl (u, good) ↦
              let same : a ≡ x = ground (arith, none_, ins, good, h) in
              let left : t.tasks ≡ rows = ground (arith, none_, ins, good, h) in
              (
                x,
                subst (λ ts. find_by_key x.idempotency_key ts ≡ some x) (sym left)
                    (find_by_key-insert x s.tasks rows n ins),
                refl,
                subst (λ ts. find x.id ts ≡ some a) (sym left)
                    (find-insert_self x s.tasks ins ∙ ap some (sym same)),
              )
        ]
  ]
  | inr (old, found) ↦
      let (same, row) = load_task_cases old.id s t a (ground (arith, found, h)) in
      (old, ground (arith, found, same), ground (arith, found, h), ground (arith, same, row))
]
  where
    Result-cases_value :
        (r : Result (Unit {0})) → ((u : Unit {0}) × (r ≡ ok u)) ⊎ ((e : Error) × (r ≡ err e))
    Result-cases_value (ok u) = inl (u, refl)
    Result-cases_value (err e) = inr (e, refl)

replayed :
    (o : Outside) (x old a : Task) (t : Store)
    → find_by_key x.idempotency_key t.tasks ≡ some old
    → old.request_hash ≡ x.request_hash
    → find old.id t.tasks ≡ some a
    → insert_or_replay o x (find_by_key x.idempotency_key t.tasks) t ≡ ok (a, t)
unfolding insert_or_replay
replayed o x old a t found hash row = ground (arith, found, hash, find-load_task old.id t a row)

pub intent_cases :
    (o : Outside) (q r : TaskRequest) (s u t : Store)
    → normalize_task_intent o q s ≡ ok (r, u)
    → (u ≡ s)
      × (normalize_task_intent o q t ≡ ok (r, t))
      × (r.idempotency_key ≡ trim_space q.idempotency_key)
unfolding normalize_task_intent
intent_cases o q r s u t h = ground arith

-- The row that an accepted request with a key leaves under it.
pub inserted_row :
    (o : Outside) (fresh : String) (now : ℕ) (parent : String) (q : TaskRequest) (guard : Guard)
    (s t : Store) (a : Task)
    → trim_space q.idempotency_key ≢ ""
    → insert_task_tx o fresh now parent q guard s ≡ ok (a, t)
    → (old : Task) × (find_by_key (trim_space q.idempotency_key) t.tasks ≡ some old)
      × (find old.id t.tasks ≡ some a)
unfolding insert_task_tx new_task check_task_guard
inserted_row o fresh now parent q guard s t a n h =
    elim (Result-cases (normalize_task_intent o q s)) [
      | inr (e, bad) ↦ absurd (ground (arith, bad, h))
      | inl (r, u, good) ↦
          let (same, again, key) = intent_cases o q r s u t good in
          let x = new_task fresh parent (request_hash o parent r) now r in
          let first : insert_or_replay o x (find_by_key x.idempotency_key s.tasks) s ≡ ok (a, t) =
            ground (arith, good, same, h) in
          let (old, found, hash, row) =
            insert_or_replay_cases o x s t a (λ k. n (sym key ∙ k)) first in
          (old, subst (λ k. find_by_key k t.tasks ≡ some old) key found, row)
    ]

-- A request with an idempotency key that has been accepted is answered the second time, at a later
-- time and under another fresh identifier, with the same task, and nothing is written; the guard has
-- to pass again.
pub insert_task_tx_again :
    (o : Outside) (fresh fresh' : String) (now later : ℕ) (parent : String) (q : TaskRequest)
    (guard : Guard) (s t : Store) (a : Task)
    → trim_space q.idempotency_key ≢ ""
    → insert_task_tx o fresh now parent q guard s ≡ ok (a, t)
    → guard t ≡ ok tt
    → insert_task_tx o fresh' later parent q guard t ≡ ok (a, t)
unfolding insert_task_tx new_task check_task_guard
insert_task_tx_again o fresh fresh' now later parent q guard s t a n h g =
    elim (Result-cases (normalize_task_intent o q s)) [
      | inr (e, bad) ↦ absurd (ground (arith, bad, h))
      | inl (r, u, good) ↦
          let (same, again, key) = intent_cases o q r s u t good in
          let x = new_task fresh parent (request_hash o parent r) now r in
          let y = new_task fresh' parent (request_hash o parent r) later r in
          let first : insert_or_replay o x (find_by_key x.idempotency_key s.tasks) s ≡ ok (a, t) =
            ground (arith, good, same, h) in
          let (old, found, hash, row) =
            insert_or_replay_cases o x s t a (λ k. n (sym key ∙ k)) first in
          ground (arith, again, g, replayed o y old a t found hash row)
    ]
