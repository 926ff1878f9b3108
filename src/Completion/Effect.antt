-- ===== src/Completion/Effect.antt =====
-- internal/verification/service.go: what AcceptTask does to the task and to those that wait for it.
use meeseek_collective.Common.{
  ℕ, ◌≡◌, refl, ap, ◌∙◌, inl, inr, false, ◌&&◌, some, List, [], ◌∷◌, String, if◌then◌else◌, arith,
  Option-cases, Bool-cases,
}
use meeseek_collective.Common.Rows.{find, update, find-update_self}
use meeseek_collective.Common.Result.{ok}
use meeseek_collective.Domain.{TaskState}
use meeseek_collective.Execution.State.{Task, task_key}
use meeseek_collective.Completion.{
  Acceptance, AcceptanceRequest, AcceptanceDraws, Desk, is_succeeded, is_created, succeed_row,
  waits_for, is_done, all_done, release_row, accept_task,
}
use meeseek_collective.Completion.Accepted.{IsVerified, accept_task-IsVerified}
use meeseek_collective.Completion.Release.{
  find-map-none, find-map-some, released, release_row-KeepsKey, release_row_cases,
}

-- The created tasks of a list that wait for `done`, with all that they depend on succeeded.
unfoldable pub overdue : String → List (String × String) → List Task → List Task → List Task
overdue done ds all [] = []
overdue done ds all (t ∷ ts) =
    let rest = overdue done ds all ts in
    if is_created t.state && waits_for t.id done ds && all_done t.id ds all then t ∷ rest else rest

module _ (done : String) (now : ℕ) (ds : List (String × String)) (old : List Task) where
  -- A release neither makes a task succeed nor undoes it.
  succeeds_same :
      (t : Task) → is_succeeded (release_row done now ds old t).state ≡ is_succeeded t.state
  unfolding release_row
  succeeds_same t = ground arith

  is_done_same :
      (id : String) (ts : List Task) → is_done id (released done now ds old ts) ≡ is_done id ts
  unfolding is_done
  is_done_same id ts = elim (Option-cases (find id ts)) [
    | inl missing ↦ ground (
      arith,
      missing,
      find-map-none (release_row done now ds old) (release_row-KeepsKey done now ds old) id ts
          missing,
    )
    | inr (t, found) ↦ ground (
      arith,
      found,
      succeeds_same t,
      find-map-some (release_row done now ds old) (release_row-KeepsKey done now ds old) id ts
          found,
    )
  ]

  all_done_same :
      (id : String) (es : List (String × String)) (ts : List Task)
      → all_done id es (released done now ds old ts) ≡ all_done id es ts
  unfolding all_done
  all_done_same id [] ts = refl
  all_done_same id ((a, b) ∷ es) ts = ground (arith, all_done_same id es ts, is_done_same b ts)

  not_overdue :
      (t : Task)
      → (is_created (release_row done now ds old t).state
          && waits_for (release_row done now ds old t).id done ds
          && all_done (release_row done now ds old t).id ds old)
        ≡ false
  unfolding release_row
  not_overdue t =
      elim (Bool-cases (is_created t.state && waits_for t.id done ds && all_done t.id ds old)) [
        | inr e ↦ ground (arith, e)
        | inl e ↦ ground (arith, e)
      ]

  none_overdue :
      (ts : List Task)
      → overdue done ds (released done now ds old old) (released done now ds old ts) ≡ []
  unfolding overdue
  none_overdue [] = refl
  none_overdue (t ∷ ts) = ground (
    arith,
    none_overdue ts,
    not_overdue t,
    all_done_same (release_row done now ds old t).id ds old,
  )

-- The task has succeeded, and no task that waits for it is held back that could go on.
pub record IsAccepted (task : String) (now : ℕ) (r : AcceptanceRequest) (a : Acceptance)
    (s t : Desk) : Type 0 where
  pub verified : IsVerified task now r a s t
  pub row : Task
  pub stands : find task t.store.tasks ≡ some row
  pub succeeded : row.state ≡ TaskState.succeeded
  pub released : overdue task s.dependencies t.store.tasks t.store.tasks ≡ []

succeeded_row :
    (task : String) (now : ℕ) (r : AcceptanceRequest) (a : Acceptance) (s t : Desk)
    → IsVerified task now r a s t
    → (y : Task) × (find task t.store.tasks ≡ some y) × (y.state ≡ TaskState.succeeded)
succeeded_row task now r a s t v =
    let ts = update task (succeed_row now) s.store.tasks in
    let done = succeed_row now v.row in
    let row = release_row task now s.dependencies ts in
    let kept =
      find-update_self task (succeed_row now) s.store.tasks {r = v.row} (λ x. ground arith)
        v.stood in
    let closed : done.state ≡ TaskState.succeeded = ground (arith, v.awaiting) in
    (
      row done,
      ap (find task) v.tasks
          ∙ find-map-some row (release_row-KeepsKey task now s.dependencies ts) task ts kept,
      elim (release_row_cases task now s.dependencies ts done) [
        | inl same ↦ ap (λ x. x.state) same ∙ closed
        | inr (created, _, _) ↦ absurd (ground (arith, closed, created))
      ],
    )

-- A task is accepted only when it awaited its verification with a current attempt that has a
-- completion record, no acceptance of it was there, the criteria are met, and the evidence given is there
-- and not empty. It has succeeded then, and no created task that waits for it is left with all that it
-- depends on succeeded.
pub accept_task-IsAccepted :
    (w : AcceptanceDraws) (task : String) (r : AcceptanceRequest) (a : Acceptance) (s t : Desk)
    → accept_task w task r s ≡ ok (a, t)
    → IsAccepted task w.now r a s t
accept_task-IsAccepted w task r a s t h =
    let v = accept_task-IsVerified w task r a s t h in
    let (y, fy, closed) = succeeded_row task w.now r a s t v in
    let ts = update task (succeed_row w.now) s.store.tasks in
    record {
      verified = v;
      row = y;
      stands = fy;
      succeeded = closed;
      released =
          ap (λ x. overdue task s.dependencies x x) v.tasks
          ∙ none_overdue task w.now s.dependencies ts ts;
    }
