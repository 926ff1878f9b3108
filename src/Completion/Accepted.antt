-- ===== src/Completion/Accepted.antt =====
-- internal/verification/service.go: what a task that AcceptTask accepts had come to.
use meeseek_collective.Common.{
  ℕ, ◌≡◌, refl, sym, ap, ◌∙◌, inl, inr, true, false, none, some, List, map, String, arith,
  Option-cases, Bool-cases,
}
use meeseek_collective.Common.Rows.{find, update, insert}
use meeseek_collective.Common.Result.{ok, Result-cases}
use meeseek_collective.Domain.{TaskState}
use meeseek_collective.Execution.State.{Task, task_key, update_task, append_event}
use meeseek_collective.Cases.{normalize_evidence}
use meeseek_collective.Cases.Verify.{has_all}
use meeseek_collective.Completion.{
  Acceptance, AcceptanceRequest, AcceptanceDraws, Desk, acceptance_key, no_evidence, completion_of,
  acceptance_of, insert_acceptance, is_awaiting, succeed_row, release_row, release_dependents,
  require_known, awaited_attempt, new_acceptance, record_acceptance, accept_in_tx, accept_task,
}

-- What the desk `s` holds when the task is accepted for `r`, and what becomes of the tasks.
pub record IsVerified (task : String) (now : ℕ) (r : AcceptanceRequest) (a : Acceptance)
    (s t : Desk) : Type 0 where
  pub row : Task
  pub stood : find task s.store.tasks ≡ some row
  pub awaiting : row.state ≡ TaskState.awaiting_verification
  pub current : row.current_attempt ≡ some a.attempt
  pub completed : (c : _) × (completion_of task a.attempt s.completions ≡ some c)
  pub evidenced : no_evidence a.evidence ≡ false
  pub known : has_all a.evidence s.evidence ≡ true
  pub first : acceptance_of task s.acceptances ≡ none
  pub met : r.criteria_met ≡ true
  pub tasks :
      t.store.tasks
      ≡ map
          (release_row task now s.dependencies (update task (succeed_row now) s.store.tasks))
          (update task (succeed_row now) s.store.tasks)

awaiting-eq : (x : TaskState) → is_awaiting x ≡ true → x ≡ TaskState.awaiting_verification
awaiting-eq TaskState.awaiting_verification h = refl
awaiting-eq _ h = absurd (ground arith)

awaited :
    (task attempt : String) (s u : Desk)
    → awaited_attempt task s ≡ ok (attempt, u)
    → (row : Task) × (u ≡ s)
      × (find task s.store.tasks ≡ some row)
      × (is_awaiting row.state ≡ true)
      × (row.current_attempt ≡ some attempt)
unfolding awaited_attempt
awaited task attempt s u h = elim (Option-cases (find task s.store.tasks)) [
  | inl missing ↦ absurd (ground (arith, missing, h))
  | inr (row, found) ↦ elim (Bool-cases (is_awaiting row.state)) [
    | inr not_so ↦ absurd (ground (arith, found, not_so, h))
    | inl stands ↦ elim (Option-cases row.current_attempt) [
      | inl none_ ↦ absurd (ground (arith, found, stands, none_, h))
      | inr (x, current) ↦ (
        row,
        ground (arith, found, stands, current, h),
        found,
        stands,
        ground (arith, found, stands, current, h),
      )
    ]
  ]
]

known_stays :
    (ids : List String) (s u : Desk)
    → require_known ids s ≡ ok (tt, u)
    → (u ≡ s) × (has_all ids s.evidence ≡ true)
unfolding require_known
known_stays ids s u h = (ground arith, ground arith)

recorded :
    (w : AcceptanceDraws) (task attempt : String) (a b : Acceptance) (s t : Desk)
    → record_acceptance w task attempt a s ≡ ok (b, t)
    → (b ≡ a)
      × (acceptance_of a.task s.acceptances ≡ none)
      × (t.store.tasks
          ≡ map
              (release_row task w.now s.dependencies
                (update task (succeed_row w.now) s.store.tasks))
              (update task (succeed_row w.now) s.store.tasks))
unfolding record_acceptance insert_acceptance release_dependents update_task append_event
recorded w task attempt a b s t h = elim (Option-cases (acceptance_of a.task s.acceptances)) [
  | inr (old, e) ↦ absurd (ground (arith, e, h))
  | inl new ↦ elim (Option-cases (insert a s.acceptances)) [
    | inl e ↦ absurd (ground (arith, new, e, h))
    | inr (rows, e) ↦ (ground (arith, new, e, h), new, ground (arith, new, e, h))
  ]
]

accept_in_tx-IsVerified :
    (w : AcceptanceDraws) (task : String) (r : AcceptanceRequest) (a : Acceptance) (s t : Desk)
    → r.criteria_met ≡ true
    → no_evidence (normalize_evidence r.evidence) ≡ false
    → accept_in_tx w task r s ≡ ok (a, t)
    → IsVerified task w.now r a s t
unfolding accept_in_tx new_acceptance
accept_in_tx-IsVerified w task r a s t met some_ h = elim (Result-cases (awaited_attempt task s)) [
  | inr (e, bad) ↦ absurd (ground (arith, bad, h))
  | inl (attempt, u, stood) ↦
      let (row, same, found, awaits, current) = awaited task attempt s u stood in
      elim (Option-cases (completion_of task attempt s.completions)) [
        | inl missing ↦ absurd (ground (arith, stood, same, missing, h))
        | inr (c, completed) ↦
            elim (Result-cases (require_known (normalize_evidence r.evidence) s)) [
              | inr (e, bad) ↦ absurd (ground (arith, stood, same, completed, bad, h))
              | inl (_, v, checked) ↦
                  let (same', known) = known_stays (normalize_evidence r.evidence) s v checked in
                  let (is, first, tasks) =
                    recorded w task attempt (new_acceptance w task attempt r) a s t
                      (ground (arith, stood, same, completed, checked, same', h)) in
                  record {
                    row = row;
                    stood = found;
                    awaiting = awaiting-eq row.state awaits;
                    current = current ∙ ap (λ x. some x.attempt) (sym is);
                    completed =
                        (c, ap (λ x. completion_of task x.attempt s.completions) is ∙ completed);
                    evidenced = ap (λ x. no_evidence x.evidence) is ∙ some_;
                    known = ap (λ x. has_all x.evidence s.evidence) is ∙ known;
                    first = first;
                    met = met;
                    tasks = tasks;
                  }
            ]
      ]
]

-- A task is accepted only when it awaited its verification with a current attempt that has a
-- completion record, no acceptance of it was there, the criteria are met, and the evidence given
-- is there and not empty.
pub accept_task-IsVerified :
    (w : AcceptanceDraws) (task : String) (r : AcceptanceRequest) (a : Acceptance) (s t : Desk)
    → accept_task w task r s ≡ ok (a, t)
    → IsVerified task w.now r a s t
unfolding accept_task
accept_task-IsVerified w task r a s t h =
    accept_in_tx-IsVerified w task r a s t (ground (arith, h)) (ground (arith, h))
      (ground (arith, h))
