-- ===== src/Execution/Ended.antt =====
-- internal/execution/service.go: attempts whose leases have ended, under each call and its runs.
use meeseek_collective.Common.{
  ℕ, ◌+◌, ◌≡◌, ◌≢◌, refl, sym, subst, ◌∙◌, inl, inr, some, List, [], ◌∷◌, String, arith, string_dec,
}
use meeseek_collective.Common.Int.{pos_part}
use meeseek_collective.Common.Rows.{
  find, update, insert, KeepsKey, find-update_self, find-update_ne, find-insert_other,
}
use meeseek_collective.Common.Result.{ok, with_tx_cases}
use meeseek_collective.Domain.{TaskState, LeaseState}
use meeseek_collective.Execution.State.{
  Attempt, Store, Guarded, task_key, attempt_key, failure_key, challenge_key, event_key,
}
use meeseek_collective.Execution.Lease.{
  start_attempt, guard_attempt, extend_lease, renew_lease, cancel_attempt, revoke_lease,
}
use meeseek_collective.Execution.Setback.{fail_row, fail_attempt, withdraw_attempt, challenge_task}
use meeseek_collective.Execution.Guard.{guard_attempt-Holds}
use meeseek_collective.Execution.Writes.{
  revoke_lease_cases, renew_lease_cases, fail_attempt_cases, challenge_task_cases,
  start_attempt_cases,
}
use meeseek_collective.Execution.Creation.{create_task, create_child}
use meeseek_collective.Execution.Created.{create_task-Added, create_child-Added, Added-attempts}
use meeseek_collective.Execution.Calls.{
  creates, creates_child, Call, starts, renews, revokes, fails, challenges, after, run,
}

-- The attempt is in the table, and its lease is not active.
pub record Ended (i : String) (attempts : List Attempt) : Type 0 where
  pub attempt : Attempt
  pub row : find i attempts ≡ some attempt
  pub inactive : attempt.lease_state ≢ LeaseState.active

update-Ended :
    (i j : String) (g : Attempt → Attempt) (attempts : List Attempt)
    → KeepsKey g
    → ((a : Attempt) → a.lease_state ≢ LeaseState.active → (g a).lease_state ≢ LeaseState.active)
    → Ended i attempts
    → Ended i (update j g attempts)
update-Ended i j g attempts keeps stays x = elim (string_dec i j) [
  | yes same ↦ record {
    attempt = g x.attempt;
    row =
        subst (λ k. find k (update j g attempts) ≡ some (g x.attempt)) (sym same)
          (find-update_self j g attempts keeps
            (subst (λ k. find k attempts ≡ some x.attempt) same x.row));
    inactive = stays x.attempt x.inactive;
  }
  | no other ↦ record {
    attempt = x.attempt;
    row = find-update_ne j i g attempts keeps other ∙ x.row;
    inactive = x.inactive;
  }
]

insert-Ended :
    (i : String) (a : Attempt) (attempts rows : List Attempt)
    → insert a attempts ≡ some rows
    → Ended i attempts
    → Ended i rows
insert-Ended i a attempts rows ins x = record {
  attempt = x.attempt;
  row = find-insert_other i a attempts ins x.row;
  inactive = x.inactive;
}

abbrev EndedIn : String → Store → Type 0
EndedIn i s = Ended i s.attempts

withdraw_stays : (now : ℕ) (a : Attempt) → (withdraw_attempt now a).lease_state ≢ LeaseState.active
withdraw_stays now a e = ground arith

extend_stays :
    (expires : ℕ) (a : Attempt)
    → a.lease_state ≢ LeaseState.active
    → (extend_lease expires a).lease_state ≢ LeaseState.active
extend_stays expires a h e = ground arith

pub after-Ended : (i : String) (s : Store) (c : Call) → EndedIn i s → EndedIn i (after s c)
unfolding after
after-Ended i s (creates o fresh now request guard) x =
    with_tx_cases (EndedIn i) (create_task o fresh now request guard) s x λ a t h.
      subst (Ended i)
        (sym (Added-attempts s t (create_task-Added o fresh now request guard s t a h))) x
after-Ended i s (creates_child o fresh now p request) x =
    with_tx_cases (EndedIn i) (create_child o fresh now p request) s x λ a t h.
      subst (Ended i) (sym (Added-attempts s t (create_child-Added o fresh now p request s t a h)))
        x
after-Ended i s (starts recorders fresh now task kind duration) x =
    with_tx_cases (EndedIn i) (start_attempt recorders fresh now task kind duration) s x λ a t h.
      let (_, _, _, _, ins, _) =
        start_attempt_cases recorders fresh now task kind duration s t a h in
      insert-Ended i a s.attempts t.attempts ins x
after-Ended i s (renews now later id duration) x =
    with_tx_cases (EndedIn i) (renew_lease now later id duration) s x λ u t h.
      let (_, _, e) = renew_lease_cases now later id duration s t h in
      subst (Ended i) (sym e) (
        update-Ended i id (extend_lease (later + pos_part duration)) s.attempts (λ a. ground arith)
          (extend_stays (later + pos_part duration)) x)
after-Ended i s (revokes event now id) x =
    with_tx_cases (EndedIn i) (revoke_lease event now id) s x λ u t h.
      elim (revoke_lease_cases event now id s t h) [
        | inl e ↦ subst (Ended i) (sym e.1) x
        | inr (a, _, _, _, e) ↦
            subst (Ended i) (sym e)
              (update-Ended i id (cancel_attempt now) s.attempts (λ b. refl) (λ b _ w. cc) x)
      ]
after-Ended i s (fails fresh now later id class signature evidence) x =
    with_tx_cases (EndedIn i) (fail_attempt fresh now later id class signature evidence) s x
      λ u t h.
        let (_, _, e) = fail_attempt_cases fresh now later id class signature evidence s t h in
        subst (Ended i) (sym e)
          (update-Ended i id (fail_row now) s.attempts (λ b. refl) (λ b _ w. cc) x)
after-Ended i s (challenges fresh now task scope reason evidence) x =
    with_tx_cases (EndedIn i) (challenge_task fresh now task scope reason evidence) s x λ u t h.
      let (_, _, _, w) = challenge_task_cases fresh now task scope reason evidence s t h in
      elim w [
        | inl (_, e) ↦ subst (Ended i) (sym e) x
        | inr (j, _, e) ↦ subst (Ended i) (sym e) (
            update-Ended i j (withdraw_attempt now) s.attempts (λ a. ground arith)
              (λ a _. withdraw_stays now a) x)
      ]

run-Ended : (i : String) (s : Store) (cs : List Call) → EndedIn i s → EndedIn i (run s cs)
unfolding run
run-Ended i s [] x = x
run-Ended i s (c ∷ cs) x = run-Ended i (after s c) cs (after-Ended i s c x)

-- An attempt whose lease has been revoked, or has otherwise ended, never passes a guard again: at no
-- time, for no task states, and whatever calls are made in between.
pub run_ended_guard :
    (i : String) (a : Attempt) (s : Store) (cs : List Call) (now : ℕ) (allowed : List TaskState)
    (u : Store) (g : Guarded)
    → find i s.attempts ≡ some a
    → a.lease_state ≢ LeaseState.active
    → guard_attempt now i allowed (run s cs) ≢ ok (g, u)
run_ended_guard i a s cs now allowed u g e ended h =
    let x = run-Ended i s cs (record { attempt = a; row = e; inactive = ended }) in
    let (held, _, _) = guard_attempt-Holds now i allowed (run s cs) u g h in
    x.inactive (ground (arith, x.row, held.attempt_row, held.active))
