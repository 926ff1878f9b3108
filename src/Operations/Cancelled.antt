-- ===== src/Operations/Cancelled.antt =====
-- cancelPrepared of internal/operations/service.go: who cancels an operation, and what becomes of it.
use meeseek_collective.Common.{
  ℕ, ◌≡◌, refl, ap, ◌∙◌, subst, inl, inr, true, false, some, [], ◌∷◌, String, arith, Option-cases,
  Bool-cases,
}
use meeseek_collective.Common.Rows.{find, update, find-key, find-update_self, KeepsKey}
use meeseek_collective.Common.Result.{ok, Result-cases}
use meeseek_collective.Domain.{TaskState, OperationState, released}
use meeseek_collective.Resources.Lifecycle.{released_reservation}
use meeseek_collective.Resources.{Reservation, reservation_key, release_in_tx}
use meeseek_collective.Resources.Steps.{release_in_tx-LedgerStep}
use meeseek_collective.Execution.Lease.{guard_attempt}
use meeseek_collective.Execution.Guard.{Holds, guard_attempt-Holds}
use meeseek_collective.Operations.{
  Operation, Database, operation_key, is_prepared, append_operation_event, cancel_operation,
  cancel_open, cancel_prepared,
}
use meeseek_collective.Operations.Moves.{Move, Move-cong, dropped}
use meeseek_collective.Execution.Writes.{SameTables}
use meeseek_collective.Operations.Settlement.{Aside, append_operation_event_stays}
use meeseek_collective.Operations.Outcome.{OutcomeStep, keeps_all, writes_row}

pub cancel-Move :
    (now : ℕ) (o : Operation)
    → is_prepared o.state ≡ true
    → Move o.state (cancel_operation now o).state
cancel-Move now o live = Move-cong (ground arith) (ground arith) dropped

cancel_open_cases :
    (event : String) (now : ℕ) (o : Operation) (s t : Database)
    → cancel_open event now o s ≡ ok (tt, t)
    → (release_in_tx now o.reservation s.ledger ≡ ok (tt, t.ledger))
      × (t.operations ≡ update o.id (cancel_operation now) s.operations)
      × Aside s t
unfolding cancel_open
cancel_open_cases event now o s t h =
    elim (Result-cases (release_in_tx now o.reservation s.ledger)) [
      | inr (e, bad) ↦ absurd (ground (arith, bad, h))
      | inl (_, l, good) ↦
          let w : Database = record s {
            ledger = l;
            operations = update o.id (cancel_operation now) s.operations;
          } in
          let noted : append_operation_event event o.task o.attempt
                "OPERATION_CANCELLED_BEFORE_DISPATCH" now w
              ≡ ok (tt, t) =
            ground (arith, good, h) in
          let (ledger, operations, aside) =
            append_operation_event_stays event o.task o.attempt
              "OPERATION_CANCELLED_BEFORE_DISPATCH" now w t noted in
          (
            ground (arith, good, ledger),
            operations,
            record { registry = aside.registry; store = aside.store },
          )
    ]

pub cancel_prepared_cases :
    (event : String) (now later : ℕ) (o : Operation) (attempt : String) (s t : Database)
    → cancel_prepared event now later o attempt s ≡ ok (tt, t)
    → Holds later attempt (TaskState.executing ∷ []) s.store × OutcomeStep s t
unfolding cancel_prepared
cancel_prepared_cases event now later o attempt s t h =
    elim (Result-cases (guard_attempt later attempt (TaskState.executing ∷ []) s.store)) [
      | inr (e, bad) ↦ absurd (ground (arith, bad, h))
      | inl (g, x, passed) ↦
          let (held, same, _) =
            guard_attempt-Holds later attempt (TaskState.executing ∷ []) s.store x g passed in
          elim (Option-cases (find o.id s.operations)) [
            | inl missing ↦ absurd (ground (arith, passed, missing, h))
            | inr (current, fc) ↦ elim (Bool-cases (is_prepared current.state)) [
              | inr other ↦ (held, keeps_all (ground (arith, passed, same, fc, other, h)))
              | inl live ↦
                  let (freed, rows, aside) =
                    cancel_open_cases event now current (record s { store = x }) t
                      (ground (arith, passed, fc, live, h)) in
                  (
                    held,
                    writes_row o.id current (cancel_operation now) fc (cancel-Move now current live)
                        (λ y. ground arith)
                        (ground (arith, rows, find-key o.id s.operations {r = current} fc))
                        (release_in_tx-LedgerStep now current.reservation s.ledger t.ledger freed)
                        (record {
                          registry = aside.registry;
                          store = subst (λ y. SameTables y t.store) same aside.store;
                        }),
                  )
            ]
          ]
    ]

-- The effect on the operation: none, where it was prepared no more, or its end before any dispatch.
pub data CancelEffect (id : String) (s t : Database) : Type 0 where
  too_late :
      (current : Operation)
      → find id s.operations ≡ some current
      → is_prepared current.state ≡ false
      → t ≡ s
      → CancelEffect id s t
  ended :
      (current after : Operation) (r : Reservation)
      → find id s.operations ≡ some current
      → current.state ≡ OperationState.prepared
      → find id t.operations ≡ some after
      → after.state ≡ OperationState.cancelled
      → find current.reservation t.ledger.reservations ≡ some r
      → r.state ≡ released
      → Aside s t
      → CancelEffect id s t

-- The canceller holds the task of the operation.
pub record Cancelled (later : ℕ) (o : Operation) (attempt : String) (s t : Database) : Type 0 where
  pub holder : Holds later attempt (TaskState.executing ∷ []) s.store
  pub own : holder.attempt.task ≡ o.task
  pub effect : CancelEffect o.id s t

prepared-eq : (x : OperationState) → is_prepared x ≡ true → x ≡ OperationState.prepared
prepared-eq OperationState.prepared h = refl
prepared-eq _ h = absurd (ground arith)

ended_row :
    (event : String) (now : ℕ) (id : String) (current : Operation) (s t : Database)
    → find id s.operations ≡ some current
    → is_prepared current.state ≡ true
    → cancel_open event now current s ≡ ok (tt, t)
    → CancelEffect id s t
ended_row event now id current s t fc live h =
    let (freed, rows, aside) = cancel_open_cases event now current s t h in
    let (r, fr, free) = released_reservation now current.reservation s.ledger t.ledger freed in
    let keeps : KeepsKey (cancel_operation now) = λ y. ground arith in
    let kept = find-update_self id (cancel_operation now) s.operations {r = current} keeps fc in
    ended current (cancel_operation now current) r fc (prepared-eq current.state live)
      (ap (find id) (
          rows
          ∙ ap (λ i. update i (cancel_operation now) s.operations)
              (find-key id s.operations {r = current} fc))
        ∙ kept)
      (ground (arith, live)) fr free aside

-- A cancellation that succeeds is made by an attempt that holds the task of the operation. An operation
-- that was prepared is cancelled then and its reservation released; one that was not is left as it is,
-- with everything else.
pub cancel_prepared-Cancelled :
    (event : String) (now later : ℕ) (o : Operation) (attempt : String) (s t : Database)
    → cancel_prepared event now later o attempt s ≡ ok (tt, t)
    → Cancelled later o attempt s t
unfolding cancel_prepared
cancel_prepared-Cancelled event now later o attempt s t h =
    elim (Result-cases (guard_attempt later attempt (TaskState.executing ∷ []) s.store)) [
      | inr (e, bad) ↦ absurd (ground (arith, bad, h))
      | inl (g, x, passed) ↦
          let (holder, same, report) =
            guard_attempt-Holds later attempt (TaskState.executing ∷ []) s.store x g passed in
          elim (Option-cases (find o.id s.operations)) [
            | inl missing ↦ absurd (ground (arith, passed, missing, h))
            | inr (current, fc) ↦ record {
              holder = holder;
              own = ground (arith, passed, same, report, fc, h);
              effect = elim (Bool-cases (is_prepared current.state)) [
                | inr other ↦ too_late current fc other (ground (arith, passed, same, fc, other, h))
                | inl live ↦
                    subst (λ y. CancelEffect o.id (record s { store = y }) t) same
                      (ended_row event now o.id current (record s { store = x }) t fc live
                        (ground (arith, passed, fc, live, h)))
              ];
            }
          ]
    ]
