-- ===== src/Operations/Settlement.antt =====
-- SettleOutcome of internal/operations/service.go: its branches, and a second settlement.
use meeseek_collective.Common.{
  ℕ, ◌≡◌, refl, sym, ap, subst, ◌∙◌, inl, inr, true, false, some, String, arith, Option-cases,
  Bool-cases,
}
use meeseek_collective.Common.Int.{pos, ltb_ℤ}
use meeseek_collective.Common.Rows.{find, update, find-key, find-update_self}
use meeseek_collective.Common.Result.{ok, Result-cases}
use meeseek_collective.Domain.{OperationState}
use meeseek_collective.Resources.{reservation_key, settle_in_tx}
use meeseek_collective.Resources.Steps.{settle_in_tx-LedgerStep}
use meeseek_collective.Resources.Budget.{IsSound, LedgerStep-IsSound}
use meeseek_collective.Execution.State.{append_event}
use meeseek_collective.Execution.Writes.{SameTables}
use meeseek_collective.Operations.{
  Operation, ProviderOutcome, Database, operation_key, is_confirmed, is_in_flight, same_confirmed,
  append_operation_event, settle_operation, settle_open, settle_repeated, settle_outcome,
}

-- What an outcome leaves alone: the approvals, and the tables of tasks and attempts.
pub record Aside (s t : Database) : Type 0 where
  pub registry : t.registry ≡ s.registry
  pub store : SameTables s.store t.store

-- An event writes neither the ledger nor the operations.
pub append_operation_event_stays :
    (event task attempt kind : String) (now : ℕ) (s t : Database)
    → append_operation_event event task attempt kind now s ≡ ok (tt, t)
    → (t.ledger ≡ s.ledger) × (t.operations ≡ s.operations) × Aside s t
unfolding append_operation_event append_event
append_operation_event_stays event task attempt kind now s t h =
    (ground arith, ground arith, record { registry = ground arith; store = ground arith })

settle_open_cases :
    (event : String) (now : ℕ) (outcome : ProviderOutcome) (o u : Operation) (s t : Database)
    → settle_open event now outcome o s ≡ ok (u, t)
    → (is_in_flight o.state ≡ true)
      × (settle_in_tx now o.reservation outcome.actual_cost s.ledger ≡ ok (tt, t.ledger))
      × (t.operations ≡ update o.id (settle_operation outcome now) s.operations)
      × (u ≡ settle_operation outcome now o)
      × Aside s t
unfolding settle_open
settle_open_cases event now outcome o u s t h =
    elim (Result-cases (settle_in_tx now o.reservation outcome.actual_cost s.ledger)) [
      | inr (e, bad) ↦ absurd (ground (arith, bad, h))
      | inl (_, l, good) ↦
          let w : Database = record s {
            ledger = l;
            operations = update o.id (settle_operation outcome now) s.operations;
          } in
          elim (Result-cases
            (append_operation_event event o.task o.attempt "OPERATION_OUTCOME_SETTLED" now w)) [
              | inr (e, bad) ↦ absurd (ground (arith, good, bad, h))
              | inl (_, x, noted) ↦
                  let (ledger, operations, aside) =
                    append_operation_event_stays event o.task o.attempt "OPERATION_OUTCOME_SETTLED"
                      now w x noted in
                  let last : t ≡ x = ground (arith, good, noted, h) in
                  (
                    ground (arith, good, noted, h),
                    ground (arith, good, last, ledger),
                    ground (arith, last, operations),
                    ground (arith, good, noted, h),
                    subst (λ (y : Database). Aside s y) (sym last)
                        (record { registry = aside.registry; store = aside.store }),
                  )
            ]
    ]

-- The two effects of a settlement.
pub data Settled (id : String) (outcome : ProviderOutcome) (now : ℕ) (s t : Database)
    (u : Operation) : Type 0 where
  repeats :
      t ≡ s
      → find id s.operations ≡ some u
      → settle_repeated outcome u s ≡ ok (u, s)
      → same_confirmed u.state outcome.state ≡ true
      → Settled id outcome now s t u
  settles :
      (o : Operation)
      → find id s.operations ≡ some o
      → is_in_flight o.state ≡ true
      → settle_in_tx now o.reservation outcome.actual_cost s.ledger ≡ ok (tt, t.ledger)
      → t.operations ≡ update id (settle_operation outcome now) s.operations
      → u ≡ settle_operation outcome now o
      → Aside s t
      → Settled id outcome now s t u

settle_repeated_stays :
    (outcome : ProviderOutcome) (o u : Operation) (s t : Database)
    → settle_repeated outcome o s ≡ ok (u, t)
    → (t ≡ s) × (u ≡ o) × (settle_repeated outcome o s ≡ ok (o, s))
unfolding settle_repeated
settle_repeated_stays outcome o u s t h = (ground arith, ground arith, ground arith)

-- A settlement that succeeds either repeats the one that is stored, or finds the outcome open, settles
-- the reservation with the cost, and writes the outcome into the row of the operation.
pub settle_outcome-Settled :
    (event : String) (now : ℕ) (id : String) (outcome : ProviderOutcome) (s t : Database)
    (u : Operation)
    → settle_outcome event now id outcome s ≡ ok (u, t)
    → Settled id outcome now s t u
unfolding settle_outcome
settle_outcome-Settled event now id outcome s t u h = elim (Option-cases (find id s.operations)) [
  | inl missing ↦ absurd (ground (arith, missing, h))
  | inr (o, fo) ↦ elim (Bool-cases (same_confirmed o.state outcome.state)) [
    | inl same ↦
        let (stays, own, again) =
          settle_repeated_stays outcome o u s t (ground (arith, fo, same, h)) in
        repeats stays (ground (arith, fo, own)) (ground (arith, own, again))
          (ground (arith, own, same))
    | inr other ↦
        let (flight, paid, rows, own, aside) =
          settle_open_cases event now outcome o u s t (ground (arith, fo, other, h)) in
        settles o fo flight paid (ground (arith, rows, find-key id s.operations {r = o} fo)) own
          aside
  ]
]

-- A settlement keeps the ledger sound.
pub settle_outcome-IsSound :
    (event : String) (now : ℕ) (id : String) (outcome : ProviderOutcome) (s t : Database)
    (u : Operation)
    → settle_outcome event now id outcome s ≡ ok (u, t)
    → IsSound s.ledger
    → IsSound t.ledger
settle_outcome-IsSound event now id outcome s t u h v =
    elim (settle_outcome-Settled event now id outcome s t u h) [
      | repeats same fo again state ↦ subst (λ (x : Database). IsSound x.ledger) (sym same) v
      | settles o fo flight paid rows own aside ↦
          LedgerStep-IsSound
            (settle_in_tx-LedgerStep now o.reservation outcome.actual_cost s.ledger t.ledger paid) v
    ]

pub confirmed_outcome :
    (event : String) (now : ℕ) (id : String) (outcome : ProviderOutcome) (s t : Database)
    (u : Operation)
    → settle_outcome event now id outcome s ≡ ok (u, t)
    → (is_confirmed outcome.state ≡ true) × (ltb_ℤ outcome.actual_cost (pos 0) ≡ false)
unfolding settle_outcome
confirmed_outcome event now id outcome s t u h = ground arith

same_confirmed_state : (x y : OperationState) → same_confirmed x y ≡ true → is_confirmed x ≡ true
same_confirmed_state x y h = ground arith

same_confirmed_refl : (x : OperationState) → is_confirmed x ≡ true → same_confirmed x x ≡ true
same_confirmed_refl x h = ground arith

-- The row that a settlement leaves: it is the operation that was returned, and it is confirmed.
pub settled_row :
    (event : String) (now : ℕ) (id : String) (outcome : ProviderOutcome) (s t : Database)
    (u : Operation)
    → settle_outcome event now id outcome s ≡ ok (u, t)
    → (find id t.operations ≡ some u) × (is_confirmed u.state ≡ true)
settled_row event now id outcome s t u h =
    elim (settle_outcome-Settled event now id outcome s t u h) [
      | repeats same fo again state ↦ (
        subst (λ (x : Database). find id x.operations ≡ some u) (sym same) fo,
        same_confirmed_state u.state outcome.state state,
      )
      | settles o fo flight paid rows own aside ↦ (
        ap (find id) rows
            ∙ find-update_self id (settle_operation outcome now) s.operations (λ x. refl) fo
            ∙ ap some (sym own),
        ground (arith, own, confirmed_outcome event now id outcome s t u h),
      )
    ]

-- A settlement made on the state that a first one of the same operation has left, with whatever outcome,
-- changes nothing when it succeeds: the reservation is never settled twice.
pub settle_outcome_once :
    (event event' : String) (now later : ℕ) (id : String) (outcome outcome' : ProviderOutcome)
    (s t t' : Database) (u u' : Operation)
    → settle_outcome event now id outcome s ≡ ok (u, t)
    → settle_outcome event' later id outcome' t ≡ ok (u', t')
    → (t' ≡ t) × (u' ≡ u)
settle_outcome_once event event' now later id outcome outcome' s t t' u u' h h' =
    let (row, confirmed) = settled_row event now id outcome s t u h in
    elim (settle_outcome-Settled event' later id outcome' t t' u' h') [
      | repeats same fo again state ↦ (same, ground (arith, fo, row))
      | settles o fo flight paid rows own aside ↦
          absurd (ground (arith, fo, row, flight, confirmed))
    ]

settle_repeated_own :
    (outcome : ProviderOutcome) (now : ℕ) (o : Operation) (t : Database)
    → settle_repeated outcome (settle_operation outcome now o) t
      ≡ ok (settle_operation outcome now o, t)
unfolding settle_repeated
settle_repeated_own outcome now o t = ground arith

settle_repeated_any :
    (outcome : ProviderOutcome) (o : Operation) (s t : Database)
    → settle_repeated outcome o s ≡ ok (o, s)
    → settle_repeated outcome o t ≡ ok (o, t)
unfolding settle_repeated
settle_repeated_any outcome o s t h = ground arith

-- The settlement that has succeeded, repeated at a later time, succeeds with the same operation and
-- changes nothing.
pub settle_outcome_again :
    (event event' : String) (now later : ℕ) (id : String) (outcome : ProviderOutcome)
    (s t : Database) (u : Operation)
    → settle_outcome event now id outcome s ≡ ok (u, t)
    → settle_outcome event' later id outcome t ≡ ok (u, t)
unfolding settle_outcome
settle_outcome_again event event' now later id outcome s t u h =
    let (row, confirmed) = settled_row event now id outcome s t u h in
    let (good, cost) = confirmed_outcome event now id outcome s t u h in
    let stored : (settle_repeated outcome u t ≡ ok (u, t))
        × (same_confirmed u.state outcome.state ≡ true) =
      elim (settle_outcome-Settled event now id outcome s t u h) [
        | repeats same fo again state ↦ (settle_repeated_any outcome u s t again, state)
        | settles o fo flight paid rows own aside ↦ (
          subst (λ x. settle_repeated outcome x t ≡ ok (x, t)) (sym own)
              (settle_repeated_own outcome now o t),
          subst (λ (x : Operation). same_confirmed x.state outcome.state ≡ true) (sym own)
              (same_confirmed_refl outcome.state good),
        )
      ] in
    ground (arith, row, good, cost, stored)
