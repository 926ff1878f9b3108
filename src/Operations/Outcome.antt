-- ===== src/Operations/Outcome.antt =====
-- internal/operations/service.go: the effect of each recorded outcome on the operations and the ledger,
-- and the runs of them.
use meeseek_collective.Common.{
  ℕ, ◌≡◌, refl, sym, subst, inl, inr, true, some, String, arith, Option-cases, Bool-cases,
}
use meeseek_collective.Common.Rows.{find, update, find-key, KeepsKey, Unique, update-Unique}
use meeseek_collective.Common.Result.{ok, Result-cases}
use meeseek_collective.Resources.{mark_unresolved_in_tx}
use meeseek_collective.Resources.Steps.{
  LedgerStep, settle_in_tx-LedgerStep, mark_unresolved_in_tx-LedgerStep,
}
use meeseek_collective.Resources.Cover.{LedgerStep-IsCovered}
use meeseek_collective.Operations.{
  Operation, ProviderOutcome, Database, operation_key, is_confirmed, is_in_flight,
  append_operation_event, settle_operation, settle_outcome, suspend_operation, mark_open,
  mark_unknown,
}
use meeseek_collective.Operations.Quiet.{Preserves}
use meeseek_collective.Operations.Moves.{
  Move, here, onward, left_open, closed, Follows, update-Follows,
}
use meeseek_collective.Operations.Safe.{Safe, Safe-refl}
use meeseek_collective.Approvals.Unanimity
use meeseek_collective.Execution.Exclusive.{same-IsSound}
use meeseek_collective.Operations.Settlement.{
  Aside, append_operation_event_stays, repeats, settles, confirmed_outcome, settle_outcome-Settled,
}

-- The effect of a call: none, or one operation makes one transition.
pub data OutcomeStep (s t : Database) : Type 0 where
  keeps_all : t ≡ s → OutcomeStep s t
  writes_row :
      (id : String) (o : Operation) (f : Operation → Operation)
      → find id s.operations ≡ some o
      → Move o.state (f o).state
      → KeepsKey f
      → t.operations ≡ update id f s.operations
      → LedgerStep s.ledger t.ledger
      → Aside s t
      → OutcomeStep s t

pub settle_outcome-OutcomeStep :
    (event : String) (now : ℕ) (id : String) (outcome : ProviderOutcome) (s t : Database)
    (u : Operation)
    → settle_outcome event now id outcome s ≡ ok (u, t)
    → OutcomeStep s t
settle_outcome-OutcomeStep event now id outcome s t u h =
    elim (settle_outcome-Settled event now id outcome s t u h) [
      | repeats same fo again state ↦ keeps_all same
      | settles o fo flight paid rows own aside ↦
          writes_row id o (settle_operation outcome now) fo
            (closed flight (confirmed_outcome event now id outcome s t u h).0) (λ x. refl) rows
            (settle_in_tx-LedgerStep now o.reservation outcome.actual_cost s.ledger t.ledger paid)
            aside
    ]

pub mark_open_cases :
    (event : String) (now : ℕ) (o u : Operation) (s t : Database)
    → mark_open event now o s ≡ ok (u, t)
    → (is_in_flight o.state ≡ true)
      × (mark_unresolved_in_tx now o.reservation s.ledger ≡ ok (tt, t.ledger))
      × (t.operations ≡ update o.id suspend_operation s.operations)
      × Aside s t
unfolding mark_open
mark_open_cases event now o u s t h =
    elim (Result-cases (mark_unresolved_in_tx now o.reservation s.ledger)) [
      | inr (e, bad) ↦ absurd (ground (arith, bad, h))
      | inl (_, l, good) ↦
          let w : Database = record s {
            ledger = l;
            operations = update o.id suspend_operation s.operations;
          } in
          elim (Result-cases
            (append_operation_event event o.task o.attempt "OPERATION_OUTCOME_UNKNOWN" now w)) [
              | inr (e, bad) ↦ absurd (ground (arith, good, bad, h))
              | inl (_, x, noted) ↦
                  let (ledger, operations, aside) =
                    append_operation_event_stays event o.task o.attempt "OPERATION_OUTCOME_UNKNOWN"
                      now w x noted in
                  let last : t ≡ x = ground (arith, good, noted, h) in
                  (
                    ground (arith, good, noted, h),
                    ground (arith, good, last, ledger),
                    ground (arith, last, operations),
                    subst (λ (y : Database). Aside s y) (sym last)
                        (record { registry = aside.registry; store = aside.store }),
                  )
            ]
    ]

pub mark_unknown-OutcomeStep :
    (event : String) (now : ℕ) (id : String) (s t : Database) (u : Operation)
    → mark_unknown event now id s ≡ ok (u, t)
    → OutcomeStep s t
unfolding mark_unknown
mark_unknown-OutcomeStep event now id s t u h = elim (Option-cases (find id s.operations)) [
  | inl missing ↦ absurd (ground (arith, missing, h))
  | inr (o, fo) ↦ elim (Bool-cases (is_confirmed o.state)) [
    | inl done ↦ keeps_all (ground (arith, fo, done, h))
    | inr live ↦
        let (flight, suspended, rows, aside) =
          mark_open_cases event now o u s t (ground (arith, fo, live, h)) in
        writes_row id o suspend_operation fo (left_open flight) (λ x. refl)
          (ground (arith, rows, find-key id s.operations {r = o} fo))
          (mark_unresolved_in_tx-LedgerStep now o.reservation s.ledger t.ledger suspended) aside
  ]
]

stored-Preserves : {s t : Database} → LedgerStep s.ledger t.ledger → Aside s t → Preserves s t
stored-Preserves {s} {t} step aside = record {
  ledger = LedgerStep-IsCovered step;
  store = same-IsSound s.store t.store aside.store;
  registry = λ v. subst Unanimity.IsSound (sym aside.registry) v;
}

pub OutcomeStep-Safe : {s t : Database} → OutcomeStep s t → Safe s t
OutcomeStep-Safe {s} (keeps_all same) = subst (Safe s) (sym same) (Safe-refl s)
OutcomeStep-Safe {s} {t} (writes_row id o f fo move keeps e step aside) = record {
  rows =
      subst (Follows s.operations) (sym e)
        (update-Follows id o f s.operations fo keeps (onward here move));
  unique = λ v. subst Unique (sym e) (update-Unique id f s.operations keeps v);
  kept = stored-Preserves step aside;
}
