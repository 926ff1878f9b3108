-- ===== src/Operations/Recovery.antt =====
-- internal/operations/reconciler.go: what a reconciliation after a crash leaves behind.
use meeseek_collective.Common.{
  ℕ, Bool, true, false, ◌≡◌, refl, sym, ap, subst, ◌∙◌, ◌⊎◌, inl, inr, some, List, [], ◌∷◌, String,
  ◌==◌, if◌then◌else◌, arith, Bool-cases, Option-cases, string_dec,
}
use meeseek_collective.Common.Rows.{find, update, find-update_self, find-key}
use meeseek_collective.Common.Result.{Error, Result, ok, err, Result-cases}
use meeseek_collective.Domain.{OperationState}
use meeseek_collective.Resources.{mark_unresolved_in_tx}
use meeseek_collective.Execution.State.{append_event}
use meeseek_collective.Operations.{
  Operation, ProviderOutcome, Database, operation_key, is_confirmed, is_prepared,
  append_operation_event, suspend_operation, mark_open, mark_unknown,
}
use meeseek_collective.Operations.Policy.{DispatchRequest, Providers}
use meeseek_collective.Operations.Silent.{redirect, reconcile_pending_silent}
use meeseek_collective.Operations.Reconcile.{
  OutcomeDraws, is_pending_outcome, insert_in_order, pending_operations, is_outcome_unknown,
  expect_unknown, look_up, reconcile_by, reconcile, reconcile_each, reconcile_pending,
}
use meeseek_collective.Operations.Moves.{
  Move, claimed, dropped, left_open, closed, Reaches, here, onward, Reaches-unprepared,
}
use meeseek_collective.Operations.Safe.{Safe}
use meeseek_collective.Operations.Outcome.{mark_open_cases}
use meeseek_collective.Operations.Runs.{run-Safe}
use meeseek_collective.Operations.Traces.{Traces}
use meeseek_collective.Operations.Methods.{
  reconcile-IsTraced, look_up-IsTraced, reconcile_each-Traces,
}

-- The outcome is confirmed, or recorded as unknown.
abbrev pub IsPast : Operation → Type 0
IsPast o = (is_confirmed o.state ≡ true) ⊎ (o.state ≡ OperationState.outcome_unknown)

past_unprepared : (o : Operation) → IsPast o → is_prepared o.state ≡ false
past_unprepared o (inl confirmed) = ground arith
past_unprepared o (inr unknown) = ground arith

Move-IsPast :
    {x y : OperationState}
    → Move x y
    → is_prepared x ≡ false
    → (is_confirmed y ≡ true) ⊎ (y ≡ OperationState.outcome_unknown)
Move-IsPast claimed h = absurd (ground (arith, h))
Move-IsPast dropped h = absurd (ground (arith, h))
Move-IsPast (left_open f) h = inr refl
Move-IsPast (closed f c) h = inl c

Reaches-IsPast : {x y : Operation} → Reaches x y → IsPast x → IsPast y
Reaches-IsPast here v = v
Reaches-IsPast {x} {y} (onward {y = w} p m) v =
    Move-IsPast m (past_unprepared w (Reaches-IsPast p v))

-- From its dispatch an operation stays there, or gets past it.
Reaches-dispatched :
    {x y : Operation}
    → Reaches x y
    → x.state ≡ OperationState.dispatched
    → (y.state ≡ OperationState.dispatched) ⊎ IsPast y
Reaches-dispatched here e = inl e
Reaches-dispatched {x} {y} (onward p m) e =
    inr (Move-IsPast m (Reaches-unprepared p (ground (arith, e))))

Traces-Safe : {s t : Database} → Traces s t → Safe s t
Traces-Safe {s} p = subst (Safe s) (sym p.reached) (run-Safe s p.calls)

-- The row of an operation that is past its dispatch.
abbrev PastRow : String → Database → Type 0
PastRow i s = (x : Operation) × (find i s.operations ≡ some x) × IsPast x

past-Safe : {s t : Database} (i : String) → Safe s t → PastRow i s → PastRow i t
past-Safe i safe (x, fx, v) = let (y, fy, r) = safe.rows.row i x fx in (y, fy, Reaches-IsPast r v)

mark_open_error :
    (event : String) (now : ℕ) (o : Operation) (s : Database) (e : Error)
    → mark_open event now o s ≡ err e
    → is_outcome_unknown e ≡ false
unfolding mark_open append_operation_event append_event mark_unresolved_in_tx
mark_open_error event now o s e h = ground arith

mark_unknown_error :
    (event : String) (now : ℕ) (id : String) (s : Database) (e : Error)
    → mark_unknown event now id s ≡ err e
    → is_outcome_unknown e ≡ false
unfolding mark_unknown
mark_unknown_error event now id s e h = elim (Option-cases (find id s.operations)) [
  | inl missing ↦ ground (arith, missing, h)
  | inr (o, fo) ↦ elim (Bool-cases (is_confirmed o.state)) [
    | inl done ↦ absurd (ground (arith, fo, done, h))
    | inr live ↦ mark_open_error event now o s e (ground (arith, fo, live, h))
  ]
]

marked_row :
    (event : String) (now : ℕ) (id : String) (x u : Operation) (s t : Database)
    → find id s.operations ≡ some x
    → x.state ≡ OperationState.dispatched
    → mark_unknown event now id s ≡ ok (u, t)
    → PastRow id t
unfolding mark_unknown
marked_row event now id x u s t fx e h =
    let (_, _, rows, _) = mark_open_cases event now x u s t (ground (arith, fx, e, h)) in
    (
      suspend_operation x,
      ap (find id) (
            rows
            ∙ ap (λ i. update i suspend_operation s.operations)
                (find-key id s.operations {r = x} fx))
          ∙ find-update_self id suspend_operation s.operations (λ y. refl) fx,
      inr refl,
    )

-- A reconciliation that the loop does not stop at leaves a dispatched operation past its dispatch.
reconciled_row :
    (w : OutcomeDraws) (providers : Providers) (id : String) (x : Operation) (s : Database)
    → find id s.operations ≡ some x
    → x.state ≡ OperationState.dispatched
    → expect_unknown (reconcile w providers id s).0 ≡ ok tt
    → PastRow id (reconcile w providers id s).1
unfolding reconcile reconcile_by expect_unknown
reconciled_row w providers id x s fx e h =
    elim (Result-cases (mark_unknown w.marked w.marked_at id s)) [
      | inr (bad, failed) ↦ absurd (
          ground (arith, fx, e, failed, h, mark_unknown_error w.marked w.marked_at id s bad failed))
      | inl (u, t, marked) ↦
          let same : (reconcile w providers id s).1 ≡ (look_up w providers id u t).1 =
            ground (arith, fx, e, marked) in
          subst (PastRow id) (sym same) (
            past-Safe id (Traces-Safe ((look_up-IsTraced w providers id u).from t))
              (marked_row w.marked w.marked_at id x u s t fx e marked))
    ]

abbrev has_id : String → List Operation → Bool
has_id i [] = false
has_id i (o ∷ os) = if o.id == i then true else has_id i os

insert_in_order-has_id :
    (i : String) (o : Operation) (os : List Operation)
    → has_id i (o ∷ os) ≡ true
    → has_id i (insert_in_order o os) ≡ true
unfolding insert_in_order
insert_in_order-has_id i o [] h = h
insert_in_order-has_id i o (x ∷ xs) h = ground (arith, insert_in_order-has_id i o xs)

-- The query lists every dispatched operation.
pending-has_id :
    (i : String) (os : List Operation) (x : Operation)
    → find i os ≡ some x
    → x.state ≡ OperationState.dispatched
    → has_id i (pending_operations os) ≡ true
unfolding find pending_operations is_pending_outcome
pending-has_id i [] x h e = absurd (cc)
pending-has_id i (o ∷ os) x h e =
    ground (arith, pending-has_id i os x, insert_in_order-has_id i o (pending_operations os))

module _ (draws : String → OutcomeDraws) (providers : Providers) where
  each_cases :
      (o : Operation) (os : List Operation) (s t : Database)
      → reconcile_each draws providers (o ∷ os) s ≡ (ok tt, t)
      → (expect_unknown (reconcile (draws o.id) providers o.id s).0 ≡ ok tt)
        × (reconcile_each draws providers os (reconcile (draws o.id) providers o.id s).1
            ≡ (ok tt, t))
  unfolding reconcile_each
  each_cases o os s t h = ground arith

  each_past :
      (os : List Operation) (i : String) (s t : Database)
      → PastRow i s
      → reconcile_each draws providers os s ≡ (ok tt, t)
      → PastRow i t
  each_past os i s t p h =
      subst (PastRow i) (ap (λ r. r.1) h)
        (past-Safe i (Traces-Safe (reconcile_each-Traces draws providers os s)) p)

  each_listed :
      (os : List Operation) (i : String) (x : Operation) (s t : Database)
      → find i s.operations ≡ some x
      → x.state ≡ OperationState.dispatched
      → has_id i os ≡ true
      → reconcile_each draws providers os s ≡ (ok tt, t)
      → PastRow i t
  each_listed [] i x s t fx e listed h = absurd (cc)
  each_listed (o ∷ os) i x s t fx e listed h =
      let (fine, rest) = each_cases o os s t h in
      elim (string_dec o.id i) [
        | yes own ↦
            let fo : find o.id s.operations ≡ some x =
              subst (λ j. find j s.operations ≡ some x) (sym own) fx in
            each_past os i (reconcile (draws o.id) providers o.id s).1 t
              (subst (λ j. PastRow j (reconcile (draws o.id) providers o.id s).1) own
                (reconciled_row (draws o.id) providers o.id x s fo e fine))
              rest
        | no other ↦
            let u = (reconcile (draws o.id) providers o.id s).1 in
            let (y, fy, r) =
              (Traces-Safe ((reconcile-IsTraced (draws o.id) providers o.id).from s)).rows.row i x
                fx in
            let past = each_past os i u t in
            let again = each_listed os i y u t fy in
            elim (Reaches-dispatched r e) [
              | inl still ↦ again still (ground (arith, other, listed)) rest
              | inr past_now ↦ past (y, fy, past_now) rest
            ]
      ]

-- After a reconciliation of the pending operations that ends without an error, each operation that was in
-- its dispatch before is found again, and its outcome is confirmed or recorded as unknown. It has sent
-- nothing: it does the same whatever the providers would do with an effect.
pub reconcile_pending-IsPast :
    (draws : String → OutcomeDraws) (providers : Providers) (i : String) (x : Operation)
    (s t : Database) (f : String → DispatchRequest → Result ProviderOutcome)
    → find i s.operations ≡ some x
    → x.state ≡ OperationState.dispatched
    → reconcile_pending draws providers s ≡ (ok tt, t)
    → ((y : Operation) × (find i t.operations ≡ some y) × IsPast y)
      × (reconcile_pending draws (redirect f providers) s ≡ (ok tt, t))
unfolding reconcile_pending
reconcile_pending-IsPast draws providers i x s t f fx e h = (
  each_listed draws providers (pending_operations s.operations) i x s t fx e
      (pending-has_id i s.operations x fx e) h,
  ap (λ r. r s) (reconcile_pending_silent f providers draws) ∙ h,
)
