-- ===== src/Operations/Recorded.antt =====
-- SettleOutcome of internal/operations/service.go: the operation that it stores, and its reservation.
use meeseek_collective.Common.{
  ℕ, ◌≡◌, refl, ap, subst, ◌∙◌, ◌⊎◌, inl, inr, true, false, some, String, arith, Option-cases,
}
use meeseek_collective.Common.Int.{ℤ, pos, pos_part, ltb_ℤ}
use meeseek_collective.Common.Text.{trim_space}
use meeseek_collective.Common.Rows.{find}
use meeseek_collective.Common.Result.{ok}
use meeseek_collective.Domain.{OperationState, settled}
use meeseek_collective.Resources.{Reservation, reservation_key, settle_in_tx}
use meeseek_collective.Resources.Lifecycle.{settled_reservation}
use meeseek_collective.Operations.{
  Operation, ProviderOutcome, Database, operation_key, is_confirmed, is_in_flight, same_confirmed,
  settle_repeated, settle_outcome,
}
use meeseek_collective.Operations.Settlement.{
  Aside, repeats, settles, settled_row, confirmed_outcome, settle_outcome-Settled,
}

same_confirmed_eq : (x y : OperationState) → same_confirmed x y ≡ true → x ≡ y
same_confirmed_eq OperationState.confirmed_effect OperationState.confirmed_effect h = refl
same_confirmed_eq OperationState.confirmed_no_effect OperationState.confirmed_no_effect h = refl
same_confirmed_eq _ _ h = absurd (ground arith)

-- A number of units that is not negative.
natural_cost : (z : ℤ) → ltb_ℤ z (pos 0) ≡ false → (n : ℕ) × (z ≡ pos n)
natural_cost (ℤ.pos n) h = (n, refl)
natural_cost (ℤ.negsuc n) h = absurd (ground arith)

repeated_fields :
    (outcome : ProviderOutcome) (n : ℕ) (u : Operation) (s : Database)
    → outcome.actual_cost ≡ pos n
    → settle_repeated outcome u s ≡ ok (u, s)
    → (u.actual_cost ≡ some n) × (u.provider_reference ≡ trim_space outcome.provider_reference)
unfolding settle_repeated
repeated_fields outcome n u s e h = elim (Option-cases u.actual_cost) [
  | inl none_ ↦ absurd (ground (arith, e, none_, h))
  | inr (m, cost) ↦ (ground (arith, e, cost, h), ground (arith, e, cost, h))
]

-- An operation whose outcome was open, with the reservation that its settlement has settled.
pub record WasOpen (id : String) (n : ℕ) (u : Operation) (s t : Database) : Type 0 where
  pub open_row : Operation
  pub found : find id s.operations ≡ some open_row
  pub in_flight : is_in_flight open_row.state ≡ true
  pub task : u.task ≡ open_row.task
  pub attempt : u.attempt ≡ open_row.attempt
  pub own : u.reservation ≡ open_row.reservation
  pub reservation : Reservation
  pub paid : find u.reservation t.ledger.reservations ≡ some reservation
  pub settled : reservation.state ≡ settled
  pub amount : reservation.settled_amount ≡ some n
  pub aside : Aside s t

-- The operation that a settlement returns, as it is stored.
pub record Recorded (id : String) (outcome : ProviderOutcome) (u : Operation) (s t : Database)
    : Type 0 where
  pub row : find id t.operations ≡ some u
  pub confirmed : is_confirmed u.state ≡ true
  pub state : u.state ≡ outcome.state
  pub cost : ℕ
  pub given : outcome.actual_cost ≡ pos cost
  pub charged : u.actual_cost ≡ some cost
  pub reference : u.provider_reference ≡ trim_space outcome.provider_reference
  pub before : (t ≡ s) ⊎ WasOpen id cost u s t

-- After a settlement that succeeds, the operation is stored with the confirmed state, the cost and the
-- reference of the outcome. It was so before and nothing has changed, or its outcome was open and its
-- reservation is settled with the cost now, while tasks, attempts and approvals are left alone.
pub settle_outcome-Recorded :
    (event : String) (now : ℕ) (id : String) (outcome : ProviderOutcome) (s t : Database)
    (u : Operation)
    → settle_outcome event now id outcome s ≡ ok (u, t)
    → Recorded id outcome u s t
settle_outcome-Recorded event now id outcome s t u h =
    let (row, confirmed) = settled_row event now id outcome s t u h in
    let (good, cost) = confirmed_outcome event now id outcome s t u h in
    let (n, given) = natural_cost outcome.actual_cost cost in
    elim (settle_outcome-Settled event now id outcome s t u h) [
      | repeats same fo again state ↦
          let (charged, reference) = repeated_fields outcome n u s given again in
          record {
            row = row;
            confirmed = confirmed;
            state = same_confirmed_eq u.state outcome.state state;
            cost = n;
            given = given;
            charged = charged;
            reference = reference;
            before = inl same;
          }
      | settles o fo flight paid rows own aside ↦
          let (r, fr, closed, amount) = settled_reservation now o.reservation n s.ledger t.ledger (
            subst (λ z. settle_in_tx now o.reservation z s.ledger ≡ ok (tt, t.ledger)) given
              paid) in
          record {
            row = row;
            confirmed = confirmed;
            state = ap (λ (x : Operation). x.state) own;
            cost = n;
            given = given;
            charged = ap (λ (x : Operation). x.actual_cost) own ∙ ap (λ z. some (pos_part z)) given;
            reference = ap (λ (x : Operation). x.provider_reference) own;
            before = inr (record {
              open_row = o;
              found = fo;
              in_flight = flight;
              task = ap (λ (x : Operation). x.task) own;
              attempt = ap (λ (x : Operation). x.attempt) own;
              own = ap (λ (x : Operation). x.reservation) own;
              reservation = r;
              paid = ap (λ (x : Operation). find x.reservation t.ledger.reservations) own ∙ fr;
              settled = closed;
              amount = amount;
              aside = aside;
            });
          }
    ]
