-- ===== src/Resources.antt =====
-- internal/resources/service.go: the ledger of reservations against envelopes. An operation is the
-- body of a transaction on the two tables; the clock's reading and the fresh identifier are
-- arguments. An amount is an `int64`: a column whose constraint makes it positive holds a number.
pub mod Steps
pub mod Budget
pub mod Cover
pub mod Lifecycle
mod Examples
use meeseek_collective.Common.{
  ℕ, ◌^◌, ◌+◌, ◌≡◌, refl, Bool, true, false, ◌&&◌, ◌||◌, not, Option, none, some, List, [], ◌∷◌,
  String, ◌==◌, if◌then◌else◌, leb, string_dec, nat_eq,
}
use meeseek_collective.Common.Int.{ℤ, pos, negsuc, pos_part, neg_part, ◌-ℤ◌, ltb_ℤ, leb_ℤ, wrap64}
use meeseek_collective.Common.Text.{trim_space}
use meeseek_collective.Common.Rows.{Keyed, key, sum, find, update, insert}
use meeseek_collective.Common.Result.{
  Error, budget_exceeded, hard_cap_unavailable, constraint_failed, integer_overflow, failure,
  Result, ok, err, Tx, ◌>>=◌, ◌>>◌, pure, raise, reject_if, or_raise, gets, with_tx,
}
use meeseek_collective.Domain.{ReservationState, held, settled, released, unresolved}

pub data CostControl : Type 0 where
  technically_capped prepaid_quota verified_stop : CostControl
  estimated_only potentially_open : CostControl
  unlisted : String → CostControl

pub record Enforceability : Type 0 where
  pub cost_control : CostControl
  pub require_hard_cap : Bool
  pub source : String

pub record Envelope : Type 0 where
  pub id : String
  pub hard_limit : ℕ

-- A row of resource_reservations.
pub record Reservation : Type 0 where
  pub id : String
  pub envelope : String
  pub state : ReservationState
  pub amount : ℕ
  pub settled_amount : Option ℕ
  pub cost_control : CostControl
  pub cost_source : String
  pub require_hard_cap : Bool
  pub created_at : ℕ
  pub updated_at : ℕ

pub record Ledger : Type 0 where
  pub envelopes : List Envelope
  pub reservations : List Reservation

instance abbrev pub envelope_key : Keyed Envelope
envelope_key = record { key = λ e. e.id }

instance abbrev pub reservation_key : Keyed Reservation
reservation_key = record { key = λ r. r.id }

valid : CostControl → Bool
valid (CostControl.unlisted _) = false
valid _ = true

provides_hard_ceiling : CostControl → Bool
provides_hard_ceiling CostControl.technically_capped = true
provides_hard_ceiling CostControl.prepaid_quota = true
provides_hard_ceiling CostControl.verified_stop = true
provides_hard_ceiling _ = false

unfoldable pub validate_reservation_request :
    {S : Type 0} → String → ℤ → Enforceability → Tx S (Unit {0})
unfolding valid provides_hard_ceiling
validate_reservation_request envelope amount e = do
  reject_if (envelope == "" || leb_ℤ amount (pos 0))
      (failure "envelope id and positive reservation amount are required")
  reject_if (not (valid e.cost_control)) (failure "invalid cost control")
  reject_if (trim_space e.source == "") (failure "cost-control source is required")
  reject_if (e.require_hard_cap && not (provides_hard_ceiling e.cost_control)) hard_cap_unavailable

-- The three sums of the query, over the rows of one envelope; NULL adds nothing.
settled_cost : ReservationState → Option ℕ → ℕ
settled_cost settled (some n) = n
settled_cost settled none = 0
settled_cost _ _ = 0

held_cost : ReservationState → ℕ → ℕ
held_cost held n = n
held_cost _ _ = 0

unresolved_cost : ReservationState → ℕ → ℕ
unresolved_cost unresolved n = n
unresolved_cost _ _ = 0

unfoldable pub settled_weight : String → Reservation → ℕ
unfolding settled_cost
settled_weight e r = if r.envelope == e then settled_cost r.state r.settled_amount else 0

unfoldable pub held_weight : String → Reservation → ℕ
unfolding held_cost
held_weight e r = if r.envelope == e then held_cost r.state r.amount else 0

unfoldable pub unresolved_weight : String → Reservation → ℕ
unfolding unresolved_cost
unresolved_weight e r = if r.envelope == e then unresolved_cost r.state r.amount else 0

-- SQLite's SUM of integers fails where the total leaves the 64-bit range.
sql_sum : (Reservation → ℕ) → Tx Ledger ℕ
sql_sum w = do
  total ← gets (λ s. sum w s.reservations)
  reject_if (leb (2 ^ 63) total) integer_overflow
  pure total

unfoldable pub available_in : String → Tx Ledger ℤ
unfolding sql_sum settled_weight held_weight unresolved_weight
available_in envelope = do
  row ← gets (λ s. find envelope s.envelopes)
  e ← or_raise row (failure "resource envelope not found")
  settled_total ← sql_sum (settled_weight envelope)
  held_total ← sql_sum (held_weight envelope)
  unresolved_total ← sql_sum (unresolved_weight envelope)
  pure (
      wrap64 (
        wrap64 (wrap64 (pos e.hard_limit -ℤ pos settled_total) -ℤ pos held_total)
        -ℤ pos unresolved_total))

unfoldable pub available : String → Tx Ledger ℤ
available envelope = do
  reject_if (envelope == "") (failure "envelope id is required")
  available_in envelope

-- The row that a reservation begins as.
unfoldable pub new_reservation : String → ℕ → String → ℤ → Enforceability → Reservation
new_reservation fresh now envelope amount e = record {
  id = fresh;
  envelope = envelope;
  state = held;
  amount = pos_part amount;
  settled_amount = none;
  cost_control = e.cost_control;
  cost_source = trim_space e.source;
  require_hard_cap = e.require_hard_cap;
  created_at = now;
  updated_at = now;
}

insert_reservation : Reservation → Tx Ledger (Unit {0})
insert_reservation r s = elim (insert r s.reservations) [
  | some rows ↦ ok (tt, record s { reservations = rows })
  | none ↦ err constraint_failed
]

unfoldable pub reserve_in_tx : String → ℕ → String → ℤ → Enforceability → Tx Ledger Reservation
unfolding insert_reservation
reserve_in_tx fresh now envelope amount e = do
  validate_reservation_request envelope amount e
  left ← available_in envelope
  reject_if (ltb_ℤ left amount) budget_exceeded
  insert_reservation (new_reservation fresh now envelope amount e)
  pure (new_reservation fresh now envelope amount e)

load_reservation_state : String → Tx Ledger (ReservationState × Option ℕ)
load_reservation_state id s = elim (find id s.reservations) [
  | some r ↦ ok ((r.state, r.settled_amount), s)
  | none ↦ err (failure "reservation not found")
]

update_reservation : String → (Reservation → Reservation) → Tx Ledger (Unit {0})
update_reservation id f s = ok (tt, record s { reservations = update id f s.reservations })

abbrev pub settle_row : ℕ → ℕ → Reservation → Reservation
settle_row actual now r = record r {
  state = settled;
  settled_amount = some actual;
  updated_at = now;
}

abbrev pub move_row : ReservationState → ℕ → Reservation → Reservation
move_row state now r = record r { state = state; updated_at = now }

-- The `switch` of each operation, on the row that was loaded.
settle_from : String → ℕ → ℕ → ReservationState → Option ℕ → Tx Ledger (Unit {0})
unfolding update_reservation
settle_from id actual now settled (some n) =
    if nat_eq n actual
    then pure tt
    else raise (failure "reservation already settled with a different actual amount")
settle_from id actual now settled none =
    raise (failure "reservation already settled with a different actual amount")
settle_from id actual now held _ = update_reservation id (settle_row actual now)
settle_from id actual now unresolved _ = update_reservation id (settle_row actual now)
settle_from id actual now released _ = raise (failure "cannot settle reservation")

unfoldable pub settle_in_tx : ℕ → String → ℤ → Tx Ledger (Unit {0})
unfolding settle_from load_reservation_state
settle_in_tx now id actual = do
  reject_if (id == "" || ltb_ℤ actual (pos 0))
      (failure "reservation id and non-negative actual amount are required")
  (state, amount) ← load_reservation_state id
  settle_from id (pos_part actual) now state amount

mark_unresolved_from : String → ℕ → ReservationState → Tx Ledger (Unit {0})
unfolding update_reservation
mark_unresolved_from id now unresolved = pure tt
mark_unresolved_from id now held = update_reservation id (move_row unresolved now)
mark_unresolved_from id now _ = raise (failure "cannot mark reservation unresolved")

unfoldable pub mark_unresolved_in_tx : ℕ → String → Tx Ledger (Unit {0})
unfolding mark_unresolved_from load_reservation_state
mark_unresolved_in_tx now id = do
  reject_if (id == "") (failure "reservation id is required")
  (state, _) ← load_reservation_state id
  mark_unresolved_from id now state

release_from : String → ℕ → ReservationState → Tx Ledger (Unit {0})
unfolding update_reservation
release_from id now released = pure tt
release_from id now held = update_reservation id (move_row released now)
release_from id now unresolved = update_reservation id (move_row released now)
release_from id now settled = raise (failure "cannot release reservation")

unfoldable pub release_in_tx : ℕ → String → Tx Ledger (Unit {0})
unfolding release_from load_reservation_state
release_in_tx now id = do
  reject_if (id == "") (failure "reservation id is required")
  (state, _) ← load_reservation_state id
  release_from id now state

-- The entry points that open their own transaction.
pub reserve : String → ℕ → String → ℤ → Enforceability → Ledger → Result Reservation × Ledger
reserve fresh now envelope amount e = with_tx (reserve_in_tx fresh now envelope amount e)

pub settle : ℕ → String → ℤ → Ledger → Result (Unit {0}) × Ledger
settle now id actual = with_tx (settle_in_tx now id actual)

pub mark_unresolved : ℕ → String → Ledger → Result (Unit {0}) × Ledger
mark_unresolved now id = with_tx (mark_unresolved_in_tx now id)

pub release : ℕ → String → Ledger → Result (Unit {0}) × Ledger
release now id = with_tx (release_in_tx now id)

-- One call of a client, with the clock's reading and the identifier it draws.
pub data Call : Type 0 where
  reserves : String → ℕ → String → ℤ → Enforceability → Call
  settles_at : ℕ → String → ℤ → Call
  marks_unresolved : ℕ → String → Call
  releases_at : ℕ → String → Call

unfoldable pub after : Ledger → Call → Ledger
unfolding reserve settle mark_unresolved release
after s (reserves fresh now envelope amount e) = (reserve fresh now envelope amount e s).1
after s (settles_at now id actual) = (settle now id actual s).1
after s (marks_unresolved now id) = (mark_unresolved now id s).1
after s (releases_at now id) = (release now id s).1

unfoldable pub run : Ledger → List Call → Ledger
run s [] = s
run s (c ∷ cs) = run (after s c) cs
