-- ===== src/Resources/Cover.antt =====
-- internal/resources/service.go: how the limit of an envelope bounds the settled costs as well.
use meeseek_collective.Common.{
  ℕ, ◌+◌, ◌≤◌, ◌≡◌, sym, subst, ◌⊎◌, inl, inr, Option, none, some, List, [], ◌∷◌, String, ◌==◌,
  if◌then◌else◌, leb, arith,
}
use meeseek_collective.Common.Int.{ℤ, pos, ◌≤ℤ◌}
use meeseek_collective.Common.Rows.{find, sum, sum-update, sum-insert}
use meeseek_collective.Common.Result.{ok}
use meeseek_collective.Domain.{ReservationState, held, settled, released, unresolved}
use meeseek_collective.Resources.{
  Call, after, run, Ledger, Envelope, Reservation, envelope_key, reservation_key, available_in,
  settled_weight, held_weight, unresolved_weight,
}
use meeseek_collective.Resources.Steps.{
  after-LedgerStep, LedgerStep, stays, moves, opens, RowStep, settles, suspends, releases,
}
use meeseek_collective.Resources.Budget.{IsSound, exposure, LedgerStep-IsSound, room_under_limit}

-- A settled cost, up to the amount that was reserved for it.
abbrev pub covered_cost : ReservationState → Option ℕ → ℕ → ℕ
covered_cost settled (some n) amount = if leb n amount then n else amount
covered_cost settled none amount = 0
covered_cost held _ amount = 0
covered_cost unresolved _ amount = 0
covered_cost released _ amount = 0

unfoldable pub covered_weight : String → Reservation → ℕ
covered_weight e r = if r.envelope == e then covered_cost r.state r.settled_amount r.amount else 0

abbrev pub covered : String → Ledger → ℕ
covered e s = sum (covered_weight e) s.reservations

abbrev pub Covers : Ledger → Type 0
Covers s =
    (i : String) (e : Envelope)
    → find i s.envelopes ≡ some e
    → covered i s + exposure i s ≤ e.hard_limit

pub record IsCovered (s : Ledger) : Type 0 where
  pub sound : IsSound s
  pub covers : Covers s

covered_le : (i : String) (r : Reservation) → covered_weight i r ≤ settled_weight i r
unfolding covered_weight settled_weight
covered_le i r = ground arith

covered-spent :
    (i : String) (rs : List Reservation) → sum (covered_weight i) rs ≤ sum (settled_weight i) rs
unfolding sum
covered-spent i [] = omega arith
covered-spent i (r ∷ rs) = omega (arith, covered_le i r, covered-spent i rs)

-- The place of a row under the limit of its envelope.
abbrev place : String → Reservation → ℕ
place i r = covered_weight i r + held_weight i r + unresolved_weight i r

RowStep-place : (i : String) {r r' : Reservation} → RowStep r r' → place i r' ≤ place i r
unfolding covered_weight held_weight unresolved_weight
RowStep-place i {r = r} {r'} (settles n live s a e m) = ground arith
RowStep-place i {r = r} (suspends live s e m) = ground arith
RowStep-place i {r = r} (releases live s e) = ground arith

opened_place :
    (i : String) (r : Reservation)
    → r.state ≡ held
    → ((r.envelope ≡ i) × (place i r ≡ r.amount)) ⊎ (place i r ≡ 0)
unfolding covered_weight held_weight unresolved_weight
opened_place i r h = ground arith

opened_covered :
    (i : String) (e : Envelope) (s : Ledger) (r : Reservation) (left : ℤ)
    → IsCovered s
    → find i s.envelopes ≡ some e
    → r.state ≡ held
    → available_in r.envelope s ≡ ok (left, s)
    → pos r.amount ≤ℤ left
    → place i r + covered i s + exposure i s ≤ e.hard_limit
opened_covered i e s r left v f h a room = elim (opened_place i r h) [
  | inl (same, w) ↦
      let a' = subst (λ j. available_in j s ≡ ok (left, s)) same a in
      omega (
        arith,
        w,
        covered-spent i s.reservations,
        room_under_limit i e s left r.amount v.sound f a' room,
      )
  | inr w ↦ omega (arith, w, v.covers i e f)
]

pub LedgerStep-IsCovered : {s t : Ledger} → LedgerStep s t → IsCovered s → IsCovered t
LedgerStep-IsCovered (stays e) v = subst IsCovered (sym e) v
LedgerStep-IsCovered {s} {t} (moves id r f e keeps step w) v = record {
  sound = LedgerStep-IsSound {t = t} (moves id r f e keeps step w) v.sound;
  covers = subst Covers (sym w) λ i x fx. omega (
    arith,
    v.covers i x fx,
    sum-update (covered_weight i) id f s.reservations {r = r} v.sound.unique e,
    sum-update (held_weight i) id f s.reservations {r = r} v.sound.unique e,
    sum-update (unresolved_weight i) id f s.reservations {r = r} v.sound.unique e,
    RowStep-place i step,
  );
}
LedgerStep-IsCovered {s} {t} (opens r rows left h a room ins w) v = record {
  sound = LedgerStep-IsSound {t = t} (opens r rows left h a room ins w) v.sound;
  covers = subst Covers (sym w) λ i x fx. omega (
    arith,
    opened_covered i x s r left v fx h a room,
    sum-insert (covered_weight i) r s.reservations ins,
    sum-insert (held_weight i) r s.reservations ins,
    sum-insert (unresolved_weight i) r s.reservations ins,
  );
}

-- Whatever calls are made on a ledger that is covered, failing ones included, it stays so: what an
-- envelope has held and unresolved, with its settled costs, each up to the amount that was reserved for
-- it, is within its limit.
pub run-IsCovered : (s : Ledger) (cs : List Call) → IsCovered s → IsCovered (run s cs)
unfolding run
run-IsCovered s [] v = v
run-IsCovered s (c ∷ cs) v =
    run-IsCovered (after s c) cs (LedgerStep-IsCovered (after-LedgerStep s c) v)
