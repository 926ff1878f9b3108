-- ===== src/Resources/Lifecycle.antt =====
-- What each call does to a reservation and to the budget, on every branch.
use meeseek_collective.Common.{
  ℕ, ◌+◌, ◌^◌, ◌<◌, ◌≡◌, refl, sym, ◌∙◌, subst, ◌⊎◌, inl, inr, some, none, String, List, [], ◌∷◌,
  arith, string_dec, Option-cases, leb, nat_eq, if◌then◌else◌, ◌==◌, Option, false,
}
use meeseek_collective.Common.Int.{pos, -ℤ_parts}
use meeseek_collective.Common.Rows.{
  find, insert, find-update_self, find-update_ne, find-insert_other, sum-update, sum-insert,
}
use meeseek_collective.Common.Result.{ok, err, budget_exceeded, failure}
use meeseek_collective.Domain.{held, settled, released, unresolved}
use meeseek_collective.Resources.{
  Ledger, Envelope, Reservation, Enforceability, envelope_key, reservation_key, settled_weight,
  held_weight, unresolved_weight, Call, after, run, new_reservation, reserve_in_tx, settle_in_tx,
  mark_unresolved_in_tx, release_in_tx, settle_row, move_row, load_reservation_state,
  validate_reservation_request,
}
use meeseek_collective.Resources.Steps.{
  LedgerStep, stays, moves, opens, RowStep, settles, suspends, releases, IsLive, after-LedgerStep,
  mark_unresolved_cases,
}
use meeseek_collective.Resources.Budget.{IsSound, exposure, spent, available_in_exact}

-- A reservation that is settled or released is in its final state.
abbrev pub IsFinal : Reservation → Type 0
IsFinal r = (r.state ≡ settled) ⊎ (r.state ≡ released)

RowStep-IsLive : {r r' : Reservation} → RowStep r r' → IsLive r.state
RowStep-IsLive (settles n live _ _ _ _) = live
RowStep-IsLive (suspends h _ _ _) = inl h
RowStep-IsLive (releases live _ _) = live

moved_final :
    (r r' : Reservation) {o : Option Reservation}
    → IsLive r.state
    → IsFinal r'
    → o ≡ some r
    → o ≡ some r'
    → ⊥
moved_final r r' live final e e' = ground arith

LedgerStep-final :
    {s t : Ledger} (j : String) (r : Reservation)
    → LedgerStep s t
    → find j s.reservations ≡ some r
    → IsFinal r
    → find j t.reservations ≡ some r
LedgerStep-final {s} {t} j r (stays e) f h =
    subst (λ (x : Ledger). find j x.reservations ≡ some r) (sym e) f
LedgerStep-final {s} {t} j r (moves id r' g e keeps step w) f h = elim (string_dec j id) [
  | yes same ↦ absurd (
      moved_final r' r (RowStep-IsLive step) h e
        (subst (λ k. find k s.reservations ≡ some r) same f))
  | no other ↦
      subst (λ (x : Ledger). find j x.reservations ≡ some r) (sym w)
        (find-update_ne id j g s.reservations keeps other ∙ f)
]
LedgerStep-final {s} {t} j r (opens r' rows left x a room ins w) f h =
    subst (λ (x : Ledger). find j x.reservations ≡ some r) (sym w)
      (find-insert_other j r' s.reservations ins f)

-- A final reservation stays as it is, whatever calls follow.
pub run-final :
    (s : Ledger) (cs : List Call) (j : String) (r : Reservation)
    → find j s.reservations ≡ some r
    → IsFinal r
    → find j (run s cs).reservations ≡ some r
unfolding run
run-final s [] j r f h = f
run-final s (c ∷ cs) j r f h =
    run-final (after s c) cs j r (LedgerStep-final j r (after-LedgerStep s c) f h) h

granted_rows :
    (fresh : String) (now : ℕ) (i : String) (n : ℕ) (e : Enforceability) (s : Ledger)
    → find fresh s.reservations ≡ none
    → insert (new_reservation fresh now i (pos n) e) s.reservations
      ≡ some (new_reservation fresh now i (pos n) e ∷ s.reservations)
unfolding insert new_reservation
granted_rows fresh now i n e s h = ground arith

granted_weights :
    (fresh : String) (now : ℕ) (i : String) (n : ℕ) (e : Enforceability)
    → (held_weight i (new_reservation fresh now i (pos n) e) ≡ n)
      × (unresolved_weight i (new_reservation fresh now i (pos n) e) ≡ 0)
      × (settled_weight i (new_reservation fresh now i (pos n) e) ≡ 0)
unfolding new_reservation held_weight unresolved_weight settled_weight
granted_weights fresh now i n e = ground arith

suspended_weights :
    (i : String) (now : ℕ) (r : Reservation)
    → r.state ≡ held
    → (held_weight i (move_row unresolved now r) + unresolved_weight i (move_row unresolved now r)
        ≡ held_weight i r + unresolved_weight i r)
      × (settled_weight i (move_row unresolved now r) ≡ settled_weight i r)
unfolding held_weight unresolved_weight settled_weight
suspended_weights i now r h = ground arith

settled_after :
    (now : ℕ) (id : String) (n : ℕ) (s t : Ledger)
    → settle_in_tx now id (pos n) s ≡ ok (tt, t)
    → ((id == "") ≡ false) × (load_reservation_state id t ≡ ok ((settled, some n), t))
unfolding settle_in_tx
settled_after now id n s t h = elim (Option-cases (find id s.reservations)) [
  | inl missing ↦ absurd (ground arith)
  | inr (r, e) ↦
      ground (arith, find-update_self id (settle_row n now) s.reservations {r = r} (λ _. refl) e)
]

abbrev pub granted : String → ℕ → String → ℕ → Enforceability → Ledger → Ledger
granted fresh now i n e s = record s {
  reservations = new_reservation fresh now i (pos n) e ∷ s.reservations;
}

-- On a sound ledger a valid request for n units, under a fresh identifier and on a known envelope
-- whose settled cost fits 64 bits, is recorded as held when what is spent and exposed leaves room for
-- n under the limit, and is refused as over budget otherwise. The recorded row raises the exposure by
-- n and nothing else.
pub reserve_in_tx_decides :
    (fresh : String) (now : ℕ) (i : String) (n : ℕ) (e : Enforceability) (x : Envelope) (s : Ledger)
    → IsSound s
    → validate_reservation_request i (pos n) e s ≡ ok (tt, s)
    → find i s.envelopes ≡ some x
    → find fresh s.reservations ≡ none
    → spent i s < 2 ^ 63
    → (reserve_in_tx fresh now i (pos n) e s ≡ (
        if leb (spent i s + exposure i s + n) x.hard_limit
        then ok (new_reservation fresh now i (pos n) e, granted fresh now i n e s)
        else err budget_exceeded))
      × (exposure i (granted fresh now i n e s) ≡ exposure i s + n)
      × (spent i (granted fresh now i n e s) ≡ spent i s)
unfolding reserve_in_tx new_reservation
reserve_in_tx_decides fresh now i n e x s v good f new small =
    let row : Reservation = new_reservation fresh now i (pos n) e in
    let rows = granted_rows fresh now i n e s new in
    let weights = granted_weights fresh now i n e in
    (
      ground (
        arith,
        available_in_exact i x s v f small,
        -ℤ_parts (pos x.hard_limit) (pos (spent i s + exposure i s)),
        rows,
      ),
      omega (
        arith,
        sum-insert (held_weight i) row s.reservations rows,
        sum-insert (unresolved_weight i) row s.reservations rows,
        weights,
      ),
      omega (arith, sum-insert (settled_weight i) row s.reservations rows, weights),
    )

-- On a sound ledger a reservation of an unknown outcome keeps its place in the budget: what is available is unchanged.
pub mark_unresolved_in_tx-exposure :
    (now : ℕ) (id : String) (s t : Ledger) (i : String)
    → IsSound s
    → mark_unresolved_in_tx now id s ≡ ok (tt, t)
    → (exposure i t ≡ exposure i s) × (spent i t ≡ spent i s)
mark_unresolved_in_tx-exposure now id s t i v h = elim (mark_unresolved_cases now id s t h) [
  | inl e ↦ rw e (refl, refl)
  | inr (r, e, live, w) ↦ rw w (
    omega (
      arith,
      sum-update (held_weight i) id (move_row unresolved now) s.reservations {r = r} v.unique e,
      sum-update (unresolved_weight i) id (move_row unresolved now) s.reservations {r = r} v.unique
          e,
      suspended_weights i now r live,
    ),
    omega (
      arith,
      sum-update (settled_weight i) id (move_row unresolved now) s.reservations {r = r} v.unique e,
      suspended_weights i now r live,
    ),
  )
]

-- Settling a reservation again, at any later time, is accepted for the same cost, changing nothing,
-- and refused for any other.
pub settle_in_tx_again :
    (now later : ℕ) (id : String) (n m : ℕ) (s t : Ledger)
    → settle_in_tx now id (pos n) s ≡ ok (tt, t)
    → settle_in_tx later id (pos m) t ≡ (
        if nat_eq n m
        then ok (tt, t)
        else err (failure "reservation already settled with a different actual amount"))
unfolding settle_in_tx
settle_in_tx_again now later id n m s t h =
    let (named, loaded) = settled_after now id n s t h in ground arith

-- The row that a settlement which succeeds leaves.
pub settled_reservation :
    (now : ℕ) (id : String) (n : ℕ) (s t : Ledger)
    → settle_in_tx now id (pos n) s ≡ ok (tt, t)
    → (r : Reservation) × (find id t.reservations ≡ some r)
      × (r.state ≡ settled)
      × (r.settled_amount ≡ some n)
unfolding load_reservation_state
settled_reservation now id n s t h =
    let (_, loaded) = settled_after now id n s t h in
    elim (Option-cases (find id t.reservations)) [
      | inl missing ↦ absurd (ground (arith, missing, loaded))
      | inr (r, e) ↦ (r, e, ground (arith, e, loaded), ground (arith, e, loaded))
    ]

released_after :
    (now : ℕ) (id : String) (r : Reservation) (s t : Ledger)
    → find id s.reservations ≡ some r
    → release_in_tx now id s ≡ ok (tt, t)
    → load_reservation_state id t ≡ ok ((released, r.settled_amount), t)
unfolding release_in_tx load_reservation_state
released_after now id r s t e h =
    ground (arith, find-update_self id (move_row released now) s.reservations {r = r} (λ _. refl) e)

-- The row that a release which succeeds leaves.
pub released_reservation :
    (now : ℕ) (id : String) (s t : Ledger)
    → release_in_tx now id s ≡ ok (tt, t)
    → (r : Reservation) × (find id t.reservations ≡ some r) × (r.state ≡ released)
unfolding release_in_tx load_reservation_state
released_reservation now id s t h = elim (Option-cases (find id s.reservations)) [
  | inl missing ↦ absurd (ground (arith, missing, h))
  | inr (r, e) ↦
      let loaded = released_after now id r s t e h in
      elim (Option-cases (find id t.reservations)) [
        | inl missing ↦ absurd (ground (arith, missing, loaded))
        | inr (x, f) ↦ (x, f, ground (arith, f, loaded))
      ]
]
