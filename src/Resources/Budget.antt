-- ===== src/Resources/Budget.antt =====
-- internal/resources/service.go: the invariant of the budget, and the `int64` arithmetic of the query.
use meeseek_collective.Common.{
  ℕ, ◌+◌, ◌^◌, ◌≤◌, ◌<◌, ◌≡◌, sym, subst, ◌⊎◌, inl, inr, List, [], ◌∷◌, some, String, arith,
}
use meeseek_collective.Common.Int.{
  ℤ, pos, ◌-ℤ◌, ◌≤ℤ◌, wrap64, wrap64_fits, sub_fits, sub_pos, -ℤ_parts,
}
use meeseek_collective.Common.Rows.{
  find, update, insert, KeepsKey, sum, Unique, sum-update, sum-insert, update-Unique, insert-Unique,
}
use meeseek_collective.Common.Result.{ok}
use meeseek_collective.Domain.{held}
use meeseek_collective.Resources.{
  Call, after, run, Ledger, Envelope, Reservation, envelope_key, reservation_key, available_in,
  settled_weight, held_weight, unresolved_weight,
}
use meeseek_collective.Resources.Steps.{
  after-LedgerStep, LedgerStep, stays, moves, opens, RowStep, settles, suspends, releases,
}

-- What an envelope has at risk: the reservations held and those of an unknown outcome.
abbrev pub exposure : String → Ledger → ℕ
exposure e s = sum (held_weight e) s.reservations + sum (unresolved_weight e) s.reservations

abbrev pub spent : String → Ledger → ℕ
spent e s = sum (settled_weight e) s.reservations

pub record IsSound (s : Ledger) : Type 0 where
  pub unique : Unique s.reservations
  pub limits : (i : String) (e : Envelope) → find i s.envelopes ≡ some e → e.hard_limit < 2 ^ 63
  pub within :
      (i : String) (e : Envelope) → find i s.envelopes ≡ some e → exposure i s ≤ e.hard_limit

-- Three subtractions that never leave the range.
exact_difference :
    (limit a h u : ℕ)
    → limit < 2 ^ 63
    → a < 2 ^ 63
    → h + u ≤ limit
    → wrap64 (wrap64 (wrap64 (pos limit -ℤ pos a) -ℤ pos h) -ℤ pos u) ≡ pos limit -ℤ pos (a + h + u)
exact_difference limit a h u l fa live =
    rw
      (
        wrap64_fits _ (sub_fits limit a l (omega arith)),
        sub_pos limit a h,
        wrap64_fits _ (sub_fits limit (a + h) l (omega arith)),
        sub_pos limit (a + h) u,
      )
      (wrap64_fits _ (sub_fits limit (a + h + u) l (omega arith)))

-- The query of the budget reports the limit less what is spent and exposed, as a true difference:
-- none of its three `int64` subtractions wraps around.
pub available_in_exact :
    (i : String) (e : Envelope) (s : Ledger)
    → IsSound s
    → find i s.envelopes ≡ some e
    → spent i s < 2 ^ 63
    → available_in i s ≡ ok (pos e.hard_limit -ℤ pos (spent i s + exposure i s), s)
unfolding available_in
available_in_exact i e s v f small = ground (
  arith,
  v.limits i e f,
  v.within i e f,
  exact_difference e.hard_limit (spent i s) (sum (held_weight i) s.reservations)
      (sum (unresolved_weight i) s.reservations),
)

RowStep-weights :
    (i : String) {r r' : Reservation}
    → RowStep r r'
    → held_weight i r' + unresolved_weight i r' ≤ held_weight i r + unresolved_weight i r
unfolding held_weight unresolved_weight
RowStep-weights i {r = r} (settles n live s a e m) = ground arith
RowStep-weights i {r = r} (suspends live s e m) = ground arith
RowStep-weights i {r = r} (releases live s e) = ground arith

pub available_in-spent :
    (i : String) (s t : Ledger) (left : ℤ) → available_in i s ≡ ok (left, t) → spent i s < 2 ^ 63
unfolding available_in
available_in-spent i s t left h = ground arith

-- What the query reports leaves room under the limit for the exposure and the amount.
pub room_under_limit :
    (i : String) (e : Envelope) (s : Ledger) (left : ℤ) (n : ℕ)
    → IsSound s
    → find i s.envelopes ≡ some e
    → available_in i s ≡ ok (left, s)
    → pos n ≤ℤ left
    → spent i s + exposure i s + n ≤ e.hard_limit
room_under_limit i e s left n v f a room =
    let exact = available_in_exact i e s v f (available_in-spent i s s left a) in
    let same : left ≡ pos e.hard_limit -ℤ pos (spent i s + exposure i s) = cc (a, exact) in
    let room' = subst (λ z. pos n ≤ℤ z) same room in
    omega (arith, room', -ℤ_parts (pos e.hard_limit) (pos (spent i s + exposure i s)))

pub opened_weights :
    (i : String) (r : Reservation)
    → r.state ≡ held
    → ((r.envelope ≡ i) × (held_weight i r ≡ r.amount) × (unresolved_weight i r ≡ 0))
      ⊎ ((held_weight i r ≡ 0) × (unresolved_weight i r ≡ 0))
unfolding held_weight unresolved_weight
opened_weights i r h = ground arith

opened_within :
    (i : String) (e : Envelope) (s : Ledger) (r : Reservation) (left : ℤ)
    → IsSound s
    → find i s.envelopes ≡ some e
    → r.state ≡ held
    → available_in r.envelope s ≡ ok (left, s)
    → pos r.amount ≤ℤ left
    → held_weight i r + unresolved_weight i r + exposure i s ≤ e.hard_limit
opened_within i e s r left v f h a room = elim (opened_weights i r h) [
  | inl (same, w, w') ↦
      let a' = subst (λ j. available_in j s ≡ ok (left, s)) same a in
      omega (arith, w, w', room_under_limit i e s left r.amount v f a' room)
  | inr (w, w') ↦ omega (arith, w, w', v.within i e f)
]

-- Every operation that succeeds keeps the exposure of every envelope within its limit.
pub LedgerStep-IsSound : {s t : Ledger} → LedgerStep s t → IsSound s → IsSound t
LedgerStep-IsSound (stays e) v = subst IsSound (sym e) v
LedgerStep-IsSound {s} (moves id r f e keeps step w) v = subst IsSound (sym w) (record {
  unique = update-Unique id f s.reservations keeps v.unique;
  limits = v.limits;
  within = λ i x fx. omega (
    arith,
    v.within i x fx,
    sum-update (held_weight i) id f s.reservations {r = r} v.unique e,
    sum-update (unresolved_weight i) id f s.reservations {r = r} v.unique e,
    RowStep-weights i step,
  );
})
LedgerStep-IsSound {s} (opens r rows left h a room ins w) v = subst IsSound (sym w) (record {
  unique = insert-Unique r s.reservations ins v.unique;
  limits = v.limits;
  within = λ i x fx. omega (
    arith,
    opened_within i x s r left v fx h a room,
    sum-insert (held_weight i) r s.reservations ins,
    sum-insert (unresolved_weight i) r s.reservations ins,
  );
})

-- From a sound ledger every sequence of calls, failing ones included, leads to a sound ledger.
run-IsSound : (s : Ledger) (cs : List Call) → IsSound s → IsSound (run s cs)
unfolding run
run-IsSound s [] v = v
run-IsSound s (c ∷ cs) v = run-IsSound (after s c) cs (LedgerStep-IsSound (after-LedgerStep s c) v)

-- The effect of a call on a sound ledger, with the room under the limit as a sum of numbers.
pub data LedgerMove (s t : Ledger) : Type 0 where
  stands : t ≡ s → LedgerMove s t
  turns :
      (id : String) (r : Reservation) (f : Reservation → Reservation)
      → find id s.reservations ≡ some r
      → KeepsKey f
      → RowStep r (f r)
      → t ≡ record s { reservations = update id f s.reservations }
      → LedgerMove s t
  reserved :
      (r : Reservation) (rows : List Reservation) (e : Envelope)
      → r.state ≡ held
      → find r.envelope s.envelopes ≡ some e
      → spent r.envelope s + exposure r.envelope s + r.amount ≤ e.hard_limit
      → insert r s.reservations ≡ some rows
      → t ≡ record s { reservations = rows }
      → LedgerMove s t
