-- ===== src/Resources/Steps.antt =====
-- The state machine of a reservation and the moves of the ledger, in internal/resources/service.go.
use meeseek_collective.Common.{ℕ, ◌≡◌, refl, ◌⊎◌, inl, inr, some, String, arith, Option-cases, List}
use meeseek_collective.Common.Int.{ℤ, pos, pos_part, ◌≤ℤ◌}
use meeseek_collective.Common.Rows.{find, update, insert, KeepsKey}
use meeseek_collective.Common.Result.{ok, Result-cases, with_tx_cases}
use meeseek_collective.Domain.{ReservationState, held, settled, released, unresolved}
use meeseek_collective.Resources.{
  Call, reserves, settles_at, marks_unresolved, releases_at, after, Ledger, Reservation, settle_row,
  move_row, settle_in_tx, mark_unresolved_in_tx, release_in_tx, reserve_in_tx,
  validate_reservation_request, new_reservation, available_in, Enforceability, reservation_key,
}

-- A reservation that still counts as exposure.
abbrev pub IsLive : ReservationState → Type 0
IsLive x = (x ≡ held) ⊎ (x ≡ unresolved)

-- One transition of a reservation, by the columns that it writes and leaves.
pub data RowStep (r r' : Reservation) : Type 0 where
  settles :
      (n : ℕ)
      → IsLive r.state
      → r'.state ≡ settled
      → r'.settled_amount ≡ some n
      → r'.envelope ≡ r.envelope
      → r'.amount ≡ r.amount
      → RowStep r r'
  suspends :
      r.state ≡ held
      → r'.state ≡ unresolved
      → r'.envelope ≡ r.envelope
      → r'.amount ≡ r.amount
      → RowStep r r'
  releases : IsLive r.state → r'.state ≡ released → r'.envelope ≡ r.envelope → RowStep r r'

-- The effect of a call that succeeds: none, one transition of one row, or a new row.
pub data LedgerStep (s t : Ledger) : Type 0 where
  stays : t ≡ s → LedgerStep s t
  moves :
      (id : String) (r : Reservation) (f : Reservation → Reservation)
      → find id s.reservations ≡ some r
      → KeepsKey f
      → RowStep r (f r)
      → t ≡ record s { reservations = update id f s.reservations }
      → LedgerStep s t
  opens :
      (r : Reservation) (rows : List Reservation) (left : ℤ)
      → r.state ≡ held
      → available_in r.envelope s ≡ ok (left, s)
      → pos r.amount ≤ℤ left
      → insert r s.reservations ≡ some rows
      → t ≡ record s { reservations = rows }
      → LedgerStep s t

pub settle_cases :
    (now : ℕ) (id : String) (actual : ℤ) (s t : Ledger)
    → settle_in_tx now id actual s ≡ ok (tt, t)
    → (t ≡ s)
      ⊎ ((r : Reservation) × (find id s.reservations ≡ some r)
          × IsLive r.state
          × (t ≡ record s {
            reservations = update id (settle_row (pos_part actual) now) s.reservations;
          }))
unfolding settle_in_tx
settle_cases now id actual s t h = ground arith

pub mark_unresolved_cases :
    (now : ℕ) (id : String) (s t : Ledger)
    → mark_unresolved_in_tx now id s ≡ ok (tt, t)
    → (t ≡ s)
      ⊎ ((r : Reservation) × (find id s.reservations ≡ some r)
          × (r.state ≡ held)
          × (t ≡ record s { reservations = update id (move_row unresolved now) s.reservations }))
unfolding mark_unresolved_in_tx
mark_unresolved_cases now id s t h = ground arith

pub release_cases :
    (now : ℕ) (id : String) (s t : Ledger)
    → release_in_tx now id s ≡ ok (tt, t)
    → (t ≡ s)
      ⊎ ((r : Reservation) × (find id s.reservations ≡ some r)
          × IsLive r.state
          × (t ≡ record s { reservations = update id (move_row released now) s.reservations }))
unfolding release_in_tx
release_cases now id s t h = ground arith

-- A settlement that succeeds leaves the ledger alone or settles one live row.
pub settle_in_tx-LedgerStep :
    (now : ℕ) (id : String) (actual : ℤ) (s t : Ledger)
    → settle_in_tx now id actual s ≡ ok (tt, t)
    → LedgerStep s t
settle_in_tx-LedgerStep now id actual s t h = elim (settle_cases now id actual s t h) [
  | inl e ↦ stays e
  | inr (r, e, live, w) ↦
      moves id r _ e (λ _. refl) (settles (pos_part actual) live refl refl refl refl) w
]

pub mark_unresolved_in_tx-LedgerStep :
    (now : ℕ) (id : String) (s t : Ledger)
    → mark_unresolved_in_tx now id s ≡ ok (tt, t)
    → LedgerStep s t
mark_unresolved_in_tx-LedgerStep now id s t h = elim (mark_unresolved_cases now id s t h) [
  | inl e ↦ stays e
  | inr (r, e, live, w) ↦ moves id r _ e (λ _. refl) (suspends live refl refl refl) w
]

pub release_in_tx-LedgerStep :
    (now : ℕ) (id : String) (s t : Ledger) → release_in_tx now id s ≡ ok (tt, t) → LedgerStep s t
release_in_tx-LedgerStep now id s t h = elim (release_cases now id s t h) [
  | inl e ↦ stays e
  | inr (r, e, live, w) ↦ moves id r _ e (λ _. refl) (releases live refl refl) w
]

positive_le : (a b : ℤ) → pos 1 ≤ℤ a → a ≤ℤ b → pos (pos_part a) ≤ℤ b
positive_le (ℤ.pos n) b p h = h
positive_le (ℤ.negsuc n) b p h = omega arith

-- The query of the budget reads only.
available_in_reads :
    (envelope : String) (s : Ledger) (left : ℤ) (t : Ledger)
    → available_in envelope s ≡ ok (left, t)
    → t ≡ s
unfolding available_in
available_in_reads envelope s left t h = ground arith

pub reserve_cases :
    (fresh : String) (now : ℕ) (envelope : String) (amount : ℤ) (e : Enforceability) (s t : Ledger)
    (r : Reservation)
    → reserve_in_tx fresh now envelope amount e s ≡ ok (r, t)
    → (left : ℤ) × (rows : List Reservation) × (available_in envelope s ≡ ok (left, s))
      × (amount ≤ℤ left)
      × (pos 1 ≤ℤ amount)
      × (r ≡ new_reservation fresh now envelope amount e)
      × (insert (new_reservation fresh now envelope amount e) s.reservations ≡ some rows)
      × (t ≡ record s { reservations = rows })
unfolding reserve_in_tx validate_reservation_request
reserve_cases fresh now envelope amount e s t r h = elim (Result-cases (available_in envelope s)) [
  | inl (left, s', a) ↦
      elim (Option-cases (insert (new_reservation fresh now envelope amount e) s.reservations)) [
        | inl i ↦ absurd (ground (arith, available_in_reads envelope s left s'))
        | inr (rows, i) ↦ (
          left,
          rows,
          ground (arith, available_in_reads envelope s left s'),
          ground (arith, available_in_reads envelope s left s'),
          ground (arith, available_in_reads envelope s left s'),
          ground (arith, available_in_reads envelope s left s'),
          i,
          ground (arith, available_in_reads envelope s left s'),
        )
      ]
  | inr (x, a) ↦ absurd (ground arith)
]

pub reserve_in_tx-LedgerStep :
    (fresh : String) (now : ℕ) (envelope : String) (amount : ℤ) (e : Enforceability) (s t : Ledger)
    (r : Reservation)
    → reserve_in_tx fresh now envelope amount e s ≡ ok (r, t)
    → LedgerStep s t
unfolding new_reservation
reserve_in_tx-LedgerStep fresh now envelope amount e s t r h =
    let (left, rows, a, room, positive, _, i, w) =
      reserve_cases fresh now envelope amount e s t r h in
    opens (new_reservation fresh now envelope amount e) rows left refl a
      (positive_le amount left positive room) i w

-- A call that fails stays; one that succeeds makes a step.
pub after-LedgerStep : (s : Ledger) (c : Call) → LedgerStep s (after s c)
unfolding after
after-LedgerStep s (reserves fresh now envelope amount e) =
    with_tx_cases (LedgerStep s) (reserve_in_tx fresh now envelope amount e) s (stays refl)
      λ r t h. reserve_in_tx-LedgerStep fresh now envelope amount e s t r h
after-LedgerStep s (settles_at now id actual) =
    with_tx_cases (LedgerStep s) (settle_in_tx now id actual) s (stays refl)
      λ u t h. settle_in_tx-LedgerStep now id actual s t h
after-LedgerStep s (marks_unresolved now id) =
    with_tx_cases (LedgerStep s) (mark_unresolved_in_tx now id) s (stays refl)
      λ u t h. mark_unresolved_in_tx-LedgerStep now id s t h
after-LedgerStep s (releases_at now id) =
    with_tx_cases (LedgerStep s) (release_in_tx now id) s (stays refl)
      λ u t h. release_in_tx-LedgerStep now id s t h
