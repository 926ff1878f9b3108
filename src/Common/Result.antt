-- ===== src/Common/Result.antt =====
-- Go's `error` results, and the bodies of `store.WithTx`: a body that fails leaves nothing behind.
use Prim.Native.String.{String}
use mathlib.Core.Path.{◌≡◌, refl}
use mathlib.Core.Logic.{◌⊎◌, inl, inr}
use mathlib.Core.Bool.{Bool, true, false}
use mathlib.Core.Option.{Option, none, some}

-- The sentinel errors of internal/domain/errors.go and of the packages, those of `database/sql` and
-- of a violated table constraint, and `errors.New` with its text. An error that wraps a sentinel by
-- `%w` is the sentinel; what `fmt.Errorf` prints into a text is left out.
pub data Error : Type 0 where
  stale_attempt lease_inactive policy_denied invalid_purpose intent_conflict : Error
  budget_exceeded outcome_unknown hard_cap_unavailable : Error
  no_rows constraint_failed integer_overflow : Error
  failure : String → Error

pub data Result (A : Type 0) : Type 0 where
  ok : A → Result A
  err : Error → Result A

-- The body of a transaction: it reads and writes the state, or fails.
abbrev pub Tx : Type 0 → Type 0 → Type 0
Tx S A = S → Result (A × S)

infixl 5 ◌>>=◌ ◌>>◌
abbrev pub ◌>>=◌ : {S A B : Type 0} → Tx S A → (A → Tx S B) → Tx S B
◌>>=◌ m f s = elim (m s) [ ok (a, s') ↦ f a s' | err e ↦ err e ]

abbrev pub ◌>>◌ : {S A B : Type 0} → Tx S A → Tx S B → Tx S B
m >> k = m >>= λ _. k

module _ {S : Type 0} where
  abbrev pub pure : {A : Type 0} → A → Tx S A
  pure a s = ok (a, s)

  abbrev pub raise : {A : Type 0} → Error → Tx S A
  raise e s = err e

  -- `if bad { return e }`
  abbrev pub reject_if : Bool → Error → Tx S (Unit {0})
  reject_if true e s = err e
  reject_if false e s = ok (tt, s)

  abbrev pub or_raise : {A : Type 0} → Option A → Error → Tx S A
  or_raise none e s = err e
  or_raise (some a) e s = ok (a, s)

  abbrev pub gets : {A : Type 0} → (S → A) → Tx S A
  gets f s = ok (f s, s)

  abbrev pub modify : (S → S) → Tx S (Unit {0})
  modify f s = ok (tt, f s)

  abbrev pub lift : {A : Type 0} → Result A → Tx S A
  lift (ok a) s = ok (a, s)
  lift (err e) s = err e

  -- `WithTx`: commit the state of a body that succeeds, roll back otherwise.
  abbrev pub with_tx : {A : Type 0} → Tx S A → S → Result A × S
  with_tx body s = elim (body s) [ ok (a, s') ↦ (ok a, s') | err e ↦ (err e, s) ]

  pub Result-cases :
      {A : Type 0} (r : Result (A × S))
      → ((a : A) × (s : S) × (r ≡ ok (a, s))) ⊎ ((e : Error) × (r ≡ err e))
  Result-cases (ok (a, s)) = inl (a, s, refl)
  Result-cases (err e) = inr (e, refl)

  -- What holds of the state before and of every state that the body commits holds after.
  pub with_tx_cases {ℓ} :
      {A : Type 0} (P : S → Type ℓ) (m : Tx S A) (s : S)
      → P s
      → ((a : A) (t : S) → m s ≡ ok (a, t) → P t)
      → P (with_tx m s).1
  with_tx_cases {A} P m s before commits = go (m s) refl
    where
      go :
          (r : Result (A × S))
          → m s ≡ r
          → P (elim r as (λ _. Result A × S) [ ok (a, s') ↦ (ok a, s') | err e ↦ (err e, s) ]).1
      go (ok (a, t)) e = commits a t e
      go (err x) e = before

  pub >>=-eq-ok :
      {A B : Type 0} (m : Tx S A) (f : A → Tx S B) (s : S) {b : B} {t : S}
      → (m >>= f) s ≡ ok (b, t)
      → (a : A) × (s' : S) × (m s ≡ ok (a, s')) × (f a s' ≡ ok (b, t))
  >>=-eq-ok {A} {B} m f s {b} {t} h = go (m s) refl h
    where
      go :
          (r : Result (A × S))
          → m s ≡ r
          → elim r as (λ _. Result (B × S)) [ ok (a, s') ↦ f a s' | err e ↦ err e ] ≡ ok (b, t)
          → (a : A) × (s' : S) × (m s ≡ ok (a, s')) × (f a s' ≡ ok (b, t))
      go (ok (a, s')) e k = (a, s', e, k)
      go (err e') e k = absurd (cc)

-- A body run on one part of a larger state.
abbrev pub zoom : {S T A : Type 0} → (S → T) → (T → S → S) → Tx T A → Tx S A
zoom get put m s = elim (m (get s)) [ ok (a, t) ↦ ok (a, put t s) | err e ↦ err e ]
