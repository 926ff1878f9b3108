-- ===== src/Common/Run.antt =====
-- A method that opens several transactions: what an earlier one has committed stays when a later step
-- fails.
use mathlib.Core.Bool.{Bool, true, false}
use meeseek_collective.Common.Result.{Error, Result, ok, err, Tx, with_tx}

abbrev pub Run : Type 0 → Type 0 → Type 0
Run S A = S → Result A × S

infixl 5 ◌>>=◌ ◌>>◌
abbrev pub ◌>>=◌ : {S A B : Type 0} → Run S A → (A → Run S B) → Run S B
◌>>=◌ m f s = elim (m s).0 [ ok a ↦ f a (m s).1 | err e ↦ (err e, (m s).1) ]

abbrev pub ◌>>◌ : {S A B : Type 0} → Run S A → Run S B → Run S B
m >> k = m >>= λ _. k

module _ {S : Type 0} where
  abbrev pub return : {A : Type 0} → A → Run S A
  return a s = (ok a, s)

  abbrev pub fail : {A : Type 0} → Error → Run S A
  fail e s = (err e, s)

  abbrev pub try : {A : Type 0} → Result A → Run S A
  try r s = (r, s)

  abbrev pub stop_if : Bool → Error → Run S (Unit {0})
  stop_if true e s = (err e, s)
  stop_if false e s = (ok tt, s)

  -- A query outside any transaction.
  abbrev pub read : {A : Type 0} → Tx S A → Run S A
  read m s = elim (m s) [ ok (a, _) ↦ (ok a, s) | err e ↦ (err e, s) ]

  abbrev pub commit : {A : Type 0} → Tx S A → Run S A
  commit = with_tx

  abbrev pub on_error : {A : Type 0} → (Error → Error) → Run S A → Run S A
  on_error f m s = elim (m s).0 [ ok a ↦ (ok a, (m s).1) | err e ↦ (err (f e), (m s).1) ]
