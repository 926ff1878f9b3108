-- ===== src/Common/Tests.antt =====
-- Boolean tests on numbers and texts, the conditional, and splits on a computed value.
use mathlib.Core.List.{List, [], ◌∷◌}
use Prim.Native.Nat.{ℕ, suc, compare, Ordering}
use Prim.Native.String.{String}
use mathlib.Core.Path.{◌≡◌, refl}
use mathlib.Core.Logic.{◌⊎◌, ◌≢◌, inl, inr}
use mathlib.Core.Bool.{Bool, true, false}
use mathlib.Core.Option.{Option, none, some}
use native.Mathlib.Omega.{arith}
use text.Mathlib.Text.{◌==◌ as str_eq}
use text.Mathlib.TextEquality.{eq_iff}

abbrev pub ltb : ℕ → ℕ → Bool
ltb a b = elim (compare a b) [ Ordering.lt ↦ true | _ ↦ false ]

abbrev pub leb : ℕ → ℕ → Bool
leb a b = elim (compare a b) [ Ordering.gt ↦ false | _ ↦ true ]

abbrev pub nat_eq : ℕ → ℕ → Bool
nat_eq a b = elim (compare a b) [ Ordering.eq ↦ true | _ ↦ false ]

infix 1 if◌then◌else◌
abbrev pub if◌then◌else◌ {ℓ} : {A : Type ℓ} → Bool → A → A → A
if true then x else y = x
if false then x else y = y

pub Bool-cases : (b : Bool) → (b ≡ true) ⊎ (b ≡ false)
Bool-cases true = inl refl
Bool-cases false = inr refl

pub Option-cases {ℓ} : {A : Type ℓ} (o : Option A) → (o ≡ none) ⊎ ((a : A) × (o ≡ some a))
Option-cases none = inl refl
Option-cases (some a) = inr (a, refl)

Bool-dec : (b : Bool) → Dec (b ≡ true)
Bool-dec true = yes refl
Bool-dec false = no (λ e. cc)

map_dec : {A B : Type 0} → (A → B) → (B → A) → Dec A → Dec B
map_dec f g (yes a) = yes (f a)
map_dec f g (no h) = no (λ b. h (g b))

-- Equality of texts as a decision, on which the tactics split with the proof in hand.
unfoldable pub string_dec : Discrete String
unfolding Bool-dec map_dec
string_dec s t = map_dec (eq_iff s t).0 (eq_iff s t).1 (Bool-dec (str_eq s t))

infix 50 ◌==◌
abbrev pub ◌==◌ : String → String → Bool
s == t = elim (string_dec s t) [ yes _ ↦ true | no _ ↦ false ]

-- Two texts that the test tells apart differ.
pub ne_of_test : (s t : String) → (s == t) ≡ false → s ≢ t
ne_of_test s t h = ground arith

module _ {ℓ} {A : Type ℓ} where
  abbrev pub length : List A → ℕ
  length [] = 0
  length (x ∷ xs) = suc (length xs)

pub if_cases {ℓ} :
    {A : Type ℓ} (b : Bool) {x y z : A}
    → (if b then x else y) ≡ z
    → ((b ≡ true) × (x ≡ z)) ⊎ ((b ≡ false) × (y ≡ z))
if_cases true e = inl (refl, e)
if_cases false e = inr (refl, e)
