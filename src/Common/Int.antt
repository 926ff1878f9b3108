-- ===== src/Common/Int.antt =====
-- Signed integers over the native numbers, and Go's `int64`: its range and its wrap-around.
use meeseek_collective.Common.Tests.{ltb, leb, if◌then◌else◌}
use Prim.Native.Nat.{ℕ, suc, ◌+◌, ◌-◌, ◌^◌, ◌%◌, ◌≤◌, ◌<◌}
use mathlib.Core.Path.{◌≡◌}
use mathlib.Core.Bool.{Bool}
use native.Mathlib.Omega.{arith}

-- `negsuc n` is -(n + 1).
pub data ℤ : Type 0 where
  pos : ℕ → ℤ
  negsuc : ℕ → ℤ

abbrev pub pos_part : ℤ → ℕ
pos_part (pos n) = n
pos_part (negsuc n) = 0

abbrev pub neg_part : ℤ → ℕ
neg_part (pos n) = 0
neg_part (negsuc n) = suc n

-- a - b, as an integer.
abbrev pub sub_ℕ : ℕ → ℕ → ℤ
sub_ℕ a b = if leb b a then pos (a - b) else negsuc (b - a - 1)

infixl 65 ◌-ℤ◌
infix 50 ◌≤ℤ◌
abbrev pub ◌≤ℤ◌ : ℤ → ℤ → Type 0
a ≤ℤ b = pos_part a + neg_part b ≤ pos_part b + neg_part a

unfoldable pub ◌-ℤ◌ : ℤ → ℤ → ℤ
a -ℤ b = sub_ℕ (pos_part a + neg_part b) (neg_part a + pos_part b)

abbrev pub ltb_ℤ : ℤ → ℤ → Bool
ltb_ℤ a b = ltb (pos_part a + neg_part b) (pos_part b + neg_part a)

abbrev pub leb_ℤ : ℤ → ℤ → Bool
leb_ℤ a b = leb (pos_part a + neg_part b) (pos_part b + neg_part a)

-- The range of `int64`.
abbrev pub Fits64 : ℤ → Type 0
Fits64 z = (pos_part z < 2 ^ 63) × (neg_part z ≤ 2 ^ 63)

-- The 64-bit pattern of an integer, and the `int64` that a pattern stands for.
to_bits : ℤ → ℕ
to_bits (pos n) = n % 2 ^ 64
to_bits (negsuc n) = 2 ^ 64 - 1 - n % 2 ^ 64

of_bits : ℕ → ℤ
of_bits x = if ltb x (2 ^ 63) then pos x else negsuc (2 ^ 64 - 1 - x)

unfoldable pub wrap64 : ℤ → ℤ
unfolding to_bits of_bits
wrap64 z = of_bits (to_bits z)

pub wrap64_fits : (z : ℤ) → Fits64 z → wrap64 z ≡ z
unfolding wrap64
wrap64_fits (pos n) h = ground arith
wrap64_fits (negsuc n) h = ground arith

pub -ℤ_parts :
    (a b : ℤ)
    → pos_part (a -ℤ b) + neg_part a + pos_part b ≡ neg_part (a -ℤ b) + pos_part a + neg_part b
unfolding ◌-ℤ◌
-ℤ_parts a b = ground arith

-- An integer has one part at most.
pub parts_zero : (a : ℤ) → 0 < pos_part a → neg_part a ≡ 0
parts_zero (pos n) h = omega arith
parts_zero (negsuc n) h = omega arith

-- The difference of two numbers fits if it does not fall below the range.
pub sub_fits : (a b : ℕ) → a < 2 ^ 63 → b ≤ a + 2 ^ 63 → Fits64 (pos a -ℤ pos b)
unfolding ◌-ℤ◌
sub_fits a b h k = ground arith

pub sub_pos : (a b c : ℕ) → pos a -ℤ pos b -ℤ pos c ≡ pos a -ℤ pos (b + c)
unfolding ◌-ℤ◌
sub_pos a b c = ground arith
