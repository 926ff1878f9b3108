-- ===== src/Common/Text.antt =====
-- `strings.TrimSpace` of Go's standard library, over the characters of a text.
use Prim.Native.Char.{Char, code}
use meeseek_collective.Common.Tests.{nat_eq, leb, if◌then◌else◌, ◌==◌, string_dec}
use Prim.Native.Nat.{ℕ}
use Prim.Native.String.{String}
use mathlib.Core.Path.{◌≡◌, refl}
use mathlib.Core.Bool.{Bool, true, ◌&&◌, ◌||◌}

-- `unicode.IsSpace`: the Latin-1 cases, then the rest of the property White_Space.
is_space : ℕ → Bool
is_space c =
    (leb 9 c && leb c 13)
    || nat_eq c 32
    || nat_eq c 0x85
    || nat_eq c 0xa0
    || nat_eq c 0x1680
    || (leb 0x2000 c && leb c 0x200a)
    || nat_eq c 0x2028
    || nat_eq c 0x2029
    || nat_eq c 0x202f
    || nat_eq c 0x205f
    || nat_eq c 0x3000

trim_left : String → String
trim_left String.[] = String.[]
trim_left (String.◌∷◌ c s) = if is_space (code c) then trim_left s else String.◌∷◌ c s

-- A space is dropped when only spaces follow it.
keep_char : Char → String → String
keep_char c String.[] = if is_space (code c) then String.[] else String.◌∷◌ c String.[]
keep_char c (String.◌∷◌ d s) = String.◌∷◌ c (String.◌∷◌ d s)

trim_right : String → String
unfolding keep_char
trim_right String.[] = String.[]
trim_right (String.◌∷◌ c s) = keep_char c (trim_right s)

unfoldable pub trim_space : String → String
unfolding is_space trim_left trim_right
trim_space s = trim_right (trim_left s)

trim_example : trim_space "  a b \n" ≡ "a b"
unfolding trim_space
trim_example = refl

eq_example : ("ab" == "ab") ≡ true
unfolding string_dec
eq_example = refl
