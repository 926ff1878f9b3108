-- ===== src/Common/Sets.antt =====
-- Sets of texts as the services keep them: trimmed, without blanks, sorted and without duplicates.
use Prim.Native.Nat.{Ordering}
use Prim.Native.String.compare
use Prim.Native.String.{String, compare}
use mathlib.Core.Path.{◌≡◌, refl, ap}
use mathlib.Core.Bool.{Bool, true, false}
use mathlib.Core.List.{List, [], ◌∷◌, map}
use native.Mathlib.Omega.{arith}
use text.Mathlib.TextEquality.{path_by_compare}
use text.Mathlib.TextPositions.{compare_refl}
use meeseek_collective.Common.Tests.{◌==◌, if◌then◌else◌}
use meeseek_collective.Common.Text.{trim_space}

-- A lookup in the set that a loop over a list builds.
unfoldable pub has_string : List String → String → Bool
has_string [] x = false
has_string (y ∷ ys) x = if y == x then true else has_string ys x

-- Insertion into a sorted list without duplicates; texts are compared by their bytes.
unfoldable pub insert_sorted : String → List String → List String
insert_sorted x [] = x ∷ []
insert_sorted x (y ∷ ys) = elim (compare x y) [
  | Ordering.lt ↦ x ∷ y ∷ ys
  | Ordering.eq ↦ y ∷ ys
  | Ordering.gt ↦ y ∷ insert_sorted x ys
]

-- Go collects the values in a map, whose order of iteration is not defined, and sorts its keys.
unfoldable pub normalize : List String → List String
unfolding insert_sorted
normalize [] = []
normalize (v ∷ vs) =
    let rest = normalize vs in
    if trim_space v == "" then rest else insert_sorted (trim_space v) rest

-- No text stands in the list twice.
abbrev pub Distinct : List String → Type 0
Distinct [] = Unit {0}
Distinct (x ∷ xs) = (has_string xs x ≡ false) × Distinct xs

pub has_string-insert_sorted :
    (x y : String) (ys : List String)
    → has_string (insert_sorted x ys) y ≡ (if x == y then true else has_string ys y)
unfolding has_string insert_sorted
has_string-insert_sorted x y [] = refl
has_string-insert_sorted x y (z ∷ ys) =
    ground (arith, has_string-insert_sorted x y ys, path_by_compare x z)

compare_trans :
    (s t u : String)
    → compare s t ≡ Ordering.lt
    → compare t u ≡ Ordering.lt
    → compare s u ≡ Ordering.lt
compare_trans String.[] String.[] u h k = absurd (ground (arith, h, compare.nil-nil))
compare_trans String.[] (String.◌∷◌ d t) String.[] h k =
    absurd (ground (arith, k, compare.cons-nil d t))
compare_trans String.[] (String.◌∷◌ d t) (String.◌∷◌ e u) h k = compare.nil-cons e u
compare_trans (String.◌∷◌ c s) String.[] u h k = absurd (ground (arith, h, compare.cons-nil c s))
compare_trans (String.◌∷◌ c s) (String.◌∷◌ d t) String.[] h k =
    absurd (ground (arith, k, compare.cons-nil d t))
compare_trans (String.◌∷◌ c s) (String.◌∷◌ d t) (String.◌∷◌ e u) h k = ground (
  arith,
  h,
  k,
  compare.cons-cons c d s t,
  compare.cons-cons d e t u,
  compare.cons-cons c e s u,
  compare_trans s t u,
)

compare_flip : (s t : String) → compare s t ≡ Ordering.gt → compare t s ≡ Ordering.lt
compare_flip String.[] String.[] h = absurd (ground (arith, h, compare.nil-nil))
compare_flip String.[] (String.◌∷◌ d t) h = absurd (ground (arith, h, compare.nil-cons d t))
compare_flip (String.◌∷◌ c s) String.[] h = compare.nil-cons c s
compare_flip (String.◌∷◌ c s) (String.◌∷◌ d t) h =
    ground (arith, h, compare.cons-cons c d s t, compare.cons-cons d c t s, compare_flip s t)

-- Below every text of a list, and a list where each text is below all that follow.
abbrev pub Below : String → List String → Type 0
Below x [] = Unit {0}
Below x (y ∷ ys) = (compare x y ≡ Ordering.lt) × Below x ys

abbrev pub IsSorted : List String → Type 0
IsSorted [] = Unit {0}
IsSorted (x ∷ xs) = Below x xs × IsSorted xs

Below-trans :
    (x y : String) (ys : List String) → compare x y ≡ Ordering.lt → Below y ys → Below x ys
Below-trans x y [] h b = tt
Below-trans x y (z ∷ ys) h b = (compare_trans x y z h b.0, Below-trans x y ys h b.1)

Below-insert_sorted :
    (z x : String) (ys : List String)
    → compare z x ≡ Ordering.lt
    → Below z ys
    → Below z (insert_sorted x ys)
unfolding insert_sorted
Below-insert_sorted z x [] h b = (h, tt)
Below-insert_sorted z x (y ∷ ys) h b = ground (arith, h, b, Below-insert_sorted z x ys h)

insert_sorted-IsSorted :
    (x : String) (ys : List String) → IsSorted ys → IsSorted (insert_sorted x ys)
unfolding insert_sorted
insert_sorted-IsSorted x [] s = (tt, tt)
insert_sorted-IsSorted x (y ∷ ys) s = ground (
  arith,
  s,
  Below-trans x y ys,
  compare_flip x y,
  Below-insert_sorted y x ys,
  insert_sorted-IsSorted x ys s.1,
)

pub normalize-IsSorted : (vs : List String) → IsSorted (normalize vs)
unfolding normalize
normalize-IsSorted [] = tt
normalize-IsSorted (v ∷ vs) =
    ground (arith, normalize-IsSorted vs, insert_sorted-IsSorted (trim_space v) (normalize vs))

Below-has_string : (x : String) (xs : List String) → Below x xs → has_string xs x ≡ false
unfolding has_string
Below-has_string x [] b = refl
Below-has_string x (y ∷ xs) b =
    ground (arith, b, Below-has_string x xs b.1, ap (compare x) {x = y} {y = x}, compare_refl x)

pub IsSorted-Distinct : (xs : List String) → IsSorted xs → Distinct xs
IsSorted-Distinct [] s = tt
IsSorted-Distinct (x ∷ xs) s = (Below-has_string x xs s.0, IsSorted-Distinct xs s.1)

-- What a normalized set holds: the trimmed forms, other than the empty text, of what it was given.
pub has_string-normalize :
    (vs : List String) (x : String)
    → has_string (normalize vs) x ≡ (if x == "" then false else has_string (map trim_space vs) x)
unfolding normalize has_string
has_string-normalize [] x = ground arith
has_string-normalize (v ∷ vs) x =
    ground
      (arith, has_string-normalize vs x, has_string-insert_sorted (trim_space v) x (normalize vs))
