-- ===== src/Common/Rows.antt =====
-- Tables as lists of rows under a primary key: `SELECT`, `UPDATE … WHERE key = ?`, `INSERT` and
-- `SUM`, with their laws.
use Prim.Native.Nat.{ℕ, suc, ◌+◌}
use Prim.Native.String.{String}
use mathlib.Core.Path.{◌≡◌, refl, sym, subst, ◌∙◌}
use mathlib.Core.Bool.{Bool, true, ◌&&◌}
use mathlib.Core.Logic.{◌≢◌, ◌⊎◌, inl, inr}
use mathlib.Core.Option.{Option, none, some}
use mathlib.Core.List.{List, [], ◌∷◌}
use native.Mathlib.Omega.{arith}
use meeseek_collective.Common.Tests.{◌==◌, if◌then◌else◌, string_dec, Option-cases}

pub record Keyed (A : Type 0) : Type 0 where
  pub key : A → String

abbrev pub key : {A : Type 0} ⦃k : Keyed A⦄ → A → String
key ⦃k⦄ = k.key

module _ {A : Type 0} where
  -- `SUM` of a column.
  unfoldable pub sum : (A → ℕ) → List A → ℕ
  sum w [] = 0
  sum w (r ∷ rs) = w r + sum w rs

  -- `SELECT count(*) … WHERE`
  unfoldable pub count : (A → Bool) → List A → ℕ
  count p [] = 0
  count p (r ∷ rs) = if p r then suc (count p rs) else count p rs

module _ {A : Type 0} ⦃k : Keyed A⦄ where
  unfoldable pub find : String → List A → Option A
  find i [] = none
  find i (r ∷ rs) = if key r == i then some r else find i rs

  unfoldable pub update : String → (A → A) → List A → List A
  update i f [] = []
  update i f (r ∷ rs) = (if key r == i then f r else r) ∷ update i f rs

  -- `INSERT`, which a primary key in use makes fail.
  unfoldable pub insert : A → List A → Option (List A)
  unfolding find
  insert r rs = elim (find (key r) rs) [ none ↦ some (r ∷ rs) | some _ ↦ none ]

  -- The primary key is one.
  abbrev pub Unique : List A → Type 0
  Unique [] = Unit {0}
  Unique (r ∷ rs) = (find (key r) rs ≡ none) × Unique rs

  -- A write that leaves the primary key alone.
  abbrev pub KeepsKey : (A → A) → Type 0
  KeepsKey f = (r : A) → key (f r) ≡ key r

  pub find-key : (i : String) (rs : List A) {r : A} → find i rs ≡ some r → key r ≡ i
  unfolding find
  find-key i [] h = absurd (cc)
  find-key i (x ∷ rs) {r} h = ground (arith, find-key i rs {r = r})

  pub find-update_self :
      (i : String) (f : A → A) (rs : List A) {r : A}
      → KeepsKey f
      → find i rs ≡ some r
      → find i (update i f rs) ≡ some (f r)
  unfolding find update
  find-update_self i f [] h e = absurd (cc)
  find-update_self i f (x ∷ rs) {r} h e = ground (arith, h x, find-update_self i f rs {r = r} h)

  pub find-update_ne :
      (i j : String) (f : A → A) (rs : List A)
      → KeepsKey f
      → j ≢ i
      → find j (update i f rs) ≡ find j rs
  unfolding find update
  find-update_ne i j f [] h n = refl
  find-update_ne i j f (x ∷ rs) h n = ground (arith, h x, find-update_ne i j f rs h n)

  pub find-update-none :
      (i j : String) (f : A → A) (rs : List A)
      → KeepsKey f
      → find j rs ≡ none
      → find j (update i f rs) ≡ none
  unfolding find update
  find-update-none i j f [] h n = refl
  find-update-none i j f (x ∷ rs) h n = ground (arith, h x, find-update-none i j f rs h)

  pub find_missing :
      (i j : String) (f : A → A) (rs : List A)
      → KeepsKey f
      → find j (update i f rs) ≡ none
      → find j rs ≡ none
  unfolding find update
  find_missing i j f [] h n = refl
  find_missing i j f (x ∷ rs) h n = ground (arith, h x, find_missing i j f rs h)

  pub update_missing :
      (i : String) (f : A → A) (rs : List A) → find i rs ≡ none → update i f rs ≡ rs
  unfolding find update
  update_missing i f [] h = refl
  update_missing i f (x ∷ rs) h = ground (arith, update_missing i f rs)

  pub update-Unique :
      (i : String) (f : A → A) (rs : List A) → KeepsKey f → Unique rs → Unique (update i f rs)
  unfolding update
  update-Unique i f [] h u = tt
  update-Unique i f (x ∷ rs) h u =
      ground (arith, h x, find-update-none i (key x) f rs h u.0, update-Unique i f rs h u.1)

  pub insert-Unique :
      (r : A) (rs : List A) {ts : List A} → insert r rs ≡ some ts → Unique rs → Unique ts
  unfolding insert
  insert-Unique r rs {ts} e u = ground arith

  -- An update of one row moves a sum by that row's change.
  pub sum-update :
      (w : A → ℕ) (i : String) (f : A → A) (rs : List A) {r : A}
      → Unique rs
      → find i rs ≡ some r
      → sum w (update i f rs) + w r ≡ sum w rs + w (f r)
  unfolding sum find update
  sum-update w i f [] u e = absurd (cc)
  sum-update w i f (x ∷ rs) {r} u e =
      ground (arith, sum-update w i f rs {r = r} u.1, update_missing i f rs)

  pub sum-insert :
      (w : A → ℕ) (r : A) (rs : List A) {ts : List A}
      → insert r rs ≡ some ts
      → sum w ts ≡ w r + sum w rs
  unfolding sum insert
  sum-insert w r rs {ts} e = ground arith

  pub find-insert_other :
      (j : String) (r : A) (rs : List A) {ts : List A} {x : A}
      → insert r rs ≡ some ts
      → find j rs ≡ some x
      → find j ts ≡ some x
  unfolding insert find
  find-insert_other j r rs {ts} {x} e h = ground arith

  pub find-insert_self :
      (r : A) (rs : List A) {ts : List A} → insert r rs ≡ some ts → find (key r) ts ≡ some r
  unfolding insert find
  find-insert_self r rs {ts} e = ground arith

  -- The rows that an `UPDATE … WHERE key = ? AND …` changes, and the count of them.
  unfoldable pub changed : String → (A → Bool) → List A → ℕ
  changed i p rs = count (λ r. key r == i && p r) rs

  -- The row found after an update is the row found before it, written if the update was its own.
  pub find-update_cases :
      (i j : String) (f : A → A) (rs : List A) {r : A}
      → KeepsKey f
      → find j (update i f rs) ≡ some r
      → ((j ≢ i) × (find j rs ≡ some r)) ⊎ ((x : A) × (j ≡ i) × (find j rs ≡ some x) × (r ≡ f x))
  find-update_cases i j f rs {r} keeps h = elim (string_dec j i) [
    | no other ↦ inl (other, sym (find-update_ne i j f rs keeps other) ∙ h)
    | yes same ↦ elim (Option-cases (find j rs)) [
      | inl e ↦ absurd (clash (sym (find-update-none i j f rs keeps e) ∙ h))
      | inr (x, e) ↦
          let own = subst (λ k. find k rs ≡ some x) same e in
          inr (
            x,
            same,
            e,
            some-injective_lem (
                sym h
                ∙ subst (λ k. find k (update i f rs) ≡ some (f x)) (sym same)
                    (find-update_self i f rs keeps own)),
          )
    ]
  ]
    where
      clash : ◌≡◌ {A = Option A} none (some r) → ⊥
      clash e = cc

      some-injective_lem : {x y : A} → some x ≡ some y → x ≡ y
      some-injective_lem e = cc

  pub find-insert_cases :
      (r : A) (rs : List A) {ts : List A} (j : String) {x : A}
      → insert r rs ≡ some ts
      → find j ts ≡ some x
      → ((key r ≡ j) × (x ≡ r)) ⊎ (find j rs ≡ some x)
  unfolding insert find
  find-insert_cases r rs {ts} j {x} e h = ground arith

  pub find_uninserted :
      (r : A) (rs : List A) {ts : List A} (j : String)
      → insert r rs ≡ some ts
      → find j ts ≡ none
      → find j rs ≡ none
  unfolding find insert
  find_uninserted r rs {ts} j e h = ground arith

  pub insert_fresh :
      (r : A) (rs : List A) {ts : List A} → insert r rs ≡ some ts → find (key r) rs ≡ none
  unfolding insert
  insert_fresh r rs {ts} e = ground arith

  pub changed_missing :
      (i : String) (p : A → Bool) (rs : List A) → find i rs ≡ none → changed i p rs ≡ 0
  unfolding find changed count
  changed_missing i p [] h = refl
  changed_missing i p (x ∷ rs) h = ground (arith, changed_missing i p rs)

  -- An `UPDATE` that changes one row has changed the row of its key.
  pub changed_one :
      (i : String) (p : A → Bool) (rs : List A) {r : A}
      → Unique rs
      → find i rs ≡ some r
      → changed i p rs ≡ 1
      → p r ≡ true
  unfolding find changed count
  changed_one i p [] u e h = absurd (cc)
  changed_one i p (x ∷ rs) {r} u e h =
      ground (arith, changed_one i p rs {r = r} u.1, changed_missing i p rs)
