-- ===== src/Operations/Moves.antt =====
-- internal/operations/service.go: the state machine of an operation, as it is written in the conditions of
-- the updates.
use meeseek_collective.Common.{
  ◌≡◌, refl, sym, subst, ◌∙◌, true, false, some, List, String, arith, string_dec,
}
use meeseek_collective.Common.Rows.{
  find, update, insert, KeepsKey, find-update_self, find-update_ne, find-insert_other,
}
use meeseek_collective.Domain.{OperationState}
use meeseek_collective.Operations.{
  Operation, operation_key, is_confirmed, is_in_flight, is_prepared,
}

-- One transition: the claim of a dispatch, a cancellation before it, and after it an outcome that stays
-- unknown or is confirmed.
pub data Move : OperationState → OperationState → Type 0 where
  claimed : Move OperationState.prepared OperationState.dispatched
  dropped : Move OperationState.prepared OperationState.cancelled
  left_open : {x : OperationState} → is_in_flight x ≡ true → Move x OperationState.outcome_unknown
  closed : {x y : OperationState} → is_in_flight x ≡ true → is_confirmed y ≡ true → Move x y

-- A row after any number of transitions; between them it does not change.
pub data Reaches (x : Operation) : Operation → Type 0 where
  here : Reaches x x
  onward : {y z : Operation} → Reaches x y → Move y.state z.state → Reaches x z

pub Reaches-trans : {x y z : Operation} → Reaches x y → Reaches y z → Reaches x z
Reaches-trans p here = p
Reaches-trans p (onward q m) = onward (Reaches-trans p q) m

-- Every row of the first table stands in the second, where its transitions have led it.
pub record Follows (os ts : List Operation) : Type 0 where
  pub row :
      (i : String) (x : Operation)
      → find i os ≡ some x
      → (y : Operation) × (find i ts ≡ some y) × Reaches x y

pub Follows-refl : (os : List Operation) → Follows os os
Follows-refl os = record { row = λ i x f. (x, f, here) }

pub Follows-trans : {os ts us : List Operation} → Follows os ts → Follows ts us → Follows os us
Follows-trans p q = record {
  row = λ i x f.
      let (y, g, r) = p.row i x f in let (z, h, r') = q.row i y g in (z, h, Reaches-trans r r');
}

pub same-Follows : (os ts : List Operation) → ts ≡ os → Follows os ts
same-Follows os ts e = subst (Follows os) (sym e) (Follows-refl os)

pub insert-Follows :
    (r : Operation) (os ts : List Operation) → insert r os ≡ some ts → Follows os ts
insert-Follows r os ts e = record { row = λ i x f. (x, find-insert_other i r os e f, here) }

pub update-Follows :
    (id : String) (o : Operation) (f : Operation → Operation) (os : List Operation)
    → find id os ≡ some o
    → KeepsKey f
    → Reaches o (f o)
    → Follows os (update id f os)
update-Follows id o f os fo keeps m = record {
  row = λ i x fx. elim (string_dec i id) [
    | no other ↦ (x, find-update_ne id i f os keeps other ∙ fx, here)
    | yes same ↦
        let own : find i os ≡ some o = subst (λ k. find k os ≡ some o) (sym same) fo in
        let e : x ≡ o = ground (arith, own, fx) in
        (
          f o,
          subst (λ k. find k (update id f os) ≡ some (f o)) (sym same)
              (find-update_self id f os keeps fo),
          subst (λ z. Reaches z (f o)) (sym e) m,
        )
  ];
}

pub Move-cong : {x x' y y' : OperationState} → x' ≡ x → y' ≡ y → Move x y → Move x' y'
Move-cong {x} {x'} {y} e e' m = subst (λ z. Move x' z) (sym e') (subst (λ z. Move z y) (sym e) m)

confirmed_ends : {x y : OperationState} → Move x y → is_confirmed x ≡ true → ⊥
confirmed_ends claimed h = ground (arith, h)
confirmed_ends dropped h = ground (arith, h)
confirmed_ends (left_open f) h = ground (arith, f, h)
confirmed_ends (closed f c) h = ground (arith, f, h)

-- A confirmed outcome is the end of the machine.
pub Reaches-confirmed : {x y : Operation} → Reaches x y → is_confirmed x.state ≡ true → y ≡ x
Reaches-confirmed here h = refl
Reaches-confirmed (onward p m) h = absurd (
    confirmed_ends m
      (subst (λ (w : Operation). is_confirmed w.state ≡ true) (sym (Reaches-confirmed p h)) h))

leaves_prepared : {x y : OperationState} → Move x y → is_prepared y ≡ false
leaves_prepared claimed = refl
leaves_prepared dropped = refl
leaves_prepared (left_open f) = refl
leaves_prepared (closed f c) = ground (arith, c)

-- No transition leads back to a prepared operation.
pub Reaches-unprepared :
    {x y : Operation} → Reaches x y → is_prepared x.state ≡ false → is_prepared y.state ≡ false
Reaches-unprepared here h = h
Reaches-unprepared (onward p m) h = leaves_prepared m
