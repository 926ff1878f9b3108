-- ===== src/Operations/Quiet.antt =====
-- Actions of a transaction that leave the operations alone and every component's invariant standing, with
-- a rule for each way to build one.
use meeseek_collective.Common.{
  ◌≡◌, refl, sym, subst, ◌∙◌, inl, inr, Bool, true, false, Option, arith,
}
use meeseek_collective.Common.Result.{
  Error, Result, ok, Tx, ◌>>=◌, ◌>>◌, pure, reject_if, or_raise, gets, lift, Result-cases,
}
use meeseek_collective.Resources.{Ledger}
use meeseek_collective.Resources.Cover
use meeseek_collective.Execution.State.{Store}
use meeseek_collective.Execution.Exclusive.{IsSoundStore}
use meeseek_collective.Approvals.Requests.{Registry}
use meeseek_collective.Approvals.Unanimity
use meeseek_collective.Operations.{Database, on_ledger, on_store, on_registry}
use meeseek_collective.Operations.Gate.{wrap_error}

-- Each of the three components is sound after, if it was before.
pub record Preserves (s t : Database) : Type 0 where
  pub ledger : Cover.IsCovered s.ledger → Cover.IsCovered t.ledger
  pub store : IsSoundStore s.store → IsSoundStore t.store
  pub registry : Unanimity.IsSound s.registry → Unanimity.IsSound t.registry

pub record Quiet (s t : Database) : Type 0 where
  pub rows : t.operations ≡ s.operations
  pub kept : Preserves s t

pub record IsQuiet {A : Type 0} (m : Tx Database A) : Type 0 where
  pub runs : (s t : Database) (a : A) → m s ≡ ok (a, t) → Quiet s t

pub Preserves-refl : (s : Database) → Preserves s s
Preserves-refl s = record { ledger = λ v. v; store = λ v. v; registry = λ v. v }

pub Preserves-trans : {s t u : Database} → Preserves s t → Preserves t u → Preserves s u
Preserves-trans p q = record {
  ledger = λ v. q.ledger (p.ledger v);
  store = λ v. q.store (p.store v);
  registry = λ v. q.registry (p.registry v);
}

pub Quiet-refl : (s : Database) → Quiet s s
Quiet-refl s = record { rows = refl; kept = Preserves-refl s }

pub Quiet-trans : {s t u : Database} → Quiet s t → Quiet t u → Quiet s u
Quiet-trans p q = record { rows = q.rows ∙ p.rows; kept = Preserves-trans p.kept q.kept }

same-Quiet : (s t : Database) → t ≡ s → Quiet s t
same-Quiet s t e = subst (Quiet s) (sym e) (Quiet-refl s)

pub bind-IsQuiet :
    {A B : Type 0} {m : Tx Database A} {f : A → Tx Database B}
    → IsQuiet m
    → ((a : A) → IsQuiet (f a))
    → IsQuiet (m >>= f)
bind-IsQuiet {A} {B} {m} {f} p q = record {
  runs = λ s t b h. elim (Result-cases (m s)) [
    | inl (a, u, e) ↦ Quiet-trans (p.runs s u a e) ((q a).runs u t b (ground (arith, e, h)))
    | inr (e, bad) ↦ absurd (ground (arith, bad, h))
  ];
}

pub then-IsQuiet :
    {A B : Type 0} {m : Tx Database A} {k : Tx Database B}
    → IsQuiet m
    → IsQuiet k
    → IsQuiet (m >> k)
then-IsQuiet p q = bind-IsQuiet p (λ _. q)

-- An action that writes nothing.
pub reads-IsQuiet :
    {A : Type 0} {m : Tx Database A}
    → ((s t : Database) (a : A) → m s ≡ ok (a, t) → t ≡ s)
    → IsQuiet m
reads-IsQuiet f = record { runs = λ s t a h. same-Quiet s t (f s t a h) }

pub reject_if-IsQuiet : (b : Bool) (e : Error) → IsQuiet (reject_if b e)
reject_if-IsQuiet b e = reads-IsQuiet (λ s t a h. ground arith)

pub or_raise-IsQuiet : {A : Type 0} (o : Option A) (e : Error) → IsQuiet (or_raise o e)
or_raise-IsQuiet o e = reads-IsQuiet (λ s t a h. ground arith)

pub gets-IsQuiet : {A : Type 0} (f : Database → A) → IsQuiet (gets f)
gets-IsQuiet f = reads-IsQuiet (λ s t a h. ground arith)

pub pure-IsQuiet : {A : Type 0} (a : A) → IsQuiet (pure a)
pure-IsQuiet a = reads-IsQuiet (λ s t x h. ground arith)

pub lift-IsQuiet : {A : Type 0} (r : Result A) → IsQuiet (lift r)
lift-IsQuiet r = reads-IsQuiet (λ s t x h. ground arith)

pub on_ledger-IsQuiet :
    {A : Type 0} {m : Tx Ledger A}
    → ((l l' : Ledger) (a : A) → m l ≡ ok (a, l') → Cover.IsCovered l → Cover.IsCovered l')
    → IsQuiet (on_ledger m)
on_ledger-IsQuiet {A} {m} f = record {
  runs = λ s t a h. elim (Result-cases (m s.ledger)) [
    | inr (e, bad) ↦ absurd (ground (arith, bad, h))
    | inl (x, l, good) ↦
        let e : t ≡ record s { ledger = l } = ground (arith, good, h) in
        subst (Quiet s) (sym e) (record {
          rows = refl;
          kept = record { ledger = f s.ledger l x good; store = λ v. v; registry = λ v. v };
        })
  ];
}

pub on_store-IsQuiet :
    {A : Type 0} {m : Tx Store A}
    → ((l l' : Store) (a : A) → m l ≡ ok (a, l') → IsSoundStore l → IsSoundStore l')
    → IsQuiet (on_store m)
on_store-IsQuiet {A} {m} f = record {
  runs = λ s t a h. elim (Result-cases (m s.store)) [
    | inr (e, bad) ↦ absurd (ground (arith, bad, h))
    | inl (x, l, good) ↦
        let e : t ≡ record s { store = l } = ground (arith, good, h) in
        subst (Quiet s) (sym e) (record {
          rows = refl;
          kept = record { ledger = λ v. v; store = f s.store l x good; registry = λ v. v };
        })
  ];
}

pub on_registry-IsQuiet :
    {A : Type 0} {m : Tx Registry A}
    → ((l l' : Registry) (a : A) → m l ≡ ok (a, l') → Unanimity.IsSound l → Unanimity.IsSound l')
    → IsQuiet (on_registry m)
on_registry-IsQuiet {A} {m} f = record {
  runs = λ s t a h. elim (Result-cases (m s.registry)) [
    | inr (e, bad) ↦ absurd (ground (arith, bad, h))
    | inl (x, l, good) ↦
        let e : t ≡ record s { registry = l } = ground (arith, good, h) in
        subst (Quiet s) (sym e) (record {
          rows = refl;
          kept = record { ledger = λ v. v; store = λ v. v; registry = f s.registry l x good };
        })
  ];
}

pub wrap_error-IsQuiet :
    {A : Type 0} (e : Error) {m : Tx Database A} → IsQuiet m → IsQuiet (wrap_error e m)
wrap_error-IsQuiet e {m} p = record { runs = λ s t a h. p.runs s t a (ground (arith, h)) }

pub case-IsQuiet :
    {A : Type 0} (b : Bool) {m k : Tx Database A}
    → IsQuiet m
    → IsQuiet k
    → IsQuiet (elim b as (λ _. Tx Database A) [ true ↦ m | false ↦ k ])
case-IsQuiet true p q = p
case-IsQuiet false p q = q

pub ruleset quiet_rules = (
  bind-IsQuiet, then-IsQuiet, case-IsQuiet, reject_if-IsQuiet, or_raise-IsQuiet, gets-IsQuiet,
  pure-IsQuiet, lift-IsQuiet, wrap_error-IsQuiet,
)
