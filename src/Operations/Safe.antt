-- ===== src/Operations/Safe.antt =====
-- Actions and methods after which every operation is where transitions have led it, and every component is
-- as sound as it was, with a rule for each way to build one.
use meeseek_collective.Common.{◌≡◌, sym, subst, inl, inr, some, String, arith}
use meeseek_collective.Common.Rows.{find, update, KeepsKey, Unique, update-Unique}
use meeseek_collective.Common.Result.{ok, Tx, ◌>>=◌, ◌>>◌, with_tx, with_tx_cases, Result-cases}
use meeseek_collective.Operations.{
  Operation, Database, operation_key, load_operation, update_operation,
}
use meeseek_collective.Operations.Quiet.{Preserves, Preserves-refl, Preserves-trans, Quiet, IsQuiet}
use meeseek_collective.Operations.Moves.{
  Reaches, Follows, Follows-refl, Follows-trans, same-Follows, update-Follows,
}

pub record Safe (s t : Database) : Type 0 where
  pub rows : Follows s.operations t.operations
  pub unique : Unique s.operations → Unique t.operations
  pub kept : Preserves s t

pub Safe-refl : (s : Database) → Safe s s
Safe-refl s = record { rows = Follows-refl s.operations; unique = λ v. v; kept = Preserves-refl s }

pub Safe-trans : {s t u : Database} → Safe s t → Safe t u → Safe s u
Safe-trans p q = record {
  rows = Follows-trans p.rows q.rows;
  unique = λ v. q.unique (p.unique v);
  kept = Preserves-trans p.kept q.kept;
}

pub Quiet-Safe : {s t : Database} → Quiet s t → Safe s t
Quiet-Safe {s} {t} q = record {
  rows = same-Follows s.operations t.operations q.rows;
  unique = subst Unique (sym q.rows);
  kept = q.kept;
}

-- The action from one state, and from every one.
pub record SafeAt {A : Type 0} (s : Database) (m : Tx Database A) : Type 0 where
  pub runs : (t : Database) (a : A) → m s ≡ ok (a, t) → Safe s t

pub record IsSafe {A : Type 0} (m : Tx Database A) : Type 0 where
  pub from : (s : Database) → SafeAt s m

pub IsQuiet-IsSafe : {A : Type 0} {m : Tx Database A} → IsQuiet m → IsSafe m
IsQuiet-IsSafe q = record { from = λ s. record { runs = λ t a h. Quiet-Safe (q.runs s t a h) } }

pub bind-SafeAt :
    {A B : Type 0} (m : Tx Database A) {f : A → Tx Database B} (s : Database)
    → ((t : Database) (a : A) → m s ≡ ok (a, t) → Safe s t × SafeAt t (f a))
    → SafeAt s (m >>= f)
bind-SafeAt m {f} s p = record {
  runs = λ t b h. elim (Result-cases (m s)) [
    | inr (e, bad) ↦ absurd (ground (arith, bad, h))
    | inl (a, u, e) ↦
        let (first, rest) = p u a e in Safe-trans first (rest.runs t b (ground (arith, e, h)))
  ];
}

module _ {A B : Type 0} {m : Tx Database A} {f : A → Tx Database B} where
  pub bind-IsSafe : IsSafe m → ((a : A) → IsSafe (f a)) → IsSafe (m >>= f)
  bind-IsSafe p q = record {
    from = λ s. bind-SafeAt m s (λ t a h. ((p.from s).runs t a h, (q a).from t));
  }

  -- A quiet action leaves the rows for the next one to write.
  pub quiet-SafeAt :
      (s : Database)
      → IsQuiet m
      → ((t : Database) (a : A) → m s ≡ ok (a, t) → t.operations ≡ s.operations → SafeAt t (f a))
      → SafeAt s (m >>= f)
  quiet-SafeAt s q k =
      bind-SafeAt m s
        (λ t a h. let quiet = q.runs s t a h in (Quiet-Safe quiet, k t a h quiet.rows))

-- An operation that is loaded stands in the table.
pub load-IsSafe :
    {A : Type 0} {f : Operation → Tx Database A} (id : String)
    → ((s : Database) (o : Operation) → find id s.operations ≡ some o → SafeAt s (f o))
    → IsSafe (load_operation id >>= f)
load-IsSafe {f} id k = record {
  from = λ s. bind-SafeAt (load_operation id) s (λ t o h.
      let same : t ≡ s = ground (arith, h) in
      (subst (Safe s) (sym same) (Safe-refl s), k t o (ground (arith, h, same))));
}

pub update-SafeAt :
    (s : Database) (id : String) (o : Operation) (f : Operation → Operation)
    → find id s.operations ≡ some o
    → KeepsKey f
    → Reaches o (f o)
    → SafeAt s (update_operation id f)
update-SafeAt s id o f fo keeps m = record {
  runs = λ t a h.
      let e : t ≡ record s { operations = update id f s.operations } = ground (arith, h) in
      subst (Safe s) (sym e) (record {
        rows = update-Follows id o f s.operations fo keeps m;
        unique = update-Unique id f s.operations keeps;
        kept = record { ledger = λ v. v; store = λ v. v; registry = λ v. v };
      });
}

pub then-SafeAt :
    {A B : Type 0} {m : Tx Database A} {k : Tx Database B} (s : Database)
    → SafeAt s m
    → IsSafe k
    → SafeAt s (m >> k)
then-SafeAt {m} s p q = bind-SafeAt m s (λ t a h. (p.runs t a h, q.from t))

-- A transaction commits what its body has done, or nothing.
pub with_tx-Safe :
    {A : Type 0} (m : Tx Database A) (s : Database) → IsSafe m → Safe s (with_tx m s).1
with_tx-Safe m s p = with_tx_cases (Safe s) m s (Safe-refl s) (λ a t h. (p.from s).runs t a h)
