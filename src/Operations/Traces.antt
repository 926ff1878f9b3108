-- ===== src/Operations/Traces.antt =====
-- Methods that open several transactions, as sequences of calls, with a rule for each way to build one.
use meeseek_collective.Common.{
  ℕ, Bool, true, false, ◌≡◌, refl, sym, ap, subst, ◌∙◌, inl, inr, List, [], ◌∷◌, ◌++◌, String,
  arith,
}
use meeseek_collective.Common.Result.{
  Error, Result, ok, err, Tx, with_tx, with_tx_cases, Result-cases,
}
use meeseek_collective.Common.Run.{
  Run, ◌>>=◌, ◌>>◌, return, fail, try, stop_if, read, commit, on_error,
}
use meeseek_collective.Domain.{TaskState}
use meeseek_collective.Execution.Lease.{guard_attempt}
use meeseek_collective.Execution.Guard.{guard_attempt-Holds}
use meeseek_collective.Operations.{
  Operation, ProviderOutcome, Database, settle_outcome, mark_unknown, cancel_prepared,
  guard_attempt_for_task,
}
use meeseek_collective.Operations.Calls.{Call, settles_as, marks_unknown, cancels, after, run}

run-append : (s : Database) (cs ds : List Call) → run s (cs ++ ds) ≡ run (run s cs) ds
unfolding run
run-append s [] ds = refl
run-append s (c ∷ cs) ds = run-append (after s c) cs ds

-- The second state is reached from the first by calls.
pub record Traces (s t : Database) : Type 0 where
  pub calls : List Call
  pub reached : t ≡ run s calls

pub Traces-refl : (s : Database) → Traces s s
unfolding run
Traces-refl s = record { calls = []; reached = refl }

pub Traces-trans : {s t u : Database} → Traces s t → Traces t u → Traces s u
Traces-trans {s} {t} {u} p q = record {
  calls = p.calls ++ q.calls;
  reached = q.reached ∙ ap (λ x. run x q.calls) p.reached ∙ sym (run-append s p.calls q.calls);
}

same-Traces : (s t : Database) → t ≡ s → Traces s t
same-Traces s t e = subst (Traces s) (sym e) (Traces-refl s)

call-Traces : (s : Database) (c : Call) → Traces s (after s c)
unfolding run
call-Traces s c = record { calls = c ∷ []; reached = refl }

-- The method writes by calls only, whether it fails or not.
pub record IsTraced {A : Type 0} (m : Run Database A) : Type 0 where
  pub from : (s : Database) → Traces s (m s).1

pub bind-IsTraced :
    {A B : Type 0} {m : Run Database A} {f : A → Run Database B}
    → IsTraced m
    → ((a : A) → IsTraced (f a))
    → IsTraced (m >>= f)
bind-IsTraced {A} {B} {m} {f} p q = record { from = λ s. go s (m s).0 }
  where
    go :
        (s : Database) (r : Result A)
        → Traces s
            (elim r as (λ _. Result B × Database) [
              | ok a ↦ f a (m s).1
              | err e ↦ (err e, (m s).1)
            ]).1
    go s (ok a) = Traces-trans (p.from s) ((q a).from (m s).1)
    go s (err e) = p.from s

pub then-IsTraced :
    {A B : Type 0} {m : Run Database A} {k : Run Database B}
    → IsTraced m
    → IsTraced k
    → IsTraced (m >> k)
then-IsTraced p q = bind-IsTraced p (λ _. q)

pub return-IsTraced : {A : Type 0} (a : A) → IsTraced (return a)
return-IsTraced a = record { from = Traces-refl }

pub fail-IsTraced : {A : Type 0} (e : Error) → IsTraced {A = A} (fail e)
fail-IsTraced e = record { from = Traces-refl }

pub try-IsTraced : {A : Type 0} (r : Result A) → IsTraced (try r)
try-IsTraced r = record { from = Traces-refl }

pub stop_if-IsTraced : (b : Bool) (e : Error) → IsTraced (stop_if b e)
stop_if-IsTraced true e = record { from = Traces-refl }
stop_if-IsTraced false e = record { from = Traces-refl }

pub read-IsTraced : {A : Type 0} (m : Tx Database A) → IsTraced (read m)
read-IsTraced m = record { from = λ s. same-Traces s (read m s).1 (ground (arith, m s)) }

pub on_error-IsTraced :
    {A : Type 0} (g : Error → Error) {m : Run Database A} → IsTraced m → IsTraced (on_error g m)
on_error-IsTraced {A} g {m} p = record { from = λ s. go s (m s).0 }
  where
    go :
        (s : Database) (r : Result A)
        → Traces s
            (elim r as (λ _. Result A × Database) [
              | ok a ↦ (ok a, (m s).1)
              | err e ↦ (err (g e), (m s).1)
            ]).1
    go s (ok a) = p.from s
    go s (err e) = p.from s

-- A transaction that is a call.
pub commit-IsTraced :
    {A : Type 0} (m : Tx Database A) (c : Call)
    → ((s : Database) → after s c ≡ (with_tx m s).1)
    → IsTraced (commit m)
commit-IsTraced m c e = record { from = λ s. subst (Traces s) (e s) (call-Traces s c) }

pub marks-IsTraced :
    (event : String) (now : ℕ) (id : String) → IsTraced (commit (mark_unknown event now id))
unfolding after
marks-IsTraced event now id = commit-IsTraced _ (marks_unknown event now id) (λ s. refl)

pub settles-IsTraced :
    (event : String) (now : ℕ) (id : String) (outcome : ProviderOutcome)
    → IsTraced (commit (settle_outcome event now id outcome))
unfolding after
settles-IsTraced event now id outcome =
    commit-IsTraced _ (settles_as event now id outcome) (λ s. refl)

pub cancels-IsTraced :
    (event : String) (now later : ℕ) (op : Operation) (attempt : String)
    → IsTraced (commit (cancel_prepared event now later op attempt))
unfolding after
cancels-IsTraced event now later op attempt =
    commit-IsTraced _ (cancels event now later op attempt) (λ s. refl)

pub ruleset traced_rules = (
  bind-IsTraced, then-IsTraced, return-IsTraced, fail-IsTraced, try-IsTraced, stop_if-IsTraced,
  read-IsTraced, on_error-IsTraced,
)

guard_stays :
    (now : ℕ) (attempt task : String) (s t : Database)
    → guard_attempt_for_task now attempt task s ≡ ok (tt, t)
    → t ≡ s
unfolding guard_attempt_for_task
guard_stays now attempt task s t h =
    elim (Result-cases (guard_attempt now attempt (TaskState.executing ∷ []) s.store)) [
      | inr (e, bad) ↦ absurd (ground (arith, bad, h))
      | inl (g, x, passed) ↦
          let (_, same, _) =
            guard_attempt-Holds now attempt (TaskState.executing ∷ []) s.store x g passed in
          ground (arith, passed, same, h)
    ]

pub guards-IsTraced :
    (now : ℕ) (attempt task : String) → IsTraced (commit (guard_attempt_for_task now attempt task))
guards-IsTraced now attempt task = record {
  from = λ s.
      with_tx_cases (Traces s) (guard_attempt_for_task now attempt task) s (Traces-refl s)
        λ u t h. same-Traces s t (guard_stays now attempt task s t h);
}
