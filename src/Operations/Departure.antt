-- ===== src/Operations/Departure.antt =====
-- internal/operations/service.go: the one way out of PREPARED in the method Dispatch, whatever the policy
-- engine, the providers and the clock answer.
use meeseek_collective.Common.{
  ◌≡◌, ◌≢◌, refl, sym, ap, subst, ◌∙◌, ◌⊎◌, inl, inr, Bool, true, false, ◌||◌, not, some, [],
  String, ◌==◌, arith, Option-cases, Bool-cases,
}
use mathlib.Core.Option.{some-injective}
use meeseek_collective.Common.Rows.{find, find-key}
use meeseek_collective.Common.Result.{Error, Result, ok, err, Result-cases}
use meeseek_collective.Domain.{OperationState, PolicyOutcome}
use meeseek_collective.Execution.State.{task_key, attempt_key}
use meeseek_collective.Operations.{Operation, Database, operation_key, cancel_prepared}
use meeseek_collective.Operations.Policy.{
  Provider, Providers, PolicyDecision, Outside, DispatchRequest, TaskControl, PolicyContext,
  load_task_control_tx, validate_decision_provenance, validate_dispatch_outcome, has_authority,
  control_for_attempt, evaluate_policy, provider_for,
}
use meeseek_collective.Operations.Claim.{commit_dispatch}
use meeseek_collective.Operations.Dispatch.{
  DispatchDraws, descriptor_type_of, is_failed, refuse_dispatch, send, dispatch_unless,
  dispatch_prepared, dispatch_by, dispatch,
}
use meeseek_collective.Operations.Cancelled.{too_late, ended, cancel_prepared-Cancelled}

answer_cases : {A : Type 0} (r : Result A) → ((a : A) × (r ≡ ok a)) ⊎ ((e : Error) × (r ≡ err e))
answer_cases (ok a) = inl (a, refl)
answer_cases (err e) = inr (e, refl)

-- The database as it was, or with the operation cancelled.
abbrev Unsent : String → Database → Database → Type 0
Unsent id s t =
    (t ≡ s)
    ⊎ ((y : Operation) × (find id t.operations ≡ some y) × (y.state ≡ OperationState.cancelled))

-- What a dispatch has found before its transaction, and that the transaction has committed.
pub record Departed (o : Outside) (providers : Providers) (w : DispatchDraws) (x : Operation)
    (attempt : String) (s : Database) : Type 0 where
  pub provider : Provider
  pub registered : provider_for providers x.provider ≡ ok provider
  pub control : TaskControl
  pub controlled : control_for_attempt attempt s ≡ ok (control, s)
  pub own : control.task ≡ x.task
  pub authority : has_authority provider control ≡ true
  pub kind : String
  pub decision : PolicyDecision
  pub evaluated :
      evaluate_policy o provider (record {
        now = w.claim.now;
        risk = x.risk;
        authority_valid = true;
        task = x.task;
        attempt = attempt;
        descriptor_type = kind;
        phase = "DISPATCH";
        attributes = [];
      })
      ≡ ok decision
  pub provenance : validate_decision_provenance decision w.claim.now ≡ ok tt
  pub allowed :
      (decision.outcome ≡ PolicyOutcome.allow) ⊎ (decision.outcome ≡ PolicyOutcome.require_approval)
  pub request : DispatchRequest
  pub after : Database
  pub committed :
      commit_dispatch o w.claim provider decision kind x.task x.id attempt s ≡ ok (request, after)

refused_cases :
    (w : DispatchDraws) (x : Operation) (attempt : String) (s : Database)
    → Unsent x.id s (refuse_dispatch w x attempt s).1
unfolding refuse_dispatch
refused_cases w x attempt s =
    elim (Result-cases
      (cancel_prepared w.cancelled w.cancelled_at w.cancel_guarded_at x attempt s)) [
        | inr (e, bad) ↦ inl (ground (arith, bad))
        | inl (_, t, done) ↦
            let same : (refuse_dispatch w x attempt s).1 ≡ t = ground (arith, done) in
            let v =
              cancel_prepared-Cancelled w.cancelled w.cancelled_at w.cancel_guarded_at x attempt s t
                done in
            elim v.effect [
              | too_late current fc other kept ↦ inl (same ∙ kept)
              | ended current y r fc prepared fy closed fr free aside ↦
                  inr (y, ap (λ (z : Database). find x.id z.operations) same ∙ fy, closed)
            ]
      ]

unsent_send :
    (o : Outside) (w : DispatchDraws) (p : Provider) (d : PolicyDecision) (kind : String)
    (x : Operation) (attempt : String) (s : Database) (e : Error)
    → commit_dispatch o w.claim p d kind x.task x.id attempt s ≡ err e
    → (send o w p d kind x attempt s).1 ≡ s
unfolding send
unsent_send o w p d kind x attempt s e h = ground (arith, h)

control_reads :
    (attempt : String) (c : TaskControl) (s t : Database)
    → control_for_attempt attempt s ≡ ok (c, t)
    → t ≡ s
unfolding control_for_attempt load_task_control_tx
control_reads attempt c s t h = elim (Option-cases (find attempt s.store.attempts)) [
  | inl missing ↦ absurd (ground (arith, missing, h))
  | inr (a, fa) ↦ elim (Option-cases (find a.task s.store.tasks)) [
    | inl missing ↦ absurd (ground (arith, fa, missing, h))
    | inr (x, fx) ↦ ground (arith, fa, fx, h)
  ]
]

-- The gate before the transaction.
abbrev barred : DispatchDraws → Provider → TaskControl → PolicyDecision → Bool
barred w p c d =
    is_failed (validate_decision_provenance d w.claim.now)
    || is_failed (validate_dispatch_outcome d)
    || not (has_authority p c)

fine-eq : (r : Result (Unit {0})) → is_failed r ≡ false → r ≡ ok tt
fine-eq (ok u) h = refl
fine-eq (err e) h = absurd (ground arith)

allowed_outcome :
    (d : PolicyDecision)
    → is_failed (validate_dispatch_outcome d) ≡ false
    → (d.outcome ≡ PolicyOutcome.allow) ⊎ (d.outcome ≡ PolicyOutcome.require_approval)
unfolding validate_dispatch_outcome
allowed_outcome d h = ground arith

module _ (o : Outside) (providers : Providers) (w : DispatchDraws) (x : Operation)
    (attempt : String) (s : Database) where
  context : Provider → TaskControl → String → PolicyContext
  context p c kind = record {
    now = w.claim.now;
    risk = x.risk;
    authority_valid = has_authority p c;
    task = x.task;
    attempt = attempt;
    descriptor_type = kind;
    phase = "DISPATCH";
    attributes = [];
  }

  sent_cases :
      (p : Provider) (c : TaskControl) (kind : String) (d : PolicyDecision)
      → provider_for providers x.provider ≡ ok p
      → control_for_attempt attempt s ≡ ok (c, s)
      → c.task ≡ x.task
      → evaluate_policy o p (context p c kind) ≡ ok d
      → barred w p c d ≡ false
      → Unsent x.id s (send o w p d kind x attempt s).1 ⊎ Departed o providers w x attempt s
  unfolding context
  sent_cases p c kind d fp fc own judged free =
      elim (Result-cases (commit_dispatch o w.claim p d kind x.task x.id attempt s)) [
        | inr (e, bad) ↦ inl (inl (unsent_send o w p d kind x attempt s e bad))
        | inl (q, t, sent) ↦
            let may : has_authority p c ≡ true = ground (arith, free) in
            inr (record {
              provider = p;
              registered = fp;
              control = c;
              controlled = fc;
              own = own;
              authority = may;
              kind = kind;
              decision = d;
              evaluated =
                  ap
                    (λ b. evaluate_policy o p (record {
                      now = w.claim.now;
                      risk = x.risk;
                      authority_valid = b;
                      task = x.task;
                      attempt = attempt;
                      descriptor_type = kind;
                      phase = "DISPATCH";
                      attributes = [];
                    }))
                    (sym may)
                  ∙ judged;
              provenance = fine-eq _ (ground (arith, free));
              allowed = allowed_outcome d (ground (arith, free));
              request = q;
              after = t;
              committed = sent;
            })
      ]

  gate_cases :
      (p : Provider) (c : TaskControl) (kind : String) (d : PolicyDecision)
      → provider_for providers x.provider ≡ ok p
      → control_for_attempt attempt s ≡ ok (c, s)
      → c.task ≡ x.task
      → evaluate_policy o p (context p c kind) ≡ ok d
      → Unsent x.id s (dispatch_unless o w p d kind x attempt (barred w p c d) s).1
        ⊎ Departed o providers w x attempt s
  unfolding dispatch_unless
  gate_cases p c kind d fp fc own judged = go (barred w p c d) refl
    where
      go :
          (b : Bool)
          → barred w p c d ≡ b
          → Unsent x.id s (dispatch_unless o w p d kind x attempt b s).1
            ⊎ Departed o providers w x attempt s
      go true e = inl (refused_cases w x attempt s)
      go false e = sent_cases p c kind d fp fc own judged e

  prepared_cases :
      Unsent x.id s (dispatch_prepared o providers w x attempt s).1
      ⊎ Departed o providers w x attempt s
  unfolding dispatch_prepared context
  prepared_cases = elim (answer_cases (provider_for providers x.provider)) [
    | inr (e, bad) ↦ inl (inl (ground (arith, bad)))
    | inl (p, fp) ↦ elim (Result-cases (control_for_attempt attempt s)) [
      | inr (e, bad) ↦ inl (inl (ground (arith, fp, bad)))
      | inl (c, t, fc) ↦ elim (Bool-cases (c.task == x.task)) [
        | inr other ↦ inl (inl (ground (arith, fp, fc, other)))
        | inl own ↦ elim (Result-cases (descriptor_type_of x.slot s)) [
          | inr (e, bad) ↦ inl (inl (ground (arith, fp, fc, own, bad)))
          | inl (kind, u, fk) ↦ elim (answer_cases (evaluate_policy o p (context p c kind))) [
            | inr (e, bad) ↦ inl (inl (ground (arith, fp, fc, own, fk, bad)))
            | inl (d, judged) ↦
                let read_only : control_for_attempt attempt s ≡ ok (c, s) =
                  fc ∙ ap (λ z. ok (c, z)) (control_reads attempt c s t fc) in
                let same : dispatch_prepared o providers w x attempt s
                    ≡ dispatch_unless o w p d kind x attempt (barred w p c d) s =
                  ground (arith, fp, fc, own, fk, judged) in
                subst (λ z. Unsent x.id s z.1 ⊎ Departed o providers w x attempt s) (sym same)
                  (gate_cases p c kind d fp read_only (ground (arith, own)) judged)
          ]
        ]
      ]
    ]
  ]

-- A dispatch of a prepared operation stops at once, or goes on for the attempt that prepared it.
begun_cases :
    (o : Outside) (providers : Providers) (w : DispatchDraws) (id attempt : String) (x : Operation)
    (s : Database)
    → find id s.operations ≡ some x
    → x.state ≡ OperationState.prepared
    → ((dispatch o providers w id attempt s).1 ≡ s)
      ⊎ ((x.attempt ≡ attempt)
          × (dispatch o providers w id attempt s ≡ dispatch_prepared o providers w x attempt s))
unfolding dispatch dispatch_by
begun_cases o providers w id attempt x s fx prepared =
    elim (Bool-cases (id == "" || attempt == "")) [
      | inl blank ↦ inl (ground (arith, blank))
      | inr named ↦ elim (Bool-cases (x.attempt == attempt)) [
        | inr other ↦ inl (ground (arith, named, fx, prepared, other))
        | inl own ↦ inr (ground (arith, own), ground (arith, named, fx, prepared, own))
      ]
    ]

same_row :
    (id : String) (x y : Operation) (s t : Database)
    → t ≡ s
    → find id s.operations ≡ some x
    → find id t.operations ≡ some y
    → y ≡ x
same_row id x y s t e fx fy = ground arith

-- A prepared operation that a dispatch leaves in another state than PREPARED or CANCELLED was committed to
-- its dispatch: by its own attempt, whose task is that of the operation, with a registered provider within
-- the authority of the task, under a decision of the policy engine on this dispatch that is current and
-- allows it, by a transaction that has committed.
pub dispatch-Departed :
    (o : Outside) (providers : Providers) (w : DispatchDraws) (id attempt : String)
    (x y : Operation) (s : Database)
    → find id s.operations ≡ some x
    → x.state ≡ OperationState.prepared
    → find id (dispatch o providers w id attempt s).1.operations ≡ some y
    → y.state ≢ OperationState.prepared
    → y.state ≢ OperationState.cancelled
    → (x.attempt ≡ attempt) × Departed o providers w x attempt s
dispatch-Departed o providers w id attempt x y s fx prepared fy left uncancelled =
    let idle = λ (e : (dispatch o providers w id attempt s).1 ≡ s).
      left (ap (λ (z : Operation). z.state) (same_row id x y s _ e fx fy) ∙ prepared) in
    elim (begun_cases o providers w id attempt x s fx prepared) [
      | inl e ↦ absurd (idle e)
      | inr (own, e) ↦ elim (prepared_cases o providers w x attempt s) [
        | inr departed ↦ (own, departed)
        | inl (inl same) ↦ absurd (idle (ap (λ z. z.1) e ∙ same))
        | inl (inr (z, fz, closed)) ↦
            let fz' : find id (dispatch o providers w id attempt s).1.operations ≡ some z =
              ap (λ r. find id r.1.operations) e
              ∙ subst
                  (λ i. find i (dispatch_prepared o providers w x attempt s).1.operations ≡ some z)
                  (find-key id s.operations {r = x} fx) fz in
            absurd (
              uncancelled
                (ap (λ (u : Operation). u.state) (some-injective _ _ (sym fy ∙ fz')) ∙ closed))
      ]
    ]
