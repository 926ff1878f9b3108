-- ===== src/Operations/Committed.antt =====
-- internal/operations/service.go: what the transaction of Dispatch has checked when it commits.
use meeseek_collective.Common.{
  ℕ, true, false, ◌≡◌, sym, ap, subst, ◌∙◌, ◌⊎◌, inl, inr, some, List, [], ◌∷◌, String, arith,
  Option-cases,
}
use meeseek_collective.Common.Text.{trim_space}
use meeseek_collective.Common.Sets.{has_string, normalize}
use meeseek_collective.Common.Rows.{find, update, changed}
use meeseek_collective.Common.Result.{ok, lift, Result-cases}
use meeseek_collective.Domain.{OperationState, TaskState, ApprovalState, PolicyOutcome, held}
use meeseek_collective.Resources.{Reservation, reservation_key}
use meeseek_collective.Approvals.Requests.{Request, Registry, request_key}
use meeseek_collective.Approvals.Decisions.{get_in_tx}
use meeseek_collective.Execution.State.{task_key}
use meeseek_collective.Execution.Lease.{guard_attempt}
use meeseek_collective.Execution.Guard.{Holds, guard_attempt-Holds}
use meeseek_collective.Operations.{
  Operation, EffectSlot, Database, operation_key, slot_key, append_operation_event,
}
use meeseek_collective.Operations.Policy.{
  DispatchRequest, Provider, PolicyDecision, Outside, validate_dispatch_outcome,
  required_approvers_for, requires_approval, has_authority, enforcement_satisfies,
  load_task_control_tx,
}
use meeseek_collective.Operations.Gate.{
  operation_digest, is_bound_to, consume_exact_approval, validate_and_consume_approval_in_tx,
}
use meeseek_collective.Operations.Claim.{
  ClaimDraws, is_dispatchable, dispatch_operation, claim_operation, check_reserved, check_authority,
  load_prepared, commit_reserved, request_for, commit_dispatch,
}
use meeseek_collective.Operations.Quiet.{Preserves, Preserves-trans}
use meeseek_collective.Operations.Unmoved.{consume_approval-IsQuiet, event-IsQuiet}

-- The attempt holds the task, and the provider lies within what the task allows.
pub record IsPermitted (now : ℕ) (p : Provider) (attempt task : String) (s : Database)
    : Type 0 where
  pub holder : Holds now attempt (TaskState.executing ∷ []) s.store
  pub own : holder.attempt.task ≡ task
  pub capability : has_string holder.task.authority_ceiling p.capability ≡ true
  pub enforcement : enforcement_satisfies p.enforcement holder.task.required_enforcement ≡ true

authority_cases :
    (now : ℕ) (p : Provider) (attempt task : String) (s t : Database)
    → check_authority now p attempt task s ≡ ok (tt, t)
    → (t ≡ s) × IsPermitted now p attempt task s
unfolding check_authority load_task_control_tx has_authority
authority_cases now p attempt task s t h =
    elim (Result-cases (guard_attempt now attempt (TaskState.executing ∷ []) s.store)) [
      | inr (e, bad) ↦ absurd (ground (arith, bad, h))
      | inl (g, x, passed) ↦
          let (holder, same, own) =
            guard_attempt-Holds now attempt (TaskState.executing ∷ []) s.store x g passed in
          (
            ground (arith, passed, same, own, holder.task_row, h),
            record {
              holder = holder;
              own = ground (arith, passed, same, own, holder.task_row, h);
              capability = ground (arith, passed, same, own, holder.task_row, h);
              enforcement = ground (arith, passed, same, own, holder.task_row, h);
            },
          )
    ]

-- The reservation of the operation is held, and its slot still has the intent that was prepared.
pub record IsReserved (op : Operation) (slot : EffectSlot) (s : Database) : Type 0 where
  pub reservation : Reservation
  pub row : find op.reservation s.ledger.reservations ≡ some reservation
  pub held : reservation.state ≡ held
  pub slot_row : find op.slot s.slots ≡ some slot
  pub fingerprint : slot.intent_fingerprint ≡ op.intent_fingerprint
  pub revision : slot.intent_revision ≡ op.intent_revision

reserved_cases :
    (op : Operation) (slot : EffectSlot) (s t : Database)
    → check_reserved op s ≡ ok (slot, t)
    → (t ≡ s) × IsReserved op slot s
unfolding check_reserved
reserved_cases op slot s t h = elim (Option-cases (find op.reservation s.ledger.reservations)) [
  | inl e ↦ absurd (ground (arith, e, h))
  | inr (r, e) ↦ elim (Option-cases (find op.slot s.slots)) [
    | inl e' ↦ absurd (ground (arith, e, e', h))
    | inr (x, e') ↦ (
      ground (arith, e, e', h),
      record {
        reservation = r;
        row = e;
        held = ground (arith, e, e', h);
        slot_row = ground (arith, e, e', h);
        fingerprint = ground (arith, e, e', h);
        revision = ground (arith, e, e', h);
      },
    )
  ]
]

-- A request that stands approved, for this operation as it is now and by the approvers that it needs now.
pub record IsApproved (o : Outside) (op : Operation) (d : PolicyDecision) (caller : List String)
    (p : Provider) (kind canonical : String) (s : Database) : Type 0 where
  pub request : Request
  pub digest : String
  pub row : find (trim_space op.approval) s.registry.requests ≡ some request
  pub approved : request.state ≡ ApprovalState.approved
  pub sealed : operation_digest o p kind op canonical ≡ ok digest
  pub bound : is_bound_to request op digest (required_approvers_for d caller) ≡ true

get_cases :
    (id : String) (r : Request) (s t : Registry)
    → get_in_tx id s ≡ ok (r, t)
    → (t ≡ s) × (find (trim_space id) s.requests ≡ some r)
unfolding get_in_tx
get_cases id r s t h = (ground arith, ground arith)

exact_cases :
    (o : Outside) (now : ℕ) (op : Operation) (d : PolicyDecision) (caller : List String)
    (p : Provider) (kind canonical : String) (s t : Database)
    → consume_exact_approval o now op d caller p kind canonical s ≡ ok (tt, t)
    → IsApproved o op d caller p kind canonical s
unfolding consume_exact_approval
exact_cases o now op d caller p kind canonical s t h =
    elim (Result-cases (get_in_tx op.approval s.registry)) [
      | inr (e, bad) ↦ absurd (ground (arith, bad, h))
      | inl (r, x, got) ↦
          let (same, row) = get_cases op.approval r s.registry x got in
          elim (Result-cases (lift (operation_digest o p kind op canonical) s)) [
            | inr (e, bad) ↦ absurd (ground (arith, got, bad, h))
            | inl (digest, y, sealed) ↦ record {
              request = r;
              digest = digest;
              row = row;
              approved = ground (arith, got, sealed, h);
              sealed = ground (arith, sealed);
              bound = ground (arith, got, sealed, h);
            }
          ]
    ]

pub approval_cases :
    (o : Outside) (now : ℕ) (op : Operation) (d : PolicyDecision) (caller : List String)
    (p : Provider) (kind canonical : String) (s t : Database)
    → validate_and_consume_approval_in_tx o now op d caller p kind canonical s ≡ ok (tt, t)
    → requires_approval d caller ≡ true
    → IsApproved o op d caller p kind canonical s
unfolding validate_and_consume_approval_in_tx
approval_cases o now op d caller p kind canonical s t h e =
    exact_cases o now op d caller p kind canonical s t (ground (arith, e, h))

claim_cases :
    (claim : String) (d : PolicyDecision) (now : ℕ) (id : String) (s t : Database)
    → claim_operation claim d now id s ≡ ok (tt, t)
    → (t ≡ record s { operations = update id (dispatch_operation claim d now) s.operations })
      × (changed id is_dispatchable s.operations ≡ 1)
unfolding claim_operation
claim_cases claim d now id s t h = (ground arith, ground arith)

uncancelled_lem :
    (op : Operation) (slot : EffectSlot) (s t : Database)
    → check_reserved op s ≡ ok (slot, t)
    → op.cancel_requested ≡ false
unfolding check_reserved
uncancelled_lem op slot s t h = elim (Option-cases (find op.reservation s.ledger.reservations)) [
  | inl e ↦ absurd (ground (arith, e, h))
  | inr (r, e) ↦ elim (Option-cases (find op.slot s.slots)) [
    | inl e' ↦ absurd (ground (arith, e, e', h))
    | inr (x, e') ↦ ground (arith, e, e', h)
  ]
]

-- A write of the operations only.
rows-Preserves :
    {rows : List Operation} (s t : Database) → t ≡ record s { operations = rows } → Preserves s t
rows-Preserves s t e =
    subst (Preserves s) (sym e) (record { ledger = λ v. v; store = λ v. v; registry = λ v. v })

-- What the transaction has found when it commits the operation to its dispatch.
pub record IsCleared (o : Outside) (w : ClaimDraws) (p : Provider) (d : PolicyDecision)
    (kind id : String) (op : Operation) (slot : EffectSlot) (s t : Database) : Type 0 where
  pub reserved : IsReserved op slot s
  pub uncancelled : op.cancel_requested ≡ false
  pub approved :
      requires_approval d (normalize op.caller_required) ≡ true
      → IsApproved o op d (normalize op.caller_required) p kind slot.canonical_intent s
  pub claimed : changed id is_dispatchable s.operations ≡ 1
  pub kept : Preserves s t
  pub written : t.operations ≡ update id (dispatch_operation w.claim d w.now) s.operations

commit_reserved-IsCleared :
    (o : Outside) (w : ClaimDraws) (p : Provider) (d : PolicyDecision) (kind id : String)
    (op : Operation) (slot : EffectSlot) (s t : Database)
    → commit_reserved o w p d kind id op s ≡ ok (slot, t)
    → IsCleared o w p d kind id op slot s t
unfolding commit_reserved
commit_reserved-IsCleared o w p d kind id op slot s t h =
    elim (Result-cases (check_reserved op s)) [
      | inr (e, bad) ↦ absurd (ground (arith, bad, h))
      | inl (x, u, checked) ↦
          let (same, reserved) = reserved_cases op x s u checked in
          let gate =
            validate_and_consume_approval_in_tx o w.consumed_at op d (normalize op.caller_required)
              p kind x.canonical_intent in
          elim (Result-cases (gate s)) [
            | inr (e, bad) ↦ absurd (ground (arith, checked, same, bad, h))
            | inl (_, v, used) ↦ elim (Result-cases (claim_operation w.claim d w.now id v)) [
              | inr (e, bad) ↦ absurd (ground (arith, checked, same, used, bad, h))
              | inl (_, y, taken) ↦
                  let own : x ≡ slot = ground (arith, checked, same, used, taken, h) in
                  let noted : append_operation_event w.event op.task op.attempt
                        "OPERATION_DISPATCH_COMMITTED" w.now y
                      ≡ ok (tt, t) =
                    ground (arith, checked, same, used, taken, h) in
                  let quiet =
                    (consume_approval-IsQuiet o w.consumed_at op d (normalize op.caller_required) p
                        kind x.canonical_intent).runs
                      s v tt used in
                  let last =
                    (event-IsQuiet w.event op.task op.attempt "OPERATION_DISPATCH_COMMITTED"
                        w.now).runs
                      y t tt noted in
                  let (e, one) = claim_cases w.claim d w.now id v y taken in
                  record {
                    reserved = subst (λ z. IsReserved op z s) own reserved;
                    uncancelled = uncancelled_lem op x s u checked;
                    approved = λ r.
                        subst
                          (λ (z : EffectSlot).
                            IsApproved o op d (normalize op.caller_required) p kind
                              z.canonical_intent s)
                          own
                          (approval_cases o w.consumed_at op d (normalize op.caller_required) p kind
                            x.canonical_intent s v used r);
                    claimed = subst (λ z. changed id is_dispatchable z ≡ 1) quiet.rows one;
                    kept =
                        Preserves-trans quiet.kept
                          (Preserves-trans (rows-Preserves v y e) last.kept);
                    written =
                        last.rows
                        ∙ ap (λ (z : Database). z.operations) e
                        ∙ ap (update id _) quiet.rows;
                  }
            ]
          ]
    ]

-- The whole transaction.
pub record Committed (o : Outside) (w : ClaimDraws) (p : Provider) (d : PolicyDecision)
    (kind task id attempt : String) (q : DispatchRequest) (s t : Database) : Type 0 where
  pub permitted : IsPermitted w.guarded_at p attempt task s
  pub allowed : (d.outcome ≡ PolicyOutcome.allow) ⊎ (d.outcome ≡ PolicyOutcome.require_approval)
  pub current : Operation
  pub row : find id s.operations ≡ some current
  pub prepared : current.state ≡ OperationState.prepared
  pub owner : current.attempt ≡ attempt
  pub slot : EffectSlot
  pub cleared : IsCleared o w p d kind id current slot s t
  pub request : q ≡ request_for current slot

allowed_lem :
    (d : PolicyDecision)
    → validate_dispatch_outcome d ≡ ok tt
    → (d.outcome ≡ PolicyOutcome.allow) ⊎ (d.outcome ≡ PolicyOutcome.require_approval)
unfolding validate_dispatch_outcome
allowed_lem d h = ground arith

loaded_cases :
    (id attempt : String) (op : Operation) (s t : Database)
    → load_prepared id attempt s ≡ ok (op, t)
    → (t ≡ s)
      × (find id s.operations ≡ some op)
      × (op.state ≡ OperationState.prepared)
      × (op.attempt ≡ attempt)
unfolding load_prepared
loaded_cases id attempt op s t h = elim (Option-cases (find id s.operations)) [
  | inl e ↦ absurd (ground (arith, e, h))
  | inr (x, e) ↦
      (ground (arith, e, h), ground (arith, e, h), ground (arith, e, h), ground (arith, e, h))
]

-- A dispatch is committed only for an attempt that holds its task, with a provider in the authority of the
-- task, under a policy decision that allows it, of an operation that is prepared by that attempt, with a
-- reservation that is held, an intent that has not changed and, where one is required, an approved request
-- for it.
pub commit_dispatch-Committed :
    (o : Outside) (w : ClaimDraws) (p : Provider) (d : PolicyDecision)
    (kind task id attempt : String) (q : DispatchRequest) (s t : Database)
    → commit_dispatch o w p d kind task id attempt s ≡ ok (q, t)
    → Committed o w p d kind task id attempt q s t
unfolding commit_dispatch
commit_dispatch-Committed o w p d kind task id attempt q s t h =
    elim (Result-cases (check_authority w.guarded_at p attempt task s)) [
      | inr (e, bad) ↦ absurd (ground (arith, bad, h))
      | inl (_, u, checked) ↦
          let (same, permitted) = authority_cases w.guarded_at p attempt task s u checked in
          elim (Result-cases (load_prepared id attempt s)) [
            | inr (e, bad) ↦ absurd (ground (arith, checked, same, bad, h))
            | inl (op, v, loaded) ↦
                let (same', row, prepared, owner) = loaded_cases id attempt op s v loaded in
                elim (Result-cases (commit_reserved o w p d kind id op s)) [
                  | inr (e, bad) ↦ absurd (ground (arith, checked, same, loaded, same', bad, h))
                  | inl (slot, y, done) ↦
                      let last : t ≡ y = ground (arith, checked, same, loaded, same', done, h) in
                      record {
                        permitted = permitted;
                        allowed = allowed_lem d (ground (arith, checked, h));
                        current = op;
                        row = row;
                        prepared = prepared;
                        owner = owner;
                        slot = slot;
                        cleared =
                            subst (IsCleared o w p d kind id op slot s) (sym last)
                              (commit_reserved-IsCleared o w p d kind id op slot s y done);
                        request = ground (arith, checked, same, loaded, same', done, h);
                      }
                ]
          ]
    ]
