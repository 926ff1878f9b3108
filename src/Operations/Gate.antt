-- ===== src/Operations/Gate.antt =====
-- internal/operations/approval_gate.go: the approval of a prepared operation, and the use of it when the
-- operation is dispatched.
use meeseek_collective.Common.{ℕ, Bool, true, false, ◌&&◌, ◌||◌, not, List, String, ◌==◌}
use meeseek_collective.Common.Sets.{normalize}
use meeseek_collective.Common.Result.{
  policy_denied, Error, Result, ok, err, Tx, ◌>>=◌, ◌>>◌, pure, reject_if, lift,
}
use meeseek_collective.Domain.{ApprovalState}
use meeseek_collective.Approvals.Requests.{Request, is_pending, is_approved, create_in_tx}
use meeseek_collective.Approvals.Decisions.{get_in_tx, consume_in_tx}
use meeseek_collective.Operations.{Operation, Database, on_registry}
use meeseek_collective.Operations.Policy.{
  Provider, PolicyDecision, Outside, no_ids, required_approvers_for, requires_approval,
  approval_ids_equal, operation_approval_digest,
}

-- `fmt.Errorf("%w: …", e, …)`: whatever the error was, the result is `e`.
abbrev pub wrap_error : {A : Type 0} → Error → Tx Database A → Tx Database A
wrap_error e m s = elim (m s) [ ok x ↦ ok x | err _ ↦ err e ]

unfoldable pub operation_digest : Outside → Provider → String → Operation → String → Result String
operation_digest o p kind op canonical =
    operation_approval_digest o p.name kind op.slot op.intent_fingerprint op.intent_revision
      canonical

-- The approval that a new operation waits for, if it needs one; its identifier is empty otherwise.
unfoldable pub prepare_approval_in_tx :
    Outside
    → String
    → ℕ
    → Operation
    → ℕ
    → PolicyDecision
    → List String
    → Provider
    → String
    → String
    → Tx Database String
prepare_approval_in_tx o fresh now op expires d caller p kind canonical =
    elim (requires_approval d (normalize caller)) [
      | false ↦ pure ""
      | true ↦ do
        reject_if (no_ids (required_approvers_for d (normalize caller))) policy_denied
        digest ← lift (operation_digest o p kind op canonical)
        r ← on_registry (
            create_in_tx fresh now (record {
              subject_kind = "EXTERNAL_OPERATION";
              subject = op.id;
              digest = digest;
              policy_decision = d.id;
              required = required_approvers_for d (normalize caller);
              requested_by = op.attempt;
              expires_at = expires;
            }))
        pure r.id
    ]

-- The request is for this operation as it is now, and names the approvers that are required now.
unfoldable pub is_bound_to : Request → Operation → String → List String → Bool
is_bound_to r op digest required =
    r.subject_kind == "EXTERNAL_OPERATION"
    && r.subject == op.id
    && r.digest == digest
    && approval_ids_equal r.required required

abbrev pub is_usable : ApprovalState → Bool
is_usable s = is_pending s || is_approved s

unfoldable pub prepared_approval_matches_in_tx :
    Outside
    → Operation
    → PolicyDecision
    → List String
    → Provider
    → String
    → String
    → Tx Database Bool
prepared_approval_matches_in_tx o op d caller p kind canonical =
    elim (approval_ids_equal op.caller_required (normalize caller)) [
      | false ↦ pure false
      | true ↦ elim (requires_approval d (normalize caller)) [
        | false ↦ pure (op.approval == "")
        | true ↦ elim (op.approval == "" || no_ids (required_approvers_for d (normalize caller))) [
          | true ↦ pure false
          | false ↦ do
            r ← on_registry (get_in_tx op.approval)
            digest ← lift (operation_digest o p kind op canonical)
            pure (
                is_bound_to r op digest (required_approvers_for d (normalize caller))
                && is_usable r.state)
        ]
      ]
    ]

-- At the dispatch: an approval that is required is the exact one, and it is used up.
unfoldable pub consume_exact_approval :
    Outside
    → ℕ
    → Operation
    → PolicyDecision
    → List String
    → Provider
    → String
    → String
    → Tx Database (Unit {0})
consume_exact_approval o now op d caller p kind canonical = do
  reject_if (op.approval == "" || no_ids (required_approvers_for d caller)) policy_denied
  r ← wrap_error policy_denied (on_registry (get_in_tx op.approval))
  digest ← lift (operation_digest o p kind op canonical)
  reject_if (not (is_bound_to r op digest (required_approvers_for d caller))) policy_denied
  reject_if (not (is_approved r.state)) policy_denied
  wrap_error policy_denied (on_registry (consume_in_tx now r.id digest))

unfoldable pub validate_and_consume_approval_in_tx :
    Outside
    → ℕ
    → Operation
    → PolicyDecision
    → List String
    → Provider
    → String
    → String
    → Tx Database (Unit {0})
validate_and_consume_approval_in_tx o now op d caller p kind canonical =
    elim (requires_approval d caller) [
      | false ↦ reject_if (not (op.approval == "")) policy_denied
      | true ↦ consume_exact_approval o now op d caller p kind canonical
    ]
