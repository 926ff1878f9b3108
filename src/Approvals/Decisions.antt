-- ===== src/Approvals/Decisions.antt =====
-- internal/approvals/service.go: Approve and Reject by the required approvers, and Consume.
use meeseek_collective.Common.{
  ℕ, Bool, ◌&&◌, ◌||◌, not, Option, none, some, List, [], ◌∷◌, String, ◌==◌, if◌then◌else◌, ltb,
  leb, nat_eq, length,
}
use meeseek_collective.Common.Text.{trim_space}
use meeseek_collective.Common.Sets.{has_string}
use meeseek_collective.Common.Rows.{count, find, update, changed}
use meeseek_collective.Common.Result.{
  no_rows, failure, Result, ok, err, Tx, ◌>>=◌, ◌>>◌, pure, raise, reject_if, or_raise, gets,
  modify, with_tx,
}
use meeseek_collective.Domain.{ApprovalState}
use meeseek_collective.Approvals.Requests.{
  Action, approve, reject, CreateRequest, Request, Decision, Registry, request_key, is_pending,
  is_approved, is_approve, same_action, same_digest, create_in_tx,
}

update_request : String → (Request → Request) → Tx Registry (Unit {0})
update_request id f s = ok (tt, record s { requests = update id f s.requests })

-- `UPDATE … WHERE approval_id = ? AND state = ?`
abbrev pub set_state : ApprovalState → (ApprovalState → Bool) → Request → Request
set_state target from r = if from r.state then record r { state = target } else r

unfoldable pub consume_in_tx : ℕ → String → String → Tx Registry (Unit {0})
unfolding update_request
consume_in_tx now approval request_digest = do
  let id = trim_space approval
  let digest = trim_space request_digest
  reject_if (id == "" || digest == "") (failure "approval id and request digest are required")
  row ← gets (λ s. find id s.requests)
  r ← or_raise row no_rows
  reject_if (not (same_digest r.digest digest)) (failure "approval request digest mismatch")
  reject_if (leb r.expires_at now) (failure "approval request expired")
  reject_if (not (is_approved r.state)) (failure "approval is not APPROVED")
  rows ← gets (λ s. changed id (λ x. is_approved x.state) s.requests)
  reject_if (not (nat_eq rows 1)) (failure "approval was concurrently changed")
  update_request id (set_state ApprovalState.consumed is_approved)

abbrev pub decide_row : ApprovalState → String → Action → ℕ → Request → Request
decide_row target actor action now r =
    if is_pending r.state
    then record r {
      state = target;
      decided_at = some now;
      approver = some actor;
      action = some action;
    }
    else r

unfoldable pub terminalize : String → ApprovalState → String → Action → ℕ → Tx Registry (Unit {0})
unfolding update_request
terminalize id target actor action now = do
  rows ← gets (λ s. changed id (λ x. is_pending x.state) s.requests)
  reject_if (not (nat_eq rows 1)) (failure "approval was concurrently changed")
  update_request id (decide_row target actor action now)

unfoldable pub find_decision : String → String → List Decision → Option Decision
find_decision approval approver [] = none
find_decision approval approver (d ∷ ds) =
    if d.approval == approval && d.approver == approver
    then some d
    else find_decision approval approver ds

abbrev pub approves : String → Decision → Bool
approves approval d = d.approval == approval && is_approve d.action

-- The `UPDATE` that marks an expired request stands before the error that rolls it back.
expire : String → Tx Registry (Unit {0})
unfolding update_request
expire id = do
  update_request id (set_state ApprovalState.expired is_pending)
  raise (failure "approval request expired")

unfoldable pub conclude : String → String → Action → ℕ → Request → ℕ → Tx Registry (Unit {0})
conclude id approver reject now r approved s =
    terminalize id ApprovalState.rejected approver reject now s
conclude id approver approve now r approved s =
    if ltb approved (length r.required)
    then ok (tt, s)
    else if not (nat_eq approved (length r.required))
    then err (failure "approval decision count exceeds required approvers")
    else terminalize id ApprovalState.approved approver approve now s

-- The first decision of an approver.
unfoldable pub record_decision :
    String → String → String → Action → ℕ → Request → Tx Registry (Unit {0})
unfolding conclude
record_decision id approver digest action now r = do
  modify (λ s. record s {
    decisions =
        record {
          approval = id;
          approver = approver;
          digest = digest;
          action = action;
          decided_at = now;
        }
        ∷ s.decisions;
  })
  approved ← gets (λ s. count (approves id) s.decisions)
  conclude id approver action now r approved

replay_decision : Decision → String → Action → Tx Registry (Unit {0})
replay_decision d digest action =
    if same_action d.action action && same_digest d.digest digest
    then pure tt
    else raise (failure "approver already recorded a different decision")

unfoldable pub decide : ℕ → String → String → String → Action → Tx Registry (Unit {0})
unfolding expire replay_decision
decide now approval principal request_digest action = do
  let id = trim_space approval
  let approver = trim_space principal
  let digest = trim_space request_digest
  reject_if (id == "" || approver == "" || digest == "")
      (failure "approval id, approver, and request digest are required")
  row ← gets (λ s. find id s.requests)
  r ← or_raise row no_rows
  reject_if (not (same_digest r.digest digest)) (failure "approval request digest mismatch")
  reject_if (not (is_pending r.state)) (failure "approval is not PENDING")
  (if leb r.expires_at now then expire id else pure tt)
  reject_if (not (has_string r.required approver)) (failure "principal is not a required approver")
  old ← gets (λ s. find_decision id approver s.decisions)
  elim old [
    | some d ↦ replay_decision d digest action
    | none ↦ record_decision id approver digest action now r
  ]

-- The entry points: a decision, a rejection, and the one use, each in its own transaction.
pub approve_request : ℕ → String → String → String → Registry → Result (Unit {0}) × Registry
approve_request now approval principal digest =
    with_tx (decide now approval principal digest approve)

pub reject_request : ℕ → String → String → String → Registry → Result (Unit {0}) × Registry
reject_request now approval principal digest = with_tx (decide now approval principal digest reject)

pub consume : ℕ → String → String → Registry → Result (Unit {0}) × Registry
consume now approval digest = with_tx (consume_in_tx now approval digest)

pub create : String → ℕ → CreateRequest → Registry → Result Request × Registry
create fresh now request = with_tx (create_in_tx fresh now request)

pub data Call : Type 0 where
  creates : String → ℕ → CreateRequest → Call
  decides : ℕ → String → String → String → Action → Call
  consumes : ℕ → String → String → Call

unfoldable pub after : Registry → Call → Registry
unfolding create consume
after s (creates fresh now request) = (create fresh now request s).1
after s (decides now approval principal digest action) =
    (with_tx (decide now approval principal digest action) s).1
after s (consumes now approval digest) = (consume now approval digest s).1

unfoldable pub run : Registry → List Call → Registry
run s [] = s
run s (c ∷ cs) = run (after s c) cs

-- `GetInTx`, but for the decisions that it lists.
unfoldable pub get_in_tx : String → Tx Registry Request
get_in_tx approval = do
  reject_if (trim_space approval == "") (failure "approval id is required")
  row ← gets (λ s. find (trim_space approval) s.requests)
  or_raise row (failure "approval not found")

-- `IsApproved`: the request is approved under the digest and has not run out.
unfoldable pub is_approved_now : ℕ → String → String → Registry → Result Bool
is_approved_now now approval digest s =
    if trim_space approval == ""
    then err (failure "approval id is required")
    else elim (find (trim_space approval) s.requests) [
      | none ↦ err (failure "approval not found")
      | some r ↦
          ok (same_digest r.digest digest && not (leb r.expires_at now) && is_approved r.state)
    ]
