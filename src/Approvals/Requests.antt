-- ===== src/Approvals/Requests.antt =====
-- internal/approvals/service.go: the tables, and the creation of a request, which a repeated call
-- answers with the request that is there.
use meeseek_collective.Common.{
  ℕ, Bool, true, false, ◌&&◌, ◌||◌, not, Option, none, some, List, [], ◌∷◌, String, ◌==◌,
  if◌then◌else◌, leb, nat_eq,
}
use meeseek_collective.Common.Text.{trim_space}
use meeseek_collective.Common.Sets.{normalize}
use meeseek_collective.Common.Rows.{Keyed, insert}
use meeseek_collective.Common.Result.{
  constraint_failed, failure, ok, err, Tx, ◌>>=◌, ◌>>◌, pure, raise, reject_if, gets,
}
use meeseek_collective.Domain.{ApprovalState}

pub data Action : Type 0 where
  approve reject : Action

pub record CreateRequest : Type 0 where
  pub subject_kind : String
  pub subject : String
  pub digest : String
  pub policy_decision : String
  pub required : List String
  pub requested_by : String
  pub expires_at : ℕ

-- A row of approval_requests.
pub record Request : Type 0 where
  pub id : String
  pub subject_kind : String
  pub subject : String
  pub digest : String
  pub policy_decision : String
  pub required : List String
  pub requested_by : String
  pub state : ApprovalState
  pub expires_at : ℕ
  pub decided_at : Option ℕ
  pub approver : Option String
  pub action : Option Action
  pub created_at : ℕ

-- A row of approval_decisions; an approver has one on a request at most.
pub record Decision : Type 0 where
  pub approval : String
  pub approver : String
  pub digest : String
  pub action : Action
  pub decided_at : ℕ

pub record Registry : Type 0 where
  pub requests : List Request
  pub decisions : List Decision

instance abbrev pub request_key : Keyed Request
request_key = record { key = λ r. r.id }

abbrev pub is_pending : ApprovalState → Bool
is_pending ApprovalState.pending = true
is_pending _ = false

abbrev pub is_approved : ApprovalState → Bool
is_approved ApprovalState.approved = true
is_approved _ = false

abbrev pub is_approve : Action → Bool
is_approve approve = true
is_approve reject = false

abbrev pub same_action : Action → Action → Bool
same_action approve approve = true
same_action reject reject = true
same_action _ _ = false

unfoldable pub clean_ids : List String → List String
clean_ids = normalize

unfoldable pub same_digest : String → String → Bool
same_digest a b = not (trim_space a == "") && (trim_space a == trim_space b)

-- The request with its texts trimmed, if it is complete.
trimmed : CreateRequest → CreateRequest
unfolding clean_ids
trimmed r = record {
  subject_kind = trim_space r.subject_kind;
  subject = trim_space r.subject;
  digest = trim_space r.digest;
  policy_decision = trim_space r.policy_decision;
  required = clean_ids r.required;
  requested_by = trim_space r.requested_by;
  expires_at = r.expires_at;
}

is_empty : List String → Bool
is_empty [] = true
is_empty (x ∷ xs) = false

unfoldable pub validate_create : ℕ → CreateRequest → Tx Registry CreateRequest
unfolding trimmed is_empty
validate_create now r = do
  let t = trimmed r
  reject_if
      (t.subject_kind == ""
        || t.subject == ""
        || t.digest == ""
        || t.requested_by == ""
        || is_empty t.required)
      (failure "approval subject, digest, requester, and required approvers are required")
  reject_if (t.subject_kind == "EXTERNAL_OPERATION" && t.policy_decision == "")
      (failure "external-operation approval requires policy decision provenance")
  reject_if (nat_eq t.expires_at 0 || leb t.expires_at now)
      (failure "approval expiry must be in the future")
  pure t

unfoldable pub same_list : List String → List String → Bool
same_list [] [] = true
same_list (x ∷ xs) (y ∷ ys) = x == y && same_list xs ys
same_list _ _ = false

unfoldable pub same_create : Request → CreateRequest → Bool
unfolding same_list
same_create record_ r =
    record_.subject_kind == r.subject_kind
    && record_.subject == r.subject
    && record_.digest == r.digest
    && record_.policy_decision == r.policy_decision
    && record_.requested_by == r.requested_by
    && nat_eq record_.expires_at r.expires_at
    && same_list record_.required r.required

-- The unique index on (subject_kind, subject_id, request_digest).
unfoldable pub load_by_subject_digest : String → String → String → List Request → Option Request
load_by_subject_digest kind subject digest [] = none
load_by_subject_digest kind subject digest (r ∷ rs) =
    if r.subject_kind == kind && r.subject == subject && r.digest == digest
    then some r
    else load_by_subject_digest kind subject digest rs

unfoldable pub new_request : String → ℕ → CreateRequest → Request
new_request fresh now r = record {
  id = fresh;
  subject_kind = r.subject_kind;
  subject = r.subject;
  digest = r.digest;
  policy_decision = r.policy_decision;
  required = r.required;
  requested_by = r.requested_by;
  state = ApprovalState.pending;
  expires_at = r.expires_at;
  decided_at = none;
  approver = none;
  action = none;
  created_at = now;
}

insert_request : Request → Tx Registry (Unit {0})
insert_request r s = elim (insert r s.requests) [
  | some rows ↦ ok (tt, record s { requests = rows })
  | none ↦ err constraint_failed
]

create_or_replay : String → ℕ → CreateRequest → Option Request → Tx Registry Request
unfolding insert_request
create_or_replay fresh now r (some old) =
    if same_create old r
    then pure old
    else raise (failure "existing approval subject/digest has different immutable definition")
create_or_replay fresh now r none = do
  insert_request (new_request fresh now r)
  pure (new_request fresh now r)

unfoldable pub create_in_tx : String → ℕ → CreateRequest → Tx Registry Request
unfolding create_or_replay
create_in_tx fresh now request = do
  r ← validate_create now request
  old ← gets (λ s. load_by_subject_digest r.subject_kind r.subject r.digest s.requests)
  create_or_replay fresh now r old
