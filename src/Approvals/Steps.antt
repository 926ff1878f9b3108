-- ===== src/Approvals/Steps.antt =====
-- internal/approvals/service.go: the moves of the approval tables.
use meeseek_collective.Common.{
  ℕ, not, ◌≡◌, refl, sym, subst, if_cases, ltb, nat_eq, ap, ◌⊎◌, inl, inr, true, none, some, List,
  ◌∷◌, String, arith, length, Option-cases,
}
use meeseek_collective.Common.Text.{trim_space}
use meeseek_collective.Common.Sets.{has_string, normalize, IsSorted, normalize-IsSorted}
use meeseek_collective.Common.Rows.{count, find, update, insert, KeepsKey}
use meeseek_collective.Common.Result.{ok, Result-cases, with_tx_cases}
use meeseek_collective.Domain.{ApprovalState}
use meeseek_collective.Approvals.Requests.{
  Action, approve, reject, CreateRequest, Request, Decision, Registry, request_key, is_approved,
  validate_create, load_by_subject_digest, new_request, create_in_tx, clean_ids,
}
use meeseek_collective.Approvals.Decisions.{
  set_state, decide_row, find_decision, approves, conclude, terminalize, record_decision, decide,
  consume_in_tx, Call, creates, decides, consumes, after,
}

-- What becomes of the requests when a first decision has been noted.
pub data Outcome (id : String) (r : Request) (d : Decision) (ds : List Decision)
    (old new : List Request) : Type 0 where
  waits : d.action ≡ approve → new ≡ old → Outcome id r d ds old new
  grants :
      (f : Request → Request)
      → d.action ≡ approve
      → count (approves id) (d ∷ ds) ≡ length r.required
      → f r ≡ record r {
        state = ApprovalState.approved;
        decided_at = some d.decided_at;
        approver = some d.approver;
        action = some d.action;
      }
      → KeepsKey f
      → new ≡ update id f old
      → Outcome id r d ds old new
  refuses :
      (f : Request → Request)
      → d.action ≡ reject
      → f r ≡ record r {
        state = ApprovalState.rejected;
        decided_at = some d.decided_at;
        approver = some d.approver;
        action = some d.action;
      }
      → KeepsKey f
      → new ≡ update id f old
      → Outcome id r d ds old new

-- The effect of a call: none, a new request, a first decision on a pending request, or the one use.
pub data Step (s t : Registry) : Type 0 where
  stays : t ≡ s → Step s t
  opens :
      (r : Request) (rows : List Request)
      → r.state ≡ ApprovalState.pending
      → IsSorted r.required
      → insert r s.requests ≡ some rows
      → t ≡ record s { requests = rows }
      → Step s t
  votes :
      (id : String) (r : Request) (d : Decision)
      → find id s.requests ≡ some r
      → r.state ≡ ApprovalState.pending
      → d.approval ≡ id
      → has_string r.required d.approver ≡ true
      → find_decision id d.approver s.decisions ≡ none
      → t.decisions ≡ d ∷ s.decisions
      → Outcome id r d s.decisions s.requests t.requests
      → Step s t
  uses :
      (id : String) (r : Request)
      → find id s.requests ≡ some r
      → r.state ≡ ApprovalState.approved
      → t ≡ record s {
        requests = update id (set_state ApprovalState.consumed is_approved) s.requests;
      }
      → Step s t

pub consume_cases :
    (now : ℕ) (approval digest : String) (s t : Registry)
    → consume_in_tx now approval digest s ≡ ok (tt, t)
    → (r : Request) × (find (trim_space approval) s.requests ≡ some r)
      × (r.state ≡ ApprovalState.approved)
      × (t ≡ record s {
        requests =
            update (trim_space approval) (set_state ApprovalState.consumed is_approved) s.requests;
      })
unfolding consume_in_tx
consume_cases now approval digest s t h = ground arith

validate_create-required :
    (now : ℕ) (q : CreateRequest) (s t : Registry) (r : CreateRequest)
    → validate_create now q s ≡ ok (r, t)
    → (t ≡ s) × (r.required ≡ normalize q.required)
unfolding validate_create clean_ids
validate_create-required now q s t r h = ground arith

terminalize_cases :
    (id : String) (target : ApprovalState) (actor : String) (action : Action) (now : ℕ)
    (s t : Registry)
    → terminalize id target actor action now s ≡ ok (tt, t)
    → t ≡ record s { requests = update id (decide_row target actor action now) s.requests }
unfolding terminalize
terminalize_cases id target actor action now s t h = ground arith

pub create_cases :
    (fresh : String) (now : ℕ) (q : CreateRequest) (s t : Registry) (r : Request)
    → create_in_tx fresh now q s ≡ ok (r, t)
    → Step s t
unfolding create_in_tx new_request
create_cases fresh now q s t r h = elim (Result-cases (validate_create now q s)) [
  | inr (e, v) ↦ absurd (ground (arith, v, h))
  | inl (c, u, v) ↦
      let (same, required) = validate_create-required now q s u c v in
      elim (Option-cases (load_by_subject_digest c.subject_kind c.subject c.digest s.requests)) [
        | inl none_ ↦ elim (Option-cases (insert (new_request fresh now c) s.requests)) [
          | inl clash ↦ absurd (ground (arith, v, h, same, none_, clash))
          | inr (rows, ins) ↦
              opens (new_request fresh now c) rows refl
                (subst IsSorted (sym required) (normalize-IsSorted q.required)) ins
                (ground (arith, v, h, same, none_, ins))
        ]
        | inr (old, found) ↦ stays (ground (arith, v, h, same, found))
      ]
]

conclude_approved :
    (id approver : String) (now : ℕ) (r : Request) (n : ℕ) (s t : Registry)
    → conclude id approver approve now r n s ≡ ok (tt, t)
    → (t ≡ s)
      ⊎ ((n ≡ length r.required)
          × (t ≡ record s {
            requests =
                update id (decide_row ApprovalState.approved approver approve now) s.requests;
          }))
unfolding conclude
conclude_approved id approver now r n s t h = elim (if_cases (ltb n (length r.required)) h) [
  | inl (more, e) ↦ inl (ground (arith, e))
  | inr (full, e) ↦ elim (if_cases (not (nat_eq n (length r.required))) e) [
    | inl (other, e') ↦ absurd (ground (arith, e'))
    | inr (same, e') ↦ inr (
      ground (arith, same),
      terminalize_cases id ApprovalState.approved approver approve now s t e',
    )
  ]
]

-- A first decision: the row is noted, and its effect follows from the action and the count.
record_decision-votes :
    (id approver digest : String) (now : ℕ) (action : Action) (r : Request) (s t : Registry)
    → find id s.requests ≡ some r
    → r.state ≡ ApprovalState.pending
    → has_string r.required approver ≡ true
    → find_decision id approver s.decisions ≡ none
    → record_decision id approver digest action now r s ≡ ok (tt, t)
    → Step s t
unfolding record_decision conclude
record_decision-votes id approver digest now approve r s t fr pending member new h =
    let d : Decision = record {
      approval = id;
      approver = approver;
      digest = digest;
      action = approve;
      decided_at = now;
    } in
    let noted : Registry = record s { decisions = d ∷ s.decisions } in
    elim (conclude_approved id approver now r (count (approves id) (d ∷ s.decisions)) noted t h) [
      | inl e ↦
          votes id r d fr pending refl member new (ap (λ (x : Registry). x.decisions) e)
            (waits refl (ap (λ (x : Registry). x.requests) e))
      | inr (full, e) ↦
          votes id r d fr pending refl member new (ap (λ (x : Registry). x.decisions) e) (
            grants (decide_row ApprovalState.approved approver approve now) refl full
              (ground (arith, pending)) (λ x. ground arith) (ap (λ (x : Registry). x.requests) e))
    ]
record_decision-votes id approver digest now reject r s t fr pending member new h =
    let d : Decision = record {
      approval = id;
      approver = approver;
      digest = digest;
      action = reject;
      decided_at = now;
    } in
    let noted : Registry = record s { decisions = d ∷ s.decisions } in
    let e = terminalize_cases id ApprovalState.rejected approver reject now noted t h in
    votes id r d fr pending refl member new (ap (λ (x : Registry). x.decisions) e) (
      refuses (decide_row ApprovalState.rejected approver reject now) refl (ground (arith, pending))
        (λ x. ground arith) (ap (λ (x : Registry). x.requests) e))

decide_cases :
    (now : ℕ) (approval principal digest : String) (action : Action) (s t : Registry)
    → decide now approval principal digest action s ≡ ok (tt, t)
    → Step s t
unfolding decide
decide_cases now approval principal digest action s t h =
    let id = trim_space approval in
    let approver = trim_space principal in
    elim (Option-cases (find id s.requests)) [
      | inl e ↦ absurd (ground (arith, e, h))
      | inr (r, fr) ↦ elim (Option-cases (find_decision id approver s.decisions)) [
        | inl new ↦
            record_decision-votes id approver (trim_space digest) now action r s t fr
              (ground (arith, fr, new, h)) (ground (arith, fr, new, h)) new
              (ground (arith, fr, new, h))
        | inr (d, old) ↦ stays (ground (arith, fr, old, h))
      ]
    ]

pub consume_in_tx-Step :
    (now : ℕ) (approval digest : String) (s t : Registry)
    → consume_in_tx now approval digest s ≡ ok (tt, t)
    → Step s t
consume_in_tx-Step now approval digest s t h =
    let (r, fr, approved, e) = consume_cases now approval digest s t h in
    uses (trim_space approval) r fr approved e

pub after-Step : (s : Registry) (c : Call) → Step s (after s c)
unfolding after
after-Step s (creates fresh now q) =
    with_tx_cases (Step s) (create_in_tx fresh now q) s (stays refl)
      λ r t h. create_cases fresh now q s t r h
after-Step s (decides now approval principal digest action) =
    with_tx_cases (Step s) (decide now approval principal digest action) s (stays refl)
      λ u t h. decide_cases now approval principal digest action s t h
after-Step s (consumes now approval digest) =
    with_tx_cases (Step s) (consume_in_tx now approval digest) s (stays refl) λ u t h.
      let (r, fr, approved, e) = consume_cases now approval digest s t h in
      uses (trim_space approval) r fr approved e
