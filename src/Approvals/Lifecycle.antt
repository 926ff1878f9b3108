-- ===== src/Approvals/Lifecycle.antt =====
-- internal/approvals/service.go: terminal states, the use of an approval, the state EXPIRED, and a
-- repeated creation.
use meeseek_collective.Common.{
  ℕ, ◌≡◌, ◌≢◌, refl, ap, subst, ◌∙◌, ◌⊎◌, inl, inr, true, some, List, [], ◌∷◌, String, arith,
  Option-cases,
}
use meeseek_collective.Common.Text.{trim_space}
use meeseek_collective.Common.Rows.{
  find, insert, find-update_ne, find-update_self, find-update_cases, find-insert_cases,
  find-insert_other,
}
use meeseek_collective.Common.Result.{Error, ok, err, Result-cases}
use meeseek_collective.Domain.{ApprovalState}
use meeseek_collective.Approvals.Requests.{
  CreateRequest, Request, Decision, Registry, request_key, same_list, is_approved,
  load_by_subject_digest, new_request, create_in_tx, validate_create, same_create,
}
use meeseek_collective.Approvals.Decisions.{set_state, consume_in_tx, Call, after, run}
use meeseek_collective.Approvals.Steps.{
  Outcome, waits, grants, refuses, Step, stays, opens, votes, uses, after-Step, consume_cases,
}

abbrev pub IsTerminal : ApprovalState → Type 0
IsTerminal x =
    (x ≡ ApprovalState.rejected) ⊎ ((x ≡ ApprovalState.expired) ⊎ (x ≡ ApprovalState.consumed))

Outcome-other :
    (id : String) (r : Request) (d : Decision) (ds : List Decision) (old new : List Request)
    → Outcome id r d ds old new
    → (j : String) → j ≢ id
    → find j new ≡ find j old
Outcome-other id r d ds old new (waits act e) j n = ap (find j) e
Outcome-other id r d ds old new (grants f act full fr keeps e) j n =
    ap (find j) e ∙ find-update_ne id j f old keeps n
Outcome-other id r d ds old new (refuses f act fr keeps e) j n =
    ap (find j) e ∙ find-update_ne id j f old keeps n

Step-terminal :
    (s t : Registry) (i : String) (r : Request)
    → Step s t
    → find i s.requests ≡ some r
    → IsTerminal r.state
    → find i t.requests ≡ some r
Step-terminal s t i r (stays e) fr end = ground (arith, e, fr)
Step-terminal s t i r (opens x rows pending sorted ins e) fr end =
    ground (arith, e, find-insert_other i x s.requests ins fr)
Step-terminal s t i r (votes id x d fx pending mine member new e outcome) fr end =
    Outcome-other id x d s.decisions s.requests t.requests outcome i
      (λ k. ground (arith, k, fx, pending, fr, end))
    ∙ fr
Step-terminal s t i r (uses id x fx approved e) fr end =
    ap (λ (y : Registry). find i y.requests) e
    ∙ find-update_ne id i (set_state ApprovalState.consumed is_approved) s.requests
        (λ y. ground arith) (λ k. ground (arith, k, fx, approved, fr, end))
    ∙ fr

-- No call changes a request that is rejected, expired or consumed.
pub run_terminal :
    (s : Registry) (cs : List Call) (i : String) (r : Request)
    → find i s.requests ≡ some r
    → IsTerminal r.state
    → find i (run s cs).requests ≡ some r
unfolding run
run_terminal s [] i r fr end = fr
run_terminal s (c ∷ cs) i r fr end =
    run_terminal (after s c) cs i r (Step-terminal s (after s c) i r (after-Step s c) fr end) end

-- An approval that has been consumed is not consumed again: after any calls, at any time and under any
-- digest, the second use is refused.
pub consume_once :
    (now later : ℕ) (approval digest other : String) (s t : Registry) (cs : List Call)
    → consume_in_tx now approval digest s ≡ ok (tt, t)
    → (e : Error) × (consume_in_tx later approval other (run t cs) ≡ err e)
consume_once now later approval digest other s t cs h =
    let (r, fr, approved, e) = consume_cases now approval digest s t h in
    let f : Request → Request = set_state ApprovalState.consumed is_approved in
    let used : find (trim_space approval) t.requests ≡ some (f r) =
      ap (λ (x : Registry). find (trim_space approval) x.requests) e
      ∙ find-update_self (trim_space approval) f s.requests (λ y. ground arith) fr in
    let spent : (f r).state ≡ ApprovalState.consumed = ground (arith, approved) in
    let still = run_terminal t cs (trim_space approval) (f r) used (inr (inr spent)) in
    elim (Result-cases (consume_in_tx later approval other (run t cs))) [
      | inl (u, t', h') ↦
          let (r', fr', approved', e') = consume_cases later approval other (run t cs) t' h' in
          absurd (ground (arith, still, fr', approved', spent))
      | inr w ↦ w
    ]

Outcome-unexpired :
    (id : String) (r : Request) (d : Decision) (ds : List Decision) (old new : List Request)
    → Outcome id r d ds old new
    → find id old ≡ some r
    → (j : String) (x : Request) → find j new ≡ some x
    → x.state ≡ ApprovalState.expired
    → find j old ≡ some x
Outcome-unexpired id r d ds old new (waits act e) fr j x fx end =
    subst (λ rows. find j rows ≡ some x) e fx
Outcome-unexpired id r d ds old new (grants f act full fr' keeps e) fr j x fx end =
    elim (find-update_cases id j f old keeps (subst (λ rows. find j rows ≡ some x) e fx)) [
      | inl (n, was) ↦ was
      | inr (y, same, was, w) ↦ absurd (ground (arith, same, was, w, fr, fr', end))
    ]
Outcome-unexpired id r d ds old new (refuses f act fr' keeps e) fr j x fx end =
    elim (find-update_cases id j f old keeps (subst (λ rows. find j rows ≡ some x) e fx)) [
      | inl (n, was) ↦ was
      | inr (y, same, was, w) ↦ absurd (ground (arith, same, was, w, fr, fr', end))
    ]

Step-unexpired :
    (s t : Registry) (i : String) (r : Request)
    → Step s t
    → find i t.requests ≡ some r
    → r.state ≡ ApprovalState.expired
    → find i s.requests ≡ some r
Step-unexpired s t i r (stays e) fr end = ground (arith, e, fr)
Step-unexpired s t i r (opens x rows pending sorted ins e) fr end =
    elim (find-insert_cases x s.requests i ins
      (subst (λ (y : Registry). find i y.requests ≡ some r) e fr)) [
        | inl (k, w) ↦ absurd (ground (arith, w, pending, end))
        | inr was ↦ was
      ]
Step-unexpired s t i r (votes id x d fx pending mine member new e outcome) fr end =
    Outcome-unexpired id x d s.decisions s.requests t.requests outcome fx i r fr end
Step-unexpired s t i r (uses id x fx approved e) fr end =
    elim (find-update_cases id i (set_state ApprovalState.consumed is_approved) s.requests
      (λ y. ground arith) (subst (λ (y : Registry). find i y.requests ≡ some r) e fr)) [
        | inl (n, was) ↦ was
        | inr (y, same, was, w) ↦ absurd (ground (arith, w, end))
      ]

-- A request that is expired after some calls was expired, and the same, before them: no call ever
-- brings a request into the state EXPIRED.
pub run_unexpired :
    (s : Registry) (cs : List Call) (i : String) (r : Request)
    → find i (run s cs).requests ≡ some r
    → r.state ≡ ApprovalState.expired
    → find i s.requests ≡ some r
unfolding run
run_unexpired s [] i r fr end = fr
run_unexpired s (c ∷ cs) i r fr end =
    Step-unexpired s (after s c) i r (after-Step s c) (run_unexpired (after s c) cs i r fr end) end

pub same_list_refl : (xs : List String) → same_list xs xs ≡ true
unfolding same_list
same_list_refl [] = refl
same_list_refl (x ∷ xs) = ground (arith, same_list_refl xs)

same_create_new :
    (fresh : String) (now : ℕ) (c : CreateRequest) → same_create (new_request fresh now c) c ≡ true
unfolding same_create new_request
same_create_new fresh now c = ground (arith, same_list_refl c.required)

load_new :
    (fresh : String) (now : ℕ) (c : CreateRequest) (rs ts : List Request)
    → insert (new_request fresh now c) rs ≡ some ts
    → load_by_subject_digest c.subject_kind c.subject c.digest ts ≡ some (new_request fresh now c)
unfolding load_by_subject_digest insert new_request
load_new fresh now c rs ts ins = ground arith

validate_create_any :
    (now : ℕ) (q : CreateRequest) (s u t : Registry) (c : CreateRequest)
    → validate_create now q s ≡ ok (c, u)
    → (u ≡ s) × (validate_create now q t ≡ ok (c, t))
unfolding validate_create
validate_create_any now q s u t c h = ground arith

-- A request that has been answered, made again at the same time under another fresh identifier, is answered with the request of the
-- first call and changes nothing.
pub create_again :
    (fresh fresh' : String) (now : ℕ) (q : CreateRequest) (s t : Registry) (r : Request)
    → create_in_tx fresh now q s ≡ ok (r, t)
    → create_in_tx fresh' now q t ≡ ok (r, t)
unfolding create_in_tx
create_again fresh fresh' now q s t r h = elim (Result-cases (validate_create now q s)) [
  | inr (e, v) ↦ absurd (ground (arith, v, h))
  | inl (c, u, v) ↦
      let (same, v') = validate_create_any now q s u t c v in
      elim (Option-cases (load_by_subject_digest c.subject_kind c.subject c.digest s.requests)) [
        | inl none_ ↦ elim (Option-cases (insert (new_request fresh now c) s.requests)) [
          | inl clash ↦ absurd (ground (arith, v, h, same, none_, clash))
          | inr (rows, ins) ↦ ground (
            arith,
            v,
            v',
            h,
            same,
            none_,
            ins,
            load_new fresh now c s.requests rows ins,
            same_create_new fresh now c,
          )
        ]
        | inr (old, found) ↦ ground (arith, v, v', h, same, found)
      ]
]
