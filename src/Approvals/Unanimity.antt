-- ===== src/Approvals/Unanimity.antt =====
-- internal/approvals/service.go: the invariant that relates requests to decisions, and one vote.
use meeseek_collective.Common.{
  ◌≡◌, ◌≢◌, refl, sym, subst, ◌∙◌, ◌⊎◌, inl, inr, true, none, some, List, ◌∷◌, String, arith,
  length, string_dec,
}
use meeseek_collective.Common.Sets.{has_string, Distinct, IsSorted}
use meeseek_collective.Common.Rows.{count, find, find-update_cases, find_missing}
use meeseek_collective.Domain.{ApprovalState}
use meeseek_collective.Approvals.Requests.{
  Action, approve, reject, Request, Decision, Registry, request_key,
}
use meeseek_collective.Approvals.Decisions.{find_decision, approves}
use meeseek_collective.Approvals.Tally.{tally, tally-foreign, tally-approved, tally-rejected}
use meeseek_collective.Approvals.Steps.{Outcome, waits, grants, refuses}

abbrev pub IsGranted : ApprovalState → Type 0
IsGranted x = (x ≡ ApprovalState.approved) ⊎ (x ≡ ApprovalState.consumed)

-- What holds of the row of a request: the service's count is the count of approvers who approved,
-- and a granted request has them all.
pub record IsCounted (i : String) (r : Request) (ds : List Decision) : Type 0 where
  pub sorted : IsSorted r.required
  pub counted : count (approves i) ds ≡ tally i ds r.required
  pub granted : IsGranted r.state → count (approves i) ds ≡ length r.required

-- A request that is not there has no decisions.
pub record IsForeign (i : String) (ds : List Decision) : Type 0 where
  pub uncounted : count (approves i) ds ≡ 0
  pub untallied : (xs : List String) → tally i ds xs ≡ 0

pub record IsSound (s : Registry) : Type 0 where
  pub rows : (i : String) (r : Request) → find i s.requests ≡ some r → IsCounted i r s.decisions
  pub strangers : (i : String) → find i s.requests ≡ none → IsForeign i s.decisions

count-foreign :
    (i : String) (d : Decision) (ds : List Decision)
    → d.approval ≢ i
    → count (approves i) (d ∷ ds) ≡ count (approves i) ds
unfolding count
count-foreign i d ds n = ground arith

pub foreign-IsCounted :
    (i : String) (r : Request) (d : Decision) (ds : List Decision)
    → d.approval ≢ i
    → IsCounted i r ds
    → IsCounted i r (d ∷ ds)
foreign-IsCounted i r d ds n v = record {
  sorted = v.sorted;
  counted = count-foreign i d ds n ∙ v.counted ∙ sym (tally-foreign i d ds r.required n);
  granted = λ g. count-foreign i d ds n ∙ v.granted g;
}

pub kept-IsForeign :
    (i : String) (d : Decision) (ds : List Decision)
    → d.approval ≢ i
    → IsForeign i ds
    → IsForeign i (d ∷ ds)
kept-IsForeign i d ds n v = record {
  uncounted = count-foreign i d ds n ∙ v.uncounted;
  untallied = λ xs. tally-foreign i d ds xs n ∙ v.untallied xs;
}

-- The first decision of a required approver moves both counts alike.
pub vote_counted :
    (i : String) (d : Decision) (ds : List Decision) (xs : List String)
    → d.approval ≡ i
    → find_decision i d.approver ds ≡ none
    → Distinct xs
    → has_string xs d.approver ≡ true
    → count (approves i) ds ≡ tally i ds xs
    → count (approves i) (d ∷ ds) ≡ tally i (d ∷ ds) xs
unfolding count
vote_counted i d ds xs own new distinct member same = elim (action_cases d.action) [
  | inl e ↦ ground (arith, tally-approved i d ds xs own e new distinct member, same, own, e)
  | inr e ↦ ground (arith, tally-rejected i d ds xs own e new, same, own, e)
]
  where
    action_cases : (a : Action) → (a ≡ approve) ⊎ (a ≡ reject)
    action_cases approve = inl refl
    action_cases reject = inr refl

-- The rows after a vote: those of other requests as they were, and that of its own.
pub data Voted (id : String) (r : Request) (d : Decision) (ds : List Decision) (old : List Request)
    (j : String) (x : Request) : Type 0 where
  other : j ≢ id → find j old ≡ some x → Voted id r d ds old j x
  own :
      j ≡ id
      → x.required ≡ r.required
      → (IsGranted x.state → count (approves id) (d ∷ ds) ≡ length r.required)
      → Voted id r d ds old j x

pub Outcome-Voted :
    (id : String) (r : Request) (d : Decision) (ds : List Decision) (old new : List Request)
    → Outcome id r d ds old new
    → find id old ≡ some r
    → r.state ≡ ApprovalState.pending
    → (j : String) (x : Request) → find j new ≡ some x
    → Voted id r d ds old j x
Outcome-Voted id r d ds old new (waits act e) fr pending j x fx = elim (string_dec j id) [
  | no n ↦ other n (subst (λ rows. find j rows ≡ some x) e fx)
  | yes same ↦
      own same (ground (arith, e, same, fx, fr))
        (λ g. absurd (ground (arith, e, same, fx, fr, pending, g)))
]
Outcome-Voted id r d ds old new (grants f act full fr' keeps e) fr pending j x fx =
    elim (find-update_cases id j f old keeps (subst (λ rows. find j rows ≡ some x) e fx)) [
      | inl (n, was) ↦ other n was
      | inr (y, same, was, w) ↦ own same (ground (arith, same, was, w, fr, fr')) (λ g. full)
    ]
Outcome-Voted id r d ds old new (refuses f act fr' keeps e) fr pending j x fx =
    elim (find-update_cases id j f old keeps (subst (λ rows. find j rows ≡ some x) e fx)) [
      | inl (n, was) ↦ other n was
      | inr (y, same, was, w) ↦
          own same (ground (arith, same, was, w, fr, fr'))
            (λ g. absurd (ground (arith, same, was, w, fr, fr', g)))
    ]

pub voted_missing :
    (id : String) (r : Request) (d : Decision) (ds : List Decision) (old new : List Request)
    → Outcome id r d ds old new
    → (j : String) → find j new ≡ none
    → find j old ≡ none
voted_missing id r d ds old new (waits act e) j h = subst (λ rows. find j rows ≡ none) e h
voted_missing id r d ds old new (grants f act full fr' keeps e) j h =
    find_missing id j f old keeps (subst (λ rows. find j rows ≡ none) e h)
voted_missing id r d ds old new (refuses f act fr' keeps e) j h =
    find_missing id j f old keeps (subst (λ rows. find j rows ≡ none) e h)
