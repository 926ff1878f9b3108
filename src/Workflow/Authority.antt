-- ===== src/Workflow/Authority.antt =====
-- Decide of internal/workflow/decision.go against an independent description of allowed work.
use meeseek_collective.Common.{
  ◌≡◌, ◌≢◌, refl, ◌⊎◌, true, false, none, some, List, [], ◌∷◌, String, ◌==◌, arith,
}
use meeseek_collective.Common.Int.{pos, ◌≤ℤ◌, leb_ℤ}
use meeseek_collective.Common.Sets.{has_string}
use meeseek_collective.Common.Text.{trim_space}
use meeseek_collective.Common.Result.{ok}
use meeseek_collective.Workflow.{
  Verdict, Outcome, WorkProposal, Input, Decision, is_subset, decide, has_evidence, some_blank,
}

-- Every element of one list is an element of another.
abbrev pub Within : List String → List String → Type 0
Within xs ys = (x : String) → has_string xs x ≡ true → has_string ys x ≡ true

is_subset-has_string :
    (xs ys : List String) (x : String)
    → is_subset xs ys ≡ true
    → has_string xs x ≡ true
    → has_string ys x ≡ true
unfolding is_subset has_string
is_subset-has_string [] ys x h m = absurd (cc)
is_subset-has_string (y ∷ xs) ys x h m = ground (arith, is_subset-has_string xs ys x)

has_string-head : (x : String) (xs : List String) → has_string (x ∷ xs) x ≡ true
unfolding has_string
has_string-head x xs = ground arith

has_string-tail :
    (x y : String) (xs : List String) → has_string xs x ≡ true → has_string (y ∷ xs) x ≡ true
unfolding has_string
has_string-tail x y xs h = ground arith

Within-is_subset : (xs ys : List String) → Within xs ys → is_subset xs ys ≡ true
unfolding is_subset
Within-is_subset [] ys h = refl
Within-is_subset (x ∷ xs) ys h = ground (
  arith,
  h x (has_string-head x xs),
  Within-is_subset xs ys (λ y m. h y (has_string-tail y x xs m)),
)

-- Work that a case may go on with: it has a kind, its authority lies within the grant, what it needs
-- lies within its authority, its actions are granted, a step and some budget are left, and the last
-- step made progress.
pub record IsAllowed (input : Input) (next : WorkProposal) : Type 0 where
  pub named : (trim_space next.kind == "") ≡ false
  pub granted : Within next.authority_ceiling input.grant.capabilities
  pub needed : Within next.required_capabilities next.authority_ceiling
  pub acts : Within next.proposed_actions input.grant.actions
  pub steps : leb_ℤ input.limits.max_steps input.completed_steps ≡ false
  pub budget : leb_ℤ input.limits.remaining_budget (pos 0) ≡ false
  pub progress :
      (input.progress_signature ≡ "")
      ⊎ (input.progress_signature ≢ input.previous_progress_signature)

decide_continues :
    (input : Input) (d : Decision)
    → decide input ≡ ok d
    → d.outcome ≡ Outcome.continue
    → (next : WorkProposal) × (d.next ≡ some next)
      × (input.assessment.next ≡ some next)
      × ((trim_space next.kind == "") ≡ false)
      × (is_subset next.authority_ceiling input.grant.capabilities ≡ true)
      × (is_subset next.required_capabilities next.authority_ceiling ≡ true)
      × (is_subset next.proposed_actions input.grant.actions ≡ true)
      × (leb_ℤ input.limits.max_steps input.completed_steps ≡ false)
      × (leb_ℤ input.limits.remaining_budget (pos 0) ≡ false)
      × ((input.progress_signature ≡ "")
          ⊎ (input.progress_signature ≢ input.previous_progress_signature))
unfolding decide
decide_continues input d h c = ground arith

-- A decision to continue hands on the proposed work, and that work is allowed: in particular all it
-- needs lies within the capabilities of the grant.
pub decide-IsAllowed :
    (input : Input) (d : Decision)
    → decide input ≡ ok d
    → d.outcome ≡ Outcome.continue
    → (next : WorkProposal) × (d.next ≡ some next)
      × (input.assessment.next ≡ some next)
      × IsAllowed input next
      × Within next.required_capabilities input.grant.capabilities
decide-IsAllowed input d h c =
    let (next, dn, an, k, g, n, a, s, b, p) = decide_continues input d h c in
    (
      next,
      dn,
      an,
      record {
        named = k;
        granted = λ x. is_subset-has_string next.authority_ceiling input.grant.capabilities x g;
        needed = λ x. is_subset-has_string next.required_capabilities next.authority_ceiling x n;
        acts = λ x. is_subset-has_string next.proposed_actions input.grant.actions x a;
        steps = s;
        budget = b;
        progress = p;
      },
      λ x m.
          is_subset-has_string next.authority_ceiling input.grant.capabilities x g
            (is_subset-has_string next.required_capabilities next.authority_ceiling x n m),
    )

-- Allowed work that an assessment with evidence asks to continue with is continued, as proposed.
pub IsAllowed-decide :
    (input : Input) (next : WorkProposal)
    → has_evidence input.assessment.evidence_ids ≡ true
    → some_blank input.assessment.evidence_ids ≡ false
    → input.assessment.verdict ≡ Verdict.continue
    → input.assessment.next ≡ some next
    → IsAllowed input next
    → decide input
      ≡ ok (record {
        outcome = Outcome.continue;
        reason = input.assessment.reason;
        next = some next;
      })
unfolding decide
IsAllowed-decide input next e b v n a = ground (
  arith,
  Within-is_subset next.authority_ceiling input.grant.capabilities a.granted,
  Within-is_subset next.required_capabilities next.authority_ceiling a.needed,
  Within-is_subset next.proposed_actions input.grant.actions a.acts,
)

-- Whatever the assessment says, once the steps or the budget are used up no decision continues.
decide_exhausted :
    (input : Input) (d : Decision)
    → decide input ≡ ok d
    → (input.limits.max_steps ≤ℤ input.completed_steps) ⊎ (input.limits.remaining_budget ≤ℤ pos 0)
    → (d.outcome ≢ Outcome.continue) × (d.next ≡ none)
unfolding decide
decide_exhausted input d h x = ground arith
