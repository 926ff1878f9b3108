-- ===== src/Execution/Child.antt =====
-- CreateChildTask of internal/execution/service.go: the request of a child against its parent.
use meeseek_collective.Common.{
  ℕ, if◌then◌else◌, ◌≤◌, ◌≡◌, ◌≢◌, sym, subst, inl, inr, true, false, ◌&&◌, not, List, [], ◌∷◌,
  String, ◌==◌, arith, ltb, nat_eq, if_cases,
}
use meeseek_collective.Common.Sets.{has_string, normalize}
use meeseek_collective.Common.Result.{ok, Result-cases}
use meeseek_collective.Domain.{EnforcementLevel}
use meeseek_collective.Execution.State.{Task, Store, task_key}
use meeseek_collective.Execution.Intake.{
  TaskRequest, all_in, is_empty, inherit_list, inherit_level, inherit_time, enforcement_rank,
  is_blank_level, check_child_authority, check_child_terms, check_child_window, inherit,
  child_request,
}

-- A set of texts that lies in another.
abbrev pub IsWithin : List String → List String → Type 0
IsWithin xs set = (x : String) → has_string xs x ≡ true → has_string set x ≡ true

all_in-IsWithin : (set xs : List String) → all_in set xs ≡ true → IsWithin xs set
unfolding all_in has_string
all_in-IsWithin set [] h x m = absurd (cc)
all_in-IsWithin set (y ∷ xs) h x m =
    let (first, rest) = both in
    elim (if_cases (y == x) m) [
      | inl (same, e) ↦ ground (arith, first, same)
      | inr (other, e) ↦ all_in-IsWithin set xs rest x e
    ]
  where
    both : (has_string set y ≡ true) × (all_in set xs ≡ true)
    both = ground (arith, h)

-- What a child takes from its parent and may only narrow.
pub record IsNarrower (p : Task) (r : TaskRequest) : Type 0 where
  pub requires : IsWithin r.required_capabilities r.authority_ceiling
  pub ceiling : IsWithin r.authority_ceiling p.authority_ceiling
  pub envelope : r.resource_envelope ≡ p.resource_envelope
  pub enforcement :
      enforcement_rank p.required_enforcement ≤ enforcement_rank r.required_enforcement
  pub not_before : p.earliest_start ≤ r.earliest_start
  pub not_after : p.deadline ≢ 0 → (r.deadline ≢ 0) × (r.deadline ≤ p.deadline)

inherited-IsWithin :
    (xs set : List String)
    → (not (is_empty xs) && not (all_in set (inherit_list xs set))) ≡ false
    → IsWithin (inherit_list xs set) set
unfolding inherit_list is_empty
inherited-IsWithin [] set h = λ x m. m
inherited-IsWithin (y ∷ xs) set h = all_in-IsWithin set (normalize (y ∷ xs)) (ground arith)

inherited_rank :
    (own above : EnforcementLevel)
    → (not (is_blank_level own) && ltb (enforcement_rank own) (enforcement_rank above)) ≡ false
    → enforcement_rank above ≤ enforcement_rank (inherit_level own above)
unfolding inherit_level
inherited_rank own above h = ground arith

inherited_start :
    (own above : ℕ)
    → (not (nat_eq own 0) && (not (nat_eq above 0) && ltb own above)) ≡ false
    → above ≤ inherit_time own above
unfolding inherit_time
inherited_start own above h = ground arith

inherited_deadline :
    (own above : ℕ)
    → (not (nat_eq own 0) && (not (nat_eq above 0) && ltb above own)) ≡ false
    → above ≢ 0
    → (inherit_time own above ≢ 0) × (inherit_time own above ≤ above)
unfolding inherit_time
inherited_deadline own above h n = ground arith

pub authority_cases :
    (p : Task) (q : TaskRequest) (s t : Store)
    → check_child_authority p q s ≡ ok (tt, t)
    → (t ≡ s)
      × (all_in
            (inherit_list q.authority_ceiling p.authority_ceiling)
            (normalize q.required_capabilities)
          ≡ true)
      × ((not (is_empty q.authority_ceiling)
            && not
                (all_in p.authority_ceiling (inherit_list q.authority_ceiling p.authority_ceiling)))
          ≡ false)
unfolding check_child_authority
authority_cases p q s t h = ground arith

pub terms_cases :
    (p : Task) (q : TaskRequest) (s t : Store)
    → check_child_terms p q s ≡ ok (tt, t)
    → (t ≡ s)
      × ((if q.resource_envelope == "" then p.resource_envelope else q.resource_envelope)
          ≡ p.resource_envelope)
      × ((not (is_blank_level q.required_enforcement)
            && ltb
                (enforcement_rank q.required_enforcement)
                (enforcement_rank p.required_enforcement))
          ≡ false)
unfolding check_child_terms
terms_cases p q s t h = ground arith

pub window_cases :
    (p : Task) (q : TaskRequest) (s t : Store)
    → check_child_window p q s ≡ ok (tt, t)
    → (t ≡ s)
      × ((not (nat_eq q.earliest_start 0)
            && (not (nat_eq p.earliest_start 0) && ltb q.earliest_start p.earliest_start))
          ≡ false)
      × ((not (nat_eq q.deadline 0) && (not (nat_eq p.deadline 0) && ltb p.deadline q.deadline))
          ≡ false)
unfolding check_child_window
window_cases p q s t h = ground arith

pub child_request_cases :
    (p : Task) (q r : TaskRequest) (s t : Store)
    → child_request p q s ≡ ok (r, t)
    → (u v w : Store) × (check_child_authority p q s ≡ ok (tt, u))
      × (check_child_terms p q u ≡ ok (tt, v))
      × (check_child_window p q v ≡ ok (tt, w))
      × (r ≡ inherit p q)
unfolding child_request
child_request_cases p q r s t h = elim (Result-cases (check_child_authority p q s)) [
  | inr (e, a) ↦ absurd (ground (arith, a, h))
  | inl (_, u, a) ↦ elim (Result-cases (check_child_terms p q u)) [
    | inr (e, b) ↦ absurd (ground (arith, a, b, h))
    | inl (_, v, b) ↦ elim (Result-cases (check_child_window p q v)) [
      | inr (e, c) ↦ absurd (ground (arith, a, b, c, h))
      | inl (_, w, c) ↦ (u, v, w, a, b, c, ground (arith, a, b, c, h))
    ]
  ]
]

inherit-IsNarrower :
    (p : Task) (q : TaskRequest) (s u v w : Store)
    → check_child_authority p q s ≡ ok (tt, u)
    → check_child_terms p q u ≡ ok (tt, v)
    → check_child_window p q v ≡ ok (tt, w)
    → IsNarrower p (inherit p q)
unfolding inherit
inherit-IsNarrower p q s u v w a b c =
    let (_, required, ceiling) = authority_cases p q s u a in
    let (_, envelope, level) = terms_cases p q u v b in
    let (_, start, deadline) = window_cases p q v w c in
    record {
      requires =
          all_in-IsWithin (inherit_list q.authority_ceiling p.authority_ceiling)
            (normalize q.required_capabilities) required;
      ceiling = inherited-IsWithin q.authority_ceiling p.authority_ceiling ceiling;
      envelope = envelope;
      enforcement = inherited_rank q.required_enforcement p.required_enforcement level;
      not_before = inherited_start q.earliest_start p.earliest_start start;
      not_after = inherited_deadline q.deadline p.deadline deadline;
    }

-- Whatever a child asks for, if its request is accepted, its ceiling lies in its parent's and its
-- required capabilities in its ceiling, it has the parent's envelope, an enforcement as strong, and a
-- time window inside the parent's.
pub child_request-IsNarrower :
    (p : Task) (q r : TaskRequest) (s t : Store) → child_request p q s ≡ ok (r, t) → IsNarrower p r
child_request-IsNarrower p q r s t h =
    let (u, v, w, a, b, c, e) = child_request_cases p q r s t h in
    subst (IsNarrower p) (sym e) (inherit-IsNarrower p q s u v w a b c)
