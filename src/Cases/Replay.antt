-- ===== src/Cases/Replay.antt =====
-- internal/workflowcase: transactions that are repeated, and those of a mission that has ended.
use meeseek_collective.Common.{
  ℕ, ◌≡◌, refl, sym, ap, subst, ◌∙◌, inl, inr, Option, none, some, List, String, arith,
  Option-cases,
}
use meeseek_collective.Common.Rows.{find, insert, find-update_self}
use meeseek_collective.Common.Result.{invalid_purpose, Error, ok, err, Result-cases}
use meeseek_collective.Approvals.Lifecycle.{same_list_refl}
use meeseek_collective.Purpose.Missions.{IsEnded, IsEnded-validate_purpose}
use meeseek_collective.Cases.{
  Observation, CaseState, Case, AssessmentRequest, Verification, Board, Encoding, case_key,
  verification_key, require_mission,
}
use meeseek_collective.Cases.Observe.{prepare_observation, first_case, ensure_tx, ensure}
use meeseek_collective.Cases.Assess.{
  StepDraws, find_assessment, check_step, assess_new, assess_stored, assess,
}
use meeseek_collective.Cases.Verify.{
  VerificationRequest, verification_of, require_evidence, insert_verification, finish_case,
  conclude_case, compare_verification, new_verification, close_new, close_or_replay, close_in_tx,
  reject_in_tx,
}
use meeseek_collective.Cases.Steps.{mission_stays}
use meeseek_collective.Cases.Endings.{concluded_cases, evidence_stays}

compare_own :
    (fresh : String) (now : ℕ) (r : VerificationRequest)
    → compare_verification r (new_verification fresh now r) ≡ ok (new_verification fresh now r)
unfolding compare_verification new_verification
compare_own fresh now r = ground (arith, same_list_refl r.evidence)

inserted_cases :
    (v : Verification) (s t : Board)
    → insert_verification v s ≡ ok (tt, t)
    → (verification_of v.subject t.verifications ≡ some v)
      × (t.cases ≡ s.cases)
      × (t.purposes ≡ s.purposes)
unfolding insert_verification insert verification_of
inserted_cases v s t h = ground arith

concluded_row :
    (target : CaseState) (v x : Verification) (c : Case) (s t : Board)
    → find v.subject s.cases ≡ some c
    → conclude_case target v s ≡ ok (x, t)
    → (x ≡ v)
      × (verification_of v.subject t.verifications ≡ some v)
      × (find v.subject t.cases ≡ some (finish_case target c))
      × (t.purposes ≡ s.purposes)
unfolding conclude_case
concluded_row target v x c s t fc h = elim (Result-cases (insert_verification v s)) [
  | inr (e, bad) ↦ absurd (ground (arith, bad, h))
  | inl (_, u, stored) ↦
      let (own, cases, purposes) = inserted_cases v s u stored in
      (
        ground (arith, stored, h),
        ground (arith, stored, own, h),
        ap (find v.subject) (concluded_cases target v x s t h)
            ∙ find-update_self v.subject (finish_case target) s.cases (λ y. ground arith) fc,
        ground (arith, stored, purposes, h),
      )
]

-- A case that has a verification which agrees with the request, under a mission that stands.
record IsClosedBy (r : VerificationRequest) (v : Verification) (t : Board) : Type 0 where
  owner : Case
  row : find r.subject t.cases ≡ some owner
  stands : require_mission owner.mission t ≡ ok (tt, t)
  stored : verification_of r.subject t.verifications ≡ some v
  agrees : compare_verification r v ≡ ok v

closed_again :
    (fresh : String) (now : ℕ) (r : VerificationRequest) (v : Verification) (t : Board)
    → IsClosedBy r v t
    → close_in_tx fresh now r t ≡ ok (v, t)
unfolding close_in_tx close_or_replay
closed_again fresh now r v t k = ground (arith, k.row, k.stands, k.stored, k.agrees)

stands_still :
    (mission : String) (s t : Board)
    → t.purposes ≡ s.purposes
    → require_mission mission s ≡ ok (tt, s)
    → require_mission mission t ≡ ok (tt, t)
stands_still mission s t e h = ground arith

closed_cases :
    (fresh : String) (now : ℕ) (r : VerificationRequest) (c : Case) (s t : Board) (v : Verification)
    → find r.subject s.cases ≡ some c
    → require_mission c.mission s ≡ ok (tt, s)
    → close_new fresh now r c s ≡ ok (v, t)
    → IsClosedBy r v t
unfolding close_new new_verification
closed_cases fresh now r c s t v fc stands h = elim (Result-cases (require_evidence r.evidence s)) [
  | inr (e, bad) ↦ absurd (ground (arith, bad, h))
  | inl (_, u, known) ↦
      let same = evidence_stays r.evidence s u known in
      let (own, stored, row, purposes) =
        concluded_row CaseState.closed (new_verification fresh now r) v c s t fc
          (ground (arith, known, same, h)) in
      record {
        owner = finish_case CaseState.closed c;
        row = row;
        stands = stands_still _ s t purposes (ground (arith, stands));
        stored = ground (arith, own, stored);
        agrees = subst (λ x. compare_verification r x ≡ ok x) (sym own) (compare_own fresh now r);
      }
]

found_again :
    (fresh : String) (now : ℕ) (r : VerificationRequest) (c : Case) (old : Option Verification)
    (s t : Board) (v : Verification)
    → find r.subject s.cases ≡ some c
    → require_mission c.mission s ≡ ok (tt, s)
    → verification_of r.subject s.verifications ≡ old
    → close_or_replay fresh now r c old s ≡ ok (v, t)
    → IsClosedBy r v t
unfolding close_or_replay compare_verification
found_again fresh now r c none s t v fc stands e h = closed_cases fresh now r c s t v fc stands h
found_again fresh now r c (some old) s t v fc stands e h =
    let same : t ≡ s = ground (arith, h) in
    subst (IsClosedBy r v) (sym same) (record {
      owner = c;
      row = fc;
      stands = stands;
      stored = ground (arith, e, h);
      agrees = ground (arith, h);
    })

-- A verification that has closed a case, asked for again, is answered with the same record and writes nothing.
pub close_in_tx_again :
    (fresh fresh' : String) (now later : ℕ) (r : VerificationRequest) (s t : Board)
    (v : Verification)
    → close_in_tx fresh now r s ≡ ok (v, t)
    → close_in_tx fresh' later r t ≡ ok (v, t)
unfolding close_in_tx
close_in_tx_again fresh fresh' now later r s t v h = elim (Option-cases (find r.subject s.cases)) [
  | inl missing ↦ absurd (ground (arith, missing, h))
  | inr (c, fc) ↦ elim (Result-cases (require_mission c.mission s)) [
    | inr (e, bad) ↦ absurd (ground (arith, fc, bad, h))
    | inl (_, u, stands) ↦
        let same = mission_stays c.mission s u stands in
        closed_again fresh' later r v t (
          found_again fresh now r c (verification_of r.subject s.verifications) s t v fc
            (ground (arith, stands, same)) refl (ground (arith, fc, stands, same, h)))
  ]
]

not_standing :
    (mission : String) (s : Board)
    → IsEnded mission s.purposes
    → require_mission mission s ≡ err invalid_purpose
not_standing mission s v = ground (arith, IsEnded-validate_purpose mission s.purposes v)

ensure_refused :
    (e : Encoding) (fresh work : String) (o : Observation) (s : Board)
    → IsEnded o.mission s.purposes
    → (x : Error) × (ensure e fresh work o s ≡ err x)
unfolding ensure ensure_tx prepare_observation first_case
ensure_refused e fresh work o s v =
    let ended = not_standing o.mission s v in
    elim (Result-cases (ensure e fresh work o s)) [
      | inr (x, h) ↦ (x, h)
      | inl (a, t, h) ↦ absurd (ground (arith, ended, h))
    ]

-- Under a mission that has ended no case is opened, and a case of it is neither assessed anew nor closed nor
-- rejected: each is an error.
pub IsEnded-refuses :
    (e : Encoding) (w : StepDraws) (r : AssessmentRequest) (q : VerificationRequest)
    (o : Observation) (fresh work reason : String) (now : ℕ) (evidence : List String) (c : Case)
    (s : Board)
    → IsEnded c.mission s.purposes
    → find r.subject s.cases ≡ some c
    → find_assessment r.subject r.work s.assessments ≡ none
    → q.subject ≡ r.subject
    → o.mission ≡ c.mission
    → ((x : Error) × (ensure e fresh work o s ≡ err x))
      × ((x : Error) × (assess e w r s ≡ err x))
      × (close_in_tx fresh now q s ≡ err invalid_purpose)
      × (reject_in_tx e fresh now r.subject reason evidence s ≡ err invalid_purpose)
unfolding assess assess_stored assess_new check_step close_in_tx reject_in_tx
IsEnded-refuses e w r q o fresh work reason now evidence c s v fc new same mission =
    let ended = not_standing c.mission s v in
    (
      ensure_refused e fresh work o s (subst (λ m. IsEnded m s.purposes) (sym mission) v),
      elim (Result-cases (assess e w r s)) [
        | inr (x, h) ↦ (x, h)
        | inl (a, t, h) ↦ absurd (ground (arith, fc, new, ended, h))
      ],
      ground (arith, fc, same, ended),
      ground (arith, fc, ended),
    )
