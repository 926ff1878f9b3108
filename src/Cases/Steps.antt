-- ===== src/Cases/Steps.antt =====
-- internal/workflowcase: the effect of each transaction on the cases.
use meeseek_collective.Common.{
  true, false, ◌≡◌, refl, sym, ap, subst, ◌⊎◌, inl, inr, Option, none, some, String, arith,
  Option-cases,
}
use meeseek_collective.Common.Int.{pos, ◌≤ℤ◌, leb_ℤ}
use meeseek_collective.Common.Rows.{find, update, insert, find-key, KeepsKey}
use meeseek_collective.Common.Result.{ok, lift, Result-cases}
use meeseek_collective.Workflow.{Outcome, WorkProposal, Decision}
use meeseek_collective.Workflow.Authority.{Within, decide-IsAllowed}
use meeseek_collective.Cases.{
  Observation, CaseState, Case, AssessmentRequest, AssessmentResult, Board, Encoding, case_key,
  assessment_key, verification_key, is_active_case, require_mission,
}
use meeseek_collective.Cases.Observe.{
  is_continue, decide_first, first_case, prepare_observation, insert_case, ensure_row, ensure_tx,
  ensure, find_revision,
}
use meeseek_collective.Cases.Verify.{finish_case}
use meeseek_collective.Cases.Assess.{
  StepDraws, find_assessment, replay_assessment, decide_step, proposal_of, advance,
  insert_assessment, check_step, record_step, assess_new, assess_stored, assess,
}

-- The work of a case that goes on lies within its grant, and a step and some budget are left for it.
pub record IsLive (c : Case) : Type 0 where
  pub steps : leb_ℤ c.max_steps (pos c.completed_steps) ≡ false
  pub budget : leb_ℤ c.remaining_budget (pos 0) ≡ false
  pub granted : Within c.next_work.authority_ceiling c.grant.capabilities
  pub needed : Within c.next_work.required_capabilities c.next_work.authority_ceiling
  pub acts : Within c.next_work.proposed_actions c.grant.actions

pub record IsSoundCase (c : Case) : Type 0 where
  pub live : c.state ≡ CaseState.active → IsLive c
  pub idle : is_active_case c.state ≡ false → c.current_work ≡ ""

continued_lem : (x : Outcome) → is_continue x ≡ true → x ≡ Outcome.continue
continued_lem Outcome.ready h = absurd (ground (arith, h))
continued_lem Outcome.continue h = refl
continued_lem Outcome.blocked h = absurd (ground (arith, h))

-- The first case of an observation.
first_case-IsSoundCase :
    (e : Encoding) (fresh work : String) (o : Observation) (d : Decision)
    → decide_first o ≡ ok d
    → is_continue d.outcome ≡ true
    → IsSoundCase (first_case e fresh work o)
unfolding decide_first first_case
first_case-IsSoundCase e fresh work o d h c =
    let (next, dn, an, allowed, within) = decide-IsAllowed _ d h (continued_lem d.outcome c) in
    let same : o.first_work ≡ next = ground (arith, an) in
    record {
      live = λ active. record {
        steps = allowed.steps;
        budget = allowed.budget;
        granted =
            subst (λ (w : WorkProposal). Within w.authority_ceiling o.grant.capabilities) (sym same)
              allowed.granted;
        needed =
            subst (λ (w : WorkProposal). Within w.required_capabilities w.authority_ceiling)
              (sym same) allowed.needed;
        acts =
            subst (λ (w : WorkProposal). Within w.proposed_actions o.grant.actions) (sym same)
              allowed.acts;
      };
      idle = λ h. absurd (ground (arith, h));
    }

-- The step of a case that is assessed.
pub record Advanced (w : StepDraws) (r : AssessmentRequest) (c : Case) (d : Decision) : Type 0 where
  pub active : c.state ≡ CaseState.active
  pub work : c.current_work ≡ r.work
  pub nonnegative : pos 0 ≤ℤ r.remaining_budget
  pub budget : r.remaining_budget ≤ℤ c.remaining_budget
  pub decided : decide_step c r ≡ ok d

pub advance-IsSoundCase :
    (fresh : String) (r : AssessmentRequest) (d : Decision) (c : Case)
    → decide_step c r ≡ ok d
    → IsSoundCase (advance fresh r d d.outcome c)
unfolding decide_step advance
advance-IsSoundCase fresh r d c h = go d.outcome refl
  where
    go : (x : Outcome) → d.outcome ≡ x → IsSoundCase (advance fresh r d x c)
    go Outcome.continue e =
        let (next, dn, an, allowed, within) = decide-IsAllowed _ d h e in
        let same : proposal_of d.next ≡ next = ap proposal_of dn in
        record {
          live = λ active. record {
            steps = allowed.steps;
            budget = allowed.budget;
            granted =
                subst (λ (w : WorkProposal). Within w.authority_ceiling c.grant.capabilities)
                  (sym same) allowed.granted;
            needed =
                subst (λ (w : WorkProposal). Within w.required_capabilities w.authority_ceiling)
                  (sym same) allowed.needed;
            acts =
                subst (λ (w : WorkProposal). Within w.proposed_actions c.grant.actions) (sym same)
                  allowed.acts;
          };
          idle = λ h. absurd (ground (arith, h));
        }
    go Outcome.blocked e = record { live = λ active. absurd (cc); idle = λ h. refl }
    go Outcome.ready e = record { live = λ active. absurd (cc); idle = λ h. refl }

-- One transition of a case.
pub data Move (c : Case) : Case → Type 0 where
  assessed :
      (w : StepDraws) (r : AssessmentRequest) (d : Decision)
      → Advanced w r c d
      → Move c (advance w.work r d d.outcome c)
  finished :
      (target : CaseState)
      → c.state ≡ CaseState.ready_for_verification
      → (target ≡ CaseState.closed) ⊎ (target ≡ CaseState.blocked)
      → Move c (finish_case target c)

-- The effect of a transaction on the cases: none, a first case, or one transition of one case.
pub data Step (s t : Board) : Type 0 where
  stays : t.cases ≡ s.cases → Step s t
  opens : (c : Case) → IsSoundCase c → insert c s.cases ≡ some t.cases → Step s t
  moves :
      (id : String) (c : Case) (f : Case → Case)
      → find id s.cases ≡ some c
      → KeepsKey f
      → Move c (f c)
      → t.cases ≡ update id f s.cases
      → Step s t

pub mission_stays :
    (mission : String) (s t : Board) → require_mission mission s ≡ ok (tt, t) → t ≡ s
mission_stays mission s t h = ground arith

pub prepared_cases :
    (e : Encoding) (fresh work : String) (o : Observation) (s t : Board) (c : Case)
    → prepare_observation e fresh work o s ≡ ok (c, t)
    → (t ≡ s) × IsSoundCase c
unfolding prepare_observation
prepared_cases e fresh work o s t c h = elim (Result-cases (lift (decide_first o) s)) [
  | inr (x, bad) ↦ absurd (ground (arith, bad, h))
  | inl (d, u, decided) ↦
      let fine : decide_first o ≡ ok d = ground (arith, decided) in
      let own : c ≡ first_case e fresh work o = ground (arith, decided, h) in
      (
        ground (arith, decided, h),
        subst IsSoundCase (sym own)
            (first_case-IsSoundCase e fresh work o d fine (ground (arith, decided, h))),
      )
]

ensured_row :
    (c x : Case) (old : Option Case) (s t : Board)
    → IsSoundCase c
    → ensure_row c old s ≡ ok (x, t)
    → Step s t
unfolding ensure_row insert_case
ensured_row c x (some old) s t v h = stays (ground (arith, h))
ensured_row c x none s t v h = elim (Option-cases (insert c s.cases)) [
  | inl e ↦ absurd (ground (arith, e, h))
  | inr (rows, e) ↦ opens c v (ground (arith, e, h))
]

pub ensure_tx-Step :
    (c x : Case) (s t : Board) → IsSoundCase c → ensure_tx c s ≡ ok (x, t) → Step s t
unfolding ensure_tx
ensure_tx-Step c x s t v h = elim (Result-cases (require_mission c.mission s)) [
  | inr (e, bad) ↦ absurd (ground (arith, bad, h))
  | inl (_, u, stands) ↦
      ensured_row c x (find_revision c.mission c.source c.object c.revision s.cases) s t v
        (ground (arith, stands, mission_stays c.mission s u stands, h))
]

pub ensure-Step :
    (e : Encoding) (fresh work : String) (o : Observation) (s t : Board) (x : Case)
    → ensure e fresh work o s ≡ ok (x, t)
    → Step s t
unfolding ensure
ensure-Step e fresh work o s t x h = elim (Result-cases (prepare_observation e fresh work o s)) [
  | inr (bad, failed) ↦ absurd (ground (arith, failed, h))
  | inl (c, u, prepared) ↦
      let (same, v) = prepared_cases e fresh work o s u c prepared in
      ensure_tx-Step c x s t v (ground (arith, prepared, same, h))
]

checked_cases :
    (w : StepDraws) (r : AssessmentRequest) (c : Case) (d : Decision) (s t : Board)
    → check_step r c s ≡ ok (d, t)
    → (t ≡ s) × Advanced w r c d
unfolding check_step
checked_cases w r c d s t h = elim (Result-cases (require_mission c.mission s)) [
  | inr (e, bad) ↦ absurd (ground (arith, bad, h))
  | inl (_, u, stands) ↦
      let same = mission_stays c.mission s u stands in
      (
        ground (arith, stands, same, h),
        record {
          active = ground (arith, stands, same, h);
          work = ground (arith, stands, same, h);
          nonnegative = ground (arith, stands, same, h);
          budget = ground (arith, stands, same, h);
          decided = ground (arith, stands, same, h);
        },
      )
]

recorded_cases :
    (e : Encoding) (w : StepDraws) (r : AssessmentRequest) (c : Case) (d : Decision) (s t : Board)
    (x : AssessmentResult)
    → record_step e w r c d s ≡ ok (x, t)
    → t.cases ≡ update c.id (advance w.work r d d.outcome) s.cases
unfolding record_step insert_assessment
recorded_cases e w r c d s t x h = ground arith

advance-KeepsKey :
    (fresh : String) (r : AssessmentRequest) (d : Decision) (x : Outcome)
    → KeepsKey (advance fresh r d x)
unfolding advance
advance-KeepsKey fresh r d Outcome.continue c = refl
advance-KeepsKey fresh r d Outcome.blocked c = refl
advance-KeepsKey fresh r d Outcome.ready c = refl

assess_new-Step :
    (e : Encoding) (w : StepDraws) (r : AssessmentRequest) (s t : Board) (x : AssessmentResult)
    → assess_new e w r s ≡ ok (x, t)
    → Step s t
unfolding assess_new
assess_new-Step e w r s t x h = elim (Option-cases (find r.subject s.cases)) [
  | inl missing ↦ absurd (ground (arith, missing, h))
  | inr (c, fc) ↦ elim (Result-cases (check_step r c s)) [
    | inr (bad, failed) ↦ absurd (ground (arith, fc, failed, h))
    | inl (d, u, checked) ↦
        let (same, v) = checked_cases w r c d s u checked in
        let rows = recorded_cases e w r c d s t x (ground (arith, fc, checked, same, h)) in
        moves r.subject c (advance w.work r d d.outcome) fc (advance-KeepsKey w.work r d d.outcome)
          (assessed w r d v) (ground (arith, rows, find-key r.subject s.cases {r = c} fc))
  ]
]

pub assess-Step :
    (e : Encoding) (w : StepDraws) (r : AssessmentRequest) (s t : Board) (x : AssessmentResult)
    → assess e w r s ≡ ok (x, t)
    → Step s t
unfolding assess assess_stored replay_assessment
assess-Step e w r s t x h = elim (Option-cases (find_assessment r.subject r.work s.assessments)) [
  | inl new ↦ assess_new-Step e w r s t x (ground (arith, new, h))
  | inr (a, old) ↦ stays (ground (arith, old, h))
]
