-- ===== src/Cases/Invariant.antt =====
-- internal/workflowcase: runs of the transactions on cases.
use meeseek_collective.Common.{
  ◌≤◌, Bool, true, false, ◌≡◌, refl, sym, ap, subst, ◌∙◌, ◌⊎◌, inl, inr, some, List, [], ◌∷◌,
  String, arith, string_dec,
}
use meeseek_collective.Common.Int.{◌≤ℤ◌}
use meeseek_collective.Common.Rows.{
  find, update, find-update_cases, find-insert_cases, find-insert_other, find-update_self,
  find-update_ne,
}
use meeseek_collective.Workflow.{Outcome, Decision}
use meeseek_collective.Cases.{CaseState, Case, AssessmentRequest, Board, case_key}
use meeseek_collective.Cases.Assess.{StepDraws, advance}
use meeseek_collective.Cases.Verify.{finish_case}
use meeseek_collective.Cases.Calls.{Call, after, run}
use meeseek_collective.Cases.Steps.{
  IsSoundCase, Advanced, advance-IsSoundCase, Move, assessed, finished, Step, stays, opens, moves,
}
use meeseek_collective.Cases.Endings.{after-Step}

pub record IsSoundBoard (s : Board) : Type 0 where
  pub rows : (i : String) (c : Case) → find i s.cases ≡ some c → IsSoundCase c

finish-IsSoundCase :
    (target : CaseState) (c : Case)
    → c.state ≡ CaseState.ready_for_verification
    → (target ≡ CaseState.closed) ⊎ (target ≡ CaseState.blocked)
    → IsSoundCase (finish_case target c)
finish-IsSoundCase target c e one = record {
  live = λ active. absurd (ground (arith, e, one, active));
  idle = λ h. ground (arith, e);
}

Move-IsSoundCase : {c d : Case} → Move c d → IsSoundCase d
Move-IsSoundCase {c} (assessed w r d v) = advance-IsSoundCase w.work r d c v.decided
Move-IsSoundCase {c} (finished target e one) = finish-IsSoundCase target c e one

Step-IsSoundBoard : (s t : Board) → Step s t → IsSoundBoard s → IsSoundBoard t
Step-IsSoundBoard s t (stays e) v = record { rows = λ i c f. v.rows i c (sym (ap (find i) e) ∙ f) }
Step-IsSoundBoard s t (opens c fine ins) v = record {
  rows = λ i x f. elim (find-insert_cases c s.cases i ins f) [
    | inl (k, same) ↦ subst IsSoundCase (sym same) fine
    | inr was ↦ v.rows i x was
  ];
}
Step-IsSoundBoard s t (moves id c f fc keeps m e) v = record {
  rows = λ i x fx. elim (find-update_cases id i f s.cases keeps (sym (ap (find i) e) ∙ fx)) [
    | inl (other, was) ↦ v.rows i x was
    | inr (y, k, was, own) ↦
        let same : y ≡ c = ground (arith, k, was, fc) in
        subst IsSoundCase (sym (own ∙ ap f same)) (Move-IsSoundCase m)
  ];
}

-- Whatever calls are made on a sound board, the work of an active case lies within its grant with a step and
-- some budget left for it, and a case that is not active has no work.
pub run-IsSoundBoard : (s : Board) (cs : List Call) → IsSoundBoard s → IsSoundBoard (run s cs)
unfolding run
run-IsSoundBoard s [] v = v
run-IsSoundBoard s (c ∷ cs) v =
    run-IsSoundBoard (after s c) cs (Step-IsSoundBoard s (after s c) (after-Step s c) v)

abbrev pub is_ended : CaseState → Bool
is_ended CaseState.closed = true
is_ended CaseState.blocked = true
is_ended _ = false

-- What becomes of a case: its mission, its grant and its limit stay, steps only go up, the budget only goes
-- down, and a case that has ended does not change.
pub record Succeeds (c d : Case) : Type 0 where
  pub mission : d.mission ≡ c.mission
  pub grant : d.grant ≡ c.grant
  pub max_steps : d.max_steps ≡ c.max_steps
  pub steps : c.completed_steps ≤ d.completed_steps
  pub budget : d.remaining_budget ≤ℤ c.remaining_budget
  pub ended : is_ended c.state ≡ true → d ≡ c

Succeeds-refl : (c : Case) → Succeeds c c
Succeeds-refl c = record {
  mission = refl;
  grant = refl;
  max_steps = refl;
  steps = omega arith;
  budget = omega arith;
  ended = λ h. refl;
}

Succeeds-trans : {c d e : Case} → Succeeds c d → Succeeds d e → Succeeds c e
Succeeds-trans {c} {d} {e} p q = record {
  mission = q.mission ∙ p.mission;
  grant = q.grant ∙ p.grant;
  max_steps = q.max_steps ∙ p.max_steps;
  steps = omega (arith, p.steps, q.steps);
  budget = omega (arith, p.budget, q.budget);
  ended = λ h.
      let same = p.ended h in
      q.ended (subst (λ (x : Case). is_ended x.state ≡ true) (sym same) h) ∙ same;
}

advance-Succeeds :
    (w : StepDraws) (r : AssessmentRequest) (c : Case) (d : Decision) (x : Outcome)
    → Advanced w r c d
    → Succeeds c (advance w.work r d x c)
unfolding advance
advance-Succeeds w r c d Outcome.continue v = record {
  mission = refl;
  grant = refl;
  max_steps = refl;
  steps = omega arith;
  budget = v.budget;
  ended = λ h. absurd (ground (arith, v.active, h));
}
advance-Succeeds w r c d Outcome.blocked v = record {
  mission = refl;
  grant = refl;
  max_steps = refl;
  steps = omega arith;
  budget = v.budget;
  ended = λ h. absurd (ground (arith, v.active, h));
}
advance-Succeeds w r c d Outcome.ready v = record {
  mission = refl;
  grant = refl;
  max_steps = refl;
  steps = omega arith;
  budget = v.budget;
  ended = λ h. absurd (ground (arith, v.active, h));
}

Move-Succeeds : {c d : Case} → Move c d → Succeeds c d
Move-Succeeds {c} (assessed w r d v) = advance-Succeeds w r c d d.outcome v
Move-Succeeds {c} (finished target e one) = record {
  mission = ground (arith, e);
  grant = ground (arith, e);
  max_steps = ground (arith, e);
  steps = ground (arith, e);
  budget = ground (arith, e);
  ended = λ h. absurd (ground (arith, e, h));
}

abbrev Row : String → Case → Board → Type 0
Row i c s = (d : Case) × (find i s.cases ≡ some d) × Succeeds c d

Step-Succeeds :
    (s t : Board) (i : String) (c : Case) → Step s t → find i s.cases ≡ some c → Row i c t
Step-Succeeds s t i c (stays e) fc = (c, ap (find i) e ∙ fc, Succeeds-refl c)
Step-Succeeds s t i c (opens x fine ins) fc =
    (c, find-insert_other i x s.cases ins fc, Succeeds-refl c)
Step-Succeeds s t i c (moves id x f fx keeps m e) fc = elim (string_dec i id) [
  | no other ↦ (c, ap (find i) e ∙ find-update_ne id i f s.cases keeps other ∙ fc, Succeeds-refl c)
  | yes same ↦
      let own : find i s.cases ≡ some x = subst (λ j. find j s.cases ≡ some x) (sym same) fx in
      let is : c ≡ x = ground (arith, own, fc) in
      (
        f x,
        ap (find i) e
            ∙ subst (λ j. find j (update id f s.cases) ≡ some (f x)) (sym same)
                (find-update_self id f s.cases keeps fx),
        subst (λ z. Succeeds z (f x)) (sym is) (Move-Succeeds m),
      )
]

-- Whatever calls are made, a case is found again: its mission, grant and limit are the same, its steps have
-- not gone down, its budget has not gone up, and if it had been closed or blocked it is unchanged.
pub run-Succeeds :
    (s : Board) (cs : List Call) (i : String) (c : Case)
    → find i s.cases ≡ some c
    → (d : Case) × (find i (run s cs).cases ≡ some d) × Succeeds c d
unfolding run
run-Succeeds s [] i c fc = (c, fc, Succeeds-refl c)
run-Succeeds s (x ∷ xs) i c fc =
    let (d, fd, p) = Step-Succeeds s (after s x) i c (after-Step s x) fc in
    let (e, fe, q) = run-Succeeds (after s x) xs i d fd in (e, fe, Succeeds-trans p q)
