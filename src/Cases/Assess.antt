-- ===== src/Cases/Assess.antt =====
-- internal/workflowcase/assessment.go: Assess, one step of a case.
use meeseek_collective.Common.{
  ℕ, suc, ◌&&◌, ◌||◌, not, Option, none, some, List, [], ◌∷◌, String, ◌==◌, if◌then◌else◌,
}
use meeseek_collective.Common.Int.{pos, ltb_ℤ}
use meeseek_collective.Common.Text.{trim_space}
use meeseek_collective.Common.Rows.{update, insert}
use meeseek_collective.Common.Result.{
  constraint_failed, failure, Result, ok, err, Tx, ◌>>=◌, ◌>>◌, pure, reject_if, gets, lift,
}
use meeseek_collective.Workflow.{Outcome, WorkProposal, Decision, decide}
use meeseek_collective.Cases.{
  CaseState, Case, AssessmentRequest, AssessmentResult, AssessmentRow, Board, Encoding, case_key,
  assessment_key, no_work, is_active_case, load_case, require_mission,
}

-- The fresh work and assessment, and the reading of the clock.
pub record StepDraws : Type 0 where
  pub work : String
  pub assessment : String
  pub now : ℕ

-- The unique index on (case_id, work_id).
unfoldable pub find_assessment : String → String → List AssessmentRow → Option AssessmentRow
find_assessment subject work [] = none
find_assessment subject work (a ∷ as_) =
    if a.subject == subject && a.work == work then some a else find_assessment subject work as_

unfoldable pub replay_assessment :
    Encoding → AssessmentRequest → AssessmentRow → Tx Board AssessmentResult
replay_assessment e r a = do
  reject_if (not (a.request == e.assessment r))
      (failure "work already assessed with a different request")
  pure a.result

unfoldable pub decide_step : Case → AssessmentRequest → Result Decision
decide_step c r = decide (record {
  assessment = r.assessment;
  grant = c.grant;
  limits = record { max_steps = c.max_steps; remaining_budget = r.remaining_budget };
  completed_steps = pos (suc c.completed_steps);
  progress_signature = r.progress_signature;
  previous_progress_signature = c.progress_signature;
})

abbrev pub proposal_of : Option WorkProposal → WorkProposal
proposal_of (some p) = p
proposal_of none = no_work

unfoldable pub advance : String → AssessmentRequest → Decision → Outcome → Case → Case
advance fresh r d Outcome.continue c = record c {
  completed_steps = suc c.completed_steps;
  remaining_budget = r.remaining_budget;
  progress_signature = r.progress_signature;
  state = CaseState.active;
  current_work = fresh;
  next_work = proposal_of d.next;
}
advance fresh r d Outcome.blocked c = record c {
  completed_steps = suc c.completed_steps;
  remaining_budget = r.remaining_budget;
  progress_signature = r.progress_signature;
  state = CaseState.blocked;
  current_work = "";
  next_work = no_work;
}
advance fresh r d Outcome.ready c = record c {
  completed_steps = suc c.completed_steps;
  remaining_budget = r.remaining_budget;
  progress_signature = r.progress_signature;
  state = CaseState.ready_for_verification;
  current_work = "";
  next_work = no_work;
}

unfoldable pub insert_assessment : AssessmentRow → Tx Board (Unit {0})
insert_assessment a s = elim (insert a s.assessments) [
  | some rows ↦ ok (tt, record s { assessments = rows })
  | none ↦ err constraint_failed
]

abbrev pub update_case : String → (Case → Case) → Tx Board (Unit {0})
update_case id f s = ok (tt, record s { cases = update id f s.cases })

-- The work is the active one, its mission stands, and the budget does not grow.
unfoldable pub check_step : AssessmentRequest → Case → Tx Board Decision
check_step r c = do
  reject_if (not (is_active_case c.state) || not (c.current_work == r.work))
      (failure "work is not the active work for this case")
  require_mission c.mission
  reject_if (ltb_ℤ r.remaining_budget (pos 0) || ltb_ℤ c.remaining_budget r.remaining_budget)
      (failure "remaining budget must be nonnegative and cannot increase")
  lift (decide_step c r)

-- The `UPDATE` writes the columns that `advance` changes.
unfoldable pub record_step :
    Encoding → StepDraws → AssessmentRequest → Case → Decision → Tx Board AssessmentResult
record_step e w r c d = do
  update_case c.id (advance w.work r d d.outcome)
  insert_assessment (record {
    id = w.assessment;
    subject = c.id;
    work = r.work;
    request = e.assessment r;
    result = record { decision = d; after = advance w.work r d d.outcome c };
    created_at = w.now;
  })
  pure (record { decision = d; after = advance w.work r d d.outcome c })

unfoldable pub assess_new : Encoding → StepDraws → AssessmentRequest → Tx Board AssessmentResult
assess_new e w r = do c ← load_case r.subject; d ← check_step r c; record_step e w r c d

unfoldable pub assess_stored :
    Encoding → StepDraws → AssessmentRequest → Option AssessmentRow → Tx Board AssessmentResult
assess_stored e w r none = assess_new e w r
assess_stored e w r (some a) = replay_assessment e r a

unfoldable pub assess : Encoding → StepDraws → AssessmentRequest → Tx Board AssessmentResult
assess e w r = do
  reject_if (trim_space r.subject == "" || trim_space r.work == "")
      (failure "case and work IDs are required")
  stored ← gets (λ s. find_assessment r.subject r.work s.assessments)
  assess_stored e w r stored
