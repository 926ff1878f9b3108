-- ===== src/Cases/Calls.antt =====
-- internal/workflowcase with internal/purpose: their transactions as calls, and runs of them.
use meeseek_collective.Common.{ℕ, List, [], ◌∷◌, String}
use meeseek_collective.Common.Result.{with_tx}
use meeseek_collective.Purpose.{Call as PurposeCall, after as after_purpose}
use meeseek_collective.Execution.Intake.{TaskRequest}
use meeseek_collective.Execution.Creation.{Outside}
use meeseek_collective.Cases.{Observation, Case, AssessmentRequest, Board, Encoding}
use meeseek_collective.Cases.Observe.{ensure}
use meeseek_collective.Cases.Assess.{StepDraws, assess}
use meeseek_collective.Cases.Verify.{VerificationRequest, close_in_tx, reject_case}
use meeseek_collective.Cases.Materialize.{materialize_current_case, ensure_and_materialize}

-- One transaction, with the identifiers and the reading of the clock that it draws. A case that is
-- materialized was read before its transaction, so it is any case.
pub data Call : Type 0 where
  ensures : Encoding → String → String → Observation → Call
  ensures_task :
      Encoding → Outside → String → String → String → ℕ → Observation → TaskRequest → Call
  assesses : Encoding → StepDraws → AssessmentRequest → Call
  closes : String → ℕ → VerificationRequest → Call
  rejects : Encoding → String → ℕ → String → String → List String → Call
  materializes : Outside → String → ℕ → Case → TaskRequest → Call
  governs : PurposeCall → Call

unfoldable pub after : Board → Call → Board
after s (ensures e fresh work o) = (with_tx (ensure e fresh work o) s).1
after s (ensures_task e o fresh work task now observation template) =
    (with_tx (ensure_and_materialize e o fresh work task now observation template) s).1
after s (assesses e w r) = (with_tx (assess e w r) s).1
after s (closes fresh now r) = (with_tx (close_in_tx fresh now r) s).1
after s (rejects e fresh now subject reason evidence) =
    (with_tx (reject_case e fresh now subject reason evidence) s).1
after s (materializes o fresh now c template) =
    (with_tx (materialize_current_case o fresh now c template) s).1
after s (governs c) = record s { purposes = after_purpose s.purposes c }

unfoldable pub run : Board → List Call → Board
run s [] = s
run s (c ∷ cs) = run (after s c) cs
