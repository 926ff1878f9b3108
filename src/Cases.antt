-- ===== src/Cases.antt =====
-- internal/workflowcase: a case follows one revision of an observed object from its first work to a
-- verification. The JSON forms of requests are arguments; a JSON column that this code writes and reads
-- itself holds the value.
pub mod Observe
pub mod Assess
pub mod Verify
pub mod Materialize
pub mod Calls
pub mod Steps
pub mod Endings
pub mod Invariant
pub mod Replay
mod Examples
use meeseek_collective.Common.{
  ℕ, Bool, true, false, ◌&&◌, not, Option, none, some, List, [], ◌∷◌, String, ◌==◌, if◌then◌else◌,
}
use meeseek_collective.Common.Int.{ℤ}
use meeseek_collective.Common.Sets.{insert_sorted}
use meeseek_collective.Common.Rows.{Keyed, find}
use meeseek_collective.Common.Result.{
  no_rows, failure, Result, ok, err, Tx, or_raise, gets, ◌>>=◌, zoom,
}
use meeseek_collective.Domain.{PurposeKind, PurposeRef}
use meeseek_collective.Purpose.{Purposes, validate_purpose}
use meeseek_collective.Execution.State.{Store}
use meeseek_collective.Workflow.{Grant, WorkProposal, Assessment, Decision}

pub record Observation : Type 0 where
  pub mission : String
  pub source : String
  pub object : String
  pub revision : String
  pub evidence : String
  pub first_work : WorkProposal
  pub grant : Grant
  pub max_steps : ℤ
  pub remaining_budget : ℤ

pub data CaseState : Type 0 where
  active blocked ready_for_verification closed : CaseState

-- A row of workflow_cases. The count of the steps starts at 0 and goes up by one.
pub record Case : Type 0 where
  pub id : String
  pub mission : String
  pub current_work : String
  pub source : String
  pub object : String
  pub revision : String
  pub observation_evidence : String
  pub state : CaseState
  pub next_work : WorkProposal
  pub grant : Grant
  pub completed_steps : ℕ
  pub max_steps : ℤ
  pub remaining_budget : ℤ
  pub progress_signature : String
  pub initial_request : String

pub record AssessmentRequest : Type 0 where
  pub subject : String
  pub work : String
  pub assessment : Assessment
  pub remaining_budget : ℤ
  pub progress_signature : String

pub record AssessmentResult : Type 0 where
  pub decision : Decision
  pub after : Case

-- A row of workflow_assessments.
pub record AssessmentRow : Type 0 where
  pub id : String
  pub subject : String
  pub work : String
  pub request : String
  pub result : AssessmentResult
  pub created_at : ℕ

-- A row of workflow_verifications.
pub record Verification : Type 0 where
  pub id : String
  pub subject : String
  pub verifier : String
  pub verifier_type : String
  pub snapshot_hash : String
  pub snapshot : String
  pub evidence : List String
  pub created_at : ℕ

-- The tables that the service reads and writes; `evidence` has the keys of evidence_objects.
pub record Board : Type 0 where
  pub purposes : Purposes
  pub store : Store
  pub evidence : List String
  pub cases : List Case
  pub assessments : List AssessmentRow
  pub verifications : List Verification

instance abbrev pub case_key : Keyed Case
case_key = record { key = λ c. c.id }

instance abbrev pub assessment_key : Keyed AssessmentRow
assessment_key = record { key = λ a. a.id }

instance abbrev pub verification_key : Keyed Verification
verification_key = record { key = λ v. v.id }

-- `json.Marshal` of the two requests, whose results are compared as texts, and of a reason.
pub record Encoding : Type 0 where
  pub observation : Observation → String
  pub assessment : AssessmentRequest → String
  pub reason : String → String

-- The value of `{}`.
abbrev pub no_work : WorkProposal
no_work = record {
  kind = "";
  required_capabilities = [];
  authority_ceiling = [];
  proposed_actions = [];
}

abbrev pub is_active_case : CaseState → Bool
is_active_case CaseState.active = true
is_active_case _ = false

abbrev pub is_ready_case : CaseState → Bool
is_ready_case CaseState.ready_for_verification = true
is_ready_case _ = false

abbrev pub load_case : String → Tx Board Case
load_case id = do row ← gets (λ s. find id s.cases); or_raise row no_rows

-- `ValidatePurposeTx` of the mission.
abbrev pub require_mission : String → Tx Board (Unit {0})
require_mission mission s =
    elim (validate_purpose s.purposes (record { kind = PurposeKind.mission; id = mission })) [
      | ok u ↦ ok (u, s)
      | err e ↦ err e
    ]

-- `normalizeWorkflowEvidenceIDs`: the empty text is dropped, and nothing is trimmed.
unfoldable pub normalize_evidence : List String → List String
normalize_evidence [] = []
normalize_evidence (v ∷ vs) =
    let rest = normalize_evidence vs in if v == "" then rest else insert_sorted v rest

abbrev pub on_store : {A : Type 0} → Tx Store A → Tx Board A
on_store = zoom (λ s. s.store) (λ x s. record s { store = x })
