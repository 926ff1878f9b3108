-- ===== src/Domain.antt =====
-- internal/domain: the closed sets of strings that the services store and compare. `unlisted` is any
-- other string, where a value comes from a caller or a provider and the code has a default case.
use meeseek_collective.Common.{ℕ, Bool, true, false, String, nat_eq}

pub data TaskState : Type 0 where
  created eligible executing awaiting_verification succeeded : TaskState
  failed blocked cancelled challenged expired : TaskState

pub data AttemptState : Type 0 where
  leased running completed failed cancelled expired : AttemptState

pub data LeaseState : Type 0 where
  active revoked expired : LeaseState

pub data OperationState : Type 0 where
  prepared dispatched confirmed_effect confirmed_no_effect : OperationState
  outcome_unknown cancelled : OperationState
  unlisted : String → OperationState

unfoldable pub terminal : OperationState → Bool
terminal OperationState.confirmed_effect = true
terminal OperationState.confirmed_no_effect = true
terminal OperationState.cancelled = true
terminal _ = false

pub data EnforcementLevel : Type 0 where
  enforced partial unenforced : EnforcementLevel
  unlisted : String → EnforcementLevel

pub data PolicyOutcome : Type 0 where
  allow allow_with_limit require_approval deny : PolicyOutcome
  unlisted : String → PolicyOutcome

pub data ReservationState : Type 0 where
  held settled released unresolved : ReservationState

pub data ChallengeScope : Type 0 where
  task parent goal mission_assumption : ChallengeScope
  unlisted : String → ChallengeScope

pub data FailureClass : Type 0 where
  transient capability epistemic planning resource : FailureClass
  authority objective_impossible execution : FailureClass
  unlisted : String → FailureClass

pub data ApprovalState : Type 0 where
  pending approved rejected expired consumed : ApprovalState

pub data PurposeKind : Type 0 where
  mission obligation collective_maintenance governance : PurposeKind
  strategic_pulse recovery owner_directive : PurposeKind
  unlisted : String → PurposeKind

pub record PurposeRef : Type 0 where
  pub kind : PurposeKind
  pub id : String

task_rank : TaskState → ℕ
task_rank TaskState.created = 0
task_rank TaskState.eligible = 1
task_rank TaskState.executing = 2
task_rank TaskState.awaiting_verification = 3
task_rank TaskState.succeeded = 4
task_rank TaskState.failed = 5
task_rank TaskState.blocked = 6
task_rank TaskState.cancelled = 7
task_rank TaskState.challenged = 8
task_rank TaskState.expired = 9

-- Go's `==` on task states.
unfoldable pub task_state_eq : TaskState → TaskState → Bool
unfolding task_rank
task_state_eq a b = nat_eq (task_rank a) (task_rank b)
