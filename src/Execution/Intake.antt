-- ===== src/Execution/Intake.antt =====
-- internal/execution/service.go: the intake of tasks, CreateTask, CreateTaskWithGuard and
-- CreateChildTask. The hash of a request (SHA-256 of its JSON), the canonical form of a payload
-- (encoding/json), the guard of the caller and the check of the purpose are arguments.
use meeseek_collective.Common.{
  ℕ, Bool, true, false, ◌&&◌, not, List, [], ◌∷◌, String, ◌==◌, if◌then◌else◌, ltb, nat_eq,
}
use meeseek_collective.Common.Int.{ℤ, pos, negsuc}
use meeseek_collective.Common.Text.{trim_space}
use meeseek_collective.Common.Sets.{has_string, normalize}
use meeseek_collective.Common.Result.{failure, Tx, ◌>>◌, pure, reject_if}
use meeseek_collective.Domain.{EnforcementLevel, PurposeKind, PurposeRef}
use meeseek_collective.Execution.State.{Task, Store, task_key}

pub record TaskRequest : Type 0 where
  pub purpose : PurposeRef
  pub task_class : String
  pub objective : String
  pub payload : String
  pub idempotency_key : String
  pub acceptance_criteria : List String
  pub required_capabilities : List String
  pub required_enforcement : EnforcementLevel
  pub authority_ceiling : List String
  pub resource_envelope : String
  pub priority : ℤ
  pub earliest_start : ℕ
  pub deadline : ℕ

purpose_text : PurposeKind → String
purpose_text PurposeKind.mission = "MISSION"
purpose_text PurposeKind.obligation = "OBLIGATION"
purpose_text PurposeKind.collective_maintenance = "COLLECTIVE_MAINTENANCE"
purpose_text PurposeKind.governance = "GOVERNANCE"
purpose_text PurposeKind.strategic_pulse = "STRATEGIC_PULSE"
purpose_text PurposeKind.recovery = "RECOVERY"
purpose_text PurposeKind.owner_directive = "OWNER_DIRECTIVE"
purpose_text (PurposeKind.unlisted s) = s

blank_purpose : PurposeRef → Bool
unfolding purpose_text
blank_purpose p = purpose_text p.kind == "" && p.id == ""

same_purpose : PurposeRef → PurposeRef → Bool
unfolding purpose_text
same_purpose p q = purpose_text p.kind == purpose_text q.kind && p.id == q.id

unfoldable pub is_blank_level : EnforcementLevel → Bool
is_blank_level (EnforcementLevel.unlisted s) = s == ""
is_blank_level _ = false

unfoldable pub valid_enforcement : EnforcementLevel → Bool
valid_enforcement (EnforcementLevel.unlisted s) = false
valid_enforcement _ = true

unfoldable pub enforcement_rank : EnforcementLevel → ℕ
enforcement_rank EnforcementLevel.enforced = 2
enforcement_rank EnforcementLevel.partial = 1
enforcement_rank _ = 0

unfoldable pub normalize_criteria : List String → List String
normalize_criteria [] = []
normalize_criteria (v ∷ vs) =
    if trim_space v == "" then normalize_criteria vs else trim_space v ∷ normalize_criteria vs

unfoldable pub is_empty : List String → Bool
is_empty [] = true
is_empty (x ∷ xs) = false

-- The loop that looks every text up in a set.
unfoldable pub all_in : List String → List String → Bool
all_in set [] = true
all_in set (x ∷ xs) = if has_string set x then all_in set xs else false

-- `validateTimeWindow`: 0 is Go's zero time.
unfoldable pub bad_window : ℕ → ℕ → Bool
bad_window earliest deadline =
    not (nat_eq earliest 0) && not (nat_eq deadline 0) && ltb deadline earliest

unfoldable pub inherit_time : ℕ → ℕ → ℕ
inherit_time own parent = if nat_eq own 0 then parent else own

inherit_priority : ℤ → ℤ → ℤ
inherit_priority (pos n) parent = if nat_eq n 0 then parent else pos n
inherit_priority (negsuc n) parent = negsuc n

unfoldable pub inherit_list : List String → List String → List String
inherit_list [] whole = whole
inherit_list (x ∷ xs) whole = normalize (x ∷ xs)

unfoldable pub inherit_level : EnforcementLevel → EnforcementLevel → EnforcementLevel
unfolding is_blank_level
inherit_level own parent = if is_blank_level own then parent else own

-- The root's ceiling is what it requires, if it names none.
unfoldable pub root_ceiling : List String → List String → List String
root_ceiling [] required = required
root_ceiling (x ∷ xs) required = x ∷ xs

unfoldable pub normalize_root_request : TaskRequest → Tx Store TaskRequest
normalize_root_request r = do
  let criteria = normalize_criteria r.acceptance_criteria
  reject_if (is_empty criteria) (failure "task requires acceptance criteria")
  let required = normalize r.required_capabilities
  let level = inherit_level r.required_enforcement EnforcementLevel.unenforced
  reject_if (not (valid_enforcement level)) (failure "invalid enforcement level")
  reject_if (r.resource_envelope == "") (failure "task requires resource envelope")
  let ceiling = root_ceiling (normalize r.authority_ceiling) required
  reject_if (not (all_in ceiling required))
      (failure "required capability exceeds task authority ceiling")
  reject_if (bad_window r.earliest_start r.deadline)
      (failure "task deadline precedes earliest start")
  pure (record r {
    task_class = trim_space r.task_class;
    acceptance_criteria = criteria;
    required_capabilities = required;
    required_enforcement = level;
    authority_ceiling = ceiling;
  })

-- `CreateChildTask`: the tests on purpose, capabilities and ceiling.
unfoldable pub check_child_authority : Task → TaskRequest → Tx Store (Unit {0})
unfolding blank_purpose same_purpose
check_child_authority p r = do
  reject_if (not (blank_purpose r.purpose) && not (same_purpose r.purpose p.purpose))
      (failure "child task cannot change inherited purpose")
  let required = normalize r.required_capabilities
  reject_if (not (all_in p.authority_ceiling required))
      (failure "child capability exceeds parent authority ceiling")
  let ceiling = inherit_list r.authority_ceiling p.authority_ceiling
  reject_if (not (is_empty r.authority_ceiling) && not (all_in p.authority_ceiling ceiling))
      (failure "child authority exceeds parent authority ceiling")
  reject_if (not (all_in ceiling required))
      (failure "required capability exceeds child authority ceiling")

-- The tests on the envelope, the enforcement and the criteria.
unfoldable pub check_child_terms : Task → TaskRequest → Tx Store (Unit {0})
check_child_terms p r = do
  reject_if (not (r.resource_envelope == "") && not (r.resource_envelope == p.resource_envelope))
      (failure "child task cannot replace inherited resource envelope")
  reject_if
      (not (is_blank_level r.required_enforcement)
        && not (valid_enforcement r.required_enforcement))
      (failure "invalid enforcement level")
  reject_if
      (not (is_blank_level r.required_enforcement)
        && ltb (enforcement_rank r.required_enforcement) (enforcement_rank p.required_enforcement))
      (failure "child task cannot weaken parent enforcement requirement")
  reject_if (is_empty (normalize_criteria r.acceptance_criteria))
      (failure "child task requires acceptance criteria")

-- The tests on the time window.
unfoldable pub check_child_window : Task → TaskRequest → Tx Store (Unit {0})
check_child_window p r = do
  reject_if
      (not (nat_eq r.earliest_start 0)
        && (not (nat_eq p.earliest_start 0) && ltb r.earliest_start p.earliest_start))
      (failure "child task cannot start before parent time window")
  reject_if (not (nat_eq r.deadline 0) && (not (nat_eq p.deadline 0) && ltb p.deadline r.deadline))
      (failure "child task cannot extend parent deadline")
  reject_if
      (bad_window (inherit_time r.earliest_start p.earliest_start)
        (inherit_time r.deadline p.deadline))
      (failure "task deadline precedes earliest start")

-- The request with what it inherits filled in.
unfoldable pub inherit : Task → TaskRequest → TaskRequest
unfolding blank_purpose inherit_priority
inherit p r = record {
  purpose = if blank_purpose r.purpose then p.purpose else r.purpose;
  task_class = if trim_space r.task_class == "" then p.task_class else trim_space r.task_class;
  objective = r.objective;
  payload = r.payload;
  idempotency_key = r.idempotency_key;
  acceptance_criteria = normalize_criteria r.acceptance_criteria;
  required_capabilities = normalize r.required_capabilities;
  required_enforcement = inherit_level r.required_enforcement p.required_enforcement;
  authority_ceiling = inherit_list r.authority_ceiling p.authority_ceiling;
  resource_envelope =
      if r.resource_envelope == "" then p.resource_envelope else r.resource_envelope;
  priority = inherit_priority r.priority p.priority;
  earliest_start = inherit_time r.earliest_start p.earliest_start;
  deadline = inherit_time r.deadline p.deadline;
}

-- What `CreateChildTask` makes of a request under its parent.
unfoldable pub child_request : Task → TaskRequest → Tx Store TaskRequest
child_request p r = do
  check_child_authority p r
  check_child_terms p r
  check_child_window p r
  pure (inherit p r)
