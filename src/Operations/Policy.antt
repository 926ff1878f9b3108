-- ===== src/Operations/Policy.antt =====
-- internal/operations: the interface of a provider, the policy gate of approval_gate.go, and the control of
-- a task. The policy engine, the canonical form of JSON and the hashes are arguments.
use meeseek_collective.Common.{
  ℕ, Bool, true, false, ◌&&◌, ◌||◌, not, Option, none, some, List, [], ◌∷◌, ◌++◌, String, ◌==◌,
  if◌then◌else◌, leb, nat_eq,
}
use meeseek_collective.Common.Int.{ℤ}
use meeseek_collective.Common.Text.{trim_space}
use meeseek_collective.Common.Sets.{has_string, normalize}
use meeseek_collective.Common.Rows.{find}
use meeseek_collective.Common.Result.{
  stale_attempt, policy_denied, no_rows, failure, Error, Result, ok, err, Tx,
}
use meeseek_collective.Domain.{EnforcementLevel, PolicyOutcome}
use meeseek_collective.Resources.{Enforceability}
use meeseek_collective.Execution.State.{task_key, attempt_key}
use meeseek_collective.Approvals.Requests.{same_list}
use meeseek_collective.Operations.{Provenance, ProviderOutcome, Database}

-- A typed description of an effect: its type, and what its provider reads in it.
pub record Intent : Type 0 where
  pub descriptor_type : String
  pub content : String

pub record CostProfile : Type 0 where
  pub max_exposure : ℤ
  pub enforceability : Enforceability

pub record DispatchRequest : Type 0 where
  pub operation : String
  pub task : String
  pub slot : String
  pub intent_fingerprint : String
  pub intent_revision : ℕ
  pub canonical_intent : String

-- `Provider`: `dispatch` has the effect, `lookup_outcome` only reads.
pub record Provider : Type 0 where
  pub name : String
  pub capability : String
  pub enforcement : EnforcementLevel
  pub adapter_version : String
  pub adapter_semantic : Bool
  pub canonical_intent : Intent → Result String
  pub cost_profile : Intent → Result CostProfile
  pub dispatch : DispatchRequest → Result ProviderOutcome
  pub lookup_outcome : DispatchRequest → Result ProviderOutcome

pub record PolicyDecision : Type 0 where
  pub id : String
  pub outcome : PolicyOutcome
  pub required_approvals : List String
  pub policy_set : String
  pub policy_set_hash : String
  pub capabilities_hash : String
  pub evaluated_at : ℕ

pub record PolicyInput : Type 0 where
  pub risk : String
  pub authority_valid : Bool
  pub now : ℕ
  pub attributes : List (String × String)

-- The code that the operations call and that is not theirs: the engine, encoding/json and SHA-256.
pub record Outside : Type 0 where
  pub evaluate : PolicyInput → Result PolicyDecision
  pub canonical_json : String → Result String
  pub fingerprint : String → String → String → String → String
  pub approval_digest : String → String → String → String → ℕ → String → String

unfoldable pub validate_decision_provenance : PolicyDecision → ℕ → Result (Unit {0})
validate_decision_provenance d now =
    if d.id == ""
      || d.policy_set == ""
      || trim_space d.policy_set_hash == ""
      || trim_space d.capabilities_hash == ""
    then err policy_denied
    else if nat_eq d.evaluated_at 0 || not (nat_eq d.evaluated_at now)
    then err policy_denied
    else ok tt

-- Whether an approval is required, where the outcome lets an operation be prepared at all.
unfoldable pub evaluate_prepare_outcome : PolicyDecision → Result Bool
evaluate_prepare_outcome d = elim d.outcome [
  | PolicyOutcome.allow ↦ ok false
  | PolicyOutcome.require_approval ↦ ok true
  | PolicyOutcome.deny ↦ err policy_denied
  | PolicyOutcome.allow_with_limit ↦ err policy_denied
  | PolicyOutcome.unlisted _ ↦ err policy_denied
]

unfoldable pub validate_dispatch_outcome : PolicyDecision → Result (Unit {0})
validate_dispatch_outcome d = elim d.outcome [
  | PolicyOutcome.allow ↦ ok tt
  | PolicyOutcome.require_approval ↦ ok tt
  | PolicyOutcome.deny ↦ err policy_denied
  | PolicyOutcome.allow_with_limit ↦ err policy_denied
  | PolicyOutcome.unlisted _ ↦ err policy_denied
]

abbrev pub is_require_approval : PolicyOutcome → Bool
is_require_approval PolicyOutcome.require_approval = true
is_require_approval _ = false

abbrev pub no_ids : List String → Bool
no_ids [] = true
no_ids (x ∷ xs) = false

unfoldable pub required_approvers_for : PolicyDecision → List String → List String
required_approvers_for d caller =
    normalize (caller ++ (if is_require_approval d.outcome then d.required_approvals else []))

unfoldable pub requires_approval : PolicyDecision → List String → Bool
requires_approval d caller = is_require_approval d.outcome || not (no_ids caller)

unfoldable pub approval_ids_equal : List String → List String → Bool
approval_ids_equal a b = same_list (normalize a) (normalize b)

unfoldable pub operation_approval_digest :
    Outside → String → String → String → String → ℕ → String → Result String
operation_approval_digest o provider kind slot fingerprint revision canonical =
    if trim_space provider == ""
      || trim_space kind == ""
      || slot == ""
      || trim_space fingerprint == ""
      || leb revision 0
      || canonical == ""
    then err (failure "complete consequential dispatch identity is required")
    else ok (
        o.approval_digest (trim_space provider) (trim_space kind) slot (trim_space fingerprint)
          revision canonical)

unfoldable pub enforcement_rank : EnforcementLevel → ℕ
enforcement_rank EnforcementLevel.unenforced = 1
enforcement_rank EnforcementLevel.partial = 2
enforcement_rank EnforcementLevel.enforced = 3
enforcement_rank _ = 0

unfoldable pub enforcement_satisfies : EnforcementLevel → EnforcementLevel → Bool
enforcement_satisfies actual required = leb (enforcement_rank required) (enforcement_rank actual)

-- The task as the gate reads it.
pub record TaskControl : Type 0 where
  pub task : String
  pub resource_envelope : String
  pub required_enforcement : EnforcementLevel
  pub authority_ceiling : List String

-- The provider's capability lies in the task's ceiling, and its enforcement is as strong as the task wants.
unfoldable pub has_authority : Provider → TaskControl → Bool
has_authority p c =
    has_string c.authority_ceiling p.capability
    && enforcement_satisfies p.enforcement c.required_enforcement

unfoldable pub load_task_control_tx : String → Tx Database TaskControl
load_task_control_tx id s = elim (find id s.store.tasks) [
  | none ↦ err no_rows
  | some t ↦ ok (
    record {
      task = t.id;
      resource_envelope = t.resource_envelope;
      required_enforcement = t.required_enforcement;
      authority_ceiling = t.authority_ceiling;
    },
    s,
  )
]

unfoldable pub control_for_attempt : String → Tx Database TaskControl
control_for_attempt attempt s = elim (find attempt s.store.attempts) [
  | none ↦ err stale_attempt
  | some a ↦ elim (load_task_control_tx a.task s) [ ok x ↦ ok x | err _ ↦ err stale_attempt ]
]

pub record PolicyContext : Type 0 where
  pub now : ℕ
  pub risk : String
  pub authority_valid : Bool
  pub task : String
  pub attempt : String
  pub descriptor_type : String
  pub phase : String
  pub attributes : List (String × String)

level_text : EnforcementLevel → String
level_text EnforcementLevel.enforced = "ENFORCED"
level_text EnforcementLevel.partial = "PARTIAL"
level_text EnforcementLevel.unenforced = "UNENFORCED"
level_text (EnforcementLevel.unlisted s) = s

-- The caller's attributes stand first, since they overwrite those of the same name.
unfoldable pub evaluate_policy : Outside → Provider → PolicyContext → Result PolicyDecision
unfolding level_text
evaluate_policy o p c = o.evaluate (record {
  risk = trim_space c.risk;
  authority_valid = c.authority_valid;
  now = c.now;
  attributes =
      c.attributes
      ++ ("task_id", c.task)
        ∷ ("attempt_id", c.attempt)
        ∷ ("provider", p.name)
        ∷ ("capability", p.capability)
        ∷ ("enforcement", level_text p.enforcement)
        ∷ ("descriptor_type", c.descriptor_type)
        ∷ ("phase", c.phase)
        ∷ [];
})

-- The canonical form of an intent, and the fingerprint that names it.
unfoldable pub canonical_intent : Outside → Provider → Intent → Result (String × String)
canonical_intent o p i =
    if trim_space i.descriptor_type == ""
    then err (failure "typed intent descriptor is required")
    else elim (p.canonical_intent i) [
      | err e ↦ err e
      | ok raw ↦ elim (o.canonical_json raw) [
        | err e ↦ err e
        | ok canonical ↦ ok (
          canonical,
          o.fingerprint p.name i.descriptor_type canonical
              (if p.adapter_semantic then p.adapter_version else ""),
        )
      ]
    ]

-- The registered providers by name.
abbrev pub Providers : Type 0
Providers = String → Option Provider

unfoldable pub provider_for : Providers → String → Result Provider
provider_for providers name = elim (providers (trim_space name)) [
  | some p ↦ ok p
  | none ↦ err (failure "provider is not registered")
]

-- The trigger's text is the only one that contains this name.
unfoldable pub map_policy_profile_error : Error → Error
map_policy_profile_error (failure text) =
    if text == "SUMMA42_POLICY_PROFILE_INACTIVE" then policy_denied else failure text
map_policy_profile_error e = e

abbrev pub provenance_of : PolicyDecision → Provenance
provenance_of d = record {
  decision = d.id;
  policy_set = d.policy_set;
  policy_set_hash = d.policy_set_hash;
  capabilities_hash = d.capabilities_hash;
}
