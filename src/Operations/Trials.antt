-- ===== src/Operations/Trials.antt =====
-- The theorems on dispatches at one prepared operation, with a provider that confirms what it is sent.
use meeseek_collective.Common.{
  String, ◌≡◌, ◌≢◌, refl, some, none, List, [], ◌∷◌, true, false, string_dec,
}
use meeseek_collective.Common.Int.{pos}
use meeseek_collective.Common.Text.{trim_space}
use meeseek_collective.Common.Sets.{has_string, normalize}
use meeseek_collective.Common.Rows.{find, insert, update, changed, count}
use meeseek_collective.Common.Result.{Result, failure, ok, err}
use meeseek_collective.Domain.{OperationState, EnforcementLevel, PolicyOutcome, task_state_eq}
use meeseek_collective.Resources.{envelope_key, reservation_key}
use meeseek_collective.Approvals.Requests.{request_key}
use meeseek_collective.Execution.State.{task_key, attempt_key, event_key, append_event}
use meeseek_collective.Execution.Lease.{guard_attempt, check_guard, state_allowed}
use meeseek_collective.Operations.{
  Operation, ProviderOutcome, EffectSlot, Database, operation_key, slot_key, append_operation_event,
}
use meeseek_collective.Operations.Policy.{
  DispatchRequest, Provider, PolicyDecision, Outside, validate_decision_provenance,
  validate_dispatch_outcome, requires_approval, enforcement_rank, enforcement_satisfies,
  has_authority, load_task_control_tx,
}
use meeseek_collective.Operations.Gate.{validate_and_consume_approval_in_tx}
use meeseek_collective.Operations.Prepare.{is_active_profile}
use meeseek_collective.Operations.Claim.{
  ClaimDraws, dispatch_operation, claim_taken, claim_operation, check_reserved, check_authority,
  load_prepared, commit_reserved, request_for, commit_dispatch,
}
use meeseek_collective.Resources.{releases_at, settle_in_tx, mark_unresolved_in_tx}
use meeseek_collective.Execution.Calls.{starts}
use meeseek_collective.Execution.Examples.{idle, idle-IsSound}
use meeseek_collective.Approvals.Examples.{nothing, nothing-IsSound}
use meeseek_collective.Operations.{
  mark_unknown, mark_open, settle_operation, settle_outcome, settle_open,
}
use meeseek_collective.Operations.Policy.{provider_for, control_for_attempt, evaluate_policy}
use meeseek_collective.Operations.Reconcile.{
  OutcomeDraws, provider_request, record_lookup_as, record_lookup, look_up, reconcile_by, reconcile,
  is_pending_outcome, insert_in_order, pending_operations, expect_unknown, reconcile_each,
  reconcile_pending,
}
use meeseek_collective.Operations.Dispatch.{
  DispatchDraws, dispatch, dispatch_by, dispatch_prepared, dispatch_unless, send, record_dispatch,
  record_dispatch_as, descriptor_type_of,
}
use meeseek_collective.Operations.Moves.{Reaches}
use meeseek_collective.Operations.Calls.{Call, marks_unknown, executes, budgets, run}
use meeseek_collective.Operations.Runs.{IsSoundDatabase, run-IsSoundDatabase, run-Reaches}
use meeseek_collective.Operations.Silent.{redirect, sent_once}
use meeseek_collective.Operations.Departure.{Departed, dispatch-Departed}
use meeseek_collective.Operations.Recovery.{IsPast, reconcile_pending-IsPast}
use meeseek_collective.Operations.Examples.{database, ledger-IsCovered, work, sent, outcome}
use meeseek_collective.Operations.Committed.{Committed, commit_dispatch-Committed}

abbrev mail : Provider
mail = record {
  name = "mail";
  capability = "send";
  enforcement = EnforcementLevel.partial;
  adapter_version = "v1";
  adapter_semantic = false;
  canonical_intent = λ i. ok i.content;
  cost_profile = λ i. err (failure "no profile");
  dispatch = λ r. ok outcome;
  lookup_outcome = λ r. ok outcome;
}

abbrev decision : PolicyDecision
decision = record {
  id = "d2";
  outcome = PolicyOutcome.allow;
  required_approvals = [];
  policy_set = "p1";
  policy_set_hash = "h";
  capabilities_hash = "c";
  evaluated_at = 5;
}

abbrev outside : Outside
outside = record {
  evaluate = λ i. ok decision;
  canonical_json = λ s. ok s;
  fingerprint = λ a b c d. "f";
  approval_digest = λ a b c d n e. "digest";
}

abbrev slot : EffectSlot
slot = record {
  id = "s1";
  collective = "main";
  task = "t1";
  trusted_key = "mail-1";
  provider = "mail";
  descriptor_type = "MAIL";
  intent_fingerprint = "f";
  intent_revision = 1;
  canonical_intent = "{}";
  adapter_version = "v1";
  adapter_semantic = false;
}

abbrev waiting : Operation
waiting = record sent { state = OperationState.prepared; dispatched_at = none }

abbrev ready : Database
ready = record database {
  store = record database.store { tasks = record work { authority_ceiling = "send" ∷ [] } ∷ [] };
  policies = record { id = "p1"; policy_hash = "h"; capabilities_hash = "c"; active = true } ∷ [];
  slots = slot ∷ [];
  operations = waiting ∷ [];
}

abbrev draws : ClaimDraws
draws = record { claim = "k1"; event = "e1"; now = 5; guarded_at = 6; consumed_at = 6 }

abbrev going : Database
going = record ready {
  store = record ready.store {
    events =
        record {
          id = "e1";
          task = "t1";
          attempt = some "x1";
          kind = "OPERATION_DISPATCH_COMMITTED";
          at = 5;
        }
        ∷ [];
  };
  operations = dispatch_operation "k1" decision 5 waiting ∷ [];
}

abbrev request : DispatchRequest
request = request_for waiting slot

committed_run :
    commit_dispatch outside draws mail decision "MAIL" "t1" "o1" "x1" ready ≡ ok (request, going)
unfolding commit_dispatch commit_reserved load_prepared check_authority check_reserved
    claim_operation claim_taken guard_attempt check_guard state_allowed task_state_eq
    load_task_control_tx has_authority has_string enforcement_satisfies enforcement_rank
    validate_decision_provenance validate_dispatch_outcome validate_and_consume_approval_in_tx
    requires_approval normalize is_active_profile changed count append_operation_event append_event
    find insert update string_dec trim_space
committed_run = refl

commit_dispatch-Committed_example :
    Committed outside draws mail decision "MAIL" "t1" "o1" "x1" request ready going
commit_dispatch-Committed_example =
    commit_dispatch-Committed outside draws mail decision "MAIL" "t1" "o1" "x1" request ready going
      committed_run

abbrev calls : List Call
calls =
    executes (starts [] (record { row = "x1"; event = "e1" }) 20 "t1" "codex" (pos 30))
    ∷ marks_unknown "e2" 21 "o1"
    ∷ budgets (releases_at 22 "r1")
    ∷ []

abbrev joined : Database
joined = record database { store = idle; registry = nothing; operations = waiting ∷ [] }

joined-IsSound : IsSoundDatabase joined
unfolding find
joined-IsSound = record {
  ledger = ledger-IsCovered;
  store = idle-IsSound;
  registry = nothing-IsSound;
  unique = (refl, tt);
}

run-IsSoundDatabase_example : IsSoundDatabase (run joined calls)
run-IsSoundDatabase_example = run-IsSoundDatabase joined calls joined-IsSound

run-Reaches_example :
    (y : Operation) × (find "o1" (run going calls).operations ≡ some y)
    × Reaches (dispatch_operation "k1" decision 5 waiting) y
unfolding find string_dec
run-Reaches_example = run-Reaches going calls "o1" (dispatch_operation "k1" decision 5 waiting) refl

abbrev outcome_draws : OutcomeDraws
outcome_draws = record {
  marked = "e3";
  marked_at = 7;
  remarked = "e4";
  remarked_at = 8;
  settled = "e5";
  settled_at = 9;
}

abbrev dispatch_draws : DispatchDraws
dispatch_draws = record {
  claim = draws;
  outcome = outcome_draws;
  cancelled = "e6";
  cancelled_at = 7;
  cancel_guarded_at = 7;
  guarded_at = 7;
}

sent_once_example :
    (commit_dispatch outside draws mail decision "MAIL" "t1" "o1" "x1" (run going calls)
      ≢ ok (request, going))
    × (dispatch outside
          (redirect (λ n r. err (failure "down")) (λ n. some mail))
          dispatch_draws
          "o1"
          "x1"
          (run going calls)
        ≡ dispatch outside (λ n. some mail) dispatch_draws "o1" "x1" (run going calls))
unfolding find
sent_once_example =
    sent_once outside outside draws draws mail mail decision decision "MAIL" "MAIL" "t1" "t1" "o1"
      "x1" "x1" request request ready going going calls dispatch_draws (λ n. some mail)
      (λ n r. err (failure "down")) (refl, tt) committed_run

abbrev arrived : Operation
arrived = settle_operation outcome 9 (dispatch_operation "k1" decision 5 waiting)

arrived_row :
    find "o1" (dispatch outside (λ n. some mail) dispatch_draws "o1" "x1" ready).1.operations
    ≡ some arrived
unfolding dispatch dispatch_by dispatch_prepared dispatch_unless send record_dispatch
    record_dispatch_as descriptor_type_of control_for_attempt evaluate_policy provider_for
    settle_outcome settle_open settle_in_tx commit_dispatch commit_reserved load_prepared
    check_authority check_reserved claim_operation claim_taken guard_attempt check_guard
    state_allowed task_state_eq load_task_control_tx has_authority has_string enforcement_satisfies
    enforcement_rank validate_decision_provenance validate_dispatch_outcome
    validate_and_consume_approval_in_tx requires_approval normalize is_active_profile changed count
    append_operation_event append_event find insert update string_dec trim_space
arrived_row = refl

dispatch-Departed_example :
    ◌≡◌ {A = String} "x1" "x1" × Departed outside (λ n. some mail) dispatch_draws waiting "x1" ready
unfolding find string_dec
dispatch-Departed_example =
    dispatch-Departed outside (λ n. some mail) dispatch_draws "o1" "x1" waiting arrived ready refl
      refl arrived_row (λ e. cc) (λ e. cc)

reconciled_run :
    reconcile_pending (λ i. outcome_draws) (λ n. some mail) going
    ≡ (ok tt, (reconcile_pending (λ i. outcome_draws) (λ n. some mail) going).1)
unfolding reconcile_pending reconcile_each pending_operations is_pending_outcome insert_in_order
    expect_unknown reconcile reconcile_by look_up record_lookup record_lookup_as provider_for
    provider_request mark_unknown mark_open settle_outcome settle_open settle_in_tx
    mark_unresolved_in_tx append_operation_event append_event find insert update string_dec
    trim_space
reconciled_run = refl

abbrev deaf : String → DispatchRequest → Result ProviderOutcome
deaf n r = err (failure "down")

abbrev recovered : Database
recovered = (reconcile_pending (λ i. outcome_draws) (λ n. some mail) going).1

reconcile_pending-IsPast_example :
    ((y : Operation) × (find "o1" recovered.operations ≡ some y) × IsPast y)
    × (reconcile_pending (λ i. outcome_draws) (redirect deaf (λ n. some mail)) going
        ≡ (ok tt, recovered))
unfolding find string_dec
reconcile_pending-IsPast_example =
    reconcile_pending-IsPast (λ i. outcome_draws) (λ n. some mail) "o1"
      (dispatch_operation "k1" decision 5 waiting) going _ deaf refl refl reconciled_run
