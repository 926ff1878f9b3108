-- ===== src/Operations/Examples.antt =====
-- The theorems on outcomes at one dispatched operation with a reservation of 40 units.
use meeseek_collective.Common.{◌≡◌, refl, some, none, List, [], ◌∷◌, true, false, arith, string_dec}
use meeseek_collective.Common.Int.{pos}
use meeseek_collective.Common.Text.{trim_space}
use meeseek_collective.Common.Rows.{find, insert, update, sum}
use meeseek_collective.Common.Result.{ok, with_tx}
use meeseek_collective.Domain.{
  OperationState, TaskState, AttemptState, LeaseState, EnforcementLevel, PurposeKind, held,
  task_state_eq,
}
use meeseek_collective.Resources.{
  Reservation, CostControl, envelope_key, reservation_key, settle_in_tx, settle_row, release_in_tx,
  held_weight, unresolved_weight,
}
use meeseek_collective.Resources.Budget.{IsSound}
use meeseek_collective.Resources.Cover.{IsCovered, covered_weight}
use meeseek_collective.Execution.State.{
  Task, Attempt, Event, task_key, attempt_key, event_key, append_event,
}
use meeseek_collective.Execution.Lease.{guard_attempt, check_guard, state_allowed}
use meeseek_collective.Operations.{
  Operation, ProviderOutcome, Database, operation_key, append_operation_event, settle_operation,
  settle_open, settle_repeated, settle_outcome, cancel_open, cancel_prepared,
}
use meeseek_collective.Operations.Calls.{Call, settles_as, marks_unknown, cancels, run}
use meeseek_collective.Operations.Settlement.{settle_outcome_once, settle_outcome_again}
use meeseek_collective.Operations.Recorded.{Recorded, settle_outcome-Recorded}
use meeseek_collective.Operations.Cancelled.{Cancelled, cancel_prepared-Cancelled}
use meeseek_collective.Operations.Runs.{run_confirmed}

abbrev pub reserved : Reservation
reserved = record {
  id = "r1";
  envelope = "env";
  state = held;
  amount = 40;
  settled_amount = none;
  cost_control = CostControl.prepaid_quota;
  cost_source = "plan";
  require_hard_cap = true;
  created_at = 1;
  updated_at = 1;
}

abbrev pub work : Task
work = record {
  id = "t1";
  parent = "";
  purpose = record { kind = PurposeKind.mission; id = "m1" };
  task_class = "CODE";
  objective = "send";
  payload = "{}";
  idempotency_key = "";
  request_hash = "";
  state = TaskState.executing;
  current_attempt = some "x1";
  current_fence = 1;
  acceptance_criteria = "done" ∷ [];
  required_capabilities = [];
  required_enforcement = EnforcementLevel.partial;
  authority_ceiling = [];
  resource_envelope = "env";
  priority = pos 1;
  earliest_start = 0;
  deadline = 0;
  created_at = 1;
  updated_at = 1;
}

abbrev pub worker : Attempt
worker = record {
  id = "x1";
  task = "t1";
  state = AttemptState.leased;
  fence = 1;
  lease_state = LeaseState.active;
  lease_expires_at = 50;
  executor_kind = "codex";
  started_at = 2;
  completed_at = none;
}

abbrev pub sent : Operation
sent = record {
  id = "o1";
  task = "t1";
  attempt = "x1";
  slot = "s1";
  sequence = 1;
  state = OperationState.dispatched;
  intent_fingerprint = "f";
  intent_revision = 1;
  provider = "mail";
  adapter_version = "v1";
  provider_reference = "";
  reservation = "r1";
  risk = "LOW";
  prepared_under = record {
    decision = "d1";
    policy_set = "p1";
    policy_set_hash = "h";
    capabilities_hash = "c";
  };
  dispatched_under = none;
  dispatcher_claim = none;
  approval = "";
  caller_required = [];
  cancel_requested = false;
  created_at = 1;
  dispatched_at = some 3;
  reconciliation_required = false;
  actual_cost = none;
  settled_at = none;
}

abbrev pub database : Database
database = record {
  ledger = record {
    envelopes = record { id = "env"; hard_limit = 100 } ∷ [];
    reservations = reserved ∷ [];
  };
  store = record {
    tasks = work ∷ [];
    attempts = worker ∷ [];
    failures = [];
    challenges = [];
    events = [];
  };
  registry = record { requests = []; decisions = [] };
  policies = [];
  slots = [];
  operations = sent ∷ [];
}

abbrev pub outcome : ProviderOutcome
outcome = record {
  state = OperationState.confirmed_effect;
  provider_reference = " ref ";
  actual_cost = pos 30;
}

abbrev noted : Event
noted = record {
  id = "e1";
  task = "t1";
  attempt = some "x1";
  kind = "OPERATION_OUTCOME_SETTLED";
  at = 9;
}

abbrev paid : Database
paid = record database {
  ledger = record database.ledger { reservations = settle_row 30 9 reserved ∷ [] };
  store = record database.store { events = noted ∷ [] };
  operations = settle_operation outcome 9 sent ∷ [];
}

settled_run :
    settle_outcome "e1" 9 "o1" outcome database ≡ ok (settle_operation outcome 9 sent, paid)
unfolding settle_outcome settle_open settle_in_tx append_operation_event append_event find insert
    update string_dec trim_space
settled_run = refl

again_run : settle_outcome "e2" 12 "o1" outcome paid ≡ ok (settle_operation outcome 9 sent, paid)
unfolding settle_outcome settle_repeated find string_dec trim_space
again_run = refl

settle_outcome-Recorded_example :
    Recorded "o1" outcome (settle_operation outcome 9 sent) database paid
settle_outcome-Recorded_example =
    settle_outcome-Recorded "e1" 9 "o1" outcome database paid (settle_operation outcome 9 sent)
      settled_run

settle_outcome_once_example :
    (paid ≡ paid) × (settle_operation outcome 9 sent ≡ settle_operation outcome 9 sent)
settle_outcome_once_example =
    settle_outcome_once "e1" "e2" 9 12 "o1" outcome outcome database paid paid
      (settle_operation outcome 9 sent) (settle_operation outcome 9 sent) settled_run again_run

settle_outcome_again_example :
    settle_outcome "e3" 14 "o1" outcome paid ≡ ok (settle_operation outcome 9 sent, paid)
settle_outcome_again_example =
    settle_outcome_again "e1" "e3" 9 14 "o1" outcome database paid (settle_operation outcome 9 sent)
      settled_run

abbrev calls : List Call
calls =
    marks_unknown "e2" 10 "o1"
    ∷ settles_as "e3" 11 "o1" outcome
    ∷ settles_as "e4" 12 "o1" (record outcome { actual_cost = pos 31 })
    ∷ cancels "e5" 13 13 sent "x1"
    ∷ []

run_confirmed_example :
    find "o1" (run paid calls).operations ≡ some (settle_operation outcome 9 sent)
unfolding find string_dec
run_confirmed_example = run_confirmed paid calls "o1" (settle_operation outcome 9 sent) refl refl

ledger-IsSound : IsSound database.ledger
unfolding find sum held_weight unresolved_weight string_dec
ledger-IsSound = record {
  unique = (refl, tt);
  limits = λ i e h. ground arith;
  within = λ i e h. ground arith;
}

pub ledger-IsCovered : IsCovered database.ledger
unfolding find sum covered_weight held_weight unresolved_weight string_dec
ledger-IsCovered = record { sound = ledger-IsSound; covers = λ i e h. ground arith }

abbrev prepared_row : Operation
prepared_row = record sent { state = OperationState.prepared }

abbrev prepared : Database
prepared = record database { operations = prepared_row ∷ [] }

cancelled_run :
    cancel_prepared "e1" 8 8 prepared_row "x1" prepared
    ≡ ok (tt, (with_tx (cancel_prepared "e1" 8 8 prepared_row "x1") prepared).1)
unfolding cancel_prepared cancel_open release_in_tx guard_attempt check_guard state_allowed
    task_state_eq append_operation_event append_event find insert update string_dec
cancelled_run = refl

cancel_prepared-Cancelled_example :
    Cancelled 8 prepared_row "x1" prepared
      (with_tx (cancel_prepared "e1" 8 8 prepared_row "x1") prepared).1
cancel_prepared-Cancelled_example =
    cancel_prepared-Cancelled "e1" 8 8 prepared_row "x1" prepared _ cancelled_run
