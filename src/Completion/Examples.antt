-- ===== src/Completion/Examples.antt =====
-- The theorems on the verification at one task that another waits for.
use meeseek_collective.Common.{refl, some, none, [], ◌∷◌, true, ◌≡◌, string_dec}
use meeseek_collective.Common.Text.{trim_space}
use meeseek_collective.Common.Sets.{has_string, insert_sorted}
use meeseek_collective.Common.Rows.{find, insert, update, changed, count}
use meeseek_collective.Common.Result.{ok}
use meeseek_collective.Domain.{TaskState}
use meeseek_collective.Execution.State.{
  Task, task_key, attempt_key, event_key, update_task, append_event,
}
use meeseek_collective.Execution.Examples.{busy_task, second}
use meeseek_collective.Cases.{normalize_evidence}
use meeseek_collective.Cases.Verify.{has_all}
use meeseek_collective.Completion.{
  AcceptanceRequest, AcceptanceDraws, Desk, completion_of, acceptance_of, insert_acceptance,
  waits_for, is_done, all_done, release_row, release_dependents, require_known, awaited_attempt,
  new_acceptance, record_acceptance, accept_in_tx, accept_task,
}
use meeseek_collective.Completion.Release.{accept_task-releases}
use meeseek_collective.Completion.Effect.{IsAccepted, accept_task-IsAccepted}

abbrev awaiting_task : Task
awaiting_task = record busy_task { state = TaskState.awaiting_verification }

abbrev next_task : Task
next_task = record busy_task { id = "t2"; state = TaskState.created; current_attempt = none }

abbrev before : Desk
before = record {
  store = record {
    tasks = awaiting_task ∷ next_task ∷ [];
    attempts = second ∷ [];
    failures = [];
    challenges = [];
    events = [];
  };
  evidence = "ev1" ∷ [];
  completions =
      record {
        id = "p1";
        task = "t1";
        attempt = "x2";
        manifest_hash = "h";
        evidence = "ev1" ∷ [];
        completed_at = 30;
      }
      ∷ [];
  works = [];
  acceptances = [];
  dependencies = ("t2", "t1") ∷ [];
}

abbrev request : AcceptanceRequest
request = record {
  verifier = "ann";
  verifier_type = "HUMAN";
  criteria_met = true;
  evidence = "ev1" ∷ [];
}

abbrev draws : AcceptanceDraws
draws = record { acceptance = "k1"; event = "e9"; now = 40 }

abbrev accepted_desk : Desk
accepted_desk = record before {
  store = record before.store {
    tasks =
        record awaiting_task { state = TaskState.succeeded; updated_at = 40 }
        ∷ record next_task { state = TaskState.eligible; updated_at = 40 }
        ∷ [];
    events =
        record { id = "e9"; task = "t1"; attempt = some "x2"; kind = "TASK_ACCEPTED"; at = 40 }
        ∷ [];
  };
  acceptances = new_acceptance draws "t1" "x2" request ∷ [];
}

acceptance_run :
    accept_task draws "t1" request before
    ≡ ok (new_acceptance draws "t1" "x2" request, accepted_desk)
unfolding accept_task accept_in_tx awaited_attempt completion_of require_known record_acceptance
    insert_acceptance acceptance_of new_acceptance release_dependents release_row waits_for all_done
    is_done normalize_evidence insert_sorted has_all has_string update_task append_event find insert
    update changed count string_dec trim_space
acceptance_run = refl

accept_task-IsAccepted_example :
    IsAccepted "t1" 40 request (new_acceptance draws "t1" "x2" request) before accepted_desk
accept_task-IsAccepted_example =
    accept_task-IsAccepted draws "t1" request (new_acceptance draws "t1" "x2" request) before
      accepted_desk acceptance_run

abbrev released_task : Task
released_task = record next_task { state = TaskState.eligible; updated_at = 40 }

accept_task-releases_example :
    (released_task.state ≡ TaskState.eligible)
    × (all_done "t2" before.dependencies accepted_desk.store.tasks ≡ true)
unfolding find string_dec
accept_task-releases_example =
    accept_task-releases draws "t1" "t2" request (new_acceptance draws "t1" "x2" request) before
      accepted_desk next_task released_task acceptance_run refl refl refl (λ e. cc)
