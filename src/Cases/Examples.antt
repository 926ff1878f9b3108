-- ===== src/Cases/Examples.antt =====
-- The theorems on cases at one case that is ready for its verification.
use meeseek_collective.Common.{◌≡◌, refl, none, some, [], ◌∷◌, List, true, false, string_dec, arith}
use meeseek_collective.Common.Int.{pos}
use meeseek_collective.Common.Rows.{find, update, insert, changed, count}
use meeseek_collective.Common.Result.{Error, ok, err, invalid_purpose}
use meeseek_collective.Workflow.{Verdict}
use meeseek_collective.Execution.Examples.{idle}
use meeseek_collective.Purpose.{
  Purposes, mission_key, is_active_mission, stands, validate_purpose, deactivates,
}
use meeseek_collective.Purpose.Missions.{IsEnded}
use meeseek_collective.Cases.{
  Observation, CaseState, Case, AssessmentRequest, Board, Encoding, case_key, verification_key,
  no_work,
}
use meeseek_collective.Cases.Observe.{ensure}
use meeseek_collective.Cases.Assess.{StepDraws, find_assessment, assess}
use meeseek_collective.Cases.Verify.{
  VerificationRequest, verification_of, has_all, require_evidence, insert_verification, finish_case,
  conclude_case, new_verification, close_new, close_or_replay, close_in_tx, reject_in_tx,
}
use meeseek_collective.Cases.Calls.{Call, closes, governs, assesses, run}
use meeseek_collective.Cases.Invariant.{IsSoundBoard, run-IsSoundBoard, Succeeds, run-Succeeds}
use meeseek_collective.Cases.Replay.{close_in_tx_again, IsEnded-refuses}

abbrev ready_case : Case
ready_case = record {
  id = "c1";
  mission = "m1";
  current_work = "";
  source = "ado";
  object = "item";
  revision = "1";
  observation_evidence = "ev1";
  state = CaseState.ready_for_verification;
  next_work = no_work;
  grant = record { capabilities = "repo.read" ∷ []; actions = [] };
  completed_steps = 2;
  max_steps = pos 5;
  remaining_budget = pos 10;
  progress_signature = "s2";
  initial_request = "{}";
}

abbrev purposes : Purposes
purposes = record {
  missions =
      record {
        id = "m1";
        statement = "serve";
        active = true;
        created_at = 1;
        deactivated_at = none;
      }
      ∷ [];
  goals = [];
  obligations = [];
}

abbrev board : Board
board = record {
  purposes = purposes;
  store = idle;
  evidence = [];
  cases = ready_case ∷ [];
  assessments = [];
  verifications = [];
}

abbrev request : VerificationRequest
request = record {
  subject = "c1";
  verifier = "ann";
  verifier_type = "HUMAN";
  snapshot_hash = "h";
  snapshot = "{}";
  evidence = [];
}

abbrev closed_board : Board
closed_board = record board {
  cases = finish_case CaseState.closed ready_case ∷ [];
  verifications = new_verification "v1" 9 request ∷ [];
}

closed_run : close_in_tx "v1" 9 request board ≡ ok (new_verification "v1" 9 request, closed_board)
unfolding close_in_tx close_or_replay close_new conclude_case insert_verification verification_of
    new_verification require_evidence has_all validate_purpose stands is_active_mission find insert
    update changed count string_dec
closed_run = refl

close_in_tx_again_example :
    close_in_tx "v2" 12 request closed_board ≡ ok (new_verification "v1" 9 request, closed_board)
close_in_tx_again_example =
    close_in_tx_again "v1" "v2" 9 12 request board closed_board (new_verification "v1" 9 request)
      closed_run

abbrev encoding : Encoding
encoding = record { observation = λ o. o.object; assessment = λ r. r.work; reason = λ x. x }

abbrev step : AssessmentRequest
step = record {
  subject = "c1";
  work = "w2";
  assessment = record {
    verdict = Verdict.ready;
    reason = "done";
    evidence_ids = "ev2" ∷ [];
    next = none;
  };
  remaining_budget = pos 9;
  progress_signature = "s3";
}

abbrev draws : StepDraws
draws = record { work = "w3"; assessment = "a1"; now = 8 }

abbrev calls : List Call
calls = assesses encoding draws step ∷ closes "v1" 9 request ∷ governs (deactivates 10 "m1") ∷ []

board-IsSoundBoard : IsSoundBoard board
unfolding find string_dec
board-IsSoundBoard = record {
  rows = λ i c f. record {
    live = λ active. absurd (ground (arith, f, active));
    idle = λ h. ground (arith, f);
  };
}

run-IsSoundBoard_example : IsSoundBoard (run board calls)
run-IsSoundBoard_example = run-IsSoundBoard board calls board-IsSoundBoard

run-Succeeds_example :
    (d : Case) × (find "c1" (run board calls).cases ≡ some d) × Succeeds ready_case d
unfolding find string_dec
run-Succeeds_example = run-Succeeds board calls "c1" ready_case refl

abbrev halted : Board
halted = record board {
  purposes = record purposes {
    missions =
        record {
          id = "m1";
          statement = "serve";
          active = false;
          created_at = 1;
          deactivated_at = some 5;
        }
        ∷ [];
  };
}

halted-IsEnded : IsEnded "m1" halted.purposes
unfolding find string_dec
halted-IsEnded = record { mission = _; row = refl; inactive = refl }

abbrev observation : Observation
observation = record {
  mission = "m1";
  source = "ado";
  object = "item";
  revision = "2";
  evidence = "ev3";
  first_work = no_work;
  grant = ready_case.grant;
  max_steps = pos 3;
  remaining_budget = pos 7;
}

IsEnded-refuses_example :
    ((x : Error) × (ensure encoding "c2" "w1" observation halted ≡ err x))
    × ((x : Error) × (assess encoding draws step halted ≡ err x))
    × (close_in_tx "c2" 9 request halted ≡ err invalid_purpose)
    × (reject_in_tx encoding "c2" 9 "c1" "bad" [] halted ≡ err invalid_purpose)
unfolding find find_assessment string_dec
IsEnded-refuses_example =
    IsEnded-refuses encoding draws step request observation "c2" "w1" "bad" 9 [] ready_case halted
      halted-IsEnded refl refl refl refl
