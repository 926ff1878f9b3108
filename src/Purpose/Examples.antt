-- ===== src/Purpose/Examples.antt =====
-- The theorem on missions at one mission that is deactivated.
use meeseek_collective.Common.{◌≡◌, refl, none, [], ◌∷◌, List, true, string_dec}
use meeseek_collective.Common.Rows.{find, update, changed, count}
use meeseek_collective.Common.Result.{err, invalid_purpose}
use meeseek_collective.Domain.{PurposeKind}
use meeseek_collective.Purpose.{
  Purposes, mission_key, deactivate_mission, validate_purpose, Call, creates_mission, deactivates,
  after, run,
}
use meeseek_collective.Purpose.Missions.{run_deactivated}

abbrev standing : Purposes
standing = record {
  missions =
      record {
        id = "m1";
        statement = "serve";
        active = true;
        created_at = 1;
        deactivated_at = none;
      }
      ∷ [];
  goals = [];
  obligations = [];
}

abbrev calls : List Call
calls = creates_mission "m2" 6 "serve again" ∷ creates_mission "m1" 7 "serve" ∷ []

run_deactivated_example :
    validate_purpose
      (run (after standing (deactivates 5 "m1")) calls)
      (record { kind = PurposeKind.mission; id = "m1" })
    ≡ err invalid_purpose
unfolding after deactivate_mission find update changed count string_dec
run_deactivated_example = run_deactivated 5 "m1" standing _ calls refl
