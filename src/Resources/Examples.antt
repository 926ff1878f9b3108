-- ===== src/Resources/Examples.antt =====
-- The ledger's theorems at one envelope of 100 units, with 40 of them held and 10 settled.
use meeseek_collective.Common.{
  ◌+◌, ◌≡◌, refl, inl, some, none, List, [], ◌∷◌, true, arith, string_dec,
}
use meeseek_collective.Common.Int.{pos, negsuc, ◌-ℤ◌, wrap64}
use meeseek_collective.Common.Text.{trim_space}
use meeseek_collective.Common.Rows.{find, insert, sum, update}
use meeseek_collective.Common.Result.{ok, err, failure, budget_exceeded}
use meeseek_collective.Domain.{held, settled, unresolved}
use meeseek_collective.Resources.{
  Ledger, Reservation, Enforceability, CostControl, Call, move_row, reserves, settles_at,
  marks_unresolved, envelope_key, reservation_key, run, after, held_weight, unresolved_weight,
  settled_weight, available_in, new_reservation, reserve_in_tx, settle_in_tx, settle_row,
  mark_unresolved_in_tx, validate_reservation_request,
}
use meeseek_collective.Resources.Cover.{IsCovered, covered_weight, run-IsCovered}
use meeseek_collective.Resources.Budget.{IsSound, spent, exposure, available_in_exact}
use meeseek_collective.Resources.Lifecycle.{
  run-final, reserve_in_tx_decides, mark_unresolved_in_tx-exposure, settle_in_tx_again,
}

abbrev capped : Enforceability
capped = record {
  cost_control = CostControl.prepaid_quota;
  require_hard_cap = true;
  source = "plan";
}

abbrev open_row : Reservation
open_row = record {
  id = "r1";
  envelope = "env";
  state = held;
  amount = 40;
  settled_amount = none;
  cost_control = CostControl.prepaid_quota;
  cost_source = "plan";
  require_hard_cap = true;
  created_at = 1;
  updated_at = 1;
}

abbrev paid_row : Reservation
paid_row = record open_row { id = "r0"; state = settled; amount = 20; settled_amount = some 10 }

abbrev ledger : Ledger
ledger = record {
  envelopes = record { id = "env"; hard_limit = 100 } ∷ [];
  reservations = open_row ∷ paid_row ∷ [];
}

ledger-IsSound : IsSound ledger
unfolding find sum held_weight unresolved_weight string_dec
ledger-IsSound = record {
  unique = (refl, (refl, tt));
  limits = λ i e h. ground arith;
  within = λ i e h. ground arith;
}

abbrev calls : List Call
calls =
    reserves "r2" 5 "env" (pos 60) capped
    ∷ reserves "r3" 6 "env" (pos 50) capped
    ∷ marks_unresolved 7 "r1"
    ∷ settles_at 8 "r0" (pos 11)
    ∷ settles_at 9 "r3" (pos 70)
    ∷ []

run-calls :
    (sum (settled_weight "env") (run ledger calls).reservations ≡ 80)
    × (sum (unresolved_weight "env") (run ledger calls).reservations ≡ 40)
    × (available_in "env" (run ledger calls) ≡ ok (negsuc 19, run ledger calls))
unfolding run after reserve_in_tx validate_reservation_request available_in new_reservation
    settle_in_tx mark_unresolved_in_tx find insert update sum string_dec trim_space wrap64 ◌-ℤ◌
run-calls = (refl, refl, refl)

ledger-IsCovered : IsCovered ledger
unfolding find sum held_weight unresolved_weight covered_weight string_dec
ledger-IsCovered = record { sound = ledger-IsSound; covers = λ i e h. ground arith }

run-IsCovered_example : IsCovered (run ledger calls)
run-IsCovered_example = run-IsCovered ledger calls ledger-IsCovered

available_in_exact_example :
    available_in "env" ledger
    ≡ ok (pos 100 -ℤ pos (spent "env" ledger + exposure "env" ledger), ledger)
unfolding find sum settled_weight string_dec
available_in_exact_example =
    available_in_exact "env" (record { id = "env"; hard_limit = 100 }) ledger ledger-IsSound refl
      (omega arith)

run-final_example : find "r0" (run ledger calls).reservations ≡ some paid_row
unfolding find string_dec
run-final_example = run-final ledger calls "r0" paid_row refl (inl refl)

reserve_in_tx_decides_example :
    reserve_in_tx "r2" 5 "env" (pos 51) capped ledger ≡ err budget_exceeded
unfolding find sum held_weight unresolved_weight settled_weight validate_reservation_request
    string_dec trim_space
reserve_in_tx_decides_example =
    (reserve_in_tx_decides "r2" 5 "env" 51 capped (record { id = "env"; hard_limit = 100 }) ledger
      ledger-IsSound refl refl refl (omega arith)).0

mark_unresolved_in_tx-exposure_example :
    exposure "env"
      (record ledger { reservations = update "r1" (move_row unresolved 7) ledger.reservations })
    ≡ exposure "env" ledger
unfolding find mark_unresolved_in_tx string_dec
mark_unresolved_in_tx-exposure_example =
    (mark_unresolved_in_tx-exposure 7 "r1" ledger _ "env" ledger-IsSound refl).0

settle_in_tx_again_example :
    settle_in_tx 9 "r1"
      (pos 31)
      (record ledger { reservations = update "r1" (settle_row 30 8) ledger.reservations })
    ≡ err (failure "reservation already settled with a different actual amount")
unfolding find settle_in_tx string_dec
settle_in_tx_again_example = (settle_in_tx_again 8 9 "r1" 30 31 ledger _ refl)
