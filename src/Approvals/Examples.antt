-- ===== src/Approvals/Examples.antt =====
-- The theorems on approvals at one request that two approvers decide.
use meeseek_collective.Common.{◌≡◌, refl, inl, some, none, List, [], ◌∷◌, true, String, string_dec}
use meeseek_collective.Common.Text.{trim_space}
use meeseek_collective.Common.Sets.{has_string, normalize, insert_sorted}
use meeseek_collective.Common.Rows.{find, insert, update, count, changed}
use meeseek_collective.Common.Result.{ok, err, Error}
use meeseek_collective.Domain.{ApprovalState}
use meeseek_collective.Approvals.Requests.{
  approve, CreateRequest, Request, Registry, request_key, validate_create, same_create,
  load_by_subject_digest, new_request, create_in_tx, same_digest, clean_ids,
}
use meeseek_collective.Approvals.Decisions.{
  find_decision, terminalize, conclude, record_decision, decide, consume_in_tx, Call, creates,
  decides, after, run,
}
use meeseek_collective.Approvals.Tally.{approved_by, tally}
use meeseek_collective.Approvals.Unanimity.{IsSound}
use meeseek_collective.Approvals.Grant.{run_unanimous}
use meeseek_collective.Approvals.Lifecycle.{run_terminal, run_unexpired, consume_once, create_again}

abbrev pub nothing : Registry
nothing = record { requests = []; decisions = [] }

abbrev request : CreateRequest
request = record {
  subject_kind = "EXTERNAL_OPERATION";
  subject = "op1";
  digest = "d";
  policy_decision = "p1";
  required = "bob" ∷ " ann " ∷ "bob" ∷ [];
  requested_by = "task";
  expires_at = 100;
}

abbrev calls : List Call
calls =
    creates "a1" 1 request
    ∷ decides 2 "a1" "ann" "d" approve
    ∷ decides 3 "a1" "bob" "d" approve
    ∷ []

abbrev granted_row : Request
granted_row = record {
  id = "a1";
  subject_kind = "EXTERNAL_OPERATION";
  subject = "op1";
  digest = "d";
  policy_decision = "p1";
  required = "ann" ∷ "bob" ∷ [];
  requested_by = "task";
  state = ApprovalState.approved;
  expires_at = 100;
  decided_at = some 3;
  approver = some "bob";
  action = some approve;
  created_at = 1;
}

pub nothing-IsSound : IsSound nothing
unfolding find count tally approved_by
nothing-IsSound = record {
  rows = λ i r e. absurd (cc);
  strangers = λ i e. record { uncounted = refl; untallied = untallied_nothing i };
}
  where
    untallied_nothing : (i : String) (xs : List String) → tally i [] xs ≡ 0
    untallied_nothing i [] = refl
    untallied_nothing i (x ∷ xs) = untallied_nothing i xs

run_row : find "a1" (run nothing calls).requests ≡ some granted_row
unfolding run after create_in_tx validate_create clean_ids normalize insert_sorted
    load_by_subject_digest new_request decide record_decision conclude terminalize find_decision
    has_string count changed find insert update same_digest string_dec trim_space
run_row = refl

run_unanimous_example : approved_by "a1" (run nothing calls).decisions "ann" ≡ true
unfolding has_string string_dec
run_unanimous_example =
    run_unanimous nothing calls "a1" granted_row "ann" nothing-IsSound run_row (inl refl) refl

abbrev refused : Registry
refused = record {
  requests = record granted_row { state = ApprovalState.rejected } ∷ [];
  decisions = [];
}

run_terminal_example :
    find "a1" (run refused calls).requests
    ≡ some (record granted_row { state = ApprovalState.rejected })
unfolding find string_dec
run_terminal_example =
    run_terminal refused calls "a1" (record granted_row { state = ApprovalState.rejected }) refl
      (inl refl)

abbrev lapsed : Registry
lapsed = record {
  requests = record granted_row { state = ApprovalState.expired } ∷ [];
  decisions = [];
}

run_unexpired_example :
    find "a1" lapsed.requests ≡ some (record granted_row { state = ApprovalState.expired })
unfolding run after create_in_tx validate_create clean_ids normalize insert_sorted
    load_by_subject_digest same_create decide consume_in_tx find insert update same_digest
    string_dec trim_space
run_unexpired_example =
    run_unexpired lapsed calls "a1" (record granted_row { state = ApprovalState.expired }) refl refl

abbrev usable : Registry
usable = record { requests = granted_row ∷ []; decisions = [] }

abbrev used : Registry
used = record {
  requests = record granted_row { state = ApprovalState.consumed } ∷ [];
  decisions = [];
}

consume_once_example : (e : Error) × (consume_in_tx 6 "a1" "d" (run used calls) ≡ err e)
unfolding consume_in_tx find changed count update same_digest string_dec trim_space
consume_once_example = consume_once 5 6 "a1" "d" "d" usable used calls refl

abbrev opened : Registry
opened = record {
  requests =
      record granted_row {
        state = ApprovalState.pending;
        decided_at = none;
        approver = none;
        action = none;
      }
      ∷ [];
  decisions = [];
}

create_again_example :
    create_in_tx "a2" 1 request opened
    ≡ ok (
      record granted_row {
        state = ApprovalState.pending;
        decided_at = none;
        approver = none;
        action = none;
      },
      opened,
    )
unfolding create_in_tx validate_create clean_ids normalize insert_sorted load_by_subject_digest
    new_request find insert string_dec trim_space
create_again_example = create_again "a1" "a2" 1 request nothing opened _ refl
