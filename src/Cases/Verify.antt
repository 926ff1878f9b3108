-- ===== src/Cases/Verify.antt =====
-- internal/workflowcase/service.go: Close, Reject and FindVerification. Of the errors that Close takes for
-- a race, a violated unique index is modelled; a busy database is not.
use meeseek_collective.Common.{
  ℕ, zero, suc, Bool, true, false, ◌||◌, not, Option, none, some, List, [], ◌∷◌, String, ◌==◌,
  if◌then◌else◌, nat_eq,
}
use meeseek_collective.Common.Sets.{has_string}
use meeseek_collective.Common.Text.{trim_space}
use meeseek_collective.Common.Rows.{update, insert, changed}
use meeseek_collective.Common.Result.{
  intent_conflict, no_rows, constraint_failed, failure, Error, Result, ok, err, Tx, ◌>>=◌, ◌>>◌,
  pure, reject_if, gets, lift, with_tx,
}
use meeseek_collective.Approvals.Requests.{same_list}
use meeseek_collective.Cases.{
  CaseState, Case, Verification, Board, Encoding, case_key, verification_key, no_work,
  is_ready_case, load_case, require_mission, normalize_evidence,
}

pub record VerificationRequest : Type 0 where
  pub subject : String
  pub verifier : String
  pub verifier_type : String
  pub snapshot_hash : String
  pub snapshot : String
  pub evidence : List String

-- The request with its texts trimmed and its evidence in order.
unfoldable pub normalize_verification : VerificationRequest → VerificationRequest
normalize_verification r = record {
  subject = trim_space r.subject;
  verifier = trim_space r.verifier;
  verifier_type = trim_space r.verifier_type;
  snapshot_hash = trim_space r.snapshot_hash;
  snapshot = r.snapshot;
  evidence = normalize_evidence r.evidence;
}

-- The unique `case_id` of workflow_verifications.
unfoldable pub verification_of : String → List Verification → Option Verification
verification_of subject [] = none
verification_of subject (v ∷ vs) =
    if v.subject == subject then some v else verification_of subject vs

unfoldable pub has_all : List String → List String → Bool
has_all [] known = true
has_all (x ∷ xs) known = if has_string known x then has_all xs known else false

unfoldable pub require_evidence : List String → Tx Board (Unit {0})
require_evidence ids = do
  known ← gets (λ s. s.evidence)
  reject_if (not (has_all ids known)) (failure "evidence not found")

-- The primary key, and the unique `case_id`.
unfoldable pub insert_verification : Verification → Tx Board (Unit {0})
insert_verification v s = elim (verification_of v.subject s.verifications) [
  | some _ ↦ err constraint_failed
  | none ↦ elim (insert v s.verifications) [
    | some rows ↦ ok (tt, record s { verifications = rows })
    | none ↦ err constraint_failed
  ]
]

abbrev pub finish_case : CaseState → Case → Case
finish_case target c =
    if is_ready_case c.state
    then record c { state = target; current_work = ""; next_work = no_work }
    else c

-- The verification, and the end of the case that is ready for it.
unfoldable pub conclude_case : CaseState → Verification → Tx Board Verification
conclude_case target v = do
  insert_verification v
  rows ← gets (λ s. changed v.subject (λ c. is_ready_case c.state) s.cases)
  reject_if (not (nat_eq rows 1)) (failure "workflow case lost state race")
  λ s. ok (tt, record s { cases = update v.subject (finish_case target) s.cases })
  pure v

-- `compareWorkflowVerification`
unfoldable pub compare_verification : VerificationRequest → Verification → Result Verification
compare_verification r v =
    if not (v.snapshot_hash == r.snapshot_hash) || not (same_list v.evidence r.evidence)
    then err intent_conflict
    else ok v

unfoldable pub new_verification : String → ℕ → VerificationRequest → Verification
new_verification fresh now r = record {
  id = fresh;
  subject = r.subject;
  verifier = r.verifier;
  verifier_type = r.verifier_type;
  snapshot_hash = r.snapshot_hash;
  snapshot = r.snapshot;
  evidence = r.evidence;
  created_at = now;
}

unfoldable pub close_new : String → ℕ → VerificationRequest → Case → Tx Board Verification
close_new fresh now r c = do
  reject_if (not (is_ready_case c.state)) (failure "case is not ready for verification")
  require_evidence r.evidence
  conclude_case CaseState.closed (new_verification fresh now r)

unfoldable pub close_or_replay :
    String → ℕ → VerificationRequest → Case → Option Verification → Tx Board Verification
close_or_replay fresh now r c none = close_new fresh now r c
close_or_replay fresh now r c (some old) = lift (compare_verification r old)

-- The transaction of `Close`, for a request that is normalized.
unfoldable pub close_in_tx : String → ℕ → VerificationRequest → Tx Board Verification
close_in_tx fresh now r = do
  c ← load_case r.subject
  require_mission c.mission
  old ← gets (λ s. verification_of r.subject s.verifications)
  close_or_replay fresh now r c old

-- A race that another call has won is answered with what that call has stored.
unfoldable pub replay_verification : VerificationRequest → Board → Result Verification
replay_verification r s = elim (verification_of r.subject s.verifications) [
  | some v ↦ compare_verification r v
  | none ↦ err no_rows
]

abbrev pub is_race : Error → Bool
is_race constraint_failed = true
is_race _ = false

abbrev pub is_no_rows : Error → Bool
is_no_rows no_rows = true
is_no_rows _ = false

-- What follows an attempt that has failed: its replay, the next attempt, or the end.
unfoldable pub after_race :
    Error → Result Verification → Result Verification × Board → Board → Result Verification × Board
after_race e (ok v) rest s = (ok v, s)
after_race e (err e') rest s = if is_no_rows e' then rest else (err e', s)

unfoldable pub after_attempt :
    VerificationRequest
    → Result Verification × Board
    → Result Verification × Board
    → Result Verification × Board
after_attempt r done rest = elim done.0 [
  | ok v ↦ (ok v, done.1)
  | err e ↦
      if is_race e then after_race e (replay_verification r done.1) rest done.1 else (err e, done.1)
]

-- The attempts, each with a fresh identifier and a reading of the clock; `last` is the error of the one
-- before.
unfoldable pub close_attempts :
    ℕ → (ℕ → String) → (ℕ → ℕ) → VerificationRequest → Error → Board → Result Verification × Board
close_attempts zero fresh now r last s = (err last, s)
close_attempts (suc n) fresh now r last s =
    let done = with_tx (close_in_tx (fresh n) (now n) r) s in
    let rest = close_attempts n fresh now r constraint_failed done.1 in after_attempt r done rest

-- `closeRetryAttempts`
abbrev pub close_retry_attempts : ℕ
close_retry_attempts = 20

unfoldable pub is_blank_verification : VerificationRequest → Bool
is_blank_verification r =
    r.subject == ""
    || r.verifier == ""
    || r.verifier_type == ""
    || r.snapshot_hash == ""
    || trim_space r.snapshot == ""

unfoldable pub close :
    (ℕ → String) → (ℕ → ℕ) → VerificationRequest → Board → Result Verification × Board
close fresh now request s =
    let r = normalize_verification request in
    if is_blank_verification r
    then (err (failure "case, verifier, snapshot hash, and snapshot JSON are required"), s)
    else close_attempts close_retry_attempts fresh now r no_rows s

unfoldable pub rejection : Encoding → String → ℕ → String → String → List String → Verification
rejection e fresh now subject reason evidence = record {
  id = fresh;
  subject = subject;
  verifier = "";
  verifier_type = "REJECT";
  snapshot_hash = "";
  snapshot = e.reason reason;
  evidence = evidence;
  created_at = now;
}

unfoldable pub reject_in_tx :
    Encoding → String → ℕ → String → String → List String → Tx Board Verification
reject_in_tx e fresh now subject reason evidence = do
  c ← load_case subject
  require_mission c.mission
  reject_if (not (is_ready_case c.state)) (failure "case is not ready for rejection")
  require_evidence evidence
  conclude_case CaseState.blocked (rejection e fresh now subject reason evidence)

unfoldable pub reject_case :
    Encoding → String → ℕ → String → String → List String → Tx Board Verification
reject_case e fresh now subject reason evidence = do
  reject_if (trim_space subject == "" || trim_space reason == "")
      (failure "case and rejection reason are required")
  reject_in_tx e fresh now (trim_space subject) (trim_space reason) (normalize_evidence evidence)

unfoldable pub find_verification : String → Board → Result (Option Verification)
find_verification subject s =
    if trim_space subject == ""
    then err (failure "case ID is required")
    else ok (verification_of (trim_space subject) s.verifications)
