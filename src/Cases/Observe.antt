-- ===== src/Cases/Observe.antt =====
-- internal/workflowcase/service.go: Ensure, and the queries of cases.
use meeseek_collective.Common.{
  Bool, true, false, ◌&&◌, ◌||◌, not, Option, none, some, List, [], ◌∷◌, String, ◌==◌,
  if◌then◌else◌,
}
use meeseek_collective.Common.Int.{pos, leb_ℤ}
use meeseek_collective.Common.Text.{trim_space}
use meeseek_collective.Common.Rows.{find, insert}
use meeseek_collective.Common.Result.{
  no_rows, constraint_failed, failure, Result, ok, err, Tx, ◌>>=◌, ◌>>◌, pure, reject_if, gets,
  lift,
}
use meeseek_collective.Workflow.{Verdict, Outcome, Decision, decide}
use meeseek_collective.Cases.{
  Observation, CaseState, Case, Board, Encoding, case_key, is_active_case, is_ready_case,
  require_mission,
}

abbrev pub is_continue : Outcome → Bool
is_continue Outcome.continue = true
is_continue _ = false

-- The first work has to be one that the decision goes on with.
unfoldable pub decide_first : Observation → Result Decision
decide_first o = decide (record {
  assessment = record {
    verdict = Verdict.continue;
    reason = "";
    evidence_ids = o.evidence ∷ [];
    next = some o.first_work;
  };
  grant = o.grant;
  limits = record { max_steps = o.max_steps; remaining_budget = o.remaining_budget };
  completed_steps = pos 0;
  progress_signature = "";
  previous_progress_signature = "";
})

unfoldable pub is_incomplete : Observation → Bool
is_incomplete o =
    trim_space o.mission == ""
    || trim_space o.source == ""
    || trim_space o.object == ""
    || trim_space o.revision == ""
    || trim_space o.evidence == ""
    || trim_space o.first_work.kind == ""
    || leb_ℤ o.max_steps (pos 0)
    || leb_ℤ o.remaining_budget (pos 0)

unfoldable pub first_case : Encoding → String → String → Observation → Case
first_case e fresh work o = record {
  id = fresh;
  mission = o.mission;
  current_work = work;
  source = o.source;
  object = o.object;
  revision = o.revision;
  observation_evidence = o.evidence;
  state = CaseState.active;
  next_work = o.first_work;
  grant = o.grant;
  completed_steps = 0;
  max_steps = o.max_steps;
  remaining_budget = o.remaining_budget;
  progress_signature = "";
  initial_request = e.observation o;
}

-- `prepareObservation`: the row that is stored, unless there is one for the revision.
unfoldable pub prepare_observation : Encoding → String → String → Observation → Tx Board Case
prepare_observation e fresh work o = do
  reject_if (is_incomplete o)
      (failure "observation identity, evidence, first work, and positive limits are required")
  d ← lift (decide_first o)
  reject_if (not (is_continue d.outcome)) (failure "first work decision")
  pure (first_case e fresh work o)

-- The unique index on (mission_id, source, object_id, revision_id).
unfoldable pub find_revision : String → String → String → String → List Case → Option Case
find_revision mission source object revision [] = none
find_revision mission source object revision (c ∷ cs) =
    if c.mission == mission && c.source == source && c.object == object && c.revision == revision
    then some c
    else find_revision mission source object revision cs

unfoldable pub insert_case : Case → Tx Board (Unit {0})
insert_case c s = elim (insert c s.cases) [
  | some rows ↦ ok (tt, record s { cases = rows })
  | none ↦ err constraint_failed
]

-- `INSERT … ON CONFLICT DO NOTHING`, the query of the row, and the comparison with what was asked for.
unfoldable pub ensure_row : Case → Option Case → Tx Board Case
ensure_row c none = do insert_case c; pure c
ensure_row c (some old) = do
  reject_if (not (old.initial_request == c.initial_request))
      (failure "observation revision already exists with a different initial request")
  pure old

unfoldable pub ensure_tx : Case → Tx Board Case
ensure_tx c = do
  require_mission c.mission
  old ← gets (λ s. find_revision c.mission c.source c.object c.revision s.cases)
  ensure_row c old

unfoldable pub ensure : Encoding → String → String → Observation → Tx Board Case
ensure e fresh work o = do c ← prepare_observation e fresh work o; ensure_tx c

unfoldable pub get_case : String → Board → Result Case
get_case id s =
    if trim_space id == ""
    then err (failure "case ID is required")
    else elim (find id s.cases) [ some c ↦ ok c | none ↦ err no_rows ]

unfoldable pub find_case : String → String → String → String → Board → Option Case
find_case mission source object revision s = find_revision mission source object revision s.cases

-- The queries of the cases of a mission in a state, but for the order of the rows.
unfoldable pub cases_in : (CaseState → Bool) → String → List Case → List Case
cases_in p mission [] = []
cases_in p mission (c ∷ cs) =
    let rest = cases_in p mission cs in if p c.state && c.mission == mission then c ∷ rest else rest

unfoldable pub list_active : String → Board → Result (List Case)
list_active mission s =
    if trim_space mission == ""
    then err (failure "mission ID is required")
    else ok (cases_in is_active_case (trim_space mission) s.cases)

unfoldable pub list_ready_for_verification : String → Board → Result (List Case)
list_ready_for_verification mission s =
    if trim_space mission == ""
    then err (failure "mission ID is required")
    else ok (cases_in is_ready_case (trim_space mission) s.cases)
