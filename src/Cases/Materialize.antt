-- ===== src/Cases/Materialize.antt =====
-- internal/workflowcase/materialize.go and ensure_materialize.go: the task of a case's current work.
use meeseek_collective.Common.{
  ℕ, Bool, true, false, ◌&&◌, ◌||◌, not, List, [], ◌∷◌, String, ◌==◌, if◌then◌else◌,
}
use meeseek_collective.Common.Text.{trim_space}
use meeseek_collective.Common.Result.{failure, Result, ok, err, Tx, ◌>>=◌, pure, lift, with_tx}
use meeseek_collective.Common.Run.{Run}
use meeseek_collective.Domain.{PurposeKind}
use meeseek_collective.Purpose.{validate_purpose}
use meeseek_collective.Execution.State.{Task}
use meeseek_collective.Execution.Intake.{TaskRequest}
use meeseek_collective.Execution.Creation.{Outside, Guard, create_task}
use meeseek_collective.Cases.{
  Observation, Case, Board, Encoding, case_key, is_active_case, on_store,
}
use meeseek_collective.Cases.Observe.{get_case, ensure_tx, prepare_observation}

unfoldable pub has_nonblank_criterion : List String → Bool
has_nonblank_criterion [] = false
has_nonblank_criterion (c ∷ cs) = if trim_space c == "" then has_nonblank_criterion cs else true

unfoldable pub template_for_case : Case → TaskRequest → Result TaskRequest
template_for_case c r =
    if trim_space r.objective == ""
      || not (has_nonblank_criterion r.acceptance_criteria)
      || trim_space r.resource_envelope == ""
    then err
        (failure "task template requires objective, acceptance criteria, and resource envelope")
    else ok (record r {
      purpose = record { kind = PurposeKind.mission; id = c.mission };
      task_class = c.next_work.kind;
      required_capabilities = c.next_work.required_capabilities;
      authority_ceiling = c.next_work.authority_ceiling;
      idempotency_key = c.current_work;
    })

-- The query of `activeWorkGuard` over the rows of the same transaction.
unfoldable pub is_active_work : Case → List Case → Bool
is_active_work c [] = false
is_active_work c (x ∷ xs) =
    if x.id == c.id
      && x.mission == c.mission
      && is_active_case x.state
      && x.current_work == c.current_work
    then true
    else is_active_work c xs

unfoldable pub active_work_guard : Case → Board → Guard
active_work_guard c s store =
    if is_active_work c s.cases
    then ok tt
    else err (failure "work is not the active work for this case")

-- The execution service checks a purpose against the purposes of the same transaction.
abbrev pub with_purposes : Outside → Board → Outside
with_purposes o s = record o { validate_purpose = λ store p. validate_purpose s.purposes p }

-- `CreateTaskWithGuardInTx`
unfoldable pub create_guarded : Outside → String → ℕ → Case → TaskRequest → Tx Board Task
create_guarded o fresh now c r s =
    on_store (create_task (with_purposes o s) fresh now r (active_work_guard c s)) s

unfoldable pub materialize_current_case : Outside → String → ℕ → Case → TaskRequest → Tx Board Task
materialize_current_case o fresh now c template = do
  r ← lift (template_for_case c template)
  create_guarded o fresh now c r

-- The case is read before the transaction, whose guard reads it again.
unfoldable pub check_active_work : String → Case → Result (Unit {0})
check_active_work work c =
    if not (is_active_case c.state) || not (c.current_work == work) || trim_space work == ""
    then err (failure "work is not the active work for this case")
    else ok tt

unfoldable pub materialize_task :
    Outside → String → ℕ → String → String → TaskRequest → Run Board Task
materialize_task o fresh now id work template s = elim (get_case id s) [
  | err e ↦ (err e, s)
  | ok c ↦ elim (check_active_work work c) [
    | err e ↦ (err e, s)
    | ok u ↦ with_tx (materialize_current_case o fresh now c template) s
  ]
]

-- The case and its first task in one transaction.
unfoldable pub ensure_and_materialize :
    Encoding
    → Outside
    → String
    → String
    → String
    → ℕ
    → Observation
    → TaskRequest
    → Tx Board (Case × Task)
ensure_and_materialize e o fresh work task now observation template = do
  c ← prepare_observation e fresh work observation
  created ← ensure_tx c
  t ← materialize_current_case o task now created template
  pure (created, t)
