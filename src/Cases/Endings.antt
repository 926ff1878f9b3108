-- ===== src/Cases/Endings.antt =====
-- internal/workflowcase: the effect of a verification, of a rejection and of a task on the cases.
use meeseek_collective.Common.{
  ℕ, ◌≡◌, refl, sym, ap, ◌∙◌, ◌⊎◌, inl, inr, Option, none, some, List, String, arith, Option-cases,
}
use meeseek_collective.Common.Text.{trim_space}
use meeseek_collective.Common.Rows.{find, update, insert, KeepsKey}
use meeseek_collective.Common.Result.{ok, lift, Result-cases, with_tx_cases}
use meeseek_collective.Execution.State.{Task}
use meeseek_collective.Execution.Intake.{TaskRequest}
use meeseek_collective.Execution.Creation.{Outside, create_task}
use meeseek_collective.Cases.{
  Observation, CaseState, Case, Verification, Board, Encoding, case_key, verification_key,
  require_mission, normalize_evidence,
}
use meeseek_collective.Cases.Observe.{prepare_observation, ensure_tx, ensure}
use meeseek_collective.Cases.Assess.{assess}
use meeseek_collective.Cases.Verify.{
  VerificationRequest, verification_of, require_evidence, insert_verification, finish_case,
  conclude_case, new_verification, close_new, close_or_replay, close_in_tx, rejection, reject_in_tx,
  reject_case,
}
use meeseek_collective.Cases.Materialize.{
  template_for_case, with_purposes, active_work_guard, create_guarded, materialize_current_case,
  ensure_and_materialize,
}
use meeseek_collective.Cases.Calls.{
  Call, ensures, ensures_task, assesses, closes, rejects, materializes, governs, after,
}
use meeseek_collective.Cases.Steps.{
  Step, stays, opens, moves, finished, mission_stays, prepared_cases, ensure_tx-Step, ensure-Step,
  assess-Step,
}

pub concluded_cases :
    (target : CaseState) (v x : Verification) (s t : Board)
    → conclude_case target v s ≡ ok (x, t)
    → t.cases ≡ update v.subject (finish_case target) s.cases
unfolding conclude_case insert_verification
concluded_cases target v x s t h = elim (Option-cases (verification_of v.subject s.verifications)) [
  | inr (old, e) ↦ absurd (ground (arith, e, h))
  | inl new ↦ elim (Option-cases (insert v s.verifications)) [
    | inl e ↦ absurd (ground (arith, new, e, h))
    | inr (rows, e) ↦ ground (arith, new, e, h)
  ]
]

pub evidence_stays : (ids : List String) (s t : Board) → require_evidence ids s ≡ ok (tt, t) → t ≡ s
unfolding require_evidence
evidence_stays ids s t h = ground arith

finish-KeepsKey : (target : CaseState) → KeepsKey (finish_case target)
finish-KeepsKey target c = ground arith

-- A case that is ready, found under the subject of a verification that is concluded.
concluded-Step :
    (target : CaseState) (v x : Verification) (c : Case) (s t : Board)
    → (target ≡ CaseState.closed) ⊎ (target ≡ CaseState.blocked)
    → find v.subject s.cases ≡ some c
    → c.state ≡ CaseState.ready_for_verification
    → conclude_case target v s ≡ ok (x, t)
    → Step s t
concluded-Step target v x c s t one fc ready h =
    moves v.subject c (finish_case target) fc (finish-KeepsKey target) (finished target ready one)
      (concluded_cases target v x s t h)

close_new-Step :
    (fresh : String) (now : ℕ) (r : VerificationRequest) (c : Case) (s t : Board) (x : Verification)
    → find r.subject s.cases ≡ some c
    → close_new fresh now r c s ≡ ok (x, t)
    → Step s t
unfolding close_new new_verification
close_new-Step fresh now r c s t x fc h = elim (Result-cases (require_evidence r.evidence s)) [
  | inr (e, bad) ↦ absurd (ground (arith, bad, h))
  | inl (_, u, known) ↦
      let same = evidence_stays r.evidence s u known in
      concluded-Step CaseState.closed (new_verification fresh now r) x c s t (inl refl) fc
        (ground (arith, known, same, h)) (ground (arith, known, same, h))
]

close_or_replay-Step :
    (fresh : String) (now : ℕ) (r : VerificationRequest) (c : Case) (old : Option Verification)
    (s t : Board) (x : Verification)
    → find r.subject s.cases ≡ some c
    → close_or_replay fresh now r c old s ≡ ok (x, t)
    → Step s t
unfolding close_or_replay
close_or_replay-Step fresh now r c none s t x fc h = close_new-Step fresh now r c s t x fc h
close_or_replay-Step fresh now r c (some old) s t x fc h = stays (ground (arith, h))

pub close_in_tx-Step :
    (fresh : String) (now : ℕ) (r : VerificationRequest) (s t : Board) (x : Verification)
    → close_in_tx fresh now r s ≡ ok (x, t)
    → Step s t
unfolding close_in_tx
close_in_tx-Step fresh now r s t x h = elim (Option-cases (find r.subject s.cases)) [
  | inl missing ↦ absurd (ground (arith, missing, h))
  | inr (c, fc) ↦ elim (Result-cases (require_mission c.mission s)) [
    | inr (e, bad) ↦ absurd (ground (arith, fc, bad, h))
    | inl (_, u, stands) ↦
        close_or_replay-Step fresh now r c (verification_of r.subject s.verifications) s t x fc
          (ground (arith, fc, stands, mission_stays c.mission s u stands, h))
  ]
]

reject_in_tx-Step :
    (e : Encoding) (fresh : String) (now : ℕ) (subject reason : String) (evidence : List String)
    (s t : Board) (x : Verification)
    → reject_in_tx e fresh now subject reason evidence s ≡ ok (x, t)
    → Step s t
unfolding reject_in_tx rejection
reject_in_tx-Step e fresh now subject reason evidence s t x h =
    elim (Option-cases (find subject s.cases)) [
      | inl missing ↦ absurd (ground (arith, missing, h))
      | inr (c, fc) ↦ elim (Result-cases (require_mission c.mission s)) [
        | inr (e', bad) ↦ absurd (ground (arith, fc, bad, h))
        | inl (_, u, stands) ↦
            let same = mission_stays c.mission s u stands in
            elim (Result-cases (require_evidence evidence s)) [
              | inr (e', bad) ↦ absurd (ground (arith, fc, stands, same, bad, h))
              | inl (_, y, known) ↦
                  let same' = evidence_stays evidence s y known in
                  concluded-Step CaseState.blocked (rejection e fresh now subject reason evidence) x
                    c s t (inr refl) fc (ground (arith, fc, stands, same, known, same', h))
                    (ground (arith, fc, stands, same, known, same', h))
            ]
      ]
    ]

pub reject_case-Step :
    (e : Encoding) (fresh : String) (now : ℕ) (subject reason : String) (evidence : List String)
    (s t : Board) (x : Verification)
    → reject_case e fresh now subject reason evidence s ≡ ok (x, t)
    → Step s t
unfolding reject_case
reject_case-Step e fresh now subject reason evidence s t x h =
    reject_in_tx-Step e fresh now (trim_space subject) (trim_space reason)
      (normalize_evidence evidence) s t x (ground (arith, h))

materialized_stays :
    (o : Outside) (fresh : String) (now : ℕ) (c : Case) (r : TaskRequest) (s t : Board) (x : Task)
    → materialize_current_case o fresh now c r s ≡ ok (x, t)
    → t.cases ≡ s.cases
unfolding materialize_current_case create_guarded
materialized_stays o fresh now c r s t x h = elim (Result-cases (lift (template_for_case c r) s)) [
  | inr (e, bad) ↦ absurd (ground (arith, bad, h))
  | inl (q, u, shaped) ↦
      let same : u ≡ s = ground (arith, shaped) in
      elim (Result-cases
        (create_task (with_purposes o s) fresh now q (active_work_guard c s) s.store)) [
          | inr (e, bad) ↦ absurd (ground (arith, shaped, same, bad, h))
          | inl (y, z, made) ↦ ground (arith, shaped, same, made, h)
        ]
]

-- A step is one of the cases only.
cases-Step : (s y t : Board) → t.cases ≡ y.cases → Step s y → Step s t
cases-Step s y t e (stays w) = stays (e ∙ w)
cases-Step s y t e (opens c v ins) = opens c v (ins ∙ ap some (sym e))
cases-Step s y t e (moves id c f fc keeps m w) = moves id c f fc keeps m (e ∙ w)

ensure_and_materialize-Step :
    (e : Encoding) (o : Outside) (fresh work task : String) (now : ℕ) (observation : Observation)
    (template : TaskRequest) (s t : Board) (x : Case × Task)
    → ensure_and_materialize e o fresh work task now observation template s ≡ ok (x, t)
    → Step s t
unfolding ensure_and_materialize
ensure_and_materialize-Step e o fresh work task now observation template s t x h =
    elim (Result-cases (prepare_observation e fresh work observation s)) [
      | inr (bad, failed) ↦ absurd (ground (arith, failed, h))
      | inl (c, u, prepared) ↦
          let (same, v) = prepared_cases e fresh work observation s u c prepared in
          elim (Result-cases (ensure_tx c s)) [
            | inr (bad, failed) ↦ absurd (ground (arith, prepared, same, failed, h))
            | inl (created, y, ensured) ↦
                elim (Result-cases (materialize_current_case o task now created template y)) [
                  | inr (bad, failed) ↦ absurd (ground (arith, prepared, same, ensured, failed, h))
                  | inl (z, last, made) ↦
                      let end : t ≡ last = ground (arith, prepared, same, ensured, made, h) in
                      cases-Step s y t
                        (ap (λ (b : Board). b.cases) end
                          ∙ materialized_stays o task now created template y last z made)
                        (ensure_tx-Step c created s y v ensured)
                ]
          ]
    ]

pub after-Step : (s : Board) (c : Call) → Step s (after s c)
unfolding after
after-Step s (ensures e fresh work o) =
    with_tx_cases (Step s) (ensure e fresh work o) s (stays refl)
      λ x t h. ensure-Step e fresh work o s t x h
after-Step s (ensures_task e o fresh work task now observation template) =
    with_tx_cases (Step s) (ensure_and_materialize e o fresh work task now observation template) s
      (stays refl)
      λ x t h. ensure_and_materialize-Step e o fresh work task now observation template s t x h
after-Step s (assesses e w r) =
    with_tx_cases (Step s) (assess e w r) s (stays refl) λ x t h. assess-Step e w r s t x h
after-Step s (closes fresh now r) =
    with_tx_cases (Step s) (close_in_tx fresh now r) s (stays refl)
      λ x t h. close_in_tx-Step fresh now r s t x h
after-Step s (rejects e fresh now subject reason evidence) =
    with_tx_cases (Step s) (reject_case e fresh now subject reason evidence) s (stays refl)
      λ x t h. reject_case-Step e fresh now subject reason evidence s t x h
after-Step s (materializes o fresh now c template) =
    with_tx_cases (Step s) (materialize_current_case o fresh now c template) s (stays refl)
      λ x t h. stays (materialized_stays o fresh now c template s t x h)
after-Step s (governs c) = stays refl
