-- ===== src/Purpose/Missions.antt =====
-- internal/purpose/service.go: the end of a mission.
use meeseek_collective.Common.{
  ℕ, ◌≡◌, ap, ◌∙◌, sym, subst, inl, inr, true, false, none, some, List, [], ◌∷◌, String, arith,
  Option-cases, string_dec,
}
use meeseek_collective.Common.Rows.{
  find, update, insert, changed, find-insert_other, find-update_self, find-update_ne,
  changed_missing,
}
use meeseek_collective.Common.Result.{ok, err, with_tx_cases, invalid_purpose, Result-cases}
use meeseek_collective.Common.Text.{trim_space}
use meeseek_collective.Domain.{PurposeKind, PurposeRef}
use meeseek_collective.Purpose.{
  Mission, Purposes, mission_key, goal_key, obligation_key, insert_mission, create_mission,
  deactivate_row, deactivate_mission, create_goal, insert_goal, create_obligation,
  insert_obligation, is_active_mission, stands, validate_purpose, Call, creates_mission,
  deactivates, creates_goal, creates_obligation, after, run,
}

-- The mission has been there and is not active.
pub record IsEnded (id : String) (s : Purposes) : Type 0 where
  pub mission : Mission
  pub row : find id s.missions ≡ some mission
  pub inactive : mission.active ≡ false

insert_cases :
    (m : Mission) (s t : Purposes)
    → insert_mission m s ≡ ok (tt, t)
    → insert m s.missions ≡ some t.missions
unfolding insert_mission
insert_cases m s t h = elim (Option-cases (insert m s.missions)) [
  | inl e ↦ absurd (ground (arith, e, h))
  | inr (rows, e) ↦ ground (arith, e, h)
]

created_cases :
    (fresh : String) (now : ℕ) (statement : String) (s t : Purposes) (u : String)
    → create_mission fresh now statement s ≡ ok (u, t)
    → (m : Mission) × (insert m s.missions ≡ some t.missions)
unfolding create_mission
created_cases fresh now statement s t u h =
    let m : Mission = record {
      id = fresh;
      statement = trim_space statement;
      active = true;
      created_at = now;
      deactivated_at = none;
    } in
    elim (Result-cases (insert_mission m s)) [
      | inr (e, bad) ↦ absurd (ground (arith, bad, h))
      | inl (_, v, done) ↦ (m, insert_cases m s t (ground (arith, done, h)))
    ]

goal_cases :
    (fresh : String) (now : ℕ) (p : PurposeRef) (statement : String) (s t : Purposes) (u : String)
    → create_goal fresh now p statement s ≡ ok (u, t)
    → t.missions ≡ s.missions
unfolding create_goal insert_goal
goal_cases fresh now p statement s t u h = ground arith

obligation_cases :
    (fresh : String) (now : ℕ) (source statement : String) (s t : Purposes) (u : String)
    → create_obligation fresh now source statement s ≡ ok (u, t)
    → t.missions ≡ s.missions
unfolding create_obligation insert_obligation
obligation_cases fresh now source statement s t u h = ground arith

deactivate_cases :
    (now : ℕ) (id : String) (s t : Purposes)
    → deactivate_mission now id s ≡ ok (tt, t)
    → (t.missions ≡ update id (deactivate_row now) s.missions)
      × (changed id (λ (m : Mission). m.active) s.missions ≡ 1)
unfolding deactivate_mission
deactivate_cases now id s t h = (ground arith, ground arith)

updated-IsEnded :
    (now : ℕ) (i id : String) (s t : Purposes)
    → t.missions ≡ update i (deactivate_row now) s.missions
    → IsEnded id s
    → IsEnded id t
updated-IsEnded now i id s t e v = elim (string_dec id i) [
  | no other ↦ record {
    mission = v.mission;
    row =
        ap (find id) e
        ∙ find-update_ne i id (deactivate_row now) s.missions (λ m. ground arith) other
        ∙ v.row;
    inactive = v.inactive;
  }
  | yes same ↦
      let own = subst (λ j. find j s.missions ≡ some v.mission) same v.row in
      record {
        mission = deactivate_row now v.mission;
        row =
            ap (find id) e
            ∙ subst
                (λ j.
                  find j (update i (deactivate_row now) s.missions)
                  ≡ some (deactivate_row now v.mission))
                (sym same)
                (find-update_self i (deactivate_row now) s.missions (λ m. ground arith) own);
        inactive = ground (arith, v.inactive);
      }
]

same-IsEnded :
    (id : String) (s t : Purposes) → t.missions ≡ s.missions → IsEnded id s → IsEnded id t
same-IsEnded id s t e v = record {
  mission = v.mission;
  row = ap (find id) e ∙ v.row;
  inactive = v.inactive;
}

after-IsEnded : (id : String) (s : Purposes) (c : Call) → IsEnded id s → IsEnded id (after s c)
unfolding after
after-IsEnded id s (creates_mission fresh now statement) v =
    with_tx_cases (IsEnded id) (create_mission fresh now statement) s v λ u t h.
      let (m, ins) = created_cases fresh now statement s t u h in
      record {
        mission = v.mission;
        row = find-insert_other id m s.missions ins v.row;
        inactive = v.inactive;
      }
after-IsEnded id s (deactivates now i) v =
    with_tx_cases (IsEnded id) (deactivate_mission now i) s v
      λ u t h. updated-IsEnded now i id s t (deactivate_cases now i s t h).0 v
after-IsEnded id s (creates_goal fresh now p statement) v =
    with_tx_cases (IsEnded id) (create_goal fresh now p statement) s v
      λ u t h. same-IsEnded id s t (goal_cases fresh now p statement s t u h) v
after-IsEnded id s (creates_obligation fresh now source statement) v =
    with_tx_cases (IsEnded id) (create_obligation fresh now source statement) s v
      λ u t h. same-IsEnded id s t (obligation_cases fresh now source statement s t u h) v

pub run-IsEnded :
    (id : String) (s : Purposes) (cs : List Call) → IsEnded id s → IsEnded id (run s cs)
unfolding run
run-IsEnded id s [] v = v
run-IsEnded id s (c ∷ cs) v = run-IsEnded id (after s c) cs (after-IsEnded id s c v)

pub IsEnded-validate_purpose :
    (id : String) (s : Purposes)
    → IsEnded id s
    → validate_purpose s (record { kind = PurposeKind.mission; id = id }) ≡ err invalid_purpose
unfolding validate_purpose stands is_active_mission
IsEnded-validate_purpose id s v = ground (arith, v.row, v.inactive)

deactivated-IsEnded :
    (now : ℕ) (id : String) (s t : Purposes)
    → deactivate_mission now id s ≡ ok (tt, t)
    → IsEnded id t
deactivated-IsEnded now id s t h =
    let (rows, one) = deactivate_cases now id s t h in
    elim (Option-cases (find id s.missions)) [
      | inl missing ↦
          absurd
            (ground (arith, one, changed_missing id (λ (m : Mission). m.active) s.missions missing))
      | inr (m, fm) ↦ record {
        mission = deactivate_row now m;
        row =
            ap (find id) rows
            ∙ find-update_self id (deactivate_row now) s.missions (λ x. ground arith) fm;
        inactive = ground arith;
      }
    ]

-- A mission that has been deactivated is never a valid purpose again, whatever calls are made.
pub run_deactivated :
    (now : ℕ) (id : String) (s t : Purposes) (cs : List Call)
    → deactivate_mission now id s ≡ ok (tt, t)
    → validate_purpose (run t cs) (record { kind = PurposeKind.mission; id = id })
      ≡ err invalid_purpose
run_deactivated now id s t cs h =
    IsEnded-validate_purpose id (run t cs) (run-IsEnded id t cs (deactivated-IsEnded now id s t h))
