-- ===== src/Purpose.antt =====
-- internal/purpose/service.go: missions, goals and obligations, and the check that a purpose stands.
pub mod Missions
mod Examples
use meeseek_collective.Common.{
  ℕ, Bool, true, false, ◌&&◌, ◌||◌, not, Option, none, some, List, [], ◌∷◌, String, ◌==◌,
  if◌then◌else◌, nat_eq,
}
use meeseek_collective.Common.Text.{trim_space}
use meeseek_collective.Common.Rows.{Keyed, find, update, insert, changed}
use meeseek_collective.Common.Result.{
  invalid_purpose, no_rows, constraint_failed, Result, ok, err, Tx, ◌>>=◌, ◌>>◌, pure, reject_if,
  gets, lift, with_tx,
}
use meeseek_collective.Domain.{PurposeKind, PurposeRef}

-- A row of missions.
pub record Mission : Type 0 where
  pub id : String
  pub statement : String
  pub active : Bool
  pub created_at : ℕ
  pub deactivated_at : Option ℕ

-- A row of goals.
pub record Goal : Type 0 where
  pub id : String
  pub purpose : PurposeRef
  pub statement : String
  pub created_at : ℕ

-- A row of obligations.
pub record Obligation : Type 0 where
  pub id : String
  pub source : String
  pub statement : String
  pub active : Bool
  pub created_at : ℕ

pub record Purposes : Type 0 where
  pub missions : List Mission
  pub goals : List Goal
  pub obligations : List Obligation

instance abbrev pub mission_key : Keyed Mission
mission_key = record { key = λ m. m.id }

instance abbrev pub goal_key : Keyed Goal
goal_key = record { key = λ g. g.id }

instance abbrev pub obligation_key : Keyed Obligation
obligation_key = record { key = λ o. o.id }

-- `SELECT … WHERE active = 1`
unfoldable pub find_active : List Mission → Option Mission
find_active [] = none
find_active (m ∷ ms) = if m.active then some m else find_active ms

-- The unique index on the active mission, and the primary key.
unfoldable pub insert_mission : Mission → Tx Purposes (Unit {0})
insert_mission m s = elim (find_active s.missions) [
  | some _ ↦ err constraint_failed
  | none ↦ elim (insert m s.missions) [
    | some rows ↦ ok (tt, record s { missions = rows })
    | none ↦ err constraint_failed
  ]
]

unfoldable pub create_mission : String → ℕ → String → Tx Purposes String
create_mission fresh now statement = do
  reject_if (trim_space statement == "") invalid_purpose
  insert_mission (record {
    id = fresh;
    statement = trim_space statement;
    active = true;
    created_at = now;
    deactivated_at = none;
  })
  pure fresh

unfoldable pub active_mission : Purposes → Result (String × String)
active_mission s = elim (find_active s.missions) [
  | some m ↦ ok (m.id, m.statement)
  | none ↦ err no_rows
]

abbrev pub deactivate_row : ℕ → Mission → Mission
deactivate_row now m =
    if m.active then record m { active = false; deactivated_at = some now } else m

unfoldable pub deactivate_mission : ℕ → String → Tx Purposes (Unit {0})
deactivate_mission now id s =
    if id == "" || not (nat_eq (changed id (λ m. m.active) s.missions) 1)
    then err invalid_purpose
    else ok (tt, record s { missions = update id (deactivate_row now) s.missions })

-- `PurposeKind.Valid`
abbrev pub is_valid_kind : PurposeKind → Bool
is_valid_kind (PurposeKind.unlisted _) = false
is_valid_kind _ = true

unfoldable pub is_active_mission : String → List Mission → Bool
is_active_mission id ms = elim (find id ms) [ some m ↦ m.active | none ↦ false ]

unfoldable pub is_active_obligation : String → List Obligation → Bool
is_active_obligation id os = elim (find id os) [ some o ↦ o.active | none ↦ false ]

unfoldable pub stands : Purposes → PurposeKind → String → Bool
stands s PurposeKind.mission id = is_active_mission id s.missions
stands s PurposeKind.obligation id = is_active_obligation id s.obligations
stands s (PurposeKind.unlisted _) id = false
stands s _ id = true

unfoldable pub validate_purpose : Purposes → PurposeRef → Result (Unit {0})
validate_purpose s p =
    if not (is_valid_kind p.kind) || p.id == "" || not (stands s p.kind p.id)
    then err invalid_purpose
    else ok tt

unfoldable pub insert_goal : Goal → Tx Purposes (Unit {0})
insert_goal g s = elim (insert g s.goals) [
  | some rows ↦ ok (tt, record s { goals = rows })
  | none ↦ err constraint_failed
]

unfoldable pub create_goal : String → ℕ → PurposeRef → String → Tx Purposes String
create_goal fresh now p statement = do
  reject_if (trim_space statement == "") invalid_purpose
  standing ← gets (λ s. validate_purpose s p)
  lift standing
  insert_goal
      (record { id = fresh; purpose = p; statement = trim_space statement; created_at = now })
  pure fresh

unfoldable pub insert_obligation : Obligation → Tx Purposes (Unit {0})
insert_obligation o s = elim (insert o s.obligations) [
  | some rows ↦ ok (tt, record s { obligations = rows })
  | none ↦ err constraint_failed
]

unfoldable pub create_obligation : String → ℕ → String → String → Tx Purposes String
create_obligation fresh now source statement = do
  reject_if (trim_space source == "" || trim_space statement == "") invalid_purpose
  insert_obligation (record {
    id = fresh;
    source = trim_space source;
    statement = trim_space statement;
    active = true;
    created_at = now;
  })
  pure fresh

-- One call, with the identifier and the reading of the clock that it draws.
pub data Call : Type 0 where
  creates_mission : String → ℕ → String → Call
  deactivates : ℕ → String → Call
  creates_goal : String → ℕ → PurposeRef → String → Call
  creates_obligation : String → ℕ → String → String → Call

unfoldable pub after : Purposes → Call → Purposes
after s (creates_mission fresh now statement) = (with_tx (create_mission fresh now statement) s).1
after s (deactivates now id) = (with_tx (deactivate_mission now id) s).1
after s (creates_goal fresh now p statement) = (with_tx (create_goal fresh now p statement) s).1
after s (creates_obligation fresh now source statement) =
    (with_tx (create_obligation fresh now source statement) s).1

unfoldable pub run : Purposes → List Call → Purposes
run s [] = s
run s (c ∷ cs) = run (after s c) cs
