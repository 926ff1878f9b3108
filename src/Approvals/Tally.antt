-- ===== src/Approvals/Tally.antt =====
-- internal/approvals/service.go: the number of required approvers who have approved, and what one more
-- decision changes in it.
use meeseek_collective.Common.{
  ℕ, suc, ◌≤◌, ◌≡◌, ◌≢◌, refl, Bool, true, false, ◌&&◌, Option, none, some, List, [], ◌∷◌, String,
  ◌==◌, if◌then◌else◌, arith, length,
}
use meeseek_collective.Common.Sets.{has_string, Distinct}
use meeseek_collective.Approvals.Requests.{approve, reject, Decision, request_key, is_approve}
use meeseek_collective.Approvals.Decisions.{find_decision}

-- The approver has approved the request.
approved_in : Option Decision → Bool
approved_in none = false
approved_in (some d) = is_approve d.action

unfoldable pub approved_by : String → List Decision → String → Bool
unfolding approved_in find_decision
approved_by id ds x = approved_in (find_decision id x ds)

unfoldable pub tally : String → List Decision → List String → ℕ
tally id ds [] = 0
tally id ds (x ∷ xs) = if approved_by id ds x then suc (tally id ds xs) else tally id ds xs

pub tally-le : (id : String) (ds : List Decision) (xs : List String) → tally id ds xs ≤ length xs
unfolding tally
tally-le id ds [] = omega arith
tally-le id ds (x ∷ xs) = ground (arith, tally-le id ds xs)

-- As many approvals as approvers: every one of them has approved.
pub tally_full :
    (id : String) (ds : List Decision) (xs : List String) (x : String)
    → tally id ds xs ≡ length xs
    → has_string xs x ≡ true
    → approved_by id ds x ≡ true
unfolding tally has_string
tally_full id ds [] x h m = absurd (cc)
tally_full id ds (y ∷ xs) x h m = ground (arith, tally-le id ds xs, tally_full id ds xs x)

-- What one more decision changes.
pub approved_by-other :
    (id : String) (d : Decision) (ds : List Decision) (x : String)
    → ((d.approval == id && d.approver == x) ≡ false)
    → approved_by id (d ∷ ds) x ≡ approved_by id ds x
unfolding approved_by
approved_by-other id d ds x h = ground arith

tally-absent :
    (id : String) (d : Decision) (ds : List Decision) (xs : List String)
    → has_string xs d.approver ≡ false
    → tally id (d ∷ ds) xs ≡ tally id ds xs
unfolding tally has_string
tally-absent id d ds [] h = refl
tally-absent id d ds (x ∷ xs) h =
    ground (arith, approved_by-other id d ds x, tally-absent id d ds xs)

pub tally-foreign :
    (id : String) (d : Decision) (ds : List Decision) (xs : List String)
    → d.approval ≢ id
    → tally id (d ∷ ds) xs ≡ tally id ds xs
unfolding tally
tally-foreign id d ds [] h = refl
tally-foreign id d ds (x ∷ xs) h =
    ground (arith, approved_by-other id d ds x, tally-foreign id d ds xs h)

first_decision :
    (id : String) (d : Decision) (ds : List Decision)
    → d.approval ≡ id
    → find_decision id d.approver ds ≡ none
    → (approved_by id ds d.approver ≡ false)
      × (approved_by id (d ∷ ds) d.approver ≡ is_approve d.action)
unfolding approved_by
first_decision id d ds e h = ground arith

-- The first approval of a required approver adds one to the count of the approvers.
pub tally-approved :
    (id : String) (d : Decision) (ds : List Decision) (xs : List String)
    → d.approval ≡ id
    → d.action ≡ approve
    → find_decision id d.approver ds ≡ none
    → Distinct xs
    → has_string xs d.approver ≡ true
    → tally id (d ∷ ds) xs ≡ suc (tally id ds xs)
unfolding tally has_string
tally-approved id d ds [] own act new u m = absurd (cc)
tally-approved id d ds (x ∷ xs) own act new u m = ground (
  arith,
  first_decision id d ds own new,
  approved_by-other id d ds x,
  tally-absent id d ds xs,
  tally-approved id d ds xs own act new u.1,
)

pub tally-rejected :
    (id : String) (d : Decision) (ds : List Decision) (xs : List String)
    → d.approval ≡ id
    → d.action ≡ reject
    → find_decision id d.approver ds ≡ none
    → tally id (d ∷ ds) xs ≡ tally id ds xs
unfolding tally
tally-rejected id d ds [] own act new = refl
tally-rejected id d ds (x ∷ xs) own act new = ground (
  arith,
  first_decision id d ds own new,
  approved_by-other id d ds x,
  tally-rejected id d ds xs own act new,
)
