-- ===== src/Completion/Release.antt =====
-- internal/verification/service.go: the tasks that AcceptTask releases.
use meeseek_collective.Common.{
  ℕ, ◌≡◌, ◌≢◌, refl, sym, ap, ◌∙◌, ◌⊎◌, inl, inr, true, ◌&&◌, none, some, List, [], ◌∷◌, map,
  String, arith, Option-cases, Bool-cases,
}
use mathlib.Core.Option.{some-injective}
use meeseek_collective.Common.Rows.{Keyed, find, update, find-key, find-update_ne, KeepsKey}
use meeseek_collective.Common.Result.{ok}
use meeseek_collective.Domain.{TaskState}
use meeseek_collective.Execution.State.{Task, task_key}
use meeseek_collective.Completion.{
  Acceptance, AcceptanceRequest, AcceptanceDraws, Desk, is_succeeded, is_created, succeed_row,
  waits_for, is_done, all_done, release_row, accept_task,
}
use meeseek_collective.Completion.Accepted.{accept_task-IsVerified}

module _ {A : Type 0} ⦃k : Keyed A⦄ (f : A → A) (keeps : KeepsKey f) where
  pub find-map-none : (i : String) (rs : List A) → find i rs ≡ none → find i (map f rs) ≡ none
  unfolding find
  find-map-none i [] h = refl
  find-map-none i (x ∷ rs) h = ground (arith, keeps x, find-map-none i rs)

  pub find-map-some :
      (i : String) (rs : List A) {r : A} → find i rs ≡ some r → find i (map f rs) ≡ some (f r)
  unfolding find
  find-map-some i [] h = absurd (cc)
  find-map-some i (x ∷ rs) {r} h = ground (arith, keeps x, find-map-some i rs {r = r})

module _ (done : String) (now : ℕ) (ds : List (String × String)) (old : List Task) where
  abbrev pub released : List Task → List Task
  released ts = map (release_row done now ds old) ts

  pub release_row-KeepsKey : KeepsKey (release_row done now ds old)
  unfolding release_row
  release_row-KeepsKey t = ground arith

  pub release_row_cases :
      (t : Task)
      → (release_row done now ds old t ≡ t)
        ⊎ ((is_created t.state ≡ true)
            × ((release_row done now ds old t).state ≡ TaskState.eligible)
            × (all_done t.id ds old ≡ true))
  unfolding release_row
  release_row_cases t =
      elim (Bool-cases (is_created t.state && waits_for t.id done ds && all_done t.id ds old)) [
        | inr e ↦ inl (ground (arith, e))
        | inl e ↦ inr (ground (arith, e), ground (arith, e), ground (arith, e))
      ]

  not_created : (x : TaskState) → is_succeeded x ≡ true → is_created x ≡ true → ⊥
  not_created TaskState.succeeded h k = ground arith
  not_created _ h k = ground arith

  succeeded_stays :
      (t : Task)
      → is_succeeded t.state ≡ true
      → is_succeeded (release_row done now ds old t).state ≡ true
  succeeded_stays t h = elim (release_row_cases t) [
    | inl same ↦ ap (λ x. is_succeeded x.state) same ∙ h
    | inr (created, _, _) ↦ absurd (not_created t.state h created)
  ]

  is_done-released :
      (id : String) (ts : List Task) → is_done id ts ≡ true → is_done id (released ts) ≡ true
  unfolding is_done
  is_done-released id ts h = elim (Option-cases (find id ts)) [
    | inl missing ↦
        ground
          (arith, find-map-none (release_row done now ds old) release_row-KeepsKey id ts missing)
    | inr (t, found) ↦ ground (
      arith,
      found,
      h,
      find-map-some (release_row done now ds old) release_row-KeepsKey id ts found,
      succeeded_stays t,
    )
  ]

  all_done-released :
      (id : String) (es : List (String × String)) (ts : List Task)
      → all_done id es ts ≡ true
      → all_done id es (released ts) ≡ true
  unfolding all_done
  all_done-released id [] ts h = refl
  all_done-released id ((a, b) ∷ es) ts h =
      ground (arith, all_done-released id es ts, is_done-released b ts)

succeed_row-KeepsKey : (now : ℕ) → KeepsKey (succeed_row now)
succeed_row-KeepsKey now t = ground arith

-- The task that is accepted is not the created one.
kept_created :
    (task id : String) (now : ℕ) (ts : List Task) (x row : Task)
    → find id ts ≡ some x
    → x.state ≡ TaskState.created
    → find task ts ≡ some row
    → row.state ≡ TaskState.awaiting_verification
    → find id (update task (succeed_row now) ts) ≡ some x
kept_created task id now ts x row fx created ft awaits =
    find-update_ne task id (succeed_row now) ts (succeed_row-KeepsKey now) (λ e. cc) ∙ fx

-- A created task that is no longer created after an acceptance is eligible then, and every task
-- that it depends on has succeeded.
pub accept_task-releases :
    (w : AcceptanceDraws) (task id : String) (r : AcceptanceRequest) (a : Acceptance) (s t : Desk)
    (x y : Task)
    → accept_task w task r s ≡ ok (a, t)
    → find id s.store.tasks ≡ some x
    → x.state ≡ TaskState.created
    → find id t.store.tasks ≡ some y
    → y.state ≢ TaskState.created
    → (y.state ≡ TaskState.eligible) × (all_done id s.dependencies t.store.tasks ≡ true)
accept_task-releases w task id r a s t x y h fx created fy left =
    let v = accept_task-IsVerified w task r a s t h in
    let ts = update task (succeed_row w.now) s.store.tasks in
    let row = release_row task w.now s.dependencies ts in
    let kept = kept_created task id w.now s.store.tasks x v.row fx created v.stood v.awaiting in
    let after : y ≡ row x = some-injective _ _ (
      sym fy
      ∙ ap (find id) v.tasks
      ∙ find-map-some row (release_row-KeepsKey task w.now s.dependencies ts) id ts kept) in
    elim (release_row_cases task w.now s.dependencies ts x) [
      | inl same ↦ absurd (left (ap (λ z. z.state) (after ∙ same) ∙ created))
      | inr (_, eligible_, all) ↦ (
        ap (λ z. z.state) after ∙ eligible_,
        ap (all_done id s.dependencies) v.tasks
            ∙ all_done-released task w.now s.dependencies ts id s.dependencies ts
                (ap (λ i. all_done i s.dependencies ts) (sym (find-key id s.store.tasks fx)) ∙ all),
      )
    ]
