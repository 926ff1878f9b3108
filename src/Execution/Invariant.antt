-- ===== src/Execution/Invariant.antt =====
-- The invariant of the tables: an attempt whose lease is active is the current one of its executing
-- task, and no attempt has a fence above its task's.
use meeseek_collective.Common.{
  ◌≤◌, ◌≡◌, ◌≢◌, refl, sym, ap, subst, ◌∙◌, inl, inr, some, List, String, arith, string_dec,
}
use meeseek_collective.Common.Rows.{
  find, update, Unique, KeepsKey, find-update_self, find-update_ne, find-update_cases,
  update-Unique,
}
use meeseek_collective.Domain.{TaskState, LeaseState}
use meeseek_collective.Execution.State.{
  Task, Attempt, task_key, attempt_key, failure_key, challenge_key, event_key,
}

-- The task that an active attempt executes.
pub record Executes (tasks : List Task) (i : String) (a : Attempt) : Type 0 where
  pub task : Task
  pub row : find a.task tasks ≡ some task
  pub current : task.current_attempt ≡ some i
  pub fence : task.current_fence ≡ a.fence
  pub executing : task.state ≡ TaskState.executing

pub record Fenced (tasks : List Task) (a : Attempt) : Type 0 where
  pub task : Task
  pub row : find a.task tasks ≡ some task
  pub below : a.fence ≤ task.current_fence

pub record IsSound (tasks : List Task) (attempts : List Attempt) : Type 0 where
  pub tasks_unique : Unique tasks
  pub attempts_unique : Unique attempts
  pub executes :
      (i : String) (a : Attempt)
      → find i attempts ≡ some a
      → a.lease_state ≡ LeaseState.active
      → Executes tasks i a
  pub fenced : (i : String) (a : Attempt) → find i attempts ≡ some a → Fenced tasks a

-- A write of a task's row that loses no fence.
abbrev pub KeepsFence : List Task → String → (Task → Task) → Type 0
KeepsFence tasks T f = (t : Task) → find T tasks ≡ some t → t.current_fence ≤ (f t).current_fence

module _ (tasks : List Task) (T : String) (f : Task → Task) (keeps : KeepsKey f) where
  pub retask-Executes :
      (i : String) (a : Attempt) → a.task ≢ T → Executes tasks i a → Executes (update T f tasks) i a
  retask-Executes i a other x = record {
    task = x.task;
    row = find-update_ne T a.task f tasks keeps other ∙ x.row;
    current = x.current;
    fence = x.fence;
    executing = x.executing;
  }

  pub retask-Fenced :
      (a b : Attempt)
      → a.task ≡ b.task
      → a.fence ≡ b.fence
      → KeepsFence tasks T f
      → Fenced tasks b
      → Fenced (update T f tasks) a
  retask-Fenced a b e e' kf x = elim (string_dec b.task T) [
    | yes same ↦
        let own = subst (λ k. find k tasks ≡ some x.task) same x.row in
        record {
          task = f x.task;
          row =
              subst (λ k. find k (update T f tasks) ≡ some (f x.task)) (sym (e ∙ same))
                (find-update_self T f tasks keeps own);
          below = omega (arith, x.below, kf x.task own, e');
        }
    | no other ↦ record {
      task = x.task;
      row =
          subst (λ k. find k (update T f tasks) ≡ some x.task) (sym e)
            (find-update_ne T b.task f tasks keeps other ∙ x.row);
      below = omega (arith, x.below, e');
    }
  ]

-- Where an attempt's row comes from, after a call that takes task T from its attempt: it is an old
-- row of the same task and fence, and if its lease is still active then its task is not T.
pub record Prior (attempts : List Attempt) (T i : String) (a : Attempt) : Type 0 where
  pub before : Attempt
  pub row : find i attempts ≡ some before
  pub same_task : a.task ≡ before.task
  pub same_fence : a.fence ≡ before.fence
  pub still :
      a.lease_state ≡ LeaseState.active → (before.lease_state ≡ LeaseState.active) × (a.task ≢ T)

pub Executes-prior :
    (tasks : List Task) (i : String) (a b : Attempt)
    → a.task ≡ b.task
    → a.fence ≡ b.fence
    → Executes tasks i b
    → Executes tasks i a
Executes-prior tasks i a b e e' x = record {
  task = x.task;
  row = subst (λ k. find k tasks ≡ some x.task) (sym e) x.row;
  current = x.current;
  fence = x.fence ∙ sym e';
  executing = x.executing;
}

Fenced-prior :
    (tasks : List Task) (a b : Attempt)
    → a.task ≡ b.task
    → a.fence ≡ b.fence
    → Fenced tasks b
    → Fenced tasks a
Fenced-prior tasks a b e e' x = record {
  task = x.task;
  row = subst (λ k. find k tasks ≡ some x.task) (sym e) x.row;
  below = omega (arith, x.below, e');
}

-- A write of attempts that leaves their task, fence and lease state keeps the invariant.
pub relabelled-IsSound :
    (tasks : List Task) (attempts : List Attempt) (j : String) (g : Attempt → Attempt)
    → IsSound tasks attempts
    → KeepsKey g
    → ((a : Attempt)
        → ((g a).task ≡ a.task) × ((g a).fence ≡ a.fence) × ((g a).lease_state ≡ a.lease_state))
    → IsSound tasks (update j g attempts)
relabelled-IsSound tasks attempts j g v keeps same = record {
  tasks_unique = v.tasks_unique;
  attempts_unique = update-Unique j g attempts keeps v.attempts_unique;
  executes = λ i a e active. elim (find-update_cases j i g attempts keeps e) [
    | inl (_, row) ↦ v.executes i a row active
    | inr (x, _, row, w) ↦
        Executes-prior tasks i a x (ap (λ (y : Attempt). y.task) w ∙ (same x).0)
          (ap (λ (y : Attempt). y.fence) w ∙ (same x).1)
          (v.executes i x row (sym (ap (λ (y : Attempt). y.lease_state) w ∙ (same x).2) ∙ active))
  ];
  fenced = λ i a e. elim (find-update_cases j i g attempts keeps e) [
    | inl (_, row) ↦ v.fenced i a row
    | inr (x, _, row, w) ↦
        Fenced-prior tasks a x (ap (λ (y : Attempt). y.task) w ∙ (same x).0)
          (ap (λ (y : Attempt). y.fence) w ∙ (same x).1) (v.fenced i x row)
  ];
}

pub taken-IsSound :
    (tasks : List Task) (attempts rows : List Attempt) (T : String) (f : Task → Task)
    → IsSound tasks attempts
    → KeepsKey f
    → KeepsFence tasks T f
    → Unique rows
    → ((i : String) (a : Attempt) → find i rows ≡ some a → Prior attempts T i a)
    → IsSound (update T f tasks) rows
taken-IsSound tasks attempts rows T f v keeps kf u prior = record {
  tasks_unique = update-Unique T f tasks keeps v.tasks_unique;
  attempts_unique = u;
  executes = λ i a e active.
      let p = prior i a e in
      retask-Executes tasks T f keeps i a (p.still active).1 (
        Executes-prior tasks i a p.before p.same_task p.same_fence
          (v.executes i p.before p.row (p.still active).0));
  fenced = λ i a e.
      let p = prior i a e in
      retask-Fenced tasks T f keeps a p.before p.same_task p.same_fence kf
        (v.fenced i p.before p.row);
}

-- An attempt that is current on its task is the only one with an active lease on it.
pub current_only :
    (tasks : List Task) (attempts : List Attempt) (t : Task) (j i : String) (a : Attempt)
    → IsSound tasks attempts
    → find a.task tasks ≡ some t
    → t.current_attempt ≡ some j
    → find i attempts ≡ some a
    → a.lease_state ≡ LeaseState.active
    → i ≡ j
current_only tasks attempts t j i a v ft c e active =
    let x = v.executes i a e active in ground (arith, ft, x.row, x.current, c)

-- A write that ends the lease of a row and keeps its identity.
pub record EndsLease (g : Attempt → Attempt) : Type 0 where
  pub keeps : KeepsKey g
  pub task : (a : Attempt) → (g a).task ≡ a.task
  pub fence : (a : Attempt) → (g a).fence ≡ a.fence
  pub ends : (a : Attempt) → (g a).lease_state ≢ LeaseState.active

pub ended-Prior :
    (tasks : List Task) (attempts : List Attempt) (t : Task) (T j : String) (g : Attempt → Attempt)
    → IsSound tasks attempts
    → EndsLease g
    → find T tasks ≡ some t
    → t.current_attempt ≡ some j
    → (i : String) (a : Attempt) → find i (update j g attempts) ≡ some a
    → Prior attempts T i a
ended-Prior tasks attempts t T j g v ends ft c i a e =
    elim (find-update_cases j i g attempts ends.keeps e) [
      | inl (other, row) ↦ record {
        before = a;
        row = row;
        same_task = refl;
        same_fence = refl;
        still = λ active. (
          active,
          λ on_T. other (
              current_only tasks attempts t j i a v
                (subst (λ k. find k tasks ≡ some t) (sym on_T) ft) c row active),
        );
      }
      | inr (x, same, row, w) ↦ record {
        before = x;
        row = subst (λ k. find k attempts ≡ some x) refl row;
        same_task = ap (λ (y : Attempt). y.task) w ∙ ends.task x;
        same_fence = ap (λ (y : Attempt). y.fence) w ∙ ends.fence x;
        still =
            λ active. absurd (ends.ends x (sym (ap (λ (y : Attempt). y.lease_state) w) ∙ active));
      }
    ]
