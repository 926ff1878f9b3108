-- ===== src/Operations/Preserved.antt =====
-- internal/operations: every transaction moves operations by transitions only, and keeps each component sound.
use meeseek_collective.Common.{
  ℕ, Bool, true, false, ◌≡◌, refl, sym, ap, subst, ◌∙◌, inl, inr, Option, none, some, String, arith,
  Bool-cases, Option-cases, ◌==◌,
}
use meeseek_collective.Common.Rows.{
  find, insert, find-key, KeepsKey, Unique, insert-Unique, update-Unique,
}
use meeseek_collective.Domain.{OperationState}
use meeseek_collective.Execution.State.{Guarded}
use meeseek_collective.Operations.{
  Operation, Database, EffectSlot, operation_key, slot_key, cancel_operation,
}
use meeseek_collective.Operations.Policy.{Provider, PolicyDecision, TaskControl, Outside}
use meeseek_collective.Operations.Prepare.{
  Draws, Prepared, latest_for_slot, insert_operation, open_operation, replace_operation,
  keep_or_replace, reuse_or_replace, continue_by, prepare_after, prepare_slot, prepare_in_tx,
}
use meeseek_collective.Operations.Claim.{
  ClaimDraws, is_dispatchable, dispatch_operation, commit_dispatch,
}
use meeseek_collective.Operations.Quiet.{
  reject_if-IsQuiet, lift-IsQuiet, gets-IsQuiet, pure-IsQuiet,
}
use meeseek_collective.Operations.Moves.{
  Move-cong, Reaches, here, onward, claimed, Follows, insert-Follows, update-Follows,
}
use meeseek_collective.Operations.Safe.{
  Safe, SafeAt, IsSafe, IsQuiet-IsSafe, bind-IsSafe, quiet-SafeAt, load-IsSafe, update-SafeAt,
  then-SafeAt,
}
use meeseek_collective.Operations.Unmoved.{
  reserve-IsQuiet, release-IsQuiet, guard-IsQuiet, event-IsQuiet, prepare_approval-IsQuiet,
  prepared_matches-IsQuiet, resolve-IsQuiet, control-IsQuiet,
}
use meeseek_collective.Operations.Cancelled.{cancel-Move}
use meeseek_collective.Operations.Committed.{commit_dispatch-Committed}

dispatch-Reaches :
    (claim : String) (d : PolicyDecision) (now : ℕ) (o : Operation)
    → o.state ≡ OperationState.prepared
    → Reaches o (dispatch_operation claim d now o)
dispatch-Reaches claim d now o e = elim (Bool-cases (is_dispatchable o)) [
  | inl yes_ ↦ onward here (Move-cong e (ground (arith, yes_)) claimed)
  | inr no_ ↦ subst (Reaches o) (ground (arith, no_)) here
]

pub commit_dispatch-IsSafe :
    (o : Outside) (w : ClaimDraws) (p : Provider) (d : PolicyDecision)
    (kind task id attempt : String)
    → IsSafe (commit_dispatch o w p d kind task id attempt)
commit_dispatch-IsSafe o w p d kind task id attempt = record {
  from = λ s. record {
    runs = λ t q h.
        let v = commit_dispatch-Committed o w p d kind task id attempt q s t h in
        let f = dispatch_operation w.claim d w.now in
        record {
          rows = subst (Follows s.operations) (sym v.cleared.written) (
              update-Follows id v.current f s.operations v.row (keeps w.claim d w.now)
                (dispatch-Reaches w.claim d w.now v.current v.prepared));
          unique = λ u.
              subst Unique (sym v.cleared.written)
                (update-Unique id f s.operations (keeps w.claim d w.now) u);
          kept = v.cleared.kept;
        };
  };
}
  where
    keeps :
        (claim : String) (d : PolicyDecision) (now : ℕ) → KeepsKey (dispatch_operation claim d now)
    keeps claim d now x = ground arith

insert_operation-IsSafe : (x : Operation) → IsSafe (insert_operation x)
unfolding insert_operation
insert_operation-IsSafe x = record {
  from = λ s. record {
    runs = λ t u h. elim (Option-cases (insert x s.operations)) [
      | inl e ↦ absurd (ground (arith, e, h))
      | inr (rows, e) ↦
          let last : t ≡ record s { operations = rows } = ground (arith, e, h) in
          subst (Safe s) (sym last) (record {
            rows = insert-Follows x s.operations rows e;
            unique = insert-Unique x s.operations e;
            kept = record { ledger = λ v. v; store = λ v. v; registry = λ v. v };
          })
    ];
  };
}

module _ (o : Outside) (w : Draws) (q : Prepared) (p : Provider) (g : Guarded) (c : TaskControl)
    (slot : EffectSlot) where
  open_operation-IsSafe : IsSafe (open_operation o w q p g c slot)
  unfolding open_operation
  open_operation-IsSafe =
      search
        (
          bind-IsSafe, IsQuiet-IsSafe, insert_operation-IsSafe, reserve-IsQuiet, gets-IsQuiet,
          prepare_approval-IsQuiet, event-IsQuiet, pure-IsQuiet,
        )
        depth 10

  replace_operation-SafeAt :
      (s : Database) (old : Operation)
      → find old.id s.operations ≡ some old
      → old.state ≡ OperationState.prepared
      → SafeAt s (replace_operation o w q p g c slot old)
  unfolding replace_operation
  replace_operation-SafeAt s old fo e =
      quiet-SafeAt s (release-IsQuiet w.released_at old.reservation) (λ t a h same.
        then-SafeAt t
          (update-SafeAt t old.id old (cancel_operation w.now) (ap (find old.id) same ∙ fo)
            (λ x. ground arith) (onward here (cancel-Move w.now old (ground (arith, e)))))
          open_operation-IsSafe)

  keep_or_replace-SafeAt :
      (s : Database) (old : Operation) (matches : Bool)
      → find old.id s.operations ≡ some old
      → old.state ≡ OperationState.prepared
      → SafeAt s (keep_or_replace o w q p g c slot old matches)
  unfolding keep_or_replace
  keep_or_replace-SafeAt s old true fo e = (IsQuiet-IsSafe (pure-IsQuiet old)).from s
  keep_or_replace-SafeAt s old false fo e = replace_operation-SafeAt s old fo e

  reuse_or_replace-SafeAt :
      (s : Database) (old : Operation)
      → find old.id s.operations ≡ some old
      → old.state ≡ OperationState.prepared
      → SafeAt s (reuse_or_replace o w q p g c slot old)
  unfolding reuse_or_replace
  reuse_or_replace-SafeAt s old fo e = elim (Bool-cases (old.attempt == q.attempt)) [
    | inr other ↦ rw (other, reuse_or_replace) (replace_operation-SafeAt s old fo e)
    | inl own ↦
        rw (own, reuse_or_replace)
          (quiet-SafeAt s (prepared_matches-IsQuiet o old q.decision q.caller p q.kind q.canonical)
            (λ t matches h same.
              keep_or_replace-SafeAt t old matches (ap (find old.id) same ∙ fo) e))
  ]

  continue_by-SafeAt :
      (s : Database) (old : Operation) (x : OperationState)
      → find old.id s.operations ≡ some old
      → old.state ≡ x
      → SafeAt s (continue_by o w q p g c slot old x)
  unfolding continue_by
  continue_by-SafeAt s old OperationState.dispatched fo e =
      (IsQuiet-IsSafe (pure-IsQuiet old)).from s
  continue_by-SafeAt s old OperationState.outcome_unknown fo e =
      (IsQuiet-IsSafe (pure-IsQuiet old)).from s
  continue_by-SafeAt s old OperationState.confirmed_effect fo e =
      (IsQuiet-IsSafe (pure-IsQuiet old)).from s
  continue_by-SafeAt s old OperationState.prepared fo e = reuse_or_replace-SafeAt s old fo e
  continue_by-SafeAt s old OperationState.confirmed_no_effect fo e = open_operation-IsSafe.from s
  continue_by-SafeAt s old OperationState.cancelled fo e = open_operation-IsSafe.from s
  continue_by-SafeAt s old (OperationState.unlisted x) fo e = record { runs = λ t a h. absurd (cc) }

  prepare_after-IsSafe :
      (latest : Option Operation) → IsSafe (prepare_after o w q p g c slot latest)
  unfolding prepare_after
  prepare_after-IsSafe none = open_operation-IsSafe
  prepare_after-IsSafe (some old) = load-IsSafe old.id (λ s row f.
      continue_by-SafeAt s row row.state
        (subst (λ i. find i s.operations ≡ some row)
          (sym (find-key old.id s.operations {r = row} f)) f)
        refl)

  prepare_slot-IsSafe : IsSafe (prepare_slot o w q p g c slot)
  unfolding prepare_slot
  prepare_slot-IsSafe =
      bind-IsSafe (IsQuiet-IsSafe (gets-IsQuiet (λ s. latest_for_slot slot.id s.operations)))
        prepare_after-IsSafe

pub prepare_in_tx-IsSafe :
    (o : Outside) (collective : String) (w : Draws) (q : Prepared) (p : Provider) (task : String)
    → IsSafe (prepare_in_tx o collective w q p task)
unfolding prepare_in_tx
prepare_in_tx-IsSafe o collective w q p task =
    search
      (
        bind-IsSafe, IsQuiet-IsSafe, guard-IsQuiet, reject_if-IsQuiet, control-IsQuiet,
        lift-IsQuiet, resolve-IsQuiet, prepare_slot-IsSafe,
      )
      depth 16
