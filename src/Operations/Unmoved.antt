-- ===== src/Operations/Unmoved.antt =====
-- internal/operations: the actions of a preparation and of a dispatch that leave the operations alone.
use meeseek_collective.Common.{
  ℕ, false, ◌≡◌, refl, subst, sym, inl, inr, none, some, List, String, arith, Bool-cases,
  Option-cases, ◌==◌, ◌||◌, Option,
}
use meeseek_collective.Common.Sets.{normalize}
use meeseek_collective.Common.Rows.{insert}
use meeseek_collective.Common.Int.{ℤ}
use meeseek_collective.Domain.{TaskState}
use meeseek_collective.Resources.{
  Enforceability, reserve_in_tx, settle_in_tx, mark_unresolved_in_tx, release_in_tx,
}
use meeseek_collective.Resources.Steps.{
  reserve_in_tx-LedgerStep, settle_in_tx-LedgerStep, mark_unresolved_in_tx-LedgerStep,
  release_in_tx-LedgerStep,
}
use meeseek_collective.Resources.Cover.{LedgerStep-IsCovered}
use meeseek_collective.Approvals.Requests.{CreateRequest, create_in_tx}
use meeseek_collective.Approvals.Decisions.{get_in_tx, consume_in_tx}
use meeseek_collective.Approvals.Steps.{create_cases, consume_in_tx-Step}
use meeseek_collective.Approvals.Grant.{Step-IsSound}
use meeseek_collective.Approvals.Unanimity
use meeseek_collective.Execution.Lease.{guard_attempt}
use meeseek_collective.Execution.Guard.{guard_attempt-Holds}
use meeseek_collective.Execution.Writes.{append_event-SameTables}
use meeseek_collective.Execution.Exclusive.{IsSoundStore, same-IsSound}
use meeseek_collective.Operations.{
  Operation, EffectSlot, slot_key, on_ledger, on_store, on_registry, append_operation_event,
}
use meeseek_collective.Operations.Policy.{
  Provider, PolicyDecision, Outside, no_ids, required_approvers_for, requires_approval,
  approval_ids_equal, load_task_control_tx,
}
use meeseek_collective.Operations.Gate.{
  prepare_approval_in_tx, prepared_approval_matches_in_tx, consume_exact_approval,
  validate_and_consume_approval_in_tx,
}
use meeseek_collective.Operations.Slots.{insert_slot, bind_slot, resolve_effect_slot}
use meeseek_collective.Operations.Claim.{check_reserved, check_authority}
use meeseek_collective.Operations.Quiet.{
  IsQuiet, reads-IsQuiet, on_ledger-IsQuiet, on_store-IsQuiet, on_registry-IsQuiet, Quiet,
  quiet_rules, then-IsQuiet, reject_if-IsQuiet, pure-IsQuiet,
}

pub reserve-IsQuiet :
    (fresh : String) (now : ℕ) (envelope : String) (amount : ℤ) (e : Enforceability)
    → IsQuiet (on_ledger (reserve_in_tx fresh now envelope amount e))
reserve-IsQuiet fresh now envelope amount e = on_ledger-IsQuiet (λ l l' r h.
    LedgerStep-IsCovered (reserve_in_tx-LedgerStep fresh now envelope amount e l l' r h))

pub settle-IsQuiet :
    (now : ℕ) (id : String) (actual : ℤ) → IsQuiet (on_ledger (settle_in_tx now id actual))
settle-IsQuiet now id actual =
    on_ledger-IsQuiet
      (λ l l' u h. LedgerStep-IsCovered (settle_in_tx-LedgerStep now id actual l l' h))

pub mark_unresolved-IsQuiet :
    (now : ℕ) (id : String) → IsQuiet (on_ledger (mark_unresolved_in_tx now id))
mark_unresolved-IsQuiet now id =
    on_ledger-IsQuiet
      (λ l l' u h. LedgerStep-IsCovered (mark_unresolved_in_tx-LedgerStep now id l l' h))

pub release-IsQuiet : (now : ℕ) (id : String) → IsQuiet (on_ledger (release_in_tx now id))
release-IsQuiet now id =
    on_ledger-IsQuiet (λ l l' u h. LedgerStep-IsCovered (release_in_tx-LedgerStep now id l l' h))

pub guard-IsQuiet :
    (now : ℕ) (attempt : String) (allowed : List TaskState)
    → IsQuiet (on_store (guard_attempt now attempt allowed))
guard-IsQuiet now attempt allowed =
    on_store-IsQuiet (λ l l' g h v.
      subst IsSoundStore (sym (guard_attempt-Holds now attempt allowed l l' g h).1) v)

pub event-IsQuiet :
    (event task attempt kind : String) (now : ℕ)
    → IsQuiet (append_operation_event event task attempt kind now)
unfolding append_operation_event
event-IsQuiet event task attempt kind now =
    on_store-IsQuiet (λ l l' u h. same-IsSound l l' (append_event-SameTables _ l l' h))

create-IsQuiet :
    (fresh : String) (now : ℕ) (q : CreateRequest)
    → IsQuiet (on_registry (create_in_tx fresh now q))
create-IsQuiet fresh now q =
    on_registry-IsQuiet (λ l l' r h. Step-IsSound l l' (create_cases fresh now q l l' r h))

consume-IsQuiet :
    (now : ℕ) (id digest : String) → IsQuiet (on_registry (consume_in_tx now id digest))
consume-IsQuiet now id digest =
    on_registry-IsQuiet (λ l l' u h. Step-IsSound l l' (consume_in_tx-Step now id digest l l' h))

get-IsQuiet : (id : String) → IsQuiet (on_registry (get_in_tx id))
unfolding get_in_tx
get-IsQuiet id = on_registry-IsQuiet (λ l l' r h v. subst Unanimity.IsSound (ground (arith, h)) v)

pub prepare_approval-IsQuiet :
    (o : Outside) (fresh : String) (now : ℕ) (op : Operation) (expires : ℕ) (d : PolicyDecision)
    (caller : List String) (p : Provider) (kind canonical : String)
    → IsQuiet (prepare_approval_in_tx o fresh now op expires d caller p kind canonical)
unfolding prepare_approval_in_tx
prepare_approval-IsQuiet o fresh now op expires d caller p kind canonical =
    elim (Bool-cases (requires_approval d (normalize caller))) [
      | inl e ↦ rw (e, prepare_approval_in_tx) (search (quiet_rules, create-IsQuiet) depth 12)
      | inr e ↦ rw (e, prepare_approval_in_tx) (pure-IsQuiet "")
    ]

pub prepared_matches-IsQuiet :
    (o : Outside) (op : Operation) (d : PolicyDecision) (caller : List String) (p : Provider)
    (kind canonical : String)
    → IsQuiet (prepared_approval_matches_in_tx o op d caller p kind canonical)
unfolding prepared_approval_matches_in_tx
prepared_matches-IsQuiet o op d caller p kind canonical =
    elim (Bool-cases (approval_ids_equal op.caller_required (normalize caller))) [
      | inr e ↦ rw (e, prepared_approval_matches_in_tx) (pure-IsQuiet false)
      | inl e ↦ elim (Bool-cases (requires_approval d (normalize caller))) [
        | inr e' ↦ rw (e, e', prepared_approval_matches_in_tx) (pure-IsQuiet _)
        | inl e' ↦
            elim (Bool-cases
              (op.approval == "" || no_ids (required_approvers_for d (normalize caller)))) [
                | inl none_ ↦
                    rw (e, e', none_, prepared_approval_matches_in_tx) (pure-IsQuiet false)
                | inr some_ ↦
                    rw (e, e', some_, prepared_approval_matches_in_tx)
                      (search (quiet_rules, get-IsQuiet) depth 12)
              ]
      ]
    ]

consume_exact-IsQuiet :
    (o : Outside) (now : ℕ) (op : Operation) (d : PolicyDecision) (caller : List String)
    (p : Provider) (kind canonical : String)
    → IsQuiet (consume_exact_approval o now op d caller p kind canonical)
unfolding consume_exact_approval
consume_exact-IsQuiet o now op d caller p kind canonical =
    search (quiet_rules, get-IsQuiet, consume-IsQuiet) depth 12

pub consume_approval-IsQuiet :
    (o : Outside) (now : ℕ) (op : Operation) (d : PolicyDecision) (caller : List String)
    (p : Provider) (kind canonical : String)
    → IsQuiet (validate_and_consume_approval_in_tx o now op d caller p kind canonical)
unfolding validate_and_consume_approval_in_tx
consume_approval-IsQuiet o now op d caller p kind canonical =
    elim (Bool-cases (requires_approval d caller)) [
      | inl e ↦
          rw (e, validate_and_consume_approval_in_tx)
            (consume_exact-IsQuiet o now op d caller p kind canonical)
      | inr e ↦ rw (e, validate_and_consume_approval_in_tx) (reject_if-IsQuiet _ _)
    ]

insert_slot-IsQuiet : (x : EffectSlot) → IsQuiet (insert_slot x)
unfolding insert_slot
insert_slot-IsQuiet x = record {
  runs = λ s t u h. elim (Option-cases (insert x s.slots)) [
    | inl e ↦ absurd (ground (arith, e, h))
    | inr (rows, e) ↦
        let last : t ≡ record s { slots = rows } = ground (arith, e, h) in
        subst (Quiet s) (sym last) (record {
          rows = refl;
          kept = record { ledger = λ v. v; store = λ v. v; registry = λ v. v };
        })
  ];
}

bind_slot-IsQuiet :
    (old : Option EffectSlot) (x : EffectSlot) (p : Provider) → IsQuiet (bind_slot old x p)
unfolding bind_slot
bind_slot-IsQuiet (some old) x p = then-IsQuiet (reject_if-IsQuiet _ _) (pure-IsQuiet old)
bind_slot-IsQuiet none x p = then-IsQuiet (insert_slot-IsQuiet x) (pure-IsQuiet x)

pub resolve-IsQuiet :
    (collective fresh task key : String) (p : Provider) (kind fingerprint canonical : String)
    → IsQuiet (resolve_effect_slot collective fresh task key p kind fingerprint canonical)
unfolding resolve_effect_slot
resolve-IsQuiet collective fresh task key p kind fingerprint canonical =
    search (quiet_rules, bind_slot-IsQuiet) depth 8

pub control-IsQuiet : (task : String) → IsQuiet (load_task_control_tx task)
unfolding load_task_control_tx
control-IsQuiet task = reads-IsQuiet (λ s t a h. ground arith)

pub authority-IsQuiet :
    (now : ℕ) (p : Provider) (attempt task : String) → IsQuiet (check_authority now p attempt task)
unfolding check_authority
authority-IsQuiet now p attempt task = search (quiet_rules, guard-IsQuiet, control-IsQuiet) depth 12

pub reserved-IsQuiet : (op : Operation) → IsQuiet (check_reserved op)
unfolding check_reserved
reserved-IsQuiet op = search quiet_rules depth 16
