-- ===== src/Operations/Slots.antt =====
-- internal/operations/service.go: ResolveEffectSlot, which names one intended effect by a trusted key.
use meeseek_collective.Common.{
  Bool, ◌&&◌, ◌||◌, not, Option, none, some, List, [], ◌∷◌, String, ◌==◌, if◌then◌else◌,
}
use meeseek_collective.Common.Text.{trim_space}
use meeseek_collective.Common.Rows.{insert}
use meeseek_collective.Common.Result.{
  intent_conflict, constraint_failed, failure, ok, err, Tx, ◌>>=◌, ◌>>◌, pure, reject_if, gets,
}
use meeseek_collective.Operations.{EffectSlot, Database, slot_key}
use meeseek_collective.Operations.Policy.{Provider}

-- The unique index on (collective_id, task_id, trusted_slot_key).
unfoldable pub find_slot : String → String → String → List EffectSlot → Option EffectSlot
find_slot collective task key [] = none
find_slot collective task key (x ∷ xs) =
    if x.collective == collective && x.task == task && x.trusted_key == key
    then some x
    else find_slot collective task key xs

unfoldable pub insert_slot : EffectSlot → Tx Database (Unit {0})
insert_slot x s = elim (insert x s.slots) [
  | some rows ↦ ok (tt, record s { slots = rows })
  | none ↦ err constraint_failed
]

unfoldable pub same_intent : EffectSlot → Provider → String → String → Bool
same_intent x p kind fingerprint =
    x.provider == p.name && x.descriptor_type == kind && x.intent_fingerprint == fingerprint

unfoldable pub bind_slot : Option EffectSlot → EffectSlot → Provider → Tx Database EffectSlot
unfolding same_intent insert_slot
bind_slot (some old) x p = do
  reject_if (not (same_intent old p x.descriptor_type x.intent_fingerprint)) intent_conflict
  pure old
bind_slot none x p = do insert_slot x; pure x

unfoldable pub resolve_effect_slot :
    String → String → String → String → Provider → String → String → String → Tx Database EffectSlot
resolve_effect_slot collective fresh task key p kind fingerprint canonical = do
  let trusted = trim_space key
  reject_if (task == "" || trusted == "" || fingerprint == "" || canonical == "")
      (failure "task, trusted slot key, provider, fingerprint, and canonical intent are required")
  old ← gets (λ s. find_slot collective task trusted s.slots)
  bind_slot old
      (record {
        id = fresh;
        collective = collective;
        task = task;
        trusted_key = trusted;
        provider = p.name;
        descriptor_type = kind;
        intent_fingerprint = fingerprint;
        intent_revision = 1;
        canonical_intent = canonical;
        adapter_version = p.adapter_version;
        adapter_semantic = p.adapter_semantic;
      })
      p
