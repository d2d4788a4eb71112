-- ===== src/Journal/Bound.antt =====
-- What binds the files of one action of src/dyro/continuation/action_journal.py, field by field.
use dyro_engineering_flow.Prelude.{ℕ, ◌≡◌, refl, true, Option, none, some, arith}
use dyro_engineering_flow.Journal.Model.{
  ActionIntent, ActionStart, ActionReceipt, ActionStatus, cancelled, same_status,
}
use dyro_engineering_flow.Journal.Actions.{start_bound, receipt_bound}
use dyro_engineering_flow.Journal.Sound.{Consistent}

-- The start is of the intent's action, key and owner generation.
pub record IsStartOf (i : ActionIntent) (v : ActionStart) : Type 0 where
  pub action : v.action_id ≡ i.action_id
  pub key : v.idempotency_key ≡ i.idempotency_key
  pub generation : v.owner_generation ≡ i.owner_generation

-- So is the receipt.
pub record IsReceiptOf (i : ActionIntent) (v : ActionReceipt) : Type 0 where
  pub action : v.action_id ≡ i.action_id
  pub key : v.idempotency_key ≡ i.idempotency_key
  pub generation : v.owner_generation ≡ i.owner_generation

-- The files under the name `k` belong to one action; without a start a receipt is a cancellation.
pub record Belongs (k : ℕ) (i : ActionIntent) (s : Option ActionStart) (r : Option ActionReceipt)
    : Type 0 where
  pub named : i.action_id ≡ k
  pub started : (v : ActionStart) → s ≡ some v → IsStartOf i v
  pub received : (v : ActionReceipt) → r ≡ some v → IsReceiptOf i v
  pub unstarted : (v : ActionReceipt) → s ≡ none → r ≡ some v → v.status ≡ cancelled

is_cancelled : (a : ActionStatus) → same_status a cancelled ≡ true → a ≡ cancelled
is_cancelled cancelled h = refl
is_cancelled _ h = ground arith

bound-IsStartOf :
    (i : ActionIntent) (v : ActionStart) → start_bound i (some v) ≡ true → IsStartOf i v
bound-IsStartOf i v h = record {
  action = ground arith;
  key = ground arith;
  generation = ground arith;
}

bound-IsReceiptOf :
    (i : ActionIntent) (v : ActionReceipt) → receipt_bound i (some v) ≡ true → IsReceiptOf i v
bound-IsReceiptOf i v h = record {
  action = ground arith;
  key = ground arith;
  generation = ground arith;
}

pub Consistent-Belongs :
    (k : ℕ) (i : ActionIntent) (s : Option ActionStart) (r : Option ActionReceipt)
    → Consistent k i s r
    → Belongs k i s r
Consistent-Belongs k i s r (named, a, b, c) = record {
  named = named;
  started = λ v e. bound-IsStartOf i v (rw e at a);
  received = λ v e. bound-IsReceiptOf i v (rw e at b);
  unstarted = λ v none_yet e. is_cancelled v.status (rw (none_yet, e) at c);
}
