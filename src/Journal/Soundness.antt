-- ===== src/Journal/Soundness.antt =====
-- The bindings between the files of an action, through the operations of
-- src/dyro/continuation/action_journal.py and owner_lease.py.
use dyro_engineering_flow.Prelude.{
  ℕ, ◌≡◌, refl, true, inl, inr, Option, none, some, List, [], ◌∷◌, arith, all, All, and_true, ◌∙◌,
}
use dyro_engineering_flow.Prelude.Dict.{lookup}
use dyro_engineering_flow.Journal.Model.{
  cancelled, same_status, ActionIntent, ActionStart, ActionReceipt, ActionRecord, OwnerLease,
}
use dyro_engineering_flow.Journal.Store.{
  intent_file, ok, TakeoverPending, Directory, create_intent, write_lease, write_pending,
  pending_written, remove_pending, same_lease?,
}
use dyro_engineering_flow.Journal.Keeps.{
  created_at, Keeps, pure-Keeps, raise-Keeps, reads-Keeps, if-Keeps, cases-Keeps, bind-Keeps,
  keeps_rules, guard_at,
}
use dyro_engineering_flow.Journal.Actions.{
  receipt_bound, receipt_allowed, read_record, publish_receipt, plan_accepted, plan_applies,
  publish_all, apply_action_cancellation, cancel_unstarted_actions,
}
use dyro_engineering_flow.Journal.Lease.{recover_owner_takeover, read_owner_lease}
use dyro_engineering_flow.Journal.Operations.{same_intent_binding, create_or_read, reserve_action}
use dyro_engineering_flow.Journal.Sound.{
  IsSound, read_record_lem, publish_receipt_cases, intent-IsSound, receipt-IsSound,
}

-- A receipt that may stand beside what was read keeps the bindings.
pub publish_at-IsSound :
    (receipt : ActionReceipt) (d : Directory)
    → IsSound d
    → ((r : ActionRecord)
        → read_record receipt.action_id d ≡ ok r
        → r.receipt ≡ none
        → receipt_allowed r.start (some receipt) ≡ true)
    → IsSound (publish_receipt receipt d).1
publish_at-IsSound receipt d s allowed = elim (publish_receipt_cases receipt d) [
  | inl same ↦ rw same s
  | inr (r, e, key, gen, absent, new) ↦
      let (known, started, received, _) = read_record_lem receipt.action_id d e in
      rw new (
        receipt-IsSound d s receipt.action_id receipt known
          (binds receipt r (s.bound receipt.action_id r.intent known).0 key gen)
          (rw started (allowed r e absent)) (received ∙ absent))
]
  where
    binds :
        (v : ActionReceipt) (r : ActionRecord)
        → r.intent.action_id ≡ v.action_id
        → v.idempotency_key ≡ r.intent.idempotency_key
        → v.owner_generation ≡ r.intent.owner_generation
        → receipt_bound r.intent (some v) ≡ true
    binds v r a b c = ground arith

abbrev pub IsCancelled : ActionReceipt → Type 0
IsCancelled r = same_status r.status cancelled ≡ true

cancelled_allowed :
    (s : Option ActionStart) (v : ActionReceipt) → IsCancelled v → receipt_allowed s (some v) ≡ true
cancelled_allowed none v h = h
cancelled_allowed (some _) v h = refl

pub publish_cancelled-IsSound :
    (v : ActionReceipt) → IsCancelled v → Keeps IsSound (publish_receipt v)
publish_cancelled-IsSound v h = record {
  at = λ d s. publish_at-IsSound v d s (λ r _ _. cancelled_allowed r.start v h);
}

all_cancelled :
    (rs : List ActionReceipt)
    → all (λ r. same_status r.status cancelled) rs ≡ true
    → All IsCancelled rs
all_cancelled [] h = tt
all_cancelled (r ∷ rs) h = ((and_true h).0, all_cancelled rs (and_true h).1)

pub plan_accepted-IsCancelled :
    (rs : List ActionReceipt) → plan_accepted rs ≡ true → All IsCancelled rs
unfolding plan_accepted
plan_accepted-IsCancelled rs h = all_cancelled rs (ground arith)

pub publish_all-IsSound :
    (rs : List ActionReceipt) → All IsCancelled rs → Keeps IsSound (publish_all rs)
unfolding publish_all
publish_all-IsSound [] h = pure-Keeps _
publish_all-IsSound (r ∷ rs) (h, hs) =
    bind-Keeps _ _ (publish_cancelled-IsSound r h)
      λ x. bind-Keeps _ _ (publish_all-IsSound rs hs) (λ xs. pure-Keeps _)

pub plan_applies-IsSound : (rs : List ActionReceipt) → Keeps IsSound (plan_applies rs)
unfolding plan_applies
plan_applies-IsSound [] = pure-Keeps _
plan_applies-IsSound (r ∷ rs) =
    let rest = plan_applies-IsSound rs in
    bind-Keeps _ _ (reads-Keeps _) (λ x. search keeps_rules depth 10)

pub apply_action_cancellation-IsSound :
    (rs : List ActionReceipt) → Keeps IsSound (apply_action_cancellation rs)
unfolding apply_action_cancellation
apply_action_cancellation-IsSound rs = record {
  at = λ d s. guard_at IsSound d (plan_accepted rs) _ _ s λ ok.
      (bind-Keeps (plan_applies rs) _ (plan_applies-IsSound rs)
          (λ _. publish_all-IsSound rs (plan_accepted-IsCancelled rs ok))).at
        d s;
}

pub cancel_unstarted_actions-IsSound :
    (summary : List ℕ) (now : ℕ) → Keeps IsSound (cancel_unstarted_actions summary now)
unfolding cancel_unstarted_actions
cancel_unstarted_actions-IsSound summary now =
    search (keeps_rules, apply_action_cancellation-IsSound)

pub write_lease-IsSound : (l : OwnerLease) → Keeps IsSound (write_lease l)
unfolding write_lease
write_lease-IsSound l = record {
  at = λ d s. record {
    bound = s.bound;
    start_known = s.start_known;
    receipt_known = s.receipt_known;
  };
}

pub remove_pending-IsSound : Keeps IsSound remove_pending
unfolding remove_pending
remove_pending-IsSound = record {
  at = λ d s. record {
    bound = s.bound;
    start_known = s.start_known;
    receipt_known = s.receipt_known;
  };
}

pending_written-IsSound :
    (old : Option TakeoverPending) (p : TakeoverPending) → Keeps IsSound (pending_written old p)
pending_written-IsSound none p = record {
  at = λ d s. record {
    bound = s.bound;
    start_known = s.start_known;
    receipt_known = s.receipt_known;
  };
}
pending_written-IsSound (some _) p = record { at = λ d s. s }

pub write_pending-IsSound : (p : TakeoverPending) → Keeps IsSound (write_pending p)
unfolding write_pending
write_pending-IsSound p = record { at = λ d s. (pending_written-IsSound d.pending p).at d s }

pub recover_owner_takeover-IsSound : Keeps IsSound recover_owner_takeover
unfolding recover_owner_takeover
recover_owner_takeover-IsSound = bind-Keeps _ _ (reads-Keeps _) λ pending.
    cases-Keeps pending _ _ (pure-Keeps _) λ p _. bind-Keeps _ _ (search keeps_rules) λ _.
      bind-Keeps _ _ (reads-Keeps _) λ current.
        if-Keeps (same_lease? current (some p.lease)) _ _
          (λ _.
            bind-Keeps _ _ (apply_action_cancellation-IsSound p.action_cancellation)
              (λ _. remove_pending-IsSound))
          (λ _.
            if-Keeps (same_lease? current p.previous_lease) _ _ (λ _. remove_pending-IsSound)
              (λ _. raise-Keeps _))

pub read_owner_lease-IsSound : Keeps IsSound read_owner_lease
unfolding read_owner_lease
read_owner_lease-IsSound = search (keeps_rules, recover_owner_takeover-IsSound)

create_intent-IsSound : (i : ActionIntent) → Keeps IsSound (create_intent i.action_id i)
unfolding create_intent
create_intent-IsSound i = record {
  at = λ d s.
      created_at IsSound (intent_file i.action_id) (lookup i.action_id d.intents) _ d s
        (intent-IsSound d s i.action_id i refl);
}

create_or_read-IsSound : (i : ActionIntent) → Keeps IsSound (create_or_read i)
create_or_read-IsSound i = bind-Keeps _ _ (create_intent-IsSound i) λ done.
    if-Keeps done _ _ (λ _. pure-Keeps _)
      λ _.
        bind-Keeps _ _ (reads-Keeps _) λ r.
          if-Keeps (same_intent_binding r.intent i) _ _ (λ _. pure-Keeps _) (λ _. raise-Keeps _)

pub reserve_action-IsSound : (i : ActionIntent) → Keeps IsSound (reserve_action i)
unfolding reserve_action
reserve_action-IsSound i = bind-Keeps _ _ recover_owner_takeover-IsSound λ _.
    bind-Keeps _ _ (reads-Keeps _) λ rs.
      cases-Keeps _ _ _ (create_or_read-IsSound i) λ r _.
        if-Keeps (same_intent_binding r.intent i) _ _ (λ _. pure-Keeps _) (λ _. raise-Keeps _)
