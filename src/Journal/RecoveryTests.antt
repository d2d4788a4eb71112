-- ===== src/Journal/RecoveryTests.antt =====
-- A takeover of src/dyro/continuation/owner_lease.py and its grant, and one that a crash cut short once the new lease was
-- written: an action is reserved, and its cancellation waits in the pending file.
use dyro_engineering_flow.Prelude.{◌≡◌, refl, arith, some, [], ◌∷◌}
use dyro_engineering_flow.Journal.Model.{cancelled, ActionReceipt, OwnerLease}
use dyro_engineering_flow.Journal.Store.{
  ok, Directory, ◌>>=◌, cases, create_receipt, remove_pending, same_lease?,
}
use dyro_engineering_flow.Journal.Actions.{
  read_record, publish_receipt, plan_applies, publish_all, apply_action_cancellation,
}
use dyro_engineering_flow.Journal.Lease.{
  new_lease, pending_accepted, recover_owner_takeover, acquire_owner_lease, verify_owner_lease,
}
use dyro_engineering_flow.Journal.Recovery.{Settled, recover_owner_takeover-Settled}
use dyro_engineering_flow.Journal.Verified.{acquire-verify}
use dyro_engineering_flow.Journal.Tests.{digest, first_lease, reserved_once, grant, empty, taken}

abbrev second_lease : OwnerLease
second_lease = new_lease digest (some first_lease) 1 90 60 6 (9 ∷ []) 8

abbrev cancellation : ActionReceipt
cancellation = record {
  action_id = 11;
  idempotency_key = 99;
  owner_generation = 1;
  status = cancelled;
  summary = 65 ∷ [];
  recorded_at = 90;
}

abbrev cut_short : Directory
cut_short = record reserved_once {
  lease = some second_lease;
  pending = some (record {
    lease = second_lease;
    previous_lease = some first_lease;
    action_cancellation = cancellation ∷ [];
  });
}

abbrev taken_over : Directory
taken_over = record reserved_once { lease = some second_lease; receipts = (11, cancellation) ∷ [] }

run_recovery : recover_owner_takeover cut_short ≡ (ok tt, taken_over)
unfolding recover_owner_takeover pending_accepted same_lease? apply_action_cancellation plan_applies
    publish_all publish_receipt read_record create_receipt remove_pending ◌>>=◌ cases
run_recovery = refl

recover_owner_takeover-Settled_example :
    Settled cut_short (recover_owner_takeover cut_short).0 (recover_owner_takeover cut_short).1
recover_owner_takeover-Settled_example = recover_owner_takeover-Settled cut_short

acquire-verify_example :
    verify_owner_lease digest grant 20
      (acquire_owner_lease digest 1 10 60 4 (9 ∷ []) 5 (65 ∷ []) empty).1
    ≡ (ok first_lease, (acquire_owner_lease digest 1 10 60 4 (9 ∷ []) 5 (65 ∷ []) empty).1)
acquire-verify_example =
    acquire-verify digest 1 10 60 4 (9 ∷ []) 5 (65 ∷ []) empty 20 taken (omega arith) (omega arith)
