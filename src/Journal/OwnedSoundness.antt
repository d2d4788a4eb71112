-- ===== src/Journal/OwnedSoundness.antt =====
-- The same through the operations of an owner: starts, receipts and the lease, of
-- src/dyro/continuation/action_journal.py and owner_lease.py.
use dyro_engineering_flow.Prelude.{
  ℕ, ◌≡◌, refl, Bool, true, false, ◌||◌, Option, none, some, List, arith, is_some, if◌then◌else◌,
  ◌∙◌,
}
use dyro_engineering_flow.Journal.Model.{
  cancelled, same_status, ActionIntent, ActionStart, ActionReceipt, ActionRecord, OwnerLease,
  OwnerLeaseGrant,
}
use dyro_engineering_flow.Journal.Store.{ok, Directory, pure, ◌>>=◌}
use dyro_engineering_flow.Journal.Keeps.{
  Keeps, pure-Keeps, raise-Keeps, if-Keeps, cases-Keeps, bind-Keeps, keeps_rules, bind_cases,
  read_cases, reads_at, guard_at, cases_at, pure_state,
}
use dyro_engineering_flow.Journal.Actions.{
  start_bound, receipt_allowed, read_record, publish_receipt,
}
use dyro_engineering_flow.Journal.Lease.{
  prepare_takeover, write_takeover, acquire_owner_lease, assert_owner, current_lease,
  verify_owner_lease, renew_owner_lease, release_owner_lease,
}
use dyro_engineering_flow.Journal.Operations.{
  same_start_binding, started_as, expected_start, start_action, cancel_checked,
  record_action_receipt,
}
use dyro_engineering_flow.Journal.Reads.{
  current_lease_reads, assert_owner_reads, prepare_takeover_reads,
}
use dyro_engineering_flow.Journal.Sound.{
  start_whole, write_start_new, IsSound, read_record_lem, start-IsSound,
}
use dyro_engineering_flow.Journal.Soundness.{
  publish_at-IsSound, publish_cancelled-IsSound, write_lease-IsSound, write_pending-IsSound,
  recover_owner_takeover-IsSound,
}

module _ (token_digest : ℕ → ℕ) where
  pub verify_owner_lease-IsSound :
      (g : OwnerLeaseGrant) (now : ℕ) → Keeps IsSound (verify_owner_lease token_digest g now)
  unfolding verify_owner_lease assert_owner
  verify_owner_lease-IsSound g now = search (keeps_rules, recover_owner_takeover-IsSound) depth 16

  started_as-IsSound :
      (expected : ActionStart) (r : ActionRecord) (old : ActionStart)
      → Keeps IsSound (started_as expected r old)
  started_as-IsSound expected r old =
      if-Keeps (same_start_binding old expected) _ _ (λ _. pure-Keeps _) (λ _. raise-Keeps _)

  -- The start that is written binds to the intent that was read.
  pub start_action-IsSound :
      (id : ℕ) (g : OwnerLeaseGrant) (now : ℕ) → Keeps IsSound (start_action token_digest id g now)
  unfolding start_action
  start_action-IsSound id g now = bind-Keeps _ _ recover_owner_takeover-IsSound λ _. record {
    at = λ d s. reads_at IsSound d (read_record id) _ s λ r e. guard_at IsSound d _ _ _ s λ _.
        read_cases IsSound current_lease _ d (current_lease_reads d) s λ lease _.
          read_cases IsSound (assert_owner token_digest lease g now) _ d
            (assert_owner_reads token_digest lease g now d) s
            λ _ _. guard_at IsSound d _ _ _ s λ _.
              cases_at IsSound d r.start _ _
                (λ absent.
                  let (known, started, _, whole) = read_record_lem id d e in
                  rw
                    (write_start_new id (expected_start r.intent lease now) r d (started ∙ absent)
                      (start_whole id d whole))
                    (start-IsSound d s id (expected_start r.intent lease now) known
                      (binds r.intent lease) (started ∙ absent)))
                (λ old _. (started_as-IsSound (expected_start r.intent lease now) r old).at d s);
  }
    where
      binds :
          (i : ActionIntent) (lease : OwnerLease)
          → start_bound i (some (expected_start i lease now)) ≡ true
      binds i lease = ground arith

  cancel_checked-IsSound :
      (grant : Option (OwnerLeaseGrant × ℕ)) (v : ActionReceipt) (r : ActionRecord)
      → Keeps IsSound (cancel_checked token_digest grant v r)
  cancel_checked-IsSound grant v r = search (keeps_rules, verify_owner_lease-IsSound) depth 12

  cancel_checked-cancelled :
      (grant : Option (OwnerLeaseGrant × ℕ)) (v : ActionReceipt) (r : ActionRecord) (d : Directory)
      {x : Unit {0}}
      → (cancel_checked token_digest grant v r d).0 ≡ ok x
      → same_status v.status cancelled ≡ true
  unfolding ◌>>=◌
  cancel_checked-cancelled grant v r d h = ground arith

  -- Without a start and without a receipt the call goes on only for a cancellation.
  pub record_action_receipt-IsSound :
      (v : ActionReceipt) (grant : Option (OwnerLeaseGrant × ℕ))
      → Keeps IsSound (record_action_receipt token_digest v grant)
  unfolding record_action_receipt
  record_action_receipt-IsSound v grant = bind-Keeps _ _ recover_owner_takeover-IsSound λ _.
      record {
        at = λ d s. reads_at IsSound d (read_record v.action_id) _ s λ r e.
            guard_at IsSound d _ _ _ s
              λ _. publish d s r e (is_some r.receipt || is_some r.start) refl;
      }
    where
      seen :
          (start : Option ActionStart) (receipt : Option ActionReceipt)
          → is_some receipt || is_some start ≡ true
          → receipt ≡ none
          → receipt_allowed start (some v) ≡ true
      seen start receipt some_file absent = ground arith

      publish :
          (d : Directory) (s : IsSound d) (r : ActionRecord)
          → read_record v.action_id d ≡ ok r
          → (b : Bool) → (is_some r.receipt || is_some r.start) ≡ b
          → IsSound
              (((if b then pure tt else cancel_checked token_digest grant v r) >>= λ _.
                  publish_receipt v)
                d).1
      publish d s r e true known = read_cases IsSound (pure tt) _ d (pure_state tt d) s λ _ _.
          publish_at-IsSound v d s
            λ r' e' absent. let same : r' ≡ r = cc in rw same (seen r.start r.receipt known (cc))
      publish d s r e false fresh =
          bind_cases IsSound (cancel_checked token_digest grant v r) _ d
            ((cancel_checked-IsSound grant v r).at d s)
            (λ _ h.
              (publish_cancelled-IsSound v (cancel_checked-cancelled grant v r d h)).at _
                ((cancel_checked-IsSound grant v r).at d s))

  pub write_takeover-IsSound :
      (lease : OwnerLease) (previous : Option OwnerLease) (plan : Option (List ActionReceipt))
      → Keeps IsSound (write_takeover token_digest lease previous plan)
  write_takeover-IsSound lease previous plan =
      cases-Keeps plan _ _ (pure-Keeps _) (λ rs _. write_pending-IsSound _)

  pub prepare_takeover-IsSound :
      (objective now ttl pid : ℕ) (process_start : List ℕ) (token : ℕ) (summary : List ℕ)
      → Keeps IsSound
          (prepare_takeover token_digest objective now ttl pid process_start token summary)
  prepare_takeover-IsSound objective now ttl pid process_start token summary = record {
    at = λ d s.
        rw (prepare_takeover_reads token_digest objective now ttl pid process_start token summary d)
          s;
  }

  pub acquire_owner_lease-IsSound :
      (objective now ttl pid : ℕ) (process_start : List ℕ) (token : ℕ) (summary : List ℕ)
      → Keeps IsSound
          (acquire_owner_lease token_digest objective now ttl pid process_start token summary)
  unfolding acquire_owner_lease
  acquire_owner_lease-IsSound objective now ttl pid process_start token summary =
      let prepare =
        prepare_takeover token_digest objective now ttl pid process_start token summary in
      bind-Keeps _ _ recover_owner_takeover-IsSound λ _.
        bind-Keeps prepare _
          (prepare_takeover-IsSound objective now ttl pid process_start token summary)
          λ (lease, previous, plan).
            bind-Keeps _ _ (write_takeover-IsSound lease previous plan) λ _.
              bind-Keeps _ _ (write_lease-IsSound lease)
                λ _. bind-Keeps _ _ recover_owner_takeover-IsSound (λ _. pure-Keeps _)

  pub renew_owner_lease-IsSound :
      (g : OwnerLeaseGrant) (now ttl : ℕ) → Keeps IsSound (renew_owner_lease token_digest g now ttl)
  unfolding renew_owner_lease assert_owner
  renew_owner_lease-IsSound g now ttl =
      search (keeps_rules, recover_owner_takeover-IsSound, write_lease-IsSound) depth 20

  pub release_owner_lease-IsSound :
      (g : OwnerLeaseGrant) (now : ℕ) → Keeps IsSound (release_owner_lease token_digest g now)
  unfolding release_owner_lease assert_owner
  release_owner_lease-IsSound g now =
      search (keeps_rules, recover_owner_takeover-IsSound, write_lease-IsSound) depth 20
