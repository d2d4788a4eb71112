-- ===== src/Objective/Unspent.antt =====
-- What the calls of src/dyro/continuation/action_journal.py and owner_lease.py leave of a budget: all
-- but a new intent charge no more than before.
use dyro_engineering_flow.Prelude.{
  ℕ, ◌+◌, ◌≤◌, ◌≡◌, ◌∙◌, Bool, true, not, Option, none, some, List, [], ◌∷◌, arith, is_some,
}
use dyro_engineering_flow.Prelude.Dict.{lookup}
use dyro_engineering_flow.Budget.Model.{BudgetReservation}
use dyro_engineering_flow.Journal.Model.{
  ActionStart, ActionReceipt, ActionRecord, OwnerLease, OwnerLeaseGrant,
}
use dyro_engineering_flow.Journal.Store.{
  receipt_file, TakeoverPending, Directory, create_receipt, write_lease, write_pending,
  remove_pending, pending_written, same_lease?,
}
use dyro_engineering_flow.Journal.Actions.{
  read_record, publish_receipt, plan_applies, publish_all, apply_action_cancellation,
  cancel_unstarted_actions,
}
use dyro_engineering_flow.Journal.Lease.{
  recover_from, recover_owner_takeover, prepare_takeover, write_takeover, acquire_owner_lease,
  assert_owner, current_lease, verify_owner_lease, renew_owner_lease, release_owner_lease,
}
use dyro_engineering_flow.Journal.Operations.{
  same_start_binding, started_as, expected_start, start_action, record_action_receipt,
}
use dyro_engineering_flow.Journal.Keeps.{
  created_at, Keeps, pure-Keeps, raise-Keeps, if-Keeps, cases-Keeps, bind-Keeps, keeps_rules,
  read_cases, reads_at, guard_at, cases_at,
}
use dyro_engineering_flow.Journal.Reads.{
  current_lease_reads, assert_owner_reads, prepare_takeover_reads,
}
use dyro_engineering_flow.Journal.Sound.{start_whole, write_start_new, read_record_lem}
use dyro_engineering_flow.Objective.Charged.{IsCount, charged, charged-receipt, charged-start}

module _ {counts : Bool → Bool → Bool} (c : IsCount counts) (f : BudgetReservation → ℕ)
    (o more limit : ℕ) where
  -- What is charged leaves room for `more`.
  abbrev pub Leaves : Directory → Type 0
  Leaves d = charged counts f o d + more ≤ limit

  create_receipt-Leaves : (k : ℕ) (v : ActionReceipt) → Keeps Leaves (create_receipt k v)
  unfolding create_receipt
  create_receipt-Leaves k v = record {
    at = λ d h.
        created_at Leaves (receipt_file k) (lookup k d.receipts) _ d h
          (λ absent. omega (arith, charged-receipt counts f o c d k v absent, h));
  }

  pub write_lease-Leaves : (l : OwnerLease) → Keeps Leaves (write_lease l)
  unfolding write_lease
  write_lease-Leaves l = record { at = λ d h. h }

  remove_pending-Leaves : Keeps Leaves remove_pending
  unfolding remove_pending
  remove_pending-Leaves = record { at = λ d h. h }

  pending_written-Leaves :
      (old : Option TakeoverPending) (p : TakeoverPending) → Keeps Leaves (pending_written old p)
  pending_written-Leaves none p = record { at = λ d h. h }
  pending_written-Leaves (some _) p = record { at = λ d h. h }

  pub write_pending-Leaves : (p : TakeoverPending) → Keeps Leaves (write_pending p)
  unfolding write_pending
  write_pending-Leaves p = record { at = λ d h. (pending_written-Leaves d.pending p).at d h }

  publish_receipt-Leaves : (r : ActionReceipt) → Keeps Leaves (publish_receipt r)
  unfolding publish_receipt
  publish_receipt-Leaves r = search (keeps_rules, create_receipt-Leaves) depth 12

  pub plan_applies-Leaves : (rs : List ActionReceipt) → Keeps Leaves (plan_applies rs)
  unfolding plan_applies
  plan_applies-Leaves [] = search keeps_rules
  plan_applies-Leaves (r ∷ rs) =
      let rest = plan_applies-Leaves rs in
      bind-Keeps _ _ (search keeps_rules) (λ x. search keeps_rules depth 10)

  pub publish_all-Leaves : (rs : List ActionReceipt) → Keeps Leaves (publish_all rs)
  unfolding publish_all
  publish_all-Leaves [] = search keeps_rules
  publish_all-Leaves (r ∷ rs) =
      let rest = publish_all-Leaves rs in
      bind-Keeps _ _ (publish_receipt-Leaves r) (λ x. search keeps_rules)

  apply_action_cancellation-Leaves :
      (rs : List ActionReceipt) → Keeps Leaves (apply_action_cancellation rs)
  unfolding apply_action_cancellation
  apply_action_cancellation-Leaves rs =
      search (keeps_rules, plan_applies-Leaves, publish_all-Leaves)

  pub cancel_unstarted_actions-Leaves :
      (summary : List ℕ) (now : ℕ) → Keeps Leaves (cancel_unstarted_actions summary now)
  unfolding cancel_unstarted_actions
  cancel_unstarted_actions-Leaves summary now =
      search (keeps_rules, apply_action_cancellation-Leaves)

  recover_from-Leaves : (p : TakeoverPending) → Keeps Leaves (recover_from p)
  recover_from-Leaves p =
      let apply = apply_action_cancellation-Leaves p.action_cancellation in
      bind-Keeps _ _ (search keeps_rules) λ _. bind-Keeps _ _ (search keeps_rules) λ current.
        if-Keeps (same_lease? current (some p.lease)) _ _
          (λ _. bind-Keeps _ _ apply (λ _. remove_pending-Leaves))
          (λ _.
            if-Keeps (same_lease? current p.previous_lease) _ _ (λ _. remove_pending-Leaves)
              (λ _. raise-Keeps _))

  pub recover_owner_takeover-Leaves : Keeps Leaves recover_owner_takeover
  unfolding recover_owner_takeover
  recover_owner_takeover-Leaves = search (keeps_rules, recover_from-Leaves)

  module _ (token_digest : ℕ → ℕ) where
    pub verify_owner_lease-Leaves :
        (g : OwnerLeaseGrant) (now : ℕ) → Keeps Leaves (verify_owner_lease token_digest g now)
    unfolding verify_owner_lease assert_owner
    verify_owner_lease-Leaves g now = search (keeps_rules, recover_owner_takeover-Leaves) depth 16

    started_as-Leaves :
        (expected : ActionStart) (r : ActionRecord) (old : ActionStart)
        → Keeps Leaves (started_as expected r old)
    started_as-Leaves expected r old =
        if-Keeps (same_start_binding old expected) _ _ (λ _. pure-Keeps _) (λ _. raise-Keeps _)

    -- A start is written only beside an intent without a receipt.
    pub start_action-Leaves :
        (id : ℕ) (g : OwnerLeaseGrant) (now : ℕ) → Keeps Leaves (start_action token_digest id g now)
    unfolding start_action
    start_action-Leaves id g now = bind-Keeps _ _ recover_owner_takeover-Leaves λ _. record {
      at = λ d s. reads_at Leaves d (read_record id) _ s λ r e.
          guard_at Leaves d _ _ _ s λ unclosed.
            read_cases Leaves current_lease _ d (current_lease_reads d) s λ lease _.
              read_cases Leaves (assert_owner token_digest lease g now) _ d
                (assert_owner_reads token_digest lease g now d) s
                λ _ _. guard_at Leaves d _ _ _ s λ _.
                  cases_at Leaves d r.start _ _
                    (λ absent.
                      let (_, started, received, whole) = read_record_lem id d e in
                      let v = expected_start r.intent lease now in
                      rw (write_start_new id v r d (started ∙ absent) (start_whole id d whole)) (
                        omega (
                          arith,
                          charged-start counts f o c d id v (started ∙ absent)
                              (received ∙ no_receipt r.receipt unclosed),
                          s,
                        )))
                    (λ old _. (started_as-Leaves (expected_start r.intent lease now) r old).at d s);
    }
      where
        no_receipt : (x : Option ActionReceipt) → not (is_some x) ≡ true → x ≡ none
        no_receipt x h = ground arith

    pub record_action_receipt-Leaves :
        (r : ActionReceipt) (grant : Option (OwnerLeaseGrant × ℕ))
        → Keeps Leaves (record_action_receipt token_digest r grant)
    unfolding record_action_receipt
    record_action_receipt-Leaves r grant =
        search
          (
            keeps_rules, recover_owner_takeover-Leaves, verify_owner_lease-Leaves,
            publish_receipt-Leaves,
          )
          depth 16

    pub write_takeover-Leaves :
        (lease : OwnerLease) (previous : Option OwnerLease) (plan : Option (List ActionReceipt))
        → Keeps Leaves (write_takeover token_digest lease previous plan)
    write_takeover-Leaves lease previous plan =
        cases-Keeps plan _ _ (pure-Keeps _) (λ rs _. write_pending-Leaves _)

    pub prepare_takeover-Leaves :
        (objective now ttl pid : ℕ) (process_start : List ℕ) (token : ℕ) (summary : List ℕ)
        → Keeps Leaves
            (prepare_takeover token_digest objective now ttl pid process_start token summary)
    prepare_takeover-Leaves objective now ttl pid process_start token summary = record {
      at = λ d s.
          rw
            (prepare_takeover_reads token_digest objective now ttl pid process_start token summary
              d)
            s;
    }

    pub acquire_owner_lease-Leaves :
        (objective now ttl pid : ℕ) (process_start : List ℕ) (token : ℕ) (summary : List ℕ)
        → Keeps Leaves
            (acquire_owner_lease token_digest objective now ttl pid process_start token summary)
    unfolding acquire_owner_lease
    acquire_owner_lease-Leaves objective now ttl pid process_start token summary =
        bind-Keeps _ _ recover_owner_takeover-Leaves λ _.
          bind-Keeps _ _ (prepare_takeover-Leaves objective now ttl pid process_start token summary)
            λ (lease, previous, plan).
              bind-Keeps _ _ (write_takeover-Leaves lease previous plan) λ _.
                bind-Keeps _ _ (write_lease-Leaves lease)
                  λ _. bind-Keeps _ _ recover_owner_takeover-Leaves (λ _. pure-Keeps _)

    pub renew_owner_lease-Leaves :
        (g : OwnerLeaseGrant) (now ttl : ℕ)
        → Keeps Leaves (renew_owner_lease token_digest g now ttl)
    unfolding renew_owner_lease assert_owner
    renew_owner_lease-Leaves g now ttl =
        search (keeps_rules, recover_owner_takeover-Leaves, write_lease-Leaves) depth 20

    pub release_owner_lease-Leaves :
        (g : OwnerLeaseGrant) (now : ℕ) → Keeps Leaves (release_owner_lease token_digest g now)
    unfolding release_owner_lease assert_owner
    release_owner_lease-Leaves g now =
        search (keeps_rules, recover_owner_takeover-Leaves, write_lease-Leaves) depth 20
