-- ===== src/Journal/Growth.antt =====
-- What the operations of src/dyro/continuation/action_journal.py and owner_lease.py add to a
-- directory.
use dyro_engineering_flow.Prelude.{ℕ, ◌+◌, ◌≤◌, ◌≡◌, refl, Option, none, some, List, [], ◌∷◌, arith}
use dyro_engineering_flow.Journal.Model.{ActionIntent, ActionReceipt, OwnerLease, OwnerLeaseGrant}
use dyro_engineering_flow.Journal.Store.{
  ok, TakeoverPending, Directory, M, pure, ◌>>=◌, write_lease, same_lease?, write_pending,
}
use dyro_engineering_flow.Journal.Actions.{
  publish_receipt, plan_applies, publish_all, apply_action_cancellation, cancel_unstarted_actions,
}
use dyro_engineering_flow.Journal.Lease.{
  prepare_takeover, write_takeover, recover_from, recover_owner_takeover, read_owner_lease,
  acquire_owner_lease, assert_owner, current_lease, verify_owner_lease, renew_owner_lease,
  release_owner_lease,
}
use dyro_engineering_flow.Journal.Operations.{reserve_action, start_action, record_action_receipt}
use dyro_engineering_flow.Journal.Keeps.{
  Keeps, bind-Keeps, if-Keeps, raise-Keeps, pure-Keeps, cases-Keeps, bind_cases, read_cases,
  bind_from, keeps_rules,
}
use dyro_engineering_flow.Journal.History.{
  Extends, Extends-trans, generation, create_intent-Grows, create_start-Grows, create_receipt-Grows,
  write_pending-Grows, remove_pending-Grows, write_lease-Extends,
}
use dyro_engineering_flow.Journal.Reads.{
  prepare_takeover_reads, prepare_takeover_lem, generation-le-next, lease-write_pending,
  current_lease_reads, current_lease_lem, assert_owner_reads,
}

module _ (base : Directory) where
  pub publish_receipt-Grows : (r : ActionReceipt) → Keeps (Extends base) (publish_receipt r)
  unfolding publish_receipt
  publish_receipt-Grows r = search (keeps_rules, create_receipt-Grows base) depth 12

  pub plan_applies-Grows : (rs : List ActionReceipt) → Keeps (Extends base) (plan_applies rs)
  unfolding plan_applies
  plan_applies-Grows [] = search keeps_rules
  plan_applies-Grows (r ∷ rs) =
      let rest = plan_applies-Grows rs in
      bind-Keeps _ _ (search keeps_rules) (λ x. search keeps_rules depth 10)

  pub publish_all-Grows : (rs : List ActionReceipt) → Keeps (Extends base) (publish_all rs)
  unfolding publish_all
  publish_all-Grows [] = search keeps_rules
  publish_all-Grows (r ∷ rs) =
      let rest = publish_all-Grows rs in
      bind-Keeps _ _ (publish_receipt-Grows r) (λ x. search keeps_rules)

  apply_action_cancellation-Grows :
      (rs : List ActionReceipt) → Keeps (Extends base) (apply_action_cancellation rs)
  unfolding apply_action_cancellation
  apply_action_cancellation-Grows rs = search (keeps_rules, plan_applies-Grows, publish_all-Grows)

  pub cancel_unstarted_actions-Grows :
      (summary : List ℕ) (now : ℕ) → Keeps (Extends base) (cancel_unstarted_actions summary now)
  unfolding cancel_unstarted_actions
  cancel_unstarted_actions-Grows summary now = search (keeps_rules, apply_action_cancellation-Grows)

  recover_from-Grows : (p : TakeoverPending) → Keeps (Extends base) (recover_from p)
  recover_from-Grows p =
      let apply = apply_action_cancellation-Grows p.action_cancellation in
      let remove = remove_pending-Grows base in
      bind-Keeps _ _ (search keeps_rules) λ _. bind-Keeps _ _ (search keeps_rules) λ current.
        if-Keeps (same_lease? current (some p.lease)) _ _ (λ _. bind-Keeps _ _ apply (λ _. remove))
          (λ _.
            if-Keeps (same_lease? current p.previous_lease) _ _ (λ _. remove) (λ _. raise-Keeps _))

  pub recover_owner_takeover-Grows : Keeps (Extends base) recover_owner_takeover
  unfolding recover_owner_takeover
  recover_owner_takeover-Grows = search (keeps_rules, recover_from-Grows)

  pub read_owner_lease-Grows : Keeps (Extends base) read_owner_lease
  unfolding read_owner_lease
  read_owner_lease-Grows = search (keeps_rules, recover_owner_takeover-Grows)

  pub reserve_action-Grows : (i : ActionIntent) → Keeps (Extends base) (reserve_action i)
  unfolding reserve_action
  reserve_action-Grows i =
      search (keeps_rules, recover_owner_takeover-Grows, create_intent-Grows base) depth 12

  module _ (token_digest : ℕ → ℕ) where
    assert_owner-Grows :
        (l : OwnerLease) (g : OwnerLeaseGrant) (now : ℕ)
        → Keeps (Extends base) (assert_owner token_digest l g now)
    unfolding assert_owner
    assert_owner-Grows l g now = search keeps_rules depth 10

    verify_owner_lease-Grows :
        (g : OwnerLeaseGrant) (now : ℕ)
        → Keeps (Extends base) (verify_owner_lease token_digest g now)
    unfolding verify_owner_lease
    verify_owner_lease-Grows g now =
        search (keeps_rules, recover_owner_takeover-Grows, assert_owner-Grows) depth 10

    pub start_action-Grows :
        (id : ℕ) (g : OwnerLeaseGrant) (now : ℕ)
        → Keeps (Extends base) (start_action token_digest id g now)
    unfolding start_action
    start_action-Grows id g now =
        search
          (keeps_rules, recover_owner_takeover-Grows, assert_owner-Grows, create_start-Grows base)
          depth 16

    pub record_action_receipt-Grows :
        (r : ActionReceipt) (grant : Option (OwnerLeaseGrant × ℕ))
        → Keeps (Extends base) (record_action_receipt token_digest r grant)
    unfolding record_action_receipt
    record_action_receipt-Grows r grant =
        search
          (
            keeps_rules, recover_owner_takeover-Grows, verify_owner_lease-Grows,
            publish_receipt-Grows,
          )
          depth 16

    abbrev pub Ready : OwnerLease → Directory → Type 0
    Ready lease d = Extends base d × (generation d.lease ≤ lease.generation)

    write_pending-Ready :
        (lease : OwnerLease) (p : TakeoverPending) → Keeps (Ready lease) (write_pending p)
    write_pending-Ready lease p = record {
      at = λ d (x, h). ((write_pending-Grows base p).at d x, rw (lease-write_pending p d) h);
    }

    pub write_takeover-Ready :
        (lease : OwnerLease) (previous : Option OwnerLease) (plan : Option (List ActionReceipt))
        → Keeps (Ready lease) (write_takeover token_digest lease previous plan)
    write_takeover-Ready lease previous plan =
        cases-Keeps plan _ _ (pure-Keeps _) (λ receipts _. write_pending-Ready lease _)

    -- What a takeover does with the lease that it prepared, from a directory whose lease is older.
    pub prepared-Grows :
        {A : Type 0} (objective now ttl pid : ℕ) (process_start : List ℕ) (token : ℕ)
        (summary : List ℕ) (f : OwnerLease × Option OwnerLease × Option (List ActionReceipt) → M A)
        → ((lease : OwnerLease) (previous : Option OwnerLease) (plan : Option (List ActionReceipt))
              (d : Directory)
            → Ready lease d
            → Extends base (f (lease, previous, plan) d).1)
        → Keeps (Extends base) (
            recover_owner_takeover >>= λ _.
            prepare_takeover token_digest objective now ttl pid process_start token summary >>= f)
    prepared-Grows objective now ttl pid process_start token summary f grows =
        bind-Keeps _ _ recover_owner_takeover-Grows λ _. record {
          at = λ d x.
              read_cases (Extends base)
                (prepare_takeover token_digest objective now ttl pid process_start token summary) f
                d
                (prepare_takeover_reads token_digest objective now ttl pid process_start token
                  summary d)
                x (λ (lease, previous, plan) h. grows lease previous plan d (x, raised d h));
        }
      where
        -- The new lease stands one generation above the one that was read.
        raised :
            (d : Directory) {lease : OwnerLease} {previous : Option OwnerLease}
            {plan : Option (List ActionReceipt)}
            → (prepare_takeover token_digest objective now ttl pid process_start token summary d).0
              ≡ ok (lease, previous, plan)
            → generation d.lease ≤ lease.generation
        raised d h =
            let facts =
              prepare_takeover_lem token_digest objective now ttl pid process_start token summary d
                h in
            rw facts.0 (generation-le-next d.lease)

    pub written-Extends :
        (lease : OwnerLease) (d : Directory) → Ready lease d → Extends base (write_lease lease d).1
    written-Extends lease d r = Extends-trans r.0 (write_lease-Extends lease d r.1)

    pub acquire_owner_lease-Grows :
        (objective now ttl pid : ℕ) (process_start : List ℕ) (token : ℕ) (summary : List ℕ)
        → Keeps
            (Extends base)
            (acquire_owner_lease token_digest objective now ttl pid process_start token summary)
    unfolding acquire_owner_lease
    acquire_owner_lease-Grows objective now ttl pid process_start token summary =
        prepared-Grows objective now ttl pid process_start token summary _
          λ lease previous plan d r.
            bind_from (Extends base) _ _ d (write_takeover-Ready lease previous plan) r (λ e x. x.0)
              λ _ e x.
                bind_cases (Extends base) (write_lease lease) _ e (written-Extends lease e x) λ _ _.
                  (bind-Keeps _ _ recover_owner_takeover-Grows (λ _. pure-Keeps _)).at _
                    (written-Extends lease e x)

    rewrite_lease-Grows :
        (f : OwnerLease → OwnerLease) (g : OwnerLeaseGrant) (now : ℕ) {A : Type 0}
        (a : OwnerLease → A)
        → ((l : OwnerLease) → (f l).generation ≡ l.generation)
        → Keeps (Extends base) (
            current_lease >>= λ l.
            assert_owner token_digest l g now >>= λ _. write_lease (f l) >>= λ _. pure (a l))
    rewrite_lease-Grows f g now a same = record {
      at = λ d x. read_cases (Extends base) current_lease _ d (current_lease_reads d) x λ l e.
          read_cases (Extends base) (assert_owner token_digest l g now) _ d
            (assert_owner_reads token_digest l g now d) x
            λ _ _.
              bind_cases (Extends base) (write_lease (f l)) _ d
                (Extends-trans x (write_lease-Extends (f l) d (kept d l e)))
                (λ _ _.
                  (pure-Keeps {P = Extends base} (a l)).at (write_lease (f l) d).1
                    (Extends-trans x (write_lease-Extends (f l) d (kept d l e))));
    }
      where
        kept :
            (d : Directory) (l : OwnerLease)
            → (current_lease d).0 ≡ ok l
            → generation d.lease ≤ (f l).generation
        kept d l e = rw (current_lease_lem d e, same l) (omega arith)

    pub renew_owner_lease-Grows :
        (g : OwnerLeaseGrant) (now ttl : ℕ)
        → Keeps (Extends base) (renew_owner_lease token_digest g now ttl)
    unfolding renew_owner_lease
    renew_owner_lease-Grows g now ttl = bind-Keeps _ _ recover_owner_takeover-Grows λ _.
        bind-Keeps _ _ (search keeps_rules) λ _.
          rewrite_lease-Grows
            (λ l. record l { heartbeat_at = now; expires_at = now + ttl; released_at = none }) g now
            _ (λ l. refl)

    pub release_owner_lease-Grows :
        (g : OwnerLeaseGrant) (now : ℕ)
        → Keeps (Extends base) (release_owner_lease token_digest g now)
    unfolding release_owner_lease
    release_owner_lease-Grows g now = bind-Keeps _ _ recover_owner_takeover-Grows λ _.
        rewrite_lease-Grows (λ l. record l { heartbeat_at = now; released_at = some now }) g now _
          (λ l. refl)
