-- ===== src/Journal/Runs.antt =====
-- Histories of the journal of src/dyro/continuation/action_journal.py and owner_lease.py: any calls in
-- any order, and calls that stop between two file writes or inside the creation of a file, as a
-- crash stops them.
use dyro_engineering_flow.Prelude.Dict.{lookup}
use dyro_engineering_flow.Prelude.{
  inl, inr, Bool-cases, none, if◌then◌else◌, ℕ, Option, some, List, [], ◌∷◌, take,
}
use dyro_engineering_flow.Journal.Model.{ActionIntent, ActionReceipt, OwnerLeaseGrant}
use dyro_engineering_flow.Journal.Store.{
  ActionFile, intent_file, start_file, receipt_file, tear, tear_new, write_pending, ok,
  takeover_inconsistent, pending_invalid, TakeoverPending, Directory, M, pure, reads, ◌>>=◌, ◌>>◌,
  cases, guard, write_lease, same_lease?,
}
use dyro_engineering_flow.Journal.Keeps.{Keeps, bind_from, keeps_rules}
use dyro_engineering_flow.Journal.Actions.{plan_applies, publish_all, cancel_unstarted_actions}
use dyro_engineering_flow.Journal.Lease.{
  pending_accepted, read_owner_lease, recover_owner_takeover, prepare_takeover, write_takeover,
  acquire_owner_lease, renew_owner_lease, release_owner_lease,
}
use dyro_engineering_flow.Journal.Operations.{reserve_action, start_action, record_action_receipt}
use dyro_engineering_flow.Journal.History.{write_pending-Grows, Extends, Extends-refl}
use dyro_engineering_flow.Journal.Growth

-- What a takeover is asked for.
pub record Takeover : Type 0 where
  pub objective : ℕ
  pub now : ℕ
  pub ttl : ℕ
  pub pid : ℕ
  pub process_start : List ℕ
  pub token : ℕ
  pub summary : List ℕ

-- The last five stop on the way: a takeover after its pending file or after its lease, a recovery
-- after the first receipts of its plan, and a call that has created a file and not yet written it: a
-- file of an action, or the pending file, which then holds something that is not accepted.
pub data Command : Type 0 where
  read_lease : Command
  reserve : ActionIntent → Command
  start : ℕ → OwnerLeaseGrant → ℕ → Command
  receive : ActionReceipt → Option (OwnerLeaseGrant × ℕ) → Command
  cancel : List ℕ → ℕ → Command
  acquire : Takeover → Command
  renew : OwnerLeaseGrant → ℕ → ℕ → Command
  release : OwnerLeaseGrant → ℕ → Command
  crash_at_pending : Takeover → Command
  crash_at_lease : Takeover → Command
  crash_at_receipt : ℕ → Command
  crash_in_file : ActionFile → Command
  crash_in_pending : TakeoverPending → Command

-- The recovery that stops after `n` receipts.
abbrev pub cut_plan : ℕ → TakeoverPending → M (Unit {0})
cut_plan n p = do
  current ← reads (λ d. ok d.lease)
  guard (same_lease? current (some p.lease)) takeover_inconsistent
  plan_applies p.action_cancellation
  publish_all (take n p.action_cancellation)
  pure tt

abbrev pub cut_from : ℕ → TakeoverPending → M (Unit {0})
cut_from n p = guard (pending_accepted p) pending_invalid >> cut_plan n p

unfoldable pub recover_cut : ℕ → M (Unit {0})
recover_cut n = do pending ← reads (λ d. ok d.pending); cases pending (pure tt) (cut_from n)

unfoldable pub tear_pending : TakeoverPending → Directory → Directory
unfolding pending_accepted write_pending
tear_pending p d = if pending_accepted p then d else (write_pending p d).1

module _ (token_digest : ℕ → ℕ) where
  unfoldable pub acquire_to_pending : Takeover → M (Unit {0})
  acquire_to_pending t = do
    recover_owner_takeover
    (lease, previous, plan) ←
        prepare_takeover token_digest t.objective t.now t.ttl t.pid t.process_start t.token
          t.summary
    write_takeover token_digest lease previous plan

  unfoldable pub acquire_to_lease : Takeover → M (Unit {0})
  acquire_to_lease t = do
    recover_owner_takeover
    (lease, previous, plan) ←
        prepare_takeover token_digest t.objective t.now t.ttl t.pid t.process_start t.token
          t.summary
    write_takeover token_digest lease previous plan
    write_lease lease

  unfoldable pub run : Command → Directory → Directory
  run read_lease d = (read_owner_lease d).1
  run (reserve i) d = (reserve_action i d).1
  run (start id g now) d = (start_action token_digest id g now d).1
  run (receive v grant) d = (record_action_receipt token_digest v grant d).1
  run (cancel summary now) d = (cancel_unstarted_actions summary now d).1
  run (acquire t) d =
      (acquire_owner_lease token_digest t.objective t.now t.ttl t.pid t.process_start t.token
        t.summary d).1
  run (renew g now ttl) d = (renew_owner_lease token_digest g now ttl d).1
  run (release g now) d = (release_owner_lease token_digest g now d).1
  run (crash_at_pending t) d = (acquire_to_pending t d).1
  run (crash_at_lease t) d = (acquire_to_lease t d).1
  run (crash_at_receipt n) d = (recover_cut n d).1
  run (crash_in_file f) d = tear f d
  run (crash_in_pending p) d = tear_pending p d

  unfoldable pub run_all : List Command → Directory → Directory
  run_all [] d = d
  run_all (c ∷ cs) d = run_all cs (run c d)

  module _ (base : Directory) where
    recover_cut-Grows : (n : ℕ) → Keeps (Extends base) (recover_cut n)
    unfolding recover_cut
    recover_cut-Grows n =
        search (keeps_rules, Growth.publish_all-Grows base, Growth.plan_applies-Grows base) depth 18

    acquire_to_pending-Grows : (t : Takeover) → Keeps (Extends base) (acquire_to_pending t)
    unfolding acquire_to_pending
    acquire_to_pending-Grows t =
        Growth.prepared-Grows base token_digest t.objective t.now t.ttl t.pid t.process_start
          t.token t.summary _
          λ lease previous plan d r.
            ((Growth.write_takeover-Ready base token_digest lease previous plan).at d r).0

    acquire_to_lease-Grows : (t : Takeover) → Keeps (Extends base) (acquire_to_lease t)
    unfolding acquire_to_lease
    acquire_to_lease-Grows t =
        Growth.prepared-Grows base token_digest t.objective t.now t.ttl t.pid t.process_start
          t.token t.summary _
          λ lease previous plan d r.
            bind_from (Extends base) _ _ d
              (Growth.write_takeover-Ready base token_digest lease previous plan) r (λ e x. x.0)
              (λ _ e x. Growth.written-Extends base token_digest lease e x)

    tear_new-Extends :
        {V : Type 0} (f : ActionFile) (o : Option V) (d : Directory)
        → Extends base d
        → Extends base (tear_new f o d)
    tear_new-Extends f none d x = record {
      fenced = x.fenced;
      intents = x.intents;
      starts = x.starts;
      receipts = x.receipts;
    }
    tear_new-Extends f (some _) d x = x

    tear-Extends : (f : ActionFile) (d : Directory) → Extends base d → Extends base (tear f d)
    unfolding tear
    tear-Extends (intent_file k) d x = tear_new-Extends (intent_file k) (lookup k d.intents) d x
    tear-Extends (start_file k) d x = tear_new-Extends (start_file k) (lookup k d.starts) d x
    tear-Extends (receipt_file k) d x = tear_new-Extends (receipt_file k) (lookup k d.receipts) d x

    tear_pending-Extends :
        (p : TakeoverPending) (d : Directory) → Extends base d → Extends base (tear_pending p d)
    unfolding tear_pending
    tear_pending-Extends p d x = elim (Bool-cases (pending_accepted p)) [
      | inl e ↦ rw e x
      | inr e ↦ rw e ((write_pending-Grows base p).at d x)
    ]

    run-Grows : (c : Command) (d : Directory) → Extends base d → Extends base (run c d)
    unfolding run
    run-Grows read_lease d x = (Growth.read_owner_lease-Grows base).at d x
    run-Grows (reserve i) d x = (Growth.reserve_action-Grows base i).at d x
    run-Grows (start id g now) d x = (Growth.start_action-Grows base token_digest id g now).at d x
    run-Grows (receive v grant) d x =
        (Growth.record_action_receipt-Grows base token_digest v grant).at d x
    run-Grows (cancel summary now) d x =
        (Growth.cancel_unstarted_actions-Grows base summary now).at d x
    run-Grows (acquire t) d x =
        (Growth.acquire_owner_lease-Grows base token_digest t.objective t.now t.ttl t.pid
            t.process_start t.token t.summary).at
          d x
    run-Grows (renew g now ttl) d x =
        (Growth.renew_owner_lease-Grows base token_digest g now ttl).at d x
    run-Grows (release g now) d x =
        (Growth.release_owner_lease-Grows base token_digest g now).at d x
    run-Grows (crash_at_pending t) d x = (acquire_to_pending-Grows t).at d x
    run-Grows (crash_at_lease t) d x = (acquire_to_lease-Grows t).at d x
    run-Grows (crash_at_receipt n) d x = (recover_cut-Grows n).at d x
    run-Grows (crash_in_file f) d x = tear-Extends f d x
    run-Grows (crash_in_pending p) d x = tear_pending-Extends p d x

    run_all-Grows :
        (cs : List Command) (d : Directory) → Extends base d → Extends base (run_all cs d)
    unfolding run_all
    run_all-Grows [] d x = x
    run_all-Grows (c ∷ cs) d x = run_all-Grows cs (run c d) (run-Grows c d x)

  -- Whatever calls are made, whatever they answer, and wherever a takeover, a recovery or the
  -- creation of a file crashes: every intent, start and receipt that stands in the
  -- directory stays as it is, and the generation of the owner lease never falls.
  pub run_all-Extends : (cs : List Command) (d : Directory) → Extends d (run_all cs d)
  run_all-Extends cs d = run_all-Grows d cs d (Extends-refl d)
