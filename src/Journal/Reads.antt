-- ===== src/Journal/Reads.antt =====
-- What owner_lease.py in src/dyro/continuation reads before it writes: the current lease, its owner
-- and the takeover to prepare.
use dyro_engineering_flow.Prelude.{ℕ, ◌≤◌, ◌≡◌, refl, Option, none, some, List, arith}
use dyro_engineering_flow.Journal.Model.{ActionReceipt, OwnerLease, OwnerLeaseGrant}
use dyro_engineering_flow.Journal.Store.{
  ok, TakeoverPending, Directory, ◌>>=◌, cases, write_pending, pending_written,
}
use dyro_engineering_flow.Journal.Actions.{prepare_action_cancellation}
use dyro_engineering_flow.Journal.Lease.{
  previous_allows, new_lease, next_generation, prepare_takeover, assert_owner, current_lease,
}
use dyro_engineering_flow.Journal.History.{generation}

pub prepare_takeover_reads :
    (token_digest : ℕ → ℕ) (objective now ttl pid : ℕ) (process_start : List ℕ) (token : ℕ)
    (summary : List ℕ) (d : Directory)
    → (prepare_takeover token_digest objective now ttl pid process_start token summary d).1 ≡ d
unfolding prepare_takeover ◌>>=◌
prepare_takeover_reads token_digest objective now ttl pid process_start token summary d =
    ground arith

pub prepare_takeover_lem :
    (token_digest : ℕ → ℕ) (objective now ttl pid : ℕ) (process_start : List ℕ) (token : ℕ)
    (summary : List ℕ) (d : Directory) {lease : OwnerLease} {previous : Option OwnerLease}
    {plan : Option (List ActionReceipt)}
    → (prepare_takeover token_digest objective now ttl pid process_start token summary d).0
      ≡ ok (lease, previous, plan)
    → (lease ≡ new_lease token_digest d.lease objective now ttl pid process_start token)
      × (previous ≡ d.lease)
      × (previous_allows d.lease objective now ≡ ok tt)
      × (prepare_action_cancellation summary now d ≡ ok plan)
unfolding prepare_takeover ◌>>=◌
prepare_takeover_lem token_digest objective now ttl pid process_start token summary d h =
    ground arith

pub generation-le-next : (l : Option OwnerLease) → generation l ≤ next_generation l
generation-le-next none = omega arith
generation-le-next (some l) = omega arith

lease-pending_written :
    (old : Option TakeoverPending) (p : TakeoverPending) (d : Directory)
    → (pending_written old p d).1.lease ≡ d.lease
lease-pending_written none p d = refl
lease-pending_written (some _) p d = refl

pub lease-write_pending :
    (p : TakeoverPending) (d : Directory) → (write_pending p d).1.lease ≡ d.lease
unfolding write_pending
lease-write_pending p d = lease-pending_written d.pending p d

pub current_lease_reads : (d : Directory) → (current_lease d).1 ≡ d
unfolding ◌>>=◌ cases
current_lease_reads d = ground arith

pub current_lease_lem :
    (d : Directory) {l : OwnerLease} → (current_lease d).0 ≡ ok l → d.lease ≡ some l
unfolding ◌>>=◌ cases
current_lease_lem d h = ground arith

pub assert_owner_reads :
    (token_digest : ℕ → ℕ) (l : OwnerLease) (g : OwnerLeaseGrant) (now : ℕ) (d : Directory)
    → (assert_owner token_digest l g now d).1 ≡ d
unfolding assert_owner ◌>>=◌
assert_owner_reads token_digest l g now d = ground arith
