-- ===== src/Journal/Lease.antt =====
-- src/dyro/continuation/owner_lease.py: the owner lease of the scheduler and its takeover, which a
-- crash may cut short between two file writes or inside the creation of a file. The digest of a
-- token (SHA-256) is a parameter.
use dyro_engineering_flow.Prelude.{
  length, ℕ, ◌+◌, Bool, not, ◌&&◌, Option, none, some, List, ltb, leb, ◌==◌, if◌then◌else◌,
}
use dyro_engineering_flow.Journal.Model.{
  ActionReceipt, OwnerLease, active, lease_accepted, OwnerLeaseGrant,
}
use dyro_engineering_flow.Journal.Store.{
  lease_missing, lease_inactive, clock_rollback, generation_fenced, token_mismatch, lease_held,
  objective_mismatch, bad_argument, pending_invalid, takeover_inconsistent, Result, ok, err,
  TakeoverPending, M, pure, raise, reads, or_raise, ◌>>=◌, ◌>>◌, cases, guard, write_lease,
  write_pending, remove_pending, same_lease?,
}
use dyro_engineering_flow.Journal.Actions.{
  plan_accepted, prepare_action_cancellation, apply_action_cancellation,
}

-- The code points of "owner lease 已接管；未 start Action 已取消", the summary of the receipts
-- that a takeover writes, stand in a parameter: only `safe_summary` reads them.

-- `_read_takeover_pending`: the new lease follows the one before.
unfoldable pub pending_accepted : TakeoverPending → Bool
unfolding lease_accepted plan_accepted
pending_accepted p =
    lease_accepted p.lease
    && elim p.previous_lease [
      | none ↦ p.lease.generation == 1
      | some previous ↦
          lease_accepted previous
          && previous.objective_id == p.lease.objective_id
          && previous.generation + 1 == p.lease.generation
    ]
    && plan_accepted p.action_cancellation

abbrev pub recover_from : TakeoverPending → M (Unit {0})
recover_from p = do
  guard (pending_accepted p) pending_invalid
  current ← reads (λ d. ok d.lease)
  if same_lease? current (some p.lease)
      then (apply_action_cancellation p.action_cancellation >> remove_pending)
      else (if same_lease? current p.previous_lease
          then remove_pending
          else raise takeover_inconsistent)

-- `recover_owner_takeover`
unfoldable pub recover_owner_takeover : M (Unit {0})
recover_owner_takeover = do
  pending ← reads (λ d. ok d.pending)
  cases pending (pure tt) recover_from

-- `read_owner_lease`
unfoldable pub read_owner_lease : M (Option OwnerLease)
read_owner_lease = recover_owner_takeover >> reads (λ d. ok d.lease)

-- The lease before the takeover may be taken over.
abbrev pub previous_allows : Option OwnerLease → ℕ → ℕ → Result (Unit {0})
previous_allows none objective now = ok tt
previous_allows (some previous) objective now =
    if previous.objective_id == objective
    then (if ltb now previous.heartbeat_at
        then err clock_rollback
        else if active previous && ltb now previous.expires_at
        then err lease_held
        else ok tt)
    else err objective_mismatch

abbrev pub next_generation : Option OwnerLease → ℕ
next_generation none = 1
next_generation (some previous) = previous.generation + 1

-- `read_optional_lease`, where no lease is an error.
abbrev pub current_lease : M OwnerLease
current_lease = do current ← reads (λ d. ok d.lease); or_raise current lease_missing

module _ (token_digest : ℕ → ℕ) where
  abbrev pub new_lease :
      Option OwnerLease
      → (objective now ttl pid : ℕ) (process_start : List ℕ) (token : ℕ) → OwnerLease
  new_lease previous objective now ttl pid process_start token = record {
    objective_id = objective;
    generation = next_generation previous;
    owner_token_sha256 = token_digest token;
    pid = pid;
    process_start = process_start;
    issued_at = now;
    heartbeat_at = now;
    expires_at = now + ttl;
    released_at = none;
  }

  -- The checks of `acquire_owner_lease`, and what it is about to write.
  unfoldable pub prepare_takeover :
      (objective now ttl pid : ℕ) (process_start : List ℕ) (token : ℕ) (summary : List ℕ)
      → M (OwnerLease × Option OwnerLease × Option (List ActionReceipt))
  prepare_takeover objective now ttl pid process_start token summary = do
    guard
        (not (objective == 0)
          && leb 1 ttl
          && leb ttl 3600
          && ltb 0 pid
          && ltb 0 (length process_start)
          && leb (length process_start) 256)
        bad_argument
    previous ← reads (λ d. ok d.lease)
    reads (λ _. previous_allows previous objective now)
    let lease = new_lease previous objective now ttl pid process_start token
    cancellation ← reads (prepare_action_cancellation summary now)
    pure (lease, previous, cancellation)

  abbrev pub write_takeover :
      OwnerLease → Option OwnerLease → Option (List ActionReceipt) → M (Unit {0})
  write_takeover lease previous cancellation = cases cancellation (pure tt) λ receipts.
      write_pending
        (record { lease = lease; previous_lease = previous; action_cancellation = receipts })

  -- `acquire_owner_lease`, for the token that it draws or is given.
  unfoldable pub acquire_owner_lease :
      (objective now ttl pid : ℕ) (process_start : List ℕ) (token : ℕ) (summary : List ℕ)
      → M OwnerLeaseGrant
  acquire_owner_lease objective now ttl pid process_start token summary = do
    recover_owner_takeover
    (lease, previous, cancellation) ←
        prepare_takeover objective now ttl pid process_start token summary
    write_takeover lease previous cancellation
    write_lease lease
    recover_owner_takeover
    pure (record { lease = lease; owner_token = token })

  -- `assert_owner`
  unfoldable pub assert_owner : OwnerLease → OwnerLeaseGrant → ℕ → M (Unit {0})
  assert_owner lease grant now = do
    guard (active lease && ltb now lease.expires_at) lease_inactive
    guard (leb lease.heartbeat_at now) clock_rollback
    guard
        (grant.lease.generation == lease.generation
          && grant.lease.owner_token_sha256 == lease.owner_token_sha256)
        generation_fenced
    guard (token_digest grant.owner_token == lease.owner_token_sha256) token_mismatch

  -- `verify_owner_lease`
  unfoldable pub verify_owner_lease : OwnerLeaseGrant → ℕ → M OwnerLease
  verify_owner_lease grant now = do
    recover_owner_takeover
    lease ← current_lease
    assert_owner lease grant now
    pure lease

  -- `renew_owner_lease`
  unfoldable pub renew_owner_lease : OwnerLeaseGrant → ℕ → ℕ → M OwnerLeaseGrant
  renew_owner_lease grant now ttl = do
    recover_owner_takeover
    guard (leb 1 ttl && leb ttl 3600) bad_argument
    lease ← current_lease
    assert_owner lease grant now
    let renewed = record lease { heartbeat_at = now; expires_at = now + ttl; released_at = none }
    write_lease renewed
    pure (record { lease = renewed; owner_token = grant.owner_token })

  -- `release_owner_lease`
  unfoldable pub release_owner_lease : OwnerLeaseGrant → ℕ → M OwnerLease
  release_owner_lease grant now = do
    recover_owner_takeover
    lease ← current_lease
    assert_owner lease grant now
    let released = record lease { heartbeat_at = now; released_at = some now }
    write_lease released
    pure released
