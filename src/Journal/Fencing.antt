-- ===== src/Journal/Fencing.antt =====
-- What `start_action` of src/dyro/continuation/action_journal.py has found when it answers, and what
-- `assert_owner` of src/dyro/continuation/owner_lease.py has.
use dyro_engineering_flow.Prelude.{
  ℕ, ◌<◌, ◌≤◌, ◌≡◌, ap, ◌∙◌, subst, Bool, true, Option, none, some, arith, is_some, ◌==◌, ◌&&◌, not,
  ==_iff, and_true,
}
use dyro_engineering_flow.Journal.Model.{
  ActionReceipt, ActionRecord, OwnerLease, OwnerLeaseGrant, active,
}
use dyro_engineering_flow.Journal.Store.{
  JournalError, Result, ok, Directory, M, reads, ◌>>=◌, cases, guard,
}
use dyro_engineering_flow.Journal.Actions.{read_record}
use dyro_engineering_flow.Journal.Lease.{recover_owner_takeover, assert_owner}
use dyro_engineering_flow.Journal.Store.{intent_fenced}
use dyro_engineering_flow.Journal.Operations.{expected_start, write_start, started_as, start_action}
use dyro_engineering_flow.Journal.Reads.{current_lease_reads, current_lease_lem, assert_owner_reads}

-- A call that returned returned from its first part and from the rest.
pub bind_ok :
    {A B : Type 0} (m : M A) (f : A → M B) (d : Directory) {b : B}
    → ((m >>= f) d).0 ≡ ok b
    → (a : A) × ((m d).0 ≡ ok a) × ((f a (m d).1).0 ≡ ok b)
unfolding ◌>>=◌
bind_ok m f d h = ground arith

-- The same, with where the call ends.
pub bind_run :
    {A B : Type 0} (m : M A) (f : A → M B) (d : Directory) {b : B}
    → ((m >>= f) d).0 ≡ ok b
    → (a : A) × ((m d).0 ≡ ok a) × ((m >>= f) d ≡ f a (m d).1)
unfolding ◌>>=◌
bind_run m f d h = ground arith

pub guard_ok :
    {B : Type 0} (b : Bool) (e : JournalError) (f : Unit {0} → M B) (d : Directory) {r : B}
    → ((guard b e >>= f) d).0 ≡ ok r
    → (b ≡ true) × ((f tt d).0 ≡ ok r)
unfolding ◌>>=◌
guard_ok b e f d h = ground arith

pub reads_ok :
    {A B : Type 0} (g : Directory → Result A) (f : A → M B) (d : Directory) {b : B}
    → ((reads g >>= f) d).0 ≡ ok b
    → (a : A) × (g d ≡ ok a) × ((f a d).0 ≡ ok b)
unfolding ◌>>=◌
reads_ok g f d h = ground arith

-- A first part that changes nothing.
pub still_ok :
    {A B : Type 0} (m : M A) (f : A → M B) (d : Directory) {b : B}
    → (m d).1 ≡ d
    → ((m >>= f) d).0 ≡ ok b
    → (a : A) × ((m d).0 ≡ ok a) × ((f a d).0 ≡ ok b)
still_ok m f d {b} same h =
    let (a, e, k) = bind_ok m f d h in (a, e, subst (λ s. (f a s).0 ≡ ok b) same k)

pub still_run :
    {A B : Type 0} (m : M A) (f : A → M B) (d : Directory) {b : B}
    → (m d).1 ≡ d
    → ((m >>= f) d).0 ≡ ok b
    → (a : A) × ((m d).0 ≡ ok a) × ((m >>= f) d ≡ f a d)
still_run m f d {b} same h = let (a, e, k) = bind_run m f d h in (a, e, k ∙ ap (f a) same)

-- The lease under which a grant acts at an instant.
pub record Owns (token_digest : ℕ → ℕ) (lease : OwnerLease) (g : OwnerLeaseGrant) (now : ℕ)
    : Type 0 where
  pub is_active : active lease ≡ true
  pub unexpired : now < lease.expires_at
  pub not_before : lease.heartbeat_at ≤ now
  pub generation : g.lease.generation ≡ lease.generation
  pub token : token_digest g.owner_token ≡ lease.owner_token_sha256

module _ (token_digest : ℕ → ℕ) where
  pub assert_owner-Owns :
      (lease : OwnerLease) (g : OwnerLeaseGrant) (now : ℕ) (d : Directory) {x : Unit {0}}
      → (assert_owner token_digest lease g now d).0 ≡ ok x
      → Owns token_digest lease g now
  unfolding assert_owner ◌>>=◌
  assert_owner-Owns lease g now d h = record {
    is_active = ground arith;
    unexpired = ground arith;
    not_before = ground arith;
    generation = ground arith;
    token = ground arith;
  }

  started_ok :
      (id : ℕ) (g : OwnerLeaseGrant) (now : ℕ) (r : ActionRecord) (lease : OwnerLease)
      (d : Directory) {answer : ActionRecord}
      → ((guard
              (lease.objective_id == r.intent.objective_id
                && lease.generation == r.intent.owner_generation)
              intent_fenced
            >>= λ _.
                cases r.start
                  (write_start id (expected_start r.intent lease now) r)
                  (started_as (expected_start r.intent lease now) r))
          d).0
        ≡ ok answer
      → (lease.objective_id ≡ r.intent.objective_id)
        × (lease.generation ≡ r.intent.owner_generation)
  started_ok id g now r lease d h =
      let (b, _) = guard_ok _ _ _ d h in
      ((==_iff _ _).0 (and_true b).0, (==_iff _ _).0 (and_true b).1)

  -- What `start_action` found when it answered: an open action under the lease of the grant.
  pub record Started (id : ℕ) (g : OwnerLeaseGrant) (now : ℕ) (d : Directory) : Type 0 where
    pub lease : OwnerLease
    pub read : ActionRecord
    pub stands : d.lease ≡ some lease
    pub action : read_record id d ≡ ok read
    pub open_still : read.receipt ≡ none
    pub owned : Owns token_digest lease g now
    pub objective : lease.objective_id ≡ read.intent.objective_id
    pub generation : lease.generation ≡ read.intent.owner_generation

  pub start_action_ok :
      (id : ℕ) (g : OwnerLeaseGrant) (now : ℕ) (d : Directory) {answer : ActionRecord}
      → (start_action token_digest id g now d).0 ≡ ok answer
      → Started id g now (recover_owner_takeover d).1
  unfolding start_action
  start_action_ok id g now d h =
      let (_, _, h1) = bind_ok _ _ d h in
      let e = (recover_owner_takeover d).1 in
      let (r, read, h2) = reads_ok _ _ e h1 in
      let (b, h3) = guard_ok _ _ _ e h2 in
      let (lease, cur, h4) = still_ok _ _ e (current_lease_reads e) h3 in
      let (_, own, h5) = still_ok _ _ e (assert_owner_reads token_digest lease g now e) h4 in
      let (same, fenced) = started_ok id g now r lease e h5 in
      record {
        lease = lease;
        read = r;
        stands = current_lease_lem e cur;
        action = read;
        open_still = not_some r.receipt b;
        owned = assert_owner-Owns lease g now e own;
        objective = same;
        generation = fenced;
      }
    where
      not_some : (o : Option ActionReceipt) → not (is_some o) ≡ true → o ≡ none
      not_some o h = ground arith
