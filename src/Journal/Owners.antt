-- ===== src/Journal/Owners.antt =====
-- Takeovers of src/dyro/continuation/owner_lease.py and the starts that follow them.
use dyro_engineering_flow.Prelude.{
  ℕ, ◌<◌, ◌≤◌, ◌≡◌, sym, ap, ◌∙◌, subst, false, Option, none, some, List, arith, ◌&&◌, ltb,
}
use dyro_engineering_flow.Journal.Model.{
  ActionReceipt, ActionRecord, OwnerLease, OwnerLeaseGrant, active,
}
use dyro_engineering_flow.Journal.Store.{ok, Directory, M, pure, ◌>>=◌, write_lease}
use dyro_engineering_flow.Journal.Actions.{read_record}
use dyro_engineering_flow.Journal.Lease.{
  recover_owner_takeover, prepare_takeover, next_generation, previous_allows, write_takeover,
  acquire_owner_lease,
}
use dyro_engineering_flow.Journal.Operations.{start_action}
use dyro_engineering_flow.Journal.Reads.{prepare_takeover_reads, prepare_takeover_lem}
use dyro_engineering_flow.Journal.Growth.{recover_owner_takeover-Grows}
use dyro_engineering_flow.Journal.History.{Extends, Extends-refl, Extends-trans, generation}
use dyro_engineering_flow.Journal.Fencing.{bind_run, still_run, start_action_ok}
use dyro_engineering_flow.Journal.Runs.{Takeover, Command, acquire, run, run_all, run_all-Extends}

recovered : (d : Directory) → Extends d (recover_owner_takeover d).1
recovered d = (recover_owner_takeover-Grows d).at d (Extends-refl d)

-- A lease that nobody holds at `now`.
abbrev pub IsFree : Option OwnerLease → ℕ → Type 0
IsFree none now = Unit
IsFree (some l) now = (active l && ltb now l.expires_at) ≡ false

previous_allows-IsFree :
    (previous : Option OwnerLease) (objective now : ℕ)
    → previous_allows previous objective now ≡ ok tt
    → IsFree previous now
previous_allows-IsFree none objective now h = tt
previous_allows-IsFree (some l) objective now h = ground arith

generation-lt-next : (l : Option OwnerLease) → generation l < next_generation l
generation-lt-next none = omega arith
generation-lt-next (some l) = omega arith

module _ (token_digest : ℕ → ℕ) where
  -- What an answered takeover found and left.
  pub record Acquired (t : Takeover) (d : Directory) (grant : OwnerLeaseGrant) : Type 0 where
    pub free : IsFree (recover_owner_takeover d).1.lease t.now
    pub above : generation d.lease < grant.lease.generation
    pub fenced : grant.lease.generation ≤ generation (run token_digest (acquire t) d).lease

  -- The end of a takeover: from the pending file on.
  abbrev takeover_end :
      OwnerLease → Option OwnerLease → Option (List ActionReceipt) → ℕ → M OwnerLeaseGrant
  takeover_end lease previous plan token = write_takeover token_digest lease previous plan >>= λ _.
      write_lease lease >>= λ _.
      recover_owner_takeover >>= λ _. pure (record { lease = lease; owner_token = token })

  takeover_end_ok :
      (lease : OwnerLease) (previous : Option OwnerLease) (plan : Option (List ActionReceipt))
      (token : ℕ) (d : Directory) {grant : OwnerLeaseGrant}
      → (takeover_end lease previous plan token d).0 ≡ ok grant
      → (grant.lease ≡ lease)
        × (lease.generation ≤ generation (takeover_end lease previous plan token d).1.lease)
  unfolding write_lease pure
  takeover_end_ok lease previous plan token d {grant} h =
      let (_, _, s1) = bind_run (write_takeover token_digest lease previous plan) _ d h in
      let d1 = (write_takeover token_digest lease previous plan d).1 in
      let (_, _, s2) = bind_run (write_lease lease) _ d1 (subst (λ x. x.0 ≡ ok grant) s1 h) in
      let d2 = (write_lease lease d1).1 in
      let h2 = subst (λ x. x.0 ≡ ok grant) (s1 ∙ s2) h in
      let (_, _, s3) = bind_run recover_owner_takeover _ d2 h2 in
      let d3 = (recover_owner_takeover d2).1 in ending d3 (s1 ∙ s2 ∙ s3) (recovered d2).fenced
    where
      ending :
          (d3 : Directory)
          → takeover_end lease previous plan token d
            ≡ pure (record { lease = lease; owner_token = token }) d3
          → lease.generation ≤ generation d3.lease
          → (grant.lease ≡ lease)
            × (lease.generation ≤ generation (takeover_end lease previous plan token d).1.lease)
      ending d3 s x =
          let granted : grant ≡ record { lease = lease; owner_token = token } = cc in
          (ap (λ g. g.lease) granted, rw s x)

  acquire_owner_lease_ok :
      (t : Takeover) (d : Directory) {grant : OwnerLeaseGrant}
      → (acquire_owner_lease token_digest t.objective t.now t.ttl t.pid t.process_start t.token
          t.summary d).0
        ≡ ok grant
      → Acquired t d grant
  unfolding acquire_owner_lease run
  acquire_owner_lease_ok t d {grant} h =
      let (_, _, s1) = bind_run _ _ d h in
      let e = (recover_owner_takeover d).1 in
      let h1 = subst (λ x. x.0 ≡ ok grant) s1 h in
      let reads =
        prepare_takeover_reads token_digest t.objective t.now t.ttl t.pid t.process_start t.token
          t.summary e in
      let ((lease, previous, plan), prepared, s2) = still_run _ _ e reads h1 in
      ending lease previous plan prepared (s1 ∙ s2)
    where
      ending :
          (lease : OwnerLease) (previous : Option OwnerLease) (plan : Option (List ActionReceipt))
          → (prepare_takeover token_digest t.objective t.now t.ttl t.pid t.process_start t.token
              t.summary
              (recover_owner_takeover d).1).0
            ≡ ok (lease, previous, plan)
          → acquire_owner_lease token_digest t.objective t.now t.ttl t.pid t.process_start t.token
              t.summary d
            ≡ takeover_end lease previous plan t.token (recover_owner_takeover d).1
          → Acquired t d grant
      ending lease previous plan prepared s =
          let e = (recover_owner_takeover d).1 in
          let (is_new, _, allowed, _) =
            prepare_takeover_lem token_digest t.objective t.now t.ttl t.pid t.process_start t.token
              t.summary e prepared in
          let (same, fence) =
            takeover_end_ok lease previous plan t.token e (subst (λ x. x.0 ≡ ok grant) s h) in
          record {
            free = previous_allows-IsFree e.lease t.objective t.now allowed;
            above =
                rw (same, is_new) (omega (arith, generation-lt-next e.lease, (recovered d).fenced));
            fenced =
                subst (λ x. grant.lease.generation ≤ generation x.1.lease) (sym s) (rw same fence);
          }

  -- A stale grant or action: one whose generation lies below that of the grant answered to a
  -- takeover. Whatever calls and crashes follow the takeover, a start of an action answers only
  -- under a grant, and for an intent, of that generation or a later one; the takeover itself
  -- answered only where nobody held the lease, with a generation above the one before.
  pub acquire-fences :
      (t : Takeover) (d : Directory) (cs : List Command) (id : ℕ) (g : OwnerLeaseGrant) (now : ℕ)
      {grant : OwnerLeaseGrant} {answer : ActionRecord}
      → (acquire_owner_lease token_digest t.objective t.now t.ttl t.pid t.process_start t.token
          t.summary d).0
        ≡ ok grant
      → (start_action token_digest id g now
          (run_all token_digest cs (run token_digest (acquire t) d))).0
        ≡ ok answer
      → IsFree (recover_owner_takeover d).1.lease t.now
        × (generation d.lease < grant.lease.generation)
        × (grant.lease.generation ≤ g.lease.generation)
        × (r : ActionRecord) × (read_record id
              (recover_owner_takeover (run_all token_digest cs (run token_digest (acquire t) d))).1
            ≡ ok r)
        × (grant.lease.generation ≤ r.intent.owner_generation)
  acquire-fences t d cs id g now {grant} taken started =
      let first = acquire_owner_lease_ok t d taken in
      let d1 = run token_digest (acquire t) d in
      let d2 = run_all token_digest cs d1 in
      let s = start_action_ok token_digest id g now d2 started in
      let later = Extends-trans (run_all-Extends token_digest cs d1) (recovered d2) in
      let stands = ap generation s.stands in
      (
        first.free,
        first.above,
        omega (arith, first.fenced, later.fenced, stands, s.owned.generation),
        s.read,
        s.action,
        omega (arith, first.fenced, later.fenced, stands, s.generation),
      )
