-- ===== src/Journal/Verified.antt =====
-- The round trip of `acquire_owner_lease` and `verify_owner_lease` of
-- src/dyro/continuation/owner_lease.py.
use dyro_engineering_flow.Prelude.{
  ℕ, ◌+◌, ◌≤◌, ◌<◌, ◌≡◌, refl, sym, ap, subst, ◌∙◌, Option, none, some, List,
}
use dyro_engineering_flow.Journal.Model.{OwnerLease, OwnerLeaseGrant}
use dyro_engineering_flow.Journal.Store.{Result, ok, Directory, M, pure, ◌>>=◌, write_lease}
use dyro_engineering_flow.Journal.Lease.{
  new_lease, write_takeover, recover_owner_takeover, acquire_owner_lease, assert_owner,
  current_lease, verify_owner_lease,
}
use dyro_engineering_flow.Journal.Reads.{prepare_takeover_reads, prepare_takeover_lem}
use dyro_engineering_flow.Journal.Fencing.{Owns, bind_run, still_run}
use dyro_engineering_flow.Journal.Starts.{
  bind_known, recover_nothing, current_known, assert_owner_known,
}
use dyro_engineering_flow.Journal.Recovery.{Settled, recover_owner_takeover-Settled}

-- The lease of the grant stands, and no takeover waits.
record Holds (g : OwnerLeaseGrant) (e : Directory) : Type 0 where
  settled : e.pending ≡ none
  stands : e.lease ≡ some g.lease

recovered_ok :
    (d : Directory)
    → (recover_owner_takeover d).0 ≡ ok tt
    → ((recover_owner_takeover d).1.pending ≡ none) × ((recover_owner_takeover d).1.lease ≡ d.lease)
recovered_ok d h =
    let (l, p, _) =
      subst (λ r. Settled d r (recover_owner_takeover d).1) h (recover_owner_takeover-Settled d) in
    (p, l)

-- The end of a takeover: from the lease file on.
abbrev granted : OwnerLease → ℕ → M OwnerLeaseGrant
granted lease token = write_lease lease >>= λ _.
    recover_owner_takeover >>= λ _. pure (record { lease = lease; owner_token = token })

granted_ok :
    (lease : OwnerLease) (token : ℕ) (d : Directory) {g : OwnerLeaseGrant}
    → (granted lease token d).0 ≡ ok g
    → (g ≡ record { lease = lease; owner_token = token }) × Holds g (granted lease token d).1
unfolding write_lease pure
granted_ok lease token d {g} h =
    let (_, _, s1) = bind_run (write_lease lease) _ d h in
    let d1 : Directory = record d { lease = some lease } in
    let h1 = subst (λ x. x.0 ≡ ok g) s1 h in
    let (_, r, s2) = bind_run recover_owner_takeover _ d1 h1 in
    let (p, l) = recovered_ok d1 r in
    let s = s1 ∙ s2 in
    let known : g ≡ record { lease = lease; owner_token = token } = cc in
    (known, record { settled = rw s p; stands = rw (s, known) l })

pure_known : {A : Type 0} (a : A) (d : Directory) → pure a d ≡ (ok a, d)
unfolding pure
pure_known a d = refl

module _ (token_digest : ℕ → ℕ) where
  verify_known :
      (g : OwnerLeaseGrant) (later : ℕ) (e : Directory)
      → Holds g e
      → Owns token_digest g.lease g later
      → verify_owner_lease token_digest g later e ≡ (ok g.lease, e)
  unfolding verify_owner_lease
  verify_known g later e s o =
      bind_known recover_owner_takeover _ e e tt (recover_nothing e s.settled)
      ∙ bind_known current_lease _ e e g.lease (current_known e g.lease s.stands)
      ∙ bind_known (assert_owner token_digest g.lease g later) _ e e tt
          (assert_owner_known token_digest g.lease g later e o refl)
      ∙ pure_known g.lease e

  module _ (objective now ttl pid : ℕ) (process_start : List ℕ) (token : ℕ) (summary : List ℕ)
      (d : Directory) where
    abbrev acquired : Result OwnerLeaseGrant × Directory
    acquired = acquire_owner_lease token_digest objective now ttl pid process_start token summary d

    -- The lease before the takeover, after the recovery.
    abbrev before : Option OwnerLease
    before = (recover_owner_takeover d).1.lease

    acquire-Holds :
        {g : OwnerLeaseGrant}
        → acquired.0 ≡ ok g
        → (g ≡ record {
          lease = new_lease token_digest before objective now ttl pid process_start token;
          owner_token = token;
        })
          × Holds g acquired.1
    unfolding acquire_owner_lease
    acquire-Holds {g} h =
        let (_, _, s1) = bind_run recover_owner_takeover _ d h in
        let e = (recover_owner_takeover d).1 in
        let h1 = subst (λ x. x.0 ≡ ok g) s1 h in
        let reads =
          prepare_takeover_reads token_digest objective now ttl pid process_start token summary e in
        let ((lease, previous, plan), prepared, s2) = still_run _ _ e reads h1 in
        let h2 = subst (λ x. x.0 ≡ ok g) s2 h1 in
        let (_, _, s3) = bind_run (write_takeover token_digest lease previous plan) _ e h2 in
        let h3 = subst (λ x. x.0 ≡ ok g) s3 h2 in
        let (same, holds) = granted_ok lease token _ h3 in
        let (is_new, _, _, _) =
          prepare_takeover_lem token_digest objective now ttl pid process_start token summary e
            prepared in
        (
          same ∙ ap (λ l. record { lease = l; owner_token = token }) is_new,
          subst (Holds g) (sym (ap (λ x. x.1) (s1 ∙ s2 ∙ s3))) holds,
        )

    -- The grant that an answered takeover returns is verified with its lease, and nothing is
    -- written, at every instant from the takeover to the end of its time.
    pub acquire-verify :
        {g : OwnerLeaseGrant} (later : ℕ)
        → acquired.0 ≡ ok g
        → now ≤ later
        → later < now + ttl
        → verify_owner_lease token_digest g later acquired.1 ≡ (ok g.lease, acquired.1)
    acquire-verify {g} later h from until =
        let (same, holds) = acquire-Holds h in
        verify_known g later acquired.1 holds (
          subst (λ x. Owns token_digest x.lease x later) (sym same)
            (record {
              is_active = refl;
              unexpired = until;
              not_before = from;
              generation = refl;
              token = refl;
            }))
