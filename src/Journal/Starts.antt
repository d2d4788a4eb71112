-- ===== src/Journal/Starts.antt =====
-- `start_action` of src/dyro/continuation/action_journal.py under a valid grant, once and again.
use dyro_engineering_flow.Prelude.{
  false, ℕ, ◌≡◌, refl, ◌∙◌, Bool, true, Option, none, some, arith, ==_refl, ◌==◌, ◌&&◌,
}
use dyro_engineering_flow.Prelude.Dict.{lookup, create, lookup-create_self}
use dyro_engineering_flow.Journal.Model.{
  ActionIntent, ActionStart, ActionRecord, OwnerLease, OwnerLeaseGrant,
}
use dyro_engineering_flow.Journal.Store.{
  is_torn, start_file, JournalError, already_terminal, intent_fenced, Result, ok, Directory, M,
  pure, reads, ◌>>=◌, cases, guard, create_start,
}
use dyro_engineering_flow.Journal.Actions.{has_torn, start_bound, read_record}
use dyro_engineering_flow.Journal.Lease.{recover_owner_takeover, assert_owner, current_lease}
use dyro_engineering_flow.Journal.Operations.{expected_start, write_start, started_as, start_action}
use dyro_engineering_flow.Journal.Sound.{start_whole, IsSound, read_record_sound, start-IsSound}
use dyro_engineering_flow.Journal.Fencing.{Owns}

-- How a call goes on where a part of it is known.
pub bind_known :
    {A B : Type 0} (m : M A) (f : A → M B) (d e : Directory) (a : A)
    → m d ≡ (ok a, e)
    → (m >>= f) d ≡ f a e
unfolding ◌>>=◌
bind_known m f d e a h = rw h refl

reads_known :
    {A B : Type 0} (g : Directory → Result A) (f : A → M B) (d : Directory) (a : A)
    → g d ≡ ok a
    → (reads g >>= f) d ≡ f a d
unfolding ◌>>=◌
reads_known g f d a h = rw h refl

guard_known :
    {B : Type 0} (b : Bool) (e : JournalError) (f : Unit {0} → M B) (d : Directory)
    → b ≡ true
    → (guard b e >>= f) d ≡ f tt d
unfolding ◌>>=◌
guard_known b e f d h = rw h refl

pub recover_nothing : (d : Directory) → d.pending ≡ none → recover_owner_takeover d ≡ (ok tt, d)
unfolding recover_owner_takeover ◌>>=◌ cases
recover_nothing d h = rw h refl

pub current_known :
    (d : Directory) (l : OwnerLease) → d.lease ≡ some l → current_lease d ≡ (ok l, d)
unfolding ◌>>=◌ cases
current_known d l h = rw h refl

-- The directory and the grant let `id` be started at `now`.
pub record MayStart (token_digest : ℕ → ℕ) (id : ℕ) (g : OwnerLeaseGrant) (now : ℕ) (d : Directory)
    : Type 0 where
  pub settled : d.pending ≡ none
  pub lease : OwnerLease
  pub stands : d.lease ≡ some lease
  pub owned : Owns token_digest lease g now
  pub same_digest : g.lease.owner_token_sha256 ≡ lease.owner_token_sha256
  pub intent : ActionIntent
  pub known : lookup id d.intents ≡ some intent
  pub open_still : lookup id d.receipts ≡ none
  pub whole : has_torn id d ≡ false
  pub objective : lease.objective_id ≡ intent.objective_id
  pub generation : lease.generation ≡ intent.owner_generation

abbrev pub started_record : ActionIntent → OwnerLease → ℕ → ActionRecord
started_record i lease now = record {
  intent = i;
  start = some (expected_start i lease now);
  receipt = none;
}

abbrev pub with_start : ℕ → ActionIntent → OwnerLease → ℕ → Directory → Directory
with_start id i lease now d = record d { starts = create id (expected_start i lease now) d.starts }

module _ (token_digest : ℕ → ℕ) where
  pub assert_owner_known :
      (lease : OwnerLease) (g : OwnerLeaseGrant) (now : ℕ) (d : Directory)
      → Owns token_digest lease g now
      → g.lease.owner_token_sha256 ≡ lease.owner_token_sha256
      → assert_owner token_digest lease g now d ≡ (ok tt, d)
  unfolding assert_owner ◌>>=◌
  assert_owner_known lease g now d o h =
      let a = o.is_active in
      let b = o.unexpired in
      let c = o.not_before in let e = o.generation in let f = o.token in ground arith

  -- What `start_action` does after its checks.
  start_action_checked :
      (id : ℕ) (g : OwnerLeaseGrant) (now : ℕ) (d : Directory) (s : Option ActionStart)
      (m : MayStart token_digest id g now d)
      → IsSound d
      → lookup id d.starts ≡ s
      → start_action token_digest id g now d
        ≡ cases s
            (write_start id
              (expected_start m.intent m.lease now)
              (record { intent = m.intent; start = s; receipt = none }))
            (started_as
              (expected_start m.intent m.lease now)
              (record { intent = m.intent; start = s; receipt = none }))
            d
  unfolding start_action
  start_action_checked id g now d s m sound start =
      let r : ActionRecord = record { intent = m.intent; start = s; receipt = none } in
      bind_known recover_owner_takeover _ d d tt (recover_nothing d m.settled)
      ∙ reads_known (read_record id) _ d r
          (read_record_sound id d sound m.known m.whole ∙ rw (start, m.open_still) refl)
      ∙ guard_known true already_terminal _ d refl
      ∙ bind_known current_lease _ d d m.lease (current_known d m.lease m.stands)
      ∙ bind_known (assert_owner token_digest m.lease g now) _ d d tt
          (assert_owner_known m.lease g now d m.owned m.same_digest)
      ∙ guard_known _ intent_fenced _ d (fenced m.lease m.intent m.objective m.generation)
    where
      fenced :
          (l : OwnerLease) (i : ActionIntent)
          → l.objective_id ≡ i.objective_id
          → l.generation ≡ i.owner_generation
          → (l.objective_id == i.objective_id && l.generation == i.owner_generation) ≡ true
      fenced l i a b = ground arith

  write_start_fresh :
      (id : ℕ) (v : ActionStart) (r : ActionRecord) (d : Directory)
      → lookup id d.starts ≡ none
      → is_torn (start_file id) d ≡ false
      → write_start id v r d ≡ (
        ok (record { intent = r.intent; start = some v; receipt = none }),
        record d { starts = create id v d.starts },
      )
  unfolding ◌>>=◌ create_start
  write_start_fresh id v r d h t = rw (create_start, h, t) refl

  started_again :
      (i : ActionIntent) (lease : OwnerLease) (now later : ℕ) (r : ActionRecord) (d : Directory)
      → started_as (expected_start i lease later) r (expected_start i lease now) d ≡ (ok r, d)
  unfolding pure
  started_again i lease now later r d =
      rw
        (
          ==_refl i.action_id,
          ==_refl i.idempotency_key,
          ==_refl i.owner_generation,
          ==_refl lease.owner_token_sha256,
        )
        refl

  start_bound_expected :
      (i : ActionIntent) (lease : OwnerLease) (now : ℕ)
      → start_bound i (some (expected_start i lease now)) ≡ true
  start_bound_expected i lease now = ground arith

  -- In a directory whose files belong together, without a takeover that waits, an action that has
  -- neither start nor receipt and no torn file is started under a valid grant of its own generation: the call
  -- answers with the start, and the start is the one file that is new. A second call, at any
  -- instant at which the grant is valid, answers the same record and writes nothing.
  pub start_action_once :
      (id : ℕ) (g : OwnerLeaseGrant) (now later : ℕ) (d : Directory)
      (m : MayStart token_digest id g now d)
      → IsSound d
      → lookup id d.starts ≡ none
      → Owns token_digest m.lease g later
      → (start_action token_digest id g now d
          ≡ (ok (started_record m.intent m.lease now), with_start id m.intent m.lease now d))
        × (start_action token_digest id g later (with_start id m.intent m.lease now d)
            ≡ (ok (started_record m.intent m.lease now), with_start id m.intent m.lease now d))
  unfolding cases
  start_action_once id g now later d m sound fresh owned =
      let v = expected_start m.intent m.lease now in
      let e = with_start id m.intent m.lease now d in
      let self = lookup-create_self id v d.starts fresh in
      let again : MayStart token_digest id g later e = record {
        settled = m.settled;
        lease = m.lease;
        stands = m.stands;
        owned = owned;
        same_digest = m.same_digest;
        intent = m.intent;
        known = m.known;
        open_still = m.open_still;
        whole = m.whole;
        objective = m.objective;
        generation = m.generation;
      } in
      let sound' =
        start-IsSound d sound id v m.known (start_bound_expected m.intent m.lease now) fresh in
      (
        start_action_checked id g now d none m sound fresh
            ∙ write_start_fresh id v (record { intent = m.intent; start = none; receipt = none }) d
                fresh (start_whole id d m.whole),
        start_action_checked id g later e (some v) again sound' self
            ∙ started_again m.intent m.lease now later (started_record m.intent m.lease now) e,
      )
