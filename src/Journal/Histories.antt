-- ===== src/Journal/Histories.antt =====
-- The files of an action after a history of calls and crashes of
-- src/dyro/continuation/action_journal.py and owner_lease.py.
use dyro_engineering_flow.Journal.Bound.{Belongs, Consistent-Belongs}
use dyro_engineering_flow.Prelude.{
  false, inl, inr, Bool-cases, Option, none, ℕ, zero, suc, ◌≡◌, true, some, List, [], ◌∷◌, arith,
  take, All,
}
use dyro_engineering_flow.Prelude.Dict.{lookup}
use dyro_engineering_flow.Journal.Model.{ActionIntent}
use dyro_engineering_flow.Journal.Store.{
  ActionFile, intent_file, start_file, receipt_file, tear, tear_new, Directory, ok,
}
use dyro_engineering_flow.Journal.Keeps.{
  Keeps, pure-Keeps, reads-Keeps, bind-Keeps, cases-Keeps, guard_at, keeps_rules,
}
use dyro_engineering_flow.Journal.Actions.{has_torn, read_record, plan_accepted}
use dyro_engineering_flow.Journal.Lease.{pending_accepted}
use dyro_engineering_flow.Journal.Store.{TakeoverPending}
use dyro_engineering_flow.Journal.Sound.{IsSound, read_record_sound}
use dyro_engineering_flow.Journal.Soundness.{IsCancelled}
use dyro_engineering_flow.Journal.Soundness
use dyro_engineering_flow.Journal.OwnedSoundness
use dyro_engineering_flow.Journal.Runs.{
  tear_pending, crash_in_file, crash_in_pending, Takeover, Command, read_lease, reserve, start,
  receive, cancel, acquire, renew, release, crash_at_pending, crash_at_lease, crash_at_receipt,
  cut_plan, cut_from, recover_cut, acquire_to_pending, acquire_to_lease, run, run_all,
  run_all-Extends,
}

All-take : {A : Type 0} (P : A → Type 0) (n : ℕ) (xs : List A) → All P xs → All P (take n xs)
All-take P zero xs h = tt
All-take P (suc n) [] h = tt
All-take P (suc n) (x ∷ xs) (h, hs) = (h, All-take P n xs hs)

pending_accepted-plan :
    (p : TakeoverPending) → pending_accepted p ≡ true → plan_accepted p.action_cancellation ≡ true
unfolding pending_accepted
pending_accepted-plan p h = ground arith

cut_from-IsSound : (n : ℕ) (p : TakeoverPending) → Keeps IsSound (cut_from n p)
cut_from-IsSound n p = record {
  at = λ d s. guard_at IsSound d (pending_accepted p) _ _ s λ ok.
      (rest (
          All-take IsCancelled n p.action_cancellation
            (Soundness.plan_accepted-IsCancelled _ (pending_accepted-plan p ok)))).at
        d s;
}
  where
    rest : All IsCancelled (take n p.action_cancellation) → Keeps IsSound (cut_plan n p)
    rest h = bind-Keeps _ _ (reads-Keeps _) λ current. bind-Keeps _ _ (search keeps_rules) λ _.
        bind-Keeps _ _ (Soundness.plan_applies-IsSound p.action_cancellation)
          λ _. bind-Keeps _ _ (Soundness.publish_all-IsSound _ h) (λ _. pure-Keeps _)

recover_cut-IsSound : (n : ℕ) → Keeps IsSound (recover_cut n)
unfolding recover_cut
recover_cut-IsSound n =
    bind-Keeps _ _ (reads-Keeps _)
      λ pending. cases-Keeps pending _ _ (pure-Keeps _) (λ p _. cut_from-IsSound n p)

tear_new-IsSound :
    {V : Type 0} (f : ActionFile) (o : Option V) (d : Directory)
    → IsSound d
    → IsSound (tear_new f o d)
tear_new-IsSound f none d s = record {
  bound = s.bound;
  start_known = s.start_known;
  receipt_known = s.receipt_known;
}
tear_new-IsSound f (some _) d s = s

tear-IsSound : (f : ActionFile) (d : Directory) → IsSound d → IsSound (tear f d)
unfolding tear
tear-IsSound (intent_file k) d s = tear_new-IsSound (intent_file k) (lookup k d.intents) d s
tear-IsSound (start_file k) d s = tear_new-IsSound (start_file k) (lookup k d.starts) d s
tear-IsSound (receipt_file k) d s = tear_new-IsSound (receipt_file k) (lookup k d.receipts) d s

tear_pending-IsSound :
    (p : TakeoverPending) (d : Directory) → IsSound d → IsSound (tear_pending p d)
unfolding tear_pending
tear_pending-IsSound p d s = elim (Bool-cases (pending_accepted p)) [
  | inl e ↦ rw e s
  | inr e ↦ rw e ((Soundness.write_pending-IsSound p).at d s)
]

module _ (token_digest : ℕ → ℕ) where
  acquire_to_pending-IsSound : (t : Takeover) → Keeps IsSound (acquire_to_pending token_digest t)
  unfolding acquire_to_pending
  acquire_to_pending-IsSound t = bind-Keeps _ _ Soundness.recover_owner_takeover-IsSound λ _.
      bind-Keeps _ _
        (OwnedSoundness.prepare_takeover-IsSound token_digest t.objective t.now t.ttl t.pid
          t.process_start t.token t.summary)
        λ (lease, previous, plan).
          OwnedSoundness.write_takeover-IsSound token_digest lease previous plan

  acquire_to_lease-IsSound : (t : Takeover) → Keeps IsSound (acquire_to_lease token_digest t)
  unfolding acquire_to_lease
  acquire_to_lease-IsSound t = bind-Keeps _ _ Soundness.recover_owner_takeover-IsSound λ _.
      bind-Keeps _ _
        (OwnedSoundness.prepare_takeover-IsSound token_digest t.objective t.now t.ttl t.pid
          t.process_start t.token t.summary)
        λ (lease, previous, plan).
          bind-Keeps _ _ (OwnedSoundness.write_takeover-IsSound token_digest lease previous plan)
            (λ _. Soundness.write_lease-IsSound lease)

  run-IsSound : (c : Command) (d : Directory) → IsSound d → IsSound (run token_digest c d)
  unfolding run
  run-IsSound read_lease d x = Soundness.read_owner_lease-IsSound.at d x
  run-IsSound (reserve i) d x = (Soundness.reserve_action-IsSound i).at d x
  run-IsSound (start id g now) d x =
      (OwnedSoundness.start_action-IsSound token_digest id g now).at d x
  run-IsSound (receive v grant) d x =
      (OwnedSoundness.record_action_receipt-IsSound token_digest v grant).at d x
  run-IsSound (cancel summary now) d x =
      (Soundness.cancel_unstarted_actions-IsSound summary now).at d x
  run-IsSound (acquire t) d x =
      (OwnedSoundness.acquire_owner_lease-IsSound token_digest t.objective t.now t.ttl t.pid
          t.process_start t.token t.summary).at
        d x
  run-IsSound (renew g now ttl) d x =
      (OwnedSoundness.renew_owner_lease-IsSound token_digest g now ttl).at d x
  run-IsSound (release g now) d x =
      (OwnedSoundness.release_owner_lease-IsSound token_digest g now).at d x
  run-IsSound (crash_at_pending t) d x = (acquire_to_pending-IsSound t).at d x
  run-IsSound (crash_at_lease t) d x = (acquire_to_lease-IsSound t).at d x
  run-IsSound (crash_at_receipt n) d x = (recover_cut-IsSound n).at d x
  run-IsSound (crash_in_file f) d x = tear-IsSound f d x
  run-IsSound (crash_in_pending p) d x = tear_pending-IsSound p d x

  pub run_all-IsSound :
      (cs : List Command) (d : Directory) → IsSound d → IsSound (run_all token_digest cs d)
  unfolding run_all
  run_all-IsSound [] d x = x
  run_all-IsSound (c ∷ cs) d x = run_all-IsSound cs (run token_digest c d) (run-IsSound c d x)

  -- Starting from a directory whose files belong together, an action that has an intent stays
  -- readable, with that same intent, after any calls and crashes, unless a crash came between the
  -- creation and the writing of a file of this action: its start and its receipt have the name,
  -- the key and the owner generation of the intent, and where there is no start the receipt, if any, is a cancellation.
  pub run_all-readable :
      (cs : List Command) (d : Directory) (k : ℕ) {i : ActionIntent}
      → IsSound d
      → lookup k d.intents ≡ some i
      → has_torn k (run_all token_digest cs d) ≡ false
      → (read_record k (run_all token_digest cs d)
          ≡ ok (record {
            intent = i;
            start = lookup k (run_all token_digest cs d).starts;
            receipt = lookup k (run_all token_digest cs d).receipts;
          }))
        × Belongs k i
            (lookup k (run_all token_digest cs d).starts)
            (lookup k (run_all token_digest cs d).receipts)
  run_all-readable cs d k {i} s known whole =
      let after = run_all-IsSound cs d s in
      let kept = (run_all-Extends token_digest cs d).intents k i known in
      (read_record_sound k _ after kept whole, Consistent-Belongs k i _ _ (after.bound k i kept))
