-- ===== src/Journal/Recovery.antt =====
-- What `recover_owner_takeover` of src/dyro/continuation/owner_lease.py leaves, whether it answers or
-- raises.
use dyro_engineering_flow.Prelude.{ℕ, ◌≡◌, refl, Option, none, some, List, [], ◌∷◌, arith}
use dyro_engineering_flow.Journal.Model.{ActionReceipt}
use dyro_engineering_flow.Journal.Store.{
  JournalError, Result, ok, err, TakeoverPending, Directory, ◌>>=◌, cases, create_receipt,
  remove_pending,
}
use dyro_engineering_flow.Journal.Actions.{
  publish_receipt, plan_applies, publish_all, apply_action_cancellation,
}
use dyro_engineering_flow.Journal.Lease.{recover_from, recover_owner_takeover}
use dyro_engineering_flow.Journal.Keeps.{Keeps, bind-Keeps, keeps_rules}
use dyro_engineering_flow.Journal.Starts.{recover_nothing}

-- The lease and the pending file stand as they were.
abbrev Stands : Directory → Directory → Type 0
Stands base d = (d.lease ≡ base.lease) × (d.pending ≡ base.pending)

module _ (base : Directory) where
  create_receipt-Stands : (k : ℕ) (r : ActionReceipt) → Keeps (Stands base) (create_receipt k r)
  unfolding create_receipt
  create_receipt-Stands k r = record { at = λ d h. let (a, b) = h in ground arith }

  publish_receipt-Stands : (r : ActionReceipt) → Keeps (Stands base) (publish_receipt r)
  unfolding publish_receipt
  publish_receipt-Stands r = search (keeps_rules, create_receipt-Stands) depth 12

  plan_applies-Stands : (rs : List ActionReceipt) → Keeps (Stands base) (plan_applies rs)
  unfolding plan_applies
  plan_applies-Stands [] = search keeps_rules
  plan_applies-Stands (r ∷ rs) =
      let rest = plan_applies-Stands rs in
      bind-Keeps _ _ (search keeps_rules) (λ x. search keeps_rules depth 10)

  publish_all-Stands : (rs : List ActionReceipt) → Keeps (Stands base) (publish_all rs)
  unfolding publish_all
  publish_all-Stands [] = search keeps_rules
  publish_all-Stands (r ∷ rs) =
      let rest = publish_all-Stands rs in
      bind-Keeps _ _ (publish_receipt-Stands r) (λ x. search keeps_rules)

  apply_action_cancellation-Stands :
      (rs : List ActionReceipt) → Keeps (Stands base) (apply_action_cancellation rs)
  unfolding apply_action_cancellation
  apply_action_cancellation-Stands rs =
      search (keeps_rules, plan_applies-Stands, publish_all-Stands)

-- What an answered recovery leaves, and one that raises.
abbrev pub Settled : Directory → Result (Unit {0}) → Directory → Type 0
Settled d (ok _) e =
    (e.lease ≡ d.lease) × (e.pending ≡ none) × (recover_owner_takeover e ≡ (ok tt, e))
Settled d (err _) e = (e.lease ≡ d.lease) × (e.pending ≡ d.pending)

settled :
    (d e : Directory) (r : Result (Unit {0}))
    → e.lease ≡ d.lease
    → (r ≡ ok tt → e.pending ≡ none)
    → ((c : JournalError) → r ≡ err c → e.pending ≡ d.pending)
    → Settled d r e
settled d e (ok tt) l x y = (l, x refl, recover_nothing e (x refl))
settled d e (err c) l x y = (l, y c refl)

recover_from_lease : (p : TakeoverPending) (d : Directory) → (recover_from p d).1.lease ≡ d.lease
unfolding ◌>>=◌ remove_pending
recover_from_lease p d =
    let kept = ((apply_action_cancellation-Stands d p.action_cancellation).at d (refl, refl)).0 in
    ground arith

recover_from_ok :
    (p : TakeoverPending) (d : Directory)
    → (recover_from p d).0 ≡ ok tt
    → (recover_from p d).1.pending ≡ none
unfolding ◌>>=◌ remove_pending
recover_from_ok p d h = ground arith

recover_from_err :
    (p : TakeoverPending) (d : Directory) (c : JournalError)
    → (recover_from p d).0 ≡ err c
    → (recover_from p d).1.pending ≡ d.pending
unfolding ◌>>=◌ remove_pending
recover_from_err p d c h =
    let kept = ((apply_action_cancellation-Stands d p.action_cancellation).at d (refl, refl)).1 in
    ground arith

recover_from-Settled :
    (p : TakeoverPending) (d : Directory) → Settled d (recover_from p d).0 (recover_from p d).1
recover_from-Settled p d =
    settled d _ _ (recover_from_lease p d) (recover_from_ok p d) (recover_from_err p d)

recover_waiting :
    (d : Directory) (p : TakeoverPending)
    → d.pending ≡ some p
    → recover_owner_takeover d ≡ recover_from p d
unfolding recover_owner_takeover ◌>>=◌ cases
recover_waiting d p h = rw h refl

-- The recovery of a takeover never changes the owner lease. Where it answers, no takeover waits any
-- more, and a second recovery answers and changes nothing; where it raises, the pending file stands
-- as it was, for a later call.
pub recover_owner_takeover-Settled :
    (d : Directory) → Settled d (recover_owner_takeover d).0 (recover_owner_takeover d).1
recover_owner_takeover-Settled d = by d.pending refl
  where
    by :
        (o : Option TakeoverPending)
        → d.pending ≡ o
        → Settled d (recover_owner_takeover d).0 (recover_owner_takeover d).1
    by none h = rw (recover_nothing d h) (refl, h, recover_nothing d h)
    by (some p) h = rw (recover_waiting d p h) (recover_from-Settled p d)
