-- ===== src/Objective/Spent.antt =====
-- The budget of an Objective over histories of the calls of src/dyro/continuation/store.py: what is
-- reserved, started or received never passes what was allowed.
use dyro_engineering_flow.Prelude.Dict.{lookup}
use dyro_engineering_flow.Prelude.{
  Option, none, some, inl, inr, Bool-cases, subst, ℕ, ◌+◌, ◌≤◌, ◌≡◌, Bool, true, false, Option,
  List, [], ◌∷◌, arith, sum_by, All,
}
use dyro_engineering_flow.Budget.Model.{BudgetReservation}
use dyro_engineering_flow.Journal.Model.{ActionIntent, ActionRecord, OwnerLeaseGrant}
use dyro_engineering_flow.Journal.Store.{
  ActionFile, intent_file, start_file, receipt_file, tear, tear_new, TakeoverPending, Result, ok,
  Directory,
}
use dyro_engineering_flow.Journal.Actions.{list_records}
use dyro_engineering_flow.Journal.Lease.{pending_accepted, read_owner_lease}
use dyro_engineering_flow.Journal.Keeps.{Keeps, keeps_rules, bind-Keeps}
use dyro_engineering_flow.Journal.Runs.{
  crash_in_file, crash_in_pending, tear_pending, Takeover, Command, read_lease, reserve, start,
  receive, cancel, acquire, renew, release, crash_at_pending, crash_at_lease, crash_at_receipt,
  recover_cut, acquire_to_pending, acquire_to_lease, run,
}
use dyro_engineering_flow.Objective.Authority.{StoredObjective}
use dyro_engineering_flow.Objective.Reserve.{
  Others, reserve_supervised_action, start_objective_action,
}
use dyro_engineering_flow.Objective.Charged.{IsCount, charge, list_records-charged}
use dyro_engineering_flow.Objective.Unspent
use dyro_engineering_flow.Objective.Admission.{kept, unfinished, kept-IsCount, unfinished-IsCount}
use dyro_engineering_flow.Objective.Histories.{
  reserve_supervised-Leaves, start_objective_action-Leaves,
}

-- The calls on the journal of one Objective. The stored Objective may be another at each call.
pub data Step : Type 0 where
  reserve_supervised :
      (stored : StoredObjective) (others : Result Others) (intent : ActionIntent)
      (grant : OwnerLeaseGrant) (provider_cap : Option ℕ) (trusted : Bool) (now : ℕ)
      (is_automatic : Bool)
      → Step
  start_objective :
      (stored : StoredObjective) (action_id : ℕ) (grant : OwnerLeaseGrant) (now : ℕ) → Step
  journal : Command → Step

module _ (token_digest : ℕ → ℕ) where
  unfoldable pub take_step : Step → Directory → Directory
  take_step (reserve_supervised stored others intent grant provider_cap trusted now is_automatic)
        d =
      (reserve_supervised_action token_digest stored others intent grant provider_cap trusted now
        is_automatic d).1
  take_step (start_objective stored action_id grant now) d =
      (start_objective_action token_digest stored action_id grant now d).1
  take_step (journal c) d = run token_digest c d

  unfoldable pub take_steps : List Step → Directory → Directory
  take_steps [] d = d
  take_steps (s ∷ ss) d = take_steps ss (take_step s d)

-- A reservation without a budget decision.
abbrev pub is_unsupervised : Command → Bool
is_unsupervised (reserve i) = true
is_unsupervised _ = false

-- Every reservation is supervised, of the Objective `o`, and under limits of at most `actions` and
-- `parallel`.
abbrev pub IsLimited : (o actions parallel : ℕ) → Step → Type 0
IsLimited o actions parallel
      (reserve_supervised stored others intent grant provider_cap trusted now is_automatic) =
    (stored.objective.id ≡ o)
    × (stored.objective.budget.max_actions ≤ actions)
    × (stored.objective.budget.max_parallel ≤ parallel)
IsLimited o actions parallel (start_objective stored action_id grant now) = Unit
IsLimited o actions parallel (journal c) = is_unsupervised c ≡ false

module _ {counts : Bool → Bool → Bool} (c : IsCount counts) (f : BudgetReservation → ℕ)
    (o limit : ℕ) (token_digest : ℕ → ℕ) where
  module _ (t : Takeover) where
    acquire_to_pending-Leaves :
        Keeps (Unspent.Leaves c f o 0 limit) (acquire_to_pending token_digest t)
    unfolding acquire_to_pending
    acquire_to_pending-Leaves =
        bind-Keeps _ _ (Unspent.recover_owner_takeover-Leaves c f o 0 limit) λ _.
          bind-Keeps _ _
            (Unspent.prepare_takeover-Leaves c f o 0 limit token_digest t.objective t.now t.ttl
              t.pid t.process_start t.token t.summary)
            λ (lease, previous, plan).
              Unspent.write_takeover-Leaves c f o 0 limit token_digest lease previous plan

    acquire_to_lease-Leaves : Keeps (Unspent.Leaves c f o 0 limit) (acquire_to_lease token_digest t)
    unfolding acquire_to_lease
    acquire_to_lease-Leaves =
        bind-Keeps _ _ (Unspent.recover_owner_takeover-Leaves c f o 0 limit) λ _.
          bind-Keeps _ _
            (Unspent.prepare_takeover-Leaves c f o 0 limit token_digest t.objective t.now t.ttl
              t.pid t.process_start t.token t.summary)
            λ (lease, previous, plan).
              bind-Keeps _ _
                (Unspent.write_takeover-Leaves c f o 0 limit token_digest lease previous plan)
                (λ _. Unspent.write_lease-Leaves c f o 0 limit lease)

  recover_cut-Leaves : (n : ℕ) → Keeps (Unspent.Leaves c f o 0 limit) (recover_cut n)
  unfolding recover_cut
  recover_cut-Leaves n =
      search
        (
          keeps_rules,
          Unspent.publish_all-Leaves c f o 0 limit,
          Unspent.plan_applies-Leaves c f o 0 limit,
        )
        depth 18

  read_owner_lease-Leaves : Keeps (Unspent.Leaves c f o 0 limit) read_owner_lease
  unfolding read_owner_lease
  read_owner_lease-Leaves =
      search (keeps_rules, Unspent.recover_owner_takeover-Leaves c f o 0 limit)

  tear_new-Leaves :
      {V : Type 0} (file : ActionFile) (x : Option V) (d : Directory)
      → Unspent.Leaves c f o 0 limit d
      → Unspent.Leaves c f o 0 limit (tear_new file x d)
  tear_new-Leaves file none d h = h
  tear_new-Leaves file (some _) d h = h

  tear-Leaves :
      (file : ActionFile) (d : Directory)
      → Unspent.Leaves c f o 0 limit d
      → Unspent.Leaves c f o 0 limit (tear file d)
  unfolding tear
  tear-Leaves (intent_file k) d h = tear_new-Leaves (intent_file k) (lookup k d.intents) d h
  tear-Leaves (start_file k) d h = tear_new-Leaves (start_file k) (lookup k d.starts) d h
  tear-Leaves (receipt_file k) d h = tear_new-Leaves (receipt_file k) (lookup k d.receipts) d h

  tear_pending-Leaves :
      (p : TakeoverPending) (d : Directory)
      → Unspent.Leaves c f o 0 limit d
      → Unspent.Leaves c f o 0 limit (tear_pending p d)
  unfolding tear_pending
  tear_pending-Leaves p d h = elim (Bool-cases (pending_accepted p)) [
    | inl e ↦ rw e h
    | inr e ↦ rw e ((Unspent.write_pending-Leaves c f o 0 limit p).at d h)
  ]

  run-Leaves :
      (x : Command) (d : Directory)
      → is_unsupervised x ≡ false
      → Unspent.Leaves c f o 0 limit d
      → Unspent.Leaves c f o 0 limit (run token_digest x d)
  unfolding run
  run-Leaves read_lease d u h = read_owner_lease-Leaves.at d h
  run-Leaves (reserve i) d u h = let never : true ≡ false = u in ground arith
  run-Leaves (start id g now) d u h =
      (Unspent.start_action-Leaves c f o 0 limit token_digest id g now).at d h
  run-Leaves (receive v grant) d u h =
      (Unspent.record_action_receipt-Leaves c f o 0 limit token_digest v grant).at d h
  run-Leaves (cancel summary now) d u h =
      (Unspent.cancel_unstarted_actions-Leaves c f o 0 limit summary now).at d h
  run-Leaves (acquire t) d u h =
      (Unspent.acquire_owner_lease-Leaves c f o 0 limit token_digest t.objective t.now t.ttl t.pid
          t.process_start t.token t.summary).at
        d h
  run-Leaves (renew g now ttl) d u h =
      (Unspent.renew_owner_lease-Leaves c f o 0 limit token_digest g now ttl).at d h
  run-Leaves (release g now) d u h =
      (Unspent.release_owner_lease-Leaves c f o 0 limit token_digest g now).at d h
  run-Leaves (crash_at_pending t) d u h = (acquire_to_pending-Leaves t).at d h
  run-Leaves (crash_at_lease t) d u h = (acquire_to_lease-Leaves t).at d h
  run-Leaves (crash_at_receipt n) d u h = (recover_cut-Leaves n).at d h
  run-Leaves (crash_in_file file) d u h = tear-Leaves file d h
  run-Leaves (crash_in_pending p) d u h = tear_pending-Leaves p d h

-- The actions of the Objective `o` that are reserved, started or received, and those of them without a
-- receipt, as their reservations count them.
abbrev pub actions_of : ℕ → List ActionRecord → ℕ
actions_of o records = sum_by (charge kept (λ r. r.actions) o) records

abbrev pub parallel_of : ℕ → List ActionRecord → ℕ
parallel_of o records = sum_by (charge unfinished (λ r. r.parallel) o) records

module _ (token_digest : ℕ → ℕ) (o actions parallel : ℕ) where
  abbrev Spends : Directory → Type 0
  Spends d =
      Unspent.Leaves kept-IsCount (λ r. r.actions) o 0 actions d
      × Unspent.Leaves unfinished-IsCount (λ r. r.parallel) o 0 parallel d

  take_step-Spends :
      (s : Step) (d : Directory)
      → IsLimited o actions parallel s
      → Spends d
      → Spends (take_step token_digest s d)
  unfolding take_step
  take_step-Spends (reserve_supervised stored others i g provider_cap trusted now is_automatic) d
        (same, a, p) (h, k) =
      (
        (reserve_supervised-Leaves kept-IsCount (λ r. r.actions) o actions token_digest stored
              others i g provider_cap trusted now is_automatic
              (λ records x.
                subst
                  (λ id.
                    sum_by (charge kept (λ r. r.actions) id) records + i.budget_reservation.actions
                    ≤ actions)
                  same (omega (arith, x.actions, a)))).at
            d h,
        (reserve_supervised-Leaves unfinished-IsCount (λ r. r.parallel) o parallel token_digest
              stored others i g provider_cap trusted now is_automatic
              (λ records x.
                subst
                  (λ id.
                    sum_by (charge unfinished (λ r. r.parallel) id) records
                      + i.budget_reservation.parallel
                    ≤ parallel)
                  same (omega (arith, x.parallel, p)))).at
            d k,
      )
  take_step-Spends (start_objective stored id g now) d l (h, k) = (
    (start_objective_action-Leaves kept-IsCount (λ r. r.actions) o actions token_digest stored 0 id
          g now).at
        d h,
    (start_objective_action-Leaves unfinished-IsCount (λ r. r.parallel) o parallel token_digest
          stored 0 id g now).at
        d k,
  )
  take_step-Spends (journal x) d l (h, k) = (
    run-Leaves kept-IsCount (λ r. r.actions) o actions token_digest x d l h,
    run-Leaves unfinished-IsCount (λ r. r.parallel) o parallel token_digest x d l k,
  )

  take_steps-Spends :
      (ss : List Step) (d : Directory)
      → All (IsLimited o actions parallel) ss
      → Spends d
      → Spends (take_steps token_digest ss d)
  unfolding take_steps
  take_steps-Spends [] d l h = h
  take_steps-Spends (s ∷ ss) d (l, ls) h =
      take_steps-Spends ss (take_step token_digest s d) ls (take_step-Spends s d l h)

  -- Whatever calls are made on a journal, takeovers that crash included: where every reservation is
  -- supervised and made under limits of at most these, the actions of the Objective that are
  -- reserved, started or received stay within the limit of actions, and those without a receipt
  -- within the limit of parallel ones, as they were before.
  pub take_steps-within :
      (ss : List Step) (d : Directory) {before after : List ActionRecord}
      → All (IsLimited o actions parallel) ss
      → list_records d ≡ ok before
      → actions_of o before ≤ actions
      → parallel_of o before ≤ parallel
      → list_records (take_steps token_digest ss d) ≡ ok after
      → (actions_of o after ≤ actions) × (parallel_of o after ≤ parallel)
  take_steps-within ss d l e h k e' =
      let d' = take_steps token_digest ss d in
      let (spent, running) = take_steps-Spends ss d l (
        omega (arith, list_records-charged kept (λ r. r.actions) o d e, h),
        omega (arith, list_records-charged unfinished (λ r. r.parallel) o d e, k),
      ) in
      (
        omega (arith, list_records-charged kept (λ r. r.actions) o d' e', spent),
        omega (arith, list_records-charged unfinished (λ r. r.parallel) o d' e', running),
      )
