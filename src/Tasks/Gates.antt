-- ===== src/Tasks/Gates.antt =====
-- The quality gates of src/dyro/tasks.py over histories of calls: only a review opens them.
use dyro_engineering_flow.Prelude.{
  absurd_bool, ℕ, ◌≡◌, refl, sym, ap, ◌∙◌, Bool, true, false, ◌&&◌, List, [], ◌∷◌, arith, ◌==◌,
  ==_iff, All, Bool-cases, inl, inr,
}
use dyro_engineering_flow.Planner.Model.{
  Status, backlog, assigned, in_progress, waiting_answer, review, review_pending_signoff, done,
  failed, same_state, Task,
}
use dyro_engineering_flow.Tasks.State.{Workspace, Environment, is_gate, may_follow}
use dyro_engineering_flow.Tasks.Dispatch.{check_dispatchable, set_status, set_quality_gate_status}
use dyro_engineering_flow.Tasks.Claims.{claim_task, renew_task_claim, release_task_claim}

-- The calls that write a status.
pub data Command : Type 0 where
  claim : (t : Task) (runner key lease_seconds now claim_id : ℕ) (dry_run : Bool) → Command
  renew : (t : Task) (runner lease_seconds now : ℕ) (dry_run : Bool) → Command
  release : (t : Task) (runner : ℕ) (dry_run : Bool) → Command
  set : (id : ℕ) (next : Status) (force dry_run : Bool) → Command
  pass_gate : (id : ℕ) (next : Status) (dry_run : Bool) → Command

unfoldable pub run : Environment → Command → Workspace → Workspace
run env (claim t runner key lease_seconds now claim_id dry_run) w =
    (claim_task env t runner key lease_seconds now claim_id dry_run w).1
run env (renew t runner lease_seconds now dry_run) w =
    (renew_task_claim env t runner lease_seconds now dry_run w).1
run env (release t runner dry_run) w = (release_task_claim env t runner dry_run w).1
run env (set id next force dry_run) w = (set_status env id next force dry_run false w).1
run env (pass_gate id next dry_run) w = (set_quality_gate_status env id next dry_run w).1

unfoldable pub run_all : Environment → List Command → Workspace → Workspace
run_all env [] w = w
run_all env (c ∷ cs) w = run_all env cs (run env c w)

-- The status of `j` is no quality gate.
abbrev pub Unreviewed : ℕ → Workspace → Type 0
Unreviewed j w = is_gate (w.statuses j) ≡ false

-- A command that opens the first gate of `j`.
abbrev pub opens_review : ℕ → Command → Bool
opens_review j (pass_gate id next dry_run) = id == j && same_state next review
opens_review j _ = false

module _ (env : Environment) (j : ℕ) where
  set_status-Unreviewed :
      (id : ℕ) (next : Status) (force dry_run : Bool) (w : Workspace)
      → Unreviewed j w
      → Unreviewed j (set_status env id next force dry_run false w).1
  unfolding set_status
  set_status-Unreviewed id next force dry_run w h = ground arith

  may_follow-gate :
      (a b : Status)
      → may_follow a b ≡ true
      → is_gate a ≡ false
      → same_state b review ≡ false
      → is_gate b ≡ false
  may_follow-gate a backlog h g r = refl
  may_follow-gate a assigned h g r = refl
  may_follow-gate a in_progress h g r = refl
  may_follow-gate a waiting_answer h g r = refl
  may_follow-gate a failed h g r = refl
  may_follow-gate a review h g r = absurd_bool r
  may_follow-gate backlog review_pending_signoff h g r = absurd_bool (sym h)
  may_follow-gate assigned review_pending_signoff h g r = absurd_bool (sym h)
  may_follow-gate in_progress review_pending_signoff h g r = absurd_bool (sym h)
  may_follow-gate waiting_answer review_pending_signoff h g r = absurd_bool (sym h)
  may_follow-gate failed review_pending_signoff h g r = absurd_bool (sym h)
  may_follow-gate review review_pending_signoff h g r = absurd_bool g
  may_follow-gate review_pending_signoff review_pending_signoff h g r = absurd_bool g
  may_follow-gate done review_pending_signoff h g r = absurd_bool g
  may_follow-gate backlog done h g r = absurd_bool (sym h)
  may_follow-gate assigned done h g r = absurd_bool (sym h)
  may_follow-gate in_progress done h g r = absurd_bool (sym h)
  may_follow-gate waiting_answer done h g r = absurd_bool (sym h)
  may_follow-gate failed done h g r = absurd_bool (sym h)
  may_follow-gate review done h g r = absurd_bool g
  may_follow-gate review_pending_signoff done h g r = absurd_bool g
  may_follow-gate done done h g r = absurd_bool g

  -- A transition that is allowed by the table, and not forced.
  pass_gate-Unreviewed :
      (id : ℕ) (next : Status) (dry_run : Bool) (w : Workspace)
      → (id == j && same_state next review) ≡ false
      → Unreviewed j w
      → Unreviewed j (set_quality_gate_status env id next dry_run w).1
  unfolding set_quality_gate_status
  pass_gate-Unreviewed id next dry_run w r h = elim (Bool-cases (id == j)) [
    | inl e ↦
        let same : w.statuses id ≡ w.statuses j = ap w.statuses ((==_iff id j).0 e) in
        let g : is_gate (w.statuses id) ≡ false = ap is_gate same ∙ h in
        let r' : same_state next review ≡ false = rw e at r in
        elim (Bool-cases (may_follow (w.statuses id) next)) [
          | inl f ↦ let closed = may_follow-gate (w.statuses id) next f g r' in ground arith
          | inr f ↦ ground arith
        ]
    | inr e ↦ ground arith
  ]

  check_dispatchable-same :
      (t : Task) (now : ℕ) (w : Workspace) → (check_dispatchable env t now w).1 ≡ w
  unfolding check_dispatchable
  check_dispatchable-same t now w = ground arith

  claim-Unreviewed :
      (t : Task) (runner key lease_seconds now claim_id : ℕ) (dry_run : Bool) (w : Workspace)
      → Unreviewed j w
      → Unreviewed j (claim_task env t runner key lease_seconds now claim_id dry_run w).1
  unfolding claim_task
  claim-Unreviewed t runner key lease_seconds now claim_id dry_run w h =
      ground (arith, check_dispatchable-same t now w)

  renew-Unreviewed :
      (t : Task) (runner lease_seconds now : ℕ) (dry_run : Bool) (w : Workspace)
      → Unreviewed j w
      → Unreviewed j (renew_task_claim env t runner lease_seconds now dry_run w).1
  unfolding renew_task_claim
  renew-Unreviewed t runner lease_seconds now dry_run w h = ground arith

  release-Unreviewed :
      (t : Task) (runner : ℕ) (dry_run : Bool) (w : Workspace)
      → Unreviewed j w
      → Unreviewed j (release_task_claim env t runner dry_run w).1
  unfolding release_task_claim
  release-Unreviewed t runner dry_run w h = ground arith

  run-Unreviewed :
      (c : Command) (w : Workspace)
      → opens_review j c ≡ false
      → Unreviewed j w
      → Unreviewed j (run env c w)
  unfolding run
  run-Unreviewed (claim t runner key lease now id dry) w r h =
      claim-Unreviewed t runner key lease now id dry w h
  run-Unreviewed (renew t runner lease now dry) w r h = renew-Unreviewed t runner lease now dry w h
  run-Unreviewed (release t runner dry) w r h = release-Unreviewed t runner dry w h
  run-Unreviewed (set id next force dry) w r h = set_status-Unreviewed id next force dry w h
  run-Unreviewed (pass_gate id next dry) w r h = pass_gate-Unreviewed id next dry w r h

  -- In any history of claims, renewals, releases, statuses that are set, forced or not, and quality
  -- gates that are passed, a task that stands before its gates gets none of their statuses, `done`
  -- among them, unless some call of the history opens its review.
  pub run_all-Unreviewed :
      (cs : List Command) (w : Workspace)
      → All (λ c. opens_review j c ≡ false) cs
      → Unreviewed j w
      → Unreviewed j (run_all env cs w)
  unfolding run_all
  run_all-Unreviewed [] w r h = h
  run_all-Unreviewed (c ∷ cs) w (r, rs) h =
      run_all-Unreviewed cs (run env c w) rs (run-Unreviewed c w r h)
