-- ===== src/Tasks/Exclusive.antt =====
-- The claims of src/dyro/tasks.py: who may claim a task, and what a claim and a release write.
use dyro_engineering_flow.Prelude.{
  ℕ, ◌+◌, ◌<◌, ◌≡◌, ◌≢◌, refl, sym, ap, subst, ◌∙◌, Bool, true, false, not, ◌&&◌, Option, none,
  some, List, [], ◌∷◌, arith, ◌==◌, ==_iff, ==_refl, All, Bool-cases, Option-cases, if◌then◌else◌,
  inl, inr, any,
}
use dyro_engineering_flow.Planner.Model.{
  is_external, Status, backlog, assigned, done, same_state, Task,
}
use dyro_engineering_flow.Graph.Model.{GraphIssue, build_task_graph}
use dyro_engineering_flow.Graph.Validate.{validate_task_graph}
use dyro_engineering_flow.Graph.WellFormed.{WellFormed, validate_task_graph-iff-WellFormed}
use dyro_engineering_flow.Tasks.State.{TaskClaim, Workspace, Environment, ok, at}
use dyro_engineering_flow.Tasks.Dispatch.{
  is_empty, first_error, dependency_error, check_dispatchable, set_status, conflicts,
}
use dyro_engineering_flow.Tasks.Claims.{
  new_claim, target_of, stands, claim_task, claim_locked, release_task_claim,
}

module _ (env : Environment) (t : Task) where
  -- What was checked of the task.
  record Dispatchable (now : ℕ) (w : Workspace) : Type 0 where
    graph : is_empty (validate_task_graph (build_task_graph env.tasks env.decisions none)) ≡ true
    ready : first_error (dependency_error env w) t.depends_on ≡ none
    alone : (not (t.conflict_group == 0) && any (conflicts env w now t) env.tasks) ≡ false

  check_dispatchable_ok :
      (now : ℕ) (w : Workspace) {u : Unit {0}}
      → (check_dispatchable env t now w).0 ≡ ok u
      → Dispatchable now w
  unfolding check_dispatchable
  check_dispatchable_ok now w h = record {
    graph = ground arith;
    ready = ground arith;
    alone = ground arith;
  }

  check_dispatchable-same : (now : ℕ) (w : Workspace) → (check_dispatchable env t now w).1 ≡ w
  unfolding check_dispatchable
  check_dispatchable-same now w = ground arith

  -- What a claim finds, and what it writes.
  record Claimed (runner key lease_seconds now claim_id : ℕ) (w : Workspace) (st : Status)
      (w' : Workspace) : Type 0 where
    free : stands (w.claims t.id) now ≡ false
    answer : st ≡ target_of (w.statuses t.id)
    claim :
        (j : ℕ)
        → w'.claims j
          ≡ at t.id
              (some (new_claim (w.claims t.id) runner key lease_seconds now claim_id))
              w.claims
              j
    status : (j : ℕ) → w'.statuses j ≡ at t.id st w.statuses j

  claim_locked_ok :
      (runner key lease_seconds now claim_id : ℕ) (w w' : Workspace) {st : Status}
      → claim_locked env t runner key lease_seconds now claim_id false w ≡ (ok st, w')
      → Claimed runner key lease_seconds now claim_id w st w'
  unfolding set_status
  claim_locked_ok runner key lease_seconds now claim_id w w' {st} h = record {
    free = ground arith;
    answer = ground arith;
    claim = λ j. ground arith;
    status = λ j. ground arith;
  }

  -- A dependency that is done and integrated, on its branch.
  abbrev pub IsReady : Workspace → ℕ → Type 0
  IsReady w d =
      (same_state (w.statuses d) done ≡ true)
      × (env.dependency_integrated d ≡ true)
      × (env.line_on_branch d ≡ true)

  dependency-IsReady : (w : Workspace) (d : ℕ) → dependency_error env w d ≡ none → IsReady w d
  dependency-IsReady w d h = (ground arith, ground arith, ground arith)

  all-IsReady :
      (w : Workspace) (ds : List ℕ)
      → first_error (dependency_error env w) ds ≡ none
      → All (IsReady w) ds
  all-IsReady w [] h = tt
  all-IsReady w (d ∷ ds) h = elim (Option-cases (dependency_error env w d)) [
    | inl e ↦ (dependency-IsReady w d e, all-IsReady w ds (rw (e, first_error) at h))
    | inr (x, e) ↦ let never : some x ≡ none = rw (e, first_error) at h in ground arith
  ]

  graph-WellFormed :
      is_empty (validate_task_graph (build_task_graph env.tasks env.decisions none)) ≡ true
      → WellFormed (build_task_graph env.tasks env.decisions none)
  graph-WellFormed h =
      let (issues, e, both) =
        validate_task_graph-iff-WellFormed (build_task_graph env.tasks env.decisions none) in
      by issues e both.0
    where
      by :
          (issues : List GraphIssue)
          → validate_task_graph (build_task_graph env.tasks env.decisions none) ≡ some issues
          → (issues ≡ [] → WellFormed (build_task_graph env.tasks env.decisions none))
          → WellFormed (build_task_graph env.tasks env.decisions none)
      by [] e from = from refl
      by (i ∷ is) e from = let never : false ≡ true = rw e at h in ground arith

  claim_task_parts :
      (runner key lease_seconds now claim_id : ℕ) (dry_run : Bool) (w w' : Workspace) {st : Status}
      → claim_task env t runner key lease_seconds now claim_id dry_run w ≡ (ok st, w')
      → ((check_dispatchable env t now w).0 ≡ ok tt)
        × (claim_locked env t runner key lease_seconds now claim_id dry_run
              (check_dispatchable env t now w).1
            ≡ (ok st, w'))
  unfolding claim_task
  claim_task_parts runner key lease_seconds now claim_id dry_run w w' h = ground arith

  pub claim_task-external :
      (runner key lease_seconds now claim_id : ℕ) (w w' : Workspace) {st : Status}
      → claim_task env t runner key lease_seconds now claim_id false w ≡ (ok st, w')
      → is_external env.execution_mode ≡ true
  unfolding claim_task
  claim_task-external runner key lease_seconds now claim_id w w' h = ground arith

  pub claim_task-answer :
      (runner key lease_seconds now claim_id : ℕ) (w w' : Workspace) {st : Status}
      → claim_task env t runner key lease_seconds now claim_id false w ≡ (ok st, w')
      → st ≡ target_of (w.statuses t.id)
  claim_task-answer runner key lease_seconds now claim_id w w' {st} h =
      let (_, locked) = claim_task_parts runner key lease_seconds now claim_id false w w' h in
      (claim_locked_ok runner key lease_seconds now claim_id w w' (
        subst (λ v. claim_locked env t runner key lease_seconds now claim_id false v ≡ (ok st, w'))
          (check_dispatchable-same now w) locked)).answer

  claim_locked-free :
      (runner key lease_seconds now claim_id : ℕ) (dry_run : Bool) (w w' : Workspace) {st : Status}
      → claim_locked env t runner key lease_seconds now claim_id dry_run w ≡ (ok st, w')
      → stands (w.claims t.id) now ≡ false
  claim_locked-free runner key lease_seconds now claim_id dry_run w w' h = ground arith

  release_ok :
      (runner : ℕ) (w w' : Workspace) {st : Status}
      → w.statuses t.id ≡ assigned
      → release_task_claim env t runner false w ≡ (ok st, w')
      → (st ≡ backlog)
        × ((j : ℕ) → w'.statuses j ≡ at t.id backlog w.statuses j)
        × ((j : ℕ) → w'.claims j ≡ at t.id none w.claims j)
  unfolding release_task_claim
  release_ok runner w w' a h = (ground arith, λ j. ground arith, λ j. ground arith)

  module _ (runner key lease_seconds now claim_id : ℕ) (w w' : Workspace) {st : Status} where
    -- What was checked and written, by the functions of the code.
    pub claim_task_ok :
        claim_task env t runner key lease_seconds now claim_id false w ≡ (ok st, w')
        → (stands (w.claims t.id) now ≡ false)
          × WellFormed (build_task_graph env.tasks env.decisions none)
          × All (IsReady w) t.depends_on
          × ((not (t.conflict_group == 0) && any (conflicts env w now t) env.tasks) ≡ false)
          × ((j : ℕ)
              → w'.claims j
                ≡ at t.id
                    (some (new_claim (w.claims t.id) runner key lease_seconds now claim_id))
                    w.claims
                    j)
          × ((j : ℕ) → w'.statuses j ≡ at t.id st w.statuses j)
    claim_task_ok h =
        let (checked, locked) =
          claim_task_parts runner key lease_seconds now claim_id false w w' h in
        let d = check_dispatchable_ok now w checked in
        let c = claim_locked_ok runner key lease_seconds now claim_id w w' (
          subst
            (λ v. claim_locked env t runner key lease_seconds now claim_id false v ≡ (ok st, w'))
            (check_dispatchable-same now w) locked) in
        (
          c.free,
          graph-WellFormed d.graph,
          all-IsReady w t.depends_on d.ready,
          d.alone,
          c.claim,
          c.status,
        )

    -- While the lease runs nobody else claims the task, and the runner itself does not either.
    pub claim_task_exclusive :
        (runner' key' lease' now' id' : ℕ) (dry_run : Bool) (w'' : Workspace) {st' : Status}
        → claim_task env t runner key lease_seconds now claim_id false w ≡ (ok st, w')
        → now' < now + lease_seconds
        → claim_task env t runner' key' lease' now' id' dry_run w' ≢ (ok st', w'')
    claim_task_exclusive runner' key' lease' now' id' dry_run w'' {st'} h early again =
        let (_, _, _, _, claim, _) = claim_task_ok h in
        let (_, locked) = claim_task_parts runner' key' lease' now' id' dry_run w' w'' again in
        let free = claim_locked-free runner' key' lease' now' id' dry_run w' w'' (
          subst (λ v. claim_locked env t runner' key' lease' now' id' dry_run v ≡ (ok st', w''))
            (check_dispatchable-same now' w') locked) in
        let mine : w'.claims t.id
            ≡ some (new_claim (w.claims t.id) runner key lease_seconds now claim_id) =
          claim t.id ∙ rw (==_refl t.id) refl in
        let held : stands (some (new_claim (w.claims t.id) runner key lease_seconds now claim_id))
              now'
            ≡ false =
          rw mine at free in
        ground arith

    -- A claim of a task of the backlog that its runner gives back leaves the statuses and the other
    -- claims as they were.
    pub claim-release :
        {w'' : Workspace} {st' : Status}
        → w.statuses t.id ≡ backlog
        → claim_task env t runner key lease_seconds now claim_id false w ≡ (ok st, w')
        → release_task_claim env t runner false w' ≡ (ok st', w'')
        → (st' ≡ backlog)
          × ((j : ℕ) → w''.statuses j ≡ w.statuses j)
          × ((j : ℕ) → w''.claims j ≡ at t.id none w.claims j)
    claim-release {w''} {st'} b h r =
        let (checked, locked) =
          claim_task_parts runner key lease_seconds now claim_id false w w' h in
        let c = claim_locked_ok runner key lease_seconds now claim_id w w' (
          subst
            (λ v. claim_locked env t runner key lease_seconds now claim_id false v ≡ (ok st, w'))
            (check_dispatchable-same now w) locked) in
        let answer : st ≡ assigned = c.answer ∙ ap target_of b in
        let now_assigned : w'.statuses t.id ≡ assigned = c.status t.id ∙ rw (==_refl t.id) answer in
        let (back, statuses, claims) = release_ok runner w' w'' now_assigned r in
        (
          back,
          λ j. statuses j ∙ restored j (w'.statuses j) (c.status j),
          λ j. claims j ∙ cleared j (w'.claims j) (c.claim j),
        )
      where
        restored :
            (j : ℕ) (s : Status)
            → s ≡ at t.id st w.statuses j
            → (if j == t.id then backlog else s) ≡ w.statuses j
        restored j s e = elim (Bool-cases (j == t.id)) [
          | inl same ↦ rw same (sym (ap w.statuses ((==_iff j t.id).0 same) ∙ b))
          | inr other ↦ rw other (e ∙ rw other refl)
        ]

        cleared :
            (j : ℕ) (x : Option TaskClaim)
            → x
              ≡ at t.id
                  (some (new_claim (w.claims t.id) runner key lease_seconds now claim_id))
                  w.claims
                  j
            → (if j == t.id then none else x) ≡ at t.id none w.claims j
        cleared j x e = elim (Bool-cases (j == t.id)) [
          | inl same ↦ rw same refl
          | inr other ↦ rw other (e ∙ rw other refl)
        ]
