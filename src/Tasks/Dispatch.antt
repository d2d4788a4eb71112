-- ===== src/Tasks/Dispatch.antt =====
-- `check_dispatchable` and `set_status` of src/dyro/tasks.py with what they call. The clock is read
-- once in a call, as `now`.
use dyro_engineering_flow.Prelude.{
  ℕ, Bool, true, false, not, ◌&&◌, ◌||◌, Option, none, some, List, [], ◌∷◌, leb, ◌==◌, any,
  if◌then◌else◌,
}
use dyro_engineering_flow.Planner.Model.{
  Status, in_progress, assigned, done, same_state, is_external, Task, decision_of,
}
use dyro_engineering_flow.Graph.Model.{GraphIssue, build_task_graph, lookup_task}
use dyro_engineering_flow.Graph.Validate.{validate_task_graph}
use dyro_engineering_flow.Tasks.State.{
  TaskClaim, status_entry, event_append_failed, Workspace, Environment, TaskError, task_missing,
  graph_invalid, decision_open, dependency_pending, dependency_not_integrated, branch_differs,
  conflict_active, gate_protected, signoff_missing, transition_refused, ok, err, M, at, log,
  is_gate, may_follow,
}

-- `_claim_expired`
abbrev pub claim_expired_at : TaskClaim → ℕ → Bool
claim_expired_at c now = elim c.lease_expires_at [ none ↦ false | some t ↦ leb t now ]

-- `external_claim_active`
abbrev pub claim_active : Option TaskClaim → ℕ → Bool
claim_active none now = false
claim_active (some c) now = not (claim_expired_at c now)

abbrev pub is_empty : Option (List GraphIssue) → Bool
is_empty (some []) = true
is_empty (some (_ ∷ _)) = false
is_empty none = false

-- `states.get(decision) == "resolved"`
abbrev pub is_resolved : Option Bool → Bool
is_resolved (some b) = b
is_resolved none = false

-- Another task of the conflict group works, or is claimed.
abbrev pub conflicts : Environment → Workspace → ℕ → Task → Task → Bool
conflicts env w now t other =
    not (other.id == t.id)
    && other.conflict_group == t.conflict_group
    && (same_state (w.statuses other.id) in_progress
        || (is_external env.execution_mode
            && same_state (w.statuses other.id) assigned
            && claim_active (w.claims other.id) now))

abbrev pub dependency_error : Environment → Workspace → ℕ → Option TaskError
dependency_error env w d = elim (lookup_task d env.tasks) [
  | none ↦ some task_missing
  | some _ ↦
      if not (same_state (w.statuses d) done)
      then some dependency_pending
      else if not (env.dependency_integrated d)
      then some dependency_not_integrated
      else if not (env.line_on_branch d)
      then some branch_differs
      else none
]

abbrev pub first_error : (ℕ → Option TaskError) → List ℕ → Option TaskError
first_error f [] = none
first_error f (d ∷ ds) = elim (f d) [ none ↦ first_error f ds | some e ↦ some e ]

unfoldable pub check_dispatchable : Environment → Task → ℕ → M (Unit {0})
unfolding validate_task_graph build_task_graph decision_of lookup_task
check_dispatchable env t now w =
    if not (is_empty (validate_task_graph (build_task_graph env.tasks env.decisions none)))
    then (err graph_invalid, w)
    else if any (λ d. not (is_resolved (decision_of d env.decisions))) t.blocked_on
    then (err decision_open, w)
    else elim (first_error (dependency_error env w) t.depends_on) [
      | some e ↦ (err e, w)
      | none ↦
          if not (t.conflict_group == 0) && any (conflicts env w now t) env.tasks
          then (err conflict_active, w)
          else (ok tt, w)
    ]

-- The write of `set_status`: an event that cannot be appended is noted in the ledger.
abbrev pub write_status : Environment → ℕ → Status → Workspace → Workspace
write_status env id next w =
    let current = w.statuses id in
    let written =
      log (status_entry id current next) (record w { statuses = at id next w.statuses }) in
    if env.event_appended id current next
    then written
    else log (event_append_failed id current next) written

-- `set_status`, for the task `id`
unfoldable pub set_status :
    Environment → ℕ → Status → (force dry_run allow_quality_gate : Bool) → M (Unit {0})
set_status env id next force dry_run allow_quality_gate w =
    let current = w.statuses id in
    if is_gate next && not allow_quality_gate
    then (err gate_protected, w)
    else if same_state current next
    then (ok tt, w)
    else if env.require_external_signoff
        && same_state next done
        && not (env.valid_external_signoff id)
    then (err signoff_missing, w)
    else if not force && not (may_follow current next)
    then (err transition_refused, w)
    else if dry_run
    then (ok tt, w)
    else (ok tt, write_status env id next w)

-- `_set_quality_gate_status`; the caller gives a quality gate.
unfoldable pub set_quality_gate_status : Environment → ℕ → Status → Bool → M (Unit {0})
unfolding set_status
set_quality_gate_status env id next dry_run = set_status env id next false dry_run true
