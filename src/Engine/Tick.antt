-- ===== src/Engine/Tick.antt =====
-- `build_scheduler_tick` of src/dyro/continuation/engine.py, with its records. The digest of a tick
-- is not kept.
use dyro_engineering_flow.Prelude.{
  ℕ, ◌-◌, Bool, false, not, ◌&&◌, ◌||◌, Option, none, some, List, [], ◌∷◌, ◌++◌, leb, ◌==◌, any,
  select, sum_by, length, member, if◌then◌else◌,
}
use dyro_engineering_flow.Prelude.Sort.{sort_by}
use dyro_engineering_flow.Journal.Model.{
  ActionKind, execute_task, review_task, merge_task, is_mutating,
}
use dyro_engineering_flow.Planner.Model.{
  in_progress, assigned, same_state, Task, SchedulerTaskSnapshot, SchedulerSnapshot, find_task,
  Fact, resource_class, selected_subject_id, max_parallel_is, active_parallel_is,
  available_parallel_is, PlannedAction, ContinuationPlan, kind_rank, action_le,
}

-- A resource name, by its class and its value, in the order of the texts: `agent:`, `conflict:`,
-- `line:` and `task:`.
pub data Resource : Type 0 where
  agent_of conflict_of line_of task_of : ℕ → Resource

-- `_resource_class`
abbrev pub class_of : Resource → ℕ
class_of (agent_of _) = 0
class_of (conflict_of _) = 1
class_of (line_of _) = 2
class_of (task_of _) = 3

abbrev pub value_of : Resource → ℕ
value_of (agent_of v) = v
value_of (conflict_of v) = v
value_of (line_of v) = v
value_of (task_of v) = v

abbrev pub same_resource : Resource → Resource → Bool
same_resource a b = class_of a == class_of b && value_of a == value_of b

pub data TickError : Type 0 where
  objective_mismatch snapshot_mismatch bad_parallel repeated_action unknown_subject tick_invalid :
      TickError

pub data TickResult (A : Type 0) : Type 0 where
  ok : A → TickResult A
  err : TickError → TickResult A

-- `_action_resources`, sorted; a mutation is an execution, a review or a merge.
abbrev pub claims_of : ActionKind → Task → List Resource
claims_of execute_task t =
    if t.conflict_group == 0
    then agent_of t.executor ∷ task_of t.id ∷ []
    else agent_of t.executor ∷ conflict_of t.conflict_group ∷ task_of t.id ∷ []
claims_of review_task t = agent_of t.reviewer ∷ task_of t.id ∷ []
claims_of merge_task t = line_of t.line ∷ task_of t.id ∷ []
claims_of _ t = []

unfoldable pub action_resources : SchedulerSnapshot → PlannedAction → TickResult (List Resource)
action_resources snapshot action = elim (find_task action.subject_id snapshot.tasks) [
  | none ↦ err unknown_subject
  | some item ↦ ok (claims_of action.kind item.task)
]

-- `_active_parallel`
abbrev pub occupies : List ℕ → SchedulerTaskSnapshot → Bool
occupies scope item =
    member item.task.id scope
    && (same_state item.status in_progress
        || (same_state item.status assigned && item.external_claim_active))

unfoldable pub active_parallel : SchedulerSnapshot → ℕ
active_parallel s = sum_by (λ item. if occupies s.objective_scope item then 1 else 0) s.tasks

pub data WaveDeferralReason : Type 0 where
  resource_conflict parallel_capacity : WaveDeferralReason

pub record WaveDeferral : Type 0 where
  pub action : PlannedAction
  pub reason : WaveDeferralReason
  pub facts : List Fact

-- What the loop carries: `resources` with the subject that claimed each, and the three lists.
pub record Selection : Type 0 where
  pub resources : List (Resource × ℕ)
  pub wave : List PlannedAction
  pub deferred : List WaveDeferral
  pub passive : List PlannedAction

abbrev pub empty_selection : Selection
empty_selection = record { resources = []; wave = []; deferred = []; passive = [] }

-- `resources.get(claim)`: the entry that was written last.
abbrev pub holder : List (Resource × ℕ) → Resource → Option ℕ
holder [] claim = none
holder ((r, subject) ∷ rest) claim =
    let other = holder rest claim in if same_resource r claim then some subject else other

-- The first claim that is taken, with the subject that took it.
abbrev pub collision : List (Resource × ℕ) → List Resource → Option (Resource × ℕ)
collision taken [] = none
collision taken (claim ∷ claims) =
    let rest = collision taken claims in
    elim (holder taken claim) [ some subject ↦ some (claim, subject) | none ↦ rest ]

abbrev pub claim_all : ℕ → List Resource → List (Resource × ℕ) → List (Resource × ℕ)
claim_all subject [] taken = taken
claim_all subject (claim ∷ claims) taken = claim_all subject claims ((claim, subject) ∷ taken)

abbrev pub conflict_deferral : PlannedAction → Resource → ℕ → WaveDeferral
conflict_deferral action claim subject = record {
  action = action;
  reason = resource_conflict;
  facts = resource_class (class_of claim) ∷ selected_subject_id subject ∷ [];
}

abbrev pub capacity_deferral : (limit active available : ℕ) → PlannedAction → WaveDeferral
capacity_deferral limit active available action = record {
  action = action;
  reason = parallel_capacity;
  facts = active_parallel_is active ∷ available_parallel_is available ∷ max_parallel_is limit ∷ [];
}

abbrev pub defer_one : WaveDeferral → Selection → Selection
defer_one d s = record s { deferred = s.deferred ++ d ∷ [] }

abbrev pub join_one : PlannedAction → List Resource → Selection → Selection
join_one action claims s = record s {
  wave = s.wave ++ action ∷ [];
  resources = claim_all action.subject_id claims s.resources;
}

-- One mutation, for the collision of its claims and the capacity.
abbrev pub place :
    (limit active available : ℕ)
    → PlannedAction
    → List Resource
    → Selection
    → Option (Resource × ℕ)
    → Selection
place limit active available action claims s (some (claim, subject)) =
    defer_one (conflict_deferral action claim subject) s
place limit active available action claims s none =
    if leb available (length s.wave)
    then defer_one (capacity_deferral limit active available action) s
    else join_one action claims s

-- The body of the loop of `build_scheduler_tick`.
unfoldable pub select_one :
    SchedulerSnapshot
    → (limit active available : ℕ) → PlannedAction
    → Selection
    → TickResult Selection
unfolding action_resources
select_one snapshot limit active available action s =
    if is_mutating action.kind
    then elim (action_resources snapshot action) [
      | err e ↦ err e
      | ok claims ↦ ok (place limit active available action claims s (collision s.resources claims))
    ]
    else ok (record s { passive = s.passive ++ action ∷ [] })

unfoldable pub select_wave :
    SchedulerSnapshot
    → (limit active available : ℕ) → List PlannedAction
    → Selection
    → TickResult Selection
unfolding select_one
select_wave snapshot limit active available [] s = ok s
select_wave snapshot limit active available (action ∷ actions) s =
    elim (select_one snapshot limit active available action s) [
      | err e ↦ err e
      | ok s' ↦ select_wave snapshot limit active available actions s'
    ]

-- The keys of two mutations are the same.
abbrev pub same_key : PlannedAction → PlannedAction → Bool
same_key a b = kind_rank a.kind == kind_rank b.kind && a.subject_id == b.subject_id

-- `len(set(mutation_keys)) != len(mutation_keys)`
abbrev pub repeats : List PlannedAction → Bool
repeats [] = false
repeats (a ∷ rest) = any (same_key a) rest || repeats rest

pub record SchedulerTick : Type 0 where
  pub objective_id : ℕ
  pub snapshot_sha256 : ℕ
  pub plan_sha256 : ℕ
  pub max_parallel : ℕ
  pub active_parallel : ℕ
  pub available_parallel : ℕ
  pub wave : List PlannedAction
  pub deferred : List WaveDeferral
  pub non_mutating_actions : List PlannedAction

abbrev pub tick_of :
    SchedulerSnapshot → ContinuationPlan → (limit active : ℕ) → Selection → SchedulerTick
tick_of snapshot plan limit active s = record {
  objective_id = plan.objective_id;
  snapshot_sha256 = plan.snapshot_sha256;
  plan_sha256 = plan.plan_sha256;
  max_parallel = limit;
  active_parallel = active;
  available_parallel = limit - active;
  wave = s.wave;
  deferred = s.deferred;
  non_mutating_actions = s.passive;
}

-- The checks of `SchedulerTick.__post_init__` on what the tick takes over from the plan.
abbrev pub identified : (ℕ → Bool) → ContinuationPlan → Bool
identified is_digest plan =
    not (plan.objective_id == 0) && is_digest plan.snapshot_sha256 && is_digest plan.plan_sha256

abbrev pub select_from :
    (ℕ → Bool)
    → SchedulerSnapshot
    → ContinuationPlan
    → (limit active : ℕ) → List PlannedAction
    → TickResult SchedulerTick
select_from is_digest snapshot plan limit active selected =
    elim (select_wave snapshot limit active (limit - active) selected empty_selection) [
      | err e ↦ err e
      | ok s ↦
          if identified is_digest plan
          then ok (tick_of snapshot plan limit active s)
          else err tick_invalid
    ]

-- `build_scheduler_tick`; `is_digest` tells the texts of 64 lowercase hexadecimal digits.
unfoldable pub build_scheduler_tick :
    (ℕ → Bool) → SchedulerSnapshot → ContinuationPlan → ℕ → TickResult SchedulerTick
unfolding select_wave active_parallel
build_scheduler_tick is_digest snapshot plan limit =
    if plan.objective_id == snapshot.objective_id
    then (if plan.snapshot_sha256 == snapshot.snapshot_sha256
        then (if leb 1 limit
            then (if repeats
                  (select (λ a. is_mutating a.kind) (sort_by action_le plan.selected_actions))
                then err repeated_action
                else select_from is_digest snapshot plan limit (active_parallel snapshot)
                    (sort_by action_le plan.selected_actions))
            else err bad_parallel)
        else err snapshot_mismatch)
    else err objective_mismatch
