-- ===== src/PeerWave/Bind.antt =====
-- `bind_wave_executors` of src/dyro/peer_wave.py with its helpers, `apply_harness_bindings` and
-- `recommended_max_parallel`. The write-capable providers (`write_capable_dispatch_ids`), the
-- executors whose capability card forbids execution (`card_forbids_execute`), the names
-- `auto` and `cursor-agent` are parameters.
use dyro_engineering_flow.Prelude.{
  ℕ, ◌+◌, min, max, Bool, true, false, not, ◌&&◌, Option, none, some, List, [], ◌∷◌, ◌++◌, ltb, leb,
  ◌==◌, select, map, member, length, if◌then◌else◌,
}
use dyro_engineering_flow.Planner.Model.{Task}

-- `recommended_max_parallel`; no answer where the request is refused
unfoldable pub recommended_max_parallel : (requested ready_count : ℕ) → Option ℕ
recommended_max_parallel requested ready_count =
    if leb 1 requested
    then (if leb ready_count 0 then some requested else some (max 1 (min requested ready_count)))
    else none

-- `ExecutorBinding.source`
pub data Source : Type 0 where
  from_auto from_task from_profile : Source

pub record ExecutorBinding : Type 0 where
  pub task_id : ℕ
  pub executor : ℕ
  pub pinned : Bool
  pub source : Source

-- The texts of `ScheduleBlock.reason` here; `other_block` is one of the wave before.
pub data BlockReason : Type 0 where
  cursor_write no_execute no_idle_harness backend_full other_block : BlockReason

pub record ScheduleBlock : Type 0 where
  pub task : Task
  pub reason : BlockReason

-- `empty_conflict_group_warnings`: the tasks that the one warning names.
unfoldable pub empty_conflict_group_warnings : List Task → ℕ → List ℕ
empty_conflict_group_warnings tasks max_parallel =
    if leb max_parallel 1 then [] else map (λ t. t.id) (select (λ t. t.conflict_group == 0) tasks)

pub record HarnessDecision : Type 0 where
  pub bindings : List ExecutorBinding
  pub deferred : List ScheduleBlock
  pub warnings : List ℕ

abbrev pub bound_tasks : HarnessDecision → List ℕ
bound_tasks d = map (λ b. b.task_id) d.bindings

-- `HarnessDecision.executor_for`
abbrev pub executor_in : ℕ → List ExecutorBinding → Option ℕ
executor_in id [] = none
executor_in id (b ∷ bs) =
    let rest = executor_in id bs in if b.task_id == id then some b.executor else rest

-- What the loop carries. `counts` is a function: a missing key counts 0.
pub record Binding : Type 0 where
  pub counts : ℕ → ℕ
  pub bindings : List ExecutorBinding
  pub deferred : List ScheduleBlock

abbrev pub no_binding : Binding
no_binding = record { counts = λ _. 0; bindings = []; deferred = [] }

-- `counts[executor] = counts.get(executor, 0) + 1`
abbrev pub count_one : ℕ → (ℕ → ℕ) → ℕ → ℕ
count_one executor counts e = if e == executor then counts e + 1 else counts e

abbrev pub bind_to : Task → ℕ → Bool → Source → Binding → Binding
bind_to task executor pinned source s = record {
  counts = count_one executor s.counts;
  bindings =
      s.bindings
      ++ record { task_id = task.id; executor = executor; pinned = pinned; source = source } ∷ [];
  deferred = s.deferred;
}

abbrev pub defer_task : Task → BlockReason → Binding → Binding
defer_task task reason s = record s {
  deferred = s.deferred ++ record { task = task; reason = reason } ∷ [];
}

-- `_take_idle`
unfoldable pub take_idle : List ℕ → (ℕ → ℕ) → ℕ → Option ℕ
take_idle [] counts cap = none
take_idle (p ∷ ps) counts cap =
    let rest = take_idle ps counts cap in if ltb (counts p) cap then some p else rest

module _ (auto cursor : ℕ) (write_ids : List ℕ) (forbids_execute : ℕ → Bool) where
  -- `assert_write_executor_allowed`
  abbrev pub write_allowed : Task → Bool
  write_allowed t = not (t.is_write && t.executor == cursor)

  -- `auto_pool`
  abbrev pub auto_pool : List ℕ → List ℕ
  auto_pool ready = select (λ p. not (p == cursor) && not (forbids_execute p)) ready

  abbrev pub bind_auto : Task → Option ℕ → Binding → Binding
  bind_auto t none s = defer_task t no_idle_harness s
  bind_auto t (some chosen) s = bind_to t chosen false from_auto s

  -- The body of the loop, for the providers that are ready.
  unfoldable pub bind_one : List ℕ → ℕ → Task → Binding → Binding
  unfolding take_idle
  bind_one ready cap t s =
      if write_allowed t
      then (if t.is_write && forbids_execute t.executor
          then defer_task t no_execute s
          else (if t.executor == auto
              then bind_auto t (take_idle (auto_pool ready) s.counts cap) s
              else (if member t.executor write_ids && member t.executor ready
                  then (if leb cap (s.counts t.executor)
                      then defer_task t backend_full s
                      else bind_to t t.executor true from_task s)
                  else bind_to t t.executor true from_profile s)))
      else defer_task t cursor_write s

  unfoldable pub bind_all : List ℕ → ℕ → List Task → Binding → Binding
  unfolding bind_one
  bind_all ready cap [] s = s
  bind_all ready cap (t ∷ ts) s = bind_all ready cap ts (bind_one ready cap t s)

  -- `bind_wave_executors`; no answer where the cap is refused. An empty provider is no provider.
  unfoldable pub bind_wave_executors : List Task → List ℕ → ℕ → Option HarnessDecision
  unfolding bind_all empty_conflict_group_warnings
  bind_wave_executors tasks ready_write cap =
      let s = bind_all (select (λ p. not (p == 0)) ready_write) cap tasks no_binding in
      if leb 1 cap
      then some (record {
        bindings = s.bindings;
        deferred = s.deferred;
        warnings = empty_conflict_group_warnings tasks (max 1 (length tasks));
      })
      else none

  -- `apply_harness_bindings`, for the tasks and the deferred of a `ScheduleWave`
  unfoldable pub apply_harness_bindings :
      List Task → List ScheduleBlock → List ℕ → ℕ → Option (List Task × HarnessDecision)
  unfolding bind_wave_executors
  apply_harness_bindings tasks deferred ready_write cap =
      elim (bind_wave_executors tasks ready_write cap) [
        | none ↦ none
        | some d ↦ some (
          select (λ t. member t.id (bound_tasks d)) tasks,
          record d { deferred = deferred ++ d.deferred },
        )
      ]
