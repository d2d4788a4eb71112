-- ===== src/Tasks/Wave.antt =====
-- `select_task_wave` of src/dyro/tasks.py, on the ready tasks of a plan.
use dyro_engineering_flow.Prelude.{
  ℕ, max, Option, none, some, List, [], ◌∷◌, ◌++◌, leb, ◌==◌, length, if◌then◌else◌,
}
use dyro_engineering_flow.Planner.Model.{Task}

-- The texts of `ScheduleBlock.reason` here.
pub data Reason : Type 0 where
  group_reserved : (group task : ℕ) → Reason
  capacity_reached : ℕ → Reason

pub record ScheduleBlock : Type 0 where
  pub task : Task
  pub reason : Reason

-- What the loop carries; `reserved` holds the task that has a conflict group in this wave.
pub record ScheduleWave : Type 0 where
  pub tasks : List Task
  pub deferred : List ScheduleBlock
  pub reserved : List (ℕ × ℕ)

abbrev pub holder : ℕ → List (ℕ × ℕ) → Option ℕ
holder group [] = none
holder group ((g, id) ∷ rest) = if g == group then some id else holder group rest

abbrev pub reserve : Task → List (ℕ × ℕ) → List (ℕ × ℕ)
reserve t reserved = if t.conflict_group == 0 then reserved else (t.conflict_group, t.id) ∷ reserved

-- The task that holds the group of `t`, if it has one.
abbrev pub blocking : Task → List (ℕ × ℕ) → Option ℕ
blocking t reserved = if t.conflict_group == 0 then none else holder t.conflict_group reserved

abbrev pub defer : Task → Reason → ScheduleWave → ScheduleWave
defer t reason w = record w { deferred = w.deferred ++ record { task = t; reason = reason } ∷ [] }

-- The body of the loop.
unfoldable pub select_task : ℕ → Task → ScheduleWave → ScheduleWave
select_task capacity t w = elim (blocking t w.reserved) [
  | some id ↦ defer t (group_reserved t.conflict_group id) w
  | none ↦
      if leb capacity (length w.tasks)
      then defer t (capacity_reached capacity) w
      else record w { tasks = w.tasks ++ t ∷ []; reserved = reserve t w.reserved }
]

unfoldable pub select_all : ℕ → List Task → ScheduleWave → ScheduleWave
unfolding select_task
select_all capacity [] w = w
select_all capacity (t ∷ ts) w = select_all capacity ts (select_task capacity t w)

abbrev pub no_wave : ScheduleWave
no_wave = record { tasks = []; deferred = []; reserved = [] }

unfoldable pub select_task_wave : List Task → ℕ → ScheduleWave
unfolding select_all
select_task_wave ready limit = select_all (max 1 limit) ready no_wave
