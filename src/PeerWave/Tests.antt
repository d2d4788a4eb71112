-- ===== src/PeerWave/Tests.antt =====
-- The bindings of three tasks, with one harness that writes and holds one task.
use dyro_engineering_flow.Prelude.{
  ℕ, ◌+◌, ◌≤◌, ◌≡◌, refl, Bool, true, false, some, List, [], ◌∷◌, arith, All, sum_by,
}
use dyro_engineering_flow.Planner.Model.{Task}
use dyro_engineering_flow.PeerWave.Bind.{
  backend_full, from_auto, from_profile, HarnessDecision, bind_wave_executors,
  recommended_max_parallel,
}
use dyro_engineering_flow.PeerWave.Capacity.{used, IsAllowed, is_write_ready}
use dyro_engineering_flow.PeerWave.Bindings.{
  named, bind_wave_executors-IsSafe, recommended_max_parallel-bounds,
}

abbrev task_by : ℕ → ℕ → Task
task_by id executor = record {
  id = id;
  line = 5;
  is_write = true;
  executor = executor;
  reviewer = 31;
  depends_on = [];
  blocked_on = [];
  conflict_group = 8;
}

-- `auto` is 1, Cursor is 2, and 30 writes.
abbrev tasks : List Task
tasks = task_by 10 1 ∷ task_by 11 30 ∷ task_by 12 40 ∷ []

abbrev forbids : ℕ → Bool
forbids e = false

abbrev decision : HarnessDecision
decision = record {
  bindings =
      record { task_id = 10; executor = 30; pinned = false; source = from_auto }
      ∷ record { task_id = 12; executor = 40; pinned = true; source = from_profile }
      ∷ [];
  deferred = record { task = task_by 11 30; reason = backend_full } ∷ [];
  warnings = [];
}

answered : bind_wave_executors 1 2 (30 ∷ []) forbids tasks (2 ∷ 30 ∷ []) 1 ≡ some decision
unfolding bind_wave_executors
answered = refl

bind_wave_executors-IsSafe_example :
    ((e : ℕ)
      → is_write_ready 1 2 (30 ∷ []) forbids (named 1 2 (30 ∷ []) forbids (2 ∷ 30 ∷ [])) 1 e ≡ true
      → used e decision.bindings ≤ 1)
    × All
        (IsAllowed 1 2 (30 ∷ []) forbids (named 1 2 (30 ∷ []) forbids (2 ∷ 30 ∷ [])) 1)
        decision.bindings
    × (sum_by (λ b. b.task_id) decision.bindings + sum_by (λ x. x.task.id) decision.deferred
        ≡ sum_by (λ t. t.id) tasks)
bind_wave_executors-IsSafe_example =
    bind_wave_executors-IsSafe 1 2 (30 ∷ []) forbids tasks (2 ∷ 30 ∷ []) 1 (λ id. id) answered

recommended_max_parallel-bounds_example :
    (n : ℕ) × (recommended_max_parallel 4 2 ≡ some n)
    × (1 ≤ n)
    × (n ≤ 4)
    × ((1 ≤ 2 → n ≤ 2) × (2 ≤ 0 → n ≡ 4))
recommended_max_parallel-bounds_example = recommended_max_parallel-bounds 4 2 (omega arith)
