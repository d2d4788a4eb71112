-- ===== src/PeerWave/Bindings.antt =====
-- The decision that `bind_wave_executors` of src/dyro/peer_wave.py answers.
use dyro_engineering_flow.Prelude.{
  ℕ, ◌+◌, ◌≤◌, ◌≡◌, refl, subst, Bool, true, false, not, ◌&&◌, Option, none, some, List, [], ◌∷◌,
  arith, leb, ◌==◌, All, select, member, sum_by, sum_by-append, Bool-cases, inl, inr, min, max,
  if◌then◌else◌,
}
use dyro_engineering_flow.Planner.Model.{Task}
use dyro_engineering_flow.PeerWave.Bind.{
  BlockReason, cursor_write, no_execute, no_idle_harness, backend_full, Source, from_auto,
  from_task, from_profile, Binding, no_binding, bind_to, defer_task, take_idle, write_allowed,
  auto_pool, bind_auto, bind_one, bind_all, HarnessDecision, bind_wave_executors,
  recommended_max_parallel,
}
use dyro_engineering_flow.PeerWave.Capacity.{
  used, IsAllowed, is_write_ready, IsBound, bind_all-IsBound,
}

module _ (auto cursor : ℕ) (write_ids : List ℕ) (forbids_execute : ℕ → Bool) where
  module _ (f : ℕ → ℕ) (ready : List ℕ) (cap : ℕ) where
    -- How often the tasks of the state count.
    abbrev seen : Binding → ℕ
    seen s = sum_by (λ b. f b.task_id) s.bindings + sum_by (λ d. f d.task.id) s.deferred

    seen-bind_to :
        (t : Task) (e : ℕ) (pinned : Bool) (source : Source) (s : Binding)
        → seen (bind_to t e pinned source s) ≡ f t.id + seen s
    seen-bind_to t e pinned source s = omega (
      arith,
      sum_by-append (λ b. f b.task_id) s.bindings
          (record { task_id = t.id; executor = e; pinned = pinned; source = source } ∷ []),
    )

    seen-defer_task :
        (t : Task) (r : BlockReason) (s : Binding) → seen (defer_task t r s) ≡ f t.id + seen s
    seen-defer_task t r s =
        omega (
          arith,
          sum_by-append (λ d. f d.task.id) s.deferred (record { task = t; reason = r } ∷ []),
        )

    seen-bind_auto :
        (t : Task) (o : Option ℕ) (s : Binding)
        → seen (bind_auto auto cursor write_ids forbids_execute t o s) ≡ f t.id + seen s
    seen-bind_auto t none s = seen-defer_task t no_idle_harness s
    seen-bind_auto t (some e) s = seen-bind_to t e false from_auto s

    seen-bind_one :
        (t : Task) (s : Binding)
        → seen (bind_one auto cursor write_ids forbids_execute ready cap t s) ≡ f t.id + seen s
    unfolding bind_one
    seen-bind_one t s =
        by (write_allowed auto cursor write_ids forbids_execute t)
          (t.is_write && forbids_execute t.executor) (t.executor == auto)
          (member t.executor write_ids && member t.executor ready) (leb cap (s.counts t.executor))
      where
        by :
            (a b c d e : Bool)
            → seen (
                if a
                then (if b
                    then defer_task t no_execute s
                    else (if c
                        then bind_auto auto cursor write_ids forbids_execute t
                            (take_idle
                              (auto_pool auto cursor write_ids forbids_execute ready)
                              s.counts
                              cap)
                            s
                        else (if d
                            then (if e
                                then defer_task t backend_full s
                                else bind_to t t.executor true from_task s)
                            else bind_to t t.executor true from_profile s)))
                else defer_task t cursor_write s)
              ≡ f t.id + seen s
        by false b c d e = seen-defer_task t cursor_write s
        by true true c d e = seen-defer_task t no_execute s
        by true false true d e = seen-bind_auto t _ s
        by true false false true true = seen-defer_task t backend_full s
        by true false false true false = seen-bind_to t t.executor true from_task s
        by true false false false e = seen-bind_to t t.executor true from_profile s

    seen-bind_all :
        (ts : List Task) (s : Binding)
        → seen (bind_all auto cursor write_ids forbids_execute ready cap ts s)
          ≡ sum_by (λ t. f t.id) ts + seen s
    unfolding bind_all
    seen-bind_all [] s = omega arith
    seen-bind_all (t ∷ ts) s = omega (arith, seen-bind_one t s, seen-bind_all ts _)

  empty-IsBound :
      (ready : List ℕ) (cap : ℕ)
      → IsBound auto cursor write_ids forbids_execute ready cap no_binding
  empty-IsBound ready cap = record {
    counted = λ e. refl;
    capped = λ e w. omega arith;
    allowed = tt;
  }

  -- The providers that are named.
  abbrev pub named : List ℕ → List ℕ
  named ready_write = select (λ p. not (p == 0)) ready_write

  module _ (tasks : List Task) (ready_write : List ℕ) (cap : ℕ) {d : HarnessDecision} where
    bind-from :
        bind_wave_executors auto cursor write_ids forbids_execute tasks ready_write cap ≡ some d
        → ((bind_all auto cursor write_ids forbids_execute
              (named ready_write)
              cap
              tasks
              no_binding).bindings
            ≡ d.bindings)
          × ((bind_all auto cursor write_ids forbids_execute
                (named ready_write)
                cap
                tasks
                no_binding).deferred
              ≡ d.deferred)
    unfolding bind_wave_executors
    bind-from h = ground arith

    -- In an answered decision no ready harness for write has more than `max_per_backend` tasks, a
    -- harness that was chosen for `auto` is ready, is not Cursor and may execute, and every task is
    -- either bound or deferred, once: every measure of task identifiers adds up.
    pub bind_wave_executors-IsSafe :
        (f : ℕ → ℕ)
        → bind_wave_executors auto cursor write_ids forbids_execute tasks ready_write cap ≡ some d
        → ((e : ℕ)
            → is_write_ready auto cursor write_ids forbids_execute (named ready_write) cap e ≡ true
            → used e d.bindings ≤ cap)
          × All (IsAllowed auto cursor write_ids forbids_execute (named ready_write) cap) d.bindings
          × (sum_by (λ b. f b.task_id) d.bindings + sum_by (λ x. f x.task.id) d.deferred
              ≡ sum_by (λ t. f t.id) tasks)
    bind_wave_executors-IsSafe f h =
        let (a, b) = bind-from h in
        let s =
          bind_all auto cursor write_ids forbids_execute (named ready_write) cap tasks no_binding in
        let i =
          bind_all-IsBound auto cursor write_ids forbids_execute (named ready_write) cap tasks
            no_binding (empty-IsBound (named ready_write) cap) in
        (
          λ e w. subst (λ bs. used e bs ≤ cap) a (omega (arith, i.counted e, i.capped e w)),
          subst (All (IsAllowed auto cursor write_ids forbids_execute (named ready_write) cap)) a
              i.allowed,
          subst
              (λ bs.
                sum_by (λ x. f x.task_id) bs + sum_by (λ x. f x.task.id) d.deferred
                ≡ sum_by (λ t. f t.id) tasks)
              a
              (subst
                (λ ds.
                  sum_by (λ x. f x.task_id) s.bindings + sum_by (λ x. f x.task.id) ds
                  ≡ sum_by (λ t. f t.id) tasks)
                b (omega (arith, seen-bind_all f (named ready_write) cap tasks no_binding))),
        )

-- The recommended number is at least 1 and at most the request, and at most the ready harnesses
-- where there are any; where there is none, it is the request; a positive request is answered.
pub recommended_max_parallel-bounds :
    (requested ready_count : ℕ)
    → 1 ≤ requested
    → (n : ℕ) × (recommended_max_parallel requested ready_count ≡ some n)
      × (1 ≤ n)
      × (n ≤ requested)
      × ((1 ≤ ready_count → n ≤ ready_count) × (ready_count ≤ 0 → n ≡ requested))
unfolding recommended_max_parallel
recommended_max_parallel-bounds requested ready_count h = elim (Bool-cases (leb ready_count 0)) [
  | inl e ↦ (requested, ground arith, h, omega arith, (λ k. ground arith, λ k. refl))
  | inr e ↦ (
    max 1 (min requested ready_count),
    ground arith,
    omega arith,
    omega arith,
    (λ k. omega arith, λ k. ground arith),
  )
]
