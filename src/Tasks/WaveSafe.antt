-- ===== src/Tasks/WaveSafe.antt =====
-- The wave of `select_task_wave` in src/dyro/tasks.py: bounded, without conflicts, complete.
use dyro_engineering_flow.Prelude.{
  absurd_bool, ℕ, ◌+◌, ◌≤◌, ◌≡◌, refl, sym, subst, ◌∙◌, max, true, false, none, some, List, [], ◌∷◌,
  ◌++◌, arith, leb, ◌==◌, ==_iff, ==_refl, length, length-append, sum_by, sum_by-append, All, Any,
  Any-append, All-append, All-weaken, Pairwise, Pairwise-snoc, Option-cases, Bool-cases, ◌⊎◌, inl,
  inr,
}
use dyro_engineering_flow.Planner.Model.{Task}
use dyro_engineering_flow.Tasks.Wave.{
  Reason, group_reserved, capacity_reached, ScheduleBlock, ScheduleWave, holder, reserve, blocking,
  select_task, select_all, no_wave, select_task_wave,
}

-- Two tasks may run together: they have no common conflict group.
abbrev pub MayJoin : Task → Task → Type 0
MayJoin a b = ((a.conflict_group == 0) ≡ true) ⊎ ((a.conflict_group == b.conflict_group) ≡ false)

-- A task waits for a task of the wave in its conflict group, or the wave is full.
abbrev pub Says : ℕ → List Task → Task → Reason → Type 0
Says capacity tasks t (group_reserved group id) =
    (group ≡ t.conflict_group) × Any (λ x. (x.id ≡ id) × (x.conflict_group ≡ group)) tasks
Says capacity tasks t (capacity_reached n) = (n ≡ capacity) × (length tasks ≡ capacity)

abbrev pub Explained : ℕ → List Task → ScheduleBlock → Type 0
Explained capacity tasks b = Says capacity tasks b.task b.reason

abbrev Held : List (ℕ × ℕ) → Task → Type 0
Held reserved t =
    ((t.conflict_group == 0) ≡ true) ⊎ ((id : ℕ) × (holder t.conflict_group reserved ≡ some id))

module _ (capacity : ℕ) where
  record Inv (w : ScheduleWave) : Type 0 where
    bounded : length w.tasks ≤ capacity
    apart : Pairwise MayJoin w.tasks
    explained : All (Explained capacity w.tasks) w.deferred
    named :
        (g id : ℕ)
        → holder g w.reserved ≡ some id
        → Any (λ x. (x.id ≡ id) × (x.conflict_group ≡ g)) w.tasks
    held : All (Held w.reserved) w.tasks

  -- A reservation of the group of `t` blocks `t`.
  conflict :
      (t : Task) (reserved : List (ℕ × ℕ)) (g id : ℕ)
      → g ≡ t.conflict_group
      → (g == 0) ≡ false
      → holder g reserved ≡ some id
      → blocking t reserved ≡ none
      → ⊥
  conflict t reserved g id same z k b =
      let z' : (t.conflict_group == 0) ≡ false = subst (λ n. (n == 0) ≡ false) same z in
      let k' : holder t.conflict_group reserved ≡ some id =
        subst (λ n. holder n reserved ≡ some id) same k in
      let b' : holder t.conflict_group reserved ≡ none = rw z' at b in
      let never : some id ≡ none = sym k' ∙ b' in ground arith

  -- A task that no reservation blocks may join the wave.
  joins :
      (t : Task) (reserved : List (ℕ × ℕ)) (xs : List Task)
      → blocking t reserved ≡ none
      → All (Held reserved) xs
      → All (λ x. MayJoin x t) xs
  joins t reserved [] b h = tt
  joins t reserved (x ∷ xs) b (inl zero_group, hs) = (inl zero_group, joins t reserved xs b hs)
  joins t reserved (x ∷ xs) b (inr (id, k), hs) = (
    elim (Bool-cases (x.conflict_group == 0)) [
      | inl z ↦ inl z
      | inr z ↦ inr (elim (Bool-cases (x.conflict_group == t.conflict_group)) [
        | inr other ↦ other
        | inl same ↦ absurd (
            conflict t reserved x.conflict_group id
              ((==_iff x.conflict_group t.conflict_group).0 same) z k b)
      ])
    ],
    joins t reserved xs b hs,
  )

  Explained-snoc :
      (t : Task) (tasks : List Task) (ds : List ScheduleBlock)
      → leb capacity (length tasks) ≡ false
      → All (Explained capacity tasks) ds
      → All (Explained capacity (tasks ++ t ∷ [])) ds
  Explained-snoc t tasks [] h e = tt
  Explained-snoc t tasks (d ∷ ds) h (e, es) = (by d.reason e, Explained-snoc t tasks ds h es)
    where
      by : (r : Reason) → Says capacity tasks d.task r → Says capacity (tasks ++ t ∷ []) d.task r
      by (group_reserved group id) (a, b) = (a, Any-append _ tasks (t ∷ []) (inl b))
      by (capacity_reached n) (a, b) =
          absurd_bool (let full : leb capacity (length tasks) ≡ true = ground arith in sym full ∙ h)

  blocking-holder :
      (t : Task) (reserved : List (ℕ × ℕ)) {id : ℕ}
      → blocking t reserved ≡ some id
      → holder t.conflict_group reserved ≡ some id
  blocking-holder t reserved h = ground arith

  Held-reserve :
      (t x : Task) (reserved : List (ℕ × ℕ)) → Held reserved x → Held (reserve t reserved) x
  Held-reserve t x reserved (inl z) = inl z
  Held-reserve t x reserved (inr (id, k)) = elim (Bool-cases (t.conflict_group == 0)) [
    | inl z ↦ rw z (inr (id, k))
    | inr z ↦ elim (Bool-cases (t.conflict_group == x.conflict_group)) [
      | inl same ↦ rw z (inr (t.id, rw same refl))
      | inr other ↦ rw z (inr (id, rw other k))
    ]
  ]

  Held-self : (t : Task) (reserved : List (ℕ × ℕ)) → Held (reserve t reserved) t
  Held-self t reserved = elim (Bool-cases (t.conflict_group == 0)) [
    | inl z ↦ inl z
    | inr z ↦ rw z (inr (t.id, rw (==_refl t.conflict_group) refl))
  ]

  room-Inv :
      (t : Task) (w : ScheduleWave)
      → Inv w
      → blocking t w.reserved ≡ none
      → leb capacity (length w.tasks) ≡ false
      → Inv (record w { tasks = w.tasks ++ t ∷ []; reserved = reserve t w.reserved })
  room-Inv t w i b room =
      let longer = length-append w.tasks (t ∷ []) in
      record {
        bounded = ground arith;
        apart = Pairwise-snoc MayJoin w.tasks t i.apart (joins t w.reserved w.tasks b i.held);
        explained = Explained-snoc t w.tasks w.deferred room i.explained;
        named = λ g id h. elim (Bool-cases (t.conflict_group == 0)) [
          | inl z ↦ Any-append _ w.tasks (t ∷ []) (inl (i.named g id (rw z at h)))
          | inr z ↦ elim (Bool-cases (t.conflict_group == g)) [
            | inl same ↦
                let mine : some t.id ≡ some id = rw (z, same) at h in
                Any-append _ w.tasks (t ∷ [])
                  (inr (inl (ground arith, (==_iff t.conflict_group g).0 same)))
            | inr other ↦ Any-append _ w.tasks (t ∷ []) (inl (i.named g id (rw (z, other) at h)))
          ]
        ];
        held =
            All-append (Held (reserve t w.reserved)) w.tasks (t ∷ [])
              (All-weaken (Held w.reserved) (Held (reserve t w.reserved)) w.tasks
                (λ x. Held-reserve t x w.reserved) i.held)
              (Held-self t w.reserved, tt);
      }

  select_task-Inv : (t : Task) (w : ScheduleWave) → Inv w → Inv (select_task capacity t w)
  unfolding select_task
  select_task-Inv t w i = elim (Option-cases (blocking t w.reserved)) [
    | inr (id, b) ↦
        rw (b, select_task)
          (record {
            bounded = i.bounded;
            apart = i.apart;
            explained =
                All-append (Explained capacity w.tasks) w.deferred _ i.explained
                  ((refl, i.named t.conflict_group id (blocking-holder t w.reserved b)), tt);
            named = i.named;
            held = i.held;
          })
    | inl b ↦ elim (Bool-cases (leb capacity (length w.tasks))) [
      | inl full ↦
          rw (b, full, select_task)
            (record {
              bounded = i.bounded;
              apart = i.apart;
              explained =
                  All-append (Explained capacity w.tasks) w.deferred _ i.explained
                    ((refl, let most = i.bounded in ground arith), tt);
              named = i.named;
              held = i.held;
            })
      | inr room ↦ rw (b, room, select_task) (room-Inv t w i b room)
    ]
  ]

  select_all-Inv : (ts : List Task) (w : ScheduleWave) → Inv w → Inv (select_all capacity ts w)
  unfolding select_all
  select_all-Inv [] w i = i
  select_all-Inv (t ∷ ts) w i = select_all-Inv ts (select_task capacity t w) (select_task-Inv t w i)

  -- The sum over the wave and what waits.
  abbrev total : (Task → ℕ) → ScheduleWave → ℕ
  total f w = sum_by f w.tasks + sum_by (λ d. f d.task) w.deferred

  total-select_task :
      (f : Task → ℕ) (t : Task) (w : ScheduleWave)
      → total f (select_task capacity t w) ≡ f t + total f w
  unfolding select_task
  total-select_task f t w = elim (Option-cases (blocking t w.reserved)) [
    | inr (id, b) ↦
        rw (b, select_task)
          (omega (
            arith,
            sum_by-append (λ d. f d.task) w.deferred
                (record { task = t; reason = group_reserved t.conflict_group id } ∷ []),
          ))
    | inl b ↦ elim (Bool-cases (leb capacity (length w.tasks))) [
      | inl full ↦
          rw (b, full, select_task)
            (omega (
              arith,
              sum_by-append (λ d. f d.task) w.deferred
                  (record { task = t; reason = capacity_reached capacity } ∷ []),
            ))
      | inr room ↦ rw (b, room, select_task) (omega (arith, sum_by-append f w.tasks (t ∷ [])))
    ]
  ]

  total-select_all :
      (f : Task → ℕ) (ts : List Task) (w : ScheduleWave)
      → total f (select_all capacity ts w) ≡ sum_by f ts + total f w
  unfolding select_all
  total-select_all f [] w = omega arith
  total-select_all f (t ∷ ts) w =
      omega (arith, total-select_all f ts (select_task capacity t w), total-select_task f t w)

-- A wave has at most the capacity of tasks, no two of them in one conflict group; every task that
-- waits does so for a task of the wave in its group or because the wave is full; and the wave and what
-- waits are together the ready tasks, each as often.
pub select_task_wave-IsSafe :
    (ready : List Task) (limit : ℕ) (f : Task → ℕ)
    → (length (select_task_wave ready limit).tasks ≤ max 1 limit)
      × Pairwise MayJoin (select_task_wave ready limit).tasks
      × All
          (Explained (max 1 limit) (select_task_wave ready limit).tasks)
          (select_task_wave ready limit).deferred
      × (sum_by f (select_task_wave ready limit).tasks
            + sum_by (λ d. f d.task) (select_task_wave ready limit).deferred
          ≡ sum_by f ready)
unfolding select_task_wave
select_task_wave-IsSafe ready limit f =
    let i = select_all-Inv (max 1 limit) ready no_wave (record {
      bounded = omega arith;
      apart = tt;
      explained = tt;
      named = λ g id h. ground arith;
      held = tt;
    }) in
    (i.bounded, i.apart, i.explained, omega (arith, total-select_all (max 1 limit) f ready no_wave))
