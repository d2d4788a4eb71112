-- ===== src/Planner/Candidates.antt =====
-- The lists that `build_task_readiness` of src/dyro/continuation/planner.py answers.
use dyro_engineering_flow.Planner.Listed.{
  ok_injective, find_task-id, classify_all-split, repeats-occurs, All-member, classify_all-All,
  classify_all-occurs,
}
use dyro_engineering_flow.Prelude.{
  false, ◌≤◌, sum_by, if◌then◌else◌, some_injective, ℕ, ◌≡◌, refl, sym, ap, subst, ◌∙◌, true, inl,
  inr, some, List, [], ◌∷◌, arith, All, any, member, leb, ◌==◌, ==_iff, Bool-cases,
}
use dyro_engineering_flow.Prelude.Sort.{sum_by-sort_by, sort_by, any-sort_by, All-sort_by}
use dyro_engineering_flow.Planner.Model.{Task, SchedulerTaskSnapshot, SchedulerSnapshot, find_task}
use dyro_engineering_flow.Planner.Readiness.{
  repeats, ok, ready, to_review, blocked, skipped, Verdict, classify, TaskReadiness, add_verdict,
  sort_readiness, classify_all, build_task_readiness,
}
use dyro_engineering_flow.Planner.Ready.{IsReady, classify-iff-IsReady, classify-Searched}

-- The task stands in the snapshot and may run.
abbrev pub MayRun : SchedulerSnapshot → Task → Type 0
MayRun s t =
    (item : SchedulerTaskSnapshot) × (find_task t.id s.tasks ≡ some item)
    × (item.task ≡ t)
    × IsReady s item

add_verdict-MayRun :
    (s : SchedulerSnapshot) (id : ℕ) (item : SchedulerTaskSnapshot) (v : Verdict)
    (r : TaskReadiness)
    → find_task id s.tasks ≡ some item
    → classify s item ≡ ok v
    → All (MayRun s) r.ready_tasks
    → All (MayRun s) (add_verdict v r).ready_tasks
add_verdict-MayRun s id item (ready t) r known h hs =
    let same = (classify-Searched s item h).1 in
    let named = find_task-id id s.tasks item known in
    let self : classify s item ≡ ok (ready item.task) =
      subst (λ x. classify s item ≡ ok (ready x)) (sym same) h in
    let at : find_task t.id s.tasks ≡ some item =
      subst (λ k. find_task k s.tasks ≡ some item) (sym named ∙ ap (λ x. x.id) same) known in
    ((item, at, same, (classify-iff-IsReady s item).0 self), hs)
add_verdict-MayRun s id item (to_review t) r known h hs = hs
add_verdict-MayRun s id item (blocked a) r known h hs = hs
add_verdict-MayRun s id item skipped r known h hs = hs

classify_all-MayRun :
    (s : SchedulerSnapshot) (ids : List ℕ) (r : TaskReadiness)
    → classify_all s ids ≡ ok r
    → All (MayRun s) r.ready_tasks
unfolding classify_all
classify_all-MayRun s [] r h = subst (λ x. All (MayRun s) x.ready_tasks) (ok_injective h) tt
classify_all-MayRun s (id ∷ ids) r h =
    let (item, v, r', known, verdict, rest, same) = classify_all-split s id ids h in
    subst (λ x. All (MayRun s) x.ready_tasks) same
      (add_verdict-MayRun s id item v r' known verdict (classify_all-MayRun s ids r' rest))

-- A candidate that is ready is among the ready tasks.
add_verdict-keeps :
    (v : Verdict) (r : TaskReadiness) (id : ℕ)
    → any (λ t. t.id == id) r.ready_tasks ≡ true
    → any (λ t. t.id == id) (add_verdict v r).ready_tasks ≡ true
add_verdict-keeps (ready t) r id h = ground arith
add_verdict-keeps (to_review t) r id h = h
add_verdict-keeps (blocked a) r id h = h
add_verdict-keeps skipped r id h = h

finds_here :
    (s : SchedulerSnapshot) (id : ℕ) (item : SchedulerTaskSnapshot) (v : Verdict)
    (r : TaskReadiness)
    → classify s item ≡ ok v
    → find_task id s.tasks ≡ some item
    → IsReady s item
    → any (λ t. t.id == id) (add_verdict v r).ready_tasks ≡ true
finds_here s id item v r h known i =
    let is_ready : ready item.task ≡ v =
      ok_injective (sym ((classify-iff-IsReady s item).1 i) ∙ h) in
    let named : (item.task.id == id) ≡ true = (==_iff _ _).1 (find_task-id id s.tasks item known) in
    subst (λ x. any (λ t. t.id == id) (add_verdict x r).ready_tasks ≡ true) is_ready (rw named refl)

classify_all-finds :
    (s : SchedulerSnapshot) (ids : List ℕ) (r : TaskReadiness) (id : ℕ)
    (item : SchedulerTaskSnapshot)
    → classify_all s ids ≡ ok r
    → member id ids ≡ true
    → find_task id s.tasks ≡ some item
    → IsReady s item
    → any (λ t. t.id == id) r.ready_tasks ≡ true
classify_all-finds s [] r id item h m known i = ground arith
classify_all-finds s (k ∷ ks) r id item h m known i =
    let (item', v, r', known', verdict, rest, same) = classify_all-split s k ks h in
    subst (λ x. any (λ t. t.id == id) x.ready_tasks ≡ true) same
      (elim (Bool-cases (k == id)) [
        | inr e ↦
            add_verdict-keeps v r' id
              (classify_all-finds s ks r' id item rest (ground arith) known i)
        | inl e ↦
            let here : k ≡ id = (==_iff k id).0 e in
            finds_here s id item v r'
              (subst (λ x. classify s x ≡ ok v) (some_injective (sym known' ∙ rw here known))
                verdict)
              known i
      ])

-- Each task is one of the candidates, and it is listed once.
abbrev pub IsListed : List ℕ → List Task → Type 0
IsListed candidates ts =
    All (λ t. member t.id candidates ≡ true) ts
    × ((id : ℕ) → sum_by (λ t. if t.id == id then 1 else 0) ts ≤ 1)

module _ (s : SchedulerSnapshot) (candidates : List ℕ) {r : TaskReadiness} where
  build-from :
      build_task_readiness s candidates ≡ ok r
      → (r' : TaskReadiness) × (classify_all s (sort_by leb candidates) ≡ ok r')
        × (sort_readiness r' ≡ r)
  unfolding build_task_readiness
  build-from h = ground arith

  build-once : build_task_readiness s candidates ≡ ok r → repeats (sort_by leb candidates) ≡ false
  unfolding build_task_readiness
  build-once h = ground arith

  build-IsListed : build_task_readiness s candidates ≡ ok r → IsListed candidates r.ready_tasks
  build-IsListed h =
      let (r', run, same) = build-from h in
      let le = λ (a b : Task). leb a.id b.id in
      let ids = sort_by leb candidates in
      subst (λ x. IsListed candidates x.ready_tasks) same
        (
          All-sort_by le (λ t. member t.id candidates ≡ true) r'.ready_tasks
              (classify_all-All s (λ k. member k candidates ≡ true) ids r' run
                (All-sort_by leb (λ k. member k candidates ≡ true) candidates
                  (All-member candidates))),
          λ id. omega (
            arith,
            sum_by-sort_by le (λ t. if t.id == id then 1 else 0) r'.ready_tasks,
            classify_all-occurs s id ids r' run,
            repeats-occurs ids (build-once h) id,
          ),
        )

  -- The ready tasks of an answer are exactly those candidates that may run, each listed once: each
  -- one stands in the snapshot, waits to run, is claimed by nobody outside, has its decisions
  -- resolved, its dependencies done and integrated, and no other task of its conflict group at
  -- work; and each candidate of which this holds is among them.
  pub build_task_readiness-IsReady :
      build_task_readiness s candidates ≡ ok r
      → All (MayRun s) r.ready_tasks
        × IsListed candidates r.ready_tasks
        × ((id : ℕ) (item : SchedulerTaskSnapshot)
            → member id candidates ≡ true
            → find_task id s.tasks ≡ some item
            → IsReady s item
            → any (λ t. t.id == id) r.ready_tasks ≡ true)
  build_task_readiness-IsReady h =
      let (r', run, same) = build-from h in
      let le = λ (a b : Task). leb a.id b.id in
      let ids = sort_by leb candidates in
      (
        subst (λ x. All (MayRun s) x.ready_tasks) same
            (All-sort_by le (MayRun s) r'.ready_tasks (classify_all-MayRun s ids r' run)),
        build-IsListed h,
        λ id item m known i.
            subst (λ x. any (λ t. t.id == id) x.ready_tasks ≡ true) same
              (any-sort_by le (λ t. t.id == id) r'.ready_tasks
                ∙ classify_all-finds s ids r' id item run
                    (any-sort_by leb (λ x. x == id) candidates ∙ m) known i),
      )
