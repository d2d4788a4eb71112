-- ===== src/Planner/Listed.antt =====
-- Which tasks `build_task_readiness` of src/dyro/continuation/planner.py lists, and how often.
use dyro_engineering_flow.Prelude.{
  ℕ, ◌+◌, ◌≤◌, ◌≡◌, refl, sym, ap, subst, ◌∙◌, true, false, inl, inr, some, List, [], ◌∷◌, arith,
  All, All-weaken, member, ◌==◌, ==_iff, Bool-cases, sum_by, if◌then◌else◌,
}
use dyro_engineering_flow.Planner.Model.{Task, SchedulerTaskSnapshot, SchedulerSnapshot, find_task}
use dyro_engineering_flow.Planner.Readiness.{
  ok, err, PlanResult, ready, to_review, blocked, skipped, Verdict, classify, TaskReadiness,
  add_verdict, classify_all, repeats,
}
use dyro_engineering_flow.Planner.Ready.{classify-Searched}

pub ok_injective : {A : Type 0} {a b : A} → ok a ≡ ok b → a ≡ b
ok_injective {A} {a} h = ap value h
  where
    value : PlanResult A → A
    value (ok x) = x
    value (err _) = a

-- A task is found under its own identifier.
pub find_task-id :
    (k : ℕ) (items : List SchedulerTaskSnapshot) (item : SchedulerTaskSnapshot)
    → find_task k items ≡ some item
    → item.task.id ≡ k
unfolding find_task
find_task-id k [] item h = ground arith
find_task-id k (x ∷ xs) item h = let rest = find_task-id k xs item in ground arith

pub classify_all-split :
    (s : SchedulerSnapshot) (id : ℕ) (ids : List ℕ) {r : TaskReadiness}
    → classify_all s (id ∷ ids) ≡ ok r
    → (item : SchedulerTaskSnapshot) × (v : Verdict) × (r' : TaskReadiness) × (find_task id s.tasks
        ≡ some item)
      × (classify s item ≡ ok v)
      × (classify_all s ids ≡ ok r')
      × (add_verdict v r' ≡ r)
unfolding classify_all
classify_all-split s id ids h = ground arith

abbrev pub occurs : ℕ → List ℕ → ℕ
occurs id ids = sum_by (λ k. if k == id then 1 else 0) ids

occurs-absent : (id : ℕ) (ids : List ℕ) → member id ids ≡ false → occurs id ids ≡ 0
occurs-absent id [] h = refl
occurs-absent id (k ∷ ks) h = let rest = occurs-absent id ks in ground arith

pub repeats-occurs : (ids : List ℕ) → repeats ids ≡ false → (id : ℕ) → occurs id ids ≤ 1
repeats-occurs [] h id = omega arith
repeats-occurs (k ∷ ks) h id =
    let rest = repeats-occurs ks (ground arith) id in
    elim (Bool-cases (k == id)) [
      | inl e ↦
          let here = (==_iff k id).0 e in
          let none_left : occurs id ks ≡ 0 =
            occurs-absent id ks (subst (λ x. member x ks ≡ false) here (ground arith)) in
          rw e (omega (arith, none_left))
      | inr e ↦ rw e (omega (arith, rest))
    ]

pub All-member : (ids : List ℕ) → All (λ k. member k ids ≡ true) ids
All-member [] = tt
All-member (k ∷ ks) = (
  ground arith,
  All-weaken (λ x. member x ks ≡ true) (λ x. member x (k ∷ ks) ≡ true) ks (λ x h. ground arith)
      (All-member ks),
)

module _ (s : SchedulerSnapshot) where
  -- A task that is ready has the candidate's identifier.
  ready-id :
      (id : ℕ) (item : SchedulerTaskSnapshot) (t : Task)
      → find_task id s.tasks ≡ some item
      → classify s item ≡ ok (ready t)
      → t.id ≡ id
  ready-id id item t known h =
      ap (λ x. x.id) (sym (classify-Searched s item h).1) ∙ find_task-id id s.tasks item known

  module _ {κ} (P : ℕ → Type κ) where
    add_verdict-All :
        (id : ℕ) (item : SchedulerTaskSnapshot) (v : Verdict) (r : TaskReadiness)
        → find_task id s.tasks ≡ some item
        → classify s item ≡ ok v
        → P id
        → All (λ t. P t.id) r.ready_tasks
        → All (λ t. P t.id) (add_verdict v r).ready_tasks
    add_verdict-All id item (ready t) r known h p hs =
        (subst P (sym (ready-id id item t known h)) p, hs)
    add_verdict-All id item (to_review t) r known h p hs = hs
    add_verdict-All id item (blocked a) r known h p hs = hs
    add_verdict-All id item skipped r known h p hs = hs

    pub classify_all-All :
        (ids : List ℕ) (r : TaskReadiness)
        → classify_all s ids ≡ ok r
        → All P ids
        → All (λ t. P t.id) r.ready_tasks
    unfolding classify_all
    classify_all-All [] r h hs = subst (λ x. All (λ t. P t.id) x.ready_tasks) (ok_injective h) tt
    classify_all-All (id ∷ ids) r h (p, ps) =
        let (item, v, r', known, verdict, rest, same) = classify_all-split s id ids h in
        subst (λ x. All (λ t. P t.id) x.ready_tasks) same
          (add_verdict-All id item v r' known verdict p (classify_all-All ids r' rest ps))

  abbrev listed : ℕ → TaskReadiness → ℕ
  listed id r = sum_by (λ t. if t.id == id then 1 else 0) r.ready_tasks

  add_verdict-listed :
      (id k : ℕ) (item : SchedulerTaskSnapshot) (v : Verdict) (r : TaskReadiness)
      → find_task k s.tasks ≡ some item
      → classify s item ≡ ok v
      → listed id (add_verdict v r) ≤ (if k == id then 1 else 0) + listed id r
  add_verdict-listed id k item (ready t) r known h =
      let same = ready-id k item t known h in rw same (omega arith)
  add_verdict-listed id k item (to_review t) r known h = omega arith
  add_verdict-listed id k item (blocked a) r known h = omega arith
  add_verdict-listed id k item skipped r known h = omega arith

  -- A task is listed at most as often as it is a candidate.
  pub classify_all-occurs :
      (id : ℕ) (ids : List ℕ) (r : TaskReadiness)
      → classify_all s ids ≡ ok r
      → sum_by (λ t. if t.id == id then 1 else 0) r.ready_tasks ≤ occurs id ids
  unfolding classify_all
  classify_all-occurs id [] r h = subst (λ x. listed id x ≤ 0) (ok_injective h) (omega arith)
  classify_all-occurs id (k ∷ ks) r h =
      let (item, v, r', known, verdict, rest, same) = classify_all-split s k ks h in
      subst (λ x. listed id x ≤ occurs id (k ∷ ks)) same
        (omega (
          arith,
          add_verdict-listed id k item v r' known verdict,
          classify_all-occurs id ks r' rest,
        ))
