-- ===== src/Planner/Complete.antt =====
-- The completion of a plan of `build_continuation_plan` in src/dyro/continuation/planner.py.
use dyro_engineering_flow.Planner.Delivered.{IsDelivered, IsDelivered-iff}
use dyro_engineering_flow.Prelude.{
  [], ℕ, ◌≡◌, ◌↔◌, refl, sym, ap, subst, ◌∙◌, Bool, true, false, ◌&&◌, ◌||◌, List, [], ◌∷◌, arith,
  ltb, ◌==◌, if◌then◌else◌,
}
use dyro_engineering_flow.Prelude.Sort.{sort_by}
use dyro_engineering_flow.Prelude.Filters.{sort_by-eq-nil}
use dyro_engineering_flow.Planner.Model.{
  execute_operation, review_operation, is_active_state, Task, SchedulerTaskSnapshot,
  SchedulerSnapshot, PlannedAction, action_le, attention_le, ContinuationPlan, incomplete,
  plan_complete,
}
use dyro_engineering_flow.Planner.Readiness.{
  PlanResult, ok, err, TaskReadiness, build_task_readiness,
}
use dyro_engineering_flow.Planner.Listed.{ok_injective}
use dyro_engineering_flow.Planner.Permitted.{planned_injective, report_all-split}
use dyro_engineering_flow.Planner.Plan.{
  planned, no_objective, Draft, is_empty, target_complete, plan_scope, operation_allowed, offer,
  report, report_all, or_wait, start_draft, offered, drifted_draft, paused_draft, complete_draft,
  build_plan, finish, from_readiness, build_continuation_plan,
}

is_empty-eq-nil : {A : Type 0} (xs : List A) → is_empty xs ≡ true → xs ≡ []
is_empty-eq-nil [] h = refl
is_empty-eq-nil (x ∷ xs) h = ground arith

is_empty-sort_by :
    {A : Type 0} (le : A → A → Bool) (xs : List A)
    → is_empty (sort_by le xs) ≡ true
    → is_empty xs ≡ true
is_empty-sort_by le xs h =
    ap is_empty ((sort_by-eq-nil le xs).0 (is_empty-eq-nil (sort_by le xs) h))

-- Nothing is selected, blocked or asked.
abbrev pub is_silent : ContinuationPlan → Bool
is_silent p = is_empty p.selected_actions && is_empty p.blocked && is_empty p.attention

abbrev is_mute : Draft → Bool
is_mute d = is_empty d.selected && is_empty d.blocked && is_empty d.attention

or_wait-speaks : (s : SchedulerSnapshot) (d : Draft) → is_mute (or_wait s d) ≡ false
or_wait-speaks s d = ground arith

three :
    (a b c x y z : Bool)
    → (a ≡ true → x ≡ true)
    → (b ≡ true → y ≡ true)
    → (c ≡ true → z ≡ true)
    → (x && y && z) ≡ false
    → (a && b && c) ≡ false
three a b c x y z f g h k = ground arith

report-completion :
    (item : SchedulerTaskSnapshot) (id : ℕ) (d : Draft)
    → (report item id d).completion ≡ d.completion
report-completion item id d = ground arith

or_wait-completion : (s : SchedulerSnapshot) (d : Draft) → (or_wait s d).completion ≡ d.completion
or_wait-completion s d = ground arith

report_all-completion :
    (s : SchedulerSnapshot) (ids : List ℕ) (d d' : Draft)
    → report_all s ids d ≡ ok d'
    → d'.completion ≡ d.completion
unfolding report_all
report_all-completion s [] d d' h = ap (λ x. x.completion) (sym (ok_injective h))
report_all-completion s (id ∷ ids) d d' h =
    let (item, rest) = report_all-split s id ids d d' h in
    report_all-completion s ids (report item id d) d' rest ∙ report-completion item id d

offer-completion :
    (b : Bool) (accept refuse : Task → PlannedAction) (ts : List Task) (d : Draft)
    → (offer b accept refuse ts d).completion ≡ d.completion
offer-completion true accept refuse ts d = refl
offer-completion false accept refuse ts d = refl

offered-completion :
    (s : SchedulerSnapshot) (r : TaskReadiness) → (offered s r).completion ≡ incomplete
offered-completion s r =
    offer-completion (operation_allowed s review_operation) _ _ r.review_tasks _
    ∙ offer-completion (operation_allowed s execute_operation) _ _ r.ready_tasks (start_draft s r)

module _ (digest : (objective_id snapshot_sha256 : ℕ) → Draft → ℕ) (s : SchedulerSnapshot) where
  build_plan-speaks : (d : Draft) → is_mute d ≡ false → is_silent (build_plan digest s d) ≡ false
  unfolding build_plan
  build_plan-speaks d h =
      three _ _ _ (is_empty d.selected) (is_empty d.blocked) (is_empty d.attention)
        (is_empty-sort_by action_le d.selected) (is_empty-sort_by action_le d.blocked)
        (is_empty-sort_by attention_le d.attention) h

  build_plan-completion : (d : Draft) → (build_plan digest s d).completion ≡ d.completion
  unfolding build_plan
  build_plan-completion d = refl

  built :
      (d : Draft) {p : ContinuationPlan}
      → is_mute d ≡ false
      → planned (build_plan digest s d) ≡ planned p
      → (is_silent p ≡ false) × (p.completion ≡ d.completion)
  built d h e =
      subst (λ x. (is_silent x ≡ false) × (x.completion ≡ d.completion)) (planned_injective e)
        (build_plan-speaks d h, build_plan-completion d)

  from_readiness-built :
      (r : PlanResult TaskReadiness) {p : ContinuationPlan}
      → from_readiness digest s r ≡ planned p
      → (is_silent p ≡ false) × (p.completion ≡ incomplete)
  from_readiness-built (err e) h = ground arith
  from_readiness-built (ok r) {p} h = by (report_all s (plan_scope s) (offered s r)) refl h
    where
      by :
          (x : PlanResult Draft)
          → report_all s (plan_scope s) (offered s r) ≡ x
          → finish digest s x ≡ planned p
          → (is_silent p ≡ false) × (p.completion ≡ incomplete)
      by (err e) k l = ground arith
      by (ok d) k l =
          let (a, b) = built (or_wait s d) (or_wait-speaks s d) l in
          (
            a,
            b
                ∙ or_wait-completion s d
                ∙ report_all-completion s (plan_scope s) (offered s r) d k
                ∙ offered-completion s r,
          )

  -- Every plan selects, blocks or asks something, and it is complete exactly where the Objective is
  -- as it was accepted, is active, and each of its targets stands in the snapshot, is done and
  -- integrated.
  pub build_continuation_plan_complete :
      {p : ContinuationPlan}
      → build_continuation_plan digest s ≡ planned p
      → (is_silent p ≡ false) × ((p.completion ≡ plan_complete) ↔ IsDelivered s)
  unfolding build_continuation_plan
  build_continuation_plan_complete {p} h =
      let (speaks, (there, back)) =
        by (s.objective_id == 0 || ltb s.objective_revision 1) s.objective_drifted
          (is_active_state s.objective_state) (target_complete s) h in
      let (to, from) = IsDelivered-iff s in (speaks, (λ c. to (there c), λ i. back (from i)))
    where
      by :
          (a b c d : Bool)
          → (if a
              then no_objective
              else (if b
                  then planned (build_plan digest s (drifted_draft s))
                  else (if c
                      then (if d
                          then planned (build_plan digest s (complete_draft s))
                          else from_readiness digest s (build_task_readiness s (plan_scope s)))
                      else planned (build_plan digest s (paused_draft s)))))
            ≡ planned p
          → (is_silent p ≡ false)
            × ((p.completion ≡ plan_complete) ↔ ((b ≡ false) × (c ≡ true) × (d ≡ true)))
      by true b c d e = ground arith
      by false true c d e =
          let (x, y) = built (drifted_draft s) refl e in
          (x, (λ k. ground arith, λ (k, _, _). ground arith))
      by false false true true e =
          let (x, y) = built (complete_draft s) refl e in (x, (λ k. (refl, refl, refl), λ k. y))
      by false false true false e =
          let (x, y) = from_readiness-built (build_task_readiness s (plan_scope s)) e in
          (x, (λ k. ground arith, λ (_, _, k). ground arith))
      by false false false d e =
          let (x, y) = built (paused_draft s) refl e in
          (x, (λ k. ground arith, λ (_, k, _). ground arith))
