-- ===== src/Budget/Reasons.antt =====
-- The reasons that `decide_budget` of src/dyro/continuation/budgets.py collects.
use dyro_engineering_flow.Prelude.{
  ℕ, ◌<◌, ◌≡◌, refl, ◌↔◌, Bool, true, false, ◌||◌, Option, none, some, List, [], ◌∷◌, ◌++◌, arith,
  ltb, leb,
}
use dyro_engineering_flow.Budget.Model.{BudgetReason, BudgetCaps, BudgetDecisionInput}
use dyro_engineering_flow.Budget.Limits.{min_limit, least, or_no_caps, effective_budget}
use dyro_engineering_flow.Budget.Decide.{
  activation_usage, over, reached, before, reason_if, usage_reasons, is_empty, local_total,
  workspace_total, task_attempts, workspace_task_attempts, untrusted, over_usage, count_reasons,
  time_reasons,
}
use dyro_engineering_flow.Budget.Within.{Fits, Below, NotBefore, Metered}

reasons_iff :
    (b : Bool) (r : BudgetReason) (rest : List BudgetReason)
    → (reason_if b r ++ rest ≡ []) ↔ ((b ≡ false) × (rest ≡ []))
reasons_iff true r rest = ground arith
reasons_iff false r rest = ground arith

last_iff : (b : Bool) (r : BudgetReason) → (reason_if b r ≡ []) ↔ (b ≡ false)
last_iff true r = ground arith
last_iff false r = ground arith

Fits-iff :
    (limit total workspace_total : ℕ) (activation workspace : Option ℕ)
    → ((ltb (min_limit limit (none ∷ activation ∷ [])) total || over workspace workspace_total)
        ≡ false)
      ↔ Fits total limit activation workspace_total workspace
unfolding min_limit
Fits-iff limit total wt none none = grind arith
Fits-iff limit total wt none (some w) = grind arith
Fits-iff limit total wt (some a) none = grind arith
Fits-iff limit total wt (some a) (some w) = grind arith

progress_iff :
    (limit cycles workspace_cycles : ℕ) (activation workspace : Option ℕ)
    → ((leb (min_limit limit (none ∷ activation ∷ [])) cycles || reached workspace workspace_cycles)
        ≡ false)
      ↔ ((cycles < limit) × Below cycles activation × Below workspace_cycles workspace)
unfolding min_limit
progress_iff limit c wc none none = grind arith
progress_iff limit c wc none (some w) = grind arith
progress_iff limit c wc (some a) none = grind arith
progress_iff limit c wc (some a) (some w) = grind arith

deadline_iff :
    (now : ℕ) (a b c : Option ℕ)
    → (reached (least (a ∷ b ∷ c ∷ [])) now ≡ false) ↔ (Below now a × Below now b × Below now c)
unfolding least
deadline_iff now none none none = grind arith
deadline_iff now none none (some c) = grind arith
deadline_iff now none (some b) none = grind arith
deadline_iff now none (some b) (some c) = grind arith
deadline_iff now (some a) none none = grind arith
deadline_iff now (some a) none (some c) = grind arith
deadline_iff now (some a) (some b) none = grind arith
deadline_iff now (some a) (some b) (some c) = grind arith

clock_iff : (now : ℕ) (last : Option ℕ) → (before last now ≡ false) ↔ NotBefore now last
clock_iff now none = grind arith
clock_iff now (some last) = grind arith

Metered-iff :
    (workspace activation : Option ℕ) (mistrust : Bool) (local total : ℕ) (rest : List BudgetReason)
    → (usage_reasons
            (least (workspace ∷ activation ∷ []))
            mistrust
            (over activation local || over workspace total)
          ++ rest
        ≡ [])
      ↔ (Metered workspace activation mistrust local total × (rest ≡ []))
unfolding least
Metered-iff none none mistrust local total rest = grind arith
Metered-iff none (some a) mistrust local total rest = grind arith
Metered-iff (some w) none mistrust local total rest = grind arith
Metered-iff (some w) (some a) mistrust local total rest = grind arith

pub counts_iff :
    (i : BudgetDecisionInput)
    → (count_reasons i ≡ []) ↔ (
        Fits
          (local_total i i.usage.actions (λ r. r.actions))
          i.requested.max_actions
          (or_no_caps i.activation).max_actions
          (workspace_total i i.workspace_usage.actions (λ r. r.actions))
          i.workspace.max_actions
        × Fits
            (task_attempts i)
            i.requested.max_attempts_per_task
            (or_no_caps i.activation).max_attempts_per_task
            (workspace_task_attempts i)
            i.workspace.max_attempts_per_task
        × Fits
            (local_total i i.usage.failures (λ r. r.failures))
            i.requested.max_failures
            (or_no_caps i.activation).max_failures
            (workspace_total i i.workspace_usage.failures (λ r. r.failures))
            i.workspace.max_failures
        × Fits
            (local_total i i.usage.consecutive_failures (λ r. r.failures))
            i.requested.max_failures
            (or_no_caps i.activation).max_consecutive_failures
            (workspace_total i i.workspace_usage.consecutive_failures (λ r. r.failures))
            i.workspace.max_consecutive_failures
        × Fits
            (local_total i i.usage.active_parallel (λ r. r.parallel))
            i.requested.max_parallel
            (or_no_caps i.activation).max_parallel
            (workspace_total i i.workspace_usage.active_parallel (λ r. r.parallel))
            i.workspace.max_parallel)
unfolding count_reasons effective_budget
counts_iff i = (
  λ h.
      let (a, h1) = (reasons_iff _ _ _).0 h in
      let (b, h2) = (reasons_iff _ _ _).0 h1 in
      let (c, h3) = (reasons_iff _ _ _).0 h2 in
      let (d, e) = (reasons_iff _ _ _).0 h3 in
      (
        (Fits-iff _ _ _ _ _).0 a,
        (Fits-iff _ _ _ _ _).0 b,
        (Fits-iff _ _ _ _ _).0 c,
        (Fits-iff _ _ _ _ _).0 d,
        (Fits-iff _ _ _ _ _).0 ((last_iff _ _).0 e),
      ),
  λ (a, b, c, d, e). (reasons_iff _ _ _).1 (
    (Fits-iff _ _ _ _ _).1 a,
    (reasons_iff _ _ _).1 (
      (Fits-iff _ _ _ _ _).1 b,
      (reasons_iff _ _ _).1 (
        (Fits-iff _ _ _ _ _).1 c,
        (reasons_iff _ _ _).1
            ((Fits-iff _ _ _ _ _).1 d, (last_iff _ _).1 ((Fits-iff _ _ _ _ _).1 e)),
      ),
    ),
  ),
)

-- The activation's cap as `decide_budget` reads it is the cap of `activation or BudgetCaps()`.
activation_cap : (a : Option BudgetCaps) → activation_usage a ≡ (or_no_caps a).max_provider_usage
activation_cap none = refl
activation_cap (some caps) = refl

pub metered :
    (i : BudgetDecisionInput) (rest : List BudgetReason)
    → (usage_reasons
            (least
              (i.workspace.max_provider_usage ∷ (or_no_caps i.activation).max_provider_usage ∷ []))
            (untrusted i)
            (over_usage i)
          ++ rest
        ≡ [])
      ↔ (Metered i.workspace.max_provider_usage
            (or_no_caps i.activation).max_provider_usage
            (untrusted i)
            (local_total i i.usage.provider_usage (λ r. r.provider_usage))
            (workspace_total i i.workspace_usage.provider_usage (λ r. r.provider_usage))
          × (rest ≡ []))
metered i rest = rw activation_cap (Metered-iff _ _ _ _ _ rest)

pub is_empty-eq-nil : (xs : List BudgetReason) → is_empty xs ≡ true → xs ≡ []
is_empty-eq-nil [] h = refl
is_empty-eq-nil (x ∷ xs) h = cc

pub times_iff :
    (i : BudgetDecisionInput)
    → (time_reasons i ≡ []) ↔ (
        (Below i.now i.requested.deadline
          × Below i.now i.workspace.deadline
          × Below i.now (or_no_caps i.activation).deadline)
        × NotBefore i.now i.last_observed_at
        × Metered i.workspace.max_provider_usage
            (or_no_caps i.activation).max_provider_usage
            (untrusted i)
            (local_total i i.usage.provider_usage (λ r. r.provider_usage))
            (workspace_total i i.workspace_usage.provider_usage (λ r. r.provider_usage))
        × ((i.usage.no_progress_cycles < i.requested.max_no_progress_cycles)
            × Below i.usage.no_progress_cycles (or_no_caps i.activation).max_no_progress_cycles
            × Below i.workspace_usage.no_progress_cycles i.workspace.max_no_progress_cycles))
unfolding time_reasons effective_budget
times_iff i = (
  λ h.
      let (a, h1) = (reasons_iff _ _ _).0 h in
      let (b, h2) = (reasons_iff _ _ _).0 h1 in
      let (c, d) = (metered i _).0 h2 in
      (
        (deadline_iff _ _ _ _).0 a,
        (clock_iff _ _).0 b,
        c,
        (progress_iff _ _ _ _ _).0 ((last_iff _ _).0 d),
      ),
  λ (a, b, c, d). (reasons_iff _ _ _).1 (
    (deadline_iff _ _ _ _).1 a,
    (reasons_iff _ _ _).1
        ((clock_iff _ _).1 b, (metered i _).1 (c, (last_iff _ _).1 ((progress_iff _ _ _ _ _).1 d))),
  ),
)
