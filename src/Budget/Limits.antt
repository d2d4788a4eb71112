-- ===== src/Budget/Limits.antt =====
-- `effective_budget` of src/dyro/continuation/budgets.py: the intersection of the limits of the
-- Objective, of the workspace and of an activation.
use dyro_engineering_flow.Prelude.{ℕ, ◌≤◌, min, ◌↔◌, Option, none, some, List, [], ◌∷◌, arith, All}
use dyro_engineering_flow.Budget.Model.{BudgetLimit, BudgetCaps, no_caps, EffectiveBudget}

-- `_min_limit`
unfoldable pub min_limit : ℕ → List (Option ℕ) → ℕ
min_limit requested [] = requested
min_limit requested (none ∷ caps) = min_limit requested caps
min_limit requested (some cap ∷ caps) = min_limit (min requested cap) caps

-- The least of the limits that are given, if any is.
unfoldable pub least : List (Option ℕ) → Option ℕ
unfolding min_limit
least [] = none
least (none ∷ caps) = least caps
least (some cap ∷ caps) = some (min_limit cap caps)

-- `activation or BudgetCaps()`
abbrev pub or_no_caps : Option BudgetCaps → BudgetCaps
or_no_caps none = no_caps
or_no_caps (some caps) = caps

unfoldable pub effective_budget : BudgetLimit → BudgetCaps → Option BudgetCaps → EffectiveBudget
unfolding min_limit least
effective_budget requested workspace activation =
    let local = or_no_caps activation in
    record {
      max_actions =
          min_limit requested.max_actions (workspace.max_actions ∷ local.max_actions ∷ []);
      max_attempts_per_task =
          min_limit requested.max_attempts_per_task
            (workspace.max_attempts_per_task ∷ local.max_attempts_per_task ∷ []);
      max_failures =
          min_limit requested.max_failures (workspace.max_failures ∷ local.max_failures ∷ []);
      max_consecutive_failures =
          min_limit requested.max_failures
            (workspace.max_consecutive_failures ∷ local.max_consecutive_failures ∷ []);
      max_no_progress_cycles =
          min_limit requested.max_no_progress_cycles
            (workspace.max_no_progress_cycles ∷ local.max_no_progress_cycles ∷ []);
      max_parallel =
          min_limit requested.max_parallel (workspace.max_parallel ∷ local.max_parallel ∷ []);
      max_provider_usage = least (workspace.max_provider_usage ∷ local.max_provider_usage ∷ []);
      deadline = least (requested.deadline ∷ workspace.deadline ∷ local.deadline ∷ []);
    }

-- `n` stays within a limit that may be absent.
abbrev pub Within : ℕ → Option ℕ → Type 0
Within n none = Unit
Within n (some cap) = n ≤ cap

pub le-min_limit :
    (n requested : ℕ) (caps : List (Option ℕ))
    → (n ≤ min_limit requested caps) ↔ ((n ≤ requested) × All (Within n) caps)
unfolding min_limit
le-min_limit n requested [] = grind arith
le-min_limit n requested (none ∷ caps) = grind (arith, le-min_limit n requested caps)
le-min_limit n requested (some cap ∷ caps) = grind (arith, le-min_limit n (min requested cap) caps)

pub Within-least : (n : ℕ) (caps : List (Option ℕ)) → Within n (least caps) ↔ All (Within n) caps
unfolding least
Within-least n [] = grind arith
Within-least n (none ∷ caps) = grind (arith, Within-least n caps)
Within-least n (some cap ∷ caps) = grind (arith, le-min_limit n cap caps)

-- The limits that `n` keeps to, one by one, for a field with a requested value.
abbrev pub Meets : ℕ → ℕ → Option ℕ → Option ℕ → Type 0
Meets n requested workspace activation = (n ≤ requested) × Within n workspace × Within n activation

min_limit_iff :
    (n requested : ℕ) (workspace activation : Option ℕ)
    → (n ≤ min_limit requested (workspace ∷ activation ∷ []))
      ↔ Meets n requested workspace activation
min_limit_iff n requested workspace activation = (
  λ h.
      let (a, rest) = (le-min_limit n requested (workspace ∷ activation ∷ [])).0 h in
      (a, rest.0, rest.1.0),
  λ (a, b, c). (le-min_limit n requested (workspace ∷ activation ∷ [])).1 (a, (b, (c, tt))),
)

-- A number meets each field of the effective budget exactly when it meets the limits behind it.
abbrev pub MeetsEach : ℕ → BudgetLimit → BudgetCaps → Option BudgetCaps → Type 0
MeetsEach n q w a =
    let e = effective_budget q w a in
    let l = or_no_caps a in
    ((n ≤ e.max_actions) ↔ Meets n q.max_actions w.max_actions l.max_actions)
    × ((n ≤ e.max_attempts_per_task)
        ↔ Meets n q.max_attempts_per_task w.max_attempts_per_task l.max_attempts_per_task)
    × ((n ≤ e.max_failures) ↔ Meets n q.max_failures w.max_failures l.max_failures)
    × ((n ≤ e.max_consecutive_failures)
        ↔ Meets n q.max_failures w.max_consecutive_failures l.max_consecutive_failures)
    × ((n ≤ e.max_no_progress_cycles)
        ↔ Meets n q.max_no_progress_cycles w.max_no_progress_cycles l.max_no_progress_cycles)
    × ((n ≤ e.max_parallel) ↔ Meets n q.max_parallel w.max_parallel l.max_parallel)
    × (Within n e.max_provider_usage
        ↔ (Within n w.max_provider_usage × Within n l.max_provider_usage))
    × (Within n e.deadline ↔ (Within n q.deadline × Within n w.deadline × Within n l.deadline))

-- Each field of the effective budget is the greatest value within all the limits that are given:
-- a number meets the effective limit exactly when it meets the one of the Objective, the cap of
-- the workspace and the cap of the activation. The consecutive failures take the Objective's
-- limit of failures, and the provider usage has no limit of the Objective.
pub effective_budget-iff-Meets :
    (n : ℕ) (q : BudgetLimit) (w : BudgetCaps) (a : Option BudgetCaps) → MeetsEach n q w a
unfolding effective_budget
effective_budget-iff-Meets n q w a =
    let l = or_no_caps a in
    let usage = Within-least n (w.max_provider_usage ∷ l.max_provider_usage ∷ []) in
    let time = Within-least n (q.deadline ∷ w.deadline ∷ l.deadline ∷ []) in
    (
      min_limit_iff n _ _ _,
      min_limit_iff n _ _ _,
      min_limit_iff n _ _ _,
      min_limit_iff n _ _ _,
      min_limit_iff n _ _ _,
      min_limit_iff n _ _ _,
      (λ h. ((usage.0 h).0, (usage.0 h).1.0), λ (x, y). usage.1 (x, (y, tt))),
      (
        λ h. ((time.0 h).0, (time.0 h).1.0, (time.0 h).1.1.0),
        λ (x, y, z). time.1 (x, (y, (z, tt))),
      ),
    )
