-- ===== src/Trigger/Backoff.antt =====
-- The delays of `next_probe_schedule` of src/dyro/continuation/triggers.py: bounded, and growing.
use dyro_engineering_flow.Prelude.{
  ℕ, suc, zero, ◌+◌, ◌-◌, ◌*◌, ◌^◌, ◌≤◌, ◌<◌, ◌≡◌, ap, ◌∙◌, min, true, false, Option, some, arith,
}
use native.Mathlib.Numerals.{towards_suc}
use dyro_engineering_flow.Trigger.Model.{
  TriggerErrorKind, TriggerObservation, TriggerConfig, config_accepted, TriggerProbeSchedule,
}
use dyro_engineering_flow.Trigger.Schedule.{
  base_interval, jitter_seconds, interval_after, next_probe_schedule,
}

pow-suc : (k : ℕ) → 2 ^ (k + 1) ≡ 2 * 2 ^ k
pow-suc k = simp towards_suc (omega arith)

pow_pos : (k : ℕ) → 1 ≤ 2 ^ k
pow_pos zero = omega arith
pow_pos (suc k) =
    let rest = pow_pos k in
    let double : 2 ^ suc k ≡ 2 * 2 ^ k = ap (λ n. 2 ^ n) (omega arith) ∙ pow-suc k in
    omega (arith, rest, double)

-- A shortest interval that is positive, and a longest that is not below it.
record Fits (config : TriggerConfig) : Type 0 where
  positive : 1 ≤ config.min_interval_seconds
  ordered : config.min_interval_seconds ≤ config.max_interval_seconds

accepted-Fits : (config : TriggerConfig) → config_accepted config ≡ true → Fits config
unfolding config_accepted
accepted-Fits config h = record { positive = ground arith; ordered = ground arith }

module _ (digest : (id cycles interval : ℕ) → ℕ) (config : TriggerConfig) where
  jitter-le :
      (cycles interval : ℕ) → 1 ≤ interval → jitter_seconds digest config cycles interval ≤ interval
  unfolding jitter_seconds
  jitter-le cycles interval h = grind arith

  base_bounds :
      (cycles : ℕ)
      → Fits config
      → (config.min_interval_seconds ≤ base_interval digest config cycles)
        × (base_interval digest config cycles ≤ config.max_interval_seconds)
  base_bounds cycles f =
      let p = pow_pos (min (cycles - 1) 30) in
      let q : config.min_interval_seconds ≤ config.min_interval_seconds * 2 ^ min (cycles - 1) 30 =
        grind arith in
      (omega (arith, f.ordered), omega arith)

  interval_bounds :
      (cycles : ℕ)
      → Fits config
      → (config.min_interval_seconds ≤ interval_after digest config cycles)
        × (interval_after digest config cycles ≤ config.max_interval_seconds)
  unfolding interval_after
  interval_bounds cycles f =
      let (low, high) = base_bounds cycles f in (omega (arith, low, f.ordered), omega arith)

  interval_grows :
      (cycles : ℕ)
      → 1 ≤ cycles
      → cycles ≤ 30
      → Fits config
      → interval_after digest config cycles ≤ interval_after digest config (cycles + 1)
  unfolding interval_after
  interval_grows cycles from until f =
      let (low, _) = base_bounds cycles f in
      let j =
        jitter-le cycles (base_interval digest config cycles) (omega (arith, low, f.positive)) in
      let next =
        jitter_seconds digest config (cycles + 1) (base_interval digest config (cycles + 1)) in
      by (config.min_interval_seconds * 2 ^ (cycles - 1)) next
        (ap (λ k. config.min_interval_seconds * 2 ^ k) (omega arith))
        (ap (λ k. config.min_interval_seconds * 2 ^ k) (omega arith)
          ∙ ap (λ p. config.min_interval_seconds * p) (pow-suc (cycles - 1))
          ∙ grind arith)
        j
    where
      by :
          (p next : ℕ)
          → config.min_interval_seconds * 2 ^ min (cycles - 1) 30 ≡ p
          → config.min_interval_seconds * 2 ^ min (cycles + 1 - 1) 30 ≡ 2 * p
          → jitter_seconds digest config cycles (base_interval digest config cycles)
            ≤ base_interval digest config cycles
          → min config.max_interval_seconds (
              base_interval digest config cycles
              + jitter_seconds digest config cycles (base_interval digest config cycles))
            ≤ min config.max_interval_seconds (base_interval digest config (cycles + 1) + next)
      by p next e e' j = omega (arith, e, e', j)

  -- An answer for an observation without a change, that does not disable the trigger.
  record Waits (unchanged now : ℕ) (s : TriggerProbeSchedule) (at : ℕ) : Type 0 where
    next : at ≡ now + interval_after digest config (unchanged + 1)
    cycles : s.unchanged_cycles ≡ unchanged + 1
    enabled : s.is_disabled ≡ false

  schedule-Waits :
      (o : TriggerObservation) (unchanged now : ℕ) (kind : Option TriggerErrorKind)
      {s : TriggerProbeSchedule} {at : ℕ}
      → next_probe_schedule digest config o unchanged now false kind ≡ some s
      → s.next_probe_at ≡ some at
      → Waits unchanged now s at
  unfolding next_probe_schedule
  schedule-Waits o unchanged now kind h k = record {
    next = ground arith;
    cycles = ground arith;
    enabled = ground arith;
  }

  -- Without a change the next probe of an accepted trigger is never at once: it comes after its
  -- shortest interval at least, and its longest at most, and the cycle is counted.
  pub next_probe_schedule-bounds :
      (o : TriggerObservation) (unchanged now : ℕ) (kind : Option TriggerErrorKind)
      {s : TriggerProbeSchedule} {at : ℕ}
      → config_accepted config ≡ true
      → next_probe_schedule digest config o unchanged now false kind ≡ some s
      → s.next_probe_at ≡ some at
      → (now < at)
        × (now + config.min_interval_seconds ≤ at)
        × (at ≤ now + config.max_interval_seconds)
        × (s.unchanged_cycles ≡ unchanged + 1)
  next_probe_schedule-bounds o unchanged now kind c h k =
      let f = accepted-Fits config c in
      let w = schedule-Waits o unchanged now kind h k in
      let (low, high) = interval_bounds (unchanged + 1) f in
      let first = f.positive in
      let next = w.next in (omega arith, omega arith, omega arith, w.cycles)

  -- In the first thirty cycles without a change the delay never shrinks from one probe to the next.
  pub backoff_grows :
      (o o' : TriggerObservation) (unchanged now now' : ℕ) (kind kind' : Option TriggerErrorKind)
      {s s' : TriggerProbeSchedule} {at at' : ℕ}
      → config_accepted config ≡ true
      → next_probe_schedule digest config o unchanged now false kind ≡ some s
      → s.next_probe_at ≡ some at
      → next_probe_schedule digest config o' s.unchanged_cycles now' false kind' ≡ some s'
      → s'.next_probe_at ≡ some at'
      → unchanged < 30
      → at + now' ≤ at' + now
  backoff_grows o o' unchanged now now' kind kind' c h k h' k' few =
      let f = accepted-Fits config c in
      let w = schedule-Waits o unchanged now kind h k in
      let w' = schedule-Waits o' _ now' kind' h' k' in
      let more = interval_grows (unchanged + 1) (omega arith) (omega arith) f in
      let same = ap (λ n. interval_after digest config (n + 1)) w.cycles in
      let next = w.next in let next' = w'.next in omega (arith, same, more, next, next')
