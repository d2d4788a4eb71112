-- ===== src/Engine/Sorted.antt =====
-- What the loop of `build_scheduler_tick` of src/dyro/continuation/engine.py puts in which list.
use dyro_engineering_flow.Prelude.{
  ℕ, ◌≡◌, refl, subst, ◌∙◌, Bool, true, false, ◌&&◌, Option, none, some, List, [], ◌∷◌, ◌++◌, arith,
  leb, all, map, length, if◌then◌else◌,
}
use dyro_engineering_flow.Journal.Model.{is_mutating}
use dyro_engineering_flow.Planner.Model.{SchedulerSnapshot, PlannedAction}
use dyro_engineering_flow.Engine.Tick.{
  Resource, TickResult, ok, err, Selection, collision, place, defer_one, join_one,
  conflict_deferral, capacity_deferral, action_resources, select_one, select_wave,
}
use dyro_engineering_flow.Engine.Loop.{ok_injective, select_wave_split}
use dyro_engineering_flow.Engine.Checks.{all_mutating, none_mutating}

all-append :
    {A : Type 0} (p : A → Bool) (xs ys : List A) → all p (xs ++ ys) ≡ (all p xs && all p ys)
all-append p [] ys = refl
all-append p (x ∷ xs) ys = let rest = all-append p xs ys in ground arith

pub all-map :
    {A B : Type 0} (p : B → Bool) (f : A → B) (xs : List A)
    → all p (map f xs) ≡ all (λ x. p (f x)) xs
all-map p f [] = refl
all-map p f (x ∷ xs) = let rest = all-map p f xs in ground arith

-- The three lists hold what they are for.
pub record IsSorted (s : Selection) : Type 0 where
  pub waves : all_mutating s.wave ≡ true
  pub waits : all (λ d. is_mutating d.action.kind) s.deferred ≡ true
  pub rests : none_mutating s.passive ≡ true

snoc-all :
    {A : Type 0} (p : A → Bool) (xs : List A) (x : A)
    → all p xs ≡ true
    → p x ≡ true
    → all p (xs ++ x ∷ []) ≡ true
snoc-all p xs x h k = all-append p xs (x ∷ []) ∙ rw (h, k) refl

place-IsSorted :
    (limit active available : ℕ) (action : PlannedAction) (claims : List Resource) (s : Selection)
    (o : Option (Resource × ℕ))
    → is_mutating action.kind ≡ true
    → IsSorted s
    → IsSorted (place limit active available action claims s o)
place-IsSorted limit active available action claims s (some (c, subject)) h i = record {
  waves = i.waves;
  waits = snoc-all _ s.deferred (conflict_deferral action c subject) i.waits h;
  rests = i.rests;
}
place-IsSorted limit active available action claims s none h i = by (leb available (length s.wave))
  where
    by :
        (b : Bool)
        → IsSorted (
            if b
            then defer_one (capacity_deferral limit active available action) s
            else join_one action claims s)
    by true = record {
      waves = i.waves;
      waits = snoc-all _ s.deferred (capacity_deferral limit active available action) i.waits h;
      rests = i.rests;
    }
    by false = record {
      waves = snoc-all _ s.wave action i.waves h;
      waits = i.waits;
      rests = i.rests;
    }

module _ (snapshot : SchedulerSnapshot) (limit active available : ℕ) where
  select_one-IsSorted :
      (action : PlannedAction) (s s' : Selection)
      → select_one snapshot limit active available action s ≡ ok s'
      → IsSorted s
      → IsSorted s'
  unfolding select_one
  select_one-IsSorted action s s' h i =
      by (is_mutating action.kind) refl (action_resources snapshot action) h
    where
      by :
          (b : Bool)
          → is_mutating action.kind ≡ b
          → (r : TickResult (List Resource))
          → (if b
              then elim r [
                | err e ↦ err e
                | ok claims ↦
                    ok (place limit active available action claims s (collision s.resources claims))
              ]
              else ok (record s { passive = s.passive ++ action ∷ [] }))
            ≡ ok s'
          → IsSorted s'
      by true m (ok claims) k =
          subst IsSorted (ok_injective k) (
            place-IsSorted limit active available action claims s (collision s.resources claims) m
              i)
      by true m (err _) k = ground arith
      by false m r k = subst IsSorted (ok_injective k) (record {
        waves = i.waves;
        waits = i.waits;
        rests = snoc-all _ s.passive action i.rests (rw m refl);
      })

  pub select_wave-IsSorted :
      (actions : List PlannedAction) (s s' : Selection)
      → select_wave snapshot limit active available actions s ≡ ok s'
      → IsSorted s
      → IsSorted s'
  unfolding select_wave
  select_wave-IsSorted [] s s' h i = subst IsSorted (ok_injective h) i
  select_wave-IsSorted (a ∷ as') s s' h i =
      let (s1, one, rest) = select_wave_split snapshot limit active available a as' s s' h in
      select_wave-IsSorted as' s1 s' rest (select_one-IsSorted a s s1 one i)
