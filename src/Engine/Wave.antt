-- ===== src/Engine/Wave.antt =====
-- The wave that `build_scheduler_tick` of src/dyro/continuation/engine.py selects.
use dyro_engineering_flow.Prelude.{
  ℕ, ◌≤◌, ◌≡◌, refl, sym, ap, ◌∙◌, Bool, true, false, ◌⊎◌, inl, inr, Option, none, some, List, [],
  ◌∷◌, ◌++◌, arith, Bool-cases, All, Any, All-append, All-weaken, Any-append, Any-weaken,
  if◌then◌else◌, Pairwise, Pairwise-snoc, length, length-append, leb, is_some,
}
use dyro_engineering_flow.Planner.Model.{
  SchedulerSnapshot, PlannedAction, resource_class, selected_subject_id,
}
use dyro_engineering_flow.Engine.Tick.{
  Resource, class_of, ok, err, action_resources, resource_conflict, parallel_capacity, Selection,
  WaveDeferral, holder, collision, place, conflict_deferral, capacity_deferral, defer_one, join_one,
}
use dyro_engineering_flow.Engine.Claims.{
  has, or_right, or_left, none_some, collision-none, collision-some, claim_all-holder,
  claim_all-held,
}

module _ (snapshot : SchedulerSnapshot) where
  -- What an action claims, if the snapshot knows its task.
  unfoldable pub claims_in : PlannedAction → List Resource
  claims_in action = elim (action_resources snapshot action) [ ok claims ↦ claims | err _ ↦ [] ]

  -- No resource is claimed by both.
  abbrev pub Disjoint : PlannedAction → PlannedAction → Type 0
  Disjoint a b = (r : Resource) → has r (claims_in a) ≡ true → has r (claims_in b) ≡ false

  -- The two claim one resource.
  abbrev pub Shares : Resource → PlannedAction → PlannedAction → Type 0
  Shares r a b = (has r (claims_in a) ≡ true) × (has r (claims_in b) ≡ true)

  -- A deferral is explained by the wave: an action of it claims what this one claims, as the facts
  -- say, or the wave is full.
  abbrev pub Explained : ℕ → List PlannedAction → WaveDeferral → Type 0
  Explained available wave d =
      ((d.reason ≡ resource_conflict)
        × (r : Resource) × Any
            (λ a.
              Shares r a d.action
              × (d.facts ≡ resource_class (class_of r) ∷ selected_subject_id a.subject_id ∷ []))
            wave)
      ⊎ ((d.reason ≡ parallel_capacity) × (available ≤ length wave))

  pub record IsSelection (available : ℕ) (s : Selection) : Type 0 where
    pub bounded : length s.wave ≤ available
    pub disjoint : Pairwise Disjoint s.wave
    pub held :
        (r : Resource) (subject : ℕ)
        → holder s.resources r ≡ some subject
        → Any (λ a. (has r (claims_in a) ≡ true) × (a.subject_id ≡ subject)) s.wave
    pub claimed :
        All
          (λ a. (r : Resource) → has r (claims_in a) ≡ true → is_some (holder s.resources r) ≡ true)
          s.wave
    pub explained : All (Explained available s.wave) s.deferred

  Explained-grows :
      (available : ℕ) (wave more : List PlannedAction) (d : WaveDeferral)
      → Explained available wave d
      → Explained available (wave ++ more) d
  Explained-grows available wave more d (inl (e, r, h)) = inl (e, r, Any-append _ wave more (inl h))
  Explained-grows available wave more d (inr (e, h)) =
      inr (e, omega (arith, length-append wave more))

  -- An action without a collision joins a wave with room.
  module _ (available : ℕ) (action : PlannedAction) (claims : List Resource) (s : Selection)
      (known : claims_in action ≡ claims) (free : collision s.resources claims ≡ none)
      (i : IsSelection available s) where
    apart :
        (a : PlannedAction)
        → ((r : Resource) → has r (claims_in a) ≡ true → is_some (holder s.resources r) ≡ true)
        → Disjoint a action
    apart a held r h = elim (Bool-cases (has r (claims_in action))) [
      | inr e ↦ e
      | inl e ↦
          none_some _ _ (collision-none s.resources claims r free (ap (has r) (sym known) ∙ e))
            (held r h)
    ]

    joins : leb available (length s.wave) ≡ false → IsSelection available (join_one action claims s)
    joins room = record {
      bounded = ground (arith, length-append s.wave (action ∷ []));
      disjoint =
          Pairwise-snoc Disjoint s.wave action i.disjoint
            (All-weaken _ _ s.wave (λ a h. apart a h) i.claimed);
      held = λ r subject h.
          elim (claim_all-holder action.subject_id claims s.resources r subject h) [
            | inl (e, same) ↦
                Any-append _ s.wave (action ∷ []) (inr (inl (ap (has r) known ∙ e, sym same)))
            | inr old ↦ Any-append _ s.wave (action ∷ []) (inl (i.held r subject old))
          ];
      claimed =
          All-append _ s.wave (action ∷ [])
            (All-weaken _ _ s.wave
              (λ a h r k.
                claim_all-held action.subject_id claims s.resources r (or_right _ (h r k)))
              i.claimed)
            (
              (λ r k.
                  claim_all-held action.subject_id claims s.resources r
                    (or_left _ (ap (has r) (sym known) ∙ k))),
              tt,
            );
      explained =
          All-weaken _ _ s.deferred (λ d. Explained-grows available s.wave (action ∷ []) d)
            i.explained;
    }

  -- An action that is left for later keeps the wave.
  waits :
      (available : ℕ) (d : WaveDeferral) (s : Selection)
      → Explained available s.wave d
      → IsSelection available s
      → IsSelection available (defer_one d s)
  waits available d s h i = record {
    bounded = i.bounded;
    disjoint = i.disjoint;
    held = i.held;
    claimed = i.claimed;
    explained = All-append _ s.deferred (d ∷ []) i.explained (h, tt);
  }

  -- A collision is with an action of the wave.
  blamed :
      (available : ℕ) (action : PlannedAction) (claims : List Resource) (s : Selection)
      (c : Resource) (subject : ℕ)
      → claims_in action ≡ claims
      → collision s.resources claims ≡ some (c, subject)
      → IsSelection available s
      → Explained available s.wave (conflict_deferral action c subject)
  blamed available action claims s c subject known hit i =
      let (taken, claimed) = collision-some s.resources claims c subject hit in
      inl (
        refl,
        c,
        Any-weaken _ _ s.wave
            (λ a (held, named). (
              (held, ap (has c) known ∙ claimed),
              ap (λ n. resource_class (class_of c) ∷ selected_subject_id n ∷ []) (sym named),
            ))
            (i.held c subject taken),
      )

  full :
      (limit active available : ℕ) (action : PlannedAction) (wave : List PlannedAction)
      → leb available (length wave) ≡ true
      → Explained available wave (capacity_deferral limit active available action)
  full limit active available action wave h = inr (refl, ground arith)

  pub place-IsSelection :
      (limit active available : ℕ) (action : PlannedAction) (claims : List Resource) (s : Selection)
      (o : Option (Resource × ℕ))
      → claims_in action ≡ claims
      → collision s.resources claims ≡ o
      → IsSelection available s
      → IsSelection available (place limit active available action claims s o)
  place-IsSelection limit active available action claims s (some (c, subject)) known e i =
      waits available (conflict_deferral action c subject) s
        (blamed available action claims s c subject known e i) i
  place-IsSelection limit active available action claims s none known e i =
      by_room (leb available (length s.wave)) refl
    where
      by_room :
          (b : Bool)
          → leb available (length s.wave) ≡ b
          → IsSelection available (
              if b
              then defer_one (capacity_deferral limit active available action) s
              else join_one action claims s)
      by_room true h =
          waits available (capacity_deferral limit active available action) s
            (full limit active available action s.wave h) i
      by_room false h = joins available action claims s known e i h
