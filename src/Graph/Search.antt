-- ===== src/Graph/Search.antt =====
-- What the search of src/dyro/graph.py keeps: its stack is a walk, its colours say what is done, and
-- while no cycle is found the finished tasks have ranks that fall along their dependencies.
use dyro_engineering_flow.Prelude.{
  absurd_bool, ℕ, leb, ◌<◌, ◌≡◌, ◌≢◌, refl, sym, ap, ◌∙◌, Bool, true, false, List, [], ◌∷◌, ◌++◌,
  member, All, All-append, any, Bool-cases, inl, inr,
}
use dyro_engineering_flow.Prelude.Sort.{sort_by}
use dyro_engineering_flow.Graph.Cycles.{
  Color, unique, same_ids, visiting, visited, Search, from_first, close_cycle, is_white,
}
use dyro_engineering_flow.Graph.Walks.{Edge, Chain, Links, IsCycle, close-IsCycle}

abbrev pub is_visiting : Color → Bool
is_visiting visiting = true
is_visiting _ = false

abbrev pub is_visited : Color → Bool
is_visited visited = true
is_visited _ = false

module _ (deps : ℕ → List ℕ) where
  -- Numbers for the finished tasks.
  abbrev pub Ranked : (ℕ → Color) → Type 0
  Ranked colors =
      (rank : ℕ → ℕ) × ((u v : ℕ)
        → is_visited (colors u) ≡ true
        → Edge deps u v
        → (is_visited (colors v) ≡ true) × (rank v < rank u))

  pub record Inv (s : Search) : Type 0 where
    pub walk : Chain deps s.stack
    pub on_stack : (j : ℕ) → is_visiting (s.colors j) ≡ member j s.stack
    pub sound : All (IsCycle deps) s.found
    pub kept : s.found ≡ [] → s.seen ≡ []
    pub ranked : s.found ≡ [] → Ranked s.colors

  -- What a part of the search changes.
  pub record Later (s t : Search) : Type 0 where
    pub stack : t.stack ≡ s.stack
    pub inv : Inv t
    pub whites : (j : ℕ) → is_white (t.colors j) ≡ true → is_white (s.colors j) ≡ true
    pub finished : (j : ℕ) → is_visited (s.colors j) ≡ true → is_visited (t.colors j) ≡ true
    pub earlier : t.found ≡ [] → s.found ≡ []

  pub Later-refl : (s : Search) → Inv s → Later s s
  Later-refl s i = record {
    stack = refl;
    inv = i;
    whites = λ j h. h;
    finished = λ j h. h;
    earlier = λ h. h;
  }

  pub Later-trans : (s t u : Search) → Later s t → Later t u → Later s u
  Later-trans s t u a b = record {
    stack = b.stack ∙ a.stack;
    inv = b.inv;
    whites = λ j h. a.whites j (b.whites j h);
    finished = λ j h. b.finished j (a.finished j h);
    earlier = λ h. a.earlier (b.earlier h);
  }

  -- The part finished `k`, unless it found a cycle.
  pub record Done (k : ℕ) (s t : Search) : Type 0 where
    pub later : Later s t
    pub complete : t.found ≡ [] → is_visited (t.colors k) ≡ true

  snoc-ne-nil : (xs : List (List ℕ)) (x : List ℕ) → xs ++ x ∷ [] ≢ []
  snoc-ne-nil [] x h = cc
  snoc-ne-nil (y ∷ ys) x h = cc

  pub close-Done :
      (k : ℕ) (s : Search)
      → Inv s
      → is_visiting (s.colors k) ≡ true
      → Links deps s.stack k
      → Done k s (close_cycle k s)
  unfolding close_cycle
  close-Done k s i h l =
      let cycle = close-IsCycle deps k s.stack (sym (i.on_stack k) ∙ h) i.walk l in
      elim (Bool-cases
        (any (same_ids (sort_by leb (unique (from_first k s.stack ++ k ∷ [])))) s.seen)) [
          | inl old ↦
              let never = λ (e : s.found ≡ []).
                ap (any (same_ids (sort_by leb (unique (from_first k s.stack ++ k ∷ [])))))
                  (i.kept e) in
              rw old
                (record { later = Later-refl s i; complete = λ e. absurd_bool (sym old ∙ never e) })
          | inr new ↦
              let no = snoc-ne-nil s.found (from_first k s.stack ++ k ∷ []) in
              rw new (record {
                later = record {
                  stack = refl;
                  inv = record {
                    walk = i.walk;
                    on_stack = i.on_stack;
                    sound = All-append (IsCycle deps) s.found _ i.sound (cycle, tt);
                    kept = λ e. absurd (no e);
                    ranked = λ e. absurd (no e);
                  };
                  whites = λ j w. w;
                  finished = λ j f. f;
                  earlier = λ e. absurd (no e);
                };
                complete = λ e. absurd (no e);
              })
        ]
