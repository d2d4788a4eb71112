-- ===== src/Graph/Walks.antt =====
-- Walks along the dependencies of src/dyro/graph.py, and what the stack of its search is.
use dyro_engineering_flow.Prelude.{
  ℕ, ◌<◌, ◌≡◌, refl, sym, ap, subst, true, ◌||◌, List, [], ◌∷◌, ◌++◌, arith, ◌==◌, ==_iff, ==_refl,
  member, Bool-cases, inl, inr,
}
use dyro_engineering_flow.Graph.Cycles.{from_first, pop_last}

pub pop_last_snoc : (xs : List ℕ) (k : ℕ) → pop_last (xs ++ k ∷ []) ≡ xs
pop_last_snoc [] k = refl
pop_last_snoc (x ∷ []) k = refl
pop_last_snoc (x ∷ y ∷ xs) k = ap (λ r. x ∷ r) (pop_last_snoc (y ∷ xs) k)

pub member-snoc : (j k : ℕ) (xs : List ℕ) → member j (xs ++ k ∷ []) ≡ (member j xs || k == j)
member-snoc j k [] = ground arith
member-snoc j k (x ∷ xs) = ground (arith, member-snoc j k xs)

module _ (deps : ℕ → List ℕ) where
  abbrev pub Edge : ℕ → ℕ → Type 0
  Edge u v = member v (deps u) ≡ true

  -- Each follows the one before.
  abbrev pub Chain : List ℕ → Type 0
  Chain [] = Unit
  Chain (x ∷ []) = Unit
  Chain (x ∷ y ∷ r) = Edge x y × Chain (y ∷ r)

  -- The last one, if there is one, has an edge to `k`.
  abbrev pub Links : List ℕ → ℕ → Type 0
  Links [] k = Unit
  Links (x ∷ []) k = Edge x k
  Links (x ∷ y ∷ r) k = Links (y ∷ r) k

  -- A walk from a task to itself.
  pub record IsCycle (c : List ℕ) : Type 0 where
    pub first : ℕ
    pub rest : List ℕ
    pub closes : c ≡ first ∷ rest ++ first ∷ []
    pub walk : Chain c

  pub Chain-snoc : (xs : List ℕ) (k : ℕ) → Chain xs → Links xs k → Chain (xs ++ k ∷ [])
  Chain-snoc [] k c l = tt
  Chain-snoc (x ∷ []) k c l = (l, tt)
  Chain-snoc (x ∷ y ∷ r) k (e, c) l = (e, Chain-snoc (y ∷ r) k c l)

  pub Links-snoc : (xs : List ℕ) (k d : ℕ) → Edge k d → Links (xs ++ k ∷ []) d
  Links-snoc [] k d e = e
  Links-snoc (x ∷ []) k d e = e
  Links-snoc (x ∷ y ∷ r) k d e = Links-snoc (y ∷ r) k d e

  record Suffix (k : ℕ) (xs : List ℕ) : Type 0 where
    rest : List ℕ
    same : from_first k xs ≡ k ∷ rest
    chain : Chain (k ∷ rest)
    links : Links (k ∷ rest) k

  -- The walk starts at its first element.
  whole : (x k : ℕ) (xs : List ℕ) → x ≡ k → Chain (x ∷ xs) → Links (x ∷ xs) k → Suffix k (x ∷ xs)
  whole x k xs e c l =
      subst (λ z. Suffix z (x ∷ xs)) e
        (record {
          rest = xs;
          same = rw (==_refl x) refl;
          chain = c;
          links = subst (Links (x ∷ xs)) (sym e) l;
        })

  suffix : (k : ℕ) (xs : List ℕ) → member k xs ≡ true → Chain xs → Links xs k → Suffix k xs
  suffix k [] h c l = ground arith
  suffix k (x ∷ []) h c l = let e : x ≡ k = ground arith in whole x k [] e c l
  suffix k (x ∷ y ∷ r) h c l = elim (Bool-cases (x == k)) [
    | inl e ↦ whole x k (y ∷ r) ((==_iff x k).0 e) c l
    | inr e ↦
        let s = suffix k (y ∷ r) (ground arith) c.1 l in
        record { rest = s.rest; same = rw e (s.same); chain = s.chain; links = s.links }
  ]

  -- A back edge from the top of the stack closes a walk.
  pub close-IsCycle :
      (k : ℕ) (xs : List ℕ)
      → member k xs ≡ true
      → Chain xs
      → Links xs k
      → IsCycle (from_first k xs ++ k ∷ [])
  close-IsCycle k xs h c l =
      let s = suffix k xs h c l in
      rw s.same (record {
        first = k;
        rest = s.rest;
        closes = refl;
        walk = Chain-snoc (k ∷ s.rest) k s.chain s.links;
      })

  -- Numbers that fall along every edge from a task with `P` rule out a walk that closes.
  walk_falls :
      (rank : ℕ → ℕ) (P : ℕ → Type 0)
      → ((u v : ℕ) → P u → Edge u v → P v × (rank v < rank u))
      → (x : ℕ) (xs : List ℕ) (k : ℕ) → P x
      → Chain (x ∷ xs ++ k ∷ [])
      → rank k < rank x
  walk_falls rank P fall x [] k p (e, _) = (fall x k p e).1
  walk_falls rank P fall x (y ∷ ys) k p (e, c) =
      let (q, less) = fall x y p e in let rest = walk_falls rank P fall y ys k q c in omega arith

  pub no_cycle :
      (rank : ℕ → ℕ) (P : ℕ → Type 0)
      → ((u v : ℕ) → P u → Edge u v → P v × (rank v < rank u))
      → ((u v : ℕ) → Edge u v → P u)
      → (c : List ℕ) → IsCycle c
      → ⊥
  no_cycle rank P fall starts c i = let w = subst Chain i.closes i.walk in by i.first i.rest w
    where
      by : (k : ℕ) (rest : List ℕ) → Chain (k ∷ rest ++ k ∷ []) → ⊥
      by k [] (e, t) = let less = walk_falls rank P fall k [] k (starts k k e) (e, t) in omega arith
      by k (y ∷ r) (e, t) =
          let less = walk_falls rank P fall k (y ∷ r) k (starts k y e) (e, t) in omega arith
