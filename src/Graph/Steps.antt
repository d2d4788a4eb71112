-- ===== src/Graph/Steps.antt =====
-- Entering and leaving a task in the search of src/dyro/graph.py.
use dyro_engineering_flow.Prelude.{
  or_false, absurd_bool, ℕ, suc, ◌<◌, ◌≤◌, ◌≡◌, refl, sym, ap, subst, ◌∙◌, Bool, true, false, ◌||◌,
  List, [], ◌∷◌, ◌++◌, arith, ◌==◌, ==_iff, ==_refl, member, max, ◌⊎◌, if◌then◌else◌, Bool-cases,
  inl, inr,
}
use dyro_engineering_flow.Graph.Cycles.{
  Color, white, visiting, visited, Search, paint, pop_last, enter, leave, is_white,
}
use dyro_engineering_flow.Graph.Walks.{pop_last_snoc, member-snoc, Edge, Chain, Links, Chain-snoc}
use dyro_engineering_flow.Graph.Search.{is_visiting, is_visited, Ranked, Inv, Later, Done}

or_true : (b : Bool) → (b || true) ≡ true
or_true true = refl
or_true false = refl

-- A color is one of three.
white-visiting : (c : Color) → is_white c ≡ true → is_visiting c ≡ false
white-visiting white h = refl
white-visiting visiting h = absurd_bool (sym h)
white-visiting visited h = refl

white-visited : (c : Color) → is_white c ≡ true → is_visited c ≡ false
white-visited white h = refl
white-visited visiting h = absurd_bool (sym h)
white-visited visited h = absurd_bool (sym h)

visiting-visited : (c : Color) → is_visiting c ≡ true → is_visited c ≡ false
visiting-visited white h = refl
visiting-visited visiting h = refl
visiting-visited visited h = absurd_bool (sym h)

pub paint_self : (colors : ℕ → Color) (k : ℕ) (c : Color) → paint colors k c k ≡ c
paint_self colors k c = rw (==_refl k) refl

-- Painting `k` leaves any other task alone.
pub paint_ne :
    (colors : ℕ → Color) (k : ℕ) (c : Color) (j : ℕ)
    → (j == k) ≡ false
    → paint colors k c j ≡ colors j
paint_ne colors k c j h = rw h refl

-- A number above those of a list.
top : (ℕ → ℕ) → List ℕ → ℕ
top rank [] = 0
top rank (x ∷ xs) = max (rank x) (top rank xs)

le-top : (rank : ℕ → ℕ) (xs : List ℕ) (v : ℕ) → member v xs ≡ true → rank v ≤ top rank xs
unfolding top
le-top rank [] v h = ground arith
le-top rank (x ∷ xs) v h = elim (Bool-cases (x == v)) [
  | inl e ↦ let same = ap rank ((==_iff x v).0 e) in omega (arith, same)
  | inr e ↦ let rest = le-top rank xs v (rw e at h) in omega (arith, rest)
]

module _ (deps : ℕ → List ℕ) (k : ℕ) where
  enter-Ranked :
      (colors : ℕ → Color)
      → is_white (colors k) ≡ true
      → Ranked deps colors
      → Ranked deps (paint colors k visiting)
  enter-Ranked colors w (rank, fall) = (rank, λ u v h e. by u v h e (Bool-cases (u == k)))
    where
      other :
          (u v : ℕ) → is_visited (colors v) ≡ true → is_visited (paint colors k visiting v) ≡ true
      other u v h = elim (Bool-cases (v == k)) [
        | inl e ↦ absurd_bool (
            sym h ∙ ap (λ j. is_visited (colors j)) ((==_iff v k).0 e) ∙ white-visited (colors k) w)
        | inr e ↦ ap is_visited (paint_ne colors k visiting v e) ∙ h
      ]

      by :
          (u v : ℕ)
          → is_visited (paint colors k visiting u) ≡ true
          → Edge deps u v
          → ((u == k) ≡ true) ⊎ ((u == k) ≡ false)
          → (is_visited (paint colors k visiting v) ≡ true) × (rank v < rank u)
      by u v h e (inl same) = absurd_bool (sym h ∙ rw same refl)
      by u v h e (inr differs) =
          let (x, less) =
            fall u v (sym (ap is_visited (paint_ne colors k visiting u differs)) ∙ h) e in
          (other u v x, less)

  pub enter-Inv :
      (s : Search)
      → Inv deps s
      → is_white (s.colors k) ≡ true
      → Links deps s.stack k
      → Inv deps (enter k s)
  enter-Inv s i w l = record {
    walk = Chain-snoc deps s.stack k i.walk l;
    on_stack = λ j. by j (Bool-cases (j == k));
    sound = i.sound;
    kept = i.kept;
    ranked = λ e. enter-Ranked s.colors w (i.ranked e);
  }
    where
      by :
          (j : ℕ)
          → ((j == k) ≡ true) ⊎ ((j == k) ≡ false)
          → is_visiting (paint s.colors k visiting j) ≡ member j (s.stack ++ k ∷ [])
      by j (inl e) = let m = member-snoc j k s.stack in let q = i.on_stack j in ground arith
      by j (inr e) = let m = member-snoc j k s.stack in let q = i.on_stack j in ground arith

  -- The number of a task that is finished now lies above those of its dependencies.
  leave-Ranked :
      (colors : ℕ → Color)
      → is_visited (colors k) ≡ false
      → ((d : ℕ) → member d (deps k) ≡ true → is_visited (colors d) ≡ true)
      → Ranked deps colors
      → Ranked deps (paint colors k visited)
  leave-Ranked colors w done (rank, fall) = (
    λ j. if j == k then suc (top rank (deps k)) else rank j,
    λ u v h e. by u v h e (Bool-cases (u == k)) (Bool-cases (v == k)),
  )
    where
      by :
          (u v : ℕ)
          → is_visited (paint colors k visited u) ≡ true
          → Edge deps u v
          → ((u == k) ≡ true) ⊎ ((u == k) ≡ false)
          → ((v == k) ≡ true) ⊎ ((v == k) ≡ false)
          → (is_visited (paint colors k visited v) ≡ true)
            × ((if v == k then suc (top rank (deps k)) else rank v)
                < (if u == k then suc (top rank (deps k)) else rank u))
      by u v h e (inl a) (inl b) =
          let x = done v (subst (λ j. Edge deps j v) ((==_iff u k).0 a) e) in
          absurd_bool (sym x ∙ ap (λ j. is_visited (colors j)) ((==_iff v k).0 b) ∙ w)
      by u v h e (inl a) (inr b) =
          let edge = subst (λ j. Edge deps j v) ((==_iff u k).0 a) e in
          let bound = le-top rank (deps k) v edge in rw (a, b) (done v edge, omega (arith, bound))
      by u v h e (inr a) (inl b) =
          let (x, _) = fall u v (sym (ap is_visited (paint_ne colors k visited u a)) ∙ h) e in
          absurd_bool (sym x ∙ ap (λ j. is_visited (colors j)) ((==_iff v k).0 b) ∙ w)
      by u v h e (inr a) (inr b) =
          let (x, less) = fall u v (sym (ap is_visited (paint_ne colors k visited u a)) ∙ h) e in
          rw (a, b) (x, less)

  -- From a search that entered `k` and followed all its dependencies.
  pub leave-Done :
      (s t : Search)
      → is_white (s.colors k) ≡ true
      → Inv deps s
      → Later deps (enter k s) t
      → (t.found ≡ [] → (d : ℕ) → member d (deps k) ≡ true → is_visited (t.colors d) ≡ true)
      → Done deps k s (leave k t)
  leave-Done s t w i l done = record {
    later = record {
      stack = same;
      inv = record {
        walk = subst (Chain deps) (sym same) i.walk;
        on_stack = λ j.
            subst (λ xs. is_visiting (paint t.colors k visited j) ≡ member j xs) (sym same)
              (stacked j (Bool-cases (j == k)));
        sound = l.inv.sound;
        kept = l.inv.kept;
        ranked = λ e. leave-Ranked t.colors entered (done e) (l.inv.ranked e);
      };
      whites = λ j h. whites j h (Bool-cases (j == k));
      finished = λ j h. finished j h (Bool-cases (j == k));
      earlier = l.earlier;
    };
    complete = λ _. ap is_visited (paint_self t.colors k visited);
  }
    where
      same : pop_last t.stack ≡ s.stack
      same = ap pop_last l.stack ∙ pop_last_snoc s.stack k

      top_stack : is_visiting (t.colors k) ≡ true
      top_stack =
          let m = member-snoc k k s.stack in
          let r = ==_refl k in
          let q : is_visiting (t.colors k) ≡ member k (s.stack ++ k ∷ []) =
            l.inv.on_stack k ∙ ap (member k) l.stack in
          q ∙ m ∙ rw (r, or_true (member k s.stack)) refl

      entered : is_visited (t.colors k) ≡ false
      entered = visiting-visited (t.colors k) top_stack

      stacked :
          (j : ℕ)
          → ((j == k) ≡ true) ⊎ ((j == k) ≡ false)
          → is_visiting (paint t.colors k visited j) ≡ member j s.stack
      stacked j (inl e) = rw e (
          sym (
            white-visiting (s.colors j)
              (subst (λ x. is_white (s.colors x) ≡ true) (sym ((==_iff j k).0 e)) w))
          ∙ i.on_stack j)
      stacked j (inr e) =
          let differs : (k == j) ≡ false = ground arith in
          rw e (
            l.inv.on_stack j
            ∙ ap (member j) l.stack
            ∙ member-snoc j k s.stack
            ∙ rw (differs, or_false (member j s.stack)) refl)

      whites :
          (j : ℕ)
          → is_white (paint t.colors k visited j) ≡ true
          → ((j == k) ≡ true) ⊎ ((j == k) ≡ false)
          → is_white (s.colors j) ≡ true
      whites j h (inl e) = absurd_bool (sym h ∙ rw e refl)
      whites j h (inr e) =
          sym (ap is_white (paint_ne s.colors k visiting j e))
          ∙ l.whites j (sym (ap is_white (paint_ne t.colors k visited j e)) ∙ h)

      finished :
          (j : ℕ)
          → is_visited (s.colors j) ≡ true
          → ((j == k) ≡ true) ⊎ ((j == k) ≡ false)
          → is_visited (paint t.colors k visited j) ≡ true
      finished j h (inl e) = rw e refl
      finished j h (inr e) =
          ap is_visited (paint_ne t.colors k visited j e)
          ∙ l.finished j (ap is_visited (paint_ne s.colors k visiting j e) ∙ h)
