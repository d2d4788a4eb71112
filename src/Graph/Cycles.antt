-- ===== src/Graph/Cycles.antt =====
-- `_cycles` of src/dyro/graph.py: a depth-first search with three colours. Its recursion takes fuel,
-- one for each task.
use dyro_engineering_flow.Prelude.{
  ℕ, zero, suc, Bool, true, false, ◌&&◌, Option, none, some, List, [], ◌∷◌, ◌++◌, leb, ◌==◌, any,
  length, member, if◌then◌else◌,
}
use dyro_engineering_flow.Prelude.Sort.{sort_by}
use dyro_engineering_flow.Planner.Model.{Task}
use dyro_engineering_flow.Graph.Model.{ids_of, dependencies}

-- `white` has no entry in the dictionary of the code.
pub data Color : Type 0 where
  white visiting visited : Color

pub record Search : Type 0 where
  pub colors : ℕ → Color
  pub stack : List ℕ
  pub found : List (List ℕ)
  pub seen : List (List ℕ)

abbrev pub paint : (ℕ → Color) → ℕ → Color → ℕ → Color
paint colors k c j = if j == k then c else colors j

-- `stack[stack.index(k):]`
abbrev pub from_first : ℕ → List ℕ → List ℕ
from_first k [] = []
from_first k (x ∷ xs) = let rest = from_first k xs in if x == k then x ∷ xs else rest

-- `stack.pop()` of the last element
abbrev pub pop_last : List ℕ → List ℕ
pop_last [] = []
pop_last (x ∷ []) = []
pop_last (x ∷ y ∷ xs) = x ∷ pop_last (y ∷ xs)

-- `set`, and its order
abbrev pub unique : List ℕ → List ℕ
unique [] = []
unique (x ∷ xs) = let rest = unique xs in if member x rest then rest else x ∷ rest

abbrev pub same_ids : List ℕ → List ℕ → Bool
same_ids [] [] = true
same_ids (a ∷ xs) (b ∷ ys) = a == b && same_ids xs ys
same_ids _ _ = false

-- A back edge to `k`: the cycle is kept if no cycle of the same tasks was.
unfoldable pub close_cycle : ℕ → Search → Search
unfolding sort_by
close_cycle k s =
    let cycle = from_first k s.stack ++ k ∷ [] in
    let key = sort_by leb (unique cycle) in
    if any (same_ids key) s.seen
    then s
    else record s { seen = key ∷ s.seen; found = s.found ++ cycle ∷ [] }

-- The body of the loop over the dependencies, for the recursive call `visit`.
abbrev pub follow : (ℕ → Search → Option Search) → ℕ → Color → Search → Option Search
follow visit k white s = visit k s
follow visit k visiting s = some (close_cycle k s)
follow visit k visited s = some s

unfoldable pub follow_all : (ℕ → Search → Option Search) → List ℕ → Search → Option Search
follow_all visit [] s = some s
follow_all visit (k ∷ ks) s = elim (follow visit k (s.colors k) s) [
  | none ↦ none
  | some s' ↦ follow_all visit ks s'
]

abbrev pub enter : ℕ → Search → Search
enter k s = record s { colors = paint s.colors k visiting; stack = s.stack ++ k ∷ [] }

abbrev pub leave : ℕ → Search → Search
leave k s = record s { colors = paint s.colors k visited; stack = pop_last s.stack }

unfoldable pub visit : (ℕ → List ℕ) → ℕ → ℕ → Search → Option Search
unfolding follow_all
visit deps zero k s = none
visit deps (suc fuel) k s = elim (follow_all (visit deps fuel) (deps k) (enter k s)) [
  | none ↦ none
  | some s' ↦ some (leave k s')
]

abbrev pub is_white : Color → Bool
is_white white = true
is_white _ = false

unfoldable pub visit_all : (ℕ → List ℕ) → ℕ → List ℕ → Search → Option Search
visit_all deps fuel [] s = some s
visit_all deps fuel (k ∷ ks) s =
    elim (if is_white (s.colors k) then visit deps fuel k s else some s) [
      | none ↦ none
      | some s' ↦ visit_all deps fuel ks s'
    ]

abbrev pub start : Search
start = record { colors = λ _. white; stack = []; found = []; seen = [] }

unfoldable pub cycles : List Task → Option (List (List ℕ))
unfolding visit_all visit dependencies sort_by close_cycle
cycles tasks =
    let ids = sort_by leb (unique (ids_of tasks)) in
    elim (visit_all (dependencies tasks) (length ids) ids start) [
      | none ↦ none
      | some s ↦ some s.found
    ]
