-- ===== src/Prelude/Dict.antt =====
-- A directory of numbered files: an association list in ascending order of its keys, as
-- `sorted(os.listdir())` shows it.
use Prim.Native.Nat.{ℕ, ◌<◌}
use mathlib.Core.Path.{◌≡◌}
use mathlib.Core.Logic.{◌≢◌}
use mathlib.Core.Option.{Option, none, some}
use mathlib.Core.List.{List, [], ◌∷◌}
use native.Mathlib.Omega.{arith}
use dyro_engineering_flow.Prelude.Tests.{if◌then◌else◌, ltb, ◌==◌}

abbrev pub Dict : Type 0 → Type 0
Dict V = List (ℕ × V)

-- Every number of the list lies above `low`, and they ascend.
abbrev pub IsAscending : ℕ → List ℕ → Type 0
IsAscending low [] = Unit
IsAscending low (k ∷ ks) = (low < k) × IsAscending k ks

module _ {V : Type 0} where
  abbrev pub lookup : ℕ → Dict V → Option V
  lookup k [] = none
  lookup k ((j, v) ∷ d) = if j == k then some v else lookup k d

  -- A file with a new name.
  unfoldable pub create : ℕ → V → Dict V → Dict V
  create k v [] = (k, v) ∷ []
  create k v ((j, w) ∷ d) =
      let rest = create k v d in if ltb k j then (k, v) ∷ (j, w) ∷ d else (j, w) ∷ rest

  abbrev pub keys : Dict V → List ℕ
  keys [] = []
  keys ((k, _) ∷ d) = k ∷ keys d

  pub lookup-create_self :
      (k : ℕ) (v : V) (d : Dict V) → lookup k d ≡ none → lookup k (create k v d) ≡ some v
  unfolding create
  lookup-create_self k v [] h = ground arith
  lookup-create_self k v ((j, w) ∷ d) h = ground (arith, lookup-create_self k v d)

  pub lookup-create_ne :
      (j k : ℕ) (v : V) (d : Dict V) → k ≢ j → lookup j (create k v d) ≡ lookup j d
  unfolding create
  lookup-create_ne j k v [] h = ground arith
  lookup-create_ne j k v ((i, w) ∷ d) h = ground (arith, lookup-create_ne j k v d h)

  -- What stands in the directory stays when a new file is created.
  pub lookup-create_kept :
      (j k : ℕ) (v : V) (d : Dict V) {w : V}
      → lookup k d ≡ none
      → lookup j d ≡ some w
      → lookup j (create k v d) ≡ some w
  lookup-create_kept j k v d absent h = ground (arith, lookup-create_ne j k v d)

  pub create-IsAscending :
      (low k : ℕ) (v : V) (d : Dict V)
      → lookup k d ≡ none
      → low < k
      → IsAscending low (keys d)
      → IsAscending low (keys (create k v d))
  unfolding create
  create-IsAscending low k v [] absent lt h = (lt, tt)
  create-IsAscending low k v ((j, w) ∷ d) absent lt h = ground (arith, create-IsAscending j k v d)
