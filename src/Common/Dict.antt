-- ===== src/Common/Dict.antt =====
-- JavaScript's `Map` with string keys, as the list of its entries in insertion order: `set` on a key
-- that is there replaces the value in place, on a new key it appends.
use Prim.Native.Nat.{◌+◌, ◌≤◌}
use Prim.Native.String.{String}
use mathlib.Core.Path.{◌≡◌, refl}
use mathlib.Core.Option.{Option, none, some}
use mathlib.Core.List.{List, [], ◌∷◌, ◌++◌}
use native.Mathlib.Omega.{arith}
use text.Mathlib.Text.{◌==◌}
use text.Mathlib.TextEquality.{eq_iff}
use text.Mathlib.TextPositions.{eq_refl}
use delta_agents.Common.Tests.{if◌then◌else◌}
use delta_agents.Common.Lists.{length}

abbrev pub Dict {ℓ} : Type ℓ → Type ℓ
Dict V = List (String × V)

module _ {ℓ} {V : Type ℓ} where
  unfoldable pub get : Dict V → String → Option V
  get [] k = none
  get ((j, v) ∷ m) k = if j == k then some v else get m k

  unfoldable pub put : Dict V → String → V → Dict V
  put [] k v = (k, v) ∷ []
  put ((j, w) ∷ m) k v = if j == k then (j, v) ∷ m else (j, w) ∷ put m k v

  -- A `Map` holds a key once, so the first entry of a key is the only one; every one is removed.
  unfoldable pub remove : Dict V → String → Dict V
  remove [] k = []
  remove ((j, v) ∷ m) k = let rest = remove m k in if j == k then rest else (j, v) ∷ rest

  unfoldable pub keys : Dict V → List String
  keys [] = []
  keys ((j, v) ∷ m) = j ∷ keys m

  unfoldable pub values : Dict V → List V
  values [] = []
  values ((j, v) ∷ m) = v ∷ values m

  pub get-put :
      (m : Dict V) (k j : String) (v : V) → get (put m k v) j ≡ (if k == j then some v else get m j)
  unfolding get put
  get-put [] k j v = refl
  get-put ((i, w) ∷ m) k j v = ground (arith, eq_iff k j, eq_iff i k, eq_iff i j, get-put m k j v)

  pub get-remove :
      (m : Dict V) (k j : String) → get (remove m k) j ≡ (if k == j then none else get m j)
  unfolding get remove
  get-remove [] k j = ground arith
  get-remove ((i, w) ∷ m) k j = ground (arith, eq_iff k j, eq_iff i k, eq_iff i j, get-remove m k j)

  -- a new key goes to the end
  pub values-put :
      (m : Dict V) (k : String) (v : V) → get m k ≡ none → values (put m k v) ≡ values m ++ v ∷ []
  unfolding get put values
  values-put [] k v h = refl
  values-put ((j, w) ∷ m) k v h = ground (arith, values-put m k v)

  pub put-put : (m : Dict V) (k : String) (v w : V) → put (put m k v) k w ≡ put m k w
  unfolding put
  put-put [] k v w = ground (arith, eq_refl k)
  put-put ((j, u) ∷ m) k v w = ground (arith, put-put m k v w)

  pub length-put : (m : Dict V) (k : String) (v : V) → length (put m k v) ≤ length m + 1
  unfolding put
  length-put [] k v = omega arith
  length-put ((j, w) ∷ m) k v = ground (arith, length-put m k v)

  pub length-remove : (m : Dict V) (k : String) → length (remove m k) ≤ length m
  unfolding remove
  length-remove [] k = omega arith
  length-remove ((j, w) ∷ m) k = ground (arith, length-remove m k)

pub ruleset dict_laws = (get-put, get-remove)
