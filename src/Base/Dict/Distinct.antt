-- ===== src/Base/Dict/Distinct.antt =====
-- The keys of a `Map` are distinct, and its operations keep them so.
use Prim.Native.String.{String}
use mathlib.Core.Path.{◌≡◌}
use mathlib.Core.Option.{none}
use mathlib.Core.List.{[], ◌∷◌}
use native.Mathlib.Omega.{arith}
use text.Mathlib.TextEquality.{eq_iff}
use xmcl_shared_node_agent.Base.Dict.{Dict, get, put, delete, get-empty, get-put, get-delete}

module _ {ℓ} {V : Type ℓ} where
  abbrev pub Distinct : Dict V → Type ℓ
  Distinct [] = Unit
  Distinct ((k, v) ∷ m) = (get m k ≡ none) × Distinct m

  pub put-Distinct : (m : Dict V) (k : String) (v : V) → Distinct m → Distinct (put m k v)
  unfolding put
  put-Distinct [] k v h = (get-empty k, tt)
  put-Distinct ((j, w) ∷ m) k v (new, h) =
      ground (arith, get-put m k v j, eq_iff j k, eq_iff k j, put-Distinct m k v h)

  pub delete-Distinct : (m : Dict V) (k : String) → Distinct m → Distinct (delete m k)
  unfolding delete
  delete-Distinct [] k h = tt
  delete-Distinct ((j, w) ∷ m) k (new, h) =
      ground (arith, get-delete m k j, eq_iff j k, eq_iff k j, delete-Distinct m k h)
