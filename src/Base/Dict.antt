-- ===== src/Base/Dict.antt =====
-- JavaScript's `Map` with string keys: a list of entries in the order of insertion. A `set` of a
-- present key keeps its place, a new key goes to the end.
pub mod Distinct
use Prim.Native.Nat.{suc, ◌≤◌, ◌<◌}
use Prim.Native.String.{String}
use mathlib.Core.Path.{◌≡◌, refl}
use mathlib.Core.Bool.{Bool, true}
use mathlib.Core.Option.{Option, none, some}
use mathlib.Core.List.{List, [], ◌∷◌}
use native.Mathlib.Omega.{arith}
use text.Mathlib.Text.{◌==◌ as str_eq}
use text.Mathlib.TextEquality.{eq_iff}
use xmcl_shared_node_agent.Base.Tests.{if◌then◌else◌, is_some}
use xmcl_shared_node_agent.Base.Lists.{length}

abbrev pub Dict {ℓ} : Type ℓ → Type ℓ
Dict V = List (String × V)

module _ {ℓ} {V : Type ℓ} where
  unfoldable pub get : Dict V → String → Option V
  get [] k = none
  get ((j, v) ∷ m) k = if str_eq j k then some v else get m k

  unfoldable pub put : Dict V → String → V → Dict V
  put [] k v = (k, v) ∷ []
  put ((j, w) ∷ m) k v = let rest = put m k v in if str_eq j k then (j, v) ∷ m else (j, w) ∷ rest

  unfoldable pub delete : Dict V → String → Dict V
  delete [] k = []
  delete ((j, w) ∷ m) k = let rest = delete m k in if str_eq j k then rest else (j, w) ∷ rest

  abbrev pub has : Dict V → String → Bool
  has m k = is_some (get m k)

  pub get-put :
      (m : Dict V) (k : String) (v : V) (j : String)
      → get (put m k v) j ≡ (if str_eq k j then some v else get m j)
  unfolding get put
  get-put [] k v j = refl
  get-put ((i, w) ∷ m) k v j = ground (arith, eq_iff k j, eq_iff i k, eq_iff i j, get-put m k v j)

  pub get-delete :
      (m : Dict V) (k j : String) → get (delete m k) j ≡ (if str_eq k j then none else get m j)
  unfolding get delete
  get-delete [] k j = ground arith
  get-delete ((i, w) ∷ m) k j = ground (arith, eq_iff k j, eq_iff i k, eq_iff i j, get-delete m k j)

  pub length-put :
      (m : Dict V) (k : String) (v : V)
      → length (put m k v) ≡ (if has m k then length m else suc (length m))
  unfolding get put
  length-put [] k v = refl
  length-put ((i, w) ∷ m) k v = ground (arith, length-put m k v)

  pub length-delete :
      (m : Dict V) (k : String)
      → (length (delete m k) ≤ length m) × (has m k ≡ true → length (delete m k) < length m)
  unfolding get delete
  length-delete [] k = ground arith
  length-delete ((i, w) ∷ m) k = ground (arith, length-delete m k)

pub get-empty {ℓ} : {V : Type ℓ} (k : String) → get {V = V} [] k ≡ none
unfolding get
get-empty k = refl

pub ruleset dict_laws = (get-empty, get-put, get-delete)
