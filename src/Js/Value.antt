-- ===== src/Js/Value.antt =====
-- Values that arrive as JSON or from an untyped caller, with the tests that the source makes on
-- them (`plainObject`, `sameKeys`, `Number.isSafeInteger`, `===`).
pub mod Equal
use xmcl_shared_node_agent.Base.{
  ℕ, ◌-◌, ◌^◌, String, Bool, true, false, not, ◌&&◌, List, [], ◌∷◌, leb, if◌then◌else◌, str_eq,
  ◌==◌, any,
}
use xmcl_shared_node_agent.Base.Int.{ℤ, pos, negsuc, eq_int}
use xmcl_shared_node_agent.Js.Text.{sort}

-- `num` is a number with no fraction, `real` any other number (its text, with "NaN").
mutual
  pub data Value : Type 0 where
    undefined : Value
    null : Value
    bool : Bool → Value
    num : ℤ → Value
    real : String → Value
    str : String → Value
    obj : Fields → Value
    arr : Items → Value

  pub data Fields : Type 0 where
    end : Fields
    field : String → Value → Fields → Fields

  pub data Items : Type 0 where
    nil : Items
    cons : Value → Items → Items

-- An integer literal of the source.
abbrev pub int : ℕ → Value
int n = num (pos n)

unfoldable pub items : Items → List Value
items nil = []
items (cons v vs) = v ∷ items vs

unfoldable pub of_list : List Value → Items
of_list [] = nil
of_list (v ∷ vs) = cons v (of_list vs)

-- `Object.keys(value)`
unfoldable pub keys : Fields → List String
keys end = []
keys (field k v fs) = k ∷ keys fs

unfoldable pub lookup : Fields → String → Value
lookup end k = undefined
lookup (field j v fs) k = if str_eq j k then v else lookup fs k

-- `value?.[k]`, where the value has no such property of its own kind
unfoldable pub get : Value → String → Value
unfolding lookup
get (obj fs) k = lookup fs k
get _ k = undefined

-- `plainObject`
abbrev pub plain_object : Value → Bool
plain_object (obj fs) = true
plain_object _ = false

abbrev pub is_array : Value → Bool
is_array (arr vs) = true
is_array _ = false

-- The elements of an array.
unfoldable pub elements : Value → List Value
unfolding items
elements (arr vs) = items vs
elements _ = []

abbrev pub max_safe : ℕ
max_safe = 2 ^ 53 - 1

-- `Number.isSafeInteger` on a number with no fraction
abbrev pub safe_int : ℤ → Bool
safe_int (pos n) = leb n max_safe
safe_int (negsuc n) = leb n (max_safe - 1)

abbrev pub is_safe_integer : Value → Bool
is_safe_integer (num z) = safe_int z
is_safe_integer _ = false

abbrev pub is_undefined : Value → Bool
is_undefined undefined = true
is_undefined _ = false

-- `v` as a condition
abbrev pub truthy : Value → Bool
truthy undefined = false
truthy null = false
truthy (bool b) = b
truthy (num (pos n)) = not (n == 0)
truthy (num (negsuc n)) = true
truthy (real s) = not (str_eq s "NaN")
truthy (str s) = not (str_eq s "")
truthy (arr vs) = true
truthy (obj fs) = true

-- `===`; two objects are never taken for one
abbrev pub strict_eq : Value → Value → Bool
strict_eq undefined undefined = true
strict_eq null null = true
strict_eq (bool true) (bool b) = b
strict_eq (bool false) (bool b) = not b
strict_eq (num a) (num b) = eq_int a b
strict_eq (real a) (real b) = not (str_eq a "NaN") && str_eq a b
strict_eq (str a) (str b) = str_eq a b
strict_eq _ _ = false

-- `typeof v === "string" && p(v)`
abbrev pub string_that : (String → Bool) → Value → Bool
string_that p (str s) = p s
string_that p _ = false

abbrev pub is_string : Value → Bool
is_string = string_that (λ _. true)

-- `["a", "b"].includes(v)`
abbrev pub one_of : List String → Value → Bool
one_of options v = any (λ s. strict_eq v (str s)) options

abbrev pub same_list : List String → List String → Bool
same_list [] [] = true
same_list (a ∷ as') (b ∷ bs) = str_eq a b && same_list as' bs
same_list _ _ = false

-- `sameKeys` and `hasExactKeys`: the sorted lists of keys agree
unfoldable pub same_keys : Value → List String → Bool
unfolding sort keys
same_keys (obj fs) expected = same_list (sort (keys fs)) (sort expected)
same_keys _ expected = false
