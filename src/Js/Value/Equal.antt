-- ===== src/Js/Value/Equal.antt =====
-- What a `===` with a string or an integer tells of the other side.
use xmcl_shared_node_agent.Base.{ℕ, String, ◌≡◌, refl, ap, true, false, arith, eq_iff}
use xmcl_shared_node_agent.Base.Int.{pos, negsuc}
use xmcl_shared_node_agent.Js.Value.{Value, undefined, null, bool, num, real, str, int, strict_eq}

pub strict_eq-str : (s : String) (v : Value) → strict_eq (str s) v ≡ true → v ≡ str s
strict_eq-str s (str t) h = ap str (ground (arith, eq_iff s t))
strict_eq-str s undefined h = cc
strict_eq-str s _ h = cc

pub eq-str_strict : (v : Value) (s : String) → strict_eq v (str s) ≡ true → v ≡ str s
eq-str_strict (str t) s h = ap str (ground (arith, eq_iff t s))
eq-str_strict (bool true) s h = cc
eq-str_strict (bool false) s h = cc
eq-str_strict _ s h = cc

pub strict_eq-int : (n : ℕ) (v : Value) → strict_eq (int n) v ≡ true → v ≡ int n
strict_eq-int n (num (pos m)) h = ground arith
strict_eq-int n (num (negsuc m)) h = cc
strict_eq-int n _ h = cc

pub eq-int_strict : (v : Value) (n : ℕ) → strict_eq v (int n) ≡ true → v ≡ int n
eq-int_strict (num (pos m)) n h = ground arith
eq-int_strict (num (negsuc m)) n h = cc
eq-int_strict (bool true) n h = cc
eq-int_strict (bool false) n h = cc
eq-int_strict _ n h = cc

-- What is `===` is one value.
pub strict_eq-same : (v w : Value) → strict_eq v w ≡ true → v ≡ w
strict_eq-same undefined undefined h = refl
strict_eq-same null null h = refl
strict_eq-same (bool true) (bool true) h = refl
strict_eq-same (bool false) (bool false) h = refl
strict_eq-same (num (pos a)) (num (pos b)) h = ap (λ n. num (pos n)) (ground arith)
strict_eq-same (num (negsuc a)) (num (negsuc b)) h = ap (λ n. num (negsuc n)) (ground arith)
strict_eq-same (real a) (real b) h = ap real (ground (arith, eq_iff a b))
strict_eq-same (str a) (str b) h = ap str ((eq_iff a b).0 h)
strict_eq-same _ _ h = cc
