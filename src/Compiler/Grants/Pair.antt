-- ===== src/Compiler/Grants/Pair.antt =====
-- What the tests on two grants and on their headers tell.
use xmcl_shared_node_agent.Base.{
  ◌≡◌, true, [], ◌∷◌, String, refl, sym, ◌∙◌, ap, ◌⊎◌, inl, inr, false, some, Bool-cases, List,
  arith, and-left, length,
}
use xmcl_shared_node_agent.Js.Value.{
  Value, get, strict_eq, undefined, null, str, obj, keys, same_keys, same_list,
}
use xmcl_shared_node_agent.Js.Value.Equal.{eq-str_strict}
use xmcl_shared_node_agent.Js.Text.{sort}
use xmcl_shared_node_agent.Js.Text.Order.{sort-ne}
use xmcl_shared_node_agent.Js.Fault.{ok}
use xmcl_shared_node_agent.Compiler.Grants.{
  find_method, has_exact_headers, has_exact_output_headers,
}

-- Headers that are not there, or an object with no field.
abbrev pub NoHeaders : Value → Type 0
NoHeaders undefined = Unit
NoHeaders (obj fs) = keys fs ≡ []
NoHeaders _ = ⊥

no_keys : (names : List String) → same_list (sort names) [] ≡ true → names ≡ []
no_keys [] h = refl
no_keys (k ∷ names) h =
    elim (sort (k ∷ names))
        as (λ ns. (sort (k ∷ names) ≡ ns) → same_list ns [] ≡ true → k ∷ names ≡ []) [
          | [] ↦ λ e g. absurd (sort-ne k names e)
          | n ∷ ns ↦ λ e g. cc g
        ]
      refl h

pub has_exact_headers-NoHeaders : (v : Value) → has_exact_headers v [] ≡ true → NoHeaders v
unfolding has_exact_headers same_keys
has_exact_headers-NoHeaders undefined h = tt
has_exact_headers-NoHeaders (obj fs) h = no_keys (keys fs) (and-left _ _ h)
has_exact_headers-NoHeaders _ h = cc

pub has_exact_output_headers-only :
    (v : Value) → has_exact_output_headers v ≡ true → get v "if-none-match" ≡ str "*"
unfolding has_exact_output_headers has_exact_headers
has_exact_output_headers-only v h = eq-str_strict (get v "if-none-match") "*" (ground arith)

other_method : str "GET" ≡ str "PUT" → ⊥
other_method h = let odd : false ≡ true = ap (λ v. strict_eq v (str "PUT")) h in cc odd

-- A grant is one of a list.
abbrev pub In : Value → List Value → Type 0
In g [] = ⊥
In g (v ∷ gs) = (v ≡ g) ⊎ In g gs

pub find_method-In :
    (method : String) (gs : List Value) (g : Value)
    → find_method method gs ≡ ok (some g)
    → In g gs × (get g "method" ≡ str method)
unfolding find_method
find_method-In method [] g h = cc
find_method-In method (undefined ∷ gs) g h = cc
find_method-In method (null ∷ gs) g h = cc
find_method-In method (v ∷ gs) g h = elim (Bool-cases (strict_eq (get v "method") (str method))) [
  | inl here ↦
      let same : v ≡ g = ground arith in
      (inl same, ap (λ u. get u "method") (sym same) ∙ eq-str_strict (get v "method") method here)
  | inr there ↦ let later = find_method-In method gs g (rw there at h) in (inr later.0, later.1)
]

-- Two grants of different methods in a list of two are the whole list.
pub two_grants :
    (gs : List Value) (input output : Value)
    → length gs ≡ 2
    → In input gs
    → In output gs
    → get input "method" ≡ str "GET"
    → get output "method" ≡ str "PUT"
    → (gs ≡ input ∷ output ∷ []) ⊎ (gs ≡ output ∷ input ∷ [])
two_grants (a ∷ b ∷ []) input output two (inl p) (inr (inl q)) gets puts =
    inl (ap (λ v. v ∷ b ∷ []) p ∙ ap (λ v. input ∷ v ∷ []) q)
two_grants (a ∷ b ∷ []) input output two (inr (inl p)) (inl q) gets puts =
    inr (ap (λ v. v ∷ b ∷ []) q ∙ ap (λ v. output ∷ v ∷ []) p)
two_grants (a ∷ b ∷ []) input output two (inl p) (inl q) gets puts =
    absurd (other_method (sym gets ∙ ap (λ v. get v "method") (sym p ∙ q) ∙ puts))
two_grants (a ∷ b ∷ []) input output two (inr (inl p)) (inr (inl q)) gets puts =
    absurd (other_method (sym gets ∙ ap (λ v. get v "method") (sym p ∙ q) ∙ puts))
two_grants (a ∷ b ∷ []) input output two (inr (inr p)) q gets puts = absurd p
two_grants (a ∷ b ∷ []) input output two p (inr (inr q)) gets puts = absurd q
two_grants [] input output two p q gets puts = absurd p
two_grants (a ∷ []) input output two p q gets puts = absurd (omega arith)
two_grants (a ∷ b ∷ c ∷ gs) input output two p q gets puts = absurd (omega arith)
