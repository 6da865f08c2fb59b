-- ===== src/Js/Text/Order.antt =====
-- The order of strings is strict.
use xmcl_shared_node_agent.Base.{
  ℕ, sym, String, true, List, [], ◌∷◌, ◌≡◌, ◌≢◌, arith, subst, Bool-cases, inl, inr,
}
use xmcl_shared_node_agent.Js.Text.{units, lt_units, lt_string, sort, insert_sorted}

lt_units_irrefl : (a : List ℕ) → lt_units a a ≡ true → ⊥
lt_units_irrefl [] h = cc
lt_units_irrefl (x ∷ a) h = ground (arith, lt_units_irrefl a)

lt_units_trans : (a b c : List ℕ) → lt_units a b ≡ true → lt_units b c ≡ true → lt_units a c ≡ true
lt_units_trans [] [] c h k = cc
lt_units_trans [] (y ∷ b) [] h k = cc
lt_units_trans [] (y ∷ b) (z ∷ c) h k = ground arith
lt_units_trans (x ∷ a) [] c h k = cc
lt_units_trans (x ∷ a) (y ∷ b) [] h k = cc
lt_units_trans (x ∷ a) (y ∷ b) (z ∷ c) h k = ground (arith, lt_units_trans a b c)

pub lt_string-ne : (a b : String) → lt_string a b ≡ true → a ≢ b
unfolding lt_string
lt_string-ne a b h same =
    lt_units_irrefl (units a) (subst (λ s. lt_units (units a) (units s) ≡ true) (sym same) h)

pub lt_string_trans :
    (a b c : String) → lt_string a b ≡ true → lt_string b c ≡ true → lt_string a c ≡ true
unfolding lt_string
lt_string_trans a b c h k = lt_units_trans (units a) (units b) (units c) h k

pub sort-ne : (s : String) (ss : List String) → sort (s ∷ ss) ≢ []
unfolding sort insert_sorted
sort-ne s ss h =
    elim (sort ss) as (λ ts. insert_sorted s ts ≡ [] → ⊥) [
      | [] ↦ λ e. cc e
      | t ∷ ts ↦ λ e. elim (Bool-cases (lt_string t s)) [
        | inl later ↦ cc (rw later at e)
        | inr now ↦ cc (rw now at e)
      ]
    ]
      h
