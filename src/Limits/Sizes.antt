-- ===== src/Limits/Sizes.antt =====
-- The size check of compiler/src/production-limits.mjs against the sum that it bounds.
use xmcl_shared_node_agent.Base.{
  ℕ, ◌+◌, ◌≤◌, ◌≡◌, refl, ap, ◌↔◌, true, List, [], ◌∷◌, map, arith, All, sum,
}
use xmcl_shared_node_agent.Base.Int.{pos}
use xmcl_shared_node_agent.Js.Value.{Value, num, int, max_safe}
use xmcl_shared_node_agent.Limits.{max_file_bytes, size_fits, sizes_from, output_size_within_limit}

-- What the loop promises, from a running total.
pub record Fits (maximum total : ℕ) (sizes : List Value) : Type 0 where
  pub counts : List ℕ
  pub same : sizes ≡ map int counts
  pub each : All (λ n. n ≤ max_file_bytes) counts
  pub bounded : total + sum counts ≤ maximum

sizes_from_sound :
    (maximum total : ℕ) (sizes : List Value)
    → total ≤ maximum
    → sizes_from maximum total sizes ≡ true
    → Fits maximum total sizes
unfolding sizes_from
sizes_from_sound maximum total [] t h = record {
  counts = [];
  same = refl;
  each = tt;
  bounded = omega arith;
}
sizes_from_sound maximum total (num (pos size) ∷ sizes) t h =
    let fits : size_fits maximum total size ≡ true = ground arith in
    let rest = sizes_from_sound maximum (total + size) sizes (ground arith) (ground arith) in
    record {
      counts = size ∷ rest.counts;
      same = ap (λ r. num (pos size) ∷ r) rest.same;
      each = (ground arith, rest.each);
      bounded = omega (arith, rest.bounded);
    }
sizes_from_sound maximum total (_ ∷ sizes) t h = cc

sizes_from_complete :
    (maximum total : ℕ) (counts : List ℕ)
    → maximum ≤ max_safe
    → All (λ n. n ≤ max_file_bytes) counts
    → total + sum counts ≤ maximum
    → sizes_from maximum total (map int counts) ≡ true
unfolding sizes_from
sizes_from_complete maximum total [] m each bound = refl
sizes_from_complete maximum total (n ∷ ns) m (here, later) bound =
    let rest = sizes_from_complete maximum (total + n) ns m later (omega arith) in ground arith

abbrev pub IsLimit : Value → ℕ → Type 0
IsLimit v maximum = (v ≡ int maximum) × (1 ≤ maximum) × (maximum ≤ max_safe)

sizes_sound :
    (sizes : List Value) (v : Value)
    → output_size_within_limit sizes v ≡ true
    → (maximum : ℕ) × IsLimit v maximum × Fits maximum 0 sizes
unfolding output_size_within_limit
sizes_sound sizes (num (pos maximum)) h = (
  maximum,
  (refl, ground arith, ground arith),
  sizes_from_sound maximum 0 sizes (omega arith) (ground arith),
)
sizes_sound sizes _ h = cc

sizes_complete :
    (sizes : List Value) (v : Value) (maximum : ℕ)
    → IsLimit v maximum
    → Fits maximum 0 sizes
    → output_size_within_limit sizes v ≡ true
unfolding output_size_within_limit
sizes_complete sizes v maximum (same, low, high) fits =
    let loop = sizes_from_complete maximum 0 fits.counts high fits.each fits.bounded in
    rw (same, fits.same) (ground arith)

-- The check of a build's output sizes accepts exactly the lists of natural numbers, none above the
-- bound on one file, whose sum is within a limit that is a positive safe integer.
pub output_size_within_limit_iff :
    (sizes : List Value) (limit : Value)
    → (output_size_within_limit sizes limit ≡ true)
      ↔ ((maximum : ℕ) × IsLimit limit maximum × Fits maximum 0 sizes)
output_size_within_limit_iff sizes limit =
    (sizes_sound sizes limit, λ (maximum, ok, fits). sizes_complete sizes limit maximum ok fits)
