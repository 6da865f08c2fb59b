-- ===== src/Limits/Tests.antt =====
-- The size check at a concrete list.
use xmcl_shared_node_agent.Base.{ℕ, ◌≡◌, ◌↔◌, true, [], ◌∷◌}
use xmcl_shared_node_agent.Js.Value.{int}
use xmcl_shared_node_agent.Limits.{output_size_within_limit}
use xmcl_shared_node_agent.Limits.Sizes.{IsLimit, Fits, output_size_within_limit_iff}

output_size_within_limit_iff_example :
    (output_size_within_limit (int 3 ∷ int 4 ∷ []) (int 8) ≡ true)
    ↔ ((maximum : ℕ) × IsLimit (int 8) maximum × Fits maximum 0 (int 3 ∷ int 4 ∷ []))
output_size_within_limit_iff_example = output_size_within_limit_iff (int 3 ∷ int 4 ∷ []) (int 8)
