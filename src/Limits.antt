-- ===== src/Limits.antt =====
-- compiler/src/production-limits.mjs: the bounds on what a build may produce.
pub mod Sizes
mod Tests
use xmcl_shared_node_agent.Base.{
  ℕ, ◌+◌, ◌*◌, ◌&&◌, Bool, true, false, List, [], ◌∷◌, leb, if◌then◌else◌,
}
use xmcl_shared_node_agent.Base.Int.{pos, negsuc}
use xmcl_shared_node_agent.Js.Value.{Value, num, max_safe}

abbrev pub mib : ℕ
mib = 1024 * 1024

-- The fields of `PRODUCTION_OUTPUT_LIMITS`.
abbrev pub max_files : ℕ
max_files = 16384

abbrev pub max_file_bytes : ℕ
max_file_bytes = 256 * mib

abbrev pub max_sandbox_bytes : ℕ
max_sandbox_bytes = 320 * mib

abbrev pub max_package_input_bytes : ℕ
max_package_input_bytes = 384 * mib

abbrev pub max_bundle_archive_bytes : ℕ
max_bundle_archive_bytes = 400 * mib

abbrev pub max_package_tar_bytes : ℕ
max_package_tar_bytes = 400 * mib

abbrev pub max_package_archive_bytes : ℕ
max_package_archive_bytes = 401 * mib

-- One round of the loop asks whether this size may be added.
unfoldable pub size_fits : ℕ → ℕ → ℕ → Bool
size_fits maximum total size =
    leb size max_safe
    && leb size max_file_bytes
    && leb (total + size) max_safe
    && leb (total + size) maximum

-- The loop over the sizes, with the running total.
unfoldable pub sizes_from : ℕ → ℕ → List Value → Bool
unfolding size_fits
sizes_from maximum total [] = true
sizes_from maximum total (num (pos size) ∷ sizes) =
    let rest = sizes_from maximum (total + size) sizes in
    if size_fits maximum total size then rest else false
sizes_from maximum total (_ ∷ sizes) = false

unfoldable pub output_size_within_limit : List Value → Value → Bool
unfolding sizes_from
output_size_within_limit sizes (num (pos maximum)) =
    if leb 1 maximum && leb maximum max_safe then sizes_from maximum 0 sizes else false
output_size_within_limit sizes _ = false
