-- ===== src/Builder/Path.antt =====
-- The paths, keys and names that the builder takes.
use xmcl_shared_node_agent.Base.{
  ℕ, ◌+◌, ◌-◌, String, Bool, false, not, ◌&&◌, ◌||◌, List, [], ◌∷◌, leb, ltb, ◌==◌, length, all,
  any, drop, if◌then◌else◌,
}
use xmcl_shared_node_agent.Js.Text.{
  units, is_digit, is_upper, is_alnum, eq_units, split, starts_units,
}
use xmcl_shared_node_agent.Bundle.Path.{has_drive, is_part, last_part, small}

unfoldable pub safe_output_path : String → Bool
unfolding units split
safe_output_path path =
    ltb 0 (length (units path))
    && leb (length (units path)) 255
    && all (λ c. not (c == b'\x5c')) (units path)
    && not (starts_units (units path) (b'/' ∷ []))
    && not (has_drive (units path))
    && all is_part (split b'/' (units path))

-- `toLowerCase`, as far as it gives letters of ASCII: the Kelvin sign is a small k, and the capital
-- I with a dot is an i and the dot. Other units give units that no test here asks for.
abbrev pub lower_units : List ℕ → List ℕ
lower_units [] = []
lower_units (c ∷ cs) =
    let rest = lower_units cs in
    if is_upper c
    then (c + 32) ∷ rest
    else if c == 0x212a
    then b'k' ∷ rest
    else if c == 0x130
    then b'i' ∷ 0x307 ∷ rest
    else c ∷ rest

abbrev pub one_of_units : List String → List ℕ → Bool
one_of_units names cs = any (λ name. eq_units cs (units name)) names

abbrev pub installer_name : List ℕ
installer_name = units "neoforge_installer"

-- `^neoforge_installer\d+(?:\/|$)`, on the first part
abbrev pub is_installer : List (List ℕ) → Bool
is_installer [] = false
is_installer (part ∷ parts) =
    starts_units part installer_name
    && ltb (length installer_name) (length part)
    && all is_digit (drop (length installer_name) part)

abbrev pub ends_units : List ℕ → List ℕ → Bool
ends_units cs suffix =
    leb (length suffix) (length cs) && eq_units (drop (length cs - length suffix) cs) suffix

abbrev pub ends_script : List ℕ → Bool
ends_script cs =
    any (λ suffix. ends_units cs (units suffix)) (".sh" ∷ ".bat" ∷ ".cmd" ∷ ".ps1" ∷ ".exe" ∷ [])

-- `forbiddenOutputPath`
unfoldable pub forbidden_output_path : String → Bool
unfolding units split
forbidden_output_path path =
    let parts = split b'/' (lower_units (units path)) in
    one_of_units ("eula.txt" ∷ "java" ∷ "javaw" ∷ "java.exe" ∷ "javaw.exe" ∷ []) (last_part parts)
    || any (one_of_units ("jre" ∷ "jdk" ∷ [])) parts
    || is_installer parts
    || ends_script (small (units path))

abbrev pub runtime_path : String
runtime_path = ".xmcl/runtime.json"

abbrev pub launch_path : String
launch_path = ".xmcl/launch.sh"

-- `0o644` and `0o755`
abbrev pub valid_output_mode : ℕ → Bool
valid_output_mode mode = mode == 420 || mode == 493

-- `validContentKey`
unfoldable pub valid_content_key : String → Bool
unfolding units
valid_content_key s =
    ltb 0 (length (units s))
    && leb (length (units s)) 1024
    && all (λ c. not (leb c 0x1f || c == 0x7f)) (units s)

-- `[0-9A-Za-z_.-]+` and `[0-9A-Za-z._+-]+`
abbrev pub is_group : List ℕ → Bool
is_group cs = ltb 0 (length cs) && all (λ c. is_alnum c || c == b'_' || c == b'.' || c == b'-') cs

abbrev pub is_version : List ℕ → Bool
is_version cs =
    ltb 0 (length cs)
    && all (λ c. is_alnum c || c == b'.' || c == b'_' || c == b'+' || c == b'-') cs

abbrev pub is_coordinate : List (List ℕ) → Bool
is_coordinate (a ∷ b ∷ c ∷ []) = is_group a && is_group b && is_version c
is_coordinate (a ∷ b ∷ c ∷ d ∷ []) = is_group a && is_group b && is_version c && is_group d
is_coordinate _ = false

-- `validCoordinate`
unfoldable pub valid_coordinate : String → Bool
unfolding units split
valid_coordinate s = leb (length (units s)) 256 && is_coordinate (split b':' (units s))
