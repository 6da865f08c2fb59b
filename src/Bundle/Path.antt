-- ===== src/Bundle/Path.antt =====
-- The paths that an archive may hold: `safeZipPath` and `allowedPath`.
use xmcl_shared_node_agent.Base.{
  ℕ, ◌+◌, String, Bool, false, not, ◌&&◌, ◌||◌, List, [], ◌∷◌, leb, ltb, ◌==◌, length, all, any,
  if◌then◌else◌, str_eq,
}
use xmcl_shared_node_agent.Js.Text.{
  units, between, is_upper, eq_units, split, starts_units, starts_with,
}

abbrev pub is_letter : ℕ → Bool
is_letter c = is_upper c || between b'a' b'z' c

-- `/^[A-Za-z]:/`
abbrev pub has_drive : List ℕ → Bool
has_drive (c ∷ d ∷ cs) = is_letter c && d == b':'
has_drive _ = false

-- `part && part !== "." && part !== ".."`
abbrev pub is_part : List ℕ → Bool
is_part cs =
    ltb 0 (length cs) && not (eq_units cs (b'.' ∷ [])) && not (eq_units cs (b'.' ∷ b'.' ∷ []))

unfoldable pub safe_zip_path : String → Bool
unfolding units split
safe_zip_path path =
    ltb 0 (length (units path))
    && leb (length (units path)) 1024
    && all (λ c. not (c == b'\x5c')) (units path)
    && not (starts_units (units path) (b'/' ∷ []))
    && not (has_drive (units path))
    && all is_part (split b'/' (units path))

abbrev pub last_part : List (List ℕ) → List ℕ
last_part [] = []
last_part (cs ∷ []) = cs
last_part (cs ∷ ds ∷ rest) = last_part (ds ∷ rest)

-- The flag `i`: letters of ASCII by their small forms.
abbrev pub small : List ℕ → List ℕ
small [] = []
small (c ∷ cs) = (if is_upper c then c + 32 else c) ∷ small cs

-- `/(?:^|\/)(?:server|start)\.(?:sh|bat|cmd)$/i`: the part behind the last slash is such a script
unfoldable pub is_script : String → Bool
unfolding units split
is_script path =
    any (λ name. eq_units (small (last_part (split b'/' (units path)))) (units name))
      ("server.sh" ∷ "server.bat" ∷ "server.cmd" ∷ "start.sh" ∷ "start.bat" ∷ "start.cmd" ∷ [])

abbrev pub allowed_names : List String
allowed_names =
    "resolved/version.json" ∷ "resolved/loader.json" ∷ "resolved/artifacts.json"
    ∷ "resolved/mods.json" ∷ "instance/server.properties" ∷ "instance/pack.toml"
    ∷ "instance/pack.mcmeta" ∷ "instance/server-icon.png" ∷ []

abbrev pub allowed_prefixes : List String
allowed_prefixes =
    "instance/mods/" ∷ "instance/config/" ∷ "instance/defaultconfigs/" ∷ "instance/kubejs/"
    ∷ "instance/scripts/" ∷ "instance/datapacks/" ∷ "instance/global_packs/"
    ∷ "instance/openloader/" ∷ "instance/paxi/" ∷ "instance/resourcepacks/" ∷ []

unfoldable pub allowed_path : String → Bool
unfolding safe_zip_path is_script
allowed_path path =
    safe_zip_path path
    && not (is_script path)
    && (any (λ name. str_eq path name) allowed_names
        || any (λ prefix. starts_with path prefix) allowed_prefixes)
