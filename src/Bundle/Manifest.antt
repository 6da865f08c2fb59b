-- ===== src/Bundle/Manifest.antt =====
-- The manifest of an archive: `parseManifest`, `verifyCompatibility`, `validArtifactMetadata` and
-- the declarations of remote mods.
use Prim.Native.Char.{code}
use xmcl_shared_node_agent.Base.{
  ℕ, String, Bool, true, false, not, ◌&&◌, ◌||◌, List, [], ◌∷◌, Option, none, some, leb, ◌==◌,
  length, all, any, if◌then◌else◌, str_eq,
}
use xmcl_shared_node_agent.Base.Int.{pos}
use xmcl_shared_node_agent.Js.Text.{
  units, between, is_digit, is_alnum, eq_units, split, starts_with, nonempty, lt_string,
}
use xmcl_shared_node_agent.Js.Value.{
  Value, num, str, obj, int, get, keys, elements, plain_object, is_array, is_string, strict_eq,
  string_that, truthy, is_safe_integer, one_of,
}
use xmcl_shared_node_agent.Js.Fault.{
  Fault, compiler_failure, Result, ok, ensure, of_option, ◌>>=◌, ◌>>◌,
}
use xmcl_shared_node_agent.Compiler.Job.{text, sha_text}
use xmcl_shared_node_agent.Bundle.Path.{allowed_path}

pub record FileEntry : Type 0 where
  pub path : String
  pub sha256 : String
  pub size_bytes : ℕ

pub record Manifest : Type 0 where
  pub instance_name : Value
  pub minecraft_version : Value
  pub loader_kind : Value
  pub loader_version : Value
  pub java_component : Value
  pub java_major : Value
  pub catalog_sha256 : String
  pub files : List FileEntry

-- `toLowerCase` on a text of hex digits
unfoldable pub lower_hex : String → String
lower_hex String.[] = String.[]
lower_hex (String.◌∷◌ c s) =
    let rest = lower_hex s in
    if code c == b'A'
    then String.◌∷◌ "a" rest
    else if code c == b'B'
    then String.◌∷◌ "b" rest
    else if code c == b'C'
    then String.◌∷◌ "c" rest
    else if code c == b'D'
    then String.◌∷◌ "d" rest
    else if code c == b'E'
    then String.◌∷◌ "e" rest
    else if code c == b'F'
    then String.◌∷◌ "f" rest
    else String.◌∷◌ c rest

-- `Object.keys(value).some((key) => !known.includes(key))`, denied
unfoldable pub keys_within : Value → List String → Bool
keys_within (obj fs) known = all (λ k. any (λ name. str_eq k name) known) (keys fs)
keys_within _ known = true

-- `validLoaderVersion`
abbrev pub is_version_unit : ℕ → Bool
is_version_unit c = is_alnum c || c == b'.' || c == b'_' || c == b'+' || c == b'-'

abbrev pub loader_version_units : List ℕ → Bool
loader_version_units [] = false
loader_version_units (c ∷ cs) = is_alnum c && all is_version_unit cs && leb (length cs) 127

unfoldable pub valid_loader_version : Value → Bool
unfolding units
valid_loader_version = string_that (λ s. loader_version_units (units s))

-- `[1-9]\d{least,most}`
abbrev pub is_positive_number : ℕ → ℕ → List ℕ → Bool
is_positive_number least most [] = false
is_positive_number least most (c ∷ cs) =
    between b'1' b'9' c && all is_digit cs && leb least (length cs) && leb (length cs) most

-- `0|[1-9]\d{0,2}`
abbrev pub is_minor : List ℕ → Bool
is_minor cs = eq_units cs (b'0' ∷ []) || is_positive_number 0 2 cs

abbrev pub minecraft_parts : List (List ℕ) → Bool
minecraft_parts (a ∷ b ∷ []) = is_positive_number 1 3 a && is_minor b
minecraft_parts (a ∷ b ∷ c ∷ []) =
    (eq_units a (b'1' ∷ []) || is_positive_number 1 3 a) && is_minor b && is_minor c
minecraft_parts _ = false

-- `validMinecraftVersion`
unfoldable pub valid_minecraft_version : Value → Bool
unfolding units split
valid_minecraft_version = string_that (λ s. minecraft_parts (split b'.' (units s)))

abbrev pub invalid_manifest : Fault
invalid_manifest = compiler_failure "invalid_bundle_manifest"

abbrev pub manifest_keys : List String
manifest_keys =
    "schemaVersion" ∷ "instanceName" ∷ "minecraftVersion" ∷ "loader" ∷ "javaRequirement"
    ∷ "runtimeCatalog" ∷ "files" ∷ []

unfoldable pub manifest_ok : Value → Bool
unfolding keys_within valid_minecraft_version valid_loader_version
manifest_ok v =
    plain_object v
    && strict_eq (get v "schemaVersion") (int 1)
    && string_that nonempty (get v "instanceName")
    && valid_minecraft_version (get v "minecraftVersion")
    && plain_object (get v "loader")
    && plain_object (get v "javaRequirement")
    && plain_object (get v "runtimeCatalog")
    && is_array (get v "files")
    && keys_within v manifest_keys
    && one_of ("forge" ∷ "fabric" ∷ "neoforge" ∷ "quilt" ∷ []) (get (get v "loader") "kind")
    && valid_loader_version (get (get v "loader") "version")
    && is_string (get (get v "javaRequirement") "component")
    && is_safe_integer (get (get v "javaRequirement") "major")
    && sha_text (get (get v "runtimeCatalog") "sha256")

-- A listed file, where it is in order behind the path before it.
abbrev pub file_ok : String → Value → Bool
file_ok previous file =
    plain_object file
    && keys_within file ("path" ∷ "sha256" ∷ "sizeBytes" ∷ [])
    && string_that allowed_path (get file "path")
    && sha_text (get file "sha256")
    && (not (nonempty previous) || lt_string previous (text (get file "path")))

abbrev pub size_of : Value → Option ℕ
size_of (num (pos n)) = if is_safe_integer (int n) then some n else none
size_of _ = none

-- The loop over `value.files`
unfoldable pub read_files : String → List Value → Result (List FileEntry)
unfolding lower_hex
read_files previous [] = ok []
read_files previous (file ∷ files) = do
  ensure (file_ok previous file) invalid_manifest
  size ← of_option (size_of (get file "sizeBytes")) invalid_manifest
  rest ← read_files (text (get file "path")) files
  ok (
      record {
        path = text (get file "path");
        sha256 = lower_hex (text (get file "sha256"));
        size_bytes = size;
      }
      ∷ rest)

-- `parseManifest`, past the parsing of the text
unfoldable pub parse_manifest : Value → Result Manifest
unfolding manifest_ok read_files
parse_manifest v = do
  ensure (manifest_ok v) invalid_manifest
  files ← read_files "" (elements (get v "files"))
  ok (record {
    instance_name = get v "instanceName";
    minecraft_version = get v "minecraftVersion";
    loader_kind = get (get v "loader") "kind";
    loader_version = get (get v "loader") "version";
    java_component = get (get v "javaRequirement") "component";
    java_major = get (get v "javaRequirement") "major";
    catalog_sha256 = lower_hex (text (get (get v "runtimeCatalog") "sha256"));
    files = files;
  })

-- `verifyCompatibility`
unfoldable pub is_compatible : Manifest → Value → Bool
is_compatible m frozen =
    let c = get frozen "compatibility" in
    plain_object frozen
    && strict_eq (get frozen "schemaVersion") (int 1)
    && plain_object c
    && strict_eq m.minecraft_version (get c "minecraftVersion")
    && strict_eq m.loader_kind (get c "loader")
    && strict_eq m.loader_version (get c "loaderVersion")
    && strict_eq (str m.catalog_sha256) (get (get c "runtimeCatalog") "sha256")
    && (not (truthy (get c "java"))
        || strict_eq m.java_component (get (get c "java") "component")
          && strict_eq m.java_major (get (get c "java") "major"))

-- The comparisons of `verifyResolvedMetadata`
unfoldable pub metadata_ok : Value → Value → Manifest → Bool
metadata_ok loader version m =
    strict_eq (get loader "minecraftVersion") m.minecraft_version
    && strict_eq (get (get loader "loader") "kind") m.loader_kind
    && strict_eq (get (get loader "loader") "version") m.loader_version
    && strict_eq (get (get loader "javaRequirement") "component") m.java_component
    && strict_eq (get (get loader "javaRequirement") "major") m.java_major
    && strict_eq (get (get loader "runtimeCatalog") "sha256") (str m.catalog_sha256)
    && strict_eq (get version "minecraftVersion") m.minecraft_version
    && strict_eq (get (get version "javaVersion") "component") m.java_component
    && strict_eq (get (get version "javaVersion") "majorVersion") m.java_major

abbrev pub first_intent : List (String × String) → String → String
first_intent [] path = "data"
first_intent ((prefix, intent) ∷ rest) path =
    let later = first_intent rest path in if starts_with path prefix then intent else later

-- `artifactIntent`
unfoldable pub artifact_intent : String → String
artifact_intent = first_intent (
    ("instance/mods/", "mod")
    ∷ ("instance/config/", "config")
    ∷ ("instance/defaultconfigs/", "config")
    ∷ ("instance/kubejs/", "kubejs")
    ∷ ("instance/scripts/", "script")
    ∷ ("instance/datapacks/", "datapack")
    ∷ ("instance/global_packs/", "global-pack")
    ∷ ("instance/openloader/", "openloader")
    ∷ ("instance/paxi/", "paxi")
    ∷ ("instance/resourcepacks/", "resourcepack")
    ∷ [])

abbrev pub instance_files : List FileEntry → List FileEntry
instance_files [] = []
instance_files (f ∷ fs) =
    let rest = instance_files fs in if starts_with f.path "instance/" then f ∷ rest else rest

unfoldable pub artifact_ok : FileEntry → Value → Bool
unfolding artifact_intent keys_within
artifact_ok file artifact =
    plain_object artifact
    && keys_within artifact ("intent" ∷ "path" ∷ "sha256" ∷ "sizeBytes" ∷ [])
    && strict_eq (get artifact "path") (str file.path)
    && strict_eq (get artifact "sha256") (str file.sha256)
    && strict_eq (get artifact "sizeBytes") (int file.size_bytes)
    && strict_eq (get artifact "intent") (str (artifact_intent file.path))

abbrev pub artifacts_match : List FileEntry → List Value → Bool
artifacts_match [] [] = true
artifacts_match (f ∷ fs) (a ∷ as') = artifact_ok f a && artifacts_match fs as'
artifacts_match _ _ = false

-- `validArtifactMetadata`
unfoldable pub valid_artifacts : Value → Manifest → Bool
unfolding artifact_ok keys_within
valid_artifacts v m =
    plain_object v
    && strict_eq (get v "schemaVersion") (int 1)
    && keys_within v ("schemaVersion" ∷ "artifacts" ∷ [])
    && is_array (get v "artifacts")
    && artifacts_match (instance_files m.files) (elements (get v "artifacts"))
