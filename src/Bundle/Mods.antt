-- ===== src/Bundle/Mods.antt =====
-- The mods of an archive: `verifyResolvedMods` and what it asks of each declaration.
use Prim.Native.String.{◌++◌ as append_text}
use xmcl_shared_node_agent.Base.{
  ℕ, ◌+◌, ◌-◌, String, Bool, false, not, ◌&&◌, ◌||◌, List, [], ◌∷◌, Option, none, some, leb, ltb,
  ◌==◌, length, all, any, drop, if◌then◌else◌, str_eq, map,
}
use xmcl_shared_node_agent.Base.Dict
use xmcl_shared_node_agent.Base.Dict.{Dict}
use xmcl_shared_node_agent.Js.Text.{units, eq_units, starts_with, nonempty}
use xmcl_shared_node_agent.Js.Value.{
  Value, str, int, get, elements, plain_object, is_array, is_string, is_undefined, strict_eq,
  string_that, one_of, same_keys, max_safe,
}
use xmcl_shared_node_agent.Js.Fault.{Fault, compiler_failure, Result, ok, ensure, ◌>>=◌, ◌>>◌}
use xmcl_shared_node_agent.Compiler.Job.{text, sha_text, in_range}
use xmcl_shared_node_agent.Bundle.Path.{small}
use xmcl_shared_node_agent.Bundle.Manifest.{FileEntry, Manifest, lower_hex}

-- `value.toLowerCase().endsWith(".jar")`
abbrev pub ends_jar : List ℕ → Bool
ends_jar cs = leb 4 (length cs) && eq_units (small (drop (length cs - 4) cs)) (units ".jar")

abbrev pub is_filename : String → Bool
is_filename s =
    ltb 0 (length (units s))
    && leb (length (units s)) 255
    && all (λ c. not (c == b'/' || c == b'\x5c' || c == 0)) (units s)
    && ends_jar (units s)

-- `safeModFilename`
unfoldable pub safe_mod_filename : Value → Bool
unfolding units
safe_mod_filename = string_that is_filename

-- `validateFrozenRemoteMod`, on an object
unfoldable pub remote_mod_ok : Value → Bool
unfolding safe_mod_filename
remote_mod_ok mod_value =
    plain_object mod_value
    && same_keys mod_value (
        "downloadUrl" ∷ "fileId" ∷ "filename" ∷ "projectId" ∷ "provider" ∷ "sha256" ∷ "sizeBytes"
        ∷ [])
    && one_of ("modrinth" ∷ "curseforge" ∷ []) (get mod_value "provider")
    && string_that nonempty (get mod_value "projectId")
    && string_that nonempty (get mod_value "fileId")
    && safe_mod_filename (get mod_value "filename")
    && sha_text (get mod_value "sha256")
    && in_range 1 max_safe (get mod_value "sizeBytes")
    && is_string (get mod_value "downloadUrl")

abbrev pub mods_mismatch : Fault
mods_mismatch = compiler_failure "resolved_mods_mismatch"

-- The listed files that are mods, by their path; the manifest lists each path once.
unfoldable pub local_mods : List FileEntry → Dict FileEntry
local_mods [] = []
local_mods (f ∷ fs) =
    let rest = local_mods fs in
    if starts_with f.path "instance/mods/" then (f.path, f) ∷ rest else rest

-- The loop over `frozenManifest.mods`
unfoldable pub remote_mods : Dict FileEntry → List Value → Dict Value → Result (Dict Value)
unfolding remote_mod_ok
remote_mods locals [] remote = ok remote
remote_mods locals (m ∷ ms) remote = do
  ensure (remote_mod_ok m) (compiler_failure "invalid_remote_mod")
  let path = append_text "instance/mods/" (text (get m "filename"))
  ensure (not (Dict.has remote path || Dict.has locals path))
      (compiler_failure "remote_mod_collision")
  remote_mods locals ms (Dict.put remote path m)

-- A declaration of a mod that the archive holds.
abbrev pub local_matches : Option FileEntry → Value → Bool
local_matches none declaration = false
local_matches (some f) declaration =
    str_eq f.sha256 (lower_hex (text (get declaration "sha256")))
    && strict_eq (int f.size_bytes) (get declaration "sizeBytes")

-- `source` names the project and the file of the frozen mod; `print` is `String(value)`.
unfoldable pub source_matches : (Value → String) → Value → Value → Bool
source_matches print m source =
    if strict_eq (get m "provider") (str "modrinth")
    then same_keys source ("projectId" ∷ "provider" ∷ "versionId" ∷ [])
      && strict_eq (get source "provider") (str "modrinth")
      && strict_eq (get source "projectId") (get m "projectId")
      && strict_eq (get source "versionId") (get m "fileId")
    else strict_eq (get m "provider") (str "curseforge")
      && same_keys source ("fileId" ∷ "projectId" ∷ "provider" ∷ [])
      && strict_eq (get source "provider") (str "curseforge")
      && strict_eq (str (print (get source "projectId"))) (get m "projectId")
      && strict_eq (str (print (get source "fileId"))) (get m "fileId")

abbrev pub remote_matches : (Value → String) → Option Value → Value → Bool
remote_matches print none declaration = false
remote_matches print (some m) declaration =
    source_matches print m (get declaration "source")
    && strict_eq (get m "filename") (get declaration "filename")
    && strict_eq (get m "sha256") (str (lower_hex (text (get declaration "sha256"))))
    && strict_eq (get m "sizeBytes") (get declaration "sizeBytes")

abbrev pub declaration_ok : List String → Value → Bool
declaration_ok seen declaration =
    plain_object declaration
    && is_string (get declaration "path")
    && not (any (λ p. str_eq p (text (get declaration "path"))) seen)
    && sha_text (get declaration "sha256")
    && in_range 1 max_safe (get declaration "sizeBytes")

abbrev pub remote_shape : Value → Bool
remote_shape declaration =
    same_keys declaration ("filename" ∷ "path" ∷ "sha256" ∷ "sizeBytes" ∷ "source" ∷ [])
    && safe_mod_filename (get declaration "filename")
    && strict_eq (get declaration "path")
        (str (append_text "instance/mods/" (text (get declaration "filename"))))
    && plain_object (get declaration "source")

-- One round of the loop over the declarations
unfoldable pub declared : (Value → String) → Dict FileEntry → Dict Value → Value → Bool
unfolding source_matches safe_mod_filename lower_hex
declared print locals remote declaration =
    let path = text (get declaration "path") in
    if is_undefined (get declaration "source")
    then same_keys declaration ("path" ∷ "sha256" ∷ "sizeBytes" ∷ [])
      && local_matches (Dict.get locals path) declaration
    else remote_shape declaration && remote_matches print (Dict.get remote path) declaration

-- The paths that were seen, the latest first
unfoldable pub check_declarations :
    (Value → String) → Dict FileEntry → Dict Value → List Value → List String → Result (List String)
unfolding declared
check_declarations print locals remote [] seen = ok seen
check_declarations print locals remote (v ∷ vs) seen = do
  ensure (declaration_ok seen v) mods_mismatch
  ensure (declared print locals remote v) mods_mismatch
  check_declarations print locals remote vs (text (get v "path") ∷ seen)

abbrev pub contains_all : List String → List String → Bool
contains_all seen paths = all (λ path. any (λ s. str_eq s path) seen) paths

-- `verifyResolvedMods`, past the parsing of the declarations
unfoldable pub verify_mods : (Value → String) → Value → Manifest → Value → Result (Unit {0})
unfolding local_mods remote_mods check_declarations
verify_mods print declarations m frozen = do
  ensure (is_array declarations && is_array (get frozen "mods")) mods_mismatch
  remote ← remote_mods (local_mods m.files) (elements (get frozen "mods")) []
  seen ← check_declarations print (local_mods m.files) remote (elements declarations) []
  ensure
      (length seen == length (local_mods m.files) + length remote
        && contains_all seen (map (λ e. e.0) (local_mods m.files))
        && contains_all seen (map (λ e. e.0) remote))
      mods_mismatch
