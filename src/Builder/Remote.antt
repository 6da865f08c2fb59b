-- ===== src/Builder/Remote.antt =====
-- `addRemoteMods` and `validateRemoteMod`: mods that are downloaded into a build.
pub mod Added
use Prim.Native.String.{◌++◌ as append_text}
use xmcl_shared_node_agent.Base.{
  ℕ, suc, String, Bool, true, false, not, ◌&&◌, ◌||◌, List, [], ◌∷◌, Option, none, some, leb, ◌==◌,
  length, all, any, str_eq, if◌then◌else◌, ltb,
}
use xmcl_shared_node_agent.Base.Int.{pos}
use xmcl_shared_node_agent.Base.Dict
use xmcl_shared_node_agent.Base.Dict.{Dict}
use xmcl_shared_node_agent.Js.Text.{units, nonempty}
use xmcl_shared_node_agent.Js.Value.{
  Value, int, str, get, elements, plain_object, is_array, is_undefined, is_string, same_keys,
  one_of, string_that, strict_eq,
}
use xmcl_shared_node_agent.Js.Host.{Host, Url}
use xmcl_shared_node_agent.Js.Fault.{
  Fault, compiler_failure, Result, ok, err, ensure, of_option, ◌>>=◌, ◌>>◌,
}
use xmcl_shared_node_agent.Limits.{max_files}
use xmcl_shared_node_agent.Compiler.Job.{text, sha_text, in_range}
use xmcl_shared_node_agent.Builder.Path.{safe_output_path, forbidden_output_path, ends_units}
use xmcl_shared_node_agent.Builder.Tar.{Texts}
use xmcl_shared_node_agent.Builder.Files.{Output}

-- `MAX_ARTIFACT_BYTES`
abbrev pub max_artifact_bytes : ℕ
max_artifact_bytes = 536870912

abbrev pub invalid_remote : Fault
invalid_remote = compiler_failure "invalid_remote_mod"

-- What the catalog and the downloader ask of an address besides its host.
abbrev pub plain_https : Url → Bool
plain_https url =
    str_eq url.protocol "https:"
    && not (nonempty url.username)
    && not (nonempty url.password)
    && not (nonempty url.hash)
    && not (nonempty url.port)

-- `download` of an artifact, with the approved hosts, and `downloadRemoteMod`, which a downloader
-- may be without. A downloader's answers may depend on the number of calls before. An answer is a rejection, or bytes
-- if it is a `Uint8Array`.
pub record Downloads : Type 0 where
  pub artifact : ℕ → Value → Value → Result (Option (List ℕ))
  pub remote : ℕ → Value → Result (Option (List ℕ))
  pub has_remote : Bool

module _ (host : Host) (texts : Texts) where
  -- `safeModFilename`
  abbrev pub mod_filename : String → Bool
  mod_filename s =
      leb 1 (length (units s))
      && leb (length (units s)) 255
      && all (λ c. not (c == b'/' || c == b'\x5c' || c == 0)) (units s)
      && ends_units (units (texts.lower s)) (units ".jar")

  unfoldable pub remote_fields_ok : ℕ → Value → Bool
  unfolding units
  remote_fields_ok maximum v =
      plain_object v
      && same_keys v (
          "downloadUrl" ∷ "fileId" ∷ "filename" ∷ "projectId" ∷ "provider" ∷ "sha256" ∷ "sizeBytes"
          ∷ [])
      && one_of ("modrinth" ∷ "curseforge" ∷ []) (get v "provider")
      && string_that nonempty (get v "projectId")
      && string_that nonempty (get v "fileId")
      && string_that mod_filename (get v "filename")
      && sha_text (get v "sha256")
      && in_range 1 maximum (get v "sizeBytes")
      && is_string (get v "downloadUrl")

  abbrev pub allowed_host : Value → String
  allowed_host provider =
      if strict_eq provider (str "modrinth") then "cdn.modrinth.com" else "forgecdn.net"

  -- The host of a provider, or a host below it.
  abbrev pub host_within : String → String → Bool
  host_within name allowed =
      str_eq name allowed || ends_units (units name) (units (append_text "." allowed))

  unfoldable pub remote_url_ok : Value → Option Url → Bool
  unfolding units
  remote_url_ok provider none = false
  remote_url_ok provider (some url) =
      plain_https url && host_within (texts.lower url.hostname) (allowed_host provider)

  -- `validateRemoteMod`
  unfoldable pub validate_remote_mod : ℕ → Value → Result (Unit {0})
  unfolding remote_fields_ok remote_url_ok
  validate_remote_mod maximum v = do
    ensure (remote_fields_ok maximum v) invalid_remote
    ensure (remote_url_ok (get v "provider") (host.parse_url (get v "downloadUrl")))
        (compiler_failure "remote_mod_host_rejected")

  abbrev pub remote_path : Value → String
  remote_path v = append_text "mods/" (text (get v "filename"))

  -- Two paths with one key are one file on some file systems.
  abbrev pub collision_key : String → String
  collision_key path = texts.lower (texts.nfkc path)

  abbrev pub collision_keys : Dict Output → List String
  collision_keys [] = []
  collision_keys ((path, file) ∷ files) = collision_key path ∷ collision_keys files

  abbrev pub includes : List String → String → Bool
  includes names s = any (λ name. str_eq name s) names

  -- The bytes of a mod, if they are those that the manifest lists.
  unfoldable pub accept_remote : Value → Option (List ℕ) → Result (List ℕ)
  accept_remote v none = err (compiler_failure "remote_mod_hash_mismatch")
  accept_remote v (some bytes) = do
    ensure
        (strict_eq (get v "sizeBytes") (int (length bytes))
          && strict_eq (get v "sha256") (str (host.sha256 bytes)))
        (compiler_failure "remote_mod_hash_mismatch")
    ok bytes

  -- The loop over the mods, with the keys of the files so far.
  unfoldable pub add_mods :
      Downloads → ℕ → List Value → List String → Dict Output → Result (Dict Output)
  unfolding validate_remote_mod accept_remote
  add_mods downloads calls [] keys files = ok files
  add_mods downloads calls (v ∷ mods) keys files = do
    validate_remote_mod max_artifact_bytes v
    ensure
        (not (includes keys (collision_key (remote_path v)))
          && safe_output_path (remote_path v)
          && not (forbidden_output_path (remote_path v)))
        (compiler_failure "remote_mod_collision")
    answer ← downloads.remote calls v
    bytes ← accept_remote v answer
    add_mods downloads (suc calls) mods (collision_key (remote_path v) ∷ keys)
        (Dict.put files (remote_path v) (record { bytes = bytes; mode = pos 420 }))

  -- `addRemoteMods`
  unfoldable pub add_remote_mods : Downloads → Value → Dict Output → Result (Dict Output)
  unfolding add_mods
  add_remote_mods downloads mods files = if is_undefined mods then ok files else do
    ensure
        (is_array mods
          && leb (length (elements mods)) max_files
          && (length (elements mods) == 0 || downloads.has_remote))
        invalid_remote
    add_mods downloads 0 (elements mods) (collision_keys files) files
