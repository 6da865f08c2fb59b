-- ===== src/Bundle/Check.antt =====
-- `validateBundle`: the archive against its manifest and the frozen one.
pub mod Listed
use xmcl_shared_node_agent.Base.{
  ℕ, ◌+◌, String, Bool, true, false, ◌&&◌, List, [], ◌∷◌, Option, none, some, leb, ◌==◌, length,
  all, if◌then◌else◌, str_eq,
}
use xmcl_shared_node_agent.Base.Dict
use xmcl_shared_node_agent.Base.Dict.{Dict}
use xmcl_shared_node_agent.Js.Value.{Value}
use xmcl_shared_node_agent.Js.Host.{Host}
use xmcl_shared_node_agent.Js.Fault.{
  Fault, compiler_failure, Result, ok, ensure, of_option, ◌>>=◌, ◌>>◌,
}
use xmcl_shared_node_agent.Limits.{max_bundle_archive_bytes}
use xmcl_shared_node_agent.Bundle.Path.{allowed_path}
use xmcl_shared_node_agent.Bundle.Zip.{Unpacker, max_bundle_entries, read_zip, invalid_bundle}
use xmcl_shared_node_agent.Bundle.Manifest.{
  FileEntry, Manifest, parse_manifest, invalid_manifest, is_compatible, metadata_ok,
  valid_artifacts,
}
use xmcl_shared_node_agent.Bundle.Mods.{verify_mods, mods_mismatch}

-- `listed.get(path)`
unfoldable pub find_listed : List FileEntry → String → Option FileEntry
find_listed [] path = none
find_listed (f ∷ fs) path = if str_eq f.path path then some f else find_listed fs path

module _ (host : Host) where
  abbrev pub entry_matches : Option FileEntry → List ℕ → Bool
  entry_matches none bytes = false
  entry_matches (some f) bytes = f.size_bytes == length bytes && str_eq f.sha256 (host.sha256 bytes)

  -- The loop over the entries
  unfoldable pub entries_listed : List FileEntry → Dict (List ℕ) → Bool
  unfolding find_listed
  entries_listed files [] = true
  entries_listed files ((path, bytes) ∷ entries) =
      (if str_eq path "bundle.json"
        then true
        else allowed_path path && entry_matches (find_listed files path) bytes)
      && entries_listed files entries

  abbrev pub required_files : List String
  required_files =
      "resolved/version.json" ∷ "resolved/loader.json" ∷ "resolved/artifacts.json"
      ∷ "resolved/mods.json" ∷ []

  -- `JSON.parse(decoder.decode(entries.get(path).bytes))`
  abbrev pub parse_entry : Dict (List ℕ) → String → Fault → Result Value
  parse_entry entries path e = do
    bytes ← of_option (Dict.get entries path) e
    of_option (host.parse_json bytes) e

  abbrev pub metadata_mismatch : Fault
  metadata_mismatch = compiler_failure "resolved_metadata_mismatch"

  -- `verifyResolvedMetadata`
  unfoldable pub verify_metadata : Dict (List ℕ) → Manifest → Result (Unit {0})
  verify_metadata entries m = do
    loader ← parse_entry entries "resolved/loader.json" metadata_mismatch
    version ← parse_entry entries "resolved/version.json" metadata_mismatch
    artifacts ← parse_entry entries "resolved/artifacts.json" metadata_mismatch
    ensure (metadata_ok loader version m && valid_artifacts artifacts m) metadata_mismatch

  -- `validateBundle` on bytes; `print` is `String(value)`
  unfoldable pub validate_bundle :
      Unpacker → (Value → String) → List ℕ → Value → Result (Manifest × Dict (List ℕ))
  unfolding entries_listed verify_metadata
  validate_bundle unpacker print archive frozen = do
    ensure (leb (length archive) max_bundle_archive_bytes) (compiler_failure "bundle_too_large")
    entries ← read_zip unpacker archive
    listing ← of_option (Dict.get entries "bundle.json") invalid_bundle
    ensure (leb (length entries) max_bundle_entries) invalid_bundle
    value ← of_option (host.parse_json listing) invalid_manifest
    m ← parse_manifest value
    ensure (is_compatible m frozen) (compiler_failure "frozen_compatibility_mismatch")
    ensure (entries_listed m.files entries) (compiler_failure "bundle_hash_or_path_mismatch")
    ensure (length m.files + 1 == length entries) (compiler_failure "bundle_manifest_mismatch")
    ensure (all (λ path. Dict.has entries path) required_files)
        (compiler_failure "missing_resolved_metadata")
    verify_metadata entries m
    declarations ← parse_entry entries "resolved/mods.json" mods_mismatch
    verify_mods print declarations m frozen
    ok (m, entries)
