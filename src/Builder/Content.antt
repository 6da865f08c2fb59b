-- ===== src/Builder/Content.antt =====
-- `validateImmutableContent`: the description of a build against the archive itself.
pub mod Listed
pub mod Exact
use xmcl_shared_node_agent.Base.{
  ℕ, String, Bool, true, false, not, ◌&&◌, ◌||◌, List, [], ◌∷◌, Option, none, some, leb, ◌==◌,
  length, map, if◌then◌else◌, str_eq,
}
use xmcl_shared_node_agent.Base.Dict
use xmcl_shared_node_agent.Base.Dict.{Dict}
use xmcl_shared_node_agent.Base.Int.{pos}
use xmcl_shared_node_agent.Js.Text.{units, nonempty, lt_string}
use xmcl_shared_node_agent.Js.Value.{
  Value, str, num, int, arr, get, elements, of_list, plain_object, is_array, is_safe_integer,
  same_keys, strict_eq, string_that, max_safe,
}
use xmcl_shared_node_agent.Js.Host.{Host}
use xmcl_shared_node_agent.Js.Fault.{
  Fault, type_error, Result, ok, err, ensure, of_option, ◌>>=◌, ◌>>◌,
}
use xmcl_shared_node_agent.Limits.{max_files, max_package_input_bytes, output_size_within_limit}
use xmcl_shared_node_agent.Compiler.Job.{text, sha_text, in_range}
use xmcl_shared_node_agent.Bundle.Manifest.{lower_hex, valid_minecraft_version}
use xmcl_shared_node_agent.Builder.Path.{
  safe_output_path, forbidden_output_path, runtime_path, launch_path, valid_output_mode,
  valid_content_key,
}
use xmcl_shared_node_agent.Builder.Zstd.{invalid_output, unpack_zstd}
use xmcl_shared_node_agent.Builder.Tar.{Texts, File, unpack_tar}
use xmcl_shared_node_agent.Builder.Plan.{
  identifier, valid_loader, launch_arguments, generated_launcher,
}

-- An entry of the description.
pub record Entry : Type 0 where
  pub path : String
  pub sha256 : String
  pub size : ℕ
  pub mode : ℕ

abbrev pub natural_of : Value → Option ℕ
natural_of (num (pos n)) = if leb n max_safe then some n else none
natural_of _ = none

-- A path that a build may have.
unfoldable pub output_path : String → Bool
unfolding safe_output_path forbidden_output_path
output_path path =
    safe_output_path path
    && (str_eq path runtime_path || str_eq path launch_path || not (forbidden_output_path path))

abbrev pub entry_ok : String → Value → Bool
entry_ok previous entry =
    plain_object entry
    && same_keys entry ("path" ∷ "sha256" ∷ "sizeBytes" ∷ "mode" ∷ [])
    && string_that output_path (get entry "path")
    && sha_text (get entry "sha256")
    && (not (nonempty previous) || lt_string previous (text (get entry "path")))

-- The entries, each behind the path before it.
unfoldable pub read_entries : String → List Value → Result (List Entry)
unfolding lower_hex
read_entries previous [] = ok []
read_entries previous (entry ∷ entries) = do
  ensure (entry_ok previous entry) invalid_output
  size ← of_option (natural_of (get entry "sizeBytes")) invalid_output
  mode ← of_option (natural_of (get entry "mode")) invalid_output
  ensure (valid_output_mode mode) invalid_output
  rest ← read_entries (text (get entry "path")) entries
  ok (
      record {
        path = text (get entry "path");
        sha256 = lower_hex (text (get entry "sha256"));
        size = size;
        mode = mode;
      }
      ∷ rest)

abbrev pub sizes_of : List Entry → List Value
sizes_of [] = []
sizes_of (e ∷ es) = int e.size ∷ sizes_of es

-- `validateEntryMetadata`
unfoldable pub validate_entries : List Value → Result (List Entry)
unfolding read_entries
validate_entries entries = do
  ensure (leb 2 (length entries) && leb (length entries) max_files) invalid_output
  normalized ← read_entries "" entries
  ensure (output_size_within_limit (sizes_of normalized) (int max_package_input_bytes))
      invalid_output
  ok normalized

-- `validGeneratedDescriptor`
unfoldable pub valid_descriptor : Value → Bool
valid_descriptor v =
    plain_object v
    && strict_eq (get v "schemaVersion") (int 1)
    && plain_object (get v "runtime")
    && strict_eq (get (get v "runtime") "path") (str runtime_path)
    && sha_text (get (get v "runtime") "sha256")
    && plain_object (get v "launch")
    && strict_eq (get (get v "launch") "path") (str launch_path)
    && strict_eq (get (get v "launch") "kind") (str "generated-server-launcher")
    && is_array (get (get v "launch") "arguments")
    && length (elements (get (get v "launch") "arguments")) == 0

-- The object in `.xmcl/runtime.json`
unfoldable pub runtime_ok : (Value → String) → Value → Bool
runtime_ok print v =
    plain_object v
    && same_keys v (
        "schemaVersion" ∷ "runtimeCatalogRevision" ∷ "minecraftVersion" ∷ "loader" ∷ "java"
        ∷ "launch" ∷ [])
    && strict_eq (get v "schemaVersion") (int 1)
    && sha_text (get v "runtimeCatalogRevision")
    && valid_minecraft_version (get v "minecraftVersion")
    && valid_loader print (get v "loader")
    && plain_object (get v "java")
    && same_keys (get v "java") ("component" ∷ "major" ∷ "jreId" ∷ [])
    && identifier (get (get v "java") "component")
    && is_safe_integer (get (get v "java") "major")
    && identifier (get (get v "java") "jreId")
    && plain_object (get v "launch")
    && same_keys (get v "launch") ("path" ∷ "kind" ∷ "arguments" ∷ [])
    && strict_eq (get (get v "launch") "path") (str launch_path)
    && strict_eq (get (get v "launch") "kind") (str "generated-server-launcher")
    && is_array (get (get v "launch") "arguments")

abbrev pub same_units : List ℕ → List ℕ → Bool
same_units [] [] = true
same_units (a ∷ as') (b ∷ bs) = a == b && same_units as' bs
same_units _ _ = false

abbrev pub strings : List String → Value
strings names = arr (of_list (map str names))

module _ (host : Host) (texts : Texts) where
  -- `validateGeneratedRuntimeAndLauncher`
  unfoldable pub check_launch : File → File → Result (Unit {0})
  unfolding runtime_ok
  check_launch runtime launcher = do
    value ← of_option (host.parse_json runtime.bytes) invalid_output
    ensure (runtime_ok texts.print value) invalid_output
    let expected = launch_arguments (get value "minecraftVersion") (get value "loader")
    ensure
        (same_units (host.print_json (get (get value "launch") "arguments"))
          (host.print_json (strings expected)))
        invalid_output
    script ← of_option (texts.decode launcher.bytes) type_error
    generated ← generated_launcher expected
    expected_script ← of_option (texts.decode (texts.encode (units generated))) type_error
    ensure (str_eq script expected_script) invalid_output

  -- The file of an entry is there, with its size, its digest and its mode.
  abbrev pub file_matches : Entry → Option File → Bool
  file_matches entry none = false
  file_matches entry (some file) =
      length file.bytes == entry.size
      && str_eq (host.sha256 file.bytes) entry.sha256
      && file.mode == entry.mode

  unfoldable pub entries_match : List Entry → Dict File → Bool
  entries_match [] files = true
  entries_match (entry ∷ entries) files =
      file_matches entry (Dict.get files entry.path) && entries_match entries files

  -- The content and the descriptor, before the archive is opened.
  unfoldable pub content_ok : List ℕ → Value → Value → Bool
  unfolding valid_descriptor
  content_ok archive content descriptor =
      plain_object content
      && strict_eq (get content "format") (str "tar.zst")
      && string_that valid_content_key (get content "key")
      && sha_text (get content "sha256")
      && strict_eq (get content "sha256") (str (host.sha256 archive))
      && is_safe_integer (get content "sizeBytes")
      && strict_eq (get content "sizeBytes") (int (length archive))
      && is_array (get content "entries")
      && valid_descriptor descriptor

  -- `validateImmutableContent`, on bytes
  unfoldable pub validate_content : List ℕ → Value → Value → Result (Unit {0})
  unfolding content_ok entries_match check_launch
  validate_content archive content descriptor = do
    ensure (content_ok archive content descriptor) invalid_output
    expected ← validate_entries (elements (get content "entries"))
    tar ← unpack_zstd archive
    files ← unpack_tar texts tar
    ensure (length files == length expected && entries_match expected files) invalid_output
    runtime ← of_option (Dict.get files runtime_path) invalid_output
    launcher ← of_option (Dict.get files launch_path) invalid_output
    ensure (strict_eq (get (get descriptor "runtime") "sha256") (str (host.sha256 runtime.bytes)))
        invalid_output
    check_launch runtime launcher
