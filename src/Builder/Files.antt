-- ===== src/Builder/Files.antt =====
-- The files of a build: what a sandbox gives, the content of the bundle, the generated files, and the
-- description of them all.
pub mod Kept
use Prim.Native.String.{◌++◌ as append_text}
use xmcl_shared_node_agent.Base.{
  ℕ, zero, suc, String, Bool, true, false, not, ◌&&◌, ◌||◌, List, [], ◌∷◌, Option, none, some, leb,
  ◌==◌, length, all, str_eq, if◌then◌else◌, is_some,
}
use xmcl_shared_node_agent.Base.Int.{ℤ, pos, negsuc, eq_int}
use xmcl_shared_node_agent.Base.Dict
use xmcl_shared_node_agent.Base.Dict.{Dict}
use xmcl_shared_node_agent.Js.Text.{units, starts_with}
use xmcl_shared_node_agent.Js.Value.{
  Value, num, int, bool, get, str, plain_object, strict_eq, safe_int,
}
use xmcl_shared_node_agent.Js.Host.{Host}
use xmcl_shared_node_agent.Js.Fault.{
  Fault, compiler_failure, Result, ok, err, ensure, of_option, ◌>>=◌, ◌>>◌,
}
use xmcl_shared_node_agent.Limits.{
  max_files, max_sandbox_bytes, max_package_input_bytes, output_size_within_limit,
}
use xmcl_shared_node_agent.Bundle.Manifest.{FileEntry}
use xmcl_shared_node_agent.Builder.Path.{
  safe_output_path, forbidden_output_path, runtime_path, launch_path, valid_output_mode,
}
use xmcl_shared_node_agent.Builder.Zstd.{invalid_output}
use xmcl_shared_node_agent.Builder.Tar.{File, sort_entries}
use xmcl_shared_node_agent.Builder.Content.{Entry, output_path}

-- What stands where a file should have its bytes: a `Uint8Array`, or something else with its
-- `byteLength`.
pub data Contents : Type 0 where
  octets : List ℕ → Contents
  other : Value → Contents

-- A file as the sandbox gives it, the answer of the sandbox where it is an object, and its map of
-- files where that is a `Map` with paths for keys.
pub record RawFile : Type 0 where
  pub contents : Contents
  pub mode : Value

pub record Installed : Type 0 where
  pub attestation : Value
  pub files : Option (Dict RawFile)

-- A file of the build while it is put together: the mode is not yet checked.
pub record Output : Type 0 where
  pub bytes : List ℕ
  pub mode : ℤ

abbrev pub byte_length : Contents → Value
byte_length (octets bytes) = int (length bytes)
byte_length (other v) = v

abbrev pub raw_sizes : Dict RawFile → List Value
raw_sizes [] = []
raw_sizes ((path, file) ∷ files) = byte_length file.contents ∷ raw_sizes files

abbrev pub is_true : Value → Bool
is_true v = strict_eq v (bool true)

-- `validSandboxAttestation`
unfoldable pub valid_attestation : Value → Bool
valid_attestation v =
    plain_object v
    && is_true (get v "ephemeralWorkspace")
    && is_true (get v "nonRoot")
    && is_true (get v "readOnlyBaseFilesystem")
    && is_true (get v "noSecrets")
    && is_true (get v "noDockerSocket")
    && is_true (get v "boundedResources")
    && strict_eq (get v "network") (str "disabled")

abbrev pub invalid_installed : Fault
invalid_installed = compiler_failure "invalid_installer_output"

-- A path that an installer may write.
unfoldable pub installer_path : String → Bool
installer_path path =
    safe_output_path path && not (forbidden_output_path path) && not (starts_with path ".xmcl/")

-- The bytes and the mode, where they are such.
abbrev pub metadata : Contents → Value → Option Output
metadata (octets bytes) (num z) =
    if safe_int z then some (record { bytes = bytes; mode = z }) else none
metadata _ _ = none

-- The loop over the files of the sandbox.
unfoldable pub normalize_files : Dict RawFile → Result (Dict Output)
unfolding installer_path
normalize_files [] = ok []
normalize_files ((path, file) ∷ files) = do
  ensure (installer_path path) invalid_installed
  output ← of_option (metadata file.contents file.mode) invalid_installed
  rest ← normalize_files files
  ok ((path, output) ∷ rest)

-- `normalizeSandboxOutput`; `none` is an answer that is no object.
unfoldable pub normalize_sandbox_output : Option Installed → Result (Dict Output)
unfolding valid_attestation normalize_files
normalize_sandbox_output none = err (compiler_failure "installer_failed")
normalize_sandbox_output (some installed) = do
  ensure (valid_attestation installed.attestation) (compiler_failure "installer_failed")
  files ← of_option installed.files invalid_installed
  ensure
      (leb (length files) max_files
        && output_size_within_limit (raw_sizes files) (int max_sandbox_bytes))
      invalid_installed
  normalize_files files

-- `path.slice("instance/".length)`
abbrev pub drop_chars : ℕ → String → String
drop_chars zero s = s
drop_chars (suc n) String.[] = ""
drop_chars (suc n) (String.◌∷◌ c s) = drop_chars n s

abbrev pub instance_path : String → String
instance_path path = drop_chars 9 path

-- `addGeneratedFile`
unfoldable pub add_generated_file : Dict Output → String → List ℕ → ℕ → Result (Dict Output)
add_generated_file files path bytes mode = do
  ensure (not (Dict.has files path)) invalid_installed
  ok (Dict.put files path (record { bytes = bytes; mode = pos mode }))

-- The modes that a file of the build may have, as numbers.
abbrev pub natural_mode : ℤ → Option ℕ
natural_mode (pos mode) = if valid_output_mode mode then some mode else none
natural_mode (negsuc _) = none

module _ (host : Host) where
  -- The bytes are those that the manifest lists.
  abbrev pub source_ok : FileEntry → Option (List ℕ) → Bool
  source_ok file none = false
  source_ok file (some bytes) =
      length bytes == file.size_bytes && str_eq (host.sha256 bytes) file.sha256

  abbrev pub bytes_of : Option (List ℕ) → List ℕ
  bytes_of none = []
  bytes_of (some bytes) = bytes

  -- `copyValidatedBundleContent`, over the files of the manifest
  unfoldable pub copy_bundle_content :
      List FileEntry → Dict (List ℕ) → Dict Output → Result (Dict Output)
  copy_bundle_content [] entries files = ok files
  copy_bundle_content (file ∷ listed) entries files =
      let path = instance_path file.path in
      let source = Dict.get entries file.path in
      let skipped = copy_bundle_content listed entries files in
      let copied =
        copy_bundle_content listed entries
          (Dict.put files path (record { bytes = bytes_of source; mode = pos 420 })) in
      if starts_with file.path "instance/"
      then if source_ok file source
          && safe_output_path path
          && not (forbidden_output_path path)
          && not (Dict.has files path)
        then copied
        else err (compiler_failure "invalid_local_content")
      else skipped

  abbrev pub entry_of : String → List ℕ → ℕ → Entry
  entry_of path bytes mode = record {
    path = path;
    sha256 = host.sha256 bytes;
    size = length bytes;
    mode = mode;
  }

  -- The loop over the sorted files: the entries, and the files with their modes checked.
  unfoldable pub describe_files : Dict Output → Result (List Entry × Dict File)
  unfolding output_path
  describe_files [] = ok ([], [])
  describe_files ((path, file) ∷ files) = do
    ensure (output_path path) invalid_output
    mode ← of_option (natural_mode file.mode) invalid_output
    rest ← describe_files files
    ok (
      entry_of path file.bytes mode ∷ rest.0,
      (path, record { bytes = file.bytes; mode = mode }) ∷ rest.1,
    )

  abbrev pub output_sizes : Dict File → List Value
  output_sizes [] = []
  output_sizes ((path, file) ∷ files) = int (length file.bytes) ∷ output_sizes files

  abbrev pub is_launcher : Option File → Bool
  is_launcher none = false
  is_launcher (some file) = file.mode == 493

  -- `validateOutputFiles`
  unfoldable pub validate_output_files : Dict Output → Result (List Entry × Dict File)
  unfolding describe_files sort_entries
  validate_output_files files = do
    ensure (leb 2 (length files) && leb (length files) max_files) invalid_output
    described ← describe_files (sort_entries files)
    ensure
        (Dict.has described.1 runtime_path
          && is_launcher (Dict.get described.1 launch_path)
          && output_size_within_limit (output_sizes described.1) (int max_package_input_bytes))
        invalid_output
    ok described

-- `entryHash`
unfoldable pub entry_hash : List Entry → String → Result String
entry_hash [] path = err invalid_output
entry_hash (e ∷ es) path =
    let rest = entry_hash es path in if str_eq e.path path then ok e.sha256 else rest
