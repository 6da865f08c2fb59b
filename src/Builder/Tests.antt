-- ===== src/Builder/Tests.antt =====
-- Runs of the builder, and its theorems at concrete inputs.
use xmcl_shared_node_agent.Base.{ℕ, arith, true, ◌≡◌, ◌≢◌, refl, List, [], ◌∷◌, none, some}
use xmcl_shared_node_agent.Js.Text.{units}
use xmcl_shared_node_agent.Js.Value.{undefined, str, int, arr}
use xmcl_shared_node_agent.Js.Value.{same_keys, get, elements, of_list}
use xmcl_shared_node_agent.Js.Text.{segment, valid_sha256, starts_with, split, lt_string}
use xmcl_shared_node_agent.Bundle.Manifest.{
  valid_minecraft_version, valid_loader_version, lower_hex,
}
use xmcl_shared_node_agent.Builder.Build.{has_capabilities, create_assembly_plan}
use xmcl_shared_node_agent.Builder.Path.{
  valid_content_key, safe_output_path, forbidden_output_path, valid_coordinate,
}
use xmcl_shared_node_agent.Builder.Files.{
  normalize_sandbox_output, copy_bundle_content, add_generated_file, validate_output_files,
  entry_hash, Output,
}
use xmcl_shared_node_agent.Limits.{output_size_within_limit}
use xmcl_shared_node_agent.Builder.Remote.{add_remote_mods}
use xmcl_shared_node_agent.Builder.Content.{
  output_path, validate_content, validate_entries, valid_descriptor, content_ok, check_launch,
  runtime_ok,
}
use xmcl_shared_node_agent.Builder.Plan.{
  launch_arguments, generated_launcher, valid_loader, valid_java, loader_template,
}
use xmcl_shared_node_agent.Builder.Tar.{
  tar_header, package_tar, octal, set_at, unpack_tar, unpack_files, read_header, parse_octal,
  tar_text, before_zero, trim_start, trim_end, sort_entries, insert_entry,
}
use xmcl_shared_node_agent.Builder.Zstd.{frame, raw_zstd, blocks, unpack_zstd, read_frame, unblock}
use xmcl_shared_node_agent.Builder.Catalog.{no_duplicates, find_toolchain, read_hosts}
use xmcl_shared_node_agent.Base.Dict
use xmcl_shared_node_agent.Js.Fault.{Result, ok, err, is_ok}
use xmcl_shared_node_agent.Compiler.Worker.Defs.{Built}
use xmcl_shared_node_agent.Builder.Catalog.{
  Catalog, Toolchain, make_catalog, resolve, toolchain_matches,
}
use xmcl_shared_node_agent.Builder.Build.{build}
use xmcl_shared_node_agent.Builder.Build.Whole.{IsReviewedBuild, build-IsReviewedBuild}
use xmcl_shared_node_agent.Builder.Zstd.RoundTrip.{unpack_zstd-raw_zstd, unblock-ne-none}
use xmcl_shared_node_agent.Builder.Tar.Total.{unpack_files-ne-none}
use xmcl_shared_node_agent.Builder.Content.Exact.{IsExact, validate_content-IsExact}
use xmcl_shared_node_agent.Builder.Catalog.Reviewed.{IsReviewed, resolve-make_catalog}
use xmcl_shared_node_agent.Builder.Download.{
  Downloader, gives, stream, download, download_url, declared_length, read_exact_response,
}
use xmcl_shared_node_agent.Builder.Download.Reviewed.{HasContent, IsApproved, download-HasContent}
use xmcl_shared_node_agent.Builder.Download.Failure.{Fails, download-Fails}
use xmcl_shared_node_agent.Builder.Remote.Added.{AreAdded, add_remote_mods-AreAdded}
use xmcl_shared_node_agent.Js.Stream.{Chunk, read_stream}
use xmcl_shared_node_agent.Base.Dict.{Dict}
use xmcl_shared_node_agent.Base.Int.{pos}
use xmcl_shared_node_agent.Builder.Sample.{
  host, texts, builder, manifest, entries, frozen, catalog_document, request, artifact, hosts,
  downloads, remote_mod,
}

-- What a result holds, for one that is a value.
abbrev value_of {ℓ} : {A : Type ℓ} → A → Result A → A
value_of default (ok a) = a
value_of default (err _) = default

ok-value_of {ℓ} :
    {A : Type ℓ} (default : A) (r : Result A) → is_ok r ≡ true → r ≡ ok (value_of default r)
ok-value_of default (ok a) h = refl
ok-value_of default (err e) h = cc

abbrev no_build : Built
no_build = record { archive = none; content = undefined; descriptor = undefined }

-- The build of the sample, with a file of the bundle and a mod.
built : Built
built = value_of no_build (build host texts builder manifest entries frozen (str "k"))

build_ok : is_ok (build host texts builder manifest entries frozen (str "k")) ≡ true
unfolding build builder same_keys get segment valid_sha256 elements of_list valid_minecraft_version
    valid_loader_version has_capabilities valid_content_key normalize_sandbox_output
    output_size_within_limit starts_with copy_bundle_content Dict.get Dict.put add_remote_mods
    safe_output_path forbidden_output_path output_path launch_arguments generated_launcher
    add_generated_file validate_output_files tar_header package_tar octal set_at raw_zstd blocks
    unpack_zstd read_frame unblock validate_content validate_entries valid_descriptor content_ok
    check_launch unpack_tar unpack_files read_header parse_octal tar_text before_zero trim_start
    trim_end valid_loader valid_java loader_template lower_hex valid_coordinate no_duplicates
    find_toolchain units split lt_string create_assembly_plan entry_hash sort_entries insert_entry
    read_hosts runtime_ok
build_ok = refl

build-IsReviewedBuild_example : IsReviewedBuild host texts builder manifest entries frozen built
unfolding built
build-IsReviewedBuild_example =
    build-IsReviewedBuild host texts builder manifest entries frozen (str "k") built
      (ok-value_of no_build (build host texts builder manifest entries frozen (str "k")) build_ok)

archive : List ℕ
archive = elim built.archive [ some bytes ↦ bytes | none ↦ [] ]

content_valid : is_ok (validate_content host texts archive built.content built.descriptor) ≡ true
unfolding archive built build builder same_keys get segment valid_sha256 elements of_list
    valid_minecraft_version valid_loader_version has_capabilities valid_content_key
    normalize_sandbox_output output_size_within_limit starts_with copy_bundle_content Dict.get
    Dict.put add_remote_mods safe_output_path forbidden_output_path output_path launch_arguments
    generated_launcher add_generated_file validate_output_files tar_header package_tar octal set_at
    raw_zstd blocks unpack_zstd read_frame unblock validate_content validate_entries
    valid_descriptor content_ok check_launch unpack_tar unpack_files read_header parse_octal
    tar_text before_zero trim_start trim_end valid_loader valid_java loader_template lower_hex
    valid_coordinate no_duplicates find_toolchain units split lt_string create_assembly_plan
    entry_hash sort_entries insert_entry read_hosts runtime_ok
content_valid = refl

validate_content-IsExact_example : IsExact host texts archive built.content built.descriptor
validate_content-IsExact_example =
    validate_content-IsExact host texts archive built.content built.descriptor (
      ok-value_of tt (validate_content host texts archive built.content built.descriptor)
        content_valid)

unpack_zstd-raw_zstd_example : unpack_zstd (frame (1 ∷ 2 ∷ 3 ∷ [])) ≡ ok (1 ∷ 2 ∷ 3 ∷ [])
unfolding raw_zstd
unpack_zstd-raw_zstd_example =
    unpack_zstd-raw_zstd (1 ∷ 2 ∷ 3 ∷ []) (frame (1 ∷ 2 ∷ 3 ∷ [])) (omega arith) refl

unblock-ne-none_example : unblock 5 (1 ∷ 2 ∷ 3 ∷ 4 ∷ []) [] ≢ none
unblock-ne-none_example = unblock-ne-none 5 (1 ∷ 2 ∷ 3 ∷ 4 ∷ []) [] (omega arith)

unpack_files-ne-none_example : unpack_files texts 4 (1 ∷ 2 ∷ 3 ∷ []) [] ≢ none
unpack_files-ne-none_example = unpack_files-ne-none texts 4 (1 ∷ 2 ∷ 3 ∷ []) [] (omega arith)

abbrev no_catalog : Catalog
no_catalog = record {
  catalog_version = undefined;
  catalog_revision = none;
  runtime_revision = "";
  hosts = [];
  toolchains = [];
}

abbrev no_toolchain : Toolchain
no_toolchain = record {
  minecraft_version = undefined;
  loader_kind = undefined;
  loader_version = undefined;
  java_component = undefined;
  java_major = undefined;
  jre = record {
    id = undefined;
    sha256 = "";
    component = undefined;
    major = undefined;
    revision = "";
  };
  artifacts = [];
  launch_template = undefined;
}

catalog : Catalog
catalog = value_of no_catalog (make_catalog host texts catalog_document undefined)

toolchain : Toolchain
toolchain = value_of no_toolchain (resolve catalog request)

catalog_made : is_ok (make_catalog host texts catalog_document undefined) ≡ true
unfolding make_catalog same_keys get segment valid_sha256 elements of_list valid_minecraft_version
    valid_loader_version has_capabilities valid_content_key normalize_sandbox_output
    output_size_within_limit starts_with copy_bundle_content Dict.get Dict.put add_remote_mods
    safe_output_path forbidden_output_path output_path launch_arguments generated_launcher
    add_generated_file validate_output_files tar_header package_tar octal set_at raw_zstd blocks
    unpack_zstd read_frame unblock validate_content validate_entries valid_descriptor content_ok
    check_launch unpack_tar unpack_files read_header parse_octal tar_text before_zero trim_start
    trim_end valid_loader valid_java loader_template lower_hex valid_coordinate no_duplicates
    find_toolchain units split lt_string create_assembly_plan entry_hash sort_entries insert_entry
    read_hosts runtime_ok
catalog_made = refl

toolchain_found : is_ok (resolve catalog request) ≡ true
unfolding catalog resolve make_catalog same_keys get segment valid_sha256 elements of_list
    valid_minecraft_version valid_loader_version has_capabilities valid_content_key
    normalize_sandbox_output output_size_within_limit starts_with copy_bundle_content Dict.get
    Dict.put add_remote_mods safe_output_path forbidden_output_path output_path launch_arguments
    generated_launcher add_generated_file validate_output_files tar_header package_tar octal set_at
    raw_zstd blocks unpack_zstd read_frame unblock validate_content validate_entries
    valid_descriptor content_ok check_launch unpack_tar unpack_files read_header parse_octal
    tar_text before_zero trim_start trim_end valid_loader valid_java loader_template lower_hex
    valid_coordinate no_duplicates find_toolchain units split lt_string create_assembly_plan
    entry_hash sort_entries insert_entry read_hosts runtime_ok
toolchain_found = refl

resolve-make_catalog_example :
    (toolchain_matches request toolchain ≡ true)
    × (get request "runtimeCatalogRevision" ≡ str catalog.runtime_revision)
    × IsReviewed host texts catalog.runtime_revision catalog.hosts toolchain
unfolding catalog toolchain
resolve-make_catalog_example =
    resolve-make_catalog host texts catalog_document undefined request catalog toolchain
      (ok-value_of no_catalog (make_catalog host texts catalog_document undefined) catalog_made)
      (ok-value_of no_toolchain (resolve catalog request) toolchain_found)

-- A downloader whose network gives three bytes, in two chunks.
abbrev downloader : Downloader
downloader = record {
  max_bytes = 10;
  cache = none;
  fetch = λ address. gives (
      ok (
        some (record {
          status = int 200;
          redirected = undefined;
          url = str address;
          encoding = none;
          declared = some "3";
          body = stream (Chunk.bytes (1 ∷ []) ∷ Chunk.bytes (2 ∷ 3 ∷ []) ∷ []);
        })));
}

download-HasContent_example :
    HasContent host texts artifact (1 ∷ 2 ∷ 3 ∷ []) × IsApproved host texts artifact hosts
unfolding download download_url declared_length read_exact_response read_stream same_keys get
    segment valid_sha256 elements of_list valid_minecraft_version valid_loader_version
    has_capabilities valid_content_key normalize_sandbox_output output_size_within_limit starts_with
    copy_bundle_content Dict.get Dict.put add_remote_mods safe_output_path forbidden_output_path
    output_path launch_arguments generated_launcher add_generated_file validate_output_files
    tar_header package_tar octal set_at raw_zstd blocks unpack_zstd read_frame unblock
    validate_content validate_entries valid_descriptor content_ok check_launch unpack_tar
    unpack_files read_header parse_octal tar_text before_zero trim_start trim_end valid_loader
    valid_java loader_template lower_hex valid_coordinate no_duplicates find_toolchain units split
    lt_string create_assembly_plan entry_hash sort_entries insert_entry read_hosts runtime_ok
download-HasContent_example =
    download-HasContent host texts downloader artifact hosts (1 ∷ 2 ∷ 3 ∷ []) refl

download-Fails_example : Fails (download host texts downloader artifact undefined)
download-Fails_example = download-Fails host texts downloader artifact undefined

abbrev one_file : Dict Output
one_file = ("server.jar", record { bytes = 1 ∷ []; mode = pos 420 }) ∷ []

abbrev with_mod : Dict Output
with_mod =
    ("server.jar", record { bytes = 1 ∷ []; mode = pos 420 })
    ∷ ("mods/m.jar", record { bytes = 4 ∷ 5 ∷ 6 ∷ []; mode = pos 420 })
    ∷ []

add_remote_mods-AreAdded_example :
    AreAdded host texts (elements (arr (of_list (remote_mod ∷ [])))) one_file with_mod
unfolding same_keys get segment valid_sha256 elements of_list valid_minecraft_version
    valid_loader_version has_capabilities valid_content_key normalize_sandbox_output
    output_size_within_limit starts_with copy_bundle_content Dict.get Dict.put add_remote_mods
    safe_output_path forbidden_output_path output_path launch_arguments generated_launcher
    add_generated_file validate_output_files tar_header package_tar octal set_at raw_zstd blocks
    unpack_zstd read_frame unblock validate_content validate_entries valid_descriptor content_ok
    check_launch unpack_tar unpack_files read_header parse_octal tar_text before_zero trim_start
    trim_end valid_loader valid_java loader_template lower_hex valid_coordinate no_duplicates
    find_toolchain units split lt_string create_assembly_plan entry_hash sort_entries insert_entry
    read_hosts runtime_ok
add_remote_mods-AreAdded_example =
    add_remote_mods-AreAdded host texts downloads (arr (of_list (remote_mod ∷ []))) one_file
      with_mod refl
