-- ===== src/Builder/Build.antt =====
-- `ReviewedRuntimeBuilder`: from a bundle to the archive of a server.
pub mod Origin
pub mod Assembled
pub mod Shipped
pub mod Whole
use xmcl_shared_node_agent.Base.{
  ℕ, suc, String, Bool, true, false, not, ◌&&◌, ◌||◌, List, [], ◌∷◌, Option, none, some, length,
  all, str_eq, map, if◌then◌else◌,
}
use xmcl_shared_node_agent.Base.Dict.{Dict}
use xmcl_shared_node_agent.Js.Text.{units}
use xmcl_shared_node_agent.Js.Value.{
  Value, undefined, null, str, int, obj, arr, end, field, of_list, get, plain_object, is_undefined,
  string_that, strict_eq,
}
use xmcl_shared_node_agent.Js.Host.{Host}
use xmcl_shared_node_agent.Js.Fault.{
  Fault, compiler_failure, type_error, Result, ok, err, ensure, of_option, rethrow, ◌>>=◌, ◌>>◌,
}
use xmcl_shared_node_agent.Bundle.Manifest.{Manifest}
use xmcl_shared_node_agent.Compiler.Worker.Defs.{Built}
use xmcl_shared_node_agent.Builder.Path.{runtime_path, launch_path, valid_content_key}
use xmcl_shared_node_agent.Builder.Zstd.{invalid_output, raw_zstd}
use xmcl_shared_node_agent.Builder.Tar.{Texts, File, package_tar}
use xmcl_shared_node_agent.Builder.Plan.{
  identifier, loader_template, launch_arguments, generated_launcher,
}
use xmcl_shared_node_agent.Builder.Content.{Entry, strings, validate_content}
use xmcl_shared_node_agent.Builder.Files.{
  Installed, Output, is_true, normalize_sandbox_output, copy_bundle_content, add_generated_file,
  validate_output_files, entry_hash,
}
use xmcl_shared_node_agent.Builder.Remote.{Downloads, add_remote_mods}
use xmcl_shared_node_agent.Builder.Catalog.{
  Artifact, Jre, Toolchain, Catalog, make_catalog, resolve, unsupported,
}

abbrev pub unavailable : Fault
unavailable = compiler_failure "compiler_unavailable"

-- A runtime that the registry has verified.
pub record VerifiedJre : Type 0 where
  pub id : Value
  pub sha256 : String
  pub component : Value
  pub major : Value
  pub revision : String
  pub root_token : Value

-- The plan that a sandbox carries out.
pub record Plan : Type 0 where
  pub family : Value
  pub minecraft_version : Value
  pub loader_version : Value
  pub java_component : Value
  pub java_major : Value
  pub jre : Jre
  pub artifacts : List Artifact
  pub template : String
  pub arguments : List String

-- An artifact as the sandbox gets it.
pub record Supplied : Type 0 where
  pub coordinate : String
  pub url : Value
  pub bytes : List ℕ

-- The sandbox: its capabilities, and its answer, which may be no object.
pub record Sandbox : Type 0 where
  pub capabilities : Value
  pub assemble : VerifiedJre → Plan → List Supplied → Result (Option Installed)

-- The builder, with what it was given; `none` where that is missing or has not the methods.
pub record Builder : Type 0 where
  pub catalog : Option Catalog
  pub jres : Option (Jre → Result Value)
  pub sandbox : Option Sandbox
  pub downloads : Option Downloads

-- A catalog, or a document to make one of.
pub data Given : Type 0 where
  made : Catalog → Given
  document : Value → Given

-- `hasCapabilities`
unfoldable pub has_capabilities : Value → Bool
has_capabilities v =
    plain_object v
    && is_true (get v "ephemeralWorkspace")
    && is_true (get v "nonRoot")
    && is_true (get v "readOnlyBaseFilesystem")
    && is_true (get v "noSecrets")
    && is_true (get v "noDockerSocket")
    && is_true (get v "boundedResources")
    && strict_eq (get v "egress") (str "approved-artifacts-only")

abbrev pub loader_value : Value → Value → Value
loader_value kind version = obj (field "kind" kind (field "version" version end))

-- What a manifest asks a catalog for.
abbrev pub request_of : Manifest → Value
request_of m = obj (
    field "runtimeCatalogRevision" (str m.catalog_sha256) (
      field "minecraftVersion" m.minecraft_version (
        field "loader" (loader_value m.loader_kind m.loader_version) (
          field "java" (obj (field "component" m.java_component (field "major" m.java_major end)))
            end))))

abbrev pub artifact_value : Artifact → Value
artifact_value a = obj (
    field "role" a.role (
      field "coordinate" (str a.coordinate)
        (field "url" a.url (field "sha256" (str a.sha256) (field "sizeBytes" a.size end)))))

-- `runtimeDescriptor`
unfoldable pub runtime_descriptor : Toolchain → Plan → Value
runtime_descriptor t plan = obj (
    field "schemaVersion" (int 1) (
      field "runtimeCatalogRevision" (str t.jre.revision) (
        field "minecraftVersion" t.minecraft_version (
          field "loader" (loader_value t.loader_kind t.loader_version) (
            field "java"
              (obj (
                field "component" t.java_component
                  (field "major" t.java_major (field "jreId" t.jre.id end))))
              (field "launch"
                (obj (
                  field "path" (str launch_path) (
                    field "kind" (str "generated-server-launcher")
                      (field "arguments" (strings plan.arguments) end))))
                end))))))

abbrev pub entry_value : Entry → Value
entry_value e = obj (
    field "path" (str e.path) (
      field "sha256" (str e.sha256)
        (field "sizeBytes" (int e.size) (field "mode" (int e.mode) end))))

abbrev pub content_value : Value → String → ℕ → List Entry → Value
content_value key sha256 size entries = obj (
    field "key" key (
      field "format" (str "tar.zst") (
        field "sha256" (str sha256) (
          field "sizeBytes" (int size)
            (field "entries" (arr (of_list (map entry_value entries))) end)))))

abbrev pub descriptor_value : String → Value
descriptor_value hash = obj (
    field "schemaVersion" (int 1) (
      field "runtime" (obj (field "path" (str runtime_path) (field "sha256" (str hash) end))) (
        field "launch"
          (obj (
            field "path" (str launch_path) (
              field "kind" (str "generated-server-launcher")
                (field "arguments" (arr (of_list [])) end))))
          end)))

module _ (host : Host) (texts : Texts) where
  -- The constructor
  unfoldable pub make_builder :
      Given → Option (Jre → Result Value) → Option Sandbox → Option Downloads → Builder
  unfolding make_catalog
  make_builder given jres sandbox downloads = record {
    catalog = elim given [
      | made catalog ↦ some catalog
      | document v ↦ elim (make_catalog host texts v undefined) [
        | ok catalog ↦ some catalog
        | err _ ↦ none
      ]
    ];
    jres = jres;
    sandbox = sandbox;
    downloads = downloads;
  }

  -- `v?.toLowerCase()`
  abbrev pub lower_value : Value → Result (Option String)
  lower_value undefined = ok none
  lower_value null = ok none
  lower_value (str s) = ok (some (texts.lower s))
  lower_value _ = err type_error

  abbrev pub is_text : Option String → String → Bool
  is_text none s = false
  is_text (some t) s = str_eq t s

  -- The test on what the registry gave, by which `resolveVerifiedJre` takes it.
  unfoldable pub accept_jre : Jre → Value → Result VerifiedJre
  accept_jre expected actual = do
    ensure
        (plain_object actual
          && is_true (get actual "verified")
          && is_true (get actual "readOnly")
          && strict_eq (get actual "id") expected.id)
        unavailable
    digest ← lower_value (get actual "sha256")
    ensure
        (is_text digest expected.sha256
          && strict_eq (get actual "component") expected.component
          && strict_eq (get actual "major") expected.major)
        unavailable
    revision ← lower_value (get actual "runtimeCatalogRevision")
    ensure (is_text revision expected.revision && identifier (get actual "rootToken")) unavailable
    ok (record {
      id = get actual "id";
      sha256 = expected.sha256;
      component = get actual "component";
      major = get actual "major";
      revision = expected.revision;
      root_token = get actual "rootToken";
    })

  -- `resolveVerifiedJre`
  unfoldable pub resolve_verified_jre : (Jre → Result Value) → Jre → Result VerifiedJre
  unfolding accept_jre
  resolve_verified_jre registry expected = do
    actual ← rethrow (registry expected) unavailable
    accept_jre expected actual

  -- `createAssemblyPlan`
  unfoldable pub create_assembly_plan : Toolchain → Result Plan
  unfolding loader_template
  create_assembly_plan t = do
    template ← of_option (loader_template (texts.print t.loader_kind)) unsupported
    ok (record {
      family = t.loader_kind;
      minecraft_version = t.minecraft_version;
      loader_version = t.loader_version;
      java_component = t.java_component;
      java_major = t.java_major;
      jre = t.jre;
      artifacts = t.artifacts;
      template = template;
      arguments =
          launch_arguments t.minecraft_version (loader_value t.loader_kind t.loader_version);
    })

  abbrev pub artifact_matches : Artifact → Option (List ℕ) → Result (List ℕ)
  artifact_matches a none = err (compiler_failure "artifact_hash_mismatch")
  artifact_matches a (some bytes) = do
    ensure (strict_eq (int (length bytes)) a.size && str_eq (host.sha256 bytes) a.sha256)
        (compiler_failure "artifact_hash_mismatch")
    ok bytes

  -- The loop over the artifacts of the toolchain, with the number of calls so far.
  unfoldable pub download_artifacts : Downloads → Value → ℕ → List Artifact → Result (List Supplied)
  download_artifacts downloads hosts calls [] = ok []
  download_artifacts downloads hosts calls (a ∷ as') = do
    answer ← downloads.artifact calls (artifact_value a) hosts
    bytes ← artifact_matches a answer
    rest ← download_artifacts downloads hosts (suc calls) as'
    ok (record { coordinate = a.coordinate; url = a.url; bytes = bytes } ∷ rest)

  -- The files of a build: those of the sandbox, of the bundle and of the mods, and the generated ones.
  unfoldable pub assemble_files :
      Downloads
      → Manifest
      → Dict (List ℕ)
      → Value
      → Toolchain
      → Plan
      → Option Installed
      → Result (Dict Output)
  unfolding runtime_descriptor generated_launcher units
  assemble_files downloads manifest entries mods t plan installed = do
    files ← normalize_sandbox_output installed
    with_bundle ← copy_bundle_content host manifest.files entries files
    with_mods ← add_remote_mods host texts downloads mods with_bundle
    with_runtime ←
        add_generated_file with_mods runtime_path (host.print_json (runtime_descriptor t plan)) 420
    script ← generated_launcher plan.arguments
    add_generated_file with_runtime launch_path (texts.encode (units script)) 493

  -- The archive of the files, its description, and the check of both.
  unfoldable pub package_files : Value → Dict Output → Result Built
  unfolding validate_output_files package_tar raw_zstd entry_hash validate_content
  package_files key files = do
    described ← validate_output_files host files
    tar ← package_tar texts described.1
    archive ← raw_zstd tar
    hash ← entry_hash described.0 runtime_path
    let content = content_value key (host.sha256 archive) (length archive) described.0
    validate_content host texts archive content (descriptor_value hash)
    ok (record { archive = some archive; content = content; descriptor = descriptor_value hash })

  -- `build`, with all that it needs
  unfoldable pub build_with :
      Catalog
      → (Jre → Result Value)
      → Sandbox
      → Downloads
      → Manifest
      → Dict (List ℕ)
      → Value
      → Value
      → Result Built
  unfolding resolve resolve_verified_jre create_assembly_plan download_artifacts assemble_files
      package_files
  build_with catalog jres sandbox downloads manifest entries frozen key = do
    ensure (has_capabilities sandbox.capabilities) unavailable
    ensure (string_that valid_content_key key) (compiler_failure "invalid_builder_input")
    toolchain ← resolve catalog (request_of manifest)
    ensure
        (strict_eq (get (get (get frozen "compatibility") "runtimeCatalog") "sha256")
          (str catalog.runtime_revision))
        unsupported
    jre ← resolve_verified_jre jres toolchain.jre
    plan ← create_assembly_plan toolchain
    artifacts ← download_artifacts downloads (strings catalog.hosts) 0 toolchain.artifacts
    installed ← rethrow (sandbox.assemble jre plan artifacts) (compiler_failure "installer_failed")
    files ← assemble_files downloads manifest entries (get frozen "mods") toolchain plan installed
    package_files key files

  -- `build`
  unfoldable pub build : Builder → Manifest → Dict (List ℕ) → Value → Value → Result Built
  unfolding build_with
  build b manifest entries frozen key = do
    catalog ← of_option b.catalog unavailable
    jres ← of_option b.jres unavailable
    downloads ← of_option b.downloads unavailable
    sandbox ← of_option b.sandbox unavailable
    build_with catalog jres sandbox downloads manifest entries frozen key
