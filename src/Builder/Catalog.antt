-- ===== src/Builder/Catalog.antt =====
-- `ReviewedToolchainCatalog`: the catalog that a builder takes its toolchains from.
pub mod Reviewed
use Prim.Native.String.{◌++◌ as append_text}
use xmcl_shared_node_agent.Base.{
  ℕ, String, Bool, true, false, not, ◌&&◌, ◌||◌, List, [], ◌∷◌, Option, none, some, leb, ltb, ◌==◌,
  length, all, any, str_eq, if◌then◌else◌, is_some,
}
use xmcl_shared_node_agent.Js.Text.{units, is_digit, between, nonempty}
use xmcl_shared_node_agent.Js.Value.{
  Value, undefined, num, int, str, get, elements, plain_object, is_array, is_undefined, same_keys,
  one_of, string_that, is_string, strict_eq,
}
use xmcl_shared_node_agent.Js.Host.{Host, Url}
use xmcl_shared_node_agent.Js.Fault.{
  Fault, compiler_failure, Result, ok, err, ensure, of_option, ◌>>=◌, ◌>>◌,
}
use xmcl_shared_node_agent.Compiler.Job.{text, sha_text, in_range}
use xmcl_shared_node_agent.Bundle.Manifest.{lower_hex, valid_minecraft_version}
use xmcl_shared_node_agent.Toolchains.Canonical.{catalog_revision_for}
use xmcl_shared_node_agent.Builder.Path.{valid_coordinate}
use xmcl_shared_node_agent.Builder.Tar.{Texts}
use xmcl_shared_node_agent.Builder.Plan.{identifier, loader_template, valid_loader, valid_java}
use xmcl_shared_node_agent.Builder.Remote.{plain_https, max_artifact_bytes, includes}

abbrev pub invalid_catalog : Fault
invalid_catalog = compiler_failure "invalid_reviewed_catalog"

abbrev pub unsupported : Fault
unsupported = compiler_failure "unsupported_compatibility"

pub record Artifact : Type 0 where
  pub role : Value
  pub coordinate : String
  pub url : Value
  pub sha256 : String
  pub size : Value

pub record Jre : Type 0 where
  pub id : Value
  pub sha256 : String
  pub component : Value
  pub major : Value
  pub revision : String

pub record Toolchain : Type 0 where
  pub minecraft_version : Value
  pub loader_kind : Value
  pub loader_version : Value
  pub java_component : Value
  pub java_major : Value
  pub jre : Jre
  pub artifacts : List Artifact
  pub launch_template : Value

-- The fields of the catalog that the other files read.
pub record Catalog : Type 0 where
  pub catalog_version : Value
  pub catalog_revision : Option String
  pub runtime_revision : String
  pub hosts : List String
  pub toolchains : List Toolchain

-- A set made of a list has as many elements as the list.
unfoldable pub no_duplicates : List String → Bool
no_duplicates [] = true
no_duplicates (s ∷ ss) = not (any (str_eq s) ss) && no_duplicates ss

-- `expectedPrimaryCoordinate`
unfoldable pub expected_primary : Value → Value → Value → Option String
expected_primary minecraft kind version =
    if strict_eq kind (str "forge")
    then some (
        append_text "net.minecraftforge:forge:" (
          append_text (text minecraft) (append_text "-" (append_text (text version) ":installer"))))
    else if strict_eq kind (str "fabric")
    then some (append_text "net.fabricmc:fabric-loader:" (text version))
    else if strict_eq kind (str "neoforge")
    then some (append_text "net.neoforged:neoforge:" (append_text (text version) ":installer"))
    else if strict_eq kind (str "quilt")
    then some (append_text "org.quiltmc:quilt-loader:" (text version))
    else none

-- `[a-z0-9](?:[a-z0-9.-]*[a-z0-9])?`
abbrev pub is_host_end : ℕ → Bool
is_host_end c = is_digit c || between b'a' b'z' c

abbrev pub host_rest : List ℕ → Bool
host_rest [] = true
host_rest (c ∷ []) = is_host_end c
host_rest (c ∷ d ∷ cs) = (is_host_end c || c == b'.' || c == b'-') && host_rest (d ∷ cs)

abbrev pub is_host : List ℕ → Bool
is_host [] = false
is_host (c ∷ cs) = is_host_end c && host_rest cs

-- `approvedArtifactHosts`, each checked; the test on the case of a host follows from its pattern.
unfoldable pub read_hosts : List Value → Result (List String)
unfolding units
read_hosts [] = ok []
read_hosts (v ∷ vs) = do
  ensure (string_that (λ s. is_host (units s)) v) invalid_catalog
  rest ← read_hosts vs
  ok (text v ∷ rest)

abbrev pub is_primary : Artifact → Bool
is_primary artifact = strict_eq artifact.role (str "primary")

abbrev pub primaries : List Artifact → List Artifact
primaries [] = []
primaries (a ∷ as') = let rest = primaries as' in if is_primary a then a ∷ rest else rest

abbrev pub coordinates : List Artifact → List String
coordinates [] = []
coordinates (a ∷ as') = a.coordinate ∷ coordinates as'

abbrev pub single_primary : List Artifact → Option String → Bool
single_primary (a ∷ []) (some expected) = str_eq a.coordinate expected
single_primary _ _ = false

-- `parseJre`, on an object
unfoldable pub parse_jre : Value → Value → Value → Result Jre
unfolding lower_hex
parse_jre v java revision = do
  ensure
      (same_keys v ("id" ∷ "sha256" ∷ "component" ∷ "major" ∷ "runtimeCatalogRevision" ∷ [])
        && identifier (get v "id")
        && sha_text (get v "sha256")
        && strict_eq (get v "component") (get java "component")
        && strict_eq (get v "major") (get java "major")
        && strict_eq (get v "runtimeCatalogRevision") revision)
      invalid_catalog
  ok (record {
    id = get v "id";
    sha256 = lower_hex (text (get v "sha256"));
    component = get v "component";
    major = get v "major";
    revision = lower_hex (text (get v "runtimeCatalogRevision"));
  })

module _ (host : Host) (texts : Texts) where
  -- An address in the catalog, on an approved host.
  abbrev pub artifact_url_ok : List String → Option Url → Bool
  artifact_url_ok hosts none = false
  artifact_url_ok hosts (some url) =
      plain_https url && any (str_eq (texts.lower url.hostname)) hosts

  -- `parseArtifact`
  unfoldable pub parse_artifact : List String → Value → Result Artifact
  unfolding lower_hex valid_coordinate
  parse_artifact hosts v = do
    ensure
        (plain_object v
          && same_keys v ("role" ∷ "coordinate" ∷ "url" ∷ "sha256" ∷ "sizeBytes" ∷ [])
          && one_of ("primary" ∷ "dependency" ∷ []) (get v "role")
          && string_that valid_coordinate (get v "coordinate")
          && is_string (get v "url")
          && sha_text (get v "sha256")
          && in_range 1 max_artifact_bytes (get v "sizeBytes"))
        invalid_catalog
    ensure (artifact_url_ok hosts (host.parse_url (get v "url"))) invalid_catalog
    ok (record {
      role = get v "role";
      coordinate = text (get v "coordinate");
      url = get v "url";
      sha256 = lower_hex (text (get v "sha256"));
      size = get v "sizeBytes";
    })

  unfoldable pub parse_artifacts : List String → List Value → Result (List Artifact)
  unfolding parse_artifact
  parse_artifacts hosts [] = ok []
  parse_artifacts hosts (v ∷ vs) = do
    artifact ← parse_artifact hosts v
    rest ← parse_artifacts hosts vs
    ok (artifact ∷ rest)

  -- `loaderTemplates[kind]`, for a loader that is valid
  abbrev pub template_is : Value → Value → Bool
  template_is kind v = elim (loader_template (texts.print kind)) [
    | none ↦ is_undefined v
    | some template ↦ strict_eq v (str template)
  ]

  unfoldable pub toolchain_fields_ok : Value → Bool
  unfolding valid_loader valid_java loader_template
  toolchain_fields_ok v =
      plain_object v
      && same_keys v
          ("minecraftVersion" ∷ "loader" ∷ "java" ∷ "jre" ∷ "artifacts" ∷ "launchTemplate" ∷ [])
      && valid_minecraft_version (get v "minecraftVersion")
      && valid_loader texts.print (get v "loader")
      && valid_java (get v "java")
      && plain_object (get v "jre")
      && is_array (get v "artifacts")
      && leb 1 (length (elements (get v "artifacts")))
      && leb (length (elements (get v "artifacts"))) 256
      && template_is (get (get v "loader") "kind") (get v "launchTemplate")

  -- `parseToolchain`
  unfoldable pub parse_toolchain : Value → List String → Value → Result Toolchain
  unfolding toolchain_fields_ok parse_artifacts parse_jre expected_primary no_duplicates
  parse_toolchain revision hosts v = do
    ensure (toolchain_fields_ok v) invalid_catalog
    jre ← parse_jre (get v "jre") (get v "java") revision
    artifacts ← parse_artifacts hosts (elements (get v "artifacts"))
    ensure
        (single_primary (primaries artifacts) (
            expected_primary (get v "minecraftVersion") (get (get v "loader") "kind")
              (get (get v "loader") "version"))
          && no_duplicates (coordinates artifacts))
        invalid_catalog
    ok (record {
      minecraft_version = get v "minecraftVersion";
      loader_kind = get (get v "loader") "kind";
      loader_version = get (get v "loader") "version";
      java_component = get (get v "java") "component";
      java_major = get (get v "java") "major";
      jre = jre;
      artifacts = artifacts;
      launch_template = get v "launchTemplate";
    })

  -- The key of a toolchain, whose parts hold no zero unit.
  abbrev pub toolchain_key : Toolchain → String
  toolchain_key t = append_text (text t.minecraft_version) (
      append_text "\0" (
        append_text (texts.print t.loader_kind) (
          append_text "\0" (
            append_text (text t.loader_version) (
              append_text "\0" (
                append_text (text t.java_component)
                  (append_text "\0" (texts.print t.java_major))))))))

  abbrev pub coordinate_keys : String → List String → List String
  coordinate_keys key [] = []
  coordinate_keys key (c ∷ cs) = append_text key (append_text "\0" c) ∷ coordinate_keys key cs

  -- The loop over the artifacts of a toolchain, with the keys of their coordinates so far.
  unfoldable pub add_coordinates : List String → List String → Result (List String)
  add_coordinates seen [] = ok seen
  add_coordinates seen (c ∷ cs) = do
    ensure (not (any (str_eq c) seen)) invalid_catalog
    add_coordinates (c ∷ seen) cs

  -- The loop over the toolchains, with the keys of toolchains and of coordinates so far.
  unfoldable pub parse_toolchains :
      Value → List String → List String → List String → List Value → Result (List Toolchain)
  unfolding parse_toolchain add_coordinates
  parse_toolchains revision hosts seen used [] = ok []
  parse_toolchains revision hosts seen used (v ∷ vs) = do
    toolchain ← parse_toolchain revision hosts v
    let key = toolchain_key toolchain
    ensure (not (any (str_eq key) seen)) invalid_catalog
    taken ← add_coordinates used (coordinate_keys key (coordinates toolchain.artifacts))
    rest ← parse_toolchains revision hosts (key ∷ seen) taken vs
    ok (toolchain ∷ rest)

  abbrev pub legacy_keys : List String
  legacy_keys =
      "schemaVersion" ∷ "catalogVersion" ∷ "runtimeCatalogRevision" ∷ "approvedArtifactHosts"
      ∷ "toolchains" ∷ []

  abbrev pub generated_keys : List String
  generated_keys =
      "schemaVersion" ∷ "catalogRevision" ∷ "runtimeCatalogRevision" ∷ "approvedArtifactHosts"
      ∷ "toolchains" ∷ []

  -- The revision of a generated catalog is the hash of its content.
  unfoldable pub check_revision : Value → Result (Unit {0})
  unfolding lower_hex catalog_revision_for
  check_revision v = do
    ensure (sha_text (get v "catalogRevision")) invalid_catalog
    revision ← catalog_revision_for host v
    ensure (str_eq revision (lower_hex (text (get v "catalogRevision")))) invalid_catalog

  abbrev pub is_legacy : Value → Bool
  is_legacy v = plain_object v && same_keys v legacy_keys

  -- The tests of `parseCatalog` before that of the revision, and those behind it.
  abbrev pub catalog_head_ok : Value → Bool
  catalog_head_ok v =
      (is_legacy v || plain_object v && same_keys v generated_keys)
      && strict_eq (get v "schemaVersion") (int 1)
      && (not (is_legacy v) || identifier (get v "catalogVersion"))

  abbrev pub catalog_body_ok : Value → Bool
  catalog_body_ok v =
      sha_text (get v "runtimeCatalogRevision")
      && is_array (get v "approvedArtifactHosts")
      && leb 1 (length (elements (get v "approvedArtifactHosts")))
      && is_array (get v "toolchains")
      && leb 1 (length (elements (get v "toolchains")))
      && leb (length (elements (get v "toolchains"))) 256

  -- `parseCatalog`
  unfoldable pub parse_catalog : Value → Result Catalog
  unfolding check_revision read_hosts parse_toolchains no_duplicates lower_hex
  parse_catalog v = do
    ensure (catalog_head_ok v) invalid_catalog
    if is_legacy v then ok tt else check_revision v
    ensure (catalog_body_ok v) invalid_catalog
    hosts ← read_hosts (elements (get v "approvedArtifactHosts"))
    ensure (no_duplicates hosts) invalid_catalog
    toolchains ←
        parse_toolchains (get v "runtimeCatalogRevision") hosts [] []
          (elements (get v "toolchains"))
    ok (record {
      catalog_version =
          if is_legacy v
          then get v "catalogVersion"
          else str (lower_hex (text (get v "catalogRevision")));
      catalog_revision =
          if is_legacy v then none else some (lower_hex (text (get v "catalogRevision")));
      runtime_revision = lower_hex (text (get v "runtimeCatalogRevision"));
      hosts = hosts;
      toolchains = toolchains;
    })

  abbrev pub distinct_values : List Value → Bool
  distinct_values [] = true
  distinct_values (v ∷ vs) = not (any (strict_eq v) vs) && distinct_values vs

  abbrev pub in_families : List Value → List Toolchain → List Toolchain
  in_families families [] = []
  in_families families (t ∷ ts) =
      let rest = in_families families ts in
      if any (strict_eq t.loader_kind) families then t ∷ rest else rest

  abbrev pub families_ok : Value → Bool
  families_ok families =
      is_undefined families
      || is_array families
        && leb 1 (length (elements families))
        && distinct_values (elements families)
        && all (λ family. is_some (loader_template (texts.print family))) (elements families)

  abbrev pub kept_toolchains : Value → List Toolchain → List Toolchain
  kept_toolchains families toolchains =
      if is_undefined families then toolchains else in_families (elements families) toolchains

  -- The constructor; `undefined` stands for families that are not given.
  unfoldable pub make_catalog : Value → Value → Result Catalog
  unfolding parse_catalog loader_template
  make_catalog document families = do
    catalog ← parse_catalog document
    ensure (families_ok families) invalid_catalog
    ensure (leb 1 (length (kept_toolchains families catalog.toolchains))) invalid_catalog
    ok (record catalog { toolchains = kept_toolchains families catalog.toolchains })

-- What a builder asks a catalog for.
abbrev pub toolchain_matches : Value → Toolchain → Bool
toolchain_matches input t =
    strict_eq t.minecraft_version (get input "minecraftVersion")
    && strict_eq t.loader_kind (get (get input "loader") "kind")
    && strict_eq t.loader_version (get (get input "loader") "version")
    && strict_eq t.java_component (get (get input "java") "component")
    && strict_eq t.java_major (get (get input "java") "major")

unfoldable pub find_toolchain : Value → List Toolchain → Option Toolchain
find_toolchain input [] = none
find_toolchain input (t ∷ ts) =
    let rest = find_toolchain input ts in if toolchain_matches input t then some t else rest

abbrev pub request_ok : Catalog → Value → Bool
request_ok catalog input =
    plain_object input
    && strict_eq (get input "runtimeCatalogRevision") (str catalog.runtime_revision)
    && valid_minecraft_version (get input "minecraftVersion")
    && plain_object (get input "loader")
    && plain_object (get input "java")

-- `resolve`
unfoldable pub resolve : Catalog → Value → Result Toolchain
unfolding find_toolchain
resolve catalog input = do
  ensure (request_ok catalog input) unsupported
  of_option (find_toolchain input catalog.toolchains) unsupported
