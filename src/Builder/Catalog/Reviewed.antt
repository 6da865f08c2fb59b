-- ===== src/Builder/Catalog/Reviewed.antt =====
-- What a catalog that is accepted says of the toolchains that it resolves.
use xmcl_shared_node_agent.Base.{
  String, Bool, true, not, ◌&&◌, ◌≡◌, refl, sym, ◌∙◌, ap, subst, List, [], ◌∷◌, Option, none, some,
  arith, length, leb, any, str_eq, All, Bool-cases, inl, inr, and-left, and-right, if◌then◌else◌,
}
use xmcl_shared_node_agent.Js.Value.{
  Value, str, get, elements, plain_object, is_string, is_undefined, same_keys, one_of, string_that,
  strict_eq,
}
use xmcl_shared_node_agent.Js.Value.Equal.{strict_eq-str, eq-str_strict}
use xmcl_shared_node_agent.Js.Host.{Host, Url}
use xmcl_shared_node_agent.Js.Fault.{ok, of_option, bind_parts, ensure_parts, then_parts}
use xmcl_shared_node_agent.Compiler.Job.{text, sha_text, in_range}
use xmcl_shared_node_agent.Bundle.Manifest.{lower_hex, valid_minecraft_version}
use xmcl_shared_node_agent.Builder.Path.{valid_coordinate}
use xmcl_shared_node_agent.Builder.Tar.{Texts}
use xmcl_shared_node_agent.Builder.Plan.{identifier}
use xmcl_shared_node_agent.Builder.Remote.{plain_https, max_artifact_bytes}
use xmcl_shared_node_agent.Builder.Catalog.{
  Artifact, Jre, Toolchain, Catalog, invalid_catalog, unsupported, no_duplicates, expected_primary,
  read_hosts, primaries, coordinates, single_primary, parse_jre, artifact_url_ok, parse_artifact,
  parse_artifacts, parse_toolchain, toolchain_key, parse_toolchains, add_coordinates,
  coordinate_keys, parse_catalog, in_families, toolchain_fields_ok, is_legacy, check_revision,
  catalog_head_ok, catalog_body_ok, families_ok, kept_toolchains, request_ok, make_catalog,
  toolchain_matches, find_toolchain, resolve,
}

-- Two values that are the same have the same text.
text_strict_eq : (a b : Value) → strict_eq a b ≡ true → text a ≡ text b
text_strict_eq (str s) b h = ap text (sym (strict_eq-str s b h))
text_strict_eq a (str s) h = ap text (eq-str_strict a s h)
text_strict_eq _ _ h = refl

parse_jre_revision :
    (v java revision : Value) (jre : Jre)
    → parse_jre v java revision ≡ ok jre
    → jre.revision ≡ lower_hex (text revision)
unfolding parse_jre
parse_jre_revision v java revision jre h =
    let same_revision = strict_eq (get v "runtimeCatalogRevision") revision in
    let (tests, same) =
      ensure_parts
        (same_keys v ("id" ∷ "sha256" ∷ "component" ∷ "major" ∷ "runtimeCatalogRevision" ∷ [])
          && identifier (get v "id")
          && sha_text (get v "sha256")
          && strict_eq (get v "component") (get java "component")
          && strict_eq (get v "major") (get java "major")
          && same_revision)
        invalid_catalog _ jre h in
    let this : lower_hex (text (get v "runtimeCatalogRevision")) ≡ jre.revision = ground arith in
    sym this
    ∙ ap (λ s. lower_hex s)
        (text_strict_eq (get v "runtimeCatalogRevision") revision (and-right _ same_revision tests))

second_of_five : (a b c d e : Bool) → a && b && c && d && e ≡ true → b ≡ true
second_of_five a b c d e h = ground arith

request_revision :
    (catalog : Catalog) (input : Value)
    → request_ok catalog input ≡ true
    → get input "runtimeCatalogRevision" ≡ str catalog.runtime_revision
request_revision catalog input h =
    eq-str_strict (get input "runtimeCatalogRevision") catalog.runtime_revision (
      second_of_five (plain_object input)
        (strict_eq (get input "runtimeCatalogRevision") (str catalog.runtime_revision))
        (valid_minecraft_version (get input "minecraftVersion")) (plain_object (get input "loader"))
        (plain_object (get input "java")) h)

ok_same {ℓ} : {A : Type ℓ} (a b : A) → ok a ≡ ok b → a ≡ b
ok_same a b h = cc

module _ (host : Host) (texts : Texts) where
  -- An artifact at an address of an approved host.
  abbrev pub IsHosted : List String → Artifact → Type 0
  IsHosted hosts a =
      (url : Url) × (host.parse_url a.url ≡ some url)
      × (plain_https url ≡ true)
      × (any (str_eq (texts.lower url.hostname)) hosts ≡ true)

  url_parts :
      (hosts : List String) (found : Option Url)
      → artifact_url_ok host texts hosts found ≡ true
      → (url : Url) × (found ≡ some url)
        × (plain_https url ≡ true)
        × (any (str_eq (texts.lower url.hostname)) hosts ≡ true)
  url_parts hosts none h = cc
  url_parts hosts (some url) h = (url, refl, and-left _ _ h, and-right (plain_https url) _ h)

  parse_artifact-IsHosted :
      (hosts : List String) (v : Value) (a : Artifact)
      → parse_artifact host texts hosts v ≡ ok a
      → IsHosted hosts a
  unfolding parse_artifact
  parse_artifact-IsHosted hosts v a h =
      let (fields, h1) =
        ensure_parts
          (plain_object v
            && same_keys v ("role" ∷ "coordinate" ∷ "url" ∷ "sha256" ∷ "sizeBytes" ∷ [])
            && one_of ("primary" ∷ "dependency" ∷ []) (get v "role")
            && string_that valid_coordinate (get v "coordinate")
            && is_string (get v "url")
            && sha_text (get v "sha256")
            && in_range 1 max_artifact_bytes (get v "sizeBytes"))
          invalid_catalog _ a h in
      let (hosted, same) =
        ensure_parts (artifact_url_ok host texts hosts (host.parse_url (get v "url")))
          invalid_catalog _ a h1 in
      let this : get v "url" ≡ a.url = ground arith in
      let (url, found, plain, approved) = url_parts hosts (host.parse_url (get v "url")) hosted in
      (url, subst (λ u. host.parse_url u ≡ some url) this found, plain, approved)

  parse_artifacts-IsHosted :
      (hosts : List String) (vs : List Value) (artifacts : List Artifact)
      → parse_artifacts host texts hosts vs ≡ ok artifacts
      → All (IsHosted hosts) artifacts
  unfolding parse_artifacts
  parse_artifacts-IsHosted hosts [] [] h = tt
  parse_artifacts-IsHosted hosts [] (a ∷ as') h = cc
  parse_artifacts-IsHosted hosts (v ∷ vs) artifacts h =
      let (a, a_ok, h1) = bind_parts (parse_artifact host texts hosts v) _ artifacts h in
      let (rest, rest_ok, same) = bind_parts (parse_artifacts host texts hosts vs) _ artifacts h1 in
      let this : a ∷ rest ≡ artifacts = ground arith in
      subst (λ l. All (IsHosted hosts) l) this
        (parse_artifact-IsHosted hosts v a a_ok, parse_artifacts-IsHosted hosts vs rest rest_ok)

  -- A toolchain has one primary artifact, which is that of its versions, its coordinates differ, its
  -- artifacts are on approved hosts, and its runtime is of the catalog's revision.
  pub record IsReviewed (revision : String) (hosts : List String) (t : Toolchain) : Type 0 where
    pub primary :
        single_primary
          (primaries t.artifacts)
          (expected_primary t.minecraft_version t.loader_kind t.loader_version)
        ≡ true
    pub distinct : no_duplicates (coordinates t.artifacts) ≡ true
    pub hosted : All (IsHosted hosts) t.artifacts
    pub jre : t.jre.revision ≡ revision

  parse_toolchain-IsReviewed :
      (revision : Value) (hosts : List String) (v : Value) (t : Toolchain)
      → parse_toolchain host texts revision hosts v ≡ ok t
      → IsReviewed (lower_hex (text revision)) hosts t
  unfolding parse_toolchain
  parse_toolchain-IsReviewed revision hosts v t h =
      let (fields, h1) = ensure_parts (toolchain_fields_ok host texts v) invalid_catalog _ t h in
      let (jre, jre_ok, h2) = bind_parts (parse_jre (get v "jre") (get v "java") revision) _ t h1 in
      let (artifacts, artifacts_ok, h3) =
        bind_parts (parse_artifacts host texts hosts (elements (get v "artifacts"))) _ t h2 in
      let (tests, same) =
        ensure_parts
          (single_primary (primaries artifacts) (
              expected_primary (get v "minecraftVersion") (get (get v "loader") "kind")
                (get (get v "loader") "version"))
            && no_duplicates (coordinates artifacts))
          invalid_catalog _ t h3 in
      subst (λ s. IsReviewed (lower_hex (text revision)) hosts s) (ok_same _ t same)
        (record {
          primary = and-left _ _ tests;
          distinct = and-right _ (no_duplicates (coordinates artifacts)) tests;
          hosted =
              parse_artifacts-IsHosted hosts (elements (get v "artifacts")) artifacts artifacts_ok;
          jre = parse_jre_revision (get v "jre") (get v "java") revision jre jre_ok;
        })

  parse_toolchains-IsReviewed :
      (revision : Value) (hosts seen used : List String) (vs : List Value) (ts : List Toolchain)
      → parse_toolchains host texts revision hosts seen used vs ≡ ok ts
      → All (IsReviewed (lower_hex (text revision)) hosts) ts
  unfolding parse_toolchains
  parse_toolchains-IsReviewed revision hosts seen used [] [] h = tt
  parse_toolchains-IsReviewed revision hosts seen used [] (t ∷ ts) h = cc
  parse_toolchains-IsReviewed revision hosts seen used (v ∷ vs) ts h =
      let (t, t_ok, h1) = bind_parts (parse_toolchain host texts revision hosts v) _ ts h in
      let key = toolchain_key host texts t in
      let (new, h2) = ensure_parts (not (any (str_eq key) seen)) invalid_catalog _ ts h1 in
      let (taken, taken_ok, h3) =
        bind_parts
          (add_coordinates host texts used
            (coordinate_keys host texts key (coordinates t.artifacts)))
          _ ts h2 in
      let (rest, rest_ok, same) =
        bind_parts (parse_toolchains host texts revision hosts (key ∷ seen) taken vs) _ ts h3 in
      subst (λ l. All (IsReviewed (lower_hex (text revision)) hosts) l) (ok_same (t ∷ rest) ts same)
        (
          parse_toolchain-IsReviewed revision hosts v t t_ok,
          parse_toolchains-IsReviewed revision hosts (key ∷ seen) taken vs rest rest_ok,
        )

  -- The toolchains of a catalog are reviewed.
  abbrev pub AllReviewed : Catalog → Type 0
  AllReviewed catalog = All (IsReviewed catalog.runtime_revision catalog.hosts) catalog.toolchains

  parse_catalog-AllReviewed :
      (v : Value) (catalog : Catalog)
      → parse_catalog host texts v ≡ ok catalog
      → AllReviewed catalog
  unfolding parse_catalog
  parse_catalog-AllReviewed v catalog h =
      let (head, h1) = ensure_parts (catalog_head_ok host texts v) invalid_catalog _ catalog h in
      let (checked, h2) =
        then_parts (if is_legacy host texts v then ok tt else check_revision host texts v) _ catalog
          h1 in
      let (body, h3) = ensure_parts (catalog_body_ok host texts v) invalid_catalog _ catalog h2 in
      let (hosts, hosts_ok, h4) =
        bind_parts (read_hosts (elements (get v "approvedArtifactHosts"))) _ catalog h3 in
      let (distinct, h5) = ensure_parts (no_duplicates hosts) invalid_catalog _ catalog h4 in
      let (ts, ts_ok, same) =
        bind_parts
          (parse_toolchains host texts (get v "runtimeCatalogRevision") hosts [] []
            (elements (get v "toolchains")))
          _ catalog h5 in
      subst (λ c. AllReviewed c) (ok_same _ catalog same)
        (parse_toolchains-IsReviewed (get v "runtimeCatalogRevision") hosts [] []
          (elements (get v "toolchains")) ts ts_ok)

  in_families-All :
      (P : Toolchain → Type 0) (families : List Value) (ts : List Toolchain)
      → All P ts
      → All P (in_families host texts families ts)
  in_families-All P families [] h = tt
  in_families-All P families (t ∷ ts) (first, rest) =
      elim (Bool-cases (any (strict_eq t.loader_kind) families)) [
        | inl kept ↦ rw kept (first, in_families-All P families ts rest)
        | inr dropped ↦ rw dropped (in_families-All P families ts rest)
      ]

  kept_toolchains-All :
      (P : Toolchain → Type 0) (families : Value) (ts : List Toolchain)
      → All P ts
      → All P (kept_toolchains host texts families ts)
  kept_toolchains-All P families ts h = elim (Bool-cases (is_undefined families)) [
    | inl all_kept ↦ rw all_kept h
    | inr some_kept ↦ rw some_kept (in_families-All P (elements families) ts h)
  ]

  make_catalog-AllReviewed :
      (document families : Value) (catalog : Catalog)
      → make_catalog host texts document families ≡ ok catalog
      → AllReviewed catalog
  unfolding make_catalog
  make_catalog-AllReviewed document families catalog h =
      let (parsed, parsed_ok, h1) = bind_parts (parse_catalog host texts document) _ catalog h in
      let (fine, h2) =
        ensure_parts (families_ok host texts families) invalid_catalog _ catalog h1 in
      let (some_left, same) =
        ensure_parts (leb 1 (length (kept_toolchains host texts families parsed.toolchains)))
          invalid_catalog _ catalog h2 in
      subst (λ c. AllReviewed c) (ok_same _ catalog same)
        (kept_toolchains-All (IsReviewed parsed.runtime_revision parsed.hosts) families
          parsed.toolchains (parse_catalog-AllReviewed document parsed parsed_ok))

  find_toolchain-All :
      (P : Toolchain → Type 0) (input : Value) (ts : List Toolchain) (t : Toolchain)
      → All P ts
      → of_option (find_toolchain input ts) unsupported ≡ ok t
      → P t × (toolchain_matches input t ≡ true)
  unfolding find_toolchain
  find_toolchain-All P input [] t h found = cc
  find_toolchain-All P input (s ∷ ts) t (first, rest) found =
      elim (Bool-cases (toolchain_matches input s)) [
        | inl this ↦
            let same : ok s ≡ ok t = rw this at found in
            subst (λ u. P u × (toolchain_matches input u ≡ true)) (ok_same s t same) (first, this)
        | inr other ↦ find_toolchain-All P input ts t rest (rw other at found)
      ]

  -- A toolchain that an accepted catalog resolves is the one that was asked for, in its versions and
  -- its runtime, and of the revision that was asked for. It has one primary artifact, which is
  -- that of its versions, its coordinates differ, and all its artifacts are on hosts that the
  -- catalog approves.
  pub resolve-make_catalog :
      (document families input : Value) (catalog : Catalog) (t : Toolchain)
      → make_catalog host texts document families ≡ ok catalog
      → resolve catalog input ≡ ok t
      → (toolchain_matches input t ≡ true)
        × (get input "runtimeCatalogRevision" ≡ str catalog.runtime_revision)
        × IsReviewed catalog.runtime_revision catalog.hosts t
  unfolding resolve
  resolve-make_catalog document families input catalog t made h =
      let (fine, found) = ensure_parts (request_ok catalog input) unsupported _ t h in
      let (reviewed, matches) =
        find_toolchain-All (IsReviewed catalog.runtime_revision catalog.hosts) input
          catalog.toolchains t (make_catalog-AllReviewed document families catalog made) found in
      (matches, request_revision catalog input fine, reviewed)
