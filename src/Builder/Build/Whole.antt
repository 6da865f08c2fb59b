-- ===== src/Builder/Build/Whole.antt =====
-- What a build that succeeds is made from, and what comes of it.
use xmcl_shared_node_agent.Base.{
  ℕ, suc, true, ◌&&◌, ◌≡◌, refl, subst, List, [], ◌∷◌, Option, none, some, arith, length, str_eq,
  eq_iff, and-left, and-right,
}
use xmcl_shared_node_agent.Base.Dict.{Dict}
use xmcl_shared_node_agent.Js.Value.{Value, str, int, get, strict_eq, string_that}
use xmcl_shared_node_agent.Js.Value.Equal.{strict_eq-int}
use xmcl_shared_node_agent.Js.Host.{Host}
use xmcl_shared_node_agent.Js.Fault.{
  Result, ok, err, of_option, of_option-some, rethrow, bind_parts, ensure_parts, compiler_failure,
}
use xmcl_shared_node_agent.Bundle.Manifest.{Manifest}
use xmcl_shared_node_agent.Compiler.Worker.Defs.{Built}
use xmcl_shared_node_agent.Builder.Path.{valid_content_key}
use xmcl_shared_node_agent.Builder.Tar.{Texts}
use xmcl_shared_node_agent.Builder.Content.{strings}
use xmcl_shared_node_agent.Builder.Files.{Installed, Output}
use xmcl_shared_node_agent.Builder.Remote.{Downloads}
use xmcl_shared_node_agent.Builder.Catalog.{Artifact, Jre, Toolchain, Catalog, resolve, unsupported}
use xmcl_shared_node_agent.Builder.Build.{
  VerifiedJre, Plan, Supplied, Sandbox, Builder, has_capabilities, request_of, artifact_value,
  artifact_matches, download_artifacts, resolve_verified_jre, create_assembly_plan, assemble_files,
  build_with, build, unavailable,
}
use xmcl_shared_node_agent.Builder.Build.Assembled.{IsAssembled, assemble_files-IsAssembled}
use xmcl_shared_node_agent.Builder.Build.Shipped.{IsShipped, package_files-IsShipped}

module _ (host : Host) (texts : Texts) where
  -- The sandbox gets the artifacts of the toolchain in their order, each with its size and its digest.
  abbrev pub AllSupplied : List Artifact → List Supplied → Type 0
  AllSupplied [] [] = Unit {0}
  AllSupplied (a ∷ as') (s ∷ ss) =
      (s.coordinate ≡ a.coordinate)
      × (a.size ≡ int (length s.bytes))
      × (host.sha256 s.bytes ≡ a.sha256)
      × AllSupplied as' ss
  AllSupplied _ _ = ⊥

  artifact_matches_lem :
      (a : Artifact) (answer : Option (List ℕ)) (bytes : List ℕ)
      → artifact_matches host texts a answer ≡ ok bytes
      → (a.size ≡ int (length bytes)) × (host.sha256 bytes ≡ a.sha256)
  artifact_matches_lem a none bytes h = cc
  artifact_matches_lem a (some read) bytes h =
      let (fits, same) =
        ensure_parts (strict_eq (int (length read)) a.size && str_eq (host.sha256 read) a.sha256)
          (compiler_failure "artifact_hash_mismatch") (ok read) bytes h in
      let this : read ≡ bytes = ground arith in
      subst (λ b. (a.size ≡ int (length b)) × (host.sha256 b ≡ a.sha256)) this
        (
          strict_eq-int (length read) a.size (and-left _ _ fits),
          (eq_iff (host.sha256 read) a.sha256).0 (and-right _ _ fits),
        )

  download_artifacts-AllSupplied :
      (downloads : Downloads) (hosts : Value) (calls : ℕ) (artifacts : List Artifact)
      (supplied : List Supplied)
      → download_artifacts host texts downloads hosts calls artifacts ≡ ok supplied
      → AllSupplied artifacts supplied
  unfolding download_artifacts
  download_artifacts-AllSupplied downloads hosts calls [] [] h = tt
  download_artifacts-AllSupplied downloads hosts calls [] (s ∷ ss) h = cc
  download_artifacts-AllSupplied downloads hosts calls (a ∷ as') supplied h =
      let (answer, given, h1) =
        bind_parts (downloads.artifact calls (artifact_value a) hosts) _ supplied h in
      let (bytes, matched, h2) = bind_parts (artifact_matches host texts a answer) _ supplied h1 in
      let (rest, rest_ok, same) =
        bind_parts (download_artifacts host texts downloads hosts (suc calls) as') _ supplied h2 in
      let first : Supplied = record { coordinate = a.coordinate; url = a.url; bytes = bytes } in
      let this : first ∷ rest ≡ supplied = ground arith in
      let (size, digest) = artifact_matches_lem a answer bytes matched in
      subst (λ s. AllSupplied (a ∷ as') s) this
        (
          refl,
          size,
          digest,
          download_artifacts-AllSupplied downloads hosts (suc calls) as' rest rest_ok,
        )

  rethrow_ok :
      (r : Result (Option Installed)) (installed : Option Installed)
      → rethrow r (compiler_failure "installer_failed") ≡ ok installed
      → r ≡ ok installed
  rethrow_ok (ok o) installed h = h
  rethrow_ok (err e) installed h = cc

  pub record IsReviewed (catalog : Catalog) (jres : Jre → Result Value) (sandbox : Sandbox)
      (manifest : Manifest) (entries : Dict (List ℕ)) (frozen : Value) (built : Built)
      : Type 0 where
    pub capable : has_capabilities sandbox.capabilities ≡ true
    pub toolchain : Toolchain
    pub resolved : resolve catalog (request_of manifest) ≡ ok toolchain
    pub jre : VerifiedJre
    pub verified : resolve_verified_jre host texts jres toolchain.jre ≡ ok jre
    pub plan : Plan
    pub planned : create_assembly_plan host texts toolchain ≡ ok plan
    pub supplied : List Supplied
    pub artifacts : AllSupplied toolchain.artifacts supplied
    pub installed : Option Installed
    pub ran : sandbox.assemble jre plan supplied ≡ ok installed
    pub files : Dict Output
    pub assembled :
        IsAssembled host texts manifest entries (get frozen "mods") toolchain plan installed files
    pub shipped : IsShipped host texts files built

  build_with-IsReviewed :
      (catalog : Catalog) (jres : Jre → Result Value) (sandbox : Sandbox) (downloads : Downloads)
      (manifest : Manifest) (entries : Dict (List ℕ)) (frozen key : Value) (built : Built)
      → build_with host texts catalog jres sandbox downloads manifest entries frozen key ≡ ok built
      → IsReviewed catalog jres sandbox manifest entries frozen built
  unfolding build_with
  build_with-IsReviewed catalog jres sandbox downloads manifest entries frozen key built h =
      let (capable, h1) =
        ensure_parts (has_capabilities sandbox.capabilities) unavailable _ built h in
      let (keyed, h2) =
        ensure_parts (string_that valid_content_key key) (compiler_failure "invalid_builder_input")
          _ built h1 in
      let (toolchain, resolved, h3) =
        bind_parts (resolve catalog (request_of manifest)) _ built h2 in
      let (compatible, h4) =
        ensure_parts
          (strict_eq (get (get (get frozen "compatibility") "runtimeCatalog") "sha256")
            (str catalog.runtime_revision))
          unsupported _ built h3 in
      let (jre, verified, h5) =
        bind_parts (resolve_verified_jre host texts jres toolchain.jre) _ built h4 in
      let (plan, planned, h6) = bind_parts (create_assembly_plan host texts toolchain) _ built h5 in
      let (supplied, downloaded, h7) =
        bind_parts
          (download_artifacts host texts downloads (strings catalog.hosts) 0 toolchain.artifacts) _
          built h6 in
      let (installed, ran, h8) =
        bind_parts
          (rethrow (sandbox.assemble jre plan supplied) (compiler_failure "installer_failed")) _
          built h7 in
      let (files, assembled, packaged) =
        bind_parts
          (assemble_files host texts downloads manifest entries (get frozen "mods") toolchain plan
            installed)
          _ built h8 in
      record {
        capable = capable;
        toolchain = toolchain;
        resolved = resolved;
        jre = jre;
        verified = verified;
        plan = plan;
        planned = planned;
        supplied = supplied;
        artifacts =
            download_artifacts-AllSupplied downloads (strings catalog.hosts) 0 toolchain.artifacts
              supplied downloaded;
        installed = installed;
        ran = rethrow_ok (sandbox.assemble jre plan supplied) installed ran;
        files = files;
        assembled =
            assemble_files-IsAssembled host texts downloads manifest entries (get frozen "mods")
              toolchain plan installed files assembled;
        shipped = package_files-IsShipped host texts key files built packaged;
      }

  pub record IsReviewedBuild (b : Builder) (manifest : Manifest) (entries : Dict (List ℕ))
      (frozen : Value) (built : Built) : Type 0 where
    pub catalog : Catalog
    pub catalog_given : b.catalog ≡ some catalog
    pub jres : Jre → Result Value
    pub jres_given : b.jres ≡ some jres
    pub sandbox : Sandbox
    pub sandbox_given : b.sandbox ≡ some sandbox
    pub reviewed : IsReviewed catalog jres sandbox manifest entries frozen built

  -- A build that succeeds is reviewed throughout: its toolchain is one that the catalog resolves for the
  -- manifest, its runtime is the one that the registry has verified for it, the sandbox has the
  -- required capabilities and ran the plan of the toolchain with exactly its artifacts, each with
  -- its size and digest. The files are exactly those of the sandbox, those of the instance that the
  -- manifest lists, the listed mods and the two generated ones, none in place of another. The archive
  -- passes the check of the content, and it unpacks to a file of the same size, digest (up to the case
  -- of letters) and mode at each path of these files, and at no other path.
  pub build-IsReviewedBuild :
      (b : Builder) (manifest : Manifest) (entries : Dict (List ℕ)) (frozen key : Value)
      (built : Built)
      → build host texts b manifest entries frozen key ≡ ok built
      → IsReviewedBuild b manifest entries frozen built
  unfolding build
  build-IsReviewedBuild b manifest entries frozen key built h =
      let (catalog, catalog_given, h1) = bind_parts (of_option b.catalog unavailable) _ built h in
      let (jres, jres_given, h2) = bind_parts (of_option b.jres unavailable) _ built h1 in
      let (downloads, downloads_given, h3) =
        bind_parts (of_option b.downloads unavailable) _ built h2 in
      let (sandbox, sandbox_given, h4) = bind_parts (of_option b.sandbox unavailable) _ built h3 in
      record {
        catalog = catalog;
        catalog_given = of_option-some b.catalog unavailable catalog catalog_given;
        jres = jres;
        jres_given = of_option-some b.jres unavailable jres jres_given;
        sandbox = sandbox;
        sandbox_given = of_option-some b.sandbox unavailable sandbox sandbox_given;
        reviewed =
            build_with-IsReviewed catalog jres sandbox downloads manifest entries frozen key built
              h4;
      }
