-- ===== src/Builder/Build/Assembled.antt =====
-- Which files a build is made of.
use xmcl_shared_node_agent.Base.{ℕ, String, ◌≡◌, List, [], ◌∷◌, Option, some, true, ◌⊎◌, inl, inr}
use xmcl_shared_node_agent.Base.Int.{pos}
use xmcl_shared_node_agent.Base.Dict
use xmcl_shared_node_agent.Base.Dict.{Dict}
use xmcl_shared_node_agent.Js.Text.{units}
use xmcl_shared_node_agent.Js.Value.{Value, elements}
use xmcl_shared_node_agent.Js.Host.{Host}
use xmcl_shared_node_agent.Js.Fault.{ok, bind_parts}
use xmcl_shared_node_agent.Bundle.Manifest.{Manifest, FileEntry}
use xmcl_shared_node_agent.Builder.Path.{runtime_path, launch_path}
use xmcl_shared_node_agent.Builder.Tar.{Texts}
use xmcl_shared_node_agent.Builder.Plan.{generated_launcher}
use xmcl_shared_node_agent.Builder.Files.{
  Installed, Output, normalize_sandbox_output, copy_bundle_content, add_generated_file,
}
use xmcl_shared_node_agent.Builder.Files.Kept.{
  Kept, Kept-trans, AllInBuild, copy_bundle_content-Kept, add_generated_file_lem,
}
use xmcl_shared_node_agent.Builder.Remote.{Downloads, add_remote_mods}
use xmcl_shared_node_agent.Builder.Remote.Added.{AllAdded, add_remote_mods-AreAdded}
use xmcl_shared_node_agent.Builder.Catalog.{Toolchain}
use xmcl_shared_node_agent.Builder.Build.Origin.{
  IsGiven, FromBundle, FromMods, normalize_sandbox_output-IsGiven, copy_bundle_content_only,
  add_remote_mods_only, add_generated_file_only,
}
use xmcl_shared_node_agent.Builder.Build.{Plan, runtime_descriptor, assemble_files}

module _ (host : Host) (entries : Dict (List ℕ)) where
  AllInBuild-later :
      (listed : List FileEntry) (before after : Dict Output)
      → Kept before after
      → AllInBuild host entries listed before
      → AllInBuild host entries listed after
  AllInBuild-later [] before after kept h = tt
  AllInBuild-later (file ∷ listed) before after kept (first, rest) = (
    (λ inside.
        let there = first inside in
        record {
          bytes = there.bytes;
          source = there.source;
          size = there.size;
          digest = there.digest;
          safe = there.safe;
          allowed = there.allowed;
          found = kept _ _ there.found;
        }),
    AllInBuild-later listed before after kept rest,
  )

module _ (host : Host) (texts : Texts) where
  AllAdded-later :
      (mods : List Value) (before after : Dict Output)
      → Kept before after
      → AllAdded host texts mods before
      → AllAdded host texts mods after
  AllAdded-later [] before after kept h = tt
  AllAdded-later (v ∷ mods) before after kept (first, rest) = (
    record {
      bytes = first.bytes;
      valid = first.valid;
      size = first.size;
      digest = first.digest;
      safe = first.safe;
      allowed = first.allowed;
      found = kept _ _ first.found;
    },
    AllAdded-later mods before after kept rest,
  )

  pub record IsAssembled (manifest : Manifest) (entries : Dict (List ℕ)) (mods : Value)
      (t : Toolchain) (plan : Plan) (installed : Option Installed) (files : Dict Output)
      : Type 0 where
    pub base : Dict Output
    pub given : IsGiven installed base
    pub kept : Kept base files
    pub bundle : AllInBuild host entries manifest.files files
    pub remote : AllAdded host texts (elements mods) files
    pub runtime :
        Dict.get files runtime_path
        ≡ some (record { bytes = host.print_json (runtime_descriptor t plan); mode = pos 420 })
    pub script : String
    pub generated : generated_launcher plan.arguments ≡ ok script
    pub launcher :
        Dict.get files launch_path
        ≡ some (record { bytes = texts.encode (units script); mode = pos 493 })
    pub only :
        (path : String)
        → Dict.has files path ≡ true
        → (Dict.has base path ≡ true)
          ⊎ FromBundle manifest.files path
          ⊎ FromMods host texts (elements mods) path
          ⊎ (runtime_path ≡ path)
          ⊎ (launch_path ≡ path)

  -- Where the files of a build are put together, none replaces another: every file of the sandbox is
  -- there as it was, every file of the instance with the bytes that the manifest lists, every mod
  -- with those that its listing gives, and the two generated files; and there is no other file.
  pub assemble_files-IsAssembled :
      (downloads : Downloads) (manifest : Manifest) (entries : Dict (List ℕ)) (mods : Value)
      (t : Toolchain) (plan : Plan) (installed : Option Installed) (files : Dict Output)
      → assemble_files host texts downloads manifest entries mods t plan installed ≡ ok files
      → IsAssembled manifest entries mods t plan installed files
  unfolding assemble_files
  assemble_files-IsAssembled downloads manifest entries mods t plan installed files h =
      let (base, normalized, h1) = bind_parts (normalize_sandbox_output installed) _ files h in
      let (copied, copied_ok, h2) =
        bind_parts (copy_bundle_content host manifest.files entries base) _ files h1 in
      let (added, added_ok, h3) =
        bind_parts (add_remote_mods host texts downloads mods copied) _ files h2 in
      let descriptor = host.print_json (runtime_descriptor t plan) in
      let (described, described_ok, h4) =
        bind_parts (add_generated_file added runtime_path descriptor 420) _ files h3 in
      let (script, generated, last) = bind_parts (generated_launcher plan.arguments) _ files h4 in
      let (kept_base, in_build) =
        copy_bundle_content-Kept host entries manifest.files base copied copied_ok in
      let mods_added = add_remote_mods-AreAdded host texts downloads mods copied added added_ok in
      let (kept_added, runtime) =
        add_generated_file_lem added described runtime_path descriptor 420 described_ok in
      let (kept_described, launcher) =
        add_generated_file_lem described files launch_path (texts.encode (units script)) 493 last in
      let late = Kept-trans added described files kept_added kept_described in
      let later = Kept-trans copied added files mods_added.kept late in
      record {
        base = base;
        given = normalize_sandbox_output-IsGiven installed base normalized;
        kept = Kept-trans base copied files kept_base later;
        bundle = AllInBuild-later host entries manifest.files copied files later in_build;
        remote = AllAdded-later (elements mods) added files late mods_added.added;
        runtime = kept_described runtime_path _ runtime;
        script = script;
        generated = generated;
        launcher = launcher;
        only = λ path there.
            elim (add_generated_file_only described files launch_path (texts.encode (units script))
              493 last path there) [
                | inr launch ↦ inr (inr (inr (inr launch)))
                | inl in_described ↦
                    elim (add_generated_file_only added described runtime_path descriptor 420
                      described_ok path in_described) [
                        | inr run ↦ inr (inr (inr (inl run)))
                        | inl in_added ↦
                            elim (add_remote_mods_only host texts downloads mods copied added
                              added_ok path in_added) [
                                | inr listed ↦ inr (inr (inl listed))
                                | inl in_copied ↦
                                    elim (copy_bundle_content_only host entries manifest.files base
                                      copied copied_ok path in_copied) [
                                        | inr bundled ↦ inr (inl bundled)
                                        | inl in_base ↦ inl in_base
                                      ]
                              ]
                      ]
              ];
      }
