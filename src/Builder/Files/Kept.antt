-- ===== src/Builder/Files/Kept.antt =====
-- No step of a build replaces a file that an earlier one has written.
use xmcl_shared_node_agent.Base.{
  ℕ, String, Bool, true, false, not, ◌&&◌, List, [], ◌∷◌, Option, none, some, ◌≡◌, refl, arith,
  length, eq_iff, ==_iff, Bool-cases, inl, inr, and-left, and-right, subst,
}
use xmcl_shared_node_agent.Base.Int.{pos}
use xmcl_shared_node_agent.Base.Dict
use xmcl_shared_node_agent.Base.Dict.{Dict}
use xmcl_shared_node_agent.Js.Text.{starts_with}
use xmcl_shared_node_agent.Js.Host.{Host}
use xmcl_shared_node_agent.Js.Fault.{ok, ensure_parts}
use xmcl_shared_node_agent.Bundle.Manifest.{FileEntry}
use xmcl_shared_node_agent.Builder.Path.{safe_output_path, forbidden_output_path}
use xmcl_shared_node_agent.Builder.Files.{
  Output, invalid_installed, add_generated_file, source_ok, bytes_of, instance_path,
  copy_bundle_content,
}

-- Every file of the first is in the second as it was.
abbrev pub Kept : Dict Output → Dict Output → Type 0
Kept before after =
    (path : String) (file : Output)
    → Dict.get before path ≡ some file
    → Dict.get after path ≡ some file

pub put-Kept :
    (files : Dict Output) (path : String) (file : Output)
    → Dict.has files path ≡ false
    → Kept files (Dict.put files path file)
put-Kept files path file new other found there =
    ground (arith, Dict.get-put files path file other, eq_iff path other)

pub Kept-trans : (a b c : Dict Output) → Kept a b → Kept b c → Kept a c
Kept-trans a b c h k path file there = k path file (h path file there)

pub add_generated_file_lem :
    (files after : Dict Output) (path : String) (bytes : List ℕ) (mode : ℕ)
    → add_generated_file files path bytes mode ≡ ok after
    → Kept files after × (Dict.get after path ≡ some (record { bytes = bytes; mode = pos mode }))
unfolding add_generated_file
add_generated_file_lem files after path bytes mode h =
    let (new, same) =
      ensure_parts (not (Dict.has files path)) invalid_installed
        (ok (Dict.put files path (record { bytes = bytes; mode = pos mode }))) after h in
    let this : Dict.put files path (record { bytes = bytes; mode = pos mode }) ≡ after =
      ground arith in
    (
      subst (λ d. Kept files d) this
          (put-Kept files path (record { bytes = bytes; mode = pos mode }) (ground arith)),
      rw (← this) (
          ground (
            arith,
            Dict.get-put files path (record { bytes = bytes; mode = pos mode }) path,
            eq_iff path path,
          )),
    )

module _ (host : Host) (entries : Dict (List ℕ)) where
  -- A file of the instance that the manifest lists is in the build with its bytes, at an allowed path.
  pub record InBuild (file : FileEntry) (after : Dict Output) : Type 0 where
    pub bytes : List ℕ
    pub source : Dict.get entries file.path ≡ some bytes
    pub size : length bytes ≡ file.size_bytes
    pub digest : host.sha256 bytes ≡ file.sha256
    pub safe : safe_output_path (instance_path file.path) ≡ true
    pub allowed : forbidden_output_path (instance_path file.path) ≡ false
    pub found :
        Dict.get after (instance_path file.path) ≡ some (record { bytes = bytes; mode = pos 420 })

  abbrev pub AllInBuild : List FileEntry → Dict Output → Type 0
  AllInBuild [] after = Unit {0}
  AllInBuild (file ∷ listed) after =
      (starts_with file.path "instance/" ≡ true → InBuild file after) × AllInBuild listed after

  four_tests :
      (a b c d : Bool) → a && b && c && d ≡ true → (a ≡ true) × (b ≡ true) × (c ≡ true) × (d ≡ true)
  four_tests a b c d h = ground arith

  not-false : (b : Bool) → not b ≡ true → b ≡ false
  not-false true h = cc
  not-false false h = refl

  -- What is put in the build for a listed file.
  abbrev output_of : FileEntry → Output
  output_of file = record { bytes = bytes_of host (Dict.get entries file.path); mode = pos 420 }

  source_ok-InBuild :
      (file : FileEntry) (source : Option (List ℕ)) (after : Dict Output)
      → Dict.get entries file.path ≡ source
      → source_ok host file source ≡ true
      → safe_output_path (instance_path file.path) ≡ true
      → forbidden_output_path (instance_path file.path) ≡ false
      → Dict.get after (instance_path file.path)
        ≡ some (record { bytes = bytes_of host source; mode = pos 420 })
      → InBuild file after
  source_ok-InBuild file none after at good safe allowed found = cc
  source_ok-InBuild file (some bytes) after at good safe allowed found = record {
    bytes = bytes;
    source = at;
    size = (==_iff (length bytes) file.size_bytes).0 (and-left _ _ good);
    digest = (eq_iff (host.sha256 bytes) file.sha256).0 (and-right _ _ good);
    safe = safe;
    allowed = allowed;
    found = found;
  }

  -- Where the content of a bundle is copied, each file before it is there as it was, and each file
  -- of the instance that the manifest lists is there with the bytes of the bundle, which have the
  -- size and the digest of the manifest, at a path that is safe and not forbidden.
  pub copy_bundle_content-Kept :
      (listed : List FileEntry) (files after : Dict Output)
      → copy_bundle_content host listed entries files ≡ ok after
      → Kept files after × AllInBuild listed after
  unfolding copy_bundle_content
  copy_bundle_content-Kept [] files after h =
      let same : files ≡ after = ground arith in ((λ path file there. rw (← same) there), tt)
  copy_bundle_content-Kept (file ∷ listed) files after h =
      let path = instance_path file.path in
      elim (Bool-cases (starts_with file.path "instance/")) [
        | inr other ↦
            let later = copy_bundle_content-Kept listed files after (rw other at h) in
            (later.0, ((λ inside. cc), later.1))
        | inl inside ↦
            let tests =
              source_ok host file (Dict.get entries file.path)
              && safe_output_path path
              && not (forbidden_output_path path)
              && not (Dict.has files path) in
            elim (Bool-cases tests) [
              | inr bad ↦ ground arith
              | inl good ↦
                  let (source, safe, allowed, new) =
                    four_tests (source_ok host file (Dict.get entries file.path))
                      (safe_output_path path) (not (forbidden_output_path path))
                      (not (Dict.has files path)) good in
                  let (kept, rest) =
                    copy_bundle_content-Kept listed (Dict.put files path (output_of file)) after
                      (rw (inside, good) at h) in
                  (
                    Kept-trans files (Dict.put files path (output_of file)) after
                        (put-Kept files path (output_of file) (not-false _ new)) kept,
                    (
                      (λ _.
                          source_ok-InBuild file (Dict.get entries file.path) after refl source safe
                            (not-false _ allowed)
                            (kept path (output_of file) (
                              ground (
                                arith,
                                Dict.get-put files path (output_of file) path,
                                eq_iff path path,
                              )))),
                      rest,
                    ),
                  )
            ]
      ]
