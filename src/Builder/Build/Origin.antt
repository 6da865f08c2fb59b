-- ===== src/Builder/Build/Origin.antt =====
-- Where each file of a build comes from.
use xmcl_shared_node_agent.Base.{
  ℕ, suc, String, true, not, ◌&&◌, ◌||◌, List, [], ◌∷◌, Option, none, some, ◌≡◌, refl, ap, arith,
  length, str_eq, eq_iff, Bool-cases, inl, inr, subst, ◌⊎◌, leb, ◌==◌,
}
use xmcl_shared_node_agent.Base.Int.{pos}
use xmcl_shared_node_agent.Base.Dict
use xmcl_shared_node_agent.Base.Dict.{Dict}
use xmcl_shared_node_agent.Js.Text.{starts_with}
use xmcl_shared_node_agent.Js.Value.{Value, num, safe_int, is_array, elements, is_undefined}
use xmcl_shared_node_agent.Js.Host.{Host}
use xmcl_shared_node_agent.Js.Fault.{
  ok, of_option, of_option-some, ensure_parts, then_parts, bind_parts, compiler_failure,
}
use xmcl_shared_node_agent.Limits.{max_files}
use xmcl_shared_node_agent.Bundle.Manifest.{FileEntry}
use xmcl_shared_node_agent.Builder.Path.{safe_output_path, forbidden_output_path}
use xmcl_shared_node_agent.Builder.Tar.{Texts}
use xmcl_shared_node_agent.Builder.Files.{
  Contents, octets, other, RawFile, Installed, Output, metadata, installer_path, invalid_installed,
  normalize_files, normalize_sandbox_output, valid_attestation, instance_path, source_ok, bytes_of,
  copy_bundle_content, add_generated_file,
}
use xmcl_shared_node_agent.Builder.Remote.{
  Downloads, validate_remote_mod, remote_path, collision_key, collision_keys, accept_remote,
  add_mods, add_remote_mods, max_artifact_bytes, invalid_remote,
}

-- A file that the sandbox gave, as the build takes it: none of both, or the same bytes and mode.
abbrev pub AsGiven : Option RawFile → Option Output → Type 0
AsGiven none none = Unit {0}
AsGiven (some raw) (some o) = (raw.contents ≡ octets o.bytes) × (raw.mode ≡ num o.mode)
AsGiven _ _ = ⊥

metadata-AsGiven :
    (contents : Contents) (mode : Value) (o : Output)
    → of_option (metadata contents mode) invalid_installed ≡ ok o
    → (contents ≡ octets o.bytes) × (mode ≡ num o.mode)
metadata-AsGiven (octets bytes) (num z) o h = elim (Bool-cases (safe_int z)) [
  | inl safe ↦
      let this : record { bytes = bytes; mode = z } ≡ o = ground arith in
      (ap (λ f. octets f.bytes) this, ap (λ f. num f.mode) this)
  | inr bad ↦ ground arith
]
metadata-AsGiven (octets bytes) _ o h = cc
metadata-AsGiven (other v) mode o h = cc

normalize_files-AsGiven :
    (raw : Dict RawFile) (base : Dict Output) (path : String)
    → normalize_files raw ≡ ok base
    → AsGiven (Dict.get raw path) (Dict.get base path)
unfolding normalize_files Dict.get
normalize_files-AsGiven [] base path h = let same : [] ≡ base = ground arith in rw (← same) tt
normalize_files-AsGiven ((k, file) ∷ raw) base path h =
    let (fine, h1) = ensure_parts (installer_path k) invalid_installed _ base h in
    let (output, output_ok, h2) =
      bind_parts (of_option (metadata file.contents file.mode) invalid_installed) _ base h1 in
    let (rest, rest_ok, same) = bind_parts (normalize_files raw) _ base h2 in
    let this : (k, output) ∷ rest ≡ base = ground arith in
    subst (λ d. AsGiven (Dict.get ((k, file) ∷ raw) path) (Dict.get d path)) this
      (elim (Bool-cases (str_eq k path)) [
        | inl here ↦ rw here (metadata-AsGiven file.contents file.mode output output_ok)
        | inr there ↦ rw there (normalize_files-AsGiven raw rest path rest_ok)
      ])

-- What the sandbox gave is all of the files that a build starts from.
pub record IsGiven (installed : Option Installed) (base : Dict Output) : Type 0 where
  pub answer : Installed
  pub answered : installed ≡ some answer
  pub attested : valid_attestation answer.attestation ≡ true
  pub raw : Dict RawFile
  pub raw_given : answer.files ≡ some raw
  pub same : (path : String) → AsGiven (Dict.get raw path) (Dict.get base path)

pub normalize_sandbox_output-IsGiven :
    (installed : Option Installed) (base : Dict Output)
    → normalize_sandbox_output installed ≡ ok base
    → IsGiven installed base
unfolding normalize_sandbox_output
normalize_sandbox_output-IsGiven none base h = cc
normalize_sandbox_output-IsGiven (some answer) base h =
    let (attested, h1) =
      ensure_parts (valid_attestation answer.attestation) (compiler_failure "installer_failed") _
        base h in
    let (raw, raw_given, h2) = bind_parts (of_option answer.files invalid_installed) _ base h1 in
    let (small, run) = ensure_parts _ invalid_installed (normalize_files raw) base h2 in
    record {
      answer = answer;
      answered = refl;
      attested = attested;
      raw = raw;
      raw_given = of_option-some answer.files invalid_installed raw raw_given;
      same = λ path. normalize_files-AsGiven raw base path run;
    }

has-put :
    (files : Dict Output) (path p : String) (file : Output)
    → Dict.has (Dict.put files path file) p ≡ true
    → (Dict.has files p ≡ true) ⊎ (path ≡ p)
has-put files path p file h = elim (Bool-cases (str_eq path p)) [
  | inl here ↦ inr ((eq_iff path p).0 here)
  | inr there ↦ inl (ground (arith, Dict.get-put files path file p))
]

pub add_generated_file_only :
    (files after : Dict Output) (path : String) (bytes : List ℕ) (mode : ℕ)
    → add_generated_file files path bytes mode ≡ ok after
    → (p : String) → Dict.has after p ≡ true
    → (Dict.has files p ≡ true) ⊎ (path ≡ p)
unfolding add_generated_file
add_generated_file_only files after path bytes mode h p there =
    let (new, same) =
      ensure_parts (not (Dict.has files path)) invalid_installed
        (ok (Dict.put files path (record { bytes = bytes; mode = pos mode }))) after h in
    let this : Dict.put files path (record { bytes = bytes; mode = pos mode }) ≡ after =
      ground arith in
    has-put files path p (record { bytes = bytes; mode = pos mode }) (rw (← this) at there)

-- The path of a file of the instance that the manifest lists.
abbrev pub FromBundle : List FileEntry → String → Type 0
FromBundle [] p = ⊥
FromBundle (file ∷ listed) p =
    ((starts_with file.path "instance/" ≡ true) × (instance_path file.path ≡ p))
    ⊎ FromBundle listed p

module _ (host : Host) (entries : Dict (List ℕ)) where
  pub copy_bundle_content_only :
      (listed : List FileEntry) (files after : Dict Output)
      → copy_bundle_content host listed entries files ≡ ok after
      → (p : String) → Dict.has after p ≡ true
      → (Dict.has files p ≡ true) ⊎ FromBundle listed p
  unfolding copy_bundle_content
  copy_bundle_content_only [] files after h p there =
      let same : files ≡ after = ground arith in inl (rw (← same) at there)
  copy_bundle_content_only (file ∷ listed) files after h p there =
      let path = instance_path file.path in
      elim (Bool-cases (starts_with file.path "instance/")) [
        | inr outside ↦
            elim (copy_bundle_content_only listed files after (rw outside at h) p there) [
              | inl before ↦ inl before
              | inr later ↦ inr (inr later)
            ]
        | inl inside ↦
            let tests =
              source_ok host file (Dict.get entries file.path)
              && safe_output_path path
              && not (forbidden_output_path path)
              && not (Dict.has files path) in
            let output : Output = record {
              bytes = bytes_of host (Dict.get entries file.path);
              mode = pos 420;
            } in
            elim (Bool-cases tests) [
              | inr bad ↦ ground arith
              | inl good ↦
                  elim (copy_bundle_content_only listed (Dict.put files path output) after
                    (rw (inside, good) at h) p there) [
                      | inr later ↦ inr (inr later)
                      | inl before ↦ elim (has-put files path p output before) [
                        | inl earlier ↦ inl earlier
                        | inr here ↦ inr (inl (inside, here))
                      ]
                    ]
            ]
      ]

module _ (host : Host) (texts : Texts) where
  -- The path of a listed mod.
  abbrev pub FromMods : List Value → String → Type 0
  FromMods [] p = ⊥
  FromMods (v ∷ mods) p = (remote_path host texts v ≡ p) ⊎ FromMods mods p

  add_mods_only :
      (downloads : Downloads) (calls : ℕ) (mods : List Value) (keys : List String)
      (files after : Dict Output)
      → add_mods host texts downloads calls mods keys files ≡ ok after
      → (p : String) → Dict.has after p ≡ true
      → (Dict.has files p ≡ true) ⊎ FromMods mods p
  unfolding add_mods
  add_mods_only downloads calls [] keys files after h p there =
      let same : files ≡ after = ground arith in inl (rw (← same) at there)
  add_mods_only downloads calls (v ∷ mods) keys files after h p there =
      let path = remote_path host texts v in
      let (valid, h1) =
        then_parts (validate_remote_mod host texts max_artifact_bytes v) _ after h in
      let (tests, h2) = ensure_parts _ (compiler_failure "remote_mod_collision") _ after h1 in
      let (answer, given, h3) = bind_parts (downloads.remote calls v) _ after h2 in
      let (bytes, accepted, later) = bind_parts (accept_remote host texts v answer) _ after h3 in
      let file : Output = record { bytes = bytes; mode = pos 420 } in
      elim (add_mods_only downloads (suc calls) mods (collision_key host texts path ∷ keys)
        (Dict.put files path file) after later p there) [
          | inr listed ↦ inr (inr listed)
          | inl before ↦ elim (has-put files path p file before) [
            | inl earlier ↦ inl earlier
            | inr here ↦ inr (inl here)
          ]
        ]

  pub add_remote_mods_only :
      (downloads : Downloads) (mods : Value) (files after : Dict Output)
      → add_remote_mods host texts downloads mods files ≡ ok after
      → (p : String) → Dict.has after p ≡ true
      → (Dict.has files p ≡ true) ⊎ FromMods (elements mods) p
  unfolding add_remote_mods
  add_remote_mods_only downloads mods files after h p there =
      elim (Bool-cases (is_undefined mods)) [
        | inl none_given ↦ let same : files ≡ after = ground arith in inl (rw (← same) at there)
        | inr given ↦
            let tests =
              is_array mods
              && leb (length (elements mods)) max_files
              && (length (elements mods) == 0 || downloads.has_remote) in
            let (listed, run) =
              ensure_parts tests invalid_remote
                (add_mods host texts downloads 0 (elements mods) (collision_keys host texts files)
                  files)
                after (rw given at h) in
            add_mods_only downloads 0 (elements mods) (collision_keys host texts files) files after
              run p there
      ]
