-- ===== src/Builder/Remote/Added.antt =====
-- The mods of a build are added beside its files, each under a name of its own.
use xmcl_shared_node_agent.Base.{
  ℕ, suc, String, Bool, true, false, not, ◌&&◌, List, [], ◌∷◌, Option, none, some, ◌≡◌, refl, sym,
  ◌∙◌, ap, arith, length, str_eq, eq_iff, Bool-cases, inl, inr, and-left, and-right, subst, ◌⊎◌,
  ◌||◌, leb, ◌==◌,
}
use xmcl_shared_node_agent.Base.Int.{pos}
use xmcl_shared_node_agent.Base.Dict
use xmcl_shared_node_agent.Base.Dict.{Dict}
use xmcl_shared_node_agent.Js.Value.{
  Value, undefined, is_array, int, str, get, elements, is_undefined, strict_eq,
}
use xmcl_shared_node_agent.Js.Value.Equal.{eq-str_strict, eq-int_strict}
use xmcl_shared_node_agent.Js.Host.{Host}
use xmcl_shared_node_agent.Js.Fault.{ok, ensure_parts, then_parts, bind_parts, compiler_failure}
use xmcl_shared_node_agent.Limits.{max_files}
use xmcl_shared_node_agent.Builder.Path.{safe_output_path, forbidden_output_path}
use xmcl_shared_node_agent.Builder.Tar.{Texts}
use xmcl_shared_node_agent.Builder.Files.{Output}
use xmcl_shared_node_agent.Builder.Files.Kept.{Kept, Kept-trans, put-Kept}
use xmcl_shared_node_agent.Builder.Remote.{
  Downloads, validate_remote_mod, remote_path, collision_key, collision_keys, includes,
  accept_remote, add_mods, add_remote_mods, max_artifact_bytes, invalid_remote,
}

true_or_false : (b : Bool) → b ≡ true → b ≡ false → ⊥
true_or_false b h k = cc

not-true : (b : Bool) → not b ≡ true → b ≡ false
not-true true h = cc
not-true false h = refl

no_elements : (v : Value) → is_undefined v ≡ true → elements v ≡ []
unfolding elements
no_elements undefined h = refl
no_elements _ h = cc

module _ (host : Host) (texts : Texts) where
  -- A listed mod is in the build with the size and the digest of the manifest, from an address of its
  -- provider, at an allowed path under its name.
  pub record IsAdded (v : Value) (after : Dict Output) : Type 0 where
    pub bytes : List ℕ
    pub valid : validate_remote_mod host texts max_artifact_bytes v ≡ ok tt
    pub size : get v "sizeBytes" ≡ int (length bytes)
    pub digest : get v "sha256" ≡ str (host.sha256 bytes)
    pub safe : safe_output_path (remote_path host texts v) ≡ true
    pub allowed : forbidden_output_path (remote_path host texts v) ≡ false
    pub found :
        Dict.get after (remote_path host texts v) ≡ some (record { bytes = bytes; mode = pos 420 })

  abbrev pub AllAdded : List Value → Dict Output → Type 0
  AllAdded [] after = Unit {0}
  AllAdded (v ∷ mods) after = IsAdded v after × AllAdded mods after

  -- The keys are those of the files, and perhaps more.
  abbrev Covers : List String → Dict Output → Type 0
  Covers keys files =
      (path : String)
      → Dict.has files path ≡ true
      → includes host texts keys (collision_key host texts path) ≡ true

  collision_keys-Covers : (files : Dict Output) → Covers (collision_keys host texts files) files
  unfolding Dict.get
  collision_keys-Covers [] path there = cc
  collision_keys-Covers ((k, file) ∷ files) path there = elim (Bool-cases (str_eq k path)) [
    | inl here ↦
        let same : k ≡ path = (eq_iff k path).0 here in
        rw (← same)
          (ground (arith, eq_iff (collision_key host texts k) (collision_key host texts k)))
    | inr other ↦ let later = collision_keys-Covers files path (rw other at there) in ground arith
  ]

  put-Covers :
      (keys : List String) (files : Dict Output) (path : String) (file : Output)
      → Covers keys files
      → Covers (collision_key host texts path ∷ keys) (Dict.put files path file)
  put-Covers keys files path file covers other there = ground (
    arith,
    Dict.get-put files path file other,
    eq_iff path other,
    covers other,
    eq_iff (collision_key host texts path) (collision_key host texts other),
  )

  accept_remote_parts :
      (v : Value) (answer : Option (List ℕ)) (bytes : List ℕ)
      → accept_remote host texts v answer ≡ ok bytes
      → (get v "sizeBytes" ≡ int (length bytes)) × (get v "sha256" ≡ str (host.sha256 bytes))
  unfolding accept_remote
  accept_remote_parts v none bytes h = cc
  accept_remote_parts v (some read) bytes h =
      let (fits, same) =
        ensure_parts
          (strict_eq (get v "sizeBytes") (int (length read))
            && strict_eq (get v "sha256") (str (host.sha256 read)))
          (compiler_failure "remote_mod_hash_mismatch") (ok read) bytes h in
      let this : read ≡ bytes = ground arith in
      (
        eq-int_strict (get v "sizeBytes") (length read) (and-left _ _ fits)
            ∙ ap (λ b. int (length b)) this,
        eq-str_strict (get v "sha256") (host.sha256 read) (and-right _ _ fits)
            ∙ ap (λ b. str (host.sha256 b)) this,
      )

  abbrev Separate : Dict Output → Dict Output → Type 0
  Separate files after =
      (p q : String)
      → Dict.has after p ≡ true
      → Dict.has after q ≡ true
      → collision_key host texts p ≡ collision_key host texts q
      → (p ≡ q) ⊎ ((Dict.has files p ≡ true) × (Dict.has files q ≡ true))

  clash :
      (keys : List String) (a b : String)
      → a ≡ b
      → includes host texts keys a ≡ true
      → includes host texts keys b ≡ false
      → ⊥
  clash keys a b e h k = true_or_false _ h (ap (λ s. includes host texts keys s) e ∙ k)

  put-Separate :
      (keys : List String) (files after : Dict Output) (path : String) (file : Output)
      → Covers keys files
      → includes host texts keys (collision_key host texts path) ≡ false
      → Separate (Dict.put files path file) after
      → Separate files after
  put-Separate keys files after path file covers new later p q there also same =
      let put_p = Dict.get-put files path file p in
      let put_q = Dict.get-put files path file q in
      elim (later p q there also same) [
        | inl e ↦ inl e
        | inr (has_p, has_q) ↦ elim (Bool-cases (str_eq path p)) [
          | inl here_p ↦ elim (Bool-cases (str_eq path q)) [
            | inl here_q ↦ inl (sym ((eq_iff path p).0 here_p) ∙ (eq_iff path q).0 here_q)
            | inr other_q ↦
                let in_q : Dict.has files q ≡ true = ground arith in
                let bad = covers q in_q in
                let key : collision_key host texts q ≡ collision_key host texts path =
                  sym same
                  ∙ ap (λ s. collision_key host texts s) (sym ((eq_iff path p).0 here_p)) in
                absurd (clash keys _ _ key bad new)
          ]
          | inr other_p ↦ elim (Bool-cases (str_eq path q)) [
            | inl here_q ↦
                let in_p : Dict.has files p ≡ true = ground arith in
                let bad = covers p in_p in
                let key : collision_key host texts p ≡ collision_key host texts path =
                  same ∙ ap (λ s. collision_key host texts s) (sym ((eq_iff path q).0 here_q)) in
                absurd (clash keys _ _ key bad new)
            | inr other_q ↦ inr (ground arith, ground arith)
          ]
        ]
      ]

  -- What a run of the loop has made of the files before it.
  pub record AreAdded (mods : List Value) (files after : Dict Output) : Type 0 where
    pub kept : Kept files after
    pub added : AllAdded mods after
    pub separate :
        (p q : String)
        → Dict.has after p ≡ true
        → Dict.has after q ≡ true
        → collision_key host texts p ≡ collision_key host texts q
        → (p ≡ q) ⊎ ((Dict.has files p ≡ true) × (Dict.has files q ≡ true))

  -- What one round of the loop has done.
  record Round (downloads : Downloads) (calls : ℕ) (v : Value) (mods : List Value)
      (keys : List String) (files after : Dict Output) : Type 0 where
    valid : validate_remote_mod host texts max_artifact_bytes v ≡ ok tt
    new : includes host texts keys (collision_key host texts (remote_path host texts v)) ≡ false
    safe : safe_output_path (remote_path host texts v) ≡ true
    allowed : forbidden_output_path (remote_path host texts v) ≡ false
    bytes : List ℕ
    answer : Option (List ℕ)
    accepted : accept_remote host texts v answer ≡ ok bytes
    later :
        add_mods host texts downloads
          (suc calls)
          mods
          (collision_key host texts (remote_path host texts v) ∷ keys)
          (Dict.put files (remote_path host texts v) (record { bytes = bytes; mode = pos 420 }))
        ≡ ok after

  add_mods-Round :
      (downloads : Downloads) (calls : ℕ) (v : Value) (mods : List Value) (keys : List String)
      (files after : Dict Output)
      → add_mods host texts downloads calls (v ∷ mods) keys files ≡ ok after
      → Round downloads calls v mods keys files after
  unfolding add_mods
  add_mods-Round downloads calls v mods keys files after h =
      let path = remote_path host texts v in
      let new_key = not (includes host texts keys (collision_key host texts path)) in
      let (valid, h1) =
        then_parts (validate_remote_mod host texts max_artifact_bytes v) _ after h in
      let (tests, h2) =
        ensure_parts (new_key && safe_output_path path && not (forbidden_output_path path))
          (compiler_failure "remote_mod_collision") _ after h1 in
      let (answer, given, h3) = bind_parts (downloads.remote calls v) _ after h2 in
      let (bytes, accepted, later) = bind_parts (accept_remote host texts v answer) _ after h3 in
      record {
        valid = valid;
        new = not-true _ (and-left _ _ (and-left _ _ tests));
        safe = and-right new_key (safe_output_path path) (and-left _ _ tests);
        allowed =
            not-true _ (
              and-right (new_key && safe_output_path path) (not (forbidden_output_path path))
                tests);
        bytes = bytes;
        answer = answer;
        accepted = accepted;
        later = later;
      }

  -- A key that no earlier file has is that of a path that no earlier file has.
  new_path :
      (keys : List String) (files : Dict Output) (path : String)
      → Covers keys files
      → includes host texts keys (collision_key host texts path) ≡ false
      → Dict.has files path ≡ false
  new_path keys files path covers new = elim (Bool-cases (Dict.has files path)) [
    | inl there ↦ absurd (true_or_false _ (covers path there) new)
    | inr absent ↦ absent
  ]

  add_mods-AreAdded :
      (downloads : Downloads) (calls : ℕ) (mods : List Value) (keys : List String)
      (files after : Dict Output)
      → Covers keys files
      → add_mods host texts downloads calls mods keys files ≡ ok after
      → AreAdded mods files after
  unfolding add_mods
  add_mods-AreAdded downloads calls [] keys files after covers h =
      let same : files ≡ after = ground arith in
      subst (λ d. AreAdded [] files d) same
        (record {
          kept = λ path file there. there;
          added = tt;
          separate = λ p q in_p in_q e. inr (in_p, in_q);
        })
  add_mods-AreAdded downloads calls (v ∷ mods) keys files after covers h =
      let r = add_mods-Round downloads calls v mods keys files after h in
      let path = remote_path host texts v in
      let file : Output = record { bytes = r.bytes; mode = pos 420 } in
      let later =
        add_mods-AreAdded downloads (suc calls) mods (collision_key host texts path ∷ keys)
          (Dict.put files path file) after (put-Covers keys files path file covers) r.later in
      let (size, digest) = accept_remote_parts v r.answer r.bytes r.accepted in
      record {
        kept =
            Kept-trans files (Dict.put files path file) after
              (put-Kept files path file (new_path keys files path covers r.new)) later.kept;
        added = (
          record {
            bytes = r.bytes;
            valid = r.valid;
            size = size;
            digest = digest;
            safe = r.safe;
            allowed = r.allowed;
            found =
                later.kept path file
                  (ground (arith, Dict.get-put files path file path, eq_iff path path));
          },
          later.added,
        );
        separate = put-Separate keys files after path file covers r.new later.separate;
      }

  -- Where the mods of a manifest are added, every file before them is there as it was, every listed mod
  -- is there with the size and the digest that the manifest gives, from an address of its provider
  -- and at an allowed path, and two paths whose keys collide are the same, or both were there before.
  pub add_remote_mods-AreAdded :
      (downloads : Downloads) (mods : Value) (files after : Dict Output)
      → add_remote_mods host texts downloads mods files ≡ ok after
      → AreAdded (elements mods) files after
  unfolding add_remote_mods
  add_remote_mods-AreAdded downloads mods files after h = elim (Bool-cases (is_undefined mods)) [
    | inl none_given ↦
        let same : files ≡ after = ground arith in
        let empty : elements mods ≡ [] = no_elements mods none_given in
        rw empty (
          subst (λ d. AreAdded [] files d) same
            (record {
              kept = λ path file there. there;
              added = tt;
              separate = λ p q in_p in_q e. inr (in_p, in_q);
            }))
    | inr given ↦
        let tests =
          is_array mods
          && leb (length (elements mods)) max_files
          && (length (elements mods) == 0 || downloads.has_remote) in
        let (listed, run) =
          ensure_parts tests invalid_remote
            (add_mods host texts downloads 0 (elements mods) (collision_keys host texts files)
              files)
            after (rw given at h) in
        add_mods-AreAdded downloads 0 (elements mods) (collision_keys host texts files) files after
          (collision_keys-Covers files) run
  ]
