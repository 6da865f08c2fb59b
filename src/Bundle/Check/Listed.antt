-- ===== src/Bundle/Check/Listed.antt =====
-- What the loop over the entries of an archive makes sure of.
use xmcl_shared_node_agent.Base.{
  ℕ, ◌≡◌, String, true, false, ◌&&◌, List, [], ◌∷◌, some, arith, length, str_eq, eq_iff, ==_iff,
  and-left, and-right, Bool-cases, inl, inr, if◌then◌else◌, Option-cases,
}
use xmcl_shared_node_agent.Base.Dict
use xmcl_shared_node_agent.Base.Dict.{Dict}
use xmcl_shared_node_agent.Js.Host.{Host}
use xmcl_shared_node_agent.Bundle.Path.{allowed_path}
use xmcl_shared_node_agent.Bundle.Manifest.{FileEntry}
use xmcl_shared_node_agent.Bundle.Check.{find_listed, entry_matches, entries_listed}

module _ (host : Host) (files : List FileEntry) where
  -- An entry that the manifest lists, with its size and its digest.
  pub record IsListed (path : String) (bytes : List ℕ) : Type 0 where
    pub file : FileEntry
    pub found : find_listed files path ≡ some file
    pub size : file.size_bytes ≡ length bytes
    pub digest : file.sha256 ≡ host.sha256 bytes

  entry_matches-IsListed :
      (path : String) (bytes : List ℕ)
      → entry_matches host (find_listed files path) bytes ≡ true
      → IsListed path bytes
  entry_matches-IsListed path bytes h = elim (Option-cases (find_listed files path)) [
    | inl missing ↦ ground arith
    | inr (file, found) ↦
        let both : entry_matches host (some file) bytes ≡ true = rw found at h in
        record {
          file = file;
          found = found;
          size = (==_iff file.size_bytes (length bytes)).0 (and-left _ _ both);
          digest = (eq_iff file.sha256 (host.sha256 bytes)).0 (and-right _ _ both);
        }
  ]

  entries_listed-get :
      (entries : Dict (List ℕ)) (path : String) (bytes : List ℕ)
      → entries_listed host files entries ≡ true
      → Dict.get entries path ≡ some bytes
      → str_eq path "bundle.json" ≡ false
      → allowed_path path && entry_matches host (find_listed files path) bytes ≡ true
  unfolding entries_listed Dict.get
  entries_listed-get [] path bytes h there other = cc
  entries_listed-get ((k, b) ∷ entries) path bytes h there other =
      elim (Bool-cases (str_eq k path)) [
        | inr later ↦
            entries_listed-get entries path bytes (and-right _ _ h) (rw later at there) other
        | inl here ↦
            let same : k ≡ path = (eq_iff k path).0 here in
            let bytes_same : b ≡ bytes = ground arith in
            let first : (if str_eq k "bundle.json"
                  then true
                  else allowed_path k && entry_matches host (find_listed files k) b)
                ≡ true =
              and-left _ (entries_listed host files entries) h in
            rw other at (rw (same, bytes_same) at first)
      ]

  -- Where the loop over the entries of an archive succeeds, each entry but the manifest is at an
  -- allowed path, and the manifest lists it with the size and the digest of its bytes.
  pub entries_listed-IsListed :
      (entries : Dict (List ℕ)) (path : String) (bytes : List ℕ)
      → entries_listed host files entries ≡ true
      → Dict.get entries path ≡ some bytes
      → str_eq path "bundle.json" ≡ false
      → (allowed_path path ≡ true) × IsListed path bytes
  entries_listed-IsListed entries path bytes h there other =
      let both = entries_listed-get entries path bytes h there other in
      (and-left _ _ both, entry_matches-IsListed path bytes (and-right _ _ both))
