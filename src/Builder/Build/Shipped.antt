-- ===== src/Builder/Build/Shipped.antt =====
-- The archive of a build holds the files that the build is made of.
use xmcl_shared_node_agent.Base.{
  ℕ, String, ◌&&◌, ◌≡◌, refl, ◌∙◌, ap, subst, List, [], ◌∷◌, Option, none, some, arith, length, map,
  leb, str_eq, eq_iff, if◌then◌else◌, Bool-cases, inl, inr,
}
use xmcl_shared_node_agent.Base.Int.{ℤ, pos, negsuc}
use xmcl_shared_node_agent.Base.Dict
use xmcl_shared_node_agent.Base.Dict.{Dict}
use xmcl_shared_node_agent.Js.Text.{lt_string}
use xmcl_shared_node_agent.Js.Text.Order.{lt_string-ne}
use xmcl_shared_node_agent.Js.Value.{Value, int, get, elements, of_list, arr, lookup}
use xmcl_shared_node_agent.Js.Host.{Host}
use xmcl_shared_node_agent.Js.Fault.{ok, of_option, bind_parts, ensure_parts, then_parts}
use xmcl_shared_node_agent.Limits.{max_files, max_package_input_bytes, output_size_within_limit}
use xmcl_shared_node_agent.Compiler.Worker.Defs.{Built}
use xmcl_shared_node_agent.Bundle.Manifest.{lower_hex}
use xmcl_shared_node_agent.Builder.Path.{valid_output_mode, runtime_path, launch_path}
use xmcl_shared_node_agent.Builder.Zstd.{invalid_output, raw_zstd}
use xmcl_shared_node_agent.Builder.Tar.{Texts, File, insert_entry, sort_entries, package_tar}
use xmcl_shared_node_agent.Builder.Content.{
  Entry, natural_of, entry_ok, read_entries, validate_entries, validate_content, output_path,
  sizes_of,
}
use xmcl_shared_node_agent.Builder.Content.Exact.{
  find_entry, Agree, IsExact, validate_content-IsExact,
}
use xmcl_shared_node_agent.Builder.Files.{
  Output, natural_mode, entry_of, describe_files, validate_output_files, is_launcher, output_sizes,
  entry_hash,
}
use xmcl_shared_node_agent.Builder.Build.{
  entry_value, content_value, descriptor_value, package_files,
}

-- Sorting changes no file.
get-insert_entry :
    (k : String) (v : Output) (m : Dict Output) (path : String)
    → Dict.get (insert_entry k v m) path ≡ (if str_eq k path then some v else Dict.get m path)
unfolding insert_entry Dict.get
get-insert_entry k v [] path = refl
get-insert_entry k v ((j, w) ∷ m) path = elim (Bool-cases (lt_string j k)) [
  | inr behind ↦ rw behind refl
  | inl before ↦ rw before (
      ground
        (arith, get-insert_entry k v m path, eq_iff j path, eq_iff k path, lt_string-ne j k before))
]

get-sort_entries :
    (m : Dict Output) (path : String) → Dict.get (sort_entries m) path ≡ Dict.get m path
unfolding sort_entries Dict.get
get-sort_entries [] path = refl
get-sort_entries ((k, v) ∷ m) path =
    ground (arith, get-insert_entry k v (sort_entries m) path, get-sort_entries m path)

module _ (host : Host) where
  -- An entry tells of a file.
  abbrev Tells : Option Output → Option Entry → Type 0
  Tells none none = Unit {0}
  Tells (some o) (some e) =
      (e.size ≡ length o.bytes) × (e.sha256 ≡ host.sha256 o.bytes) × (pos e.mode ≡ o.mode)
  Tells _ _ = ⊥

  natural_mode_lem :
      (z : ℤ) (mode : ℕ) → of_option (natural_mode z) invalid_output ≡ ok mode → pos mode ≡ z
  natural_mode_lem (pos n) mode h = ground arith
  natural_mode_lem (negsuc n) mode h = cc

  describe_files-Tells :
      (files : Dict Output) (entries : List Entry) (checked : Dict File) (path : String)
      → describe_files host files ≡ ok (entries, checked)
      → Tells (Dict.get files path) (find_entry entries path)
  unfolding describe_files Dict.get
  describe_files-Tells [] entries checked path h =
      let same : [] ≡ entries = ground arith in rw (← same) tt
  describe_files-Tells ((k, file) ∷ files) entries checked path h =
      let (fine, h1) = ensure_parts (output_path k) invalid_output _ (entries, checked) h in
      let (mode, mode_ok, h2) =
        bind_parts (of_option (natural_mode file.mode) invalid_output) _ (entries, checked) h1 in
      let (rest, rest_ok, same) = bind_parts (describe_files host files) _ (entries, checked) h2 in
      let this : entry_of host k file.bytes mode ∷ rest.0 ≡ entries = ground arith in
      subst
        (λ es.
          Tells (if str_eq k path then some file else Dict.get files path) (find_entry es path))
        this
        (elim (Bool-cases (str_eq k path)) [
          | inl here ↦ rw here (refl, refl, natural_mode_lem file.mode mode mode_ok)
          | inr other ↦ rw other (describe_files-Tells files rest.0 rest.1 path rest_ok)
        ])

-- An entry that is read is the one that was written, with its digest in small letters.
abbrev Reads : Option Entry → Option Entry → Type 0
Reads none none = Unit {0}
Reads (some e) (some r) = (r.size ≡ e.size) × (r.sha256 ≡ lower_hex e.sha256) × (r.mode ≡ e.mode)
Reads _ _ = ⊥

natural_of-int : (n m : ℕ) → of_option (natural_of (int n)) invalid_output ≡ ok m → m ≡ n
natural_of-int n m h = ground arith

read_entries-Reads :
    (entries : List Entry) (previous : String) (read : List Entry) (path : String)
    → read_entries previous (map entry_value entries) ≡ ok read
    → Reads (find_entry entries path) (find_entry read path)
unfolding read_entries get lookup
read_entries-Reads [] previous read path h = let same : [] ≡ read = ground arith in rw (← same) tt
read_entries-Reads (e ∷ entries) previous read path h =
    let (fine, h1) = ensure_parts (entry_ok previous (entry_value e)) invalid_output _ read h in
    let (size, size_ok, h2) =
      bind_parts (of_option (natural_of (int e.size)) invalid_output) _ read h1 in
    let (mode, mode_ok, h3) =
      bind_parts (of_option (natural_of (int e.mode)) invalid_output) _ read h2 in
    let (good, h4) = ensure_parts (valid_output_mode mode) invalid_output _ read h3 in
    let (rest, rest_ok, same) =
      bind_parts (read_entries e.path (map entry_value entries)) _ read h4 in
    let first : Entry = record {
      path = e.path;
      sha256 = lower_hex e.sha256;
      size = size;
      mode = mode;
    } in
    let this : first ∷ rest ≡ read = ground arith in
    subst (λ es. Reads (find_entry (e ∷ entries) path) (find_entry es path)) this
      (elim (Bool-cases (str_eq e.path path)) [
        | inl here ↦
            rw here (natural_of-int e.size size size_ok, refl, natural_of-int e.mode mode mode_ok)
        | inr other ↦ rw other (read_entries-Reads entries e.path rest path rest_ok)
      ])

module _ (host : Host) (texts : Texts) where
  -- A file of the build and a file of its archive: none of both, or one of each with the same size and
  -- mode, and with digests that differ in the case of letters at most.
  abbrev pub SameFile : Option Output → Option File → Type 0
  SameFile none none = Unit {0}
  SameFile (some o) (some file) =
      (length file.bytes ≡ length o.bytes)
      × (host.sha256 file.bytes ≡ lower_hex (host.sha256 o.bytes))
      × (pos file.mode ≡ o.mode)
  SameFile _ _ = ⊥

  same_file :
      (o : Option Output) (e r : Option Entry) (file : Option File)
      → Tells host o e
      → Reads e r
      → Agree host texts r file
      → SameFile o file
  same_file none none none none tells reads agree = tt
  same_file none none none (some file) tells reads agree = agree
  same_file none none (some r) file tells reads agree = absurd reads
  same_file none (some e) r file tells reads agree = absurd tells
  same_file (some o) none r file tells reads agree = absurd tells
  same_file (some o) (some e) none file tells reads agree = absurd reads
  same_file (some o) (some e) (some r) none tells reads agree = agree
  same_file (some o) (some e) (some r) (some file) tells reads agree = (
    agree.0 ∙ reads.0 ∙ tells.0,
    agree.1 ∙ reads.1 ∙ ap lower_hex tells.1,
    ap pos (agree.2 ∙ reads.2) ∙ tells.2,
  )

  pub record IsShipped (files : Dict Output) (built : Built) : Type 0 where
    pub archive : List ℕ
    pub whole : built.archive ≡ some archive
    pub exact : IsExact host texts archive built.content built.descriptor
    pub same : (path : String) → SameFile (Dict.get files path) (Dict.get exact.files path)

  elements-of_list : (vs : List Value) → elements (arr (of_list vs)) ≡ vs
  unfolding elements of_list
  elements-of_list [] = refl
  elements-of_list (v ∷ vs) = ap (λ r. v ∷ r) (elements-of_list vs)

  entries_of_content :
      (key : Value) (sha256 : String) (size : ℕ) (entries : List Entry)
      → elements (get (content_value key sha256 size entries) "entries") ≡ map entry_value entries
  unfolding get lookup
  entries_of_content key sha256 size entries = elements-of_list (map entry_value entries)

  read_of_validate :
      (values : List Value) (es : List Entry)
      → validate_entries values ≡ ok es
      → read_entries "" values ≡ ok es
  unfolding validate_entries
  read_of_validate values es h =
      let (few, h1) =
        ensure_parts (leb 2 (length values) && leb (length values) max_files) invalid_output _ es
          h in
      let (read, read_ok, h2) = bind_parts (read_entries "" values) _ es h1 in
      let (small, same) =
        ensure_parts (output_size_within_limit (sizes_of read) (int max_package_input_bytes))
          invalid_output (ok read) es h2 in
      read_ok ∙ same

  read_of_content :
      (key : Value) (sha256 : String) (size : ℕ) (entries read : List Entry)
      → validate_entries (elements (get (content_value key sha256 size entries) "entries"))
        ≡ ok read
      → read_entries "" (map entry_value entries) ≡ ok read
  read_of_content key sha256 size entries read h =
      read_of_validate (map entry_value entries) read
        (subst (λ vs. validate_entries vs ≡ ok read) (entries_of_content key sha256 size entries) h)

  described_of :
      (files : Dict Output) (described : List Entry × Dict File)
      → validate_output_files host files ≡ ok described
      → describe_files host (sort_entries files) ≡ ok described
  unfolding validate_output_files
  described_of files described h =
      let (few, h1) =
        ensure_parts (leb 2 (length files) && leb (length files) max_files) invalid_output _
          described h in
      let (read, read_ok, h2) =
        bind_parts (describe_files host (sort_entries files)) _ described h1 in
      let (small, same) =
        ensure_parts
          (Dict.has read.1 runtime_path
            && is_launcher host (Dict.get read.1 launch_path)
            && output_size_within_limit (output_sizes host read.1) (int max_package_input_bytes))
          invalid_output (ok read) described h2 in
      read_ok ∙ same

  ok_same : (a b : Built) → ok a ≡ ok b → a ≡ b
  ok_same a b h = cc

  -- Where the files of a build are packaged, the archive, with its description and its descriptor,
  -- passes the check of the content, and unpacks to the files of the build: at every path there is
  -- none of both, or one of each with the same size, digest and mode.
  pub package_files-IsShipped :
      (key : Value) (files : Dict Output) (built : Built)
      → package_files host texts key files ≡ ok built
      → IsShipped files built
  unfolding package_files validate_output_files
  package_files-IsShipped key files built h =
      let (described, described_ok, h1) = bind_parts (validate_output_files host files) _ built h in
      let (tar, tar_ok, h2) = bind_parts (package_tar texts described.1) _ built h1 in
      let (archive, archive_ok, h3) = bind_parts (raw_zstd tar) _ built h2 in
      let (hash, hash_ok, h4) = bind_parts (entry_hash described.0 runtime_path) _ built h3 in
      let content = content_value key (host.sha256 archive) (length archive) described.0 in
      let (valid, same) =
        then_parts (validate_content host texts archive content (descriptor_value hash)) _ built
          h4 in
      let exact =
        validate_content-IsExact host texts archive content (descriptor_value hash) valid in
      subst (λ b. IsShipped files b) (ok_same _ built same)
        (record {
          archive = archive;
          whole = refl;
          exact = exact;
          same = λ path.
              same_file (Dict.get files path) (find_entry described.0 path)
                (find_entry exact.entries path) (Dict.get exact.files path)
                (subst (λ o. Tells host o (find_entry described.0 path))
                  (get-sort_entries files path)
                  (describe_files-Tells host (sort_entries files) described.0 described.1 path
                    (described_of files described described_ok)))
                (read_entries-Reads described.0 "" exact.entries path (
                  read_of_content key (host.sha256 archive) (length archive) described.0
                    exact.entries exact.described))
                (exact.agree path);
        })
