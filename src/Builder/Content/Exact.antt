-- ===== src/Builder/Content/Exact.antt =====
-- What an accepted description says of the files in the archive.
use xmcl_shared_node_agent.Base.{
  ℕ, ◌≤◌, String, Bool, true, false, ◌&&◌, List, [], ◌∷◌, Option, none, some, ◌≡◌, refl, arith,
  length, str_eq, eq_iff, ==_iff, ◌==◌, and-left, and-right, Bool-cases, inl, inr, All,
  if◌then◌else◌, subst, is_some,
}
use xmcl_shared_node_agent.Base.Dict
use xmcl_shared_node_agent.Base.Dict.{Dict}
use xmcl_shared_node_agent.Js.Text.Order.{lt_string-ne}
use xmcl_shared_node_agent.Js.Value.{
  Value, str, int, get, elements, strict_eq, plain_object, string_that, is_safe_integer, is_array,
}
use xmcl_shared_node_agent.Js.Value.Equal.{eq-str_strict, eq-int_strict}
use xmcl_shared_node_agent.Js.Host.{Host}
use xmcl_shared_node_agent.Js.Fault.{ok, bind_parts, ensure_parts, of_option}
use xmcl_shared_node_agent.Builder.Path.{runtime_path, launch_path, valid_content_key}
use xmcl_shared_node_agent.Compiler.Job.{sha_text}
use xmcl_shared_node_agent.Builder.Zstd.{unpack_zstd, invalid_output}
use xmcl_shared_node_agent.Builder.Tar.{Texts, File, unpack_tar}
use xmcl_shared_node_agent.Builder.Content.{
  Entry, validate_entries, file_matches, entries_match, validate_content, content_ok,
  valid_descriptor, check_launch,
}
use xmcl_shared_node_agent.Builder.Content.Listed.{
  Behind, Ordered, Behind-earlier, Allowed, validate_entries-Ordered,
}

-- The entry for a path.
abbrev pub find_entry : List Entry → String → Option Entry
find_entry [] path = none
find_entry (e ∷ es) path = if str_eq e.path path then some e else find_entry es path

found_some : (o : Option File) (file : File) → of_option o invalid_output ≡ ok file → o ≡ some file
found_some none file h = cc
found_some (some f) file h = ground arith

-- The fifth and the seventh of nine tests.
two_of_nine :
    (a b c d e f g h i : Bool)
    → a && b && c && d && e && f && g && h && i ≡ true
    → (e ≡ true) × (g ≡ true)
two_of_nine a b c d e f g h i all_hold = ground arith

module _ (host : Host) (texts : Texts) where
  -- An entry and a file agree, and there is none of both or one of each.
  abbrev pub Agree : Option Entry → Option File → Type 0
  Agree none none = Unit {0}
  Agree (some e) (some file) =
      (length file.bytes ≡ e.size) × (host.sha256 file.bytes ≡ e.sha256) × (file.mode ≡ e.mode)
  Agree _ _ = ⊥

  file_matches-Agree :
      (e : Entry) (found : Option File)
      → file_matches host texts e found ≡ true
      → Agree (some e) found
  file_matches-Agree e none h = cc
  file_matches-Agree e (some file) h =
      (ground arith, ground (arith, eq_iff (host.sha256 file.bytes) e.sha256), ground arith)

  file_matches-has :
      (e : Entry) (found : Option File)
      → file_matches host texts e found ≡ true
      → is_some found ≡ true
  file_matches-has e none h = cc
  file_matches-has e (some file) h = refl

  -- A file at an earlier path may be left out.
  entries_match-delete :
      (es : List Entry) (files : Dict File) (path : String)
      → Behind path es
      → entries_match host texts es files ≡ true
      → entries_match host texts es (Dict.delete files path) ≡ true
  unfolding entries_match
  entries_match-delete [] files path behind h = refl
  entries_match-delete (e ∷ es) files path (next, behind) h =
      let other : str_eq path e.path ≡ false =
        ground (arith, eq_iff path e.path, lt_string-ne path e.path next) in
      rw (Dict.get-delete files path e.path, other)
        (ground
          (arith, entries_match-delete es files path (Behind-earlier path e.path es next behind)))

  Ordered-rest : (e : Entry) (es : List Entry) → Behind e.path es → Ordered es
  Ordered-rest e [] h = tt
  Ordered-rest e (f ∷ es) h = h.1

  entries_match-Agree :
      (es : List Entry) (files : Dict File) (path : String)
      → Ordered es
      → entries_match host texts es files ≡ true
      → length files ≤ length es
      → Agree (find_entry es path) (Dict.get files path)
  unfolding entries_match
  entries_match-Agree [] [] path ordered h short = rw (Dict.get-empty path) tt
  entries_match-Agree [] (f ∷ files) path ordered h short = absurd (omega arith)
  entries_match-Agree (e ∷ es) files path ordered h short =
      let first =
        and-left (file_matches host texts e (Dict.get files e.path))
          (entries_match host texts es files) h in
      elim (Bool-cases (str_eq e.path path)) [
        | inl here ↦ rw here (
            subst (λ p. Agree (some e) (Dict.get files p)) ((eq_iff e.path path).0 here)
              (file_matches-Agree e (Dict.get files e.path) first))
        | inr other ↦
            let kept = Dict.get-delete files e.path path in
            let fewer = (Dict.length-delete files e.path).1 (file_matches-has e _ first) in
            let later =
              entries_match-Agree es (Dict.delete files e.path) path (Ordered-rest e es ordered)
                (entries_match-delete es files e.path ordered (and-right _ _ h))
                (omega (arith, fewer)) in
            rw other (rw (kept, other) at later)
      ]

  content_ok_lem :
      (archive : List ℕ) (content descriptor : Value)
      → content_ok host texts archive content descriptor ≡ true
      → (get content "sha256" ≡ str (host.sha256 archive))
        × (get content "sizeBytes" ≡ int (length archive))
  unfolding content_ok
  content_ok_lem archive content descriptor h =
      let (digest, size) =
        two_of_nine (plain_object content) (strict_eq (get content "format") (str "tar.zst"))
          (string_that valid_content_key (get content "key")) (sha_text (get content "sha256"))
          (strict_eq (get content "sha256") (str (host.sha256 archive)))
          (is_safe_integer (get content "sizeBytes"))
          (strict_eq (get content "sizeBytes") (int (length archive)))
          (is_array (get content "entries")) (valid_descriptor descriptor) h in
      (eq-str_strict _ _ digest, eq-int_strict _ _ size)

  -- A build as it is described: its archive, the entries and the files.
  pub record IsExact (archive : List ℕ) (content descriptor : Value) : Type 0 where
    pub digest : get content "sha256" ≡ str (host.sha256 archive)
    pub size : get content "sizeBytes" ≡ int (length archive)
    pub entries : List Entry
    pub tar : List ℕ
    pub files : Dict File
    pub described : validate_entries (elements (get content "entries")) ≡ ok entries
    pub opened : unpack_zstd archive ≡ ok tar
    pub unpacked : unpack_tar texts tar ≡ ok files
    pub ordered : Ordered entries
    pub allowed : All Allowed entries
    pub agree : (path : String) → Agree (find_entry entries path) (Dict.get files path)
    pub runtime : File
    pub runtime_found : Dict.get files runtime_path ≡ some runtime
    pub runtime_digest : get (get descriptor "runtime") "sha256" ≡ str (host.sha256 runtime.bytes)
    pub launcher : File
    pub launcher_found : Dict.get files launch_path ≡ some launcher
    pub launch : check_launch host texts runtime launcher ≡ ok tt

  -- An archive that is accepted has the size and the digest that its description gives, and unpacks to
  -- files of which each has one entry with its path, size, digest and mode, as has each entry a
  -- file: at every path there is either both or none. The paths are ordered and allowed, and the
  -- files of the runtime and of the launcher are there, the first with the digest that the
  -- descriptor gives, and pass the check of the launch.
  pub validate_content-IsExact :
      (archive : List ℕ) (content descriptor : Value)
      → validate_content host texts archive content descriptor ≡ ok tt
      → IsExact archive content descriptor
  unfolding validate_content content_ok
  validate_content-IsExact archive content descriptor h =
      let (fine, h1) =
        ensure_parts (content_ok host texts archive content descriptor) invalid_output _ tt h in
      let (entries, described, h2) =
        bind_parts (validate_entries (elements (get content "entries"))) _ tt h1 in
      let (tar, opened, h3) = bind_parts (unpack_zstd archive) _ tt h2 in
      let (files, unpacked, h4) = bind_parts (unpack_tar texts tar) _ tt h3 in
      let (matched, h5) =
        ensure_parts (length files == length entries && entries_match host texts entries files)
          invalid_output _ tt h4 in
      let (runtime, runtime_found, h6) =
        bind_parts (of_option (Dict.get files runtime_path) invalid_output) _ tt h5 in
      let (launcher, launcher_found, h7) =
        bind_parts (of_option (Dict.get files launch_path) invalid_output) _ tt h6 in
      let (digest, launch) =
        ensure_parts
          (strict_eq (get (get descriptor "runtime") "sha256") (str (host.sha256 runtime.bytes)))
          invalid_output _ tt h7 in
      let facts = validate_entries-Ordered (elements (get content "entries")) entries described in
      record {
        digest = (content_ok_lem archive content descriptor fine).0;
        size = (content_ok_lem archive content descriptor fine).1;
        entries = entries;
        tar = tar;
        files = files;
        described = described;
        opened = opened;
        unpacked = unpacked;
        ordered = facts.0;
        allowed = facts.1;
        agree = λ path.
            entries_match-Agree entries files path facts.0 (and-right _ _ matched)
              (omega (arith, (==_iff (length files) (length entries)).0 (and-left _ _ matched)));
        runtime = runtime;
        runtime_found = found_some _ runtime runtime_found;
        runtime_digest = eq-str_strict _ _ digest;
        launcher = launcher;
        launcher_found = found_some _ launcher launcher_found;
        launch = launch;
      }
