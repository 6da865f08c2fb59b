-- ===== src/Compiler/Worker/Content.antt =====
-- What a download and a reconciliation that succeed say of the bytes.
use xmcl_shared_node_agent.Base.{
  ℕ, ◌≤◌, String, ◌≡◌, refl, sym, ◌∙◌, ap, inl, inr, ◌⊎◌, some, true, false, eq_iff, min, subst,
  Bool-cases, Option-cases, List, arith, length, map,
}
use xmcl_shared_node_agent.Base.Int.{pos}
use xmcl_shared_node_agent.Js.Value.{Value, num, str, int, get, strict_eq, truthy}
use xmcl_shared_node_agent.Js.Value.Equal.{strict_eq-str, strict_eq-int}
use xmcl_shared_node_agent.Js.Host.{Host, Url}
use xmcl_shared_node_agent.Js.Stream.{Chunk, Complaints, flatten, read_stream, read_stream_iff}
use xmcl_shared_node_agent.Js.Fault.{ok, Result-cases, compiler_failure}
use xmcl_shared_node_agent.Limits.{max_bundle_archive_bytes}
use xmcl_shared_node_agent.Compiler.Worker.Defs.{
  Response, Body, stream, whole, same_href, response_ok, accept_sized, accept_stored,
  read_exact_body, hash_exact_body, accept_download, accept_reconciliation,
}

-- The bytes of a body, in the order in which they come.
abbrev pub Holds : Body → List ℕ → Type 0
Holds (whole b) read = b ≡ read
Holds (stream chunks) read =
    (parts : List (List ℕ)) × (chunks ≡ map Chunk.bytes parts) × (read ≡ flatten parts)

carried :
    (limit : ℕ) (c : Complaints) (chunks : List Chunk) (read : List ℕ)
    → read_stream limit c chunks ≡ ok read
    → Holds (stream chunks) read
carried limit c chunks read h =
    let carries = (read_stream_iff limit c chunks read).0 h in
    (carries.parts, carries.same, carries.whole)

-- Two values that are addresses with one `href`.
pub record SameAddress (host : Host) (a b : Value) : Type 0 where
  pub left : Url
  pub right : Url
  pub parsed_left : host.parse_url a ≡ some left
  pub parsed_right : host.parse_url b ≡ some right
  pub same : left.href ≡ right.href

same_href-SameAddress :
    (host : Host) (a b : Value)
    → same_href (host.parse_url a) (host.parse_url b) ≡ true
    → SameAddress host a b
same_href-SameAddress host a b h = elim (Option-cases (host.parse_url a)) [
  | inl bad ↦ cc (rw bad at h)
  | inr (u, left) ↦ elim (Option-cases (host.parse_url b)) [
    | inl bad ↦ cc (rw (left, bad) at h)
    | inr (v, right) ↦ record {
      left = u;
      right = v;
      parsed_left = left;
      parsed_right = right;
      same = (eq_iff u.href v.href).0 (rw (left, right) at h);
    }
  ]
]

module _ (host : Host) where
  -- A response that is good, and comes from the address where it gives one.
  pub record IsFrom (url : Value) (r : Response) : Type 0 where
    pub good : r.is_ok ≡ true
    pub direct : r.redirected ≡ false
    pub from : (truthy r.url ≡ false) ⊎ SameAddress host r.url url

  response_ok-IsFrom : (r : Response) (url : Value) → response_ok host r url ≡ true → IsFrom url r
  unfolding response_ok
  response_ok-IsFrom r url h = record {
    good = ground arith;
    direct = ground arith;
    from = elim (Bool-cases (truthy r.url)) [
      | inr silent ↦ inl silent
      | inl told ↦ inr (same_href-SameAddress host r.url url (ground arith))
    ];
  }

  read_exact_body-Holds :
      (size : ℕ) (body : Body) (bytes : List ℕ)
      → read_exact_body host size body ≡ ok bytes
      → (length bytes ≡ size) × Holds body bytes
  unfolding read_exact_body
  read_exact_body-Holds size (whole b) bytes h = (ground arith, ground arith)
  read_exact_body-Holds size (stream chunks) bytes h =
      let complaints : Complaints = record {
        too_large = compiler_failure "input_size_mismatch";
        not_bytes = compiler_failure "input_download_failed";
      } in
      elim (Result-cases (read_stream (min size max_bundle_archive_bytes) complaints chunks)) [
        | inr (e, failed) ↦ ground arith
        | inl (read, found) ↦
            let same : read ≡ bytes = ground arith in
            (
              ground arith,
              subst (λ b. Holds (stream chunks) b) same
                  (carried (min size max_bundle_archive_bytes) complaints chunks read found),
            )
      ]

  abbrev pub IsExpected : Value → List ℕ → Type 0
  IsExpected expected bytes =
      (get expected "sizeBytes" ≡ int (length bytes))
      × (get expected "sha256" ≡ str (host.sha256 bytes))
      × (length bytes ≤ max_bundle_archive_bytes)

  accept_sized-IsExpected :
      (expected : Value) (body : Body) (declared : Value) (bytes : List ℕ)
      → accept_sized host expected body declared ≡ ok bytes
      → IsExpected expected bytes
  unfolding accept_sized
  accept_sized-IsExpected expected body (num (pos size)) bytes h =
      elim (Result-cases (read_exact_body host size body)) [
        | inr (e, failed) ↦ ground arith
        | inl (read, found) ↦
            let same : read ≡ bytes = ground arith in
            let long = (read_exact_body-Holds size body read found).0 in
            let this : size ≡ length bytes = sym long ∙ ap (λ b. length b) same in
            let digest : strict_eq (str (host.sha256 read)) (get expected "sha256") ≡ true =
              ground arith in
            (
              strict_eq-int size (get expected "sizeBytes") (ground arith) ∙ ap (λ n. int n) this,
              strict_eq-str (host.sha256 read) (get expected "sha256") digest
                  ∙ ap (λ b. str (host.sha256 b)) same,
              ground arith,
            )
      ]
  accept_sized-IsExpected expected body _ bytes h = cc

  accept_sized-Holds :
      (expected : Value) (body : Body) (declared : Value) (bytes : List ℕ)
      → accept_sized host expected body declared ≡ ok bytes
      → Holds body bytes
  unfolding accept_sized
  accept_sized-Holds expected body (num (pos size)) bytes h =
      elim (Result-cases (read_exact_body host size body)) [
        | inr (e, failed) ↦ ground arith
        | inl (read, found) ↦
            let same : read ≡ bytes = ground arith in
            subst (λ b. Holds body b) same (read_exact_body-Holds size body read found).1
      ]
  accept_sized-Holds expected body _ bytes h = cc

  -- A download that is accepted is the body of a response that is good, was not redirected and, where
  -- it gives an address, gives that of the grant. It has the size and the digest that the frozen
  -- manifest gives for the archive, within the limit on archives.
  pub accept_download-IsExpected :
      (url expected : Value) (r : Response) (bytes : List ℕ)
      → accept_download host url expected r ≡ ok bytes
      → IsFrom url r × Holds r.body bytes × IsExpected expected bytes
  unfolding accept_download
  accept_download-IsExpected url expected r bytes h =
      let sized : accept_sized host expected r.body r.declared ≡ ok bytes = ground arith in
      (
        response_ok-IsFrom r url (ground arith),
        accept_sized-Holds expected r.body r.declared bytes sized,
        accept_sized-IsExpected expected r.body r.declared bytes sized,
      )

  -- A stored object as the content that was prepared.
  pub record IsStored (content : Value) (body : Body) : Type 0 where
    pub bytes : List ℕ
    pub held : Holds body bytes
    pub size : get content "compressedSize" ≡ int (length bytes)
    pub digest : get content "sha256" ≡ str (host.sha256 bytes)

  pub record Hashed (size : ℕ) (body : Body) (digest : String) : Type 0 where
    pub bytes : List ℕ
    pub held : Holds body bytes
    pub long : length bytes ≡ size
    pub hashed : host.sha256 bytes ≡ digest

  hash_exact_body-Hashed :
      (size : ℕ) (body : Body) (digest : String)
      → hash_exact_body host size body ≡ ok digest
      → Hashed size body digest
  unfolding hash_exact_body
  hash_exact_body-Hashed size (whole b) digest h = record {
    bytes = b;
    held = refl;
    long = ground arith;
    hashed = ground arith;
  }
  hash_exact_body-Hashed size (stream chunks) digest h =
      let complaints : Complaints = record {
        too_large = compiler_failure "content_reconciliation_failed";
        not_bytes = compiler_failure "content_reconciliation_failed";
      } in
      elim (Result-cases (read_stream size complaints chunks)) [
        | inr (e, failed) ↦ ground arith
        | inl (read, found) ↦ record {
          bytes = read;
          held = carried size complaints chunks read found;
          long = ground arith;
          hashed = ground arith;
        }
      ]

  accept_stored-IsStored :
      (content : Value) (body : Body) (declared : Value)
      → accept_stored host content body declared ≡ ok tt
      → IsStored content body
  unfolding accept_stored
  accept_stored-IsStored content body (num (pos size)) h =
      elim (Result-cases (hash_exact_body host size body)) [
        | inr (e, failed) ↦ ground arith
        | inl (digest, found) ↦
            let hashed = hash_exact_body-Hashed size body digest found in
            let agrees : strict_eq (str digest) (get content "sha256") ≡ true = ground arith in
            record {
              bytes = hashed.bytes;
              held = hashed.held;
              size =
                  strict_eq-int size (get content "compressedSize") (ground arith)
                  ∙ ap (λ n. int n) (sym hashed.long);
              digest =
                  strict_eq-str digest (get content "sha256") agrees
                  ∙ ap (λ d. str d) (sym hashed.hashed);
            }
      ]
  accept_stored-IsStored content body _ h = cc

  -- A reconciliation succeeds only if what the store holds under the address has the size and the
  -- digest of the content that was prepared.
  pub accept_reconciliation-IsStored :
      (url content : Value) (r : Response)
      → accept_reconciliation host url content r ≡ ok tt
      → (response_ok host r url ≡ true) × IsStored content r.body
  unfolding accept_reconciliation
  accept_reconciliation-IsStored url content r h =
      (ground arith, accept_stored-IsStored content r.body r.declared (ground arith))
