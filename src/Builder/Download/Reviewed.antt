-- ===== src/Builder/Download/Reviewed.antt =====
-- What a download that succeeds says of the bytes, and how one fails.
use xmcl_shared_node_agent.Base.{
  ℕ, String, ◌≡◌, sym, ◌∙◌, ap, inl, inr, true, ◌&&◌, List, Option, none, some, arith, length, leb,
  and-left, and-right, Option-cases,
}
use xmcl_shared_node_agent.Js.Value.{Value, str, int, get, elements, strict_eq, max_safe}
use xmcl_shared_node_agent.Js.Value.Equal.{strict_eq-str, strict_eq-int}
use xmcl_shared_node_agent.Js.Host.{Host, Url}
use xmcl_shared_node_agent.Js.Fault.{
  compiler_failure, Result, ok, err, of_option, Result-cases, bind_parts, ensure_parts, then_parts,
  ensure-true,
}
use xmcl_shared_node_agent.Compiler.Job.{text}
use xmcl_shared_node_agent.Builder.Tar.{Texts}
use xmcl_shared_node_agent.Builder.Remote.{validate_remote_mod}
use xmcl_shared_node_agent.Builder.Download.{
  Body, stream, whole, nothing, Response, Answer, late, gives, Cached, absent, octets, alien,
  Downloader, Codes, artifact_codes, remote_codes, declared_length, read_exact_response, approved,
  approved_url, artifact_fields_ok, validate_approved_artifact, download_url, read_reviewed,
  accept_response, settle_answer, from_cache, ask_cache, fetch_artifact, download,
  download_remote_mod, response_good, check_address, plain_encoding,
}

module _ (host : Host) (texts : Texts) where
  -- The bytes have the size and the digest of what was asked for.
  abbrev pub HasContent : Value → List ℕ → Type 0
  HasContent expected bytes =
      (get expected "sizeBytes" ≡ int (length bytes))
      × (get expected "sha256" ≡ str (host.sha256 bytes))

  length-read_exact_response :
      (size maximum : ℕ) (body : Body) (bytes : List ℕ)
      → read_exact_response size maximum body ≡ ok bytes
      → length bytes ≡ size
  unfolding read_exact_response
  length-read_exact_response size maximum nothing bytes h = cc
  length-read_exact_response size maximum (whole b) bytes h = ground arith
  length-read_exact_response size maximum (stream chunks) bytes h = ground arith

  read_reviewed-HasContent :
      (codes : Codes) (maximum : ℕ) (expected : Value) (r : Response) (bytes : List ℕ)
      → read_reviewed host texts codes maximum expected r ≡ ok bytes
      → HasContent expected bytes
  unfolding read_reviewed
  read_reviewed-HasContent codes maximum expected r bytes h =
      let (size, found, h1) =
        bind_parts (of_option (declared_length r.declared) codes.size) _ bytes h in
      let (fits, h2) =
        ensure_parts
          (leb size max_safe && strict_eq (int size) (get expected "sizeBytes") && leb size maximum)
          codes.size _ bytes h1 in
      let (read, whole_body, h3) =
        bind_parts (read_exact_response size maximum r.body) _ bytes h2 in
      let (digest, same) =
        ensure_parts (strict_eq (str (host.sha256 read)) (get expected "sha256")) codes.hash _ bytes
          h3 in
      let this : read ≡ bytes = ground arith in
      let sized = and-right _ _ (and-left _ _ fits) in
      (
        strict_eq-int size (get expected "sizeBytes") sized
            ∙ ap (λ n. int n)
                (sym (length-read_exact_response size maximum r.body read whole_body)
                  ∙ ap (λ b. length b) this),
        strict_eq-str (host.sha256 read) (get expected "sha256") digest
            ∙ ap (λ b. str (host.sha256 b)) this,
      )

  accept_response-HasContent :
      (codes : Codes) (maximum : ℕ) (expected : Value) (href : String) (r : Option Response)
      (bytes : List ℕ)
      → accept_response host texts codes maximum expected href r ≡ ok bytes
      → HasContent expected bytes
  unfolding accept_response
  accept_response-HasContent codes maximum expected href none bytes h = cc
  accept_response-HasContent codes maximum expected href (some r) bytes h =
      let (good, h1) = ensure_parts (response_good host texts r) codes.failed _ bytes h in
      let (named, h2) = then_parts (check_address host texts codes r.url href) _ bytes h1 in
      let (plain, h3) =
        ensure_parts (plain_encoding host texts r.encoding) codes.failed _ bytes h2 in
      read_reviewed-HasContent codes maximum expected r bytes h3

  settle_answer-HasContent :
      (codes : Codes) (maximum : ℕ) (expected : Value) (href : String) (answer : Answer)
      (bytes : List ℕ)
      → settle_answer host texts codes maximum expected href answer ≡ ok bytes
      → HasContent expected bytes
  unfolding settle_answer
  settle_answer-HasContent codes maximum expected href late bytes h = cc
  settle_answer-HasContent codes maximum expected href (gives (err e)) bytes h = cc
  settle_answer-HasContent codes maximum expected href (gives (ok r)) bytes h =
      elim (Result-cases (accept_response host texts codes maximum expected href r)) [
        | inl (read, found) ↦
            accept_response-HasContent codes maximum expected href r bytes (ground arith)
        | inr (e, failed) ↦ ground arith
      ]

  -- A request that the downloader makes is for a reviewed artifact on an approved host.
  abbrev pub IsApproved : Value → Value → Type 0
  IsApproved artifact hosts =
      (url : Url) × (host.parse_url (get artifact "url") ≡ some url)
      × (approved host texts (elements hosts) url ≡ true)

  validate_approved_artifact-IsApproved :
      (maximum : ℕ) (artifact hosts : Value)
      → validate_approved_artifact host texts maximum artifact hosts ≡ ok tt
      → IsApproved artifact hosts
  unfolding validate_approved_artifact
  validate_approved_artifact-IsApproved maximum artifact hosts h =
      let (fields, checked) =
        ensure_parts (artifact_fields_ok maximum artifact hosts)
          (compiler_failure "artifact_not_approved")
          (approved_url host texts (elements hosts) (host.parse_url (get artifact "url"))) tt h in
      elim (Option-cases (host.parse_url (get artifact "url"))) [
        | inl missing ↦ ground arith
        | inr (url, found) ↦
            let good : approved_url host texts (elements hosts) (some url) ≡ ok tt =
              rw found at checked in
            (url, found, ensure-true (approved host texts (elements hosts) url) _ good)
      ]

  from_cache-HasContent :
      (artifact : Value) (cached : Result Cached) (bytes : List ℕ)
      → from_cache host texts artifact cached ≡ ok (some bytes)
      → HasContent artifact bytes
  unfolding from_cache
  from_cache-HasContent artifact (err e) bytes h = cc
  from_cache-HasContent artifact (ok absent) bytes h = cc
  from_cache-HasContent artifact (ok alien) bytes h = cc
  from_cache-HasContent artifact (ok (octets read)) bytes h =
      let (fits, same) =
        ensure_parts
          (strict_eq (int (length read)) (get artifact "sizeBytes")
            && strict_eq (str (host.sha256 read)) (get artifact "sha256"))
          _ _ (some bytes) h in
      let this : read ≡ bytes = ground arith in
      (
        strict_eq-int (length read) (get artifact "sizeBytes") (and-left _ _ fits)
            ∙ ap (λ b. int (length b)) this,
        strict_eq-str (host.sha256 read) (get artifact "sha256") (and-right _ _ fits)
            ∙ ap (λ b. str (host.sha256 b)) this,
      )

  ask_cache-HasContent :
      (cache : Option (Value → Result Cached)) (artifact : Value) (bytes : List ℕ)
      → ask_cache host texts cache artifact ≡ ok (some bytes)
      → HasContent artifact bytes
  ask_cache-HasContent none artifact bytes h = cc
  ask_cache-HasContent (some read) artifact bytes h =
      from_cache-HasContent artifact (read artifact) bytes h

  fetch_artifact-HasContent :
      (d : Downloader) (artifact : Value) (bytes : List ℕ)
      → fetch_artifact host texts d artifact ≡ ok bytes
      → HasContent artifact bytes
  unfolding fetch_artifact
  fetch_artifact-HasContent d artifact bytes h =
      let (url, found, settled) =
        bind_parts
          (of_option (host.parse_url (get artifact "url"))
            (compiler_failure "artifact_not_approved"))
          _ bytes h in
      settle_answer-HasContent artifact_codes d.max_bytes artifact (download_url host texts url)
        (d.fetch (download_url host texts url)) bytes settled

  -- The bytes of an artifact, from the cache or from the network, have the size and the digest that the
  -- catalog gives, and its address is on one of the approved hosts.
  pub download-HasContent :
      (d : Downloader) (artifact hosts : Value) (bytes : List ℕ)
      → download host texts d artifact hosts ≡ ok bytes
      → HasContent artifact bytes × IsApproved artifact hosts
  unfolding download
  download-HasContent d artifact hosts bytes h =
      let (approved_first, h1) =
        then_parts (validate_approved_artifact host texts d.max_bytes artifact hosts) _ bytes h in
      let (cached, found, h2) = bind_parts (ask_cache host texts d.cache artifact) _ bytes h1 in
      let content : HasContent artifact bytes = elim (Option-cases cached) [
        | inl missing ↦ fetch_artifact-HasContent d artifact bytes (rw missing at h2)
        | inr (read, there) ↦
            let same : read ≡ bytes = ground arith in
            ask_cache-HasContent d.cache artifact bytes (found ∙ ap ok (there ∙ ap some same))
      ] in
      (content, validate_approved_artifact-IsApproved d.max_bytes artifact hosts approved_first)

  -- The bytes of a mod have the size and the digest that the manifest gives, and its address is one
  -- of its provider.
  pub download_remote_mod-HasContent :
      (d : Downloader) (v : Value) (bytes : List ℕ)
      → download_remote_mod host texts d v ≡ ok bytes
      → HasContent v bytes × (validate_remote_mod host texts d.max_bytes v ≡ ok tt)
  unfolding download_remote_mod
  download_remote_mod-HasContent d v bytes h =
      let (valid, h1) = then_parts (validate_remote_mod host texts d.max_bytes v) _ bytes h in
      let (url, found, settled) =
        bind_parts
          (of_option (host.parse_url (get v "downloadUrl"))
            (compiler_failure "remote_mod_host_rejected"))
          _ bytes h1 in
      (
        settle_answer-HasContent remote_codes d.max_bytes v url.href
            (d.fetch (text (get v "downloadUrl"))) bytes settled,
        valid,
      )
