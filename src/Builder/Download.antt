-- ===== src/Builder/Download.antt =====
-- `StrictArtifactDownloader`: the bytes of a reviewed artifact, or of a mod.
pub mod Reviewed
pub mod Failure
use Prim.Native.String.{◌++◌ as append_text}
use xmcl_shared_node_agent.Base.{
  ℕ, ◌+◌, ◌-◌, ◌*◌, min, String, Bool, true, false, not, ◌&&◌, ◌||◌, List, [], ◌∷◌, Option, none,
  some, leb, ltb, ◌==◌, length, all, any, str_eq, if◌then◌else◌,
}
use xmcl_shared_node_agent.Js.Text.{units, is_digit, nonempty, starts_with}
use xmcl_shared_node_agent.Js.Value.{
  Value, str, int, get, elements, plain_object, is_array, is_string, string_that, strict_eq, truthy,
  max_safe,
}
use xmcl_shared_node_agent.Js.Host.{Host, Url}
use xmcl_shared_node_agent.Js.Stream.{Chunk, Complaints, read_stream}
use xmcl_shared_node_agent.Js.Fault.{
  Fault, compiler_failure, Result, ok, err, ensure, of_option, ◌>>=◌, ◌>>◌,
}
use xmcl_shared_node_agent.Compiler.Job.{text, sha_text, in_range}
use xmcl_shared_node_agent.Builder.Path.{valid_coordinate}
use xmcl_shared_node_agent.Builder.Tar.{Texts}
use xmcl_shared_node_agent.Builder.Remote.{plain_https, validate_remote_mod}

-- A body with a reader, one that is asked for whole, or neither.
pub data Body : Type 0 where
  stream : List Chunk → Body
  whole : List ℕ → Body
  nothing : Body

-- What `fetch` gives; a header that is not there is `none`.
pub record Response : Type 0 where
  pub status : Value
  pub redirected : Value
  pub url : Value
  pub encoding : Option String
  pub declared : Option String
  pub body : Body

-- How a request to an address ends: not before its time is over, or with a rejection, or with an
-- answer, which may be no object.
pub data Answer : Type 0 where
  late : Answer
  gives : Result (Option Response) → Answer

-- What the cache has for an artifact: nothing, bytes, or something else.
pub data Cached : Type 0 where
  absent : Cached
  octets : List ℕ → Cached
  alien : Cached

-- The downloader, with its cache if it has one.
pub record Downloader : Type 0 where
  pub max_bytes : ℕ
  pub cache : Option (Value → Result Cached)
  pub fetch : String → Answer

-- The codes of the failures of a download.
pub record Codes : Type 0 where
  pub failed : Fault
  pub redirect : Fault
  pub size : Fault
  pub hash : Fault
  pub timeout : Fault

abbrev pub artifact_codes : Codes
artifact_codes = record {
  failed = compiler_failure "artifact_download_failed";
  redirect = compiler_failure "artifact_redirect_rejected";
  size = compiler_failure "artifact_size_mismatch";
  hash = compiler_failure "artifact_hash_mismatch";
  timeout = compiler_failure "artifact_download_timeout";
}

abbrev pub remote_codes : Codes
remote_codes = record {
  failed = compiler_failure "remote_mod_download_failed";
  redirect = compiler_failure "remote_mod_redirect_rejected";
  size = compiler_failure "remote_mod_size_mismatch";
  hash = compiler_failure "remote_mod_hash_mismatch";
  timeout = compiler_failure "remote_mod_download_timeout";
}

-- `error instanceof CompilerFailure ? error : new CompilerFailure(code)`
abbrev pub as_failure : Fault → Fault → Fault
as_failure failed (compiler_failure code) = compiler_failure code
as_failure failed _ = failed

-- The value of decimal digits.
abbrev pub decimal_from : ℕ → List ℕ → ℕ
decimal_from n [] = n
decimal_from n (c ∷ cs) = decimal_from (n * 10 + (c - b'0')) cs

-- `0|[1-9]\d*`
abbrev pub is_decimal : List ℕ → Bool
is_decimal [] = false
is_decimal (c ∷ cs) = all is_digit (c ∷ cs) && (not (c == b'0') || length cs == 0)

-- The declared length, where it is one.
unfoldable pub declared_length : Option String → Option ℕ
unfolding units
declared_length none = none
declared_length (some s) = if is_decimal (units s) then some (decimal_from 0 (units s)) else none

unfoldable pub read_exact_response : ℕ → ℕ → Body → Result (List ℕ)
read_exact_response expected maximum nothing = err (compiler_failure "artifact_download_failed")
read_exact_response expected maximum (whole bytes) =
    if length bytes == expected && leb (length bytes) maximum
    then ok bytes
    else err (compiler_failure "artifact_size_mismatch")
read_exact_response expected maximum (stream chunks) = do
  bytes ←
      read_stream (min expected maximum)
        (record {
          too_large = compiler_failure "artifact_size_mismatch";
          not_bytes = compiler_failure "artifact_download_failed";
        })
        chunks
  ensure (length bytes == expected) (compiler_failure "artifact_size_mismatch")
  ok bytes

abbrev pub href_of : Option Url → Option String
href_of none = none
href_of (some url) = some url.href

abbrev pub named_address : Codes → Option String → String → Result (Unit {0})
named_address codes none expected = err codes.failed
named_address codes (some href) expected = ensure (str_eq href expected) codes.redirect

unfoldable pub artifact_fields_ok : ℕ → Value → Value → Bool
unfolding valid_coordinate
artifact_fields_ok maximum artifact hosts =
    is_array hosts
    && leb maximum max_safe
    && leb 1 maximum
    && plain_object artifact
    && string_that valid_coordinate (get artifact "coordinate")
    && is_string (get artifact "url")
    && sha_text (get artifact "sha256")
    && in_range 1 maximum (get artifact "sizeBytes")

module _ (host : Host) (texts : Texts) where
  abbrev pub approved : List Value → Url → Bool
  approved hosts url =
      plain_https url
      && not (nonempty url.search)
      && any (λ name. strict_eq name (str (texts.lower url.hostname))) hosts

  abbrev pub approved_url : List Value → Option Url → Result (Unit {0})
  approved_url hosts none = err (compiler_failure "artifact_not_approved")
  approved_url hosts (some url) =
      ensure (approved hosts url) (compiler_failure "artifact_host_rejected")

  -- `validateApprovedArtifact`
  unfoldable pub validate_approved_artifact : ℕ → Value → Value → Result (Unit {0})
  unfolding artifact_fields_ok
  validate_approved_artifact maximum artifact hosts = do
    ensure (artifact_fields_ok maximum artifact hosts) (compiler_failure "artifact_not_approved")
    approved_url (elements hosts) (host.parse_url (get artifact "url"))

  -- `reviewedArtifactDownloadUrl`, of an address that is one
  unfoldable pub download_url : Url → String
  download_url url =
      if str_eq url.hostname "libraries.minecraft.net"
      then if starts_with url.pathname "/com/mojang/"
        then append_text "https://repo.spongepowered.org/repository/maven-public" url.pathname
        else append_text "https://repo1.maven.org/maven2" url.pathname
      else url.href

  abbrev pub response_good : Response → Bool
  response_good r = strict_eq r.status (int 200) && not (truthy r.redirected)

  abbrev pub plain_encoding : Option String → Bool
  plain_encoding none = true
  plain_encoding (some s) = not (nonempty s) || str_eq (texts.lower s) "identity"

  -- The address that a response names, against the one that was asked for.
  abbrev pub check_address : Codes → Value → String → Result (Unit {0})
  check_address codes url expected =
      if truthy url then named_address codes (href_of (host.parse_url url)) expected else ok tt

  -- The body of a response, with the size and the digest of what was asked for.
  unfoldable pub read_reviewed : Codes → ℕ → Value → Response → Result (List ℕ)
  unfolding declared_length read_exact_response
  read_reviewed codes maximum expected r = do
    size ← of_option (declared_length r.declared) codes.size
    ensure
        (leb size max_safe && strict_eq (int size) (get expected "sizeBytes") && leb size maximum)
        codes.size
    bytes ← read_exact_response size maximum r.body
    ensure (strict_eq (str (host.sha256 bytes)) (get expected "sha256")) codes.hash
    ok bytes

  -- The inner function `download` of both operations; `href` is the address that a response may name.
  unfoldable pub accept_response : Codes → ℕ → Value → String → Option Response → Result (List ℕ)
  unfolding read_reviewed
  accept_response codes maximum expected href none = err codes.failed
  accept_response codes maximum expected href (some r) = do
    ensure (response_good r) codes.failed
    check_address codes r.url href
    ensure (plain_encoding r.encoding) codes.failed
    read_reviewed codes maximum expected r

  abbrev pub as_failures : Codes → Result (List ℕ) → Result (List ℕ)
  as_failures codes (ok bytes) = ok bytes
  as_failures codes (err e) = err (as_failure codes.failed e)

  -- The race of a download with its timeout, and what is made of a failure.
  unfoldable pub settle_answer : Codes → ℕ → Value → String → Answer → Result (List ℕ)
  unfolding accept_response
  settle_answer codes maximum expected href late = err codes.timeout
  settle_answer codes maximum expected href (gives (err e)) = err (as_failure codes.failed e)
  settle_answer codes maximum expected href (gives (ok r)) =
      as_failures codes (accept_response codes maximum expected href r)

  -- The bytes of the cache, where it has some.
  unfoldable pub from_cache : Value → Result Cached → Result (Option (List ℕ))
  from_cache artifact (err e) = err (compiler_failure "artifact_cache_failed")
  from_cache artifact (ok absent) = ok none
  from_cache artifact (ok alien) = err (compiler_failure "artifact_cache_mismatch")
  from_cache artifact (ok (octets bytes)) = do
    ensure
        (strict_eq (int (length bytes)) (get artifact "sizeBytes")
          && strict_eq (str (host.sha256 bytes)) (get artifact "sha256"))
        (compiler_failure "artifact_cache_mismatch")
    ok (some bytes)

  abbrev pub ask_cache : Option (Value → Result Cached) → Value → Result (Option (List ℕ))
  ask_cache none artifact = ok none
  ask_cache (some read) artifact = from_cache artifact (read artifact)

  unfoldable pub fetch_artifact : Downloader → Value → Result (List ℕ)
  unfolding settle_answer download_url
  fetch_artifact d artifact = do
    url ← of_option (host.parse_url (get artifact "url")) (compiler_failure "artifact_not_approved")
    settle_answer artifact_codes d.max_bytes artifact (download_url url)
        (d.fetch (download_url url))

  -- `download`
  unfoldable pub download : Downloader → Value → Value → Result (List ℕ)
  unfolding validate_approved_artifact from_cache fetch_artifact
  download d artifact hosts = do
    validate_approved_artifact d.max_bytes artifact hosts
    cached ← ask_cache d.cache artifact
    elim cached [ some bytes ↦ ok bytes | none ↦ fetch_artifact d artifact ]

  -- `downloadRemoteMod`
  unfoldable pub download_remote_mod : Downloader → Value → Result (List ℕ)
  unfolding validate_remote_mod settle_answer
  download_remote_mod d v = do
    validate_remote_mod host texts d.max_bytes v
    url ←
        of_option (host.parse_url (get v "downloadUrl"))
          (compiler_failure "remote_mod_host_rejected")
    settle_answer remote_codes d.max_bytes v url.href (d.fetch (text (get v "downloadUrl")))
