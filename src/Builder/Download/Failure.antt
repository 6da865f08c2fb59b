-- ===== src/Builder/Download/Failure.antt =====
-- A download fails only with a `CompilerFailure`, whatever the network and the cache do.
use xmcl_shared_node_agent.Base.{
  ℕ, length, String, Bool, true, false, ◌&&◌, List, Option, none, some,
}
use xmcl_shared_node_agent.Js.Value.{Value, int, str, get, elements, strict_eq}
use xmcl_shared_node_agent.Js.Host.{Host, Url}
use xmcl_shared_node_agent.Js.Fault.{
  Fault, compiler_failure, world_seed_failure, identity_error, coded_error, catalog_failure,
  http_error, plain_error, type_error, Result, ok, err, ensure, of_option, ◌>>=◌, ◌>>◌,
}
use xmcl_shared_node_agent.Builder.Tar.{Texts}
use xmcl_shared_node_agent.Builder.Download.{
  Answer, late, gives, Cached, absent, octets, alien, Downloader, Codes, artifact_codes, as_failure,
  as_failures, approved_url, artifact_fields_ok, validate_approved_artifact, settle_answer,
  accept_response, from_cache, ask_cache, fetch_artifact, download, download_url,
}

abbrev pub IsFailure : Fault → Type 0
IsFailure (compiler_failure code) = Unit {0}
IsFailure _ = ⊥

-- A result that is a value, or a `CompilerFailure`.
abbrev pub Fails {ℓ} : {A : Type ℓ} → Result A → Type 0
Fails (ok a) = Unit {0}
Fails (err e) = IsFailure e

Fails-bind {ℓ κ} :
    {A : Type ℓ} {B : Type κ} (m : Result A) (f : A → Result B)
    → Fails m
    → ((a : A) → Fails (f a))
    → Fails (m >>= f)
Fails-bind (ok a) f h k = k a
Fails-bind (err e) f h k = h

Fails-then {ℓ} :
    {B : Type ℓ} (m : Result (Unit {0})) (k : Result B) → Fails m → Fails k → Fails (m >> k)
Fails-then (ok tt) k h after = after
Fails-then (err e) k h after = h

Fails-ensure : (test : Bool) (e : Fault) → IsFailure e → Fails (ensure test e)
Fails-ensure true e h = tt
Fails-ensure false e h = h

Fails-of_option {ℓ} : {A : Type ℓ} (o : Option A) (e : Fault) → IsFailure e → Fails (of_option o e)
Fails-of_option none e h = h
Fails-of_option (some a) e h = tt

as_failure-IsFailure : (failed e : Fault) → IsFailure failed → IsFailure (as_failure failed e)
as_failure-IsFailure failed (compiler_failure code) h = tt
as_failure-IsFailure failed (world_seed_failure c) h = h
as_failure-IsFailure failed (identity_error c) h = h
as_failure-IsFailure failed (coded_error c) h = h
as_failure-IsFailure failed (catalog_failure c) h = h
as_failure-IsFailure failed (http_error s c) h = h
as_failure-IsFailure failed plain_error h = h
as_failure-IsFailure failed type_error h = h

module _ (host : Host) (texts : Texts) where
  Fails-as_failures :
      (codes : Codes) (r : Result (List ℕ))
      → IsFailure codes.failed
      → Fails (as_failures host texts codes r)
  Fails-as_failures codes (ok bytes) h = tt
  Fails-as_failures codes (err e) h = as_failure-IsFailure codes.failed e h

  Fails-settle_answer :
      (codes : Codes) (maximum : ℕ) (expected : Value) (href : String) (answer : Answer)
      → IsFailure codes.failed
      → IsFailure codes.timeout
      → Fails (settle_answer host texts codes maximum expected href answer)
  unfolding settle_answer
  Fails-settle_answer codes maximum expected href late failed timeout = timeout
  Fails-settle_answer codes maximum expected href (gives (err e)) failed timeout =
      as_failure-IsFailure codes.failed e failed
  Fails-settle_answer codes maximum expected href (gives (ok r)) failed timeout =
      Fails-as_failures codes (accept_response host texts codes maximum expected href r) failed

  Fails-approved_url :
      (hosts : List Value) (url : Option Url) → Fails (approved_url host texts hosts url)
  Fails-approved_url hosts none = tt
  Fails-approved_url hosts (some url) =
      Fails-ensure _ (compiler_failure "artifact_host_rejected") tt

  Fails-validate :
      (maximum : ℕ) (artifact hosts : Value)
      → Fails (validate_approved_artifact host texts maximum artifact hosts)
  unfolding validate_approved_artifact
  Fails-validate maximum artifact hosts =
      Fails-then
        (ensure (artifact_fields_ok maximum artifact hosts)
          (compiler_failure "artifact_not_approved"))
        (approved_url host texts (elements hosts) (host.parse_url (get artifact "url")))
        (Fails-ensure (artifact_fields_ok maximum artifact hosts)
          (compiler_failure "artifact_not_approved") tt)
        (Fails-approved_url (elements hosts) (host.parse_url (get artifact "url")))

  Fails-from_cache :
      (artifact : Value) (cached : Result Cached) → Fails (from_cache host texts artifact cached)
  unfolding from_cache
  Fails-from_cache artifact (err e) = tt
  Fails-from_cache artifact (ok absent) = tt
  Fails-from_cache artifact (ok alien) = tt
  Fails-from_cache artifact (ok (octets bytes)) =
      Fails-then
        (ensure
          (strict_eq (int (length bytes)) (get artifact "sizeBytes")
            && strict_eq (str (host.sha256 bytes)) (get artifact "sha256"))
          (compiler_failure "artifact_cache_mismatch"))
        (ok (some bytes)) (Fails-ensure _ (compiler_failure "artifact_cache_mismatch") tt) tt

  Fails-ask_cache :
      (cache : Option (Value → Result Cached)) (artifact : Value)
      → Fails (ask_cache host texts cache artifact)
  Fails-ask_cache none artifact = tt
  Fails-ask_cache (some read) artifact = Fails-from_cache artifact (read artifact)

  Fails-fetch_artifact :
      (d : Downloader) (artifact : Value) → Fails (fetch_artifact host texts d artifact)
  unfolding fetch_artifact
  Fails-fetch_artifact d artifact =
      Fails-bind
        (of_option (host.parse_url (get artifact "url")) (compiler_failure "artifact_not_approved"))
        _
        (Fails-of_option (host.parse_url (get artifact "url"))
          (compiler_failure "artifact_not_approved") tt)
        (λ url.
          Fails-settle_answer artifact_codes d.max_bytes artifact (download_url host texts url)
            (d.fetch (download_url host texts url)) tt tt)

  -- Whatever the cache and the network answer, or throw, a download gives bytes or throws a
  -- `CompilerFailure`.
  pub download-Fails :
      (d : Downloader) (artifact hosts : Value) → Fails (download host texts d artifact hosts)
  unfolding download
  download-Fails d artifact hosts =
      Fails-then (validate_approved_artifact host texts d.max_bytes artifact hosts) _
        (Fails-validate d.max_bytes artifact hosts)
        (Fails-bind (ask_cache host texts d.cache artifact) _ (Fails-ask_cache d.cache artifact)
          λ cached.
            elim cached
              as (λ c.
                Fails (elim c [
                  | some bytes ↦ ok bytes
                  | none ↦ fetch_artifact host texts d artifact
                ])) [ some bytes ↦ tt | none ↦ Fails-fetch_artifact d artifact ])
