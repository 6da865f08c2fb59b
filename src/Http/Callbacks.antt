-- ===== src/Http/Callbacks.antt =====
-- `AuthenticatedDeploymentCallbacks`: the signed requests that the calls of a job are made of, and the
-- bounded reading of their answers.
use Prim.Native.String.{◌++◌ as append_text}
use xmcl_shared_node_agent.Base.{
  ℕ, ◌*◌, String, Bool, true, false, not, ◌&&◌, List, [], ◌∷◌, Option, none, some, leb, ◌==◌,
  length, any, str_eq, if◌then◌else◌,
}
use xmcl_shared_node_agent.Js.Text.{units, segment, valid_id, starts_units}
use xmcl_shared_node_agent.Js.Value.{
  Value, int, obj, end, field, get, plain_object, strict_eq, string_that, truthy,
}
use xmcl_shared_node_agent.Js.Host.{Host, Url}
use xmcl_shared_node_agent.Js.Stream.{Chunk, read_stream}
use xmcl_shared_node_agent.Js.Fault.{
  Fault, compiler_failure, Result, ok, err, ensure, of_option, rethrow, ◌>>=◌, ◌>>◌,
}
use xmcl_shared_node_agent.Compiler.Job.{text}
use xmcl_shared_node_agent.Compiler.Grants.{verify_grant_set}
use xmcl_shared_node_agent.Compiler.Exec.{Log}
use xmcl_shared_node_agent.Bundle.Path.{small}
use xmcl_shared_node_agent.Builder.Download.{declared_length}
use xmcl_shared_node_agent.Http.Consume.{max_request_bytes}

abbrev pub max_callback_bytes : ℕ
max_callback_bytes = 4 * 1024 * 1024

abbrev pub undelivered : Fault
undelivered = compiler_failure "callback_delivery_failed"

-- A response of the control plane; a header that is not there, and a body with no reader, are `none`.
pub record CallbackResponse : Type 0 where
  pub is_ok : Bool
  pub redirected : Bool
  pub url : Value
  pub status : Value
  pub content_type : Option String
  pub content_length : Option String
  pub body : Option (List Chunk)

-- How a request ends: not before its time is over, with a rejection, or with an answer, if any.
pub data CallbackAnswer : Type 0 where
  late : CallbackAnswer
  gives : Result (Option CallbackResponse) → CallbackAnswer

-- The origin, the signature of a request, and its answer, by the calls of the job before it.
pub record Callbacks : Type 0 where
  pub origin : String
  pub sign : Log → String → List ℕ → Result (Unit {0})
  pub fetch : Log → String → List ℕ → CallbackAnswer

-- A failure that is no `CompilerFailure` is one of delivery.
abbrev pub delivery : {A : Type 0} → Result A → Result A
delivery (ok a) = ok a
delivery (err (compiler_failure code)) = err (compiler_failure code)
delivery (err _) = err undelivered

-- `value.toLowerCase().startsWith("application/json")`
abbrev pub is_json : Option String → Bool
is_json none = false
is_json (some s) = starts_units (small (units s)) (units "application/json")

-- `postedKind` with its deployment.
abbrev pub suffix_known : String → Bool
suffix_known kind = any (str_eq kind) ("grants" ∷ "upload-prepared" ∷ "published" ∷ "failed" ∷ [])

abbrev pub target_of : String → Value → String
target_of kind deployment =
    append_text "/v1/internal/shared-runtime-compiler/deployments/"
      (append_text (text deployment) (append_text "/" kind))

-- The length that a response declares, against what was read.
abbrev pub length_agrees : Option String → ℕ → Bool
length_agrees none total = true
length_agrees (some s) total = elim (declared_length (some s)) [
  | none ↦ false
  | some n ↦ n == total
]

abbrev pub length_allowed : Option String → ℕ → Bool
length_allowed none maximum = true
length_allowed (some s) maximum = elim (declared_length (some s)) [
  | none ↦ false
  | some n ↦ leb n maximum
]

-- `readBoundedResponse`; whatever goes wrong in a read has the same code.
unfoldable pub read_bounded_response : CallbackResponse → ℕ → Fault → Result (List ℕ)
unfolding declared_length
read_bounded_response r maximum failure = do
  ensure (length_allowed r.content_length maximum) failure
  chunks ← of_option r.body failure
  bytes ←
      rethrow (read_stream maximum (record { too_large = failure; not_bytes = failure }) chunks)
        failure
  ensure (length_agrees r.content_length (length bytes)) failure
  ok bytes

abbrev pub invalid_grants : Fault
invalid_grants = compiler_failure "invalid_grants"

module _ (host : Host) (job : Value) where
  abbrev pub from_address : Option Url → String → Result Bool
  from_address none url = err undelivered
  from_address (some u) url = ok (str_eq u.href url)

  abbrev pub address_good : Value → String → Result Bool
  address_good v url = if truthy v then from_address (host.parse_url v) url else ok true

  abbrev pub accept_callback : Option CallbackResponse → String → Result CallbackResponse
  accept_callback none url = err undelivered
  accept_callback (some r) url = do
    ensure (r.is_ok && not r.redirected) undelivered
    same ← address_good r.url url
    ensure same undelivered
    ok r

  unfoldable pub settle_callback : CallbackAnswer → String → Result CallbackResponse
  settle_callback late url = err undelivered
  settle_callback (gives (err e)) url = delivery (err e)
  settle_callback (gives (ok r)) url = delivery (accept_callback r url)

  -- `post`; the identifier of a deployment needs no encoding in an address.
  unfoldable pub post : Callbacks → Log → String → Value → Value → Result CallbackResponse
  unfolding settle_callback
  post callbacks log kind deployment payload = do
    ensure (suffix_known kind && string_that (segment 254) deployment) undelivered
    let url = append_text callbacks.origin (target_of kind deployment)
    let body = host.print_json payload
    ensure (leb (length body) max_callback_bytes) (compiler_failure "callback_payload_too_large")
    callbacks.sign log (target_of kind deployment) body
    settle_callback (callbacks.fetch log url body) url

  abbrev pub grants_payload : Value
  grants_payload = obj (
      field "schemaVersion" (int 1) (
        field "compilerRequestId" (get job "compilerRequestId")
          (field "deploymentId" (get job "deploymentId") end)))

  -- `parseGrantResponse`
  unfoldable pub parse_grant_response : CallbackResponse → Result Value
  unfolding read_bounded_response
  parse_grant_response r = do
    bytes ← read_bounded_response r max_request_bytes invalid_grants
    grants ← of_option (host.parse_json bytes) invalid_grants
    pair ← rethrow (verify_grant_set host grants job none) invalid_grants
    ok grants

  -- `grants`
  unfoldable pub callback_grants : Callbacks → Log → Result Value
  unfolding post parse_grant_response
  callback_grants callbacks log = do
    ensure
        (plain_object job
          && string_that (segment 254) (get job "deploymentId")
          && string_that valid_id (get job "compilerRequestId"))
        invalid_grants
    r ← post callbacks log "grants" (get job "deploymentId") grants_payload
    ensure (strict_eq r.status (int 200) && is_json r.content_type) invalid_grants
    parse_grant_response r
