-- ===== src/Http/Consume.antt =====
-- `consume` and `handleHttp` of `CompilerHttpWorker`, over the queue in memory.
pub mod Accepted
use xmcl_shared_node_agent.Base.{
  ℕ, ◌+◌, ◌*◌, String, Bool, true, false, not, ◌&&◌, ◌||◌, List, [], ◌∷◌, Option, none, some, leb,
  if◌then◌else◌, str_eq, length, drop, take, ◌==◌,
}
use xmcl_shared_node_agent.Base.Int.{ℤ, pos}
use xmcl_shared_node_agent.Js.Value.{Value, get}
use xmcl_shared_node_agent.Js.Host.{Host}
use xmcl_shared_node_agent.Js.Text.{units, is_digit, eq_units, starts_units}
use xmcl_shared_node_agent.Js.Stream.{Chunk, Complaints, read_stream}
use xmcl_shared_node_agent.Js.Fault.{Fault, http_error, coded_error, Result, ok, err}
use xmcl_shared_node_agent.Queue
use xmcl_shared_node_agent.Queue.{Input}
use xmcl_shared_node_agent.Queue.Memory.Defs
use xmcl_shared_node_agent.Queue.Memory.Defs.{MemoryQueue}
use xmcl_shared_node_agent.Compiler.Job.{text}
use xmcl_shared_node_agent.Http.Envelope.{parse_envelope}

abbrev pub max_request_bytes : ℕ
max_request_bytes = 256 * 1024

-- A request as node:http gives it; `target` is what `parseTarget` finds with `new URL`, and
-- `declared` the number of a well-formed content length (`some none` for a malformed one).
pub record HttpRequest : Type 0 where
  pub method : String
  pub target : Option String
  pub content_type : Option String
  pub declared : Option (Option ℕ)
  pub chunks : List Chunk

-- The worker as far as these functions see it: whether it is composed, the verifier of the caller,
-- which has the raw body, and the queue.
pub record Worker : Type 0 where
  pub ready : Bool
  pub verify : HttpRequest → List ℕ → Result (Unit {0})
  pub queue : MemoryQueue

pub record Reply : Type 0 where
  pub status : ℕ
  pub code : String

abbrev pub compiler_unavailable : Fault
compiler_unavailable = http_error 503 "compiler_unavailable"

-- The entry of the queue for an envelope.
unfoldable pub queue_input : Host → Value → List ℕ → Input
queue_input host envelope body = record {
  id = text (get envelope "requestId");
  deployment_id = text (get (get envelope "job") "deploymentId");
  job_fingerprint = host.sha256 (host.print_json (get envelope "job"));
  body = body;
}

-- What `consume` makes of the queue's failure.
abbrev pub conflict_to_http : Fault → Fault
conflict_to_http (coded_error code) =
    if str_eq code "idempotency_conflict"
    then http_error 409 "idempotency_conflict"
    else coded_error code
conflict_to_http e = e

abbrev pub enqueued : Value → Result Bool × MemoryQueue → Result Value × MemoryQueue
enqueued envelope (ok duplicate, q) = (ok (get (get envelope "job") "deploymentId"), q)
enqueued envelope (err e, q) = (err (conflict_to_http e), q)

-- `target === path`
abbrev pub is_target : Option String → String → Bool
is_target none path = false
is_target (some t) path = str_eq t path

-- `method !== "POST" || target !== "/v1/compiler-jobs"`, denied
abbrev pub is_delivery : HttpRequest → Bool
is_delivery r = str_eq r.method "POST" && is_target r.target "/v1/compiler-jobs"

module _ (host : Host) where
  -- `consume` past the verification of the caller
  unfoldable pub consume_envelope : ℕ → List ℕ → MemoryQueue → Result Value × MemoryQueue
  consume_envelope now body q = elim (parse_envelope host body (pos now)) [
    | err e ↦ (err e, q)
    | ok envelope ↦ enqueued envelope (Defs.enqueue now (queue_input host envelope body) q)
  ]

  -- `consume`; one reading of the clock serves the envelope and the queue.
  unfoldable pub consume : ℕ → HttpRequest → List ℕ → Worker → Result Value × MemoryQueue
  unfolding consume_envelope
  consume now r body w =
      if w.ready
      then if is_delivery r
        then elim (w.verify r body) [
          | err _ ↦ (err (http_error 401 "request_unauthorized"), w.queue)
          | ok _ ↦ consume_envelope now body w.queue
        ]
        else (err (http_error 400 "invalid_request"), w.queue)
      else (err compiler_unavailable, w.queue)

  -- `readRequestBody`
  unfoldable pub read_request_body : HttpRequest → Result (List ℕ)
  read_request_body r =
      let whole =
        read_stream max_request_bytes
          (record {
            too_large = http_error 413 "request_too_large";
            not_bytes = http_error 400 "invalid_request";
          })
          r.chunks in
      elim r.declared [
        | none ↦ whole
        | some none ↦ err (http_error 413 "request_too_large")
        | some (some n) ↦
            if leb n max_request_bytes then whole else err (http_error 413 "request_too_large")
      ]

  -- `normalizeHttpError`
  abbrev pub reply_of : Fault → Reply
  reply_of (http_error status code) = record { status = status; code = code }
  reply_of _ = record { status = 500; code = "compiler_failed" }

  abbrev pub replied : Result Value × MemoryQueue → Reply × MemoryQueue
  replied (ok deployment, q) = (record { status = 202; code = "accepted" }, q)
  replied (err e, q) = (reply_of e, q)

  -- The delivery of a job: `start`, the body, `consume`.
  unfoldable pub deliver : ℕ → HttpRequest → Worker → Reply × MemoryQueue
  unfolding consume read_request_body
  deliver now r w =
      if w.ready
      then elim (read_request_body r) [
        | err e ↦ (reply_of e, w.queue)
        | ok body ↦ replied (consume now r body w)
      ]
      else (reply_of compiler_unavailable, w.queue)

  abbrev pub lower : ℕ → ℕ
  lower c = if leb b'A' c && leb c b'Z' then c + 32 else c

  abbrev pub lower_all : List ℕ → List ℕ
  lower_all [] = []
  lower_all (c ∷ cs) = lower c ∷ lower_all cs

  -- `\s`, among the units of a header value, which are below 256
  abbrev pub is_space : ℕ → Bool
  is_space c = c == 32 || leb 9 c && leb c 13 || c == 0xa0

  abbrev pub skip_spaces : List ℕ → List ℕ
  skip_spaces [] = []
  skip_spaces (c ∷ cs) = if is_space c then skip_spaces cs else c ∷ cs

  abbrev pub is_charset : List ℕ → Bool
  is_charset [] = false
  is_charset (c ∷ cs) = c == b';' && eq_units (skip_spaces cs) (units "charset=utf-8")

  -- `isJsonContentType`
  unfoldable pub is_json_content_type : Option String → Bool
  unfolding units
  is_json_content_type none = false
  is_json_content_type (some s) =
      let cs = lower_all (units s) in
      let media = units "application/json" in
      starts_units cs media
      && (length cs == length media || is_charset (skip_spaces (drop (length media) cs)))

  abbrev pub answer : ℕ → String → Worker → Reply × MemoryQueue
  answer status code w = (record { status = status; code = code }, w.queue)

  -- `handleHttp`: the answer, and the queue after it.
  unfoldable pub handle_http : ℕ → HttpRequest → Worker → Reply × MemoryQueue
  unfolding deliver is_json_content_type
  handle_http now r w =
      if is_target r.target "/healthz" && str_eq r.method "GET"
      then answer 200 "ok" w
      else if is_target r.target "/readyz" && str_eq r.method "GET"
      then (if w.ready then answer 200 "ready" w else answer 503 "compiler_unavailable" w)
      else if not (is_target r.target "/v1/compiler-jobs")
      then answer 404 "not_found" w
      else if not (str_eq r.method "POST")
      then answer 405 "method_not_allowed" w
      else if not (is_json_content_type r.content_type)
      then answer 415 "content_type_required" w
      else deliver now r w
