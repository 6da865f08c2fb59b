-- ===== src/Http/Tests.antt =====
-- A delivery that is taken, and one that is refused.
use xmcl_shared_node_agent.Base.{ℕ, ◌≡◌, refl, true, List, [], ◌∷◌, some, none, if◌then◌else◌}
use xmcl_shared_node_agent.Base.Dict
use xmcl_shared_node_agent.Base.Int.{pos}
use xmcl_shared_node_agent.Js.Text
use xmcl_shared_node_agent.Js.Value
use xmcl_shared_node_agent.Js.Value.{Value, str, obj, field, end, int, get, strict_eq}
use xmcl_shared_node_agent.Js.Host.{Host}
use xmcl_shared_node_agent.Js.Fault.{ok, err, http_error, plain_error}
use xmcl_shared_node_agent.Queue
use xmcl_shared_node_agent.Queue.Memory.Defs
use xmcl_shared_node_agent.Queue.Memory.Defs.{MemoryQueue}
use xmcl_shared_node_agent.Queue.Memory.Valid.{
  Op, enqueue, claim, run, run_all, run_all-IsValid, IsValid, empty_queue, IsValid-empty,
}
use xmcl_shared_node_agent.Queue.Memory.Phase.{at_work, phase}
use xmcl_shared_node_agent.Compiler.Worker.Defs.{Checks}
use xmcl_shared_node_agent.Compiler.Job.{validate_compiler_job}
use xmcl_shared_node_agent.Compiler.Sample
use xmcl_shared_node_agent.Compiler.Sample.{print, job, grants, job_valid}
use xmcl_shared_node_agent.Http.Envelope.{
  parse_envelope, parse_queued_envelope, envelope_ok, valid_message_lifetime,
}
use xmcl_shared_node_agent.Http.Callbacks.{Callbacks, late}
use xmcl_shared_node_agent.Http.Control.{Outside}
use xmcl_shared_node_agent.Http.Process.{process_queued}
use xmcl_shared_node_agent.Http.Process.Settled.{attempt_phase, process_queued-phase}
use xmcl_shared_node_agent.Http.Consume.{
  HttpRequest, Worker, consume, consume_envelope, enqueued, queue_input,
}
use xmcl_shared_node_agent.Http.Consume.Accepted.{IsAccepted, consume-IsAccepted, consume-refused}

abbrev envelope : Value
envelope = obj (
    field "schemaVersion" (int 1) (
      field "requestId" (str "r1") (
        field "issuedAt" (str "now")
          (field "expiresAt" (str "later") (field "job" job (field "grants" grants end))))))

abbrev date : Value → ℕ
date v = if strict_eq v (str "now") then 5000 else 6000

-- Every text of JSON is the envelope.
abbrev host : Host
host = record Sample.host {
  parse_json = λ bytes. some envelope;
  parse_date = λ v. some (pos (date v));
}

abbrev queue : MemoryQueue
queue = record { retry_delay_ms = 10; pending = []; archive = [] }

abbrev post : HttpRequest
post = record {
  method = "POST";
  target = some "/v1/compiler-jobs";
  content_type = some "application/json";
  declared = none;
  chunks = [];
}

abbrev worker : Worker
worker = record { ready = true; verify = λ r body. ok tt; queue = queue }

abbrev stranger : Worker
stranger = record worker { verify = λ r body. err plain_error }

well_formed : envelope_ok host envelope ≡ true
unfolding envelope_ok Value.same_keys get Text.valid_id
well_formed = refl

in_time :
    valid_message_lifetime host (get envelope "issuedAt") (get envelope "expiresAt") (pos 5500)
    ≡ true
unfolding valid_message_lifetime get
in_time = refl

envelope_job : validate_compiler_job (get envelope "job") ≡ ok tt
unfolding get
envelope_job = job_valid

parsed : parse_envelope host (1 ∷ []) (pos 5500) ≡ ok envelope
unfolding parse_envelope
parsed = rw (well_formed, parse_envelope, in_time, envelope_job) refl

took :
    (enqueued envelope (Defs.enqueue 5500 (queue_input host envelope (1 ∷ [])) queue)).0
    ≡ ok (str "d1")
unfolding Defs.enqueue Queue.validate_enqueue queue_input get Text.hex64 Dict.get Dict.put
took = refl

taken : (consume host 5500 post (1 ∷ []) worker).0 ≡ ok (str "d1")
unfolding consume consume_envelope
taken = rw (parsed, consume_envelope) took

consume-IsAccepted_example :
    IsAccepted host 5500 post (1 ∷ []) worker (str "d1") (consume host 5500 post (1 ∷ []) worker).1
consume-IsAccepted_example = consume-IsAccepted host 5500 post (1 ∷ []) worker (str "d1") taken

unauthorized :
    (consume host 5500 post (1 ∷ []) stranger).0 ≡ err (http_error 401 "request_unauthorized")
unfolding consume
unauthorized = refl

consume-refused_example : (consume host 5500 post (1 ∷ []) stranger).1 ≡ queue
consume-refused_example =
    consume-refused host 5500 post (1 ∷ []) stranger (http_error 401 "request_unauthorized")
      unauthorized

-- A control plane that never answers.
abbrev silent : Callbacks
silent = record {
  origin = "https://s";
  sign = λ log target body. ok tt;
  fetch = λ log url body. late;
}

abbrev broken : Outside
broken = record {
  input_response = λ log. err plain_error;
  build = λ log v. err plain_error;
  upload_response = λ log. err plain_error;
  reconcile_response = λ log. err plain_error;
  now = λ log. pos 5500;
}

abbrev checks : Checks
checks = record { validate_bundle = λ body v. ok v; validate_immutable_content = λ built. ok tt }

abbrev claimed_calls : List Op
claimed_calls = enqueue 5500 (queue_input host envelope (1 ∷ [])) ∷ claim (λ k. 5600) ∷ []

abbrev claimed_queue : MemoryQueue
claimed_queue = run_all claimed_calls (empty_queue 10)

claimed_queue-IsValid : IsValid claimed_queue
claimed_queue-IsValid = run_all-IsValid claimed_calls (empty_queue 10) (IsValid-empty 10)

abbrev at_r1 : Queue.Identity
at_r1 = record { id = "r1"; deployment_id = "d1"; job_fingerprint = Sample.print }

abbrev attempt : Queue.Claimed
attempt = record { id = "r1"; deployment_id = "d1"; body = 1 ∷ []; attempts = 1 }

claimed_queue_at_work : phase "r1" claimed_queue ≡ at_work at_r1 1
unfolding run_all run Defs.enqueue Defs.claim Defs.accept Queue.validate_enqueue queue_input get
    Text.hex64 Dict.get Dict.put
claimed_queue_at_work = refl

queued_in_time :
    valid_message_lifetime host (get envelope "issuedAt") (get envelope "expiresAt") (pos 5000)
    ≡ true
unfolding valid_message_lifetime get
queued_in_time = refl

reads_back : parse_queued_envelope host (1 ∷ []) ≡ ok envelope
unfolding parse_queued_envelope parse_envelope get
reads_back = rw (well_formed, queued_in_time, envelope_job) refl

process_queued-phase_example :
    phase "r1" (process_queued host checks silent broken 5700 attempt claimed_queue)
    ≡ attempt_phase host checks silent broken (parse_queued_envelope host (1 ∷ [])) at_r1 1
process_queued-phase_example =
    process_queued-phase host checks silent broken 5700 attempt claimed_queue at_r1 1
      claimed_queue-IsValid claimed_queue_at_work
