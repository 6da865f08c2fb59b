-- ===== src/Http/Envelope.antt =====
-- The envelope of a job: `parseEnvelope`, `validMessageLifetime` and `parseQueuedEnvelope`.
pub mod Valid
use xmcl_shared_node_agent.Base.{
  ℕ, ◌*◌, String, Bool, false, ◌&&◌, List, [], ◌∷◌, Option, none, some, if◌then◌else◌,
}
use xmcl_shared_node_agent.Base.Int.{ℤ, le_int, lt_int, add_ℕ}
use xmcl_shared_node_agent.Js.Value.{
  Value, int, get, plain_object, same_keys, strict_eq, string_that, safe_int,
}
use xmcl_shared_node_agent.Js.Text.{valid_id}
use xmcl_shared_node_agent.Js.Host.{Host}
use xmcl_shared_node_agent.Js.Fault.{
  Fault, http_error, compiler_failure, Result, ok, ensure, of_option, rethrow, ◌>>=◌, ◌>>◌,
}
use xmcl_shared_node_agent.Compiler.Job.{validate_compiler_job}

abbrev pub max_envelope_lifetime_ms : ℕ
max_envelope_lifetime_ms = 5 * 60 * 1000

abbrev pub invalid_request : Fault
invalid_request = http_error 400 "invalid_request"

abbrev pub envelope_keys : List String
envelope_keys = "schemaVersion" ∷ "requestId" ∷ "issuedAt" ∷ "expiresAt" ∷ "job" ∷ "grants" ∷ []

-- `issued <= now + 60_000 && expires > now && expires - issued <= MAX_ENVELOPE_LIFETIME_MS`
abbrev pub lifetime_ok : ℤ → ℤ → ℤ → Bool
lifetime_ok issued expires now =
    safe_int issued
    && safe_int expires
    && le_int issued (add_ℕ now 60000)
    && lt_int now expires
    && le_int expires (add_ℕ issued max_envelope_lifetime_ms)

abbrev pub both_times : Option ℤ → Option ℤ → ℤ → Bool
both_times (some issued) (some expires) now = lifetime_ok issued expires now
both_times _ _ now = false

module _ (host : Host) where
  unfoldable pub valid_message_lifetime : Value → Value → ℤ → Bool
  valid_message_lifetime issued_at expires_at now =
      both_times (host.parse_date issued_at) (host.parse_date expires_at) now

  unfoldable pub envelope_ok : Value → Bool
  envelope_ok envelope =
      plain_object envelope
      && same_keys envelope envelope_keys
      && strict_eq (get envelope "schemaVersion") (int 1)
      && string_that valid_id (get envelope "requestId")
      && plain_object (get envelope "job")
      && plain_object (get envelope "grants")
      && strict_eq (get envelope "requestId") (get (get envelope "job") "compilerRequestId")
      && strict_eq (get (get envelope "grants") "compilerRequestId") (get envelope "requestId")

  unfoldable pub parse_envelope : List ℕ → ℤ → Result Value
  parse_envelope body now = do
    envelope ← of_option (host.parse_json body) invalid_request
    ensure
        (envelope_ok envelope
          && valid_message_lifetime (get envelope "issuedAt") (get envelope "expiresAt") now)
        invalid_request
    rethrow (validate_compiler_job (get envelope "job")) invalid_request
    ok envelope

  abbrev pub invalid_persisted : Fault
  invalid_persisted = compiler_failure "invalid_persisted_job"

  abbrev pub safe_date : Option ℤ → Option ℤ
  safe_date none = none
  safe_date (some t) = if safe_int t then some t else none

  -- A job from the queue is judged at the time at which it was issued.
  unfoldable pub parse_queued_envelope : List ℕ → Result Value
  parse_queued_envelope body = do
    value ← of_option (host.parse_json body) invalid_persisted
    issued ← of_option (safe_date (host.parse_date (get value "issuedAt"))) invalid_persisted
    rethrow (parse_envelope body issued) invalid_persisted
