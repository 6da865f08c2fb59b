-- ===== src/Queue/Files/Record.antt =====
-- The persisted record of a job, and its reading back with every check of `readRecord`.
use xmcl_shared_node_agent.Base.{
  ℕ, String, Bool, false, ◌&&◌, ◌||◌, List, [], ◌∷◌, Option, none, some, str_eq, if◌then◌else◌,
}
use xmcl_shared_node_agent.Base.Int.{ℤ}
use xmcl_shared_node_agent.Js.Value.{
  Value, str, num, obj, Fields, end, field, int, get, strict_eq, is_undefined, safe_int, truthy,
  is_string,
}
use xmcl_shared_node_agent.Js.Fault.{Result, ok, plain_error, ◌>>=◌, ◌>>◌, ensure, of_option}
use xmcl_shared_node_agent.Queue.{State}

-- node:crypto and Buffer: the hex digest of bytes and of a text, `toString("base64")`, and
-- `Buffer.from(value, "base64")`, which throws on some values.
pub record Codec : Type 0 where
  pub sha256 : List ℕ → String
  pub hash_text : String → String
  pub to_base64 : List ℕ → String
  pub from_base64 : Value → Option (List ℕ)

pub record FileJob : Type 0 where
  pub id : String
  pub deployment_id : String
  pub job_fingerprint : String
  pub body : Value
  pub body_sha256 : Value
  pub redelivery_body : Value
  pub redelivery_body_sha256 : Value
  pub state : State
  pub attempts : ℤ
  pub next_attempt_at : ℤ
  pub created_at : Value
  pub updated_at : Value
  pub last_result : Value
  pub terminal_result : Value

abbrev pub state_name : State → String
state_name State.pending = "pending"
state_name State.running = "running"
state_name State.retry = "retry"
state_name State.terminal = "terminal"

abbrev pub state_of : Value → Option State
state_of (str s) =
    if str_eq s "pending"
    then some State.pending
    else if str_eq s "running"
    then some State.running
    else if str_eq s "retry"
    then some State.retry
    else if str_eq s "terminal"
    then some State.terminal
    else none
state_of _ = none

abbrev pub text_of : Value → Option String
text_of (str s) = some s
text_of _ = none

abbrev pub safe_of : Value → Option ℤ
safe_of (num z) = if safe_int z then some z else none
safe_of _ = none

-- `JSON.stringify` leaves out a property that is undefined.
unfoldable pub present : List (String × Value) → Fields
present [] = end
present ((k, v) ∷ ps) = if is_undefined v then present ps else field k v (present ps)

abbrev pub extras : FileJob → List (String × Value)
extras job =
    ("createdAt", job.created_at)
    ∷ ("updatedAt", job.updated_at)
    ∷ ("redeliveryBody", job.redelivery_body)
    ∷ ("redeliveryBodySha256", job.redelivery_body_sha256)
    ∷ ("lastResult", job.last_result)
    ∷ ("terminalResult", job.terminal_result)
    ∷ []

-- The object that `atomicWrite` prints.
unfoldable pub encode : FileJob → Value
encode job = obj (
    field "schemaVersion" (int 1) (
      field "id" (str job.id) (
        field "deploymentId" (str job.deployment_id) (
          field "jobFingerprint" (str job.job_fingerprint) (
            field "body" job.body (
              field "bodySha256" job.body_sha256 (
                field "state" (str (state_name job.state)) (
                  field "attempts" (num job.attempts)
                    (field "nextAttemptAt" (num job.next_attempt_at) (present (extras job)))))))))))

module _ (codec : Codec) where
  -- `decodeBody`
  unfoldable pub decode_body : FileJob → Result (List ℕ)
  decode_body job = do
    bytes ← of_option (codec.from_base64 job.body) plain_error
    ensure (strict_eq (str (codec.sha256 bytes)) job.body_sha256) plain_error
    ok bytes

  abbrev pub has_digest : Option (List ℕ) → Value → Bool
  has_digest none digest = false
  has_digest (some bytes) digest = strict_eq (str (codec.sha256 bytes)) digest

  -- The redelivered body comes with its digest, or neither is there.
  abbrev pub redelivery_matches : Value → Value → Bool
  redelivery_matches body digest =
      if is_undefined body || is_undefined digest
      then is_undefined body && is_undefined digest
      else has_digest (codec.from_base64 body) digest

  -- `readRecord`, past the parsing of the text
  unfoldable pub read_record : Value → Result FileJob
  unfolding decode_body
  read_record v = do
    ensure (truthy v && strict_eq (get v "schemaVersion") (int 1)) plain_error
    id ← of_option (text_of (get v "id")) plain_error
    deployment_id ← of_option (text_of (get v "deploymentId")) plain_error
    fingerprint ← of_option (text_of (get v "jobFingerprint")) plain_error
    ensure (is_string (get v "body") && is_string (get v "bodySha256")) plain_error
    state ← of_option (state_of (get v "state")) plain_error
    attempts ← of_option (safe_of (get v "attempts")) plain_error
    next ← of_option (safe_of (get v "nextAttemptAt")) plain_error
    let job : FileJob = record {
      id = id;
      deployment_id = deployment_id;
      job_fingerprint = fingerprint;
      body = get v "body";
      body_sha256 = get v "bodySha256";
      redelivery_body = get v "redeliveryBody";
      redelivery_body_sha256 = get v "redeliveryBodySha256";
      state = state;
      attempts = attempts;
      next_attempt_at = next;
      created_at = get v "createdAt";
      updated_at = get v "updatedAt";
      last_result = get v "lastResult";
      terminal_result = get v "terminalResult";
    }
    bytes ← decode_body job
    ensure (redelivery_matches job.redelivery_body job.redelivery_body_sha256) plain_error
    ok job
