-- ===== src/Http/Process.antt =====
-- `processQueued`: one attempt of a claimed job, and what the queue makes of it.
pub mod Settled
use xmcl_shared_node_agent.Base.{
  ℕ, String, Bool, true, false, ◌&&◌, List, Option, none, some, if◌then◌else◌,
}
use xmcl_shared_node_agent.Js.Value.{Value, undefined, str, obj, end, field, get, plain_object}
use xmcl_shared_node_agent.Js.Host.{Host}
use xmcl_shared_node_agent.Js.Fault.{
  Fault, type_error, code_of, Result, ok, err, ensure, ◌>>=◌, ◌>>◌,
}
use xmcl_shared_node_agent.Queue
use xmcl_shared_node_agent.Queue.Memory.Defs
use xmcl_shared_node_agent.Queue.Memory.Defs.{MemoryQueue}
use xmcl_shared_node_agent.Compiler.Exec.{Log}
use xmcl_shared_node_agent.Compiler.Worker.Defs.{
  Checks, Outcome, published, published_callback_uncertain, upload_reconciliation_uncertain,
  failed_with, run,
}
use xmcl_shared_node_agent.Http.Envelope.{parse_queued_envelope}
use xmcl_shared_node_agent.Http.Callbacks.{Callbacks}
use xmcl_shared_node_agent.Http.Control.{Outside, delivered, bound_world}

abbrev field_of : Option Value → String → Value
field_of none name = undefined
field_of (some v) name = get v name

abbrev uncertain : Value → String → Option Value → Value
uncertain job status publication = obj (
    field "status" (str status) (
      field "deploymentId" (get job "deploymentId") (
        field "manifestSha256" (get job "manifestSha256") (
          field "content" (field_of publication "content")
            (field "descriptor" (field_of publication "descriptor") end)))))

-- The object that `run` returns.
unfoldable pub outcome_value : Value → Outcome → Value
outcome_value job (published deployment) =
    obj (field "status" (str "published") (field "deploymentId" deployment end))
outcome_value job (published_callback_uncertain publication) =
    uncertain job "published_callback_uncertain" publication
outcome_value job (upload_reconciliation_uncertain publication) =
    uncertain job "upload_reconciliation_uncertain" publication
outcome_value job (failed_with code) =
    obj (field "status" (str "failed") (field "code" (str code) end))

-- `["published", "failed"].includes(result.status)`
abbrev pub is_final : Outcome → Bool
is_final (published d) = true
is_final (failed_with c) = true
is_final _ = false

abbrev pub retry_code : Option String → String
retry_code none = "compiler_failed"
retry_code (some code) = code

abbrev pub queue_retry : Fault → Value
queue_retry e =
    obj (field "status" (str "queue_retry") (field "code" (str (retry_code (code_of e))) end))

module _ (host : Host) (checks : Checks) (callbacks : Callbacks) (outside : Outside) where
  -- The run of the worker for a job.
  abbrev pub run_job : Value → Outcome × Log
  run_job job = run host checks (bound_world host job callbacks outside) job

  abbrev pub conclusion : Value → Outcome × Log → Value × Bool
  conclusion job (outcome, log) = (outcome_value job outcome, delivered log && is_final outcome)

  -- The result of an attempt, and whether it is final.
  unfoldable pub attempt_queued : List ℕ → Result (Value × Bool)
  unfolding parse_queued_envelope outcome_value
  attempt_queued body = do
    envelope ← parse_queued_envelope host body
    ensure (plain_object (get envelope "job")) type_error
    ok (conclusion (get envelope "job") (run_job (get envelope "job")))

  abbrev pub after_failure : ℕ → String → Fault → MemoryQueue → MemoryQueue
  after_failure now id e q = (Defs.finish now id (Queue.Outcome.retry (queue_retry e)) q).1

  -- Where `finish` throws, it is tried once more, as a retry.
  abbrev pub finish_or_retry : ℕ → String → Result (Unit {0}) × MemoryQueue → MemoryQueue
  finish_or_retry now id (ok _, q) = q
  finish_or_retry now id (err e, q) = after_failure now id e q

  abbrev pub outcome_of : Value × Bool → Queue.Outcome
  outcome_of (result, true) = Queue.Outcome.terminal result
  outcome_of (result, false) = Queue.Outcome.retry result

  abbrev pub settle_attempt : ℕ → String → Result (Value × Bool) → MemoryQueue → MemoryQueue
  settle_attempt now id (err e) q = after_failure now id e q
  settle_attempt now id (ok concluded) q =
      finish_or_retry now id (Defs.finish now id (outcome_of concluded) q)

  -- The queue behind an attempt of a job that it has given to claim.
  unfoldable pub process_queued : ℕ → Queue.Claimed → MemoryQueue → MemoryQueue
  unfolding attempt_queued
  process_queued now queued q = settle_attempt now queued.id (attempt_queued queued.body) q
