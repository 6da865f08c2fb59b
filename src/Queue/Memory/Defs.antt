-- ===== src/Queue/Memory/Defs.antt =====
-- The state and the operations of the queue in memory. A clock gives the reading of each call of
-- `this.now()` within an operation, by the number of readings before it.
use xmcl_shared_node_agent.Base.{
  ℕ, suc, ◌+◌, ◌||◌, String, Bool, true, false, List, [], ◌∷◌, Option, none, some, ltb,
  if◌then◌else◌, length,
}
use xmcl_shared_node_agent.Base.Dict
use xmcl_shared_node_agent.Base.Dict.{Dict}
use xmcl_shared_node_agent.Js.Value.{Value}
use xmcl_shared_node_agent.Js.Fault.{plain_error, Result, ok, err, ◌>>◌}
use xmcl_shared_node_agent.Queue

-- A record of the maps `pending` and `archive`; an absent property is `none`.
pub record Job : Type 0 where
  pub id : String
  pub deployment_id : String
  pub job_fingerprint : String
  pub body : List ℕ
  pub redelivery_body : Option (List ℕ)
  pub state : Queue.State
  pub attempts : ℕ
  pub next_attempt_at : ℕ
  pub last_result : Option Value
  pub terminal_result : Option Value

pub record MemoryQueue : Type 0 where
  pub retry_delay_ms : ℕ
  pub pending : Dict Job
  pub archive : Dict Job

abbrev pub job_identity : Job → Queue.Identity
job_identity job = record {
  id = job.id;
  deployment_id = job.deployment_id;
  job_fingerprint = job.job_fingerprint;
}

-- `initialize` for one record: a running job of an earlier process is pending again.
unfoldable pub restarted : Job → Job
restarted job = if Queue.is_running job.state then record job { state = Queue.pending } else job

unfoldable pub restart_all : Dict Job → Dict Job
unfolding restarted
restart_all [] = []
restart_all ((k, job) ∷ m) = (k, restarted job) ∷ restart_all m

unfoldable pub initialize : MemoryQueue → MemoryQueue
unfolding restart_all
initialize q = record q { pending = restart_all q.pending }

abbrev pub fresh : ℕ → Queue.Input → Job
fresh now input = record {
  id = input.id;
  deployment_id = input.deployment_id;
  job_fingerprint = input.job_fingerprint;
  body = input.body;
  redelivery_body = none;
  state = Queue.pending;
  attempts = 0;
  next_attempt_at = now;
  last_result = none;
  terminal_result = none;
}

-- The body of a second delivery waits beside a running job, and replaces that of any other.
unfoldable pub redelivered : ℕ → Queue.Input → Job → Job
redelivered now input job =
    if Queue.is_running job.state
    then record job { redelivery_body = some input.body }
    else record job { body = input.body; state = Queue.pending; next_attempt_at = now }

-- `enqueue` past the validation: the result says whether the job is a duplicate.
unfoldable pub accept : ℕ → Queue.Input → MemoryQueue → Result Bool × MemoryQueue
unfolding redelivered
accept now input q = elim (Dict.get q.archive input.id) [
  | some job ↦
      ((do Queue.assert_same_identity (job_identity job) (Queue.identity_of input); ok true), q)
  | none ↦ elim (Dict.get q.pending input.id) [
    | some job ↦
        if Queue.same_identity (job_identity job) (Queue.identity_of input)
        then (
          ok true,
          record q { pending = Dict.put q.pending input.id (redelivered now input job) },
        )
        else (err Queue.idempotency_conflict, q)
    | none ↦ (ok false, record q { pending = Dict.put q.pending input.id (fresh now input) })
  ]
]

unfoldable pub enqueue : ℕ → Queue.Input → MemoryQueue → Result Bool × MemoryQueue
unfolding accept
enqueue now input q = elim (Queue.validate_enqueue input) [
  | ok _ ↦ accept now input q
  | err e ↦ (err e, q)
]

abbrev pub taken : Job → Job
taken job = record job { state = Queue.running; attempts = job.attempts + 1 }

abbrev pub claimed : Job → Queue.Claimed
claimed job = record {
  id = job.id;
  deployment_id = job.deployment_id;
  body = job.body;
  attempts = job.attempts + 1;
}

-- The loop of `claim`. The clock is read for each record that is not running.
unfoldable pub claim_from : (ℕ → ℕ) → ℕ → Dict Job → Option Queue.Claimed × Dict Job
claim_from clock reads [] = (none, [])
claim_from clock reads ((k, job) ∷ m) =
    let rest = claim_from clock (if Queue.is_running job.state then reads else suc reads) m in
    if Queue.is_running job.state || ltb (clock reads) job.next_attempt_at
    then (rest.0, (k, job) ∷ rest.1)
    else (some (claimed job), (k, taken job) ∷ m)

unfoldable pub claim : (ℕ → ℕ) → MemoryQueue → Option Queue.Claimed × MemoryQueue
unfolding claim_from
claim clock q =
    let (found, pending') = claim_from clock 0 q.pending in (found, record q { pending = pending' })

abbrev pub finished : Value → Job → Job
finished result job = record job { state = Queue.terminal; terminal_result = some result }

abbrev pub latest_body : Job → List ℕ
latest_body job = elim job.redelivery_body [ none ↦ job.body | some b ↦ b ]

-- A failed attempt: the latest body, and a later time for the next attempt.
unfoldable pub retried : ℕ → ℕ → Value → Job → Job
retried now base result job = record job {
  body = latest_body job;
  redelivery_body = none;
  state = Queue.retry;
  next_attempt_at = now + Queue.retry_delay base job.attempts;
  last_result = some result;
}

-- The two outcomes of `finish`, for a running job.
unfoldable pub settle : ℕ → Queue.Outcome → Job → String → MemoryQueue → MemoryQueue
unfolding retried
settle now (Queue.Outcome.terminal result) job id q = record q {
  pending = Dict.delete q.pending id;
  archive = Dict.put q.archive id (finished result job);
}
settle now (Queue.Outcome.retry result) job id q = record q {
  pending = Dict.put q.pending id (retried now q.retry_delay_ms result job);
}

unfoldable pub finish : ℕ → String → Queue.Outcome → MemoryQueue → Result (Unit {0}) × MemoryQueue
unfolding settle
finish now id outcome q = elim (Dict.get q.pending id) [
  | none ↦ (err plain_error, q)
  | some job ↦
      if Queue.is_running job.state
      then (ok tt, settle now outcome job id q)
      else (err plain_error, q)
]

unfoldable pub counts : MemoryQueue → ℕ × ℕ
counts q = (length q.pending, length q.archive)
