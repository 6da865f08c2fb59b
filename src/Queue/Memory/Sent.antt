-- ===== src/Queue/Memory/Sent.antt =====
-- What the queue in memory holds of a job that it has taken from a delivery.
use xmcl_shared_node_agent.Base.{
  ℕ, ◌≡◌, refl, ◌⊎◌, inl, inr, Bool, true, some, arith, Bool-cases, Option-cases, eq_iff,
}
use xmcl_shared_node_agent.Base.Dict
use xmcl_shared_node_agent.Js.Fault.{ok, Result-cases}
use xmcl_shared_node_agent.Queue
use xmcl_shared_node_agent.Queue.{Input}
use xmcl_shared_node_agent.Queue.Memory.Defs
use xmcl_shared_node_agent.Queue.Memory.Defs.{Job, MemoryQueue}

-- A record under the ids and the fingerprint of a delivery.
pub record IsOf (input : Input) (job : Job) : Type 0 where
  pub id : job.id ≡ input.id
  pub deployment : job.deployment_id ≡ input.deployment_id
  pub fingerprint : job.job_fingerprint ≡ input.job_fingerprint

-- The delivery's body waits: beside a running attempt, or as the body of the next, due at once.
abbrev pub Waits : ℕ → Input → Job → Type 0
Waits now input job =
    ((Queue.is_running job.state ≡ true) × (job.redelivery_body ≡ some input.body))
    ⊎ ((job.state ≡ Queue.pending) × (job.body ≡ input.body) × (job.next_attempt_at ≡ now))

-- The job was done before, and nothing changes; or it is pending, and the delivery waits.
abbrev pub Holds : ℕ → Input → MemoryQueue → MemoryQueue → Type 0
Holds now input q after =
    ((job : Job) × (Dict.get q.archive input.id ≡ some job) × IsOf input job × (after ≡ q))
    ⊎ ((job : Job) × (Dict.get after.pending input.id ≡ some job)
        × IsOf input job
        × Waits now input job)

same_identity-IsOf :
    (input : Input) (job : Job)
    → Queue.same_identity (Defs.job_identity job) (Queue.identity_of input) ≡ true
    → IsOf input job
unfolding Queue.same_identity
same_identity-IsOf input job h = record {
  id = ground (arith, eq_iff job.id input.id);
  deployment = ground (arith, eq_iff job.deployment_id input.deployment_id);
  fingerprint = ground (arith, eq_iff job.job_fingerprint input.job_fingerprint);
}

redelivered-IsOf :
    (now : ℕ) (input : Input) (job : Job)
    → IsOf input job
    → IsOf input (Defs.redelivered now input job)
unfolding Defs.redelivered
redelivered-IsOf now input job same = elim (Bool-cases (Queue.is_running job.state)) [
  | inl running ↦
      rw running
        (record { id = same.id; deployment = same.deployment; fingerprint = same.fingerprint })
  | inr idle ↦
      rw idle
        (record { id = same.id; deployment = same.deployment; fingerprint = same.fingerprint })
]

redelivered-Waits :
    (now : ℕ) (input : Input) (job : Job) → Waits now input (Defs.redelivered now input job)
unfolding Defs.redelivered
redelivered-Waits now input job = elim (Bool-cases (Queue.is_running job.state)) [
  | inl running ↦ inl (rw running running, rw running refl)
  | inr idle ↦ inr (rw idle refl, rw idle refl, rw idle refl)
]

accept-Holds :
    (now : ℕ) (input : Input) (q : MemoryQueue) (duplicate : Bool)
    → (Defs.accept now input q).0 ≡ ok duplicate
    → Holds now input q (Defs.accept now input q).1
unfolding Defs.accept Queue.assert_same_identity
accept-Holds now input q duplicate h = elim (Option-cases (Dict.get q.archive input.id)) [
  | inr (job, kept) ↦
      inl (job, kept, same_identity-IsOf input job (ground arith), rw (kept, Defs.accept) refl)
  | inl new ↦ elim (Option-cases (Dict.get q.pending input.id)) [
    | inl unknown ↦ inr (
      Defs.fresh now input,
      rw (new, unknown, Defs.accept)
          (ground (
            arith,
            Dict.get-put q.pending input.id (Defs.fresh now input) input.id,
            eq_iff input.id input.id,
          )),
      record { id = refl; deployment = refl; fingerprint = refl },
      inr (refl, refl, refl),
    )
    | inr (job, found) ↦
        let same : Queue.same_identity (Defs.job_identity job) (Queue.identity_of input) ≡ true =
          ground arith in
        inr (
          Defs.redelivered now input job,
          rw (new, found, same, Defs.accept)
              (ground (
                arith,
                Dict.get-put q.pending input.id (Defs.redelivered now input job) input.id,
                eq_iff input.id input.id,
              )),
          redelivered-IsOf now input job (same_identity-IsOf input job same),
          redelivered-Waits now input job,
        )
  ]
]

pub enqueue-Holds :
    (now : ℕ) (input : Input) (q : MemoryQueue) (duplicate : Bool)
    → (Defs.enqueue now input q).0 ≡ ok duplicate
    → Holds now input q (Defs.enqueue now input q).1
unfolding Defs.enqueue
enqueue-Holds now input q duplicate h = elim (Result-cases (Queue.validate_enqueue input)) [
  | inr (e, refused) ↦ ground arith
  | inl (u, formed) ↦
      rw (formed, Defs.enqueue)
        (accept-Holds now input q duplicate (rw (formed, Defs.enqueue) at h))
]
