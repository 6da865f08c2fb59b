-- ===== src/Queue/Memory/Redelivery.antt =====
-- What becomes of a second delivery of a job in the queue in memory.
use mathlib.Core.Option
use xmcl_shared_node_agent.Base.{
  ℕ, ◌+◌, ◌≡◌, refl, inl, inr, String, true, false, List, none, some, arith, eq_iff,
}
use xmcl_shared_node_agent.Base.Dict
use xmcl_shared_node_agent.Js.Value.{Value}
use xmcl_shared_node_agent.Js.Fault.{ok}
use xmcl_shared_node_agent.Queue
use xmcl_shared_node_agent.Queue.Memory.Defs
use xmcl_shared_node_agent.Queue.Memory.Defs.{Job, MemoryQueue, enqueue, claim, finish}
use xmcl_shared_node_agent.Queue.Memory.Claim.{claim-Claims}
use xmcl_shared_node_agent.Queue.Memory.Valid.{IsValid, enqueue-IsValid}

-- A well-formed delivery of a job that is pending under its id, with the identity that is kept.
pub record Redelivers (input : Queue.Input) (job : Job) (q : MemoryQueue) : Type 0 where
  pub formed : Queue.validate_enqueue input ≡ ok tt
  pub there : Dict.get q.pending input.id ≡ some job
  pub same : Queue.same_identity (Defs.job_identity job) (Queue.identity_of input) ≡ true

enqueue-redelivered :
    (now : ℕ) (input : Queue.Input) (job : Job) (q : MemoryQueue)
    → IsValid q
    → Redelivers input job q
    → enqueue now input q ≡ (
      ok true,
      record q { pending = Dict.put q.pending input.id (Defs.redelivered now input job) },
    )
unfolding enqueue Defs.accept
enqueue-redelivered now input job q v d =
    rw (d.formed, enqueue, v.apart input.id job d.there, d.there, d.same, Defs.accept) refl

-- `finish` with a failed attempt of a running job.
finish-retried :
    (now : ℕ) (id : String) (result : Value) (job : Job) (q : MemoryQueue)
    → Dict.get q.pending id ≡ some job
    → Queue.is_running job.state ≡ true
    → Dict.get (finish now id (Queue.Outcome.retry result) q).1.pending id
      ≡ some (Defs.retried now q.retry_delay_ms result job)
unfolding finish Defs.settle
finish-retried now id result job q there running = ground (
  arith,
  Dict.get-put q.pending id (Defs.retried now q.retry_delay_ms result job) id,
  eq_iff id id,
)

-- A delivery that comes while its job runs is not lost: when the attempt fails, the record waits
-- with the body of that delivery, for the delay of its attempts after the failure.
pub redelivery-finish :
    (t u : ℕ) (result : Value) (input : Queue.Input) (job : Job) (q : MemoryQueue)
    → IsValid q
    → Redelivers input job q
    → Queue.is_running job.state ≡ true
    → (next : Job) × (Dict.get
          (finish u input.id (Queue.Outcome.retry result) (enqueue t input q).1).1.pending
          input.id
        ≡ some next)
      × (next.body ≡ input.body)
      × (next.redelivery_body ≡ none)
      × (next.state ≡ Queue.State.retry)
      × (next.next_attempt_at ≡ u + Queue.retry_delay q.retry_delay_ms job.attempts)
unfolding Defs.redelivered Defs.retried
redelivery-finish t u result input job q v d running =
    let waiting = Defs.redelivered t input job in
    let q' : MemoryQueue = record q { pending = Dict.put q.pending input.id waiting } in
    let there : Dict.get q'.pending input.id ≡ some waiting =
      ground (arith, Dict.get-put q.pending input.id waiting input.id, eq_iff input.id input.id) in
    (
      Defs.retried u q.retry_delay_ms result waiting,
      rw (enqueue-redelivered t input job q v d)
          (finish-retried u input.id result waiting q' there (ground arith)),
      ground arith,
      ground arith,
      ground arith,
      ground arith,
    )

-- The next attempt of an idle job, and its failure.
claim-finish :
    (u : ℕ) (clock : ℕ → ℕ) (result : Value) (id : String) (job : Job) (c : Queue.Claimed)
    (q : MemoryQueue)
    → IsValid q
    → Dict.get q.pending id ≡ some job
    → (claim clock q).0 ≡ some c
    → c.id ≡ id
    → (c.body ≡ job.body)
      × (Dict.get (finish u id (Queue.Outcome.retry result) (claim clock q).1).1.pending id
          ≡ some (Defs.retried u q.retry_delay_ms result (Defs.taken job)))
unfolding claim
claim-finish u clock result id job c q v there answer same =
    elim (claim-Claims clock q v.distinct) [
      | inr (no_one, _) ↦ cc
      | inl t ↦
          let here : t.key ≡ id = ground (arith, (v.live t.key t.job t.there).keyed) in
          let this : t.job ≡ job = ground arith in
          let running : Dict.get (claim clock q).1.pending id ≡ some (Defs.taken job) =
            ground (arith, Dict.get-put q.pending t.key (Defs.taken t.job) id, eq_iff id id) in
          (ground arith, finish-retried u id result (Defs.taken job) (claim clock q).1 running refl)
    ]

-- The delivery that a restart left beside a job overrides a newer one: where a record that is not
-- running still holds an older redelivered body, a new delivery is what the next `claim` of the job
-- answers with, and when that attempt fails the record waits with the older body.
pub stale_redelivery :
    (t u : ℕ) (clock : ℕ → ℕ) (result : Value) (input : Queue.Input) (job : Job) (old : List ℕ)
    (c : Queue.Claimed) (q : MemoryQueue)
    → IsValid q
    → Redelivers input job q
    → Queue.is_running job.state ≡ false
    → job.redelivery_body ≡ some old
    → (claim clock (enqueue t input q).1).0 ≡ some c
    → c.id ≡ input.id
    → (c.body ≡ input.body)
      × (Option.map
            (λ j. j.body)
            (Dict.get
              (finish u input.id
                (Queue.Outcome.retry result)
                (claim clock (enqueue t input q).1).1).1.pending
              input.id)
          ≡ some old)
unfolding Defs.redelivered Defs.retried
stale_redelivery t u clock result input job old c q v d idle kept answer same =
    let waiting = Defs.redelivered t input job in
    let q' : MemoryQueue = record q { pending = Dict.put q.pending input.id waiting } in
    let step = enqueue-redelivered t input job q v d in
    let v' = rw step at (enqueue-IsValid t input v) in
    let there : Dict.get q'.pending input.id ≡ some waiting =
      ground (arith, Dict.get-put q.pending input.id waiting input.id, eq_iff input.id input.id) in
    let (taken_body, waits) =
      claim-finish u clock result input.id waiting c q' v' there (rw step at answer) same in
    (ground arith, rw (step, waits) (ground arith))
