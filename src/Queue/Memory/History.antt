-- ===== src/Queue/Memory/History.antt =====
-- What stays true of a job in the queue in memory, over every sequence of operations.
use xmcl_shared_node_agent.Base.{
  ℕ, ◌≡◌, subst, sym, inl, inr, String, Bool, true, List, [], ◌∷◌, none, some, ◌≢◌, arith, eq_iff,
  str_eq, Bool-cases, Option-cases, All, ◌||◌,
}
use xmcl_shared_node_agent.Base.Dict
use xmcl_shared_node_agent.Base.Dict.{Dict}
use xmcl_shared_node_agent.Js.Fault.{Result-cases}
use xmcl_shared_node_agent.Queue
use xmcl_shared_node_agent.Queue.Memory.Defs
use xmcl_shared_node_agent.Queue.Memory.Defs.{Job, MemoryQueue}
use xmcl_shared_node_agent.Queue.Memory.Claim.{claim-Claims}
use xmcl_shared_node_agent.Queue.Memory.Valid.{
  Op, initialize, enqueue, claim, finish, run, run_all, IsValid, run-IsValid, run_all-IsValid,
  get-restart_all,
}

-- Only `finish` writes to the archive, and only under a pending id.
run-archive :
    (o : Op) (q : MemoryQueue) (k : String) (job : Job)
    → IsValid q
    → Dict.get q.archive k ≡ some job
    → Dict.get (run o q).archive k ≡ some job
unfolding run Defs.initialize Defs.enqueue Defs.accept Defs.claim Defs.finish Defs.settle
run-archive initialize q k job v h = h
run-archive (enqueue now input) q k job v h = ground arith
run-archive (claim clock) q k job v h = h
run-archive (finish now id (Queue.Outcome.retry result)) q k job v h = ground arith
run-archive (finish now id (Queue.Outcome.terminal result)) q k job v h =
    elim (Option-cases (Dict.get q.pending id)) [
      | inl unknown ↦ ground arith
      | inr (old, found) ↦ ground (
        arith,
        v.apart id old found,
        Dict.get-put q.archive id (Defs.finished result old) k,
        eq_iff id k,
      )
    ]

-- A finished job is final: after every further sequence of calls its archived record is the same
-- one, and no record of its id is pending.
pub run_all-archive :
    (os : List Op) (q : MemoryQueue) (k : String) (job : Job)
    → IsValid q
    → Dict.get q.archive k ≡ some job
    → (Dict.get (run_all os q).archive k ≡ some job) × (Dict.get (run_all os q).pending k ≡ none)
unfolding run_all
run_all-archive [] q k job v h = (
  h,
  elim (Option-cases (Dict.get q.pending k)) [
    | inl none_left ↦ none_left
    | inr (other, found) ↦ cc (v.apart k other found)
  ],
)
run_all-archive (o ∷ os) q k job v h =
    run_all-archive os (run o q) k job (run-IsValid o v) (run-archive o q k job v h)

-- Whether the queue knows a job, open or finished.
abbrev pub is_known : String → MemoryQueue → Bool
is_known k q = Dict.has q.pending k || Dict.has q.archive k

module _ (q : MemoryQueue) (k : String) (v : IsValid q) where
  enqueue-is_known :
      (now : ℕ) (input : Queue.Input)
      → is_known k q ≡ true
      → is_known k (Defs.enqueue now input q).1 ≡ true
  unfolding Defs.enqueue Defs.accept
  enqueue-is_known now input h = elim (Option-cases (Dict.get q.pending input.id)) [
    | inl unknown ↦ ground (arith, Dict.get-put q.pending input.id (Defs.fresh now input) k)
    | inr (job, found) ↦
        ground (arith, Dict.get-put q.pending input.id (Defs.redelivered now input job) k)
  ]

  claim-is_known : (clock : ℕ → ℕ) → is_known k q ≡ true → is_known k (Defs.claim clock q).1 ≡ true
  unfolding Defs.claim
  claim-is_known clock h = elim (claim-Claims clock q v.distinct) [
    | inr (_, same) ↦ rw same h
    | inl t ↦ rw t.kept (ground (arith, Dict.get-put q.pending t.key (Defs.taken t.job) k))
  ]

  finish-is_known :
      (now : ℕ) (id : String) (o : Queue.Outcome)
      → is_known k q ≡ true
      → is_known k (Defs.finish now id o q).1 ≡ true
  unfolding Defs.finish Defs.settle
  finish-is_known now id (Queue.Outcome.retry result) h =
      elim (Option-cases (Dict.get q.pending id)) [
        | inl unknown ↦ ground arith
        | inr (job, found) ↦
            ground
              (arith, Dict.get-put q.pending id (Defs.retried now q.retry_delay_ms result job) k)
      ]
  finish-is_known now id (Queue.Outcome.terminal result) h =
      elim (Option-cases (Dict.get q.pending id)) [
        | inl unknown ↦ ground arith
        | inr (job, found) ↦ ground (
          arith,
          Dict.get-delete q.pending id k,
          Dict.get-put q.archive id (Defs.finished result job) k,
          eq_iff id k,
        )
      ]

run-is_known :
    (o : Op) (q : MemoryQueue) (k : String)
    → IsValid q
    → is_known k q ≡ true
    → is_known k (run o q) ≡ true
unfolding run
run-is_known initialize q k v h =
    unfold Defs.initialize in ground (arith, get-restart_all q.pending k)
run-is_known (enqueue now input) q k v h = enqueue-is_known q k v now input h
run-is_known (claim clock) q k v h = claim-is_known q k v clock h
run-is_known (finish now id o) q k v h = finish-is_known q k v now id o h

-- An accepted job is never lost: whatever calls follow, it is pending or archived.
pub run_all-is_known :
    (os : List Op) (q : MemoryQueue) (k : String)
    → IsValid q
    → is_known k q ≡ true
    → is_known k (run_all os q) ≡ true
unfolding run_all
run_all-is_known [] q k v h = h
run_all-is_known (o ∷ os) q k v h =
    run_all-is_known os (run o q) k (run-IsValid o v) (run-is_known o q k v h)

-- The calls that leave the run of a job alone: all but a restart and its own `finish`.
abbrev pub Spares : String → Op → Type 0
Spares k initialize = ⊥
Spares k (finish now id o) = id ≢ k
Spares k _ = Unit

-- The job of this id is running, with this body and this number of attempts.
pub record Leased (k : String) (body : List ℕ) (attempts : ℕ) (q : MemoryQueue) : Type 0 where
  pub job : Job
  pub there : Dict.get q.pending k ≡ some job
  pub running : Queue.is_running job.state ≡ true
  pub same_body : job.body ≡ body
  pub same_attempts : job.attempts ≡ attempts

-- No `claim` answers with a running job.
claim-ne_leased :
    (clock : ℕ → ℕ) (q : MemoryQueue) (k : String) {body : List ℕ} {attempts : ℕ}
    {c : Queue.Claimed}
    → IsValid q
    → Leased k body attempts q
    → (Defs.claim clock q).0 ≡ some c
    → c.id ≢ k
claim-ne_leased clock q k v held answer e = elim (claim-Claims clock q v.distinct) [
  | inr (no_one, _) ↦ cc
  | inl t ↦ ground (arith, (v.live t.key t.job t.there).keyed)
]

module _ (q : MemoryQueue) (k : String) (body : List ℕ) (attempts : ℕ)
    (held : Leased k body attempts q) where
  Leased-put_ne :
      (id : String) (job : Job)
      → id ≢ k
      → Leased k body attempts (record q { pending = Dict.put q.pending id job })
  Leased-put_ne id job other = record {
    job = held.job;
    there = ground (arith, Dict.get-put q.pending id job k, eq_iff id k);
    running = held.running;
    same_body = held.same_body;
    same_attempts = held.same_attempts;
  }

  redelivered-Leased :
      (now : ℕ) (input : Queue.Input) (job : Job)
      → Dict.get q.pending input.id ≡ some job
      → Leased k body attempts
          (record q { pending = Dict.put q.pending input.id (Defs.redelivered now input job) })
  redelivered-Leased now input job found = elim (Bool-cases (str_eq input.id k)) [
    | inl same ↦ record {
      job = Defs.redelivered now input job;
      there = ground (arith, Dict.get-put q.pending input.id (Defs.redelivered now input job) k);
      running = unfold Defs.redelivered in ground (arith, eq_iff input.id k);
      same_body = unfold Defs.redelivered in ground (arith, eq_iff input.id k);
      same_attempts = unfold Defs.redelivered in ground (arith, eq_iff input.id k);
    }
    | inr other ↦ Leased-put_ne input.id _ (ground (arith, eq_iff input.id k))
  ]

  accept-Leased :
      (now : ℕ) (input : Queue.Input) → Leased k body attempts (Defs.accept now input q).1
  unfolding Defs.accept
  accept-Leased now input = elim (Option-cases (Dict.get q.archive input.id)) [
    | inr (kept, found) ↦ rw (found, Defs.accept) held
    | inl new ↦ elim (Option-cases (Dict.get q.pending input.id)) [
      | inl unknown ↦ rw (new, unknown, Defs.accept) (Leased-put_ne input.id _ (λ e. ground arith))
      | inr (job, found) ↦
          elim (Bool-cases
            (Queue.same_identity (Defs.job_identity job) (Queue.identity_of input))) [
              | inr other ↦ rw (new, found, other, Defs.accept) held
              | inl same ↦
                  rw (new, found, same, Defs.accept) (redelivered-Leased now input job found)
            ]
    ]
  ]

  enqueue-Leased :
      (now : ℕ) (input : Queue.Input) → Leased k body attempts (Defs.enqueue now input q).1
  unfolding Defs.enqueue
  enqueue-Leased now input = elim (Result-cases (Queue.validate_enqueue input)) [
    | inl (_, accepted) ↦ rw (accepted, Defs.enqueue) (accept-Leased now input)
    | inr (_, refused) ↦ rw (refused, Defs.enqueue) held
  ]

  settle-Leased :
      (now : ℕ) (o : Queue.Outcome) (job : Job) (id : String)
      → id ≢ k
      → Leased k body attempts (Defs.settle now o job id q)
  unfolding Defs.settle
  settle-Leased now (Queue.Outcome.retry result) job id other = Leased-put_ne id _ other
  settle-Leased now (Queue.Outcome.terminal result) job id other = record {
    job = held.job;
    there = ground (arith, Dict.get-delete q.pending id k, eq_iff id k);
    running = held.running;
    same_body = held.same_body;
    same_attempts = held.same_attempts;
  }

  finish-Leased :
      (now : ℕ) (o : Queue.Outcome) (id : String)
      → id ≢ k
      → Leased k body attempts (Defs.finish now id o q).1
  unfolding Defs.finish
  finish-Leased now o id other = elim (Option-cases (Dict.get q.pending id)) [
    | inl unknown ↦ rw (unknown, Defs.finish) held
    | inr (job, found) ↦ elim (Bool-cases (Queue.is_running job.state)) [
      | inl running ↦ rw (found, running, Defs.finish) (settle-Leased now o job id other)
      | inr idle ↦ rw (found, idle, Defs.finish) held
    ]
  ]

  claim-Leased : (clock : ℕ → ℕ) → IsValid q → Leased k body attempts (Defs.claim clock q).1
  unfolding Defs.claim
  claim-Leased clock v = elim (claim-Claims clock q v.distinct) [
    | inr (_, same) ↦ subst (λ m. Leased k body attempts (record q { pending = m })) (sym same) held
    | inl t ↦
        subst (λ m. Leased k body attempts (record q { pending = m })) (sym t.kept)
          (Leased-put_ne t.key (Defs.taken t.job) (λ e. ground (arith, held.there, t.there)))
  ]

run-Leased :
    (o : Op) (q : MemoryQueue) (k : String) (body : List ℕ) (attempts : ℕ)
    → IsValid q
    → Spares k o
    → Leased k body attempts q
    → Leased k body attempts (run o q)
unfolding run
run-Leased initialize q k body attempts v s held = absurd s
run-Leased (enqueue now input) q k body attempts v s held =
    enqueue-Leased q k body attempts held now input
run-Leased (claim clock) q k body attempts v s held = claim-Leased q k body attempts held clock v
run-Leased (finish now id o) q k body attempts v s held =
    finish-Leased q k body attempts held now o id s

run_all-Leased :
    (os : List Op) (q : MemoryQueue) (k : String) (body : List ℕ) (attempts : ℕ)
    → IsValid q
    → All (Spares k) os
    → Leased k body attempts q
    → Leased k body attempts (run_all os q)
unfolding run_all
run_all-Leased [] q k body attempts v s held = held
run_all-Leased (o ∷ os) q k body attempts v (s, ss) held =
    run_all-Leased os (run o q) k body attempts (run-IsValid o v) ss
      (run-Leased o q k body attempts v s held)

-- A running job is leased: through any calls but a restart and its own `finish`, new deliveries of
-- it included, it stays running with the body and the count of attempts that were claimed, and no
-- `claim` after them answers with it.
pub lease :
    (os : List Op) (clock : ℕ → ℕ) (q : MemoryQueue) (k : String) (body : List ℕ) (attempts : ℕ)
    → IsValid q
    → All (Spares k) os
    → Leased k body attempts q
    → Leased k body attempts (run_all os q)
      × ((c : Queue.Claimed) → (Defs.claim clock (run_all os q)).0 ≡ some c → c.id ≢ k)
lease os clock q k body attempts v s held =
    let later = run_all-Leased os q k body attempts v s held in
    (
      later,
      λ c answer. claim-ne_leased clock (run_all os q) k (run_all-IsValid os q v) later answer,
    )
