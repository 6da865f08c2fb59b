-- ===== src/Queue/Memory/Valid.antt =====
-- The invariant of the queue in memory, over every sequence of operations.
use mathlib.Core.Option
use xmcl_shared_node_agent.Base.{
  ℕ, ◌≡◌, refl, subst, sym, inl, inr, String, List, [], ◌∷◌, none, some, ◌≢◌, arith, eq_iff,
  Bool-cases, Option-cases,
}
use xmcl_shared_node_agent.Base.Dict
use xmcl_shared_node_agent.Base.Dict.{Dict}
use xmcl_shared_node_agent.Base.Dict.Distinct.{Distinct, put-Distinct, delete-Distinct}
use xmcl_shared_node_agent.Js.Fault.{Result-cases}
use xmcl_shared_node_agent.Queue
use xmcl_shared_node_agent.Queue.Memory.Defs
use xmcl_shared_node_agent.Queue.Memory.Defs.{Job, MemoryQueue, restarted, restart_all}
use xmcl_shared_node_agent.Queue.Memory.Claim.{claim-Claims}

-- A call of an operation, with what it reads.
pub data Op : Type 0 where
  initialize : Op
  enqueue : ℕ → Queue.Input → Op
  claim : (ℕ → ℕ) → Op
  finish : ℕ → String → Queue.Outcome → Op

-- The queue after the call, whether it returns or throws.
unfoldable pub run : Op → MemoryQueue → MemoryQueue
run initialize q = Defs.initialize q
run (enqueue now input) q = (Defs.enqueue now input q).1
run (claim clock) q = (Defs.claim clock q).1
run (finish now id outcome) q = (Defs.finish now id outcome q).1

unfoldable pub run_all : List Op → MemoryQueue → MemoryQueue
run_all [] q = q
run_all (o ∷ os) q = run_all os (run o q)

-- A record of `pending` under its key.
pub record IsLive (k : String) (job : Job) : Type 0 where
  pub keyed : job.id ≡ k
  pub open_state : job.state ≢ Queue.State.terminal

pub record IsArchived (k : String) (job : Job) : Type 0 where
  pub keyed : job.id ≡ k
  pub shut_state : job.state ≡ Queue.State.terminal

pub record IsValid (q : MemoryQueue) : Type 0 where
  pub distinct : Distinct q.pending
  pub live : (k : String) (job : Job) → Dict.get q.pending k ≡ some job → IsLive k job
  pub archived : (k : String) (job : Job) → Dict.get q.archive k ≡ some job → IsArchived k job
  pub apart :
      (k : String) (job : Job) → Dict.get q.pending k ≡ some job → Dict.get q.archive k ≡ none

pub put-IsValid :
    {q : MemoryQueue} (k : String) (job : Job)
    → IsValid q
    → Dict.get q.archive k ≡ none
    → IsLive k job
    → IsValid (record q { pending = Dict.put q.pending k job })
put-IsValid {q} k job v new live = record {
  distinct = put-Distinct q.pending k job v.distinct;
  live = λ j other h. ground (arith, Dict.get-put q.pending k job j, eq_iff k j, v.live j other);
  archived = v.archived;
  apart = λ j other h. ground (arith, Dict.get-put q.pending k job j, eq_iff k j, v.apart j other);
}

pub get-restart_all :
    (m : Dict Job) (k : String) → Dict.get (restart_all m) k ≡ Option.map restarted (Dict.get m k)
unfolding Dict.get restart_all
get-restart_all [] k = refl
get-restart_all ((j, job) ∷ m) k = ground (arith, get-restart_all m k)

restart_all-Distinct : (m : Dict Job) → Distinct m → Distinct (restart_all m)
unfolding restart_all
restart_all-Distinct [] h = tt
restart_all-Distinct ((j, job) ∷ m) (new, h) =
    ground (arith, get-restart_all m j, restart_all-Distinct m h)

initialize-IsValid : {q : MemoryQueue} → IsValid q → IsValid (Defs.initialize q)
unfolding Defs.initialize restarted
initialize-IsValid {q} v = record {
  distinct = restart_all-Distinct q.pending v.distinct;
  live = λ k job h. elim (Option-cases (Dict.get q.pending k)) [
    | inl missing ↦ ground (arith, get-restart_all q.pending k)
    | inr (old, found) ↦ ground (arith, get-restart_all q.pending k, v.live k old)
  ];
  archived = v.archived;
  apart = λ k job h. elim (Option-cases (Dict.get q.pending k)) [
    | inl missing ↦ ground (arith, get-restart_all q.pending k)
    | inr (old, found) ↦ v.apart k old found
  ];
}

redelivered-IsLive :
    {k : String} (now : ℕ) (input : Queue.Input) (job : Job)
    → IsLive k job
    → IsLive k (Defs.redelivered now input job)
unfolding Defs.redelivered
redelivered-IsLive now input job live = record {
  keyed = ground (arith, live.keyed);
  open_state = ground (arith, live.open_state);
}

accept-IsValid :
    {q : MemoryQueue} (now : ℕ) (input : Queue.Input)
    → IsValid q
    → IsValid (Defs.accept now input q).1
unfolding Defs.accept
accept-IsValid {q} now input v = elim (Option-cases (Dict.get q.archive input.id)) [
  | inr (kept, found) ↦ rw (found, Defs.accept) v
  | inl new ↦ elim (Option-cases (Dict.get q.pending input.id)) [
    | inl unknown ↦
        rw (new, unknown, Defs.accept)
          (put-IsValid input.id (Defs.fresh now input) v new
            (record { keyed = refl; open_state = λ e. cc }))
    | inr (job, found) ↦
        elim (Bool-cases (Queue.same_identity (Defs.job_identity job) (Queue.identity_of input))) [
          | inr other ↦ rw (new, found, other, Defs.accept) v
          | inl same ↦
              rw (new, found, same, Defs.accept)
                (put-IsValid input.id (Defs.redelivered now input job) v new
                  (redelivered-IsLive now input job (v.live input.id job found)))
        ]
  ]
]

pub enqueue-IsValid :
    {q : MemoryQueue} (now : ℕ) (input : Queue.Input)
    → IsValid q
    → IsValid (Defs.enqueue now input q).1
unfolding Defs.enqueue
enqueue-IsValid {q} now input v = elim (Result-cases (Queue.validate_enqueue input)) [
  | inl (_, accepted) ↦ rw (accepted, Defs.enqueue) (accept-IsValid now input v)
  | inr (_, refused) ↦ rw (refused, Defs.enqueue) v
]

pub claim-IsValid : {q : MemoryQueue} (clock : ℕ → ℕ) → IsValid q → IsValid (Defs.claim clock q).1
unfolding Defs.claim
claim-IsValid {q} clock v = elim (claim-Claims clock q v.distinct) [
  | inr (_, same) ↦ subst (λ m. IsValid (record q { pending = m })) (sym same) v
  | inl t ↦
      subst (λ m. IsValid (record q { pending = m })) (sym t.kept)
        (put-IsValid t.key (Defs.taken t.job) v (v.apart t.key t.job t.there)
          (record { keyed = (v.live t.key t.job t.there).keyed; open_state = λ e. cc }))
]

settle-IsValid :
    {q : MemoryQueue} (now : ℕ) (o : Queue.Outcome) (job : Job) (id : String)
    → IsValid q
    → Dict.get q.pending id ≡ some job
    → IsValid (Defs.settle now o job id q)
unfolding Defs.settle Defs.retried
settle-IsValid {q} now (Queue.Outcome.retry result) job id v found =
    put-IsValid id _ v (v.apart id job found)
      (record { keyed = (v.live id job found).keyed; open_state = λ e. cc })
settle-IsValid {q} now (Queue.Outcome.terminal result) job id v found = record {
  distinct = delete-Distinct q.pending id v.distinct;
  live = λ j other h. ground (arith, Dict.get-delete q.pending id j, eq_iff id j, v.live j other);
  archived = λ j other h. ground (
    arith,
    Dict.get-put q.archive id (Defs.finished result job) j,
    eq_iff id j,
    v.archived j other,
    v.live id job,
  );
  apart = λ j other h. ground (
    arith,
    Dict.get-put q.archive id (Defs.finished result job) j,
    Dict.get-delete q.pending id j,
    eq_iff id j,
    v.apart j other,
  );
}

finish-IsValid :
    {q : MemoryQueue} (now : ℕ) (id : String) (o : Queue.Outcome)
    → IsValid q
    → IsValid (Defs.finish now id o q).1
unfolding Defs.finish
finish-IsValid {q} now id o v = elim (Option-cases (Dict.get q.pending id)) [
  | inl unknown ↦ rw (unknown, Defs.finish) v
  | inr (job, found) ↦ elim (Bool-cases (Queue.is_running job.state)) [
    | inl running ↦ rw (found, running, Defs.finish) (settle-IsValid now o job id v found)
    | inr idle ↦ rw (found, idle, Defs.finish) v
  ]
]

pub run-IsValid : (o : Op) {q : MemoryQueue} → IsValid q → IsValid (run o q)
unfolding run
run-IsValid initialize v = initialize-IsValid v
run-IsValid (enqueue now input) v = enqueue-IsValid now input v
run-IsValid (claim clock) v = claim-IsValid clock v
run-IsValid (finish now id outcome) v = finish-IsValid now id outcome v

-- Every sequence of calls, failing ones included, keeps the invariant: no id is both pending and
-- archived, every record stands under its own id, none of the pending ones is terminal, and all of
-- the archived ones are.
pub run_all-IsValid : (os : List Op) (q : MemoryQueue) → IsValid q → IsValid (run_all os q)
unfolding run_all
run_all-IsValid [] q v = v
run_all-IsValid (o ∷ os) q v = run_all-IsValid os (run o q) (run-IsValid o v)

abbrev pub empty_queue : ℕ → MemoryQueue
empty_queue base = record { retry_delay_ms = base; pending = []; archive = [] }

pub IsValid-empty : (base : ℕ) → IsValid (empty_queue base)
IsValid-empty base = record {
  distinct = tt;
  live = λ k job h. cc (Dict.get-empty {V = Job} k);
  archived = λ k job h. cc (Dict.get-empty {V = Job} k);
  apart = λ k job h. cc (Dict.get-empty {V = Job} k);
}
