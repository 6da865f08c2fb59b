-- ===== src/Queue/Memory/Tests.antt =====
-- Runs of the queue in memory, and its theorems at concrete calls.
use xmcl_shared_node_agent.Base.{
  ℕ, ◌+◌, ◌≡◌, ◌≢◌, ◌↔◌, refl, String, List, [], ◌∷◌, some, none, All, true,
}
use mathlib.Core.Option
use xmcl_shared_node_agent.Base.Dict
use xmcl_shared_node_agent.Js.Text.{hex64}
use xmcl_shared_node_agent.Js.Value.{undefined}
use xmcl_shared_node_agent.Queue
use xmcl_shared_node_agent.Queue.{Input, Outcome, Claimed}
use xmcl_shared_node_agent.Queue.Memory.Defs
use xmcl_shared_node_agent.Queue.Memory.Defs.{Job, MemoryQueue}
use xmcl_shared_node_agent.Queue.Memory.Claim.{is_skipped, claim-none}
use xmcl_shared_node_agent.Queue.Memory.First.{Chooses, claim-Chooses}
use xmcl_shared_node_agent.Queue.Memory.Valid.{
  Op, initialize, enqueue, claim, finish, run, run_all, IsValid, empty_queue, IsValid-empty,
  run_all-IsValid, run-IsValid,
}
use xmcl_shared_node_agent.Queue.Memory.History.{
  is_known, Leased, run_all-archive, run_all-is_known, lease,
}
use xmcl_shared_node_agent.Queue.Memory.Phase.{phase, closed, events, move, moves, run_all-phase}
use xmcl_shared_node_agent.Queue.Memory.Redelivery.{Redelivers, redelivery-finish, stale_redelivery}

abbrev print : String
print = "0123456789abcdef0123456789abcdef0123456789abcdef0123456789abcdef"

abbrev delivery : List ℕ → Input
delivery body = record { id = "r1"; deployment_id = "d1"; job_fingerprint = print; body = body }

abbrev noon : ℕ → ℕ
noon k = 100

-- A job that is running while its second delivery has come.
abbrev busy_calls : List Op
busy_calls = enqueue 10 (delivery (1 ∷ [])) ∷ claim noon ∷ enqueue 20 (delivery (2 ∷ [])) ∷ []

abbrev start : MemoryQueue
start = empty_queue 10

abbrev busy_job : Job
busy_job = record {
  id = "r1";
  deployment_id = "d1";
  job_fingerprint = print;
  body = 1 ∷ [];
  redelivery_body = some (2 ∷ []);
  state = Queue.State.running;
  attempts = 1;
  next_attempt_at = 10;
  last_result = none;
  terminal_result = none;
}

abbrev queue_with : Job → MemoryQueue
queue_with job = record { retry_delay_ms = 10; pending = ("r1", job) ∷ []; archive = [] }

busy_lem : run_all busy_calls start ≡ queue_with busy_job
unfolding run_all run Defs.enqueue Defs.claim Defs.accept Queue.validate_enqueue
    Queue.assert_same_identity Queue.same_identity hex64 Dict.get Dict.put
busy_lem = refl

run_all-IsValid_example : IsValid (run_all busy_calls start)
run_all-IsValid_example = run_all-IsValid busy_calls start (IsValid-empty 10)

busy-IsValid : IsValid (queue_with busy_job)
busy-IsValid = rw busy_lem at run_all-IsValid_example

abbrev stale_job : Job
stale_job = record busy_job { state = Queue.State.pending }

stale_lem : run initialize (queue_with busy_job) ≡ queue_with stale_job
unfolding run Defs.initialize
stale_lem = refl

stale-IsValid : IsValid (queue_with stale_job)
stale-IsValid = rw stale_lem at (run_all-IsValid_one)
  where
    run_all-IsValid_one : IsValid (run initialize (queue_with busy_job))
    run_all-IsValid_one = run-IsValid initialize busy-IsValid

busy_there : Dict.get (queue_with busy_job).pending "r1" ≡ some busy_job
unfolding Dict.get
busy_there = refl

delivered :
    (body : List ℕ) (job : Job)
    → job.id ≡ "r1"
    → job.deployment_id ≡ "d1"
    → job.job_fingerprint ≡ print
    → Redelivers (delivery body) job (queue_with job)
unfolding Dict.get Queue.validate_enqueue hex64 Queue.same_identity
delivered body job i d f = record { formed = refl; there = refl; same = rw (i, d, f) refl }

redelivery-finish_example :
    (next : Job) × (Dict.get
        (Defs.finish 50 "r1"
          (Outcome.retry undefined)
          (Defs.enqueue 30 (delivery (3 ∷ [])) (queue_with busy_job)).1).1.pending
        "r1"
      ≡ some next)
    × (next.body ≡ 3 ∷ [])
    × (next.redelivery_body ≡ none)
    × (next.state ≡ Queue.State.retry)
    × (next.next_attempt_at ≡ 50 + Queue.retry_delay 10 1)
redelivery-finish_example =
    redelivery-finish 30 50 undefined (delivery (3 ∷ [])) busy_job (queue_with busy_job)
      busy-IsValid (delivered (3 ∷ []) busy_job refl refl refl) refl

third_claim :
    (Defs.claim noon (Defs.enqueue 40 (delivery (3 ∷ [])) (queue_with stale_job)).1).0
    ≡ some (record { id = "r1"; deployment_id = "d1"; body = 3 ∷ []; attempts = 2 })
unfolding Defs.enqueue Defs.claim Defs.accept Queue.validate_enqueue Queue.same_identity hex64
    Dict.get Dict.put
third_claim = refl

-- The second delivery comes back after the third has been tried.
stale_redelivery_example :
    (◌≡◌ {A = List ℕ} (3 ∷ []) (3 ∷ []))
    × (Option.map
          (λ j. j.body)
          (Dict.get
            (Defs.finish 60 "r1"
              (Outcome.retry undefined)
              (Defs.claim noon
                (Defs.enqueue 40 (delivery (3 ∷ [])) (queue_with stale_job)).1).1).1.pending
            "r1")
        ≡ some (2 ∷ []))
stale_redelivery_example =
    stale_redelivery 40 60 noon undefined (delivery (3 ∷ [])) stale_job (2 ∷ [])
      (record { id = "r1"; deployment_id = "d1"; body = 3 ∷ []; attempts = 2 })
      (queue_with stale_job) stale-IsValid (delivered (3 ∷ []) stale_job refl refl refl) refl refl
      third_claim refl

abbrev busy_lease : Leased "r1" (1 ∷ []) 1 (queue_with busy_job)
busy_lease = record {
  job = busy_job;
  there = busy_there;
  running = refl;
  same_body = refl;
  same_attempts = refl;
}

lease_example :
    Leased "r1"
      (1 ∷ [])
      1
      (run_all (enqueue 30 (delivery (3 ∷ [])) ∷ claim noon ∷ []) (queue_with busy_job))
    × ((c : Claimed)
        → (Defs.claim noon
            (run_all (enqueue 30 (delivery (3 ∷ [])) ∷ claim noon ∷ []) (queue_with busy_job))).0
          ≡ some c
        → c.id ≢ "r1")
lease_example =
    lease (enqueue 30 (delivery (3 ∷ [])) ∷ claim noon ∷ []) noon (queue_with busy_job) "r1"
      (1 ∷ []) 1 busy-IsValid (tt, (tt, tt)) busy_lease

-- The job when it is done.
abbrev done_job : Job
done_job = record busy_job { state = Queue.State.terminal; terminal_result = some undefined }

abbrev done : MemoryQueue
done = record { retry_delay_ms = 10; pending = []; archive = ("r1", done_job) ∷ [] }

done_lem : run (finish 70 "r1" (Outcome.terminal undefined)) (queue_with busy_job) ≡ done
unfolding run Defs.finish Dict.get Dict.put Dict.delete
done_lem = refl

done-IsValid : IsValid done
done-IsValid =
    rw done_lem at (run-IsValid (finish 70 "r1" (Outcome.terminal undefined)) busy-IsValid)

done_there : Dict.get done.archive "r1" ≡ some done_job
unfolding Dict.get
done_there = refl

run_all-archive_example :
    (Dict.get (run_all (enqueue 80 (delivery (4 ∷ [])) ∷ initialize ∷ []) done).archive "r1"
      ≡ some done_job)
    × (Dict.get (run_all (enqueue 80 (delivery (4 ∷ [])) ∷ initialize ∷ []) done).pending "r1"
        ≡ none)
run_all-archive_example =
    run_all-archive (enqueue 80 (delivery (4 ∷ [])) ∷ initialize ∷ []) done "r1" done_job
      done-IsValid done_there

run_all-is_known_example :
    is_known "r1" (run_all (finish 70 "r1" (Outcome.terminal undefined) ∷ []) (queue_with busy_job))
    ≡ true
run_all-is_known_example =
    run_all-is_known (finish 70 "r1" (Outcome.terminal undefined) ∷ []) (queue_with busy_job) "r1"
      busy-IsValid known
  where
    known : is_known "r1" (queue_with busy_job) ≡ true
    known = rw busy_there refl

claim-none_example :
    ((Defs.claim (λ _. 5) (queue_with busy_job)).0 ≡ none)
    ↔ All (λ e. is_skipped 5 e.1 ≡ true) (queue_with busy_job).pending
claim-none_example = claim-none 5 (queue_with busy_job)

claim-Chooses_example :
    Chooses noon (queue_with stale_job).pending (
      (Defs.claim noon (queue_with stale_job)).0,
      (Defs.claim noon (queue_with stale_job)).1.pending,
    )
claim-Chooses_example = claim-Chooses noon (queue_with stale_job)

-- A job that is sent, taken, sent again and settled.
abbrev whole_life : List Op
whole_life =
    enqueue 10 (delivery (1 ∷ [])) ∷ claim noon ∷ finish 30 "r1" (Outcome.terminal undefined) ∷ []

run_all-phase_example :
    phase "r1" (run_all whole_life start) ≡ moves (events whole_life start) "r1" (phase "r1" start)
run_all-phase_example = run_all-phase whole_life "r1" start (IsValid-empty 10)

-- It is done.
whole_life-done :
    moves (events whole_life start) "r1" (phase "r1" start)
    ≡ closed (record { id = "r1"; deployment_id = "d1"; job_fingerprint = print }) (some undefined)
unfolding moves move run Defs.enqueue Defs.claim Defs.accept Defs.finish Queue.validate_enqueue
    hex64 Dict.get Dict.put
whole_life-done = refl
