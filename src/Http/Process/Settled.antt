-- ===== src/Http/Process/Settled.antt =====
-- What becomes of a job whose attempt is over.
use xmcl_shared_node_agent.Base.{
  ℕ, String, ◌≡◌, refl, sym, ◌∙◌, ap, Bool, true, false, List, [], ◌∷◌, Option, some, arith, eq_iff,
  Bool-cases, Option-cases, inl, inr, if◌then◌else◌,
}
use xmcl_shared_node_agent.Base.Dict
use xmcl_shared_node_agent.Js.Value.{Value, get, plain_object}
use xmcl_shared_node_agent.Js.Host.{Host}
use xmcl_shared_node_agent.Js.Fault.{Fault, type_error, Result, ok, err, Result-cases}
use xmcl_shared_node_agent.Queue
use xmcl_shared_node_agent.Queue.Memory.Defs
use xmcl_shared_node_agent.Queue.Memory.Defs.{MemoryQueue}
use xmcl_shared_node_agent.Queue.Memory.Valid.{finish, run, IsValid}
use xmcl_shared_node_agent.Queue.Memory.Phase.{
  Phase, absent, waiting, at_work, closed, phase, settled, outcome_phase, move, run-phase,
}
use xmcl_shared_node_agent.Compiler.Exec.{Call, Log, publish, failed}
use xmcl_shared_node_agent.Compiler.Worker.Defs.{
  Checks, Outcome, published, published_callback_uncertain, upload_reconciliation_uncertain,
  failed_with,
}
use xmcl_shared_node_agent.Compiler.Worker.Order.{
  is_publish, some_call, IsPublished, Tells, run-Tells,
}
use xmcl_shared_node_agent.Http.Envelope.{parse_queued_envelope}
use xmcl_shared_node_agent.Http.Callbacks.{Callbacks}
use xmcl_shared_node_agent.Http.Control.{Outside, succeeded, delivered, bound_world}
use xmcl_shared_node_agent.Http.Process.{
  outcome_value, queue_retry, run_job, conclusion, attempt_queued, finish_or_retry, outcome_of,
  settle_attempt, process_queued,
}

-- The report of a failure.
abbrev pub is_report : Call → Bool
is_report (failed c) = true
is_report _ = false

-- Where nothing was published, what was delivered is a report.
delivered-report :
    (log : Log) → some_call is_publish log ≡ false → delivered log ≡ succeeded is_report log
unfolding succeeded
delivered-report [] h = refl
delivered-report ((c, good) ∷ log) h = ground (arith, delivered-report log)

-- A job at work after the outcome of its attempt: the queue is done with it, or it waits again.
finish_at_work :
    (now : ℕ) (id : String) (outcome : Queue.Outcome) (q : MemoryQueue) (i : Queue.Identity) (n : ℕ)
    → IsValid q
    → phase id q ≡ at_work i n
    → phase id (Defs.finish now id outcome q).1 ≡ outcome_phase outcome i n
unfolding run move
finish_at_work now id outcome q i n v h =
    run-phase (finish now id outcome) id q v
    ∙ ap (λ p. move (settled id outcome) id p) h
    ∙ ground (arith, eq_iff id id)

no_closed : {i k : Queue.Identity} {o : Option Value} {n : ℕ} → closed k o ≡ at_work i n → ⊥
no_closed h = cc

no_absent : {i : Queue.Identity} {n : ℕ} → absent ≡ at_work i n → ⊥
no_absent h = cc

no_waiting : {i k : Queue.Identity} {m n : ℕ} → waiting k m ≡ at_work i n → ⊥
no_waiting h = cc

-- `finish` takes the outcome of a job at work.
finish_ok :
    (now : ℕ) (id : String) (outcome : Queue.Outcome) (q : MemoryQueue) (i : Queue.Identity) (n : ℕ)
    → phase id q ≡ at_work i n
    → (Defs.finish now id outcome q).0 ≡ ok tt
unfolding Defs.finish
finish_ok now id outcome q i n h = elim (Option-cases (Dict.get q.archive id)) [
  | inr (job, kept) ↦ absurd (no_closed (rw kept at h))
  | inl new ↦ elim (Option-cases (Dict.get q.pending id)) [
    | inl unknown ↦ absurd (no_absent (rw (new, unknown) at h))
    | inr (job, found) ↦ elim (Bool-cases (Queue.is_running job.state)) [
      | inl running ↦ rw (found, running, Defs.finish) refl
      | inr idle ↦ absurd (no_waiting (rw (new, found, idle) at h))
    ]
  ]
]

module _ (host : Host) (checks : Checks) (callbacks : Callbacks) (outside : Outside) where
  finish_or_retry_ok :
      (now : ℕ) (id : String) (r : Result (Unit {0}) × MemoryQueue)
      → r.0 ≡ ok tt
      → finish_or_retry host checks callbacks outside now id r ≡ r.1
  finish_or_retry_ok now id (ok tt, q) h = refl
  finish_or_retry_ok now id (err e, q) h = cc

  -- The phase of a job at work after the run of its worker.
  abbrev pub phase_after : Value → Queue.Identity → ℕ → Outcome → Log → Phase
  phase_after job i n (published d) log = closed i (some (outcome_value job (published d)))
  phase_after job i n (failed_with code) log =
      if succeeded is_report log
      then closed i (some (outcome_value job (failed_with code)))
      else waiting i n
  phase_after job i n _ log = waiting i n

  published-delivered : (log : Log) → IsPublished true log → delivered log ≡ true
  unfolding succeeded
  published-delivered [] h = absurd h
  published-delivered ((publish p, good) ∷ log) h = ground arith
  published-delivered (_ ∷ log) h = absurd h

  conclusion_phase :
      (job : Value) (i : Queue.Identity) (n : ℕ) (outcome : Outcome) (log : Log)
      → Tells host checks (bound_world host job callbacks outside) job outcome log
      → outcome_phase
          (outcome_of host checks callbacks outside
            (conclusion host checks callbacks outside job (outcome, log)))
          i
          n
        ≡ phase_after job i n outcome log
  conclusion_phase job i n (published d) log (last, unreported) =
      rw (published-delivered log last) refl
  conclusion_phase job i n (published_callback_uncertain p) log tells =
      elim (Bool-cases (delivered log)) [ inl sent ↦ rw sent refl | inr unsent ↦ rw unsent refl ]
  conclusion_phase job i n (upload_reconciliation_uncertain p) log tells =
      elim (Bool-cases (delivered log)) [ inl sent ↦ rw sent refl | inr unsent ↦ rw unsent refl ]
  conclusion_phase job i n (failed_with code) log (unprepared, unpublished, reported) =
      rw (delivered-report log unpublished) (elim (Bool-cases (succeeded is_report log)) [
        | inl sent ↦ rw sent refl
        | inr unsent ↦ rw unsent refl
      ])

  abbrev pub envelope_phase : Value → Queue.Identity → ℕ → Phase
  envelope_phase job i n =
      if plain_object job
      then phase_after job i n (run_job host checks callbacks outside job).0
          (run_job host checks callbacks outside job).1
      else waiting i n

  -- The phase of a job at work after the attempt at a body that was parsed: that of the run of its
  -- worker where the body has a job in it, and otherwise that of a job that waits.
  abbrev pub attempt_phase : Result Value → Queue.Identity → ℕ → Phase
  attempt_phase (err e) i n = waiting i n
  attempt_phase (ok envelope) i n = envelope_phase (get envelope "job") i n

  attempt_unparsed :
      (body : List ℕ) (e : Fault)
      → parse_queued_envelope host body ≡ err e
      → attempt_queued host checks callbacks outside body ≡ err e
  unfolding attempt_queued
  attempt_unparsed body e h = rw h refl

  attempt_stray :
      (body : List ℕ) (envelope : Value)
      → parse_queued_envelope host body ≡ ok envelope
      → plain_object (get envelope "job") ≡ false
      → attempt_queued host checks callbacks outside body ≡ err type_error
  unfolding attempt_queued
  attempt_stray body envelope h stray = rw h (rw stray refl)

  attempt_runs :
      (body : List ℕ) (envelope : Value)
      → parse_queued_envelope host body ≡ ok envelope
      → plain_object (get envelope "job") ≡ true
      → attempt_queued host checks callbacks outside body
        ≡ ok (
            conclusion host checks callbacks outside
              (get envelope "job")
              (run_job host checks callbacks outside (get envelope "job")))
  unfolding attempt_queued
  attempt_runs body envelope h plain = rw h (rw plain refl)

  settle_attempt_ok :
      (now : ℕ) (id : String) (c : Value × Bool) (q : MemoryQueue) (i : Queue.Identity) (n : ℕ)
      → IsValid q
      → phase id q ≡ at_work i n
      → phase id (settle_attempt host checks callbacks outside now id (ok c) q)
        ≡ outcome_phase (outcome_of host checks callbacks outside c) i n
  settle_attempt_ok now id c q i n v h =
      ap (λ r. phase id r)
        (finish_or_retry_ok now id _
          (finish_ok now id (outcome_of host checks callbacks outside c) q i n h))
      ∙ finish_at_work now id (outcome_of host checks callbacks outside c) q i n v h

  settle_attempt_err :
      (now : ℕ) (id : String) (e : Fault) (q : MemoryQueue) (i : Queue.Identity) (n : ℕ)
      → IsValid q
      → phase id q ≡ at_work i n
      → phase id (settle_attempt host checks callbacks outside now id (err e) q) ≡ waiting i n
  settle_attempt_err now id e q i n v h =
      finish_at_work now id (Queue.Outcome.retry (queue_retry e)) q i n v h

  run_phase :
      (job : Value) (i : Queue.Identity) (n : ℕ)
      → outcome_phase
          (outcome_of host checks callbacks outside (
            conclusion host checks callbacks outside job
              (run_job host checks callbacks outside job)))
          i
          n
        ≡ phase_after job i n
            (run_job host checks callbacks outside job).0
            (run_job host checks callbacks outside job).1
  run_phase job i n =
      conclusion_phase job i n _ _
        (run-Tells host checks (bound_world host job callbacks outside) job)

  settle_parsed :
      (now : ℕ) (queued : Queue.Claimed) (q : MemoryQueue) (i : Queue.Identity) (n : ℕ)
      (envelope : Value)
      → IsValid q
      → phase queued.id q ≡ at_work i n
      → parse_queued_envelope host queued.body ≡ ok envelope
      → phase queued.id (
          settle_attempt host checks callbacks outside now queued.id
            (attempt_queued host checks callbacks outside queued.body)
            q)
        ≡ envelope_phase (get envelope "job") i n
  settle_parsed now queued q i n envelope v h good =
      elim (Bool-cases (plain_object (get envelope "job"))) [
        | inl plain ↦ rw (attempt_runs queued.body envelope good plain) (
            rw plain
              (settle_attempt_ok now queued.id _ q i n v h ∙ run_phase (get envelope "job") i n))
        | inr stray ↦
            rw (attempt_stray queued.body envelope good stray)
              (rw stray (settle_attempt_err now queued.id type_error q i n v h))
      ]

  -- An attempt at a job that is at work closes it with the deployment when it was published, and with
  -- the failure when the report of it succeeded; otherwise (a body that holds no job, an uncertain
  -- outcome, a failure whose report was lost) the job waits for its next attempt. The attempts so far
  -- are kept.
  pub process_queued-phase :
      (now : ℕ) (queued : Queue.Claimed) (q : MemoryQueue) (i : Queue.Identity) (n : ℕ)
      → IsValid q
      → phase queued.id q ≡ at_work i n
      → phase queued.id (process_queued host checks callbacks outside now queued q)
        ≡ attempt_phase (parse_queued_envelope host queued.body) i n
  unfolding process_queued
  process_queued-phase now queued q i n v h =
      elim (Result-cases (parse_queued_envelope host queued.body)) [
        | inl (envelope, good) ↦
            settle_parsed now queued q i n envelope v h good
            ∙ sym (ap (λ p. attempt_phase p i n) good)
        | inr (e, bad) ↦
            rw (attempt_unparsed queued.body e bad, bad)
              (settle_attempt_err now queued.id e q i n v h)
      ]
