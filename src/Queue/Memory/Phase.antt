-- ===== src/Queue/Memory/Phase.antt =====
-- What the queue in memory promises for each job: the phases that it goes through, of which the clock,
-- the bodies and the order of the records are no part.
use xmcl_shared_node_agent.Base.{
  ℕ, ◌+◌, ◌≡◌, refl, sym, ◌∙◌, ap, subst, inl, inr, String, true, false, List, [], ◌∷◌, Option,
  none, some, eq_iff, str_eq, Bool-cases, Option-cases, if◌then◌else◌,
}
use xmcl_shared_node_agent.Base.Dict
use xmcl_shared_node_agent.Base.Dict.{Dict}
use xmcl_shared_node_agent.Js.Value.{Value}
use xmcl_shared_node_agent.Js.Fault.{is_ok, Result-cases}
use xmcl_shared_node_agent.Queue
use xmcl_shared_node_agent.Queue.Memory.Defs
use xmcl_shared_node_agent.Queue.Memory.Defs.{Job, MemoryQueue}
use xmcl_shared_node_agent.Queue.Memory.Claim.{claim-Claims}
use xmcl_shared_node_agent.Queue.Memory.Valid.{
  Op, initialize, enqueue, claim, finish, run, run_all, IsValid, run-IsValid, get-restart_all,
}

-- A job that no one has sent, one that waits for its next attempt or is at it, with the attempts so
-- far, and one that is done, with its result.
pub data Phase : Type 0 where
  absent : Phase
  waiting : Queue.Identity → ℕ → Phase
  at_work : Queue.Identity → ℕ → Phase
  closed : Queue.Identity → Option Value → Phase

abbrev pub open_phase : Option Job → Phase
open_phase none = absent
open_phase (some job) =
    if Queue.is_running job.state
    then at_work (Defs.job_identity job) job.attempts
    else waiting (Defs.job_identity job) job.attempts

abbrev pub phase_of : Option Job → Option Job → Phase
phase_of archived pending = elim archived [
  | some job ↦ closed (Defs.job_identity job) job.terminal_result
  | none ↦ open_phase pending
]

-- The phase of an id.
abbrev pub phase : String → MemoryQueue → Phase
phase k q = phase_of (Dict.get q.archive k) (Dict.get q.pending k)

-- What a caller sees of a call.
pub data Event : Type 0 where
  restart : Event
  sent : Queue.Input → Event
  took : Option Queue.Claimed → Event
  settled : String → Queue.Outcome → Event

abbrev pub event : Op → MemoryQueue → Event
event initialize q = restart
event (enqueue now input) q = sent input
event (claim clock) q = took (Defs.claim clock q).0
event (finish now id outcome) q = settled id outcome

abbrev pub events : List Op → MemoryQueue → List Event
events [] q = []
events (o ∷ os) q = event o q ∷ events os (run o q)

abbrev pub outcome_phase : Queue.Outcome → Queue.Identity → ℕ → Phase
outcome_phase (Queue.Outcome.terminal result) i n = closed i (some result)
outcome_phase (Queue.Outcome.retry result) i n = waiting i n

-- The move of one job: it starts to wait when it is first sent in a valid form, is at work from the
-- `claim` that answers with it, waits again after a restart or a failed attempt, and is done with
-- the first final outcome.
abbrev pub restart_move : Phase → Phase
restart_move (at_work i n) = waiting i n
restart_move p = p

abbrev pub sent_move : Queue.Input → Phase → Phase
sent_move input absent = waiting (Queue.identity_of input) 0
sent_move input p = p

abbrev pub took_move : Phase → Phase
took_move (waiting i n) = at_work i (n + 1)
took_move p = p

abbrev pub settled_move : Queue.Outcome → Phase → Phase
settled_move outcome (at_work i n) = outcome_phase outcome i n
settled_move outcome p = p

unfoldable pub move : Event → String → Phase → Phase
move restart k p = restart_move p
move (sent input) k p =
    if is_ok (Queue.validate_enqueue input)
    then if str_eq input.id k then sent_move input p else p
    else p
move (took none) k p = p
move (took (some c)) k p = if str_eq c.id k then took_move p else p
move (settled id outcome) k p = if str_eq id k then settled_move outcome p else p

unfoldable pub moves : List Event → String → Phase → Phase
moves [] k p = p
moves (e ∷ es) k p = moves es k (move e k p)

module _ (k : String) (q : MemoryQueue) (v : IsValid q) where
  initialize-phase : phase k (Defs.initialize q) ≡ restart_move (phase k q)
  unfolding Defs.initialize Defs.restarted
  initialize-phase = elim (Option-cases (Dict.get q.archive k)) [
    | inr (job, kept) ↦ rw kept refl
    | inl new ↦ elim (Option-cases (Dict.get q.pending k)) [
      | inl unknown ↦ rw (new, get-restart_all q.pending k, unknown) refl
      | inr (job, found) ↦ elim (Bool-cases (Queue.is_running job.state)) [
        | inl running ↦ rw (new, get-restart_all q.pending k, found, running) refl
        | inr idle ↦ rw (new, get-restart_all q.pending k, found, idle) (rw idle refl)
      ]
    ]
  ]

  -- A record of another id leaves a phase alone, and one of this id takes it over.
  put_other :
      (id : String) (job : Job)
      → str_eq id k ≡ false
      → phase k (record q { pending = Dict.put q.pending id job }) ≡ phase k q
  put_other id job other =
      ap (λ o. phase_of (Dict.get q.archive k) o) (rw (Dict.get-put q.pending id job k, other) refl)

  put_same :
      (id : String) (job : Job)
      → str_eq id k ≡ true
      → Dict.get q.archive k ≡ none
      → phase k (record q { pending = Dict.put q.pending id job }) ≡ open_phase (some job)
  put_same id job same new = rw (new, Dict.get-put q.pending id job k, same) refl

  redelivered-phase :
      (now : ℕ) (input : Queue.Input) (job : Job)
      → open_phase (some (Defs.redelivered now input job)) ≡ open_phase (some job)
  unfolding Defs.redelivered
  redelivered-phase now input job = elim (Bool-cases (Queue.is_running job.state)) [
    | inl running ↦ rw running (rw running refl)
    | inr idle ↦ rw idle refl
  ]

  here : (id : String) → str_eq id k ≡ true → id ≡ k
  here id e = (eq_iff id k).0 e

  pending_phase :
      (job : Job)
      → Dict.get q.pending k ≡ some job
      → Dict.get q.archive k ≡ none
      → phase k q ≡ open_phase (some job)
  pending_phase job found new =
      ap (λ a. phase_of a (Dict.get q.pending k)) new ∙ ap (λ o. open_phase o) found

  sent_open :
      (input : Queue.Input) (job : Job)
      → sent_move input (open_phase (some job)) ≡ open_phase (some job)
  sent_open input job = elim (Bool-cases (Queue.is_running job.state)) [
    | inl running ↦ rw running refl
    | inr idle ↦ rw idle refl
  ]

  -- A job that is pending does not move when it is sent again.
  known_pending :
      (input : Queue.Input) (job : Job)
      → input.id ≡ k
      → Dict.get q.archive input.id ≡ none
      → Dict.get q.pending input.id ≡ some job
      → sent_move input (phase k q) ≡ phase k q
  known_pending input job same new found =
      let this =
        pending_phase job (subst (λ s. Dict.get q.pending s ≡ some job) same found)
          (subst (λ s. Dict.get q.archive s ≡ none) same new) in
      ap (λ p. sent_move input p) this ∙ sent_open input job ∙ sym this

  accept-phase :
      (now : ℕ) (input : Queue.Input)
      → phase k (Defs.accept now input q).1
        ≡ (if str_eq input.id k then sent_move input (phase k q) else phase k q)
  unfolding Defs.accept
  accept-phase now input = elim (Option-cases (Dict.get q.archive input.id)) [
    | inr (kept, found) ↦ elim (Bool-cases (str_eq input.id k)) [
      | inr other ↦ rw (found, other, Defs.accept) refl
      | inl same ↦
          let found_k : Dict.get q.archive k ≡ some kept =
            subst (λ s. Dict.get q.archive s ≡ some kept) (here input.id same) found in
          rw (found, same, Defs.accept) (rw found_k refl)
    ]
    | inl new ↦ elim (Option-cases (Dict.get q.pending input.id)) [
      | inl unknown ↦ elim (Bool-cases (str_eq input.id k)) [
        | inr other ↦
            rw (new, unknown, other, Defs.accept) (put_other input.id (Defs.fresh now input) other)
        | inl same ↦
            let new_k : Dict.get q.archive k ≡ none =
              subst (λ s. Dict.get q.archive s ≡ none) (here input.id same) new in
            let unknown_k : Dict.get q.pending k ≡ none =
              subst (λ s. Dict.get q.pending s ≡ none) (here input.id same) unknown in
            rw (new, unknown, same, Defs.accept)
              (put_same input.id (Defs.fresh now input) same new_k
                ∙ sym (
                    ap (λ p. sent_move input p)
                      (ap (λ a. phase_of a (Dict.get q.pending k)) new_k
                        ∙ ap (λ o. open_phase o) unknown_k)))
      ]
      | inr (job, found) ↦
          elim (Bool-cases
            (Queue.same_identity (Defs.job_identity job) (Queue.identity_of input))) [
              | inr differs ↦ elim (Bool-cases (str_eq input.id k)) [
                | inr other ↦ rw (new, found, differs, other, Defs.accept) refl
                | inl same ↦
                    rw (new, found, differs, same, Defs.accept)
                      (sym (known_pending input job (here input.id same) new found))
              ]
              | inl agrees ↦ elim (Bool-cases (str_eq input.id k)) [
                | inr other ↦
                    rw (new, found, agrees, other, Defs.accept)
                      (put_other input.id (Defs.redelivered now input job) other)
                | inl same ↦
                    let new_k : Dict.get q.archive k ≡ none =
                      subst (λ s. Dict.get q.archive s ≡ none) (here input.id same) new in
                    rw (new, found, agrees, same, Defs.accept)
                      (put_same input.id (Defs.redelivered now input job) same new_k
                        ∙ redelivered-phase now input job
                        ∙ sym (
                            pending_phase job
                              (subst (λ s. Dict.get q.pending s ≡ some job) (here input.id same)
                                found)
                              new_k)
                        ∙ sym (known_pending input job (here input.id same) new found))
              ]
            ]
    ]
  ]

  enqueue-phase :
      (now : ℕ) (input : Queue.Input)
      → phase k (Defs.enqueue now input q).1 ≡ move (sent input) k (phase k q)
  unfolding Defs.enqueue move
  enqueue-phase now input = elim (Result-cases (Queue.validate_enqueue input)) [
    | inl (_, valid) ↦ rw (valid, Defs.enqueue, move) (accept-phase now input)
    | inr (_, refused) ↦ rw (refused, Defs.enqueue, move) refl
  ]

  taken-phase :
      (job : Job)
      → Queue.is_running job.state ≡ false
      → open_phase (some (Defs.taken job)) ≡ took_move (open_phase (some job))
  taken-phase job idle = rw idle refl

  took_lem :
      (clock : ℕ → ℕ)
      → phase k (Defs.claim clock q).1 ≡ move (took (Defs.claim clock q).0) k (phase k q)
  unfolding move Defs.claim
  took_lem clock = elim (claim-Claims clock q v.distinct) [
    | inr (no_one, same) ↦
        rw (no_one, move) (ap (λ o. phase_of (Dict.get q.archive k) (Dict.get o k)) same)
    | inl t ↦
        let keyed : t.job.id ≡ t.key = (v.live t.key t.job t.there).keyed in
        let new = v.apart t.key t.job t.there in
        let put = record q { pending = Dict.put q.pending t.key (Defs.taken t.job) } in
        let after : phase k (Defs.claim clock q).1 ≡ phase k put =
          ap (λ o. phase_of (Dict.get q.archive k) (Dict.get o k)) t.kept in
        elim (Bool-cases (str_eq t.key k)) [
          | inr other ↦
              rw (t.answer, move, keyed, other) (after ∙ put_other t.key (Defs.taken t.job) other)
          | inl same ↦
              let this =
                pending_phase t.job
                  (subst (λ s. Dict.get q.pending s ≡ some t.job) (here t.key same) t.there)
                  (subst (λ s. Dict.get q.archive s ≡ none) (here t.key same) new) in
              rw (t.answer, move, keyed, same)
                (after
                  ∙ put_same t.key (Defs.taken t.job) same
                      (subst (λ s. Dict.get q.archive s ≡ none) (here t.key same) new)
                  ∙ taken-phase t.job t.idle
                  ∙ sym (ap (λ p. took_move p) this))
        ]
  ]

  at_work_phase :
      (job : Job)
      → Queue.is_running job.state ≡ true
      → open_phase (some job) ≡ at_work (Defs.job_identity job) job.attempts
  at_work_phase job running = rw running refl

  retried-phase :
      (now : ℕ) (result : Value) (job : Job)
      → open_phase (some (Defs.retried now q.retry_delay_ms result job))
        ≡ waiting (Defs.job_identity job) job.attempts
  unfolding Defs.retried
  retried-phase now result job = refl

  outcome-phase :
      (now : ℕ) (id : String) (outcome : Queue.Outcome) (job : Job)
      → Dict.get q.pending id ≡ some job
      → Queue.is_running job.state ≡ true
      → phase k (Defs.settle now outcome job id q) ≡ move (settled id outcome) k (phase k q)
  unfolding Defs.settle move
  outcome-phase now id (Queue.Outcome.retry result) job found running =
      elim (Bool-cases (str_eq id k)) [
        | inr other ↦ rw other (put_other id (Defs.retried now q.retry_delay_ms result job) other)
        | inl same ↦
            let found_k : Dict.get q.pending k ≡ some job =
              subst (λ s. Dict.get q.pending s ≡ some job) (here id same) found in
            let this =
              pending_phase job found_k (v.apart k job found_k) ∙ at_work_phase job running in
            rw same (
              put_same id (Defs.retried now q.retry_delay_ms result job) same
                (v.apart k job found_k)
              ∙ retried-phase now result job
              ∙ sym (ap (λ p. settled_move (Queue.Outcome.retry result) p) this))
      ]
  outcome-phase now id (Queue.Outcome.terminal result) job found running =
      elim (Bool-cases (str_eq id k)) [
        | inr other ↦
            rw
              (
                Dict.get-put q.archive id (Defs.finished result job) k,
                Dict.get-delete q.pending id k,
                other,
              )
              refl
        | inl same ↦
            let found_k : Dict.get q.pending k ≡ some job =
              subst (λ s. Dict.get q.pending s ≡ some job) (here id same) found in
            let this =
              pending_phase job found_k (v.apart k job found_k) ∙ at_work_phase job running in
            rw (Dict.get-put q.archive id (Defs.finished result job) k, same)
              (sym (ap (λ p. settled_move (Queue.Outcome.terminal result) p) this))
      ]

  idle_phase :
      (outcome : Queue.Outcome) (job : Job)
      → Queue.is_running job.state ≡ false
      → settled_move outcome (open_phase (some job)) ≡ open_phase (some job)
  idle_phase outcome job idle = rw idle refl

  unknown_phase :
      (outcome : Queue.Outcome)
      → Dict.get q.pending k ≡ none
      → settled_move outcome (phase k q) ≡ phase k q
  unknown_phase outcome unknown = elim (Option-cases (Dict.get q.archive k)) [
    | inl new ↦ rw (new, unknown) refl
    | inr (job, kept) ↦ rw kept refl
  ]

  settled_lem :
      (now : ℕ) (id : String) (outcome : Queue.Outcome)
      → phase k (Defs.finish now id outcome q).1 ≡ move (settled id outcome) k (phase k q)
  unfolding Defs.finish move
  settled_lem now id outcome = elim (Option-cases (Dict.get q.pending id)) [
    | inl unknown ↦ elim (Bool-cases (str_eq id k)) [
      | inr other ↦ rw (unknown, other, Defs.finish) refl
      | inl same ↦
          rw (unknown, same, Defs.finish)
            (sym (
              unknown_phase outcome
                (subst (λ s. Dict.get q.pending s ≡ none) (here id same) unknown)))
    ]
    | inr (job, found) ↦ elim (Bool-cases (Queue.is_running job.state)) [
      | inl running ↦
          rw (found, running, Defs.finish) (outcome-phase now id outcome job found running)
      | inr idle ↦ elim (Bool-cases (str_eq id k)) [
        | inr other ↦ rw (found, idle, other, Defs.finish) refl
        | inl same ↦
            let found_k : Dict.get q.pending k ≡ some job =
              subst (λ s. Dict.get q.pending s ≡ some job) (here id same) found in
            let this = pending_phase job found_k (v.apart k job found_k) in
            rw (found, idle, same, Defs.finish)
              (this
                ∙ sym (idle_phase outcome job idle)
                ∙ sym (ap (λ p. settled_move outcome p) this))
      ]
    ]
  ]

pub run-phase :
    (o : Op) (k : String) (q : MemoryQueue)
    → IsValid q
    → phase k (run o q) ≡ move (event o q) k (phase k q)
unfolding run move
run-phase initialize k q v = initialize-phase k q v
run-phase (enqueue now input) k q v = unfold move in enqueue-phase k q v now input
run-phase (claim clock) k q v = unfold move in took_lem k q v clock
run-phase (finish now id outcome) k q v = unfold move in settled_lem k q v now id outcome

-- The queue refines the phases of its jobs: after every sequence of calls each job is in the phase
-- that the events which a caller sees lead it to, and in no other. Times, bodies and the other
-- jobs have no part in that.
pub run_all-phase :
    (os : List Op) (k : String) (q : MemoryQueue)
    → IsValid q
    → phase k (run_all os q) ≡ moves (events os q) k (phase k q)
unfolding run_all moves
run_all-phase [] k q v = refl
run_all-phase (o ∷ os) k q v =
    run_all-phase os k (run o q) (run-IsValid o v)
    ∙ ap (λ p. moves (events os (run o q)) k p) (run-phase o k q v)
