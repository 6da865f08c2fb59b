-- ===== src/Http/Consume/Accepted.antt =====
-- What an accepted delivery means.
use xmcl_shared_node_agent.Base.{
  ℕ, String, Option, none, some, sym, ap, ◌∙◌, and-left, and-right, ◌≡◌, refl, Bool, true, List,
  arith, Bool-cases, inl, inr, ◌⊎◌, Option-cases, eq_iff,
}
use xmcl_shared_node_agent.Base.Int.{pos}
use xmcl_shared_node_agent.Base.Dict
use xmcl_shared_node_agent.Js.Value.{Value, str, get}
use xmcl_shared_node_agent.Js.Host.{Host}
use xmcl_shared_node_agent.Js.Fault.{Fault, Result, ok, err, Result-cases, http_error}
use xmcl_shared_node_agent.Queue
use xmcl_shared_node_agent.Queue.{Input}
use xmcl_shared_node_agent.Queue.Memory.Defs
use xmcl_shared_node_agent.Queue.Memory.Defs.{MemoryQueue}
use xmcl_shared_node_agent.Queue.Memory.Sent.{Holds, enqueue-Holds}
use xmcl_shared_node_agent.Http.Envelope.{parse_envelope}
use xmcl_shared_node_agent.Http.Envelope.Valid.{IsEnvelope, parse_envelope-IsEnvelope}
use xmcl_shared_node_agent.Compiler.Job.{text}
use xmcl_shared_node_agent.Http.Consume.{
  HttpRequest, Worker, queue_input, enqueued, consume_envelope, consume, is_delivery, is_target,
  compiler_unavailable,
}

accept-refused :
    (now : ℕ) (input : Input) (q : MemoryQueue) (e : Fault)
    → (Defs.accept now input q).0 ≡ err e
    → (Defs.accept now input q).1 ≡ q
unfolding Defs.accept
accept-refused now input q e h = elim (Option-cases (Dict.get q.archive input.id)) [
  | inr (kept, found) ↦ ground arith
  | inl new ↦ elim (Option-cases (Dict.get q.pending input.id)) [
    | inl unknown ↦ ground arith
    | inr (job, found) ↦ ground arith
  ]
]

enqueue-refused :
    (now : ℕ) (input : Input) (q : MemoryQueue) (e : Fault)
    → (Defs.enqueue now input q).0 ≡ err e
    → (Defs.enqueue now input q).1 ≡ q
unfolding Defs.enqueue
enqueue-refused now input q e h = elim (Result-cases (Queue.validate_enqueue input)) [
  | inr (f, refused) ↦ ground arith
  | inl (u, formed) ↦
      rw (formed, Defs.enqueue) (accept-refused now input q e (rw (formed, Defs.enqueue) at h))
]

module _ (host : Host) (now : ℕ) where
  -- The entry of the queue is that of an envelope: its ids, the digest of its job, the raw body.
  pub record IsEntry (envelope : Value) (body : List ℕ) (input : Input) : Type 0 where
    pub id : get envelope "requestId" ≡ str input.id
    pub deployment : get (get envelope "job") "deploymentId" ≡ str input.deployment_id
    pub fingerprint : input.job_fingerprint ≡ host.sha256 (host.print_json (get envelope "job"))
    pub raw : input.body ≡ body

  queue_input-IsEntry :
      (envelope : Value) (body : List ℕ)
      → IsEnvelope host body (pos now) envelope
      → IsEntry envelope body (queue_input host envelope body)
  unfolding queue_input
  queue_input-IsEntry envelope body e = record {
    id = e.named ∙ ap (λ v. str (text v)) (sym e.named);
    deployment = e.job.deployment.same ∙ ap (λ v. str (text v)) (sym e.job.deployment.same);
    fingerprint = refl;
    raw = refl;
  }

  -- What stands behind a delivery that is taken with an answer, the queue after it being `after`.
  pub record IsAccepted (r : HttpRequest) (body : List ℕ) (w : Worker) (answer : Value)
      (after : MemoryQueue) : Type 0 where
    pub envelope : Value
    pub composed : w.ready ≡ true
    pub posted : r.method ≡ "POST"
    pub target : r.target ≡ some "/v1/compiler-jobs"
    pub verified : w.verify r body ≡ ok tt
    pub parsed : IsEnvelope host body (pos now) envelope
    pub answered : answer ≡ get (get envelope "job") "deploymentId"
    pub input : Input
    pub entry : IsEntry envelope body input
    pub held : Holds now input w.queue after

  is_target-same : (o : Option String) (path : String) → is_target o path ≡ true → o ≡ some path
  is_target-same none path h = cc
  is_target-same (some t) path h = ap some ((eq_iff t path).0 h)

  enqueued-ok :
      (envelope v : Value) (x : Result Bool × MemoryQueue)
      → (enqueued envelope x).0 ≡ ok v
      → (duplicate : Bool) × (x.0 ≡ ok duplicate)
        × ((enqueued envelope x).1 ≡ x.1)
        × (v ≡ get (get envelope "job") "deploymentId")
  enqueued-ok envelope v (ok duplicate, q) h = (duplicate, refl, refl, ground arith)
  enqueued-ok envelope v (err e, q) h = cc

  enqueued-err :
      (envelope : Value) (f : Fault) (x : Result Bool × MemoryQueue)
      → (enqueued envelope x).0 ≡ err f
      → (e : Fault) × (x.0 ≡ err e) × ((enqueued envelope x).1 ≡ x.1)
  enqueued-err envelope f (ok duplicate, q) h = cc
  enqueued-err envelope f (err e, q) h = (e, refl, refl)

  consume_envelope-ok :
      (body : List ℕ) (q : MemoryQueue) (v : Value)
      → (consume_envelope host now body q).0 ≡ ok v
      → (envelope : Value) × (parse_envelope host body (pos now) ≡ ok envelope)
        × (v ≡ get (get envelope "job") "deploymentId")
        × Holds now (queue_input host envelope body) q (consume_envelope host now body q).1
  unfolding consume_envelope
  consume_envelope-ok body q v h = elim (Result-cases (parse_envelope host body (pos now))) [
    | inr (e, bad) ↦ ground arith
    | inl (envelope, parsed) ↦
        let input = queue_input host envelope body in
        let (duplicate, taken, same, answered) =
          enqueued-ok envelope v (Defs.enqueue now input q) (rw (parsed, consume_envelope) at h) in
        (
          envelope,
          parsed,
          answered,
          rw (parsed, consume_envelope, same) (enqueue-Holds now input q duplicate taken),
        )
  ]

  consume_envelope-refused :
      (body : List ℕ) (q : MemoryQueue) (e : Fault)
      → (consume_envelope host now body q).0 ≡ err e
      → (consume_envelope host now body q).1 ≡ q
  unfolding consume_envelope
  consume_envelope-refused body q e h = elim (Result-cases (parse_envelope host body (pos now))) [
    | inr (f, bad) ↦ rw (bad, consume_envelope) refl
    | inl (envelope, parsed) ↦
        let input = queue_input host envelope body in
        let (f, failed, same) =
          enqueued-err envelope e (Defs.enqueue now input q) (rw (parsed, consume_envelope) at h) in
        rw (parsed, consume_envelope, same) (enqueue-refused now input q f failed)
  ]

  consume-verified :
      (r : HttpRequest) (body : List ℕ) (w : Worker)
      → w.ready ≡ true
      → is_delivery r ≡ true
      → w.verify r body ≡ ok tt
      → consume host now r body w ≡ consume_envelope host now body w.queue
  unfolding consume
  consume-verified r body w up asked verified = rw (up, asked, verified, consume) refl

  -- A call of `consume` that comes to the envelope, or one that is refused before.
  consume-cases :
      (r : HttpRequest) (body : List ℕ) (w : Worker)
      → ((w.ready ≡ true) × (is_delivery r ≡ true) × (w.verify r body ≡ ok tt))
        ⊎ ((e : Fault) × (consume host now r body w ≡ (err e, w.queue)))
  unfolding consume
  consume-cases r body w = elim (Bool-cases w.ready) [
    | inr down ↦ inr (compiler_unavailable, rw (down, consume) refl)
    | inl up ↦ elim (Bool-cases (is_delivery r)) [
      | inr other ↦ inr (http_error 400 "invalid_request", rw (up, other, consume) refl)
      | inl asked ↦ elim (Result-cases (w.verify r body)) [
        | inr (e, bad) ↦
            inr (http_error 401 "request_unauthorized", rw (up, asked, bad, consume) refl)
        | inl (u, verified) ↦ inl (up, asked, verified)
      ]
    ]
  ]

  -- `consume` returns without an error only if the worker is composed, the request is a POST to the
  -- path of jobs, its raw body was verified for the caller, and it parses to an envelope that names one
  -- request throughout, was issued at most a minute ahead of this time, expires after it, lasts five
  -- minutes at most and has a job that names its own objects only. It answers with the deployment of that job. The queue then
  -- holds a job under the envelope's ids and the digest of its job: in the archive as it was before,
  -- or pending, where the raw body waits beside a running attempt or is due at once.
  pub consume-IsAccepted :
      (r : HttpRequest) (body : List ℕ) (w : Worker) (v : Value)
      → (consume host now r body w).0 ≡ ok v
      → IsAccepted r body w v (consume host now r body w).1
  consume-IsAccepted r body w v h = elim (consume-cases r body w) [
    | inr (e, refused) ↦ absurd (err-ne e (rw refused at h))
    | inl (up, asked, verified) ↦
        let same = consume-verified r body w up asked verified in
        let (envelope, parsed, answered, held) =
          consume_envelope-ok body w.queue v (rw same at h) in
        let valid = parse_envelope-IsEnvelope host body (pos now) envelope parsed in
        record {
          envelope = envelope;
          composed = up;
          posted = (eq_iff r.method "POST").0 (and-left _ _ asked);
          target = is_target-same r.target "/v1/compiler-jobs" (and-right _ _ asked);
          verified = verified;
          parsed = valid;
          answered = answered;
          input = queue_input host envelope body;
          entry = queue_input-IsEntry envelope body valid;
          held = rw same held;
        }
  ]
    where
      err-ne : (e : Fault) → err e ≡ ok v → ⊥
      err-ne e same = cc

  -- A delivery that `consume` refuses, for whatever reason, leaves the queue as it was.
  pub consume-refused :
      (r : HttpRequest) (body : List ℕ) (w : Worker) (e : Fault)
      → (consume host now r body w).0 ≡ err e
      → (consume host now r body w).1 ≡ w.queue
  consume-refused r body w e h = elim (consume-cases r body w) [
    | inr (f, refused) ↦ rw refused refl
    | inl (up, asked, verified) ↦
        let same = consume-verified r body w up asked verified in
        rw same (consume_envelope-refused body w.queue e (rw same at h))
  ]
