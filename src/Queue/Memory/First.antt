-- ===== src/Queue/Memory/First.antt =====
-- `claim` takes the first record that is due, and says how it changes it.
use xmcl_shared_node_agent.Base.{
  ℕ, suc, ◌≤◌, ◌<◌, ◌≡◌, refl, ap, ◌⊎◌, inl, inr, String, true, false, [], ◌∷◌, ◌++◌, Option, none,
  some, ltb, ◌||◌, if◌then◌else◌, arith, Bool-cases, All,
}
use xmcl_shared_node_agent.Base.Dict.{Dict}
use xmcl_shared_node_agent.Queue
use xmcl_shared_node_agent.Queue.Memory.Defs.{Job, MemoryQueue, claimed, taken, claim_from, claim}

-- A record that a claim passes over: it is running, or due after a reading of the clock.
abbrev pub IsPassed : (ℕ → ℕ) → Job → Type 0
IsPassed clock job =
    (job.state ≡ Queue.running) ⊎ ((reads : ℕ) × (clock reads < job.next_attempt_at))

abbrev pub AllPassed : (ℕ → ℕ) → Dict Job → Type 0
AllPassed clock m = All (λ e. IsPassed clock e.1) m

-- One more attempt at a record runs, and the rest of it is as before.
pub record Starts (job next : Job) : Type 0 where
  pub id : next.id ≡ job.id
  pub deployment : next.deployment_id ≡ job.deployment_id
  pub fingerprint : next.job_fingerprint ≡ job.job_fingerprint
  pub body : next.body ≡ job.body
  pub redelivery : next.redelivery_body ≡ job.redelivery_body
  pub state : next.state ≡ Queue.running
  pub attempts : next.attempts ≡ suc job.attempts
  pub due : next.next_attempt_at ≡ job.next_attempt_at
  pub last : next.last_result ≡ job.last_result
  pub final : next.terminal_result ≡ job.terminal_result

-- What the caller gets of a record.
pub record Answers (job : Job) (answer : Queue.Claimed) : Type 0 where
  pub id : answer.id ≡ job.id
  pub deployment : answer.deployment_id ≡ job.deployment_id
  pub body : answer.body ≡ job.body
  pub attempts : answer.attempts ≡ suc job.attempts

pub record TakesFirst (clock : ℕ → ℕ) (m : Dict Job) (r : Option Queue.Claimed × Dict Job)
    : Type 0 where
  pub before : Dict Job
  pub key : String
  pub job : Job
  pub after : Dict Job
  pub there : m ≡ before ++ (key, job) ∷ after
  pub earlier : AllPassed clock before
  pub idle : Queue.is_running job.state ≡ false
  pub reads : ℕ
  pub due : job.next_attempt_at ≤ clock reads
  pub next : Job
  pub starts : Starts job next
  pub kept : r.1 ≡ before ++ (key, next) ∷ after
  pub answer : Queue.Claimed
  pub given : r.0 ≡ some answer
  pub answers : Answers job answer

abbrev pub Chooses : (ℕ → ℕ) → Dict Job → Option Queue.Claimed × Dict Job → Type 0
Chooses clock m r = TakesFirst clock m r ⊎ ((r.0 ≡ none) × (r.1 ≡ m) × AllPassed clock m)

running-state : (s : Queue.State) → Queue.is_running s ≡ true → s ≡ Queue.running
running-state Queue.running h = refl
running-state _ h = cc

skipped-IsPassed :
    (clock : ℕ → ℕ) (reads : ℕ) (job : Job)
    → Queue.is_running job.state || ltb (clock reads) job.next_attempt_at ≡ true
    → IsPassed clock job
skipped-IsPassed clock reads job h = elim (Bool-cases (Queue.is_running job.state)) [
  | inl running ↦ inl (running-state job.state running)
  | inr idle ↦ inr (reads, ground arith)
]

taken-Starts : (job : Job) → Starts job (taken job)
taken-Starts job = record {
  id = refl;
  deployment = refl;
  fingerprint = refl;
  body = refl;
  redelivery = refl;
  state = refl;
  attempts = omega arith;
  due = refl;
  last = refl;
  final = refl;
}

claimed-Answers : (job : Job) → Answers job (claimed job)
claimed-Answers job = record { id = refl; deployment = refl; body = refl; attempts = omega arith }

pass :
    (clock : ℕ → ℕ) (k : String) (job : Job) (m : Dict Job) (r : Option Queue.Claimed × Dict Job)
    → IsPassed clock job
    → Chooses clock m r
    → Chooses clock ((k, job) ∷ m) (r.0, (k, job) ∷ r.1)
pass clock k job m r passed (inr (no_one, same, all_passed)) =
    inr (no_one, ap (λ t. (k, job) ∷ t) same, (passed, all_passed))
pass clock k job m r passed (inl t) = inl (record {
  before = (k, job) ∷ t.before;
  key = t.key;
  job = t.job;
  after = t.after;
  there = ap (λ u. (k, job) ∷ u) t.there;
  earlier = (passed, t.earlier);
  idle = t.idle;
  reads = t.reads;
  due = t.due;
  next = t.next;
  starts = t.starts;
  kept = ap (λ u. (k, job) ∷ u) t.kept;
  answer = t.answer;
  given = t.given;
  answers = t.answers;
})

claim_from-Chooses :
    (clock : ℕ → ℕ) (reads : ℕ) (m : Dict Job) → Chooses clock m (claim_from clock reads m)
unfolding claim_from
claim_from-Chooses clock reads [] = inr (refl, refl, tt)
claim_from-Chooses clock reads ((k, job) ∷ m) =
    let next = if Queue.is_running job.state then reads else suc reads in
    let tests = Queue.is_running job.state || ltb (clock reads) job.next_attempt_at in
    elim (Bool-cases tests) [
      | inl skipped ↦ rw skipped (
          pass clock k job m (claim_from clock next m) (skipped-IsPassed clock reads job skipped)
            (claim_from-Chooses clock next m))
      | inr chosen ↦ rw chosen (
          inl (record {
            before = [];
            key = k;
            job = job;
            after = m;
            there = refl;
            earlier = tt;
            idle = ground arith;
            reads = reads;
            due = ground arith;
            next = taken job;
            starts = taken-Starts job;
            kept = refl;
            answer = claimed job;
            given = refl;
            answers = claimed-Answers job;
          }))
    ]

-- `claim` takes the first record that is neither running nor due after a reading of the clock: it
-- marks that record alone as running, counts one more attempt and answers with its ids, its body and
-- that count. Where there is no such record it answers that there is no work and changes nothing.
pub claim-Chooses :
    (clock : ℕ → ℕ) (q : MemoryQueue)
    → Chooses clock q.pending ((claim clock q).0, (claim clock q).1.pending)
unfolding claim
claim-Chooses clock q = claim_from-Chooses clock 0 q.pending
