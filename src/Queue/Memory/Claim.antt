-- ===== src/Queue/Memory/Claim.antt =====
-- Which record `claim` of the queue in memory takes.
use xmcl_shared_node_agent.Base.{
  ℕ, suc, ◌≤◌, ◌≡◌, refl, ap, ◌⊎◌, inl, inr, ◌↔◌, String, Bool, true, false, [], ◌∷◌, Option, none,
  some, ltb, ◌||◌, if◌then◌else◌, arith, eq_iff, str_eq, Bool-cases, All,
}
use xmcl_shared_node_agent.Base.Dict
use xmcl_shared_node_agent.Base.Dict.{Dict}
use xmcl_shared_node_agent.Base.Dict.Distinct.{Distinct}
use xmcl_shared_node_agent.Queue
use xmcl_shared_node_agent.Queue.Memory.Defs.{Job, MemoryQueue, claimed, taken, claim_from, claim}

-- Whether `claim` passes a record over, at one reading of the clock.
abbrev pub is_skipped : ℕ → Job → Bool
is_skipped now job = Queue.is_running job.state || ltb now job.next_attempt_at

-- `claim` took this record, at this reading of the clock.
pub record Takes (clock : ℕ → ℕ) (m : Dict Job) (r : Option Queue.Claimed × Dict Job) : Type 0 where
  pub key : String
  pub job : Job
  pub reads : ℕ
  pub there : Dict.get m key ≡ some job
  pub idle : Queue.is_running job.state ≡ false
  pub due : job.next_attempt_at ≤ clock reads
  pub answer : r.0 ≡ some (claimed job)
  pub kept : r.1 ≡ Dict.put m key (taken job)

abbrev pub Claims : (ℕ → ℕ) → Dict Job → Option Queue.Claimed × Dict Job → Type 0
Claims clock m r = Takes clock m r ⊎ ((r.0 ≡ none) × (r.1 ≡ m))

skip :
    (clock : ℕ → ℕ) (reads : ℕ) (k : String) (job : Job) (m : Dict Job)
    (r : Option Queue.Claimed × Dict Job)
    → Dict.get m k ≡ none
    → Claims clock m r
    → Claims clock ((k, job) ∷ m) (r.0, (k, job) ∷ r.1)
unfolding Dict.get Dict.put
skip clock reads k job m r new (inr (no_one, same)) = inr (no_one, ap (λ t. (k, job) ∷ t) same)
skip clock reads k job m r new (inl t) =
    let apart : str_eq k t.key ≡ false = ground (arith, eq_iff k t.key, t.there) in
    inl (record {
      key = t.key;
      job = t.job;
      reads = t.reads;
      there = rw apart t.there;
      idle = t.idle;
      due = t.due;
      answer = t.answer;
      kept = rw apart (ap (λ u. (k, job) ∷ u) t.kept);
    })

claim_from-Claims :
    (clock : ℕ → ℕ) (reads : ℕ) (m : Dict Job)
    → Distinct m
    → Claims clock m (claim_from clock reads m)
unfolding claim_from
claim_from-Claims clock reads [] h = inr (refl, refl)
claim_from-Claims clock reads ((k, job) ∷ m) (new, h) =
    let later =
      skip clock reads k job m _ new
        (claim_from-Claims clock (if Queue.is_running job.state then reads else suc reads) m h) in
    elim (Bool-cases (is_skipped (clock reads) job)) [
      | inl skipped ↦ rw skipped later
      | inr chosen ↦ rw chosen (
          inl (record {
            key = k;
            job = job;
            reads = reads;
            there = unfold Dict.get in ground (arith, eq_iff k k);
            idle = ground arith;
            due = ground arith;
            answer = refl;
            kept = unfold Dict.put in ground (arith, eq_iff k k);
          }))
    ]

claim_from-none :
    (now reads : ℕ) (m : Dict Job)
    → ((claim_from (λ _. now) reads m).0 ≡ none) ↔ All (λ e. is_skipped now e.1 ≡ true) m
unfolding claim_from
claim_from-none now reads [] = (λ _. tt, λ _. refl)
claim_from-none now reads ((k, job) ∷ m) =
    let next = if Queue.is_running job.state then reads else suc reads in
    let ih = claim_from-none now next m in
    elim (Bool-cases (is_skipped now job)) [
      | inl skipped ↦ rw skipped (λ h. (refl, ih.0 h), λ h. ih.1 h.1)
      | inr chosen ↦ rw chosen (λ h. cc h, λ h. cc (h.0))
    ]

-- At one reading of the clock, `claim` answers that there is no work exactly when every record is
-- running or due later.
pub claim-none :
    (now : ℕ) (q : MemoryQueue)
    → ((claim (λ _. now) q).0 ≡ none) ↔ All (λ e. is_skipped now e.1 ≡ true) q.pending
unfolding claim
claim-none now q = claim_from-none now 0 q.pending

pub claim-Claims :
    (clock : ℕ → ℕ) (q : MemoryQueue)
    → Distinct q.pending
    → Claims clock q.pending ((claim clock q).0, (claim clock q).1.pending)
unfolding claim
claim-Claims clock q h = claim_from-Claims clock 0 q.pending h
