-- ===== src/Queue/Files/RoundTrip.antt =====
-- Writing a job's record and reading it back.
use xmcl_shared_node_agent.Base.{
  ℕ, ◌≡◌, refl, String, Option, none, some, List, [], ◌∷◌, true, arith, eq_iff, Bool-cases, inl,
  inr,
}
use xmcl_shared_node_agent.Base.Dict
use xmcl_shared_node_agent.Base.Dict.{Dict}
use xmcl_shared_node_agent.Base.Dict.Distinct.{Distinct}
use xmcl_shared_node_agent.Js.Value.{
  Value, undefined, str, is_undefined, is_string, get, safe_int, lookup,
}
use xmcl_shared_node_agent.Js.Fault.{ok}
use xmcl_shared_node_agent.Queue.{State}
use xmcl_shared_node_agent.Queue.Files.Record.{
  Codec, FileJob, encode, present, extras, state_name, state_of, read_record, redelivery_matches,
}

-- A record that the queue may write: the digests agree with the bodies, the numbers are safe.
pub record IsSound (codec : Codec) (job : FileJob) : Type 0 where
  pub bytes : List ℕ
  pub text : is_string job.body ≡ true
  pub decodes : codec.from_base64 job.body ≡ some bytes
  pub digest : job.body_sha256 ≡ str (codec.sha256 bytes)
  pub redelivery : redelivery_matches codec job.redelivery_body job.redelivery_body_sha256 ≡ true
  pub safe_attempts : safe_int job.attempts ≡ true
  pub safe_next : safe_int job.next_attempt_at ≡ true

abbrev value_or_undefined : Option Value → Value
value_or_undefined none = undefined
value_or_undefined (some v) = v

lookup-present :
    (ps : Dict Value) (k : String)
    → Distinct ps
    → lookup (present ps) k ≡ value_or_undefined (Dict.get ps k)
unfolding lookup present Dict.get
lookup-present [] k h = refl
lookup-present ((j, v) ∷ ps) k (new, h) = elim (Bool-cases (is_undefined v)) [
  | inl hidden ↦ ground (arith, lookup-present ps k h, eq_iff j k)
  | inr shown ↦ ground (arith, lookup-present ps k h)
]

extras-Distinct : (job : FileJob) → Distinct (extras job)
unfolding Dict.get
extras-Distinct job = (refl, (refl, (refl, (refl, (refl, (refl, tt))))))

state_of-state_name : (s : State) → state_of (str (state_name s)) ≡ some s
state_of-state_name State.pending = refl
state_of-state_name State.running = refl
state_of-state_name State.retry = refl
state_of-state_name State.terminal = refl

-- Reading back what was written gives the same record.
pub read_record-encode :
    (codec : Codec) (job : FileJob) → IsSound codec job → read_record codec (encode job) ≡ ok job
unfolding read_record encode get lookup Dict.get
read_record-encode codec job s =
    let at = λ (k : String). lookup-present (extras job) k (extras-Distinct job) in
    rw
      (
        state_of-state_name job.state,
        s.safe_attempts,
        s.safe_next,
        at "createdAt",
        at "updatedAt",
        at "redeliveryBody",
        at "redeliveryBodySha256",
        at "lastResult",
        at "terminalResult",
        s.text,
        s.decodes,
        s.digest,
        (eq_iff (codec.sha256 s.bytes) (codec.sha256 s.bytes)).1 refl,
        s.redelivery,
      )
      refl
