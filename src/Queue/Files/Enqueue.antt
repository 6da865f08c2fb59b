-- ===== src/Queue/Files/Enqueue.antt =====
-- What `enqueue` of the queue on the file system leaves on the disk.
use text.Mathlib.TextPositions.{eq_refl}
use xmcl_shared_node_agent.Base.{
  ℕ, ◌≡◌, ◌≢◌, refl, true, false, List, [], none, some, arith, ◌⊎◌, eq_iff,
}
use xmcl_shared_node_agent.Base.Dict
use xmcl_shared_node_agent.Base.Dict.{Dict, dict_laws}
use xmcl_shared_node_agent.Base.Int.{pos}
use xmcl_shared_node_agent.Js.Value.{str, int, undefined, safe_int}
use xmcl_shared_node_agent.Js.Fault.{ok, err}
use xmcl_shared_node_agent.Queue
use xmcl_shared_node_agent.Queue.{Input, State}
use xmcl_shared_node_agent.Queue.Files.Record.{Codec, FileJob, encode, decode_body}
use xmcl_shared_node_agent.Queue.Files.RoundTrip.{IsSound}
use xmcl_shared_node_agent.Queue.Files.Disk.{Disk, act, act_all, json}
use xmcl_shared_node_agent.Queue.Files.Defs.{
  Setting, file_name, read_file, fresh, deliver, accept, enqueue, job_identity,
}
use xmcl_shared_node_agent.Queue.Files.Crash.{
  get-atomic_write, read_file-encode, read_if_present-encode, read_if_present-missing,
}

-- Node decodes from base64 what it encoded.
abbrev pub Decodes : Codec → Type 0
Decodes codec = (bytes : List ℕ) → codec.from_base64 (str (codec.to_base64 bytes)) ≡ some bytes

fresh-IsSound :
    (s : Setting) (input : Input)
    → Decodes s.codec
    → safe_int (pos (s.clock 0)) ≡ true
    → IsSound s.codec (fresh s input)
fresh-IsSound s input inverse safe = record {
  bytes = input.body;
  text = refl;
  decodes = inverse input.body;
  digest = refl;
  redelivery = refl;
  safe_attempts = refl;
  safe_next = safe;
}

enqueue-new :
    (s : Setting) (input : Input) (d : Disk)
    → Queue.validate_enqueue input ≡ ok tt
    → Dict.get d.pending (file_name s input.id) ≡ none
    → Dict.get d.archive (file_name s input.id) ≡ none
    → enqueue s input d ≡ deliver s input none
unfolding enqueue accept
enqueue-new s input d formed missing new =
    rw
      (
        formed,
        enqueue,
        read_if_present-missing s d.archive (file_name s input.id) new,
        read_if_present-missing s d.pending (file_name s input.id) missing,
        accept,
      )
      refl

-- A record of a job that was never attempted, with the fields of its delivery.
pub record IsNew (s : Setting) (input : Input) (job : FileJob) : Type 0 where
  pub id : job.id ≡ input.id
  pub deployment : job.deployment_id ≡ input.deployment_id
  pub fingerprint : job.job_fingerprint ≡ input.job_fingerprint
  pub decoded : decode_body s.codec job ≡ ok input.body
  pub digest : job.body_sha256 ≡ str (s.codec.sha256 input.body)
  pub redelivery : job.redelivery_body ≡ undefined
  pub state : job.state ≡ State.pending
  pub attempts : job.attempts ≡ pos 0
  pub due : job.next_attempt_at ≡ pos (s.clock 0)
  pub created : job.created_at ≡ int (s.clock 0)
  pub updated : job.updated_at ≡ int (s.clock 0)
  pub last : job.last_result ≡ undefined
  pub final : job.terminal_result ≡ undefined

fresh-IsNew : (s : Setting) (input : Input) → Decodes s.codec → IsNew s input (fresh s input)
fresh-IsNew s input inverse = record {
  id = refl;
  deployment = refl;
  fingerprint = refl;
  decoded = unfold decode_body in rw (inverse input.body, eq_refl) refl;
  digest = refl;
  redelivery = refl;
  state = refl;
  attempts = refl;
  due = refl;
  created = refl;
  updated = refl;
  last = refl;
  final = refl;
}

-- A well-formed job whose file name is new is no duplicate, and what is then on the disk is read
-- back, checks passed, as a pending job under the ids of the delivery, with no attempts, no result
-- and no second delivery, due now, whose body decodes to the bytes that were delivered.
pub enqueue-read :
    (s : Setting) (input : Input) (d : Disk)
    → Decodes s.codec
    → safe_int (pos (s.clock 0)) ≡ true
    → Queue.validate_enqueue input ≡ ok tt
    → Dict.get d.pending (file_name s input.id) ≡ none
    → Dict.get d.archive (file_name s input.id) ≡ none
    → ((enqueue s input d).result ≡ ok false)
      × (job : FileJob) × (read_file s
            (act_all (enqueue s input d).actions d).pending
            (file_name s input.id)
          ≡ ok job)
      × IsNew s input job
enqueue-read s input d inverse safe formed missing new =
    rw (enqueue-new s input d formed missing new) (
      unfold deliver in refl,
      fresh s input,
      read_file-encode s _ (file_name s input.id) (fresh s input)
          (fresh-IsSound s input inverse safe)
          (unfold deliver act_all act in get-atomic_write d.pending _ (file_name s input.id) _),
      fresh-IsNew s input inverse,
    )

-- A job whose file is pending under another identity is refused with a conflict, and nothing is
-- written.
pub enqueue-conflict :
    (s : Setting) (input : Input) (job : FileJob) (d : Disk)
    → Queue.validate_enqueue input ≡ ok tt
    → Dict.get d.archive (file_name s input.id) ≡ none
    → IsSound s.codec job
    → Dict.get d.pending (file_name s input.id) ≡ some (json (encode job))
    → (job.deployment_id ≢ input.deployment_id) ⊎ (job.job_fingerprint ≢ input.job_fingerprint)
    → ((enqueue s input d).result ≡ err Queue.idempotency_conflict)
      × ((enqueue s input d).actions ≡ [])
unfolding enqueue accept deliver
enqueue-conflict s input job d formed new sound there other =
    let differs : Queue.same_identity (job_identity job) (Queue.identity_of input) ≡ false =
      unfold Queue.same_identity in
      ground (
        arith,
        eq_iff job.deployment_id input.deployment_id,
        eq_iff job.job_fingerprint input.job_fingerprint,
      ) in
    rw
      (
        formed,
        enqueue,
        read_if_present-missing s d.archive (file_name s input.id) new,
        read_if_present-encode s d.pending (file_name s input.id) job sound there,
        accept,
        differs,
        deliver,
      )
      (refl, refl)
