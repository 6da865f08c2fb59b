-- ===== src/Queue/Files/Defs.antt =====
-- The operations of the queue on the file system. Each gives the durable actions that it makes
-- before it returns or throws; `lock` lets one operation run at a time.
use Prim.Native.String.{◌++◌ as append_text}
use xmcl_shared_node_agent.Base.{
  ℕ, ◌+◌, String, Bool, true, false, ◌&&◌, ◌||◌, List, [], ◌∷◌, ◌++◌, Option, none, some,
  if◌then◌else◌, length, str_eq,
}
use xmcl_shared_node_agent.Base.Int.{ℤ, pos, negsuc, add_ℕ, lt_int}
use xmcl_shared_node_agent.Base.Dict
use xmcl_shared_node_agent.Base.Dict.{Dict}
use xmcl_shared_node_agent.Js.Text.{nonempty}
use xmcl_shared_node_agent.Js.Value.{Value, undefined, null, str, num}
use xmcl_shared_node_agent.Js.Fault.{
  Result, ok, err, plain_error, type_error, coded_error, ◌>>=◌, ◌>>◌, ensure,
}
use xmcl_shared_node_agent.Queue
use xmcl_shared_node_agent.Queue.{State, Outcome, Input}
use xmcl_shared_node_agent.Queue.Files.Record.{Codec, FileJob, encode, decode_body, read_record}
use xmcl_shared_node_agent.Queue.Files.Disk.{
  File, json, unreadable, Disk, Action, pending_directory, archive_directory, atomic_write,
  durable_remove, act_all, json_files,
}

-- What a call did to the disk, and how it ended.
pub record Done (A : Type 0) : Type 0 where
  pub actions : List Action
  pub result : Result A

abbrev pub quiet : {A : Type 0} → Result A → Done A
quiet r = record { actions = []; result = r }

abbrev pub job_identity : FileJob → Queue.Identity
job_identity job = record {
  id = job.id;
  deployment_id = job.deployment_id;
  job_fingerprint = job.job_fingerprint;
}

abbrev pub is_terminal : State → Bool
is_terminal State.terminal = true
is_terminal _ = false

-- `Math.max(attempts - 1, 0)` sees no difference between the integers below 1.
abbrev pub natural : ℤ → ℕ
natural (pos n) = n
natural (negsuc n) = 0

-- `a ?? b`
abbrev pub or_else : Value → Value → Value
or_else undefined b = b
or_else null b = b
or_else a b = a

-- What `claim` returns.
pub record FileClaim : Type 0 where
  pub id : String
  pub deployment_id : String
  pub body : List ℕ
  pub attempts : ℤ

-- The configuration of the queue and what it reads of its surroundings: the clock by the number of
-- readings before, and a fresh UUID for each file that it writes.
pub record Setting : Type 0 where
  pub codec : Codec
  pub retry_delay_ms : ℕ
  pub clock : ℕ → ℕ
  pub uuid : String → String

module _ (s : Setting) where
  abbrev pub time : ℕ → Value
  time k = num (pos (s.clock k))

  -- `queueKey(id)` with the extension
  abbrev pub file_name : String → String
  file_name id = append_text (s.codec.hash_text id) ".json"

  unfoldable pub read_file : Dict File → String → Result FileJob
  read_file m name = elim (Dict.get m name) [
    | none ↦ err (coded_error "ENOENT")
    | some (json v) ↦ read_record s.codec v
    | some unreadable ↦ err plain_error
  ]

  -- `readRecordIfPresent`
  unfoldable pub read_if_present : Dict File → String → Result (Option FileJob)
  unfolding read_file
  read_if_present m name = elim (Dict.get m name) [
    | none ↦ ok none
    | some file ↦ (do job ← read_file m name; ok (some job))
  ]

  abbrev pub write_pending : String → FileJob → List Action
  write_pending name job = atomic_write pending_directory name (s.uuid name) (encode job)

  abbrev pub pended : FileJob → FileJob
  pended job = record job { state = State.pending; updated_at = time 0 }

  -- One round of `initialize`: a record that is archived leaves `pending`, a running one is pending.
  unfoldable pub recover : String → Disk → Result (List Action)
  unfolding read_file read_if_present
  recover name d = do
    job ← read_file d.pending name
    archived ← read_if_present d.archive name
    elim archived [
      | some kept ↦ (do
        Queue.assert_same_identity (job_identity kept) (job_identity job)
        ensure (is_terminal kept.state) plain_error
        ok (durable_remove pending_directory name))
      | none ↦ ok (if Queue.is_running job.state then write_pending name (pended job) else [])
    ]

  -- The loop of `initialize`, up to the first record that it refuses; the readings of the clock are
  -- numbered anew for each record.
  unfoldable pub recover_all : List String → Disk → Result (Unit {0}) × Disk
  unfolding recover
  recover_all [] d = (ok tt, d)
  recover_all (name ∷ names) d = elim (recover name d) [
    | err e ↦ (err e, d)
    | ok actions ↦ recover_all names (act_all actions d)
  ]

  unfoldable pub initialize : Disk → Result (Unit {0}) × Disk
  unfolding recover_all
  initialize d = recover_all (json_files d.pending) d

  abbrev pub fresh : Input → FileJob
  fresh input = record {
    id = input.id;
    deployment_id = input.deployment_id;
    job_fingerprint = input.job_fingerprint;
    body = str (s.codec.to_base64 input.body);
    body_sha256 = str (s.codec.sha256 input.body);
    redelivery_body = undefined;
    redelivery_body_sha256 = undefined;
    state = State.pending;
    attempts = pos 0;
    next_attempt_at = pos (s.clock 0);
    created_at = time 0;
    updated_at = time 0;
    last_result = undefined;
    terminal_result = undefined;
  }

  unfoldable pub redelivered : Input → FileJob → FileJob
  redelivered input job =
      if Queue.is_running job.state
      then record job {
        redelivery_body = str (s.codec.to_base64 input.body);
        redelivery_body_sha256 = str (s.codec.sha256 input.body);
        updated_at = time 0;
      }
      else record job {
        body = str (s.codec.to_base64 input.body);
        body_sha256 = str (s.codec.sha256 input.body);
        state = State.pending;
        next_attempt_at = pos (s.clock 0);
        updated_at = time 1;
      }

  -- `enqueue` once the record that may be pending is read.
  unfoldable pub deliver : Input → Option FileJob → Done Bool
  unfolding redelivered
  deliver input none = record {
    actions = write_pending (file_name input.id) (fresh input);
    result = ok false;
  }
  deliver input (some job) =
      if Queue.same_identity (job_identity job) (Queue.identity_of input)
      then record {
        actions = write_pending (file_name input.id) (redelivered input job);
        result = ok true;
      }
      else quiet (err Queue.idempotency_conflict)

  unfoldable pub accept : Input → Disk → Done Bool
  unfolding deliver read_if_present
  accept input d = elim (read_if_present d.archive (file_name input.id)) [
    | err e ↦ quiet (err e)
    | ok (some kept) ↦
        quiet (Queue.assert_same_identity (job_identity kept) (Queue.identity_of input) >> ok true)
    | ok none ↦ elim (read_if_present d.pending (file_name input.id)) [
      | err e ↦ quiet (err e)
      | ok existing ↦ deliver input existing
    ]
  ]

  unfoldable pub enqueue : Input → Disk → Done Bool
  unfolding accept
  enqueue input d = elim (Queue.validate_enqueue input) [
    | err e ↦ quiet (err e)
    | ok _ ↦ accept input d
  ]

  abbrev pub taken : FileJob → FileJob
  taken job = record job {
    state = State.running;
    attempts = add_ℕ job.attempts 1;
    updated_at = time 0;
  }

  abbrev pub is_skipped : FileJob → Bool
  is_skipped job = Queue.is_running job.state || lt_int (pos (s.clock 0)) job.next_attempt_at

  unfoldable pub take_job : String → FileJob → Done (Option FileClaim)
  take_job name job = record {
    actions = write_pending name (taken job);
    result = do
      bytes ← decode_body s.codec (taken job)
      ok (
          some (record {
            id = job.id;
            deployment_id = job.deployment_id;
            body = bytes;
            attempts = add_ℕ job.attempts 1;
          }));
  }

  -- The loop of `claim`, over the files in the order of their names.
  unfoldable pub claim_from : List String → Disk → Done (Option FileClaim)
  unfolding take_job read_file
  claim_from [] d = quiet (ok none)
  claim_from (name ∷ names) d =
      let rest = claim_from names d in
      elim (read_file d.pending name) [
        | err e ↦ quiet (err e)
        | ok job ↦ if is_skipped job then rest else take_job name job
      ]

  unfoldable pub claim : Disk → Done (Option FileClaim)
  unfolding claim_from
  claim d = claim_from (json_files d.pending) d

  abbrev pub finished : Value → FileJob → FileJob
  finished result job = record job {
    state = State.terminal;
    terminal_result = result;
    updated_at = time 0;
  }

  unfoldable pub retried : Value → FileJob → FileJob
  retried result job = record job {
    body = or_else job.redelivery_body job.body;
    body_sha256 = or_else job.redelivery_body_sha256 job.body_sha256;
    redelivery_body = undefined;
    redelivery_body_sha256 = undefined;
    state = State.retry;
    next_attempt_at = pos (s.clock 0 + Queue.retry_delay s.retry_delay_ms (natural job.attempts));
    last_result = result;
    updated_at = time 1;
  }

  unfoldable pub settle : String → Outcome → FileJob → List Action
  unfolding retried
  settle name (Outcome.terminal result) job =
      atomic_write archive_directory name (s.uuid name) (encode (finished result job))
      ++ durable_remove pending_directory name
  settle name (Outcome.retry result) job = write_pending name (retried result job)

  unfoldable pub finish : String → Outcome → Disk → Done (Unit {0})
  unfolding settle read_file
  finish id outcome d =
      if nonempty id
      then elim (read_file d.pending (file_name id)) [
        | err e ↦ quiet (err e)
        | ok job ↦
            if str_eq job.id id && Queue.is_running job.state
            then record { actions = settle (file_name id) outcome job; result = ok tt }
            else quiet (err plain_error)
      ]
      else quiet (err type_error)

  unfoldable pub counts : Disk → ℕ × ℕ
  counts d = (length (json_files d.pending), length (json_files d.archive))
