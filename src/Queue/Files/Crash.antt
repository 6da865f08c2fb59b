-- ===== src/Queue/Files/Crash.antt =====
-- A crash in the middle of an operation of the queue on the file system, and the restart after it.
use Prim.Native.String.{◌++◌ as append_text, count}
use text.Mathlib.TextLemmas
use text.Mathlib.TextPositions.{eq_refl}
use xmcl_shared_node_agent.Base.{
  ℕ, zero, suc, ◌≡◌, ◌≢◌, refl, ap, String, true, List, [], ◌∷◌, none, some, arith, take, eq_iff,
}
use xmcl_shared_node_agent.Base.Dict
use xmcl_shared_node_agent.Base.Dict.{Dict, dict_laws}
use xmcl_shared_node_agent.Js.Value.{Value, int}
use xmcl_shared_node_agent.Js.Fault.{Result, ok}
use xmcl_shared_node_agent.Js.Text.{nonempty}
use xmcl_shared_node_agent.Queue
use xmcl_shared_node_agent.Queue.{State, Outcome}
use xmcl_shared_node_agent.Queue.Files.Record.{FileJob, encode}
use xmcl_shared_node_agent.Queue.Files.RoundTrip.{IsSound, read_record-encode}
use xmcl_shared_node_agent.Queue.Files.Disk.{
  File, json, Action, renamed, Disk, act, act_all, partial_name, pending_directory, durable_remove,
}
use xmcl_shared_node_agent.Queue.Files.Defs.{
  Setting, file_name, read_file, read_if_present, pended, write_pending, finished, recover,
  recover_all, finish, settle, job_identity,
}

partial_name-ne : (name uuid : String) → partial_name name uuid ≢ name
partial_name-ne name uuid e = omega (
  arith,
  ap count e,
  TextLemmas.length-append name (append_text "." (append_text uuid ".partial")),
  TextLemmas.length-append "." (append_text uuid ".partial"),
  TextLemmas.length-append uuid ".partial",
)

-- `initialize` at one file of `pending`, if that is there.
abbrev pub restart_at : Setting → String → Disk → Result (Unit {0}) × Disk
restart_at s name d = elim (Dict.get d.pending name) [
  | none ↦ (ok tt, d)
  | some file ↦ recover_all s (name ∷ []) d
]

-- The record of a job that waits after a restart, and of one that is over: nothing else has changed.
abbrev pub waiting_record : Setting → FileJob → FileJob
waiting_record s job = record job { state = State.pending; updated_at = int (s.clock 0) }

abbrev pub done_record : Setting → Value → FileJob → FileJob
done_record s result job = record job {
  state = State.terminal;
  terminal_result = result;
  updated_at = int (s.clock 0);
}

-- The file's job is to be done again, or it is finished.
pub data Survives (s : Setting) (name : String) (job : FileJob) (done : FileJob) (d : Disk)
    : Type 0 where
  again :
      Dict.get d.pending name ≡ some (json (encode (waiting_record s job)))
      → Dict.get d.archive name ≡ none
      → Survives s name job done d
  over :
      Dict.get d.pending name ≡ none
      → Dict.get d.archive name ≡ some (json (encode done))
      → Survives s name job done d

take-nil {ℓ} : {A : Type ℓ} (n : ℕ) → take {A = A} n [] ≡ []
take-nil zero = refl
take-nil (suc n) = refl

-- The two actions of `atomicWrite` put the file under its name.
pub get-atomic_write :
    (m : Dict File) (temporary name : String) (file : File)
    → Dict.get
        (renamed
          (Dict.get (Dict.put m temporary file) temporary)
          temporary
          name
          (Dict.put m temporary file))
        name
      ≡ some file
get-atomic_write m temporary name file = simp (dict_laws, eq_refl)

-- How far the end of a job came.
data Midway (name : String) (job done : FileJob) (d : Disk) : Type 0 where
  before :
      Dict.get d.pending name ≡ some (json (encode job))
      → Dict.get d.archive name ≡ none
      → Midway name job done d
  both :
      Dict.get d.pending name ≡ some (json (encode job))
      → Dict.get d.archive name ≡ some (json (encode done))
      → Midway name job done d
  after :
      Dict.get d.pending name ≡ none
      → Dict.get d.archive name ≡ some (json (encode done))
      → Midway name job done d

module _ (s : Setting) (name : String) (job : FileJob) (result : Value) (d : Disk)
    (there : Dict.get d.pending name ≡ some (json (encode job)))
    (open_job : Dict.get d.archive name ≡ none) where
  settle-Midway :
      (n : ℕ)
      → Midway name job
          (finished s result job)
          (act_all (take n (settle s name (Outcome.terminal result) job)) d)
  unfolding settle act_all act
  settle-Midway zero = before there open_job
  settle-Midway (suc zero) = before there (
      simp dict_laws (
        ground (
          arith,
          eq_iff (partial_name name (s.uuid name)) name,
          partial_name-ne name (s.uuid name),
        )))
  settle-Midway (suc (suc zero)) = both there (get-atomic_write d.archive _ name _)
  settle-Midway (suc (suc (suc n))) =
      after (rw (take-nil {A = Action} n) (simp (dict_laws, eq_refl)))
        (rw (take-nil {A = Action} n) (get-atomic_write d.archive _ name _))

module _ (s : Setting) (m : Dict File) (name : String) where
  pub read_file-encode :
      (job : FileJob)
      → IsSound s.codec job
      → Dict.get m name ≡ some (json (encode job))
      → read_file s m name ≡ ok job
  unfolding read_file
  read_file-encode job sound there = rw (there, read_file) (read_record-encode s.codec job sound)

  pub read_if_present-encode :
      (job : FileJob)
      → IsSound s.codec job
      → Dict.get m name ≡ some (json (encode job))
      → read_if_present s m name ≡ ok (some job)
  unfolding read_if_present
  read_if_present-encode job sound there =
      rw (there, read_if_present, read_file-encode job sound there) refl

  pub read_if_present-missing : Dict.get m name ≡ none → read_if_present s m name ≡ ok none
  unfolding read_if_present
  read_if_present-missing missing = rw (missing, read_if_present) refl

restart_at-recover :
    (s : Setting) (name : String) (d : Disk) (file : File) (actions : List Action)
    → Dict.get d.pending name ≡ some file
    → recover s name d ≡ ok actions
    → restart_at s name d ≡ (ok tt, act_all actions d)
unfolding recover_all
restart_at-recover s name d file actions there plan = rw (there, restart_at, plan, recover_all) refl

-- `initialize` finishes what the crash cut short.
module _ (s : Setting) (name : String) (job done : FileJob) (sound : IsSound s.codec job)
    (sound_done : IsSound s.codec done)
    (same : Queue.same_identity (job_identity done) (job_identity job) ≡ true)
    (terminal_done : done.state ≡ State.terminal)
    (running : Queue.is_running job.state ≡ true) where
  recover-before :
      (d : Disk)
      → Dict.get d.pending name ≡ some (json (encode job))
      → Dict.get d.archive name ≡ none
      → recover s name d ≡ ok (write_pending s name (pended s job))
  unfolding recover
  recover-before d there missing =
      rw
        (
          read_file-encode s d.pending name job sound there,
          read_if_present-missing s d.archive name missing,
          running,
          recover,
        )
        refl

  recover-both :
      (d : Disk)
      → Dict.get d.pending name ≡ some (json (encode job))
      → Dict.get d.archive name ≡ some (json (encode done))
      → recover s name d ≡ ok (durable_remove pending_directory name)
  unfolding recover Queue.assert_same_identity
  recover-both d there kept =
      rw
        (
          read_file-encode s d.pending name job sound there,
          read_if_present-encode s d.archive name done sound_done kept,
          same,
          terminal_done,
          recover,
        )
        refl

  restart-Survives :
      (d : Disk)
      → Midway name job done d
      → ((restart_at s name d).0 ≡ ok tt) × Survives s name job done (restart_at s name d).1
  restart-Survives d (after none_left kept) = rw (none_left, restart_at) (refl, over none_left kept)
  restart-Survives d (before there open_job) =
      rw (restart_at-recover s name d _ _ there (recover-before d there open_job))
        (refl, unfold act_all act in again (get-atomic_write d.pending _ name _) open_job)
  restart-Survives d (both there kept) =
      rw (restart_at-recover s name d _ _ there (recover-both d there kept))
        (refl, unfold act_all act in over (simp (dict_laws, eq_refl)) kept)

same_identity_refl : (i : Queue.Identity) → Queue.same_identity i i ≡ true
unfolding Queue.same_identity
same_identity_refl i = ground (
  arith,
  eq_iff i.id i.id,
  eq_iff i.deployment_id i.deployment_id,
  eq_iff i.job_fingerprint i.job_fingerprint,
)

finish-actions :
    (s : Setting) (id : String) (outcome : Outcome) (job : FileJob) (d : Disk)
    → nonempty id ≡ true
    → job.id ≡ id
    → Queue.is_running job.state ≡ true
    → IsSound s.codec job
    → Dict.get d.pending (file_name s id) ≡ some (json (encode job))
    → (finish s id outcome d).actions ≡ settle s (file_name s id) outcome job
unfolding finish
finish-actions s id outcome job d given named running sound there =
    rw
      (
        given,
        finish,
        read_file-encode s d.pending (file_name s id) job sound there,
        (eq_iff job.id id).1 named,
        running,
      )
      refl

-- A job on disk that an attempt is running, with nothing in the archive under its file name.
pub record Runs (s : Setting) (id : String) (job : FileJob) (d : Disk) : Type 0 where
  pub given : nonempty id ≡ true
  pub named : job.id ≡ id
  pub running : Queue.is_running job.state ≡ true
  pub sound : IsSound s.codec job
  pub there : Dict.get d.pending (file_name s id) ≡ some (json (encode job))
  pub open_job : Dict.get d.archive (file_name s id) ≡ none

-- The setting of the process that starts after the crash.
abbrev pub later_setting : (ℕ → ℕ) → (String → String) → Setting → Setting
later_setting clock uuid s = record s { clock = clock; uuid = uuid }

-- A crash after any number of the disk actions that end a job leaves a disk from which the restart
-- of the queue recovers the job's file without an error: either the job is pending again with its
-- record otherwise unchanged and is not in the archive, or it is only in the archive, finished with
-- the result.
pub finish-crash :
    (s : Setting) (clock : ℕ → ℕ) (uuid : String → String) (id : String) (result : Value)
    (job : FileJob) (d : Disk) (n : ℕ)
    → Runs s id job d
    → ((restart_at
          (later_setting clock uuid s)
          (file_name s id)
          (act_all (take n (finish s id (Outcome.terminal result) d).actions) d)).0
        ≡ ok tt)
      × Survives
          (later_setting clock uuid s)
          (file_name s id)
          job
          (done_record s result job)
          (restart_at
            (later_setting clock uuid s)
            (file_name s id)
            (act_all (take n (finish s id (Outcome.terminal result) d).actions) d)).1
finish-crash s clock uuid id result job d n r =
    rw
      (finish-actions s id (Outcome.terminal result) job d r.given r.named r.running r.sound
        r.there)
      (restart-Survives (later_setting clock uuid s) (file_name s id) job (finished s result job)
        r.sound
        (record {
          bytes = r.sound.bytes;
          text = r.sound.text;
          decodes = r.sound.decodes;
          digest = r.sound.digest;
          redelivery = r.sound.redelivery;
          safe_attempts = r.sound.safe_attempts;
          safe_next = r.sound.safe_next;
        })
        same refl r.running _ (settle-Midway s (file_name s id) job result d r.there r.open_job n))
  where
    same : Queue.same_identity (job_identity (finished s result job)) (job_identity job) ≡ true
    same = same_identity_refl (job_identity job)
