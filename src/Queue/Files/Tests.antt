-- ===== src/Queue/Files/Tests.antt =====
-- The queue on the file system at concrete disks, under a codec that writes a byte in unary.
use Prim.Native.Char.{code}
use xmcl_shared_node_agent.Base.{
  ℕ, zero, suc, ◌+◌, ◌==◌, ◌≡◌, refl, ◌∙◌, ap, String, List, [], ◌∷◌, Option, take, some, none,
  false, inl, arith, eq_iff, if◌then◌else◌,
}
use xmcl_shared_node_agent.Base.Dict
use xmcl_shared_node_agent.Base.Int.{pos}
use xmcl_shared_node_agent.Js.Text.{hex64}
use xmcl_shared_node_agent.Js.Value.{Value, str, undefined}
use xmcl_shared_node_agent.Js.Fault.{ok, err}
use xmcl_shared_node_agent.Queue
use xmcl_shared_node_agent.Queue.{State, Input, Outcome}
use xmcl_shared_node_agent.Queue.Files.Record.{Codec, FileJob, encode}
use xmcl_shared_node_agent.Queue.Files.RoundTrip.{IsSound}
use xmcl_shared_node_agent.Queue.Files.Disk.{Disk, act_all, json}
use xmcl_shared_node_agent.Queue.Files.Defs.{Setting, file_name, read_file, fresh, finish, enqueue}
use xmcl_shared_node_agent.Queue.Files.Crash.{
  Survives, restart_at, later_setting, done_record, finish-crash,
}
use xmcl_shared_node_agent.Queue.Files.Enqueue.{Decodes, IsNew, enqueue-read, enqueue-conflict}

abbrev print : String
print = "0123456789abcdef0123456789abcdef0123456789abcdef0123456789abcdef"

abbrev unary : ℕ → String → String
unary zero s = String.◌∷◌ "a" s
unary (suc n) s = String.◌∷◌ "b" (unary n s)

abbrev print_bytes : List ℕ → String
print_bytes [] = String.[]
print_bytes (n ∷ ns) = unary n (print_bytes ns)

abbrev scan : ℕ → String → List ℕ
scan n String.[] = []
scan n (String.◌∷◌ c s) =
    let closed = scan 0 s in
    let longer = scan (suc n) s in if code c == 97 then n ∷ closed else longer

same_head : (a b : ℕ) (s : List ℕ) → a ≡ b → ◌≡◌ {A = List ℕ} (a ∷ s) (b ∷ s)
same_head a b s e = ap (λ m. m ∷ s) e

scan-unary : (n k : ℕ) (s : String) → scan n (unary k s) ≡ (n + k) ∷ scan 0 s
scan-unary n zero s = same_head n (n + 0) (scan 0 s) (omega arith)
scan-unary n (suc k) s =
    scan-unary (suc n) k s ∙ same_head (suc n + k) (n + suc k) (scan 0 s) (omega arith)

scan-print_bytes : (ns : List ℕ) → scan 0 (print_bytes ns) ≡ ns
scan-print_bytes [] = refl
scan-print_bytes (n ∷ ns) =
    rw (scan-unary 0 n (print_bytes ns), scan-print_bytes ns) (same_head (0 + n) n ns (omega arith))

abbrev scan_value : Value → Option (List ℕ)
scan_value (str s) = some (scan 0 s)
scan_value _ = none

abbrev codec : Codec
codec = record {
  sha256 = print_bytes;
  hash_text = λ id. print;
  to_base64 = print_bytes;
  from_base64 = scan_value;
}

codec-Decodes : Decodes codec
codec-Decodes bytes = ap some (scan-print_bytes bytes)

abbrev setting : Setting
setting = record { codec = codec; retry_delay_ms = 10; clock = λ k. 100 + k; uuid = λ name. "u" }

abbrev delivery : String → Input
delivery deployment = record {
  id = "r1";
  deployment_id = deployment;
  job_fingerprint = print;
  body = 1 ∷ 2 ∷ [];
}

formed :
    (deployment : String) → deployment ≡ "d1" → Queue.validate_enqueue (delivery deployment) ≡ ok tt
unfolding Queue.validate_enqueue hex64
formed deployment same = rw same refl

abbrev empty_disk : Disk
empty_disk = record { pending = []; archive = [] }

missing : Dict.get empty_disk.pending (file_name setting "r1") ≡ none
unfolding Dict.get
missing = refl

enqueue-read_example :
    ((enqueue setting (delivery "d1") empty_disk).result ≡ ok false)
    × (job : FileJob) × (read_file setting
          (act_all (enqueue setting (delivery "d1") empty_disk).actions empty_disk).pending
          (file_name setting "r1")
        ≡ ok job)
    × IsNew setting (delivery "d1") job
enqueue-read_example =
    enqueue-read setting (delivery "d1") empty_disk codec-Decodes (ground arith) (formed "d1" refl)
      missing missing

-- The job while an attempt runs.
abbrev running_job : FileJob
running_job = record (fresh setting (delivery "d1")) { state = State.running; attempts = pos 1 }

running-IsSound : IsSound codec running_job
running-IsSound = record {
  bytes = 1 ∷ 2 ∷ [];
  text = refl;
  decodes = codec-Decodes (1 ∷ 2 ∷ []);
  digest = refl;
  redelivery = refl;
  safe_attempts = ground arith;
  safe_next = ground arith;
}

abbrev running_disk : Disk
running_disk = record {
  pending = (file_name setting "r1", json (encode running_job)) ∷ [];
  archive = [];
}

running_there :
    Dict.get running_disk.pending (file_name setting "r1") ≡ some (json (encode running_job))
unfolding Dict.get
running_there = refl

not_archived : Dict.get running_disk.archive (file_name setting "r1") ≡ none
unfolding Dict.get
not_archived = refl

abbrev other_job : FileJob
other_job = record running_job { deployment_id = "d2" }

abbrev other_disk : Disk
other_disk = record {
  pending = (file_name setting "r1", json (encode other_job)) ∷ [];
  archive = [];
}

other-IsSound : IsSound codec other_job
other-IsSound = record {
  bytes = 1 ∷ 2 ∷ [];
  text = refl;
  decodes = codec-Decodes (1 ∷ 2 ∷ []);
  digest = refl;
  redelivery = refl;
  safe_attempts = ground arith;
  safe_next = ground arith;
}

other_there : Dict.get other_disk.pending (file_name setting "r1") ≡ some (json (encode other_job))
unfolding Dict.get
other_there = refl

enqueue-conflict_example :
    ((enqueue setting (delivery "d1") other_disk).result ≡ err Queue.idempotency_conflict)
    × ((enqueue setting (delivery "d1") other_disk).actions ≡ [])
enqueue-conflict_example =
    enqueue-conflict setting (delivery "d1") other_job other_disk (formed "d1" refl) not_archived
      other-IsSound other_there (inl (ground (arith, eq_iff "d2" "d1")))

-- A crash between the archiving of the result and the removal of the pending record.
finish-crash_example :
    ((restart_at (later_setting (λ k. 900) (λ name. "v") setting) (file_name setting "r1") (
        act_all
          (take 2 (finish setting "r1" (Outcome.terminal undefined) running_disk).actions)
          running_disk)).0
      ≡ ok tt)
    × Survives
        (later_setting (λ k. 900) (λ name. "v") setting)
        (file_name setting "r1")
        running_job
        (done_record setting undefined running_job)
        (restart_at (later_setting (λ k. 900) (λ name. "v") setting) (file_name setting "r1") (
          act_all
            (take 2 (finish setting "r1" (Outcome.terminal undefined) running_disk).actions)
            running_disk)).1
finish-crash_example =
    finish-crash setting (λ k. 900) (λ name. "v") "r1" undefined running_job running_disk 2
      (record {
        given = refl;
        named = refl;
        running = refl;
        sound = running-IsSound;
        there = running_there;
        open_job = not_archived;
      })
