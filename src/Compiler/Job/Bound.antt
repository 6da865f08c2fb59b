-- ===== src/Compiler/Job/Bound.antt =====
-- A job that passes its validation names its own objects in the store, and no others.
use xmcl_shared_node_agent.Base.{
  ℕ, String, List, [], ◌∷◌, ◌≤◌, ◌≡◌, ◌≢◌, refl, true, arith, and-left, and-right, all, All, length,
  ==_iff,
}
use xmcl_shared_node_agent.Js.Text.{
  units, segment, segment_units, is_alnum, is_segment_unit, is_hex_any, valid_sha256,
}
use xmcl_shared_node_agent.Base.Int.{pos}
use xmcl_shared_node_agent.Js.Value.{Value, num, str, int, get}
use xmcl_shared_node_agent.Js.Value.Equal.{eq-str_strict}
use xmcl_shared_node_agent.Js.Fault.{ok}
use xmcl_shared_node_agent.Limits.{max_bundle_archive_bytes}
use xmcl_shared_node_agent.Compiler.Job.{
  in_range, archive_of, input_key, content_key, job_fields_ok, archive_fields_ok, keys_bound,
  key_segment, sha_text, validate_compiler_job,
}

-- One segment of a path: up to 255 units, at least one, of which the first is no dot, and no slash.
abbrev pub Segment : List ℕ → Type 0
Segment [] = ⊥
Segment (c ∷ cs) = (c ≢ b'.') × All (λ u. u ≢ b'/') (c ∷ cs) × (length (c ∷ cs) ≤ 255)

-- A text that is one segment of a path.
pub record IsSegment (v : Value) : Type 0 where
  pub name : String
  pub same : v ≡ str name
  pub one : Segment (units name)

-- A digest in hexadecimal digits.
pub record IsDigest (v : Value) : Type 0 where
  pub digits : String
  pub same : v ≡ str digits
  pub long : length (units digits) ≡ 64
  pub hex : All (λ u. is_hex_any u ≡ true) (units digits)

pub record IsBound (job : Value) : Type 0 where
  pub input : get (archive_of job) "key" ≡ str (input_key job)
  pub content : get job "expectedContentKey" ≡ str (content_key job)
  pub account : IsSegment (get job "accountId")
  pub service : IsSegment (get job "serviceId")
  pub deployment : IsSegment (get job "deploymentId")
  pub request : IsSegment (get job "compilerRequestId")
  pub imported : IsSegment (get (get job "frozenManifest") "importId")
  pub manifest : IsDigest (get job "manifestSha256")
  pub archive : IsDigest (get (archive_of job) "sha256")
  pub format : get (get job "frozenManifest") "sourceFormat" ≡ str "xmcl_server_bundle"
  pub size :
      (n : ℕ) × (get (archive_of job) "sizeBytes" ≡ int n)
      × (1 ≤ n)
      × (n ≤ max_bundle_archive_bytes)

no_slashes : (cs : List ℕ) → all is_segment_unit cs ≡ true → All (λ u. u ≢ b'/') cs
no_slashes [] h = tt
no_slashes (c ∷ cs) h = ((λ slash. ground arith), no_slashes cs (and-right _ _ h))

all_hex : (cs : List ℕ) → all is_hex_any cs ≡ true → All (λ u. is_hex_any u ≡ true) cs
all_hex [] h = tt
all_hex (c ∷ cs) h = (and-left _ _ h, all_hex cs (and-right _ _ h))

segment_units-Segment : (cs : List ℕ) → segment_units 254 cs ≡ true → Segment cs
segment_units-Segment [] h = cc
segment_units-Segment (c ∷ cs) h =
    let first : is_alnum c ≡ true = ground arith in
    let rest : all is_segment_unit cs ≡ true = ground arith in
    ((λ dot. ground arith), ((λ slash. ground arith), no_slashes cs rest), ground arith)

key_segment-IsSegment : (v : Value) → key_segment v ≡ true → IsSegment v
unfolding segment
key_segment-IsSegment (str s) h = record {
  name = s;
  same = refl;
  one = segment_units-Segment (units s) h;
}
key_segment-IsSegment _ h = cc

sha_text-IsDigest : (v : Value) → sha_text v ≡ true → IsDigest v
unfolding valid_sha256
sha_text-IsDigest (str s) h = record {
  digits = s;
  same = refl;
  long = (==_iff (length (units s)) 64).0 (and-left _ _ h);
  hex = all_hex (units s) (and-right _ _ h);
}
sha_text-IsDigest _ h = cc

in_range-int :
    (low high : ℕ) (v : Value)
    → in_range low high v ≡ true
    → (n : ℕ) × (v ≡ int n) × (low ≤ n) × (n ≤ high)
in_range-int low high (num (pos n)) h = (n, ground arith, ground arith, ground arith)
in_range-int low high _ h = cc

validate-parts :
    (job : Value)
    → validate_compiler_job job ≡ ok tt
    → (job_fields_ok job ≡ true) × (archive_fields_ok job ≡ true) × (keys_bound job ≡ true)
unfolding validate_compiler_job
validate-parts job h = ground arith

-- The fields of the job beside its keys.
record AreWellFormed (job : Value) : Type 0 where
  account : IsSegment (get job "accountId")
  service : IsSegment (get job "serviceId")
  deployment : IsSegment (get job "deploymentId")
  request : IsSegment (get job "compilerRequestId")
  manifest : IsDigest (get job "manifestSha256")
  format : get (get job "frozenManifest") "sourceFormat" ≡ str "xmcl_server_bundle"

job_fields_ok-AreWellFormed : (job : Value) → job_fields_ok job ≡ true → AreWellFormed job
unfolding job_fields_ok
job_fields_ok-AreWellFormed job h =
    let upto_request = and-left _ _ (and-left _ _ h) in
    let upto_manifest = and-left _ _ upto_request in
    let upto_deployment = and-left _ _ upto_manifest in
    let upto_service = and-left _ _ upto_deployment in
    record {
      account = key_segment-IsSegment _ (and-right _ _ (and-left _ _ upto_service));
      service = key_segment-IsSegment _ (and-right _ _ upto_service);
      deployment = key_segment-IsSegment _ (and-right _ _ upto_deployment);
      manifest = sha_text-IsDigest _ (and-right _ _ upto_manifest);
      request = key_segment-IsSegment _ (and-right _ _ upto_request);
      format = eq-str_strict _ _ (and-right _ _ h);
    }

archive_fields_ok-IsSegment :
    (job : Value)
    → archive_fields_ok job ≡ true
    → IsSegment (get (get job "frozenManifest") "importId")
unfolding archive_fields_ok
archive_fields_ok-IsSegment job h = key_segment-IsSegment _ (and-right _ _ h)

archive_fields_ok-IsDigest :
    (job : Value) → archive_fields_ok job ≡ true → IsDigest (get (archive_of job) "sha256")
unfolding archive_fields_ok
archive_fields_ok-IsDigest job h =
    sha_text-IsDigest _ (and-right _ _ (and-left _ _ (and-left _ _ (and-left _ _ h))))

archive-size :
    (job : Value)
    → archive_fields_ok job ≡ true
    → (n : ℕ) × (get (archive_of job) "sizeBytes" ≡ int n)
      × (1 ≤ n)
      × (n ≤ max_bundle_archive_bytes)
unfolding archive_fields_ok
archive-size job h =
    in_range-int 1 max_bundle_archive_bytes (get (archive_of job) "sizeBytes")
      (and-right _ _ (and-left _ _ (and-left _ _ h)))

keys-parts :
    (job : Value)
    → keys_bound job ≡ true
    → (get (archive_of job) "key" ≡ str (input_key job))
      × (get job "expectedContentKey" ≡ str (content_key job))
unfolding keys_bound
keys-parts job h = (eq-str_strict _ _ (and-left _ _ h), eq-str_strict _ _ (and-right _ _ h))

-- In a job that is accepted the key of the input archive and the key of the content lie under the
-- account and the service of the job and are made of its import and its manifest digest. The ids of
-- account, service, deployment, request and import are each one segment of a path, the digests of
-- manifest and archive are 64 hexadecimal digits, the format is that of a server bundle, and the
-- archive's size is a natural number from 1 to the limit on archives.
pub validate_compiler_job-IsBound : (job : Value) → validate_compiler_job job ≡ ok tt → IsBound job
validate_compiler_job-IsBound job h =
    let (fields, archive, keys) = validate-parts job h in
    let formed = job_fields_ok-AreWellFormed job fields in
    let (input, content) = keys-parts job keys in
    record {
      input = input;
      content = content;
      account = formed.account;
      service = formed.service;
      deployment = formed.deployment;
      request = formed.request;
      imported = archive_fields_ok-IsSegment job archive;
      manifest = formed.manifest;
      archive = archive_fields_ok-IsDigest job archive;
      format = formed.format;
      size = archive-size job archive;
    }
