-- ===== src/WorldSeed/Exact.antt =====
-- Which bytes the handler of world seeds is given.
use xmcl_shared_node_agent.Base.{
  ℕ, ◌≡◌, true, List, length, arith, and-left, and-right, Bool-cases, inl, inr, ◌&&◌,
}
use xmcl_shared_node_agent.Js.Value.{Value, str, int, get, strict_eq}
use xmcl_shared_node_agent.Js.Value.Equal.{strict_eq-str, strict_eq-int, eq-str_strict}
use xmcl_shared_node_agent.Js.Host.{Host}
use xmcl_shared_node_agent.Js.Fault.{ok, bind_parts, ensure_parts, world_seed_failure}
use xmcl_shared_node_agent.WorldSeed.{
  SeedResponse, SeedWorld, accept_seed, download_seed, seed_job_ok, seed_key, verify_seed_grants,
  declares, run_seed,
}

module _ (host : Host) where
  accept_seed-same :
      (expected : Value) (bytes archive : List ℕ)
      → accept_seed host expected bytes ≡ ok archive
      → (get expected "sizeBytes" ≡ int (length archive))
        × (get expected "sha256" ≡ str (host.sha256 archive))
  unfolding accept_seed
  accept_seed-same expected bytes archive h =
      elim (Bool-cases (
        strict_eq (int (length bytes)) (get expected "sizeBytes")
        && strict_eq (str (host.sha256 bytes)) (get expected "sha256"))) [
          | inr other ↦ ground arith
          | inl fits ↦
              let same : bytes ≡ archive = ground arith in
              rw (← same) (
                strict_eq-int (length bytes) (get expected "sizeBytes") (and-left _ _ fits),
                strict_eq-str (host.sha256 bytes) (get expected "sha256") (and-right _ _ fits),
              )
        ]

  -- What stands behind a restored seed.
  pub record Unpacks (w : SeedWorld) (job result : Value) : Type 0 where
    pub archive : List ℕ
    pub key : get (get job "archive") "key" ≡ str (seed_key job)
    pub size : get (get job "archive") "sizeBytes" ≡ int (length archive)
    pub digest : get (get job "archive") "sha256" ≡ str (host.sha256 archive)
    pub unpacked : w.unpack archive job ≡ ok result

  download_seed-same :
      (expected : Value) (r : SeedResponse) (archive : List ℕ)
      → download_seed host expected r ≡ ok archive
      → (get expected "sizeBytes" ≡ int (length archive))
        × (get expected "sha256" ≡ str (host.sha256 archive))
  unfolding download_seed
  download_seed-same expected r archive h =
      let (good, sized) =
        ensure_parts r.is_ok (world_seed_failure "world_seed_download_failed") _ archive h in
      let (declared, reading) =
        ensure_parts (declares r.declared expected) (world_seed_failure "world_seed_size_mismatch")
          _ archive sized in
      let (bytes, found, accepted) =
        bind_parts r.bytes (accept_seed host expected) archive reading in
      accept_seed-same expected bytes archive accepted

  job-key :
      (job : Value) → seed_job_ok job ≡ true → get (get job "archive") "key" ≡ str (seed_key job)
  unfolding seed_job_ok
  job-key job h = eq-str_strict _ _ (and-right _ _ h)

  record Steps (w : SeedWorld) (job result : Value) : Type 0 where
    valid : seed_job_ok job ≡ true
    response : SeedResponse
    archive : List ℕ
    downloaded : download_seed host (get job "archive") response ≡ ok archive
    unpacked : w.unpack archive job ≡ ok result

  run_seed-Steps :
      (w : SeedWorld) (job result : Value) → run_seed host w job ≡ ok result → Steps w job result
  unfolding run_seed
  run_seed-Steps w job result h =
      let (valid, given) =
        ensure_parts (seed_job_ok job) (world_seed_failure "invalid_world_seed_job") _ result h in
      let (grants, granted, verifying) = bind_parts (w.grants (get job "seedId")) _ result given in
      let (input, exact, fetching) =
        bind_parts (verify_seed_grants grants job) _ result verifying in
      let (response, responded, downloading) = bind_parts (w.fetch input) _ result fetching in
      let (archive, downloaded, unpacked) =
        bind_parts (download_seed host (get job "archive") response) _ result downloading in
      record {
        valid = valid;
        response = response;
        archive = archive;
        downloaded = downloaded;
        unpacked = unpacked;
      }

  -- A seed is restored only from bytes that have the size and the digest of the job's archive, whose
  -- key is made of the job's account, service and seed, and the result is what the handler made of
  -- these bytes.
  pub run_seed-Unpacks :
      (w : SeedWorld) (job result : Value) → run_seed host w job ≡ ok result → Unpacks w job result
  run_seed-Unpacks w job result h =
      let steps = run_seed-Steps w job result h in
      let (size, digest) =
        download_seed-same (get job "archive") steps.response steps.archive steps.downloaded in
      record {
        archive = steps.archive;
        key = job-key job steps.valid;
        size = size;
        digest = digest;
        unpacked = steps.unpacked;
      }
