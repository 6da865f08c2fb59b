-- ===== src/WorldSeed.antt =====
-- compiler/src/world-seed.mjs: the worker that restores the seed of a world.
pub mod Exact
mod Tests
use Prim.Native.String.{◌++◌ as append_text}
use xmcl_shared_node_agent.Base.{
  ℕ, ◌*◌, String, Bool, true, false, not, ◌&&◌, List, [], ◌∷◌, length, ◌==◌, if◌then◌else◌,
}
use xmcl_shared_node_agent.Base.Int.{pos}
use xmcl_shared_node_agent.Js.Text.{js_length, starts_with, nonempty, valid_id, valid_sha256}
use xmcl_shared_node_agent.Js.Value.{
  Value, undefined, num, str, obj, arr, int, get, keys, items, elements, strict_eq, string_that,
  is_string, truthy, is_array, is_safe_integer,
}
use xmcl_shared_node_agent.Js.Host.{Host}
use xmcl_shared_node_agent.Js.Fault.{
  Fault, world_seed_failure, Result, ok, err, ensure, ◌>>=◌, ◌>>◌,
}
use xmcl_shared_node_agent.Compiler.Job.{text, in_range}

-- `exactHttpsUrl` of this file: the text begins with the scheme.
unfoldable pub seed_https_url : Value → Bool
seed_https_url = string_that (λ s. starts_with s "https://")

abbrev pub invalid_seed_grants : Fault
invalid_seed_grants = world_seed_failure "invalid_world_seed_grants"

-- `Object.keys(value ?? {}).length`
unfoldable pub key_count : Value → ℕ
key_count (obj fs) = length (keys fs)
key_count (arr vs) = length (items vs)
key_count (str s) = js_length s
key_count _ = 0

unfoldable pub seed_grant_ok : Value → Value → Bool
unfolding seed_https_url key_count
seed_grant_ok input job =
    truthy input
    && strict_eq (get input "method") (str "GET")
    && strict_eq (get input "key") (get (get job "archive") "key")
    && seed_https_url (get input "url")
    && is_string (get input "expiresAt")
    && key_count (get input "headers") == 0

abbrev pub seed_grants_ok : Value → Value → Bool
seed_grants_ok grants job =
    truthy grants
    && strict_eq (get grants "accountId") (get job "accountId")
    && strict_eq (get grants "serviceId") (get job "serviceId")
    && strict_eq (get grants "seedId") (get job "seedId")
    && is_array (get grants "grants")

abbrev pub only_grant : List Value → Value → Result Value
only_grant (input ∷ []) job = ensure (seed_grant_ok input job) invalid_seed_grants >> ok input
only_grant _ job = err invalid_seed_grants

-- `verifyWorldSeedGrantSet`
unfoldable pub verify_seed_grants : Value → Value → Result Value
unfolding seed_grant_ok
verify_seed_grants grants job = do
  ensure (seed_grants_ok grants job) invalid_seed_grants
  only_grant (elements (get grants "grants")) job

-- A response, with the number of its content length and the bytes of `arrayBuffer`.
pub record SeedResponse : Type 0 where
  pub is_ok : Bool
  pub declared : Value
  pub bytes : Result (List ℕ)

unfoldable pub accept_seed : Host → Value → List ℕ → Result (List ℕ)
accept_seed host expected bytes =
    if strict_eq (int (length bytes)) (get expected "sizeBytes")
      && strict_eq (str (host.sha256 bytes)) (get expected "sha256")
    then ok bytes
    else err (world_seed_failure "world_seed_hash_mismatch")

-- `Number.isSafeInteger(length) && length >= 1 && length === expected.sizeBytes`
abbrev pub declares : Value → Value → Bool
declares (num (pos n)) expected =
    is_safe_integer (int n) && not (n == 0) && strict_eq (int n) (get expected "sizeBytes")
declares _ expected = false

-- `downloadExactWorldSeed`, from the response
unfoldable pub download_seed : Host → Value → SeedResponse → Result (List ℕ)
unfolding accept_seed
download_seed host expected r = do
  ensure r.is_ok (world_seed_failure "world_seed_download_failed")
  ensure (declares r.declared expected) (world_seed_failure "world_seed_size_mismatch")
  bytes ← r.bytes
  accept_seed host expected bytes

abbrev pub id_text : Value → Bool
id_text = string_that valid_id

-- `shared-hosting/${accountId}/${serviceId}/world-seeds/${seedId}.xmcl-world-seed`
abbrev pub seed_key : Value → String
seed_key job = append_text "shared-hosting/" (
    append_text (text (get job "accountId")) (
      append_text "/" (
        append_text (text (get job "serviceId")) (
          append_text "/world-seeds/" (append_text (text (get job "seedId")) ".xmcl-world-seed")))))

unfoldable pub seed_job_ok : Value → Bool
seed_job_ok job =
    truthy job
    && id_text (get job "accountId")
    && id_text (get job "serviceId")
    && id_text (get job "seedId")
    && string_that nonempty (get job "worldName")
    && truthy (get job "archive")
    && string_that valid_sha256 (get (get job "archive") "sha256")
    && in_range 1 (512 * 1024 * 1024) (get (get job "archive") "sizeBytes")
    && strict_eq (get (get job "archive") "key") (str (seed_key job))

-- The control plane, the object store and the handler of seeds.
pub record SeedWorld : Type 0 where
  pub grants : Value → Result Value
  pub fetch : Value → Result SeedResponse
  pub unpack : List ℕ → Value → Result Value

-- `WorldSeedWorker.run`
unfoldable pub run_seed : Host → SeedWorld → Value → Result Value
unfolding seed_job_ok verify_seed_grants download_seed
run_seed host w job = do
  ensure (seed_job_ok job) (world_seed_failure "invalid_world_seed_job")
  grants ← w.grants (get job "seedId")
  input ← verify_seed_grants grants job
  response ← w.fetch input
  archive ← download_seed host (get job "archive") response
  w.unpack archive job
