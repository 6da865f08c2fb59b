-- ===== src/Compiler/Job.antt =====
-- `validateCompilerJob` of compiler/src/compiler.mjs.
pub mod Bound
use Prim.Native.String.{◌++◌ as append_text}
use xmcl_shared_node_agent.Base.{
  ℕ, String, Bool, true, false, ◌&&◌, List, [], ◌∷◌, str_eq, leb, ◌≡◌, refl, eq_iff, arith,
}
use xmcl_shared_node_agent.Base.Int.{pos}
use xmcl_shared_node_agent.Js.Value.{
  Value, str, num, get, same_keys, string_that, is_string, strict_eq, truthy, is_safe_integer,
  max_safe,
}
use xmcl_shared_node_agent.Js.Text.{segment, valid_sha256}
use xmcl_shared_node_agent.Js.Fault.{Fault, compiler_failure, Result, ok, ensure, ◌>>◌, ◌>>=◌}
use xmcl_shared_node_agent.Limits.{max_bundle_archive_bytes}

-- The text of a value that was checked to be a string.
abbrev pub text : Value → String
text (str s) = s
text _ = ""

abbrev pub key_segment : Value → Bool
key_segment = string_that (segment 254)

abbrev pub sha_text : Value → Bool
sha_text = string_that valid_sha256

-- `Number.isSafeInteger(v) && low <= v && v <= high`, for a natural `low`
abbrev pub in_range : ℕ → ℕ → Value → Bool
in_range low high (num (pos n)) = leb n max_safe && leb low n && leb n high
in_range low high _ = false

abbrev pub invalid_job : Fault
invalid_job = compiler_failure "invalid_job"

abbrev pub job_keys : List String
job_keys =
    "accountId" ∷ "serviceId" ∷ "deploymentId" ∷ "compilerRequestId" ∷ "manifestSha256"
    ∷ "expectedContentKey" ∷ "frozenManifest" ∷ []

abbrev pub archive_of : Value → Value
archive_of job = get (get job "frozenManifest") "archive"

unfoldable pub job_fields_ok : Value → Bool
job_fields_ok job =
    same_keys job job_keys
    && key_segment (get job "accountId")
    && key_segment (get job "serviceId")
    && key_segment (get job "deploymentId")
    && sha_text (get job "manifestSha256")
    && key_segment (get job "compilerRequestId")
    && is_string (get job "expectedContentKey")
    && strict_eq (get (get job "frozenManifest") "sourceFormat") (str "xmcl_server_bundle")

unfoldable pub archive_fields_ok : Value → Bool
archive_fields_ok job =
    truthy (archive_of job)
    && sha_text (get (archive_of job) "sha256")
    && in_range 1 max_bundle_archive_bytes (get (archive_of job) "sizeBytes")
    && is_string (get (archive_of job) "key")
    && key_segment (get (get job "frozenManifest") "importId")

-- `shared-hosting/${accountId}/${serviceId}/`
abbrev pub key_prefix : Value → String
key_prefix job = append_text "shared-hosting/" (
    append_text (text (get job "accountId"))
      (append_text "/" (append_text (text (get job "serviceId")) "/")))

abbrev pub input_key : Value → String
input_key job = append_text (key_prefix job) (
    append_text "compiler-inputs/"
      (append_text (text (get (get job "frozenManifest") "importId")) ".xmcl-server-bundle"))

abbrev pub content_key : Value → String
content_key job =
    append_text (key_prefix job)
      (append_text "compiler-content/" (append_text (text (get job "manifestSha256")) ".tar.zst"))

unfoldable pub keys_bound : Value → Bool
keys_bound job =
    strict_eq (get (archive_of job) "key") (str (input_key job))
    && strict_eq (get job "expectedContentKey") (str (content_key job))

unfoldable pub validate_compiler_job : Value → Result (Unit {0})
validate_compiler_job job = do
  ensure (job_fields_ok job) invalid_job
  ensure (archive_fields_ok job) invalid_job
  ensure (keys_bound job) invalid_job
