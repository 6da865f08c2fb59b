-- ===== src/Compiler/Tests.antt =====
-- A job that is compiled and published, in a world that answers every call.
use xmcl_shared_node_agent.Base.{◌≡◌, refl, true, false, [], ◌∷◌, some, none}
use xmcl_shared_node_agent.Js.Value.{Value, undefined, str, obj, arr, field, end, int, get, of_list}
use xmcl_shared_node_agent.Js.Host.{Host, Url}
use xmcl_shared_node_agent.Js.Stream.{Chunk}
use xmcl_shared_node_agent.Js.Fault.{ok}
use xmcl_shared_node_agent.Js.Value
use xmcl_shared_node_agent.Js.Text
use xmcl_shared_node_agent.Js.Host
use xmcl_shared_node_agent.Js.Stream
use xmcl_shared_node_agent.Compiler.Grants
use xmcl_shared_node_agent.Compiler.Job.Bound.{IsBound, validate_compiler_job-IsBound}
use xmcl_shared_node_agent.Compiler.Grants.{verify_grant_set}
use xmcl_shared_node_agent.Compiler.Grants.Exact.{IsGranted, verify_grant_set-IsGranted}
use xmcl_shared_node_agent.Compiler.Worker.Defs.{
  World, Checks, Response, stream, Built, published, response_ok, accept_download,
  accept_reconciliation, accept_upload, verify_built_content, verify_prepared_upload, run,
}
use xmcl_shared_node_agent.Compiler.Worker.Live.{uploads, run-published}
use xmcl_shared_node_agent.Compiler.Sample.{
  print, host, input_name, content_name, archive, job, grant, output_grant, grants, job_valid,
}
use xmcl_shared_node_agent.Compiler.Worker.Order.{IsLawful, Tells, run-IsLawful, run-Tells}
use xmcl_shared_node_agent.Compiler.Worker.Content.{
  Holds, IsFrom, IsExpected, IsStored, accept_download-IsExpected, accept_reconciliation-IsStored,
}

abbrev response : Response
response = record {
  is_ok = true;
  redirected = false;
  url = str "https://s/";
  declared = int 2;
  body = stream (Chunk.bytes (1 ∷ []) ∷ Chunk.bytes (2 ∷ []) ∷ []);
}

validate_compiler_job-IsBound_example : IsBound job
validate_compiler_job-IsBound_example = validate_compiler_job-IsBound job job_valid

granted : verify_grant_set host grants job none ≡ ok (grant input_name "GET", output_grant)
unfolding verify_grant_set Grants.grants_bound Value.same_keys get Grants.find_method Value.elements
    of_list Grants.pair_ok Host.exact_https_url
granted = refl

verify_grant_set-IsGranted_example :
    IsGranted host grants job none (grant input_name "GET", output_grant)
verify_grant_set-IsGranted_example =
    verify_grant_set-IsGranted host grants job none (grant input_name "GET", output_grant) granted

downloaded : accept_download host (str "https://s/") archive response ≡ ok (1 ∷ 2 ∷ [])
unfolding accept_download get Stream.read_stream
downloaded = refl

accept_download-IsExpected_example :
    IsFrom host (str "https://s/") response
    × Holds response.body (1 ∷ 2 ∷ [])
    × IsExpected host archive (1 ∷ 2 ∷ [])
accept_download-IsExpected_example =
    accept_download-IsExpected host (str "https://s/") archive response (1 ∷ 2 ∷ []) downloaded

abbrev content : Value
content = obj (
    field "key" (str content_name) (
      field "sha256" (str print) (
        field "compressedSize" (int 2)
          (field "logicalSize" (int 3) (field "paths" (arr (of_list [])) end)))))

reconciled : accept_reconciliation host (str "https://s/") content response ≡ ok tt
unfolding accept_reconciliation get Stream.read_stream
reconciled = refl

accept_reconciliation-IsStored_example :
    (response_ok host response (str "https://s/") ≡ true) × IsStored host content response.body
accept_reconciliation-IsStored_example =
    accept_reconciliation-IsStored host (str "https://s/") content response reconciled

-- What the builder makes, and what the control plane binds.
abbrev built : Built
built = record {
  archive = some (7 ∷ []);
  content =
      obj (
        field "key" (str content_name)
          (field "sha256" (str print) (field "sizeBytes" (int 2) end)));
  descriptor = obj (
      field "launch"
        (obj (
          field "path" (str ".xmcl/launch.sh") (
            field "kind" (str "generated-server-launcher")
              (field "arguments" (arr (of_list [])) end))))
        end);
}

abbrev prepared : Value
prepared = obj (
    field "status" (str "upload_prepared") (
      field "publication"
        (obj (
          field "deploymentId" (str "d1") (
            field "manifestSha256" (str print)
              (field "content" content (field "descriptor" (obj end) end)))))
        end))

abbrev checks : Checks
checks = record { validate_bundle = λ bytes v. ok v; validate_immutable_content = λ b. ok tt }

abbrev world : World
world = record {
  grants = λ log. ok grants;
  input_response = λ log. ok response;
  build = λ log v. ok built;
  prepare = λ log v. ok prepared;
  upload_response = λ log. ok response;
  reconcile_response = λ log. ok response;
  publish = λ log v. ok tt;
  failed = λ log code. ok tt;
}

output_verified : verify_built_content checks built job ≡ ok (7 ∷ [])
unfolding verify_built_content get Value.elements of_list
output_verified = refl

bound : verify_prepared_upload prepared job ≡ ok (get prepared "publication")
unfolding verify_prepared_upload get Text.valid_sha256 of_list
bound = refl

uploaded : accept_upload host (get output_grant "url") response ≡ ok tt
unfolding accept_upload get
uploaded = refl

run-published_example : (run host checks world job).0 ≡ published (get job "deploymentId")
run-published_example =
    run-published host checks world job
      (record {
        grants = grants;
        pair = (grant input_name "GET", output_grant);
        input = response;
        archive = 1 ∷ 2 ∷ [];
        bundle = get job "frozenManifest";
        built = built;
        output = 7 ∷ [];
        prepared = prepared;
        bound = get prepared "publication";
        valid = job_valid;
        granting = λ log. refl;
        granted = granted;
        responding = λ log. refl;
        downloaded = unfold get in downloaded;
        checked = refl;
        building = λ log. refl;
        verified = output_verified;
        preparing = λ log. refl;
        binding = bound;
        announcing = λ log. refl;
      })
      (uploads response (λ log. refl) uploaded)

run-IsLawful_example : IsLawful (run host checks world job).1
run-IsLawful_example = run-IsLawful host checks world job

run-Tells_example :
    Tells host checks world job (run host checks world job).0 (run host checks world job).1
run-Tells_example = run-Tells host checks world job
