-- ===== src/Http/Control.antt =====
-- `CallbackBoundControlPlane`: the control plane as the worker of a job sees it.
use xmcl_shared_node_agent.Base.{
  String, Bool, true, false, ◌&&◌, ◌||◌, [], ◌∷◌, Option, none, some, any, str_eq,
}
use xmcl_shared_node_agent.Base.Int.{ℤ}
use xmcl_shared_node_agent.Js.Value.{
  Value, str, int, obj, end, field, get, plain_object, same_keys, strict_eq, truthy, one_of,
  is_array, is_undefined, safe_int, max_safe,
}
use xmcl_shared_node_agent.Js.Host.{Host, exact_https_url}
use xmcl_shared_node_agent.Js.Fault.{
  Fault, compiler_failure, Result, ok, ensure, of_option, ◌>>=◌, ◌>>◌,
}
use xmcl_shared_node_agent.Compiler.Job.{sha_text, in_range}
use xmcl_shared_node_agent.Compiler.Grants.{verify_grant_set}
use xmcl_shared_node_agent.Compiler.Exec.{Call, Log, get_grants, publish, failed}
use xmcl_shared_node_agent.Compiler.Worker.Defs.{Response, Built, World}
use xmcl_shared_node_agent.Http.Callbacks.{
  CallbackResponse, Callbacks, max_callback_bytes, read_bounded_response, invalid_grants, post,
  callback_grants,
}

-- The grants of the object store and the builder, and the clock.
pub record Outside : Type 0 where
  pub input_response : Log → Result Response
  pub build : Log → Value → Result Built
  pub upload_response : Log → Result Response
  pub reconcile_response : Log → Result Response
  pub now : Log → ℤ

-- Whether a call of a kind has succeeded.
unfoldable pub succeeded : (Call → Bool) → Log → Bool
succeeded kind [] = false
succeeded kind ((c, good) ∷ log) = kind c && good || succeeded kind log

abbrev pub is_refresh : Call → Bool
is_refresh (get_grants d) = true
is_refresh _ = false

abbrev pub is_terminal : Call → Bool
is_terminal (publish p) = true
is_terminal (failed c) = true
is_terminal _ = false

-- `terminalCallbackDelivered`
abbrev pub delivered : Log → Bool
delivered log = succeeded is_terminal log

abbrev pub invalid_preparation : Fault
invalid_preparation = compiler_failure "invalid_upload_preparation"

abbrev pub is_safe_date : Option ℤ → Bool
is_safe_date none = false
is_safe_date (some t) = safe_int t

module _ (host : Host) (job : Value) where
  -- `getGrants`, for the deployment of the job
  unfoldable pub plane_grants : Callbacks → Outside → Log → Result Value
  unfolding callback_grants
  plane_grants callbacks outside log = do
    ensure (strict_eq (get job "deploymentId") (get job "deploymentId")) invalid_grants
    grants ← callback_grants host job callbacks log
    pair ← verify_grant_set host grants job (some (outside.now log))
    ok grants

  -- The publication is of this job.
  abbrev pub of_this_job : Value → Bool
  of_this_job publication =
      truthy publication
      && strict_eq (get publication "deploymentId") (get job "deploymentId")
      && strict_eq (get publication "manifestSha256") (get job "manifestSha256")
      && strict_eq (get (get publication "content") "key") (get job "expectedContentKey")

  abbrev pub publication_payload : String → Value → Value
  publication_payload status publication = obj (
      field "schemaVersion" (int 1) (
        field "status" (str status) (
          field "compilerRequestId" (get job "compilerRequestId") (
            field "deploymentId" (get job "deploymentId") (
              field "manifestSha256" (get job "manifestSha256") (
                field "content" (get publication "content")
                  (field "descriptor" (get publication "descriptor") end)))))))

  -- `publish`
  unfoldable pub plane_publish : Callbacks → Log → Value → Result (Unit {0})
  unfolding post
  plane_publish callbacks log publication = do
    ensure (of_this_job publication) (compiler_failure "invalid_publication")
    r ←
        post host job callbacks log "published" (get job "deploymentId")
          (publication_payload "published" publication)
    ok tt

  abbrev pub is_reconciliation_grant : Value → Value → Bool
  is_reconciliation_grant v key =
      strict_eq (get v "key") key
      && strict_eq (get v "method") (str "GET")
      && exact_https_url host (get v "url")
      && is_safe_date (host.parse_date (get v "expiresAt"))
      && is_undefined (get v "headers")

  unfoldable pub preparation_ok : Value → Bool
  unfolding exact_https_url
  preparation_ok v =
      plain_object v
      && same_keys v (
          "schemaVersion" ∷ "status" ∷ "compilerRequestId" ∷ "deploymentId" ∷ "manifestSha256"
          ∷ "content" ∷ "descriptor" ∷ "reconciliation" ∷ [])
      && strict_eq (get v "schemaVersion") (int 1)
      && one_of ("upload_prepared" ∷ "upload_existing" ∷ []) (get v "status")
      && strict_eq (get v "compilerRequestId") (get job "compilerRequestId")
      && strict_eq (get v "deploymentId") (get job "deploymentId")
      && strict_eq (get v "manifestSha256") (get job "manifestSha256")
      && plain_object (get v "content")
      && plain_object (get v "descriptor")
      && plain_object (get v "reconciliation")
      && strict_eq (get (get v "content") "key") (get job "expectedContentKey")
      && sha_text (get (get v "content") "sha256")
      && in_range 1 max_safe (get (get v "content") "compressedSize")
      && in_range 1 max_safe (get (get v "content") "logicalSize")
      && is_array (get (get v "content") "paths")
      && is_reconciliation_grant (get v "reconciliation") (get job "expectedContentKey")

  -- `parseUploadPreparation`
  unfoldable pub parse_upload_preparation : CallbackResponse → Result Value
  unfolding read_bounded_response preparation_ok
  parse_upload_preparation r = do
    bytes ← read_bounded_response r max_callback_bytes invalid_preparation
    v ← of_option (host.parse_json bytes) invalid_preparation
    ensure (preparation_ok v) invalid_preparation
    ok (
        obj (
          field "status" (get v "status") (
            field "publication"
              (obj (
                field "deploymentId" (get v "deploymentId") (
                  field "manifestSha256" (get v "manifestSha256") (
                    field "content" (get v "content")
                      (field "descriptor" (get v "descriptor") end)))))
              (field "reconciliation" (get v "reconciliation") end))))

  -- `prepareUpload`
  unfoldable pub plane_prepare : Callbacks → Log → Value → Result Value
  unfolding post parse_upload_preparation
  plane_prepare callbacks log publication = do
    ensure (of_this_job publication) invalid_preparation
    r ←
        post host job callbacks log "upload-prepared" (get job "deploymentId")
          (publication_payload "upload_prepared" publication)
    parse_upload_preparation r

  abbrev pub failure_payload : String → Value
  failure_payload code = obj (
      field "schemaVersion" (int 1) (
        field "status" (str "failed") (
          field "compilerRequestId" (get job "compilerRequestId") (
            field "deploymentId" (get job "deploymentId")
              (field "manifestSha256" (get job "manifestSha256") (field "code" (str code) end))))))

  -- `failed`, for the deployment and the manifest of the job
  unfoldable pub plane_failed : Callbacks → Log → String → Result (Unit {0})
  unfolding post succeeded
  plane_failed callbacks log code = do
    ensure (succeeded is_refresh log) invalid_grants
    ensure
        (strict_eq (get job "deploymentId") (get job "deploymentId")
          && strict_eq (get job "manifestSha256") (get job "manifestSha256")
          && any (str_eq code)
              ("unsupported_compatibility" ∷ "compiler_unavailable" ∷ "compiler_failed" ∷ []))
        (compiler_failure "invalid_failure_callback")
    r ← post host job callbacks log "failed" (get job "deploymentId") (failure_payload code)
    ok tt

  -- The world of a worker whose control plane is bound to the callbacks of one job.
  unfoldable pub bound_world : Callbacks → Outside → World
  unfolding plane_grants plane_prepare plane_publish plane_failed
  bound_world callbacks outside = record {
    grants = plane_grants callbacks outside;
    input_response = outside.input_response;
    build = outside.build;
    prepare = plane_prepare callbacks;
    upload_response = outside.upload_response;
    reconcile_response = outside.reconcile_response;
    publish = plane_publish callbacks;
    failed = plane_failed callbacks;
  }
