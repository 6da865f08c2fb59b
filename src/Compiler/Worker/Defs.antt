-- ===== src/Compiler/Worker/Defs.antt =====
-- `CompilerWorker.run` and what it calls, over an arbitrary world.
use xmcl_shared_node_agent.Base.{
  ℕ, ◌+◌, min, String, Bool, true, false, not, ◌&&◌, ◌||◌, List, [], ◌∷◌, Option, none, some,
  if◌then◌else◌, str_eq, length, ◌==◌,
}
use xmcl_shared_node_agent.Base.Int.{pos}
use xmcl_shared_node_agent.Js.Value.{
  Value, str, num, arr, obj, field, end, int, get, elements, of_list, strict_eq, truthy, one_of,
  is_array, is_safe_integer, max_safe,
}
use xmcl_shared_node_agent.Js.Host.{Host, Url}
use xmcl_shared_node_agent.Js.Stream.{Chunk, read_stream}
use xmcl_shared_node_agent.Js.Fault.{Fault, compiler_failure, code_of, Result, ok, err, ensure}
use xmcl_shared_node_agent.Limits.{max_bundle_archive_bytes}
use xmcl_shared_node_agent.Compiler.Job.{validate_compiler_job, archive_of, sha_text, in_range}
use xmcl_shared_node_agent.Compiler.Grants.{verify_grant_set, is_exact_reconciliation_grant}
use xmcl_shared_node_agent.Compiler.Exec.{
  get_grants, download, build, prepare_upload, upload, reconcile, publish, failed, Log, Locals,
  Exec, pure, lift, call, modify, or_catch, ◌>>=◌, ◌>>◌,
}

-- A response's body: a stream, or a body that has no reader and is taken whole.
pub data Body : Type 0 where
  stream : List Chunk → Body
  whole : List ℕ → Body

-- `declared` is `Number(headers.get("content-length") ?? 0)`.
pub record Response : Type 0 where
  pub is_ok : Bool
  pub redirected : Bool
  pub url : Value
  pub declared : Value
  pub body : Body

-- What a builder gives: `archive` is there if it is a `Uint8Array`.
pub record Built : Type 0 where
  pub archive : Option (List ℕ)
  pub content : Value
  pub descriptor : Value

-- The control plane, the object store and the builder: arbitrary answers to the calls so far.
pub record World : Type 0 where
  pub grants : Log → Result Value
  pub input_response : Log → Result Response
  pub build : Log → Value → Result Built
  pub prepare : Log → Value → Result Value
  pub upload_response : Log → Result Response
  pub reconcile_response : Log → Result Response
  pub publish : Log → Value → Result (Unit {0})
  pub failed : Log → String → Result (Unit {0})

-- The checks of bundle.mjs and reviewed-builder.mjs that a job passes through.
pub record Checks : Type 0 where
  pub validate_bundle : List ℕ → Value → Result Value
  pub validate_immutable_content : Built → Result (Unit {0})

-- `exactRequest`: a failure that is no `CompilerFailure` gets the code of the request.
abbrev pub normalize : {A : Type 0} → String → Result A → Result A
normalize code (ok a) = ok a
normalize code (err (compiler_failure c)) = err (compiler_failure c)
normalize code (err _) = err (compiler_failure code)

abbrev pub handled : {A : Type 0} → (Response → Result A) → Result Response → Result A
handled validate (ok r) = validate r
handled validate (err e) = err e

abbrev pub same_href : Option Url → Option Url → Bool
same_href (some a) (some b) = str_eq a.href b.href
same_href _ _ = false

module _ (host : Host) where
  -- A response that is ok, not redirected, and from the address that was asked.
  unfoldable pub response_ok : Response → Value → Bool
  response_ok r url =
      r.is_ok
      && not r.redirected
      && (not (truthy r.url) || same_href (host.parse_url r.url) (host.parse_url url))

  -- `readExactBody`
  unfoldable pub read_exact_body : ℕ → Body → Result (List ℕ)
  read_exact_body size (whole bytes) =
      if length bytes == size then ok bytes else err (compiler_failure "input_size_mismatch")
  read_exact_body size (stream chunks) =
      elim (read_stream (min size max_bundle_archive_bytes)
        (record {
          too_large = compiler_failure "input_size_mismatch";
          not_bytes = compiler_failure "input_download_failed";
        })
        chunks) [
          | err e ↦ err e
          | ok bytes ↦
              if length bytes == size
              then ok bytes
              else err (compiler_failure "input_size_mismatch")
        ]

  -- `hashExactBody`: the hash of the chunks in order is the hash of the whole.
  unfoldable pub hash_exact_body : ℕ → Body → Result String
  hash_exact_body size (whole bytes) =
      if length bytes == size
      then ok (host.sha256 bytes)
      else err (compiler_failure "content_reconciliation_failed")
  hash_exact_body size (stream chunks) =
      elim (read_stream size
        (record {
          too_large = compiler_failure "content_reconciliation_failed";
          not_bytes = compiler_failure "content_reconciliation_failed";
        })
        chunks) [
          | err e ↦ err e
          | ok bytes ↦
              if length bytes == size
              then ok (host.sha256 bytes)
              else err (compiler_failure "content_reconciliation_failed")
        ]

  -- A download by the size that it declares.
  unfoldable pub accept_sized : Value → Body → Value → Result (List ℕ)
  unfolding read_exact_body
  accept_sized expected body (num (pos size)) =
      if in_range 1 max_bundle_archive_bytes (int size)
        && strict_eq (int size) (get expected "sizeBytes")
      then elim (read_exact_body size body) [
        | err e ↦ err e
        | ok bytes ↦
            if strict_eq (str (host.sha256 bytes)) (get expected "sha256")
            then ok bytes
            else err (compiler_failure "input_hash_mismatch")
      ]
      else err (compiler_failure "input_size_mismatch")
  accept_sized expected body _ = err (compiler_failure "input_size_mismatch")

  -- The response that `downloadExact` accepts; `expected` is the archive of the frozen manifest.
  unfoldable pub accept_download : Value → Value → Response → Result (List ℕ)
  unfolding response_ok accept_sized
  accept_download url expected r =
      if response_ok r url
      then accept_sized expected r.body r.declared
      else err (compiler_failure "input_download_failed")

  unfoldable pub accept_upload : Value → Response → Result (Unit {0})
  unfolding response_ok
  accept_upload url r = ensure (response_ok r url) (compiler_failure "content_upload_failed")

  -- A stored object by the size that it declares.
  unfoldable pub accept_stored : Value → Body → Value → Result (Unit {0})
  unfolding hash_exact_body
  accept_stored content body (num (pos size)) =
      if is_safe_integer (int size) && strict_eq (int size) (get content "compressedSize")
      then elim (hash_exact_body size body) [
        | err e ↦ err e
        | ok digest ↦
            ensure (strict_eq (str digest) (get content "sha256"))
              (compiler_failure "content_reconciliation_failed")
      ]
      else err (compiler_failure "content_reconciliation_failed")
  accept_stored content body _ = err (compiler_failure "content_reconciliation_failed")

  -- The response that `reconcileExactUpload` accepts, for the content that is to be there.
  unfoldable pub accept_reconciliation : Value → Value → Response → Result (Unit {0})
  unfolding response_ok accept_stored
  accept_reconciliation url content r =
      if response_ok r url
      then accept_stored content r.body r.declared
      else err (compiler_failure "content_reconciliation_failed")

-- `built.content.entries`, added up
unfoldable pub total_size : List Value → ℕ
total_size [] = 0
total_size (v ∷ vs) = elim (get v "sizeBytes") [
  | num (pos n) ↦ n + total_size vs
  | _ ↦ total_size vs
]

abbrev pub paths_of : List Value → List Value
paths_of [] = []
paths_of (v ∷ vs) = get v "path" ∷ paths_of vs

unfoldable pub content_of : Built → Value
content_of built = obj (
    field "key" (get built.content "key") (
      field "sha256" (get built.content "sha256") (
        field "compressedSize" (get built.content "sizeBytes") (
          field "logicalSize" (int (total_size (elements (get built.content "entries")))) (
            field "paths" (arr (of_list (paths_of (elements (get built.content "entries")))))
              end)))))

abbrev pub compatibility_of : Value → Value
compatibility_of job = get (get job "frozenManifest") "compatibility"

unfoldable pub descriptor_of : Value → Built → Value
descriptor_of job built = obj (
    field "schemaVersion" (int 1) (
      field "minecraftVersion" (get (compatibility_of job) "minecraftVersion") (
        field "java" (get (compatibility_of job) "java") (
          field "runtimeCatalog"
            (obj (field "sha256" (get (get (compatibility_of job) "runtimeCatalog") "sha256") end))
            (field "loader"
              (obj (
                field "kind" (get (compatibility_of job) "loader")
                  (field "version" (get (compatibility_of job) "loaderVersion") end)))
              (field "launch"
                (obj (
                  field "kind" (get (get built.descriptor "launch") "kind") (
                    field "path" (get (get built.descriptor "launch") "path")
                      (field "arguments" (get (get built.descriptor "launch") "arguments") end))))
                (field "contentSha256" (get built.content "sha256") end)))))))

-- `publicationForControlPlane`, for content whose entries are an array.
unfoldable pub publication_for : Value → Built → Value
publication_for job built = obj (
    field "deploymentId" (get job "deploymentId") (
      field "manifestSha256" (get job "manifestSha256")
        (field "content" (content_of built) (field "descriptor" (descriptor_of job built) end))))

abbrev pub is_object : Value → Bool
is_object (obj fs) = true
is_object (arr vs) = true
is_object _ = false

-- `verifyPreparedUpload`
unfoldable pub verify_prepared_upload : Value → Value → Result Value
verify_prepared_upload value job =
    let publication = get value "publication" in
    let content = get publication "content" in
    if one_of ("upload_prepared" ∷ "upload_existing" ∷ []) (get value "status")
      && strict_eq (get publication "deploymentId") (get job "deploymentId")
      && strict_eq (get publication "manifestSha256") (get job "manifestSha256")
      && strict_eq (get content "key") (get job "expectedContentKey")
      && sha_text (get content "sha256")
      && in_range 1 max_safe (get content "compressedSize")
      && in_range 1 max_safe (get content "logicalSize")
      && is_array (get content "paths")
      && is_object (get publication "descriptor")
    then ok publication
    else err (compiler_failure "invalid_upload_preparation")

-- `verifyBuiltContent`, past `validateImmutableContent`
unfoldable pub built_ok : Built → Value → Bool
built_ok built job =
    strict_eq (get built.content "key") (get job "expectedContentKey")
    && strict_eq (get (get built.descriptor "launch") "path") (str ".xmcl/launch.sh")
    && strict_eq (get (get built.descriptor "launch") "kind") (str "generated-server-launcher")
    && is_array (get (get built.descriptor "launch") "arguments")
    && length (elements (get (get built.descriptor "launch") "arguments")) == 0

unfoldable pub verify_built_content : Checks → Built → Value → Result (List ℕ)
unfolding built_ok
verify_built_content checks built job = elim built.archive [
  | none ↦ err (compiler_failure "invalid_builder_output")
  | some archive ↦
      if built_ok built job
      then elim (checks.validate_immutable_content built) [ err e ↦ err e | ok _ ↦ ok archive ]
      else err (compiler_failure "invalid_builder_output")
]

-- `classifyFailure`
abbrev pub failure_code : Option String → String
failure_code none = "compiler_failed"
failure_code (some c) =
    if str_eq c "unsupported_compatibility" || str_eq c "compiler_unavailable"
    then c
    else "compiler_failed"

unfoldable pub classify_failure : Fault → String
classify_failure e = failure_code (code_of e)

abbrev pub start : Locals
start = record {
  log = [];
  publication = none;
  upload_preparation_started = false;
  publication_started = false;
}

-- What `run` returns.
pub data Outcome : Type 0 where
  published : Value → Outcome
  published_callback_uncertain : Option Value → Outcome
  upload_reconciliation_uncertain : Option Value → Outcome
  failed_with : String → Outcome

module _ (host : Host) (checks : Checks) (w : World) (job : Value) where
  unfoldable pub download_exact : Value → Exec (List ℕ)
  download_exact input = call (download (get input "url")) (λ log.
      normalize "input_download_failed"
        (handled (accept_download host (get input "url") (archive_of job)) (w.input_response log)))

  unfoldable pub upload_exact : Value → List ℕ → Exec (Unit {0})
  upload_exact output archive = call (upload (get output "url") archive) (λ log.
      normalize "content_upload_failed"
        (handled (accept_upload host (get output "url")) (w.upload_response log)))

  -- No request is made for a grant that is not exact.
  unfoldable pub reconcile_exact_upload : Value → Value → Exec (Unit {0})
  reconcile_exact_upload grant content =
      if is_exact_reconciliation_grant host grant (get content "key")
      then call (reconcile (get grant "url")) (λ log.
        normalize "content_reconciliation_failed" (
          handled (accept_reconciliation host (get grant "url") content)
            (w.reconcile_response log)))
      else lift (err (compiler_failure "invalid_reconciliation_grant"))

  -- From the validation of the job to the verified output of the builder.
  unfoldable pub compile : Exec (Value × Built × List ℕ)
  unfolding download_exact
  compile = do
    lift (validate_compiler_job job)
    grants ← call (get_grants (get job "deploymentId")) w.grants
    pair ← lift (verify_grant_set host grants job none)
    archive ← download_exact pair.0
    bundle ← lift (checks.validate_bundle archive (get job "frozenManifest"))
    built ← call build (λ log. w.build log bundle)
    output ← lift (verify_built_content checks built job)
    pure (pair.1, built, output)

  -- The binding of the output by the control plane, before any upload.
  unfoldable pub prepare : Value → Exec (Value × Value)
  prepare publication = do
    modify (λ s. record s { publication = some publication; upload_preparation_started = true })
    prepared ← call (prepare_upload publication) (λ log. w.prepare log publication)
    bound ← lift (verify_prepared_upload prepared job)
    pure (prepared, bound)

  -- An upload, then the reconciliation of a doubtful one; the other way round where the content may
  -- be there.
  unfoldable pub store : Value → List ℕ → Value → Value → Exec (Unit {0})
  unfolding upload_exact reconcile_exact_upload
  store output archive prepared bound =
      let reconciled =
        reconcile_exact_upload (get prepared "reconciliation") (get bound "content") in
      let uploaded = or_catch (upload_exact output archive) reconciled in
      if strict_eq (get prepared "status") (str "upload_prepared")
      then uploaded
      else or_catch reconciled uploaded

  unfoldable pub announce : Value → Exec (Unit {0})
  announce bound = do
    modify (λ s. record s { publication = some bound; publication_started = true })
    call (publish bound) (λ log. w.publish log bound)

  unfoldable pub attempt : Exec (Unit {0})
  unfolding compile prepare store announce
  attempt = do
    compiled ← compile
    upload_plan ← prepare (publication_for job compiled.1)
    store compiled.0 compiled.2 upload_plan.0 upload_plan.1
    announce upload_plan.1

  -- The `catch` of `run`.
  unfoldable pub give_up : Fault → Locals → Outcome × Log
  unfolding classify_failure
  give_up e s =
      let code = classify_failure e in
      let report = call {A = Unit {0}} (failed code) (λ log. w.failed log code) s in
      if s.publication_started
      then (published_callback_uncertain s.publication, s.log)
      else if s.upload_preparation_started
      then (upload_reconciliation_uncertain s.publication, s.log)
      else (failed_with code, report.1.log)

  abbrev pub conclude : Result (Unit {0}) × Locals → Outcome × Log
  conclude (ok _, s) = (published (get job "deploymentId"), s.log)
  conclude (err e, s) = give_up e s

  unfoldable pub run : Outcome × Log
  unfolding attempt give_up
  run = conclude (attempt start)
