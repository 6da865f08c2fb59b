-- ===== src/Compiler/Worker/Live.antt =====
-- When `CompilerWorker.run` publishes.
use xmcl_shared_node_agent.Base.{
  ℕ, ◌≡◌, refl, ◌⊎◌, inl, inr, Bool, true, false, List, none, if◌then◌else◌,
}
use xmcl_shared_node_agent.Js.Value.{Value, get, str, strict_eq}
use xmcl_shared_node_agent.Js.Host.{Host}
use xmcl_shared_node_agent.Js.Fault.{Result, ok, err}
use xmcl_shared_node_agent.Compiler.Job.{validate_compiler_job, archive_of}
use xmcl_shared_node_agent.Compiler.Grants.{verify_grant_set, is_exact_reconciliation_grant}
use xmcl_shared_node_agent.Compiler.Exec.{Log, Locals, Exec, or_catch, recovered, continue}
use xmcl_shared_node_agent.Compiler.Worker.Defs.{
  World, Checks, Response, Built, published, accept_download, accept_upload, accept_reconciliation,
  verify_built_content, publication_for, verify_prepared_upload, compile, prepare, store, announce,
  attempt, start, conclude, run, download_exact, upload_exact, reconcile_exact_upload,
}

-- The steps of a job up to the bound publication succeed, whenever they are asked for.
pub record Builds (host : Host) (checks : Checks) (w : World) (job : Value) : Type 0 where
  pub grants : Value
  pub pair : Value × Value
  pub input : Response
  pub archive : List ℕ
  pub bundle : Value
  pub built : Built
  pub output : List ℕ
  pub prepared : Value
  pub bound : Value
  pub valid : validate_compiler_job job ≡ ok tt
  pub granting : (log : Log) → w.grants log ≡ ok grants
  pub granted : verify_grant_set host grants job none ≡ ok pair
  pub responding : (log : Log) → w.input_response log ≡ ok input
  pub downloaded : accept_download host (get pair.0 "url") (archive_of job) input ≡ ok archive
  pub checked : checks.validate_bundle archive (get job "frozenManifest") ≡ ok bundle
  pub building : (log : Log) → w.build log bundle ≡ ok built
  pub verified : verify_built_content checks built job ≡ ok output
  pub preparing : (log : Log) → w.prepare log (publication_for job built) ≡ ok prepared
  pub binding : verify_prepared_upload prepared job ≡ ok bound
  pub announcing : (log : Log) → w.publish log bound ≡ ok tt

-- Every upload succeeds, or every reconciliation does, whatever becomes of the other.
pub data Stores (host : Host) (w : World) (output_url prepared content : Value) : Type 0 where
  uploads :
      (r : Response)
      → ((log : Log) → w.upload_response log ≡ ok r)
      → accept_upload host output_url r ≡ ok tt
      → Stores host w output_url prepared content
  reconciles :
      (r : Response)
      → is_exact_reconciliation_grant host (get prepared "reconciliation") (get content "key")
        ≡ true
      → ((log : Log) → w.reconcile_response log ≡ ok r)
      → accept_reconciliation host (get (get prepared "reconciliation") "url") content r ≡ ok tt
      → Stores host w output_url prepared content

-- The call comes to this result, from any state.
abbrev Gives : {A : Type 0} → Exec A → A → Type 0
Gives m a = (s : Locals) → (m s).0 ≡ ok a

continue-ok :
    {A B : Type 0} (f : A → Exec B) (a : A) (b : B) (x : Result A × Locals)
    → x.0 ≡ ok a
    → Gives (f a) b
    → (continue f x).0 ≡ ok b
continue-ok f a b (r, s) h later = rw (h, continue) (later s)

recovered-left :
    {A : Type 0} (handler : Exec A) (a : A) (x : Result A × Locals)
    → x.0 ≡ ok a
    → (recovered handler x).0 ≡ ok a
recovered-left handler a (r, s) h = rw (h, recovered) refl

recovered-right :
    (handler : Exec (Unit {0})) (x : Result (Unit {0}) × Locals)
    → Gives handler tt
    → (recovered handler x).0 ≡ ok tt
recovered-right handler (ok u, s) h = refl
recovered-right handler (err e, s) h = h s

conclude-ok :
    (host : Host) (checks : Checks) (w : World) (job : Value) (x : Result (Unit {0}) × Locals)
    → x.0 ≡ ok tt
    → (conclude host checks w job x).0 ≡ published (get job "deploymentId")
conclude-ok host checks w job (r, s) h = rw (h, conclude) refl

module _ (host : Host) (checks : Checks) (w : World) (job : Value)
    (b : Builds host checks w job) where
  compile-Gives : Gives (compile host checks w job) (b.pair.1, b.built, b.output)
  unfolding compile download_exact
  compile-Gives s =
      rw
        (
          b.valid,
          compile,
          b.granting s.log,
          b.granted,
          b.responding _,
          b.downloaded,
          b.checked,
          b.building _,
          b.verified,
        )
        refl

  prepare-Gives :
      Gives (prepare host checks w job (publication_for job b.built)) (b.prepared, b.bound)
  unfolding prepare
  prepare-Gives s = rw (b.preparing s.log, b.binding, prepare) refl

  announce-Gives : Gives (announce host checks w job b.bound) tt
  unfolding announce
  announce-Gives s = rw (b.announcing s.log, announce) refl

  upload-Gives :
      (output : Value) (archive : List ℕ) (r : Response)
      → ((log : Log) → w.upload_response log ≡ ok r)
      → accept_upload host (get output "url") r ≡ ok tt
      → Gives (upload_exact host checks w job output archive) tt
  unfolding upload_exact
  upload-Gives output archive r responding fine s = rw (responding s.log, fine, upload_exact) refl

  reconcile-Gives :
      (grant content : Value) (r : Response)
      → is_exact_reconciliation_grant host grant (get content "key") ≡ true
      → ((log : Log) → w.reconcile_response log ≡ ok r)
      → accept_reconciliation host (get grant "url") content r ≡ ok tt
      → Gives (reconcile_exact_upload host checks w job grant content) tt
  unfolding reconcile_exact_upload
  reconcile-Gives grant content r exact responding fine s =
      rw (exact, reconcile_exact_upload, responding s.log, fine) refl

  -- In both orders, what follows the first of the two that is tried catches its failure.
  choice-Gives :
      (prepared : Bool) (m n : Exec (Unit {0}))
      → Gives m tt ⊎ Gives n tt
      → Gives (if prepared then or_catch m n else or_catch n (or_catch m n)) tt
  choice-Gives true m n (inl good) s = recovered-left n tt (m s) (good s)
  choice-Gives true m n (inr good) s = recovered-right n (m s) good
  choice-Gives false m n (inl good) s =
      recovered-right (or_catch m n) (n s) (λ t. recovered-left n tt (m t) (good t))
  choice-Gives false m n (inr good) s = recovered-left (or_catch m n) tt (n s) (good s)

  store-Gives :
      Stores host w (get b.pair.1 "url") b.prepared (get b.bound "content")
      → Gives (store host checks w job b.pair.1 b.output b.prepared b.bound) tt
  unfolding store
  store-Gives stores =
      choice-Gives (strict_eq (get b.prepared "status") (str "upload_prepared"))
        (upload_exact host checks w job b.pair.1 b.output)
        (reconcile_exact_upload host checks w job (get b.prepared "reconciliation")
          (get b.bound "content"))
        (either stores)
    where
      either :
          Stores host w (get b.pair.1 "url") b.prepared (get b.bound "content")
          → Gives (upload_exact host checks w job b.pair.1 b.output) tt
            ⊎ Gives
                (reconcile_exact_upload host checks w job
                  (get b.prepared "reconciliation")
                  (get b.bound "content"))
                tt
      either (uploads r responding fine) = inl (upload-Gives b.pair.1 b.output r responding fine)
      either (reconciles r exact responding fine) = inr (
          reconcile-Gives (get b.prepared "reconciliation") (get b.bound "content") r exact
            responding fine)

  -- Where the steps up to the bound publication and its announcement succeed, and every upload
  -- succeeds or every reconciliation does, whatever becomes of the other, `run` publishes the job.
  pub run-published :
      Stores host w (get b.pair.1 "url") b.prepared (get b.bound "content")
      → (run host checks w job).0 ≡ published (get job "deploymentId")
  unfolding run attempt
  run-published stores = conclude-ok host checks w job _ (
      continue-ok _ _ tt _ (compile-Gives start) (λ s.
        continue-ok _ _ tt _ (prepare-Gives s)
          (λ t. continue-ok _ _ tt _ (store-Gives stores t) announce-Gives)))
