-- ===== src/Compiler/Worker/Order.antt =====
-- In which order `CompilerWorker.run` calls the outside, whatever the answers.
use xmcl_shared_node_agent.Base.{
  ℕ, ◌≡◌, refl, inl, inr, Bool, true, false, ◌||◌, List, [], ◌∷◌, arith, Bool-cases,
}
use xmcl_shared_node_agent.Js.Value.{Value, get, str, strict_eq}
use xmcl_shared_node_agent.Js.Host.{Host}
use xmcl_shared_node_agent.Js.Fault.{Result, ok, err, is_ok}
use xmcl_shared_node_agent.Compiler.Exec.{
  Call, build, prepare_upload, upload, reconcile, publish, failed, Log, Locals, Exec, or_catch,
  continue, recovered, ◌>>=◌, ◌>>◌,
}
use xmcl_shared_node_agent.Compiler.Worker.Defs.{
  World, Checks, Built, Outcome, published, published_callback_uncertain,
  upload_reconciliation_uncertain, failed_with, compile, prepare, store, announce, attempt, give_up,
  start, conclude, run, download_exact, upload_exact, reconcile_exact_upload, publication_for,
}

abbrev pub is_build : Call × Bool → Bool
is_build (build, good) = good
is_build _ = false

-- A preparation, with any answer.
abbrev pub is_prepare : Call × Bool → Bool
is_prepare (prepare_upload p, good) = true
is_prepare _ = false

abbrev pub is_prepared : Call × Bool → Bool
is_prepared (prepare_upload p, good) = good
is_prepared _ = false

-- An upload or a reconciliation that succeeded.
abbrev pub is_stored : Call × Bool → Bool
is_stored (upload url body, good) = good
is_stored (reconcile url, good) = good
is_stored _ = false

abbrev pub is_publish : Call × Bool → Bool
is_publish (publish p, good) = true
is_publish _ = false

abbrev pub is_failed : Call × Bool → Bool
is_failed (failed code, good) = true
is_failed _ = false

abbrev pub some_call : (Call × Bool → Bool) → Log → Bool
some_call p [] = false
some_call p (c ∷ cs) = p c || some_call p cs

-- What has to come before a call.
abbrev pub Needs : Call → Log → Type 0
Needs (prepare_upload p) log = some_call is_build log ≡ true
Needs (upload url body) log = some_call is_prepared log ≡ true
Needs (reconcile url) log = some_call is_prepared log ≡ true
Needs (publish p) log = (some_call is_prepared log ≡ true) × (some_call is_stored log ≡ true)
Needs (failed code) log = some_call is_prepare log ≡ false
Needs _ log = Unit

abbrev pub IsLawful : Log → Type 0
IsLawful [] = Unit
IsLawful ((c, good) ∷ log) = Needs c log × IsLawful log

-- The last call announced a publication, and this says whether it succeeded.
abbrev pub IsPublished : Bool → Log → Type 0
IsPublished b ((publish p, good) ∷ log) = good ≡ b
IsPublished b _ = ⊥

module _ (host : Host) (checks : Checks) (w : World) (job : Value) where
  -- What `compile` leaves: nothing prepared, and a build behind a result.
  record Compiled (r : Result (Value × Built × List ℕ) × Locals) : Type 0 where
    lawful : IsLawful r.1.log
    unreported : some_call is_failed r.1.log ≡ false
    unprepared : some_call is_prepare r.1.log ≡ false
    unpublished : some_call is_publish r.1.log ≡ false
    begun : (r.1.upload_preparation_started ≡ false) × (r.1.publication_started ≡ false)
    made : is_ok r.0 ≡ true → some_call is_build r.1.log ≡ true

  compile-Compiled : Compiled (compile host checks w job start)
  unfolding compile download_exact
  compile-Compiled = ground arith

  record Prepared (r : Result (Value × Value) × Locals) : Type 0 where
    lawful : IsLawful r.1.log
    unreported : some_call is_failed r.1.log ≡ false
    begun : (r.1.upload_preparation_started ≡ true) × (r.1.publication_started ≡ false)
    unpublished : some_call is_publish r.1.log ≡ false
    asked : some_call is_prepare r.1.log ≡ true
    made : is_ok r.0 ≡ true → some_call is_prepared r.1.log ≡ true

  prepare-Prepared :
      (publication : Value) (s : Locals)
      → IsLawful s.log
      → some_call is_failed s.log ≡ false
      → some_call is_build s.log ≡ true
      → s.publication_started ≡ false
      → some_call is_publish s.log ≡ false
      → Prepared (prepare host checks w job publication s)
  unfolding prepare
  prepare-Prepared publication s lawful quiet made begun unpublished = ground arith

  -- While content is stored.
  record InProgress (s : Locals) : Type 0 where
    lawful : IsLawful s.log
    unreported : some_call is_failed s.log ≡ false
    begun : (s.upload_preparation_started ≡ true) × (s.publication_started ≡ false)
    unpublished : some_call is_publish s.log ≡ false
    prepared : some_call is_prepared s.log ≡ true
    asked : some_call is_prepare s.log ≡ true

  record Stored (r : Result (Unit {0}) × Locals) : Type 0 where
    state : InProgress r.1
    made : is_ok r.0 ≡ true → some_call is_stored r.1.log ≡ true

  abbrev Stores : Exec (Unit {0}) → Type 0
  Stores m = (s : Locals) → InProgress s → Stored (m s)

  upload-Stores :
      (output : Value) (archive : List ℕ) → Stores (upload_exact host checks w job output archive)
  unfolding upload_exact
  upload-Stores output archive s h = ground arith

  reconcile-Stores :
      (grant content : Value) → Stores (reconcile_exact_upload host checks w job grant content)
  unfolding reconcile_exact_upload
  reconcile-Stores grant content s h = ground arith

  or_catch-Stores :
      (m handler : Exec (Unit {0})) → Stores m → Stores handler → Stores (or_catch m handler)
  or_catch-Stores m handler first second s h = after (m s) (first s h)
    where
      after : (r : Result (Unit {0}) × Locals) → Stored r → Stored (recovered handler r)
      after (ok u, t) k = k
      after (err e, t) k = second t k.state

  store-Stores :
      (output : Value) (archive : List ℕ) (prepared bound : Value)
      → Stores (store host checks w job output archive prepared bound)
  unfolding store
  store-Stores output archive prepared bound s h =
      let again = reconcile-Stores (get prepared "reconciliation") (get bound "content") in
      let first = or_catch-Stores _ _ (upload-Stores output archive) again in
      elim (Bool-cases (strict_eq (get prepared "status") (str "upload_prepared"))) [
        | inl new ↦ rw (new, store) (first s h)
        | inr old ↦ rw (old, store) (or_catch-Stores _ _ again first s h)
      ]

  record Attempted (r : Result (Unit {0}) × Locals) : Type 0 where
    lawful : IsLawful r.1.log
    unreported : some_call is_failed r.1.log ≡ false
    unprepared : r.1.upload_preparation_started ≡ false → some_call is_prepare r.1.log ≡ false
    asked : r.1.upload_preparation_started ≡ true → some_call is_prepare r.1.log ≡ true
    unpublished : r.1.publication_started ≡ false → some_call is_publish r.1.log ≡ false
    finished : is_ok r.0 ≡ true → IsPublished true r.1.log
    uncertain : is_ok r.0 ≡ false → r.1.publication_started ≡ true → IsPublished false r.1.log

  announce-Attempted :
      (bound : Value) (r : Result (Unit {0}) × Locals)
      → Stored r
      → Attempted (continue (λ _. announce host checks w job bound) r)
  unfolding announce
  announce-Attempted bound (ok u, s) h = record {
    lawful = ground (arith, h.state.lawful, h.made, h.state.prepared);
    unreported = h.state.unreported;
    unprepared = λ e. ground (arith, h.state.begun);
    asked = λ u. h.state.asked;
    unpublished = λ e. cc;
    finished = λ e. ground arith;
    uncertain = λ e f. ground arith;
  }
  announce-Attempted bound (err e, s) h = record {
    lawful = h.state.lawful;
    unreported = h.state.unreported;
    unprepared = λ u. ground (arith, h.state.begun);
    asked = λ u. h.state.asked;
    unpublished = λ u. h.state.unpublished;
    finished = λ u. cc;
    uncertain = λ u f. ground (arith, h.state.begun);
  }

  store-Attempted :
      (output : Value) (archive : List ℕ) (r : Result (Value × Value) × Locals)
      → Prepared r
      → Attempted (
          continue
            (λ plan.
              store host checks w job output archive plan.0 plan.1
              >> announce host checks w job plan.1)
            r)
  store-Attempted output archive (ok plan, s) h = announce-Attempted plan.1 _ (
      store-Stores output archive plan.0 plan.1 s (record {
        lawful = h.lawful;
        unreported = h.unreported;
        begun = h.begun;
        unpublished = h.unpublished;
        prepared = h.made refl;
        asked = h.asked;
      }))
  store-Attempted output archive (err e, s) h = record {
    lawful = h.lawful;
    unreported = h.unreported;
    unprepared = λ u. ground (arith, h.begun);
    asked = λ u. h.asked;
    unpublished = λ u. h.unpublished;
    finished = λ u. cc;
    uncertain = λ u f. ground (arith, h.begun);
  }

  prepare-Attempted :
      (r : Result (Value × Built × List ℕ) × Locals)
      → Compiled r
      → Attempted (
          continue
            (λ compiled. prepare host checks w job (publication_for job compiled.1) >>= λ plan.
              store host checks w job compiled.0 compiled.2 plan.0 plan.1
              >> announce host checks w job plan.1)
            r)
  prepare-Attempted (ok compiled, s) h = store-Attempted compiled.0 compiled.2 _ (
      prepare-Prepared (publication_for job compiled.1) s h.lawful h.unreported (h.made refl)
        h.begun.1 h.unpublished)
  prepare-Attempted (err e, s) h = record {
    lawful = h.lawful;
    unreported = h.unreported;
    unprepared = λ u. h.unprepared;
    asked = λ u. ground (arith, h.begun);
    unpublished = λ u. h.unpublished;
    finished = λ u. cc;
    uncertain = λ u f. ground (arith, h.begun);
  }

  attempt-Attempted : Attempted (attempt host checks w job start)
  unfolding attempt
  attempt-Attempted = prepare-Attempted _ compile-Compiled

  -- What an outcome says about the calls.
  abbrev pub Tells : Outcome → Log → Type 0
  Tells (published d) log = IsPublished true log × (some_call is_failed log ≡ false)
  Tells (published_callback_uncertain p) log =
      IsPublished false log × (some_call is_failed log ≡ false)
  Tells (upload_reconciliation_uncertain p) log =
      (some_call is_prepare log ≡ true)
      × (some_call is_publish log ≡ false)
      × (some_call is_failed log ≡ false)
  Tells (failed_with code) log =
      (some_call is_prepare log ≡ false)
      × (some_call is_publish log ≡ false)
      × (some_call is_failed log ≡ true)

  conclude-IsLawful :
      (r : Result (Unit {0}) × Locals) → Attempted r → IsLawful (conclude host checks w job r).1
  unfolding give_up
  conclude-IsLawful (ok u, s) h = h.lawful
  conclude-IsLawful (err e, s) h = ground (arith, h.lawful, h.unprepared)

  conclude-Tells :
      (r : Result (Unit {0}) × Locals)
      → Attempted r
      → Tells (conclude host checks w job r).0 (conclude host checks w job r).1
  unfolding give_up
  conclude-Tells (ok u, s) h = (h.finished refl, h.unreported)
  conclude-Tells (err e, s) h = elim (Bool-cases s.publication_started) [
    | inl begun ↦ rw begun (h.uncertain refl begun, h.unreported)
    | inr not_begun ↦ elim (Bool-cases s.upload_preparation_started) [
      | inl asked ↦ rw (not_begun, asked) (h.asked asked, h.unpublished not_begun, h.unreported)
      | inr early ↦ rw (not_begun, early) (h.unprepared early, h.unpublished not_begun, refl)
    ]
  ]

  -- Whatever the outside answers, the calls of a job come in their order: a publication is prepared
  -- only after a build that succeeded, content is uploaded or reconciled only after a preparation
  -- that succeeded, a publication is announced only after a preparation and an upload or a
  -- reconciliation that succeeded, and a failure is reported only if no preparation was asked for.
  pub run-IsLawful : IsLawful (run host checks w job).1
  unfolding run
  run-IsLawful = conclude-IsLawful _ attempt-Attempted

  -- What `run` returns is true of its calls: "published" if the last call announced a publication
  -- and succeeded, "published_callback_uncertain" if that call failed,
  -- "upload_reconciliation_uncertain" if a preparation was asked for and no publication was
  -- announced, and "failed" if neither was done; a failure is reported in the last case alone.
  pub run-Tells : Tells (run host checks w job).0 (run host checks w job).1
  unfolding run
  run-Tells = conclude-Tells _ attempt-Attempted
