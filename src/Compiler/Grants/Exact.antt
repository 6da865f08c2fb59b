-- ===== src/Compiler/Grants/Exact.antt =====
-- Grants that are accepted are the two exact ones of the job.
use xmcl_shared_node_agent.Base.{
  ◌≡◌, ◌&&◌, true, [], ◌∷◌, String, refl, ◌∙◌, ap, ◌⊎◌, inl, inr, some, none, eq_iff, Option-cases,
  subst, Option, arith, and-left, and-right, ==_iff, length,
}
use xmcl_shared_node_agent.Base.Int.{ℤ, pos, lt_int}
use xmcl_shared_node_agent.Js.Value.{Value, get, strict_eq, elements, safe_int, str}
use xmcl_shared_node_agent.Js.Value.Equal.{strict_eq-same, eq-str_strict}
use xmcl_shared_node_agent.Js.Host.{Host, Url, is_exact_https, exact_https_url}
use xmcl_shared_node_agent.Js.Fault.{ok, of_option, of_option-some, ensure_parts, bind_parts}
use xmcl_shared_node_agent.Compiler.Grants.{
  find_method, grant_expires_at, is_time, expires_after, unexpired, invalid_grants, grants_bound,
  pair_ok, is_exact_signed_grant, verify_grant_set,
}
use xmcl_shared_node_agent.Compiler.Grants.Pair.{
  NoHeaders, has_exact_headers-NoHeaders, has_exact_output_headers-only, find_method-In, two_grants,
}

module _ (host : Host) where
  -- A grant of one request: its method, its key, and an address without credentials, over HTTPS.
  pub record IsRequest (grant : Value) (method : String) (key : Value) : Type 0 where
    pub verb : get grant "method" ≡ str method
    pub object : get grant "key" ≡ key
    pub address : Url
    pub parsed : host.parse_url (get grant "url") ≡ some address
    pub secure : address.protocol ≡ "https:"
    pub no_user : address.username ≡ ""
    pub no_password : address.password ≡ ""
    pub expiry : ℤ
    pub dated : host.parse_date (get grant "expiresAt") ≡ some expiry
    pub safe : safe_int expiry ≡ true

  -- Where a time is asked about, a grant expires after it.
  abbrev pub Lives : Option ℤ → ℤ → Type 0
  Lives none expiry = Unit
  Lives (some now) expiry = lt_int now expiry ≡ true

  pub record IsGranted (grants job : Value) (now : Option ℤ) (pair : Value × Value) : Type 0 where
    pub account : get grants "accountId" ≡ get job "accountId"
    pub service : get grants "serviceId" ≡ get job "serviceId"
    pub deployment : get grants "deploymentId" ≡ get job "deploymentId"
    pub request : get grants "compilerRequestId" ≡ get job "compilerRequestId"
    pub manifest : get grants "manifestSha256" ≡ get job "manifestSha256"
    pub only :
        (elements (get grants "grants") ≡ pair.0 ∷ pair.1 ∷ [])
        ⊎ (elements (get grants "grants") ≡ pair.1 ∷ pair.0 ∷ [])
    pub input : IsRequest pair.0 "GET" (get (get (get job "frozenManifest") "archive") "key")
    pub bare : NoHeaders (get pair.0 "headers")
    pub output : IsRequest pair.1 "PUT" (get job "expectedContentKey")
    pub creates : get (get pair.1 "headers") "if-none-match" ≡ str "*"
    pub input_lives : Lives now input.expiry
    pub output_lives : Lives now output.expiry

  exact_https_url-parts :
      (v : Value)
      → exact_https_url host v ≡ true
      → (u : Url) × (host.parse_url v ≡ some u)
        × (u.protocol ≡ "https:")
        × (u.username ≡ "")
        × (u.password ≡ "")
  unfolding exact_https_url
  exact_https_url-parts v h = elim (Option-cases (host.parse_url v)) [
    | inl bad ↦ cc (rw bad at h)
    | inr (u, parsed) ↦
        let good : is_exact_https (some u) ≡ true = rw parsed at h in
        (
          u,
          parsed,
          ground (arith, eq_iff u.protocol "https:"),
          ground (arith, eq_iff u.username ""),
          ground (arith, eq_iff u.password ""),
        )
  ]

  grant_expires_at-parts :
      (grant : Value) (t : ℤ)
      → grant_expires_at host grant ≡ some t
      → (host.parse_date (get grant "expiresAt") ≡ some t) × (safe_int t ≡ true)
  unfolding grant_expires_at
  grant_expires_at-parts grant t h = elim (Option-cases (host.parse_date (get grant "expiresAt"))) [
    | inl bad ↦ ground arith
    | inr (u, parsed) ↦ ground arith
  ]

  some_time : (o : Option ℤ) → is_time host o ≡ true → (t : ℤ) × (o ≡ some t)
  some_time none h = cc
  some_time (some t) h = (t, refl)

  exact_grant :
      (grant : Value) (method : String) (key : Value) (now : Option ℤ)
      → is_exact_signed_grant host grant method ≡ true
      → strict_eq (get grant "key") key ≡ true
      → (r : IsRequest grant method key) × (grant_expires_at host grant ≡ some r.expiry)
  unfolding is_exact_signed_grant
  exact_grant grant method key now h named =
      let upto_url = and-left _ _ h in
      let upto_key = and-left _ _ upto_url in
      let (u, parsed, secure, user, password) =
        exact_https_url-parts (get grant "url") (and-right _ _ upto_url) in
      let (t, timed) = some_time (grant_expires_at host grant) (and-right _ _ h) in
      let (dated, safe) = grant_expires_at-parts grant t timed in
      (
        record {
          verb = eq-str_strict _ _ (and-right _ _ (and-left _ _ upto_key));
          object = strict_eq-same _ _ named;
          address = u;
          parsed = parsed;
          secure = secure;
          no_user = user;
          no_password = password;
          expiry = t;
          dated = dated;
          safe = safe;
        },
        timed,
      )

  unexpired-Lives :
      (now : Option ℤ) (a b : Value) (s t : ℤ)
      → unexpired host now a b ≡ true
      → grant_expires_at host a ≡ some s
      → grant_expires_at host b ≡ some t
      → Lives now s × Lives now t
  unexpired-Lives none a b s t h p q = (tt, tt)
  unexpired-Lives (some now) a b s t h p q =
      let both : safe_int now
            && lt_int (pos 0) now
            && expires_after host now (some s)
            && expires_after host now (some t)
          ≡ true =
        rw (p, q) at h in
      (ground arith, ground arith)

  -- The ids that grants share with their job.
  record AreOfJob (grants job : Value) : Type 0 where
    account : get grants "accountId" ≡ get job "accountId"
    service : get grants "serviceId" ≡ get job "serviceId"
    deployment : get grants "deploymentId" ≡ get job "deploymentId"
    request : get grants "compilerRequestId" ≡ get job "compilerRequestId"
    manifest : get grants "manifestSha256" ≡ get job "manifestSha256"

  grants_bound-AreOfJob :
      (grants job : Value) → grants_bound host grants job ≡ true → AreOfJob grants job
  unfolding grants_bound
  grants_bound-AreOfJob grants job h =
      let upto_manifest = and-left _ _ h in
      let upto_request = and-left _ _ upto_manifest in
      let upto_deployment = and-left _ _ upto_request in
      let upto_service = and-left _ _ upto_deployment in
      record {
        account = strict_eq-same _ _ (and-right _ _ (and-left _ _ upto_service));
        service = strict_eq-same _ _ (and-right _ _ upto_service);
        deployment = strict_eq-same _ _ (and-right _ _ upto_deployment);
        request = strict_eq-same _ _ (and-right _ _ upto_request);
        manifest = strict_eq-same _ _ (and-right _ _ upto_manifest);
      }

  -- What `verify_grant_set` has seen where it succeeds.
  record Passed (grants job : Value) (now : Option ℤ) (pair : Value × Value) : Type 0 where
    bound : grants_bound host grants job ≡ true
    found_get : find_method "GET" (elements (get grants "grants")) ≡ ok (some pair.0)
    found_put : find_method "PUT" (elements (get grants "grants")) ≡ ok (some pair.1)
    count : pair_ok host now job pair.0 pair.1 (length (elements (get grants "grants"))) ≡ true

  verify-Passed :
      (grants job : Value) (now : Option ℤ) (pair : Value × Value)
      → verify_grant_set host grants job now ≡ ok pair
      → Passed grants job now pair
  unfolding verify_grant_set
  verify-Passed grants job now pair h =
      let (bound, h1) = ensure_parts (grants_bound host grants job) invalid_grants _ pair h in
      let (found_get, gets, h2) =
        bind_parts (find_method "GET" (elements (get grants "grants"))) _ pair h1 in
      let (found_put, puts, h3) =
        bind_parts (find_method "PUT" (elements (get grants "grants"))) _ pair h2 in
      let (input, is_input, h4) = bind_parts (of_option found_get invalid_grants) _ pair h3 in
      let (output, is_output, h5) = bind_parts (of_option found_put invalid_grants) _ pair h4 in
      let (count, same) =
        ensure_parts (pair_ok host now job input output (length (elements (get grants "grants"))))
          invalid_grants (ok (input, output)) pair h5 in
      let this : (input, output) ≡ pair = ground arith in
      subst (λ p. Passed grants job now p) this
        (record {
          bound = bound;
          found_get = gets ∙ ap ok (of_option-some found_get invalid_grants input is_input);
          found_put = puts ∙ ap ok (of_option-some found_put invalid_grants output is_output);
          count = count;
        })

  Passed-IsGranted :
      (grants job : Value) (now : Option ℤ) (pair : Value × Value)
      → Passed grants job now pair
      → IsGranted grants job now pair
  unfolding pair_ok
  Passed-IsGranted grants job now pair passed =
      let of_job = grants_bound-AreOfJob grants job passed.bound in
      let upto_output = and-left _ _ passed.count in
      let upto_input = and-left _ _ upto_output in
      let upto_put = and-left _ _ upto_input in
      let upto_get = and-left _ _ upto_put in
      let upto_content = and-left _ _ upto_get in
      let upto_archive = and-left _ _ upto_content in
      let (in_input, gets) = find_method-In "GET" _ pair.0 passed.found_get in
      let (in_output, puts) = find_method-In "PUT" _ pair.1 passed.found_put in
      let (input, input_timed) =
        exact_grant pair.0 "GET" _ now (and-right _ _ upto_get) (and-right _ _ upto_archive) in
      let (output, output_timed) =
        exact_grant pair.1 "PUT" _ now (and-right _ _ upto_put) (and-right _ _ upto_content) in
      let (input_lives, output_lives) =
        unexpired-Lives now pair.0 pair.1 input.expiry output.expiry (and-right _ _ passed.count)
          input_timed output_timed in
      record {
        account = of_job.account;
        service = of_job.service;
        deployment = of_job.deployment;
        request = of_job.request;
        manifest = of_job.manifest;
        only =
            two_grants (elements (get grants "grants")) pair.0 pair.1
              ((==_iff _ _).0 (and-left _ _ upto_archive)) in_input in_output gets puts;
        input = input;
        bare = has_exact_headers-NoHeaders _ (and-right _ _ upto_input);
        output = output;
        creates = has_exact_output_headers-only _ (and-right _ _ upto_output);
        input_lives = input_lives;
        output_lives = output_lives;
      }

  -- Grants that are accepted carry the five ids of the job, and the list of them is the pair, in either
  -- order: a GET of the key of its input archive with no headers, and a PUT of the key of its content
  -- that may only create it. Both have an HTTPS address without a user or a password and a date at
  -- which they expire, which is later than the time that is asked about, if any is.
  pub verify_grant_set-IsGranted :
      (grants job : Value) (now : Option ℤ) (pair : Value × Value)
      → verify_grant_set host grants job now ≡ ok pair
      → IsGranted grants job now pair
  verify_grant_set-IsGranted grants job now pair h =
      Passed-IsGranted grants job now pair (verify-Passed grants job now pair h)
