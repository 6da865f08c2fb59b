-- ===== src/Http/Envelope/Valid.antt =====
-- What an envelope that parses says.
use xmcl_shared_node_agent.Base.{
  ℕ, String, ◌≡◌, refl, sym, ◌∙◌, subst, true, ◌&&◌, List, some, arith, and-left, and-right,
  Option-cases, inl, inr,
}
use xmcl_shared_node_agent.Base.Int.{ℤ, le_int, lt_int, add_ℕ}
use xmcl_shared_node_agent.Js.Value.{Value, str, int, get, string_that}
use xmcl_shared_node_agent.Js.Value.Equal.{strict_eq-same, eq-int_strict}
use xmcl_shared_node_agent.Js.Text.{valid_id}
use xmcl_shared_node_agent.Js.Host.{Host}
use xmcl_shared_node_agent.Js.Fault.{
  Result, ok, err, of_option, of_option-some, rethrow, ensure_parts, then_parts, bind_parts,
}
use xmcl_shared_node_agent.Compiler.Job.{validate_compiler_job}
use xmcl_shared_node_agent.Compiler.Job.Bound.{IsBound, validate_compiler_job-IsBound}
use xmcl_shared_node_agent.Http.Envelope.{
  invalid_request, lifetime_ok, valid_message_lifetime, envelope_ok, parse_envelope,
}

rethrow_ok : (r : Result (Unit {0})) → rethrow r invalid_request ≡ ok tt → r ≡ ok tt
rethrow_ok (ok tt) h = refl
rethrow_ok (err e) h = cc

-- A message that was issued at most a minute ahead of a time, expires after it, and lasts five minutes
-- at most.
pub record IsInTime (issued expires now : ℤ) : Type 0 where
  pub started : le_int issued (add_ℕ now 60000) ≡ true
  pub unexpired : lt_int now expires ≡ true
  pub short : le_int expires (add_ℕ issued 300000) ≡ true

module _ (host : Host) where
  pub record IsEnvelope (body : List ℕ) (now : ℤ) (envelope : Value) : Type 0 where
    pub parsed : host.parse_json body ≡ some envelope
    pub version : get envelope "schemaVersion" ≡ int 1
    pub id : String
    pub named : get envelope "requestId" ≡ str id
    pub request : get (get envelope "job") "compilerRequestId" ≡ str id
    pub granted : get (get envelope "grants") "compilerRequestId" ≡ str id
    pub issued : ℤ
    pub issued_at : host.parse_date (get envelope "issuedAt") ≡ some issued
    pub expires : ℤ
    pub expires_at : host.parse_date (get envelope "expiresAt") ≡ some expires
    pub in_time : IsInTime issued expires now
    pub job : IsBound (get envelope "job")

  lifetime_ok-IsInTime :
      (issued expires now : ℤ) → lifetime_ok issued expires now ≡ true → IsInTime issued expires now
  lifetime_ok-IsInTime issued expires now h = record {
    started = and-right _ _ (and-left _ _ (and-left _ _ h));
    unexpired = and-right _ _ (and-left _ _ h);
    short = and-right _ _ h;
  }

  record Lasts (envelope : Value) (now : ℤ) : Type 0 where
    issued : ℤ
    issued_at : host.parse_date (get envelope "issuedAt") ≡ some issued
    expires : ℤ
    expires_at : host.parse_date (get envelope "expiresAt") ≡ some expires
    in_time : IsInTime issued expires now

  valid_message_lifetime-Lasts :
      (envelope : Value) (now : ℤ)
      → valid_message_lifetime host (get envelope "issuedAt") (get envelope "expiresAt") now ≡ true
      → Lasts envelope now
  unfolding valid_message_lifetime
  valid_message_lifetime-Lasts envelope now h =
      elim (Option-cases (host.parse_date (get envelope "issuedAt"))) [
        | inl bad ↦ cc (rw bad at h)
        | inr (issued, issued_at) ↦
            elim (Option-cases (host.parse_date (get envelope "expiresAt"))) [
              | inl bad ↦ cc (rw (issued_at, bad) at h)
              | inr (expires, expires_at) ↦ record {
                issued = issued;
                issued_at = issued_at;
                expires = expires;
                expires_at = expires_at;
                in_time = lifetime_ok-IsInTime issued expires now (rw (issued_at, expires_at) at h);
              }
            ]
      ]

  record Agrees (envelope : Value) : Type 0 where
    version : get envelope "schemaVersion" ≡ int 1
    id : String
    named : get envelope "requestId" ≡ str id
    request : get (get envelope "job") "compilerRequestId" ≡ str id
    granted : get (get envelope "grants") "compilerRequestId" ≡ str id

  is_text : (v : Value) → string_that valid_id v ≡ true → (s : String) × (v ≡ str s)
  is_text (str s) h = (s, refl)
  is_text _ h = cc

  envelope_ok-Agrees : (envelope : Value) → envelope_ok host envelope ≡ true → Agrees envelope
  unfolding envelope_ok
  envelope_ok-Agrees envelope h =
      let upto_request = and-left _ _ h in
      let upto_grants = and-left _ _ upto_request in
      let upto_id = and-left _ _ (and-left _ _ upto_grants) in
      let (id, named) = is_text (get envelope "requestId") (and-right _ _ upto_id) in
      record {
        version = eq-int_strict _ _ (and-right _ _ (and-left _ _ upto_id));
        id = id;
        named = named;
        request = sym (strict_eq-same _ _ (and-right _ _ upto_request)) ∙ named;
        granted = strict_eq-same _ _ (and-right _ _ h) ∙ named;
      }

  pub parse_envelope-IsEnvelope :
      (body : List ℕ) (now : ℤ) (envelope : Value)
      → parse_envelope host body now ≡ ok envelope
      → IsEnvelope body now envelope
  unfolding parse_envelope
  parse_envelope-IsEnvelope body now envelope h =
      let (v, is_json, h1) =
        bind_parts (of_option (host.parse_json body) invalid_request) _ envelope h in
      let (tests, h2) =
        ensure_parts
          (envelope_ok host v
            && valid_message_lifetime host (get v "issuedAt") (get v "expiresAt") now)
          invalid_request _ envelope h1 in
      let (valid, last) =
        then_parts (rethrow (validate_compiler_job (get v "job")) invalid_request) (ok v) envelope
          h2 in
      let same : v ≡ envelope = ground arith in
      let agrees = envelope_ok-Agrees v (and-left _ _ tests) in
      let lasts = valid_message_lifetime-Lasts v now (and-right _ _ tests) in
      subst (λ e. IsEnvelope body now e) same
        (record {
          parsed = of_option-some (host.parse_json body) invalid_request v is_json;
          version = agrees.version;
          id = agrees.id;
          named = agrees.named;
          request = agrees.request;
          granted = agrees.granted;
          issued = lasts.issued;
          issued_at = lasts.issued_at;
          expires = lasts.expires;
          expires_at = lasts.expires_at;
          in_time = lasts.in_time;
          job =
              validate_compiler_job-IsBound (get v "job")
                (rethrow_ok (validate_compiler_job (get v "job")) valid);
        })
