-- ===== src/Compiler/Grants.antt =====
-- `verifyGrantSet` of compiler/src/compiler.mjs and the tests on one grant.
pub mod Pair
pub mod Exact
use xmcl_shared_node_agent.Base.{
  ℕ, ◌*◌, String, Bool, true, false, not, ◌&&◌, ◌||◌, List, [], ◌∷◌, Option, none, some, str_eq,
  length, ◌==◌, leb, ltb, if◌then◌else◌,
}
use xmcl_shared_node_agent.Base.Int.{ℤ, pos, lt_int}
use xmcl_shared_node_agent.Js.Value.{
  Value, undefined, null, str, num, obj, get, same_keys, is_string, strict_eq, is_array, elements,
  is_undefined, plain_object, safe_int,
}
use xmcl_shared_node_agent.Js.Host.{Host, exact_https_url}
use xmcl_shared_node_agent.Js.Fault.{
  Fault, compiler_failure, type_error, Result, ok, err, ensure, of_option, ◌>>◌, ◌>>=◌,
}

abbrev pub invalid_grants : Fault
invalid_grants = compiler_failure "invalid_grants"

-- `grants.find((grant) => grant.method === method)`, which throws at null and undefined
unfoldable pub find_method : String → List Value → Result (Option Value)
find_method method [] = ok none
find_method method (undefined ∷ gs) = err type_error
find_method method (null ∷ gs) = err type_error
find_method method (g ∷ gs) =
    let rest = find_method method gs in
    if strict_eq (get g "method") (str method) then ok (some g) else rest

-- `hasExactHeaders(value, { [key]: item, … })` for headers that are all strings
abbrev pub header_values : Value → List (String × String) → Bool
header_values v [] = true
header_values v ((k, item) ∷ rest) = strict_eq (get v k) (str item) && header_values v rest

abbrev pub header_names : List (String × String) → List String
header_names [] = []
header_names ((k, item) ∷ rest) = k ∷ header_names rest

unfoldable pub has_exact_headers : Value → List (String × String) → Bool
has_exact_headers v expected =
    if is_undefined v
    then length expected == 0
    else same_keys v (header_names expected) && header_values v expected

unfoldable pub has_exact_output_headers : Value → Bool
has_exact_output_headers v =
    has_exact_headers v (("if-none-match", "*") ∷ [])
    || has_exact_headers v (("if-none-match", "*") ∷ ("x-ms-blob-type", "BlockBlob") ∷ [])

module _ (host : Host) where
  -- `grantExpiresAt`: `none` is `NaN`
  unfoldable pub grant_expires_at : Value → Option ℤ
  grant_expires_at grant = elim (host.parse_date (get grant "expiresAt")) [
    | none ↦ none
    | some t ↦ if safe_int t then some t else none
  ]

  abbrev pub is_time : Option ℤ → Bool
  is_time none = false
  is_time (some t) = true

  abbrev pub grant_keys : List String
  grant_keys = "key" ∷ "method" ∷ "url" ∷ "expiresAt" ∷ []

  abbrev pub grant_keys_headers : List String
  grant_keys_headers = "key" ∷ "method" ∷ "url" ∷ "expiresAt" ∷ "headers" ∷ []

  -- The keys that a grant for the method may have.
  abbrev pub has_grant_keys : Value → String → Bool
  has_grant_keys grant method =
      if str_eq method "PUT"
      then same_keys grant grant_keys_headers
      else same_keys grant grant_keys || str_eq method "GET" && same_keys grant grant_keys_headers

  unfoldable pub is_exact_signed_grant : Value → String → Bool
  unfolding grant_expires_at
  is_exact_signed_grant grant method =
      has_grant_keys grant method
      && strict_eq (get grant "method") (str method)
      && is_string (get grant "key")
      && exact_https_url host (get grant "url")
      && is_time (grant_expires_at grant)

  unfoldable pub is_exact_reconciliation_grant : Value → Value → Bool
  unfolding is_exact_signed_grant has_exact_headers
  is_exact_reconciliation_grant grant expected_key =
      strict_eq (get grant "method") (str "GET")
      && strict_eq (get grant "key") expected_key
      && is_exact_signed_grant grant "GET"
      && has_exact_headers (get grant "headers") []

  -- `now` is a number: positive and safe, and below both expiries
  abbrev pub expires_after : ℤ → Option ℤ → Bool
  expires_after now none = true
  expires_after now (some t) = lt_int now t

  -- `requireUnexpired`, with the time that it asks about
  abbrev pub unexpired : Option ℤ → Value → Value → Bool
  unexpired none input output = true
  unexpired (some now) input output =
      safe_int now
      && lt_int (pos 0) now
      && expires_after now (grant_expires_at input)
      && expires_after now (grant_expires_at output)

  abbrev pub grants_keys : List String
  grants_keys =
      "accountId" ∷ "serviceId" ∷ "deploymentId" ∷ "compilerRequestId" ∷ "manifestSha256" ∷ "grants"
      ∷ []

  unfoldable pub grants_bound : Value → Value → Bool
  grants_bound grants job =
      same_keys grants grants_keys
      && strict_eq (get grants "accountId") (get job "accountId")
      && strict_eq (get grants "serviceId") (get job "serviceId")
      && strict_eq (get grants "deploymentId") (get job "deploymentId")
      && strict_eq (get grants "compilerRequestId") (get job "compilerRequestId")
      && strict_eq (get grants "manifestSha256") (get job "manifestSha256")
      && is_array (get grants "grants")

  unfoldable pub pair_ok : Option ℤ → Value → Value → Value → ℕ → Bool
  unfolding is_exact_signed_grant has_exact_headers has_exact_output_headers
  pair_ok now job input output count =
      count == 2
      && strict_eq (get input "key") (get (get (get job "frozenManifest") "archive") "key")
      && strict_eq (get output "key") (get job "expectedContentKey")
      && is_exact_signed_grant input "GET"
      && is_exact_signed_grant output "PUT"
      && has_exact_headers (get input "headers") []
      && has_exact_output_headers (get output "headers")
      && unexpired now input output

  -- The input grant and the output grant.
  unfoldable pub verify_grant_set : Value → Value → Option ℤ → Result (Value × Value)
  verify_grant_set grants job now = do
    ensure (grants_bound grants job) invalid_grants
    found_input ← find_method "GET" (elements (get grants "grants"))
    found_output ← find_method "PUT" (elements (get grants "grants"))
    input ← of_option found_input invalid_grants
    output ← of_option found_output invalid_grants
    ensure (pair_ok now job input output (length (elements (get grants "grants")))) invalid_grants
    ok (input, output)
