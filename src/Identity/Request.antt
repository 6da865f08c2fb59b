-- ===== src/Identity/Request.antt =====
-- A signed request and its checks up to the replay store.
use Prim.Native.String.{◌++◌ as append_text}
use xmcl_shared_node_agent.Base.{
  ℕ, ◌+◌, ◌-◌, ◌*◌, String, Bool, true, false, ◌&&◌, ◌||◌, List, [], ◌∷◌, Option, none, some, leb,
  ltb, ◌==◌, if◌then◌else◌, length, all, drop,
}
use xmcl_shared_node_agent.Js.Text.{units, is_digit, is_upper, is_alnum, between, starts_units}
use xmcl_shared_node_agent.Js.Value.{max_safe}
use xmcl_shared_node_agent.Js.Fault.{Fault, identity_error, Result, ok, err, ensure, ◌>>=◌, ◌>>◌}

-- A request, with the three headers as `header` finds them.
pub record Request : Type 0 where
  pub method : String
  pub target : String
  pub body : List ℕ
  pub timestamp_header : Option String
  pub nonce_header : Option String
  pub authorization_header : Option String

-- node:crypto and Buffer: the keyed signature of a payload, and `Buffer.from(text, "base64url")`.
pub record Signer : Type 0 where
  pub key_id : String
  pub max_age_ms : ℕ
  pub sign : String → String → ℕ → String → List ℕ → List ℕ
  pub from_base64url : List ℕ → List ℕ

abbrev pub rejected : Fault
rejected = identity_error "request_identity_rejected"

abbrev number_from : ℕ → List ℕ → ℕ
number_from n [] = n
number_from n (c ∷ cs) = number_from (n * 10 + (c - b'0')) cs

-- `/^[1-9]\d{0,15}$/`
abbrev pub is_number_text : List ℕ → Bool
is_number_text [] = false
is_number_text (c ∷ cs) = between b'1' b'9' c && all is_digit cs && leb (length cs) 15

-- `parseTimestamp`; `none` stands for `NaN`
unfoldable pub parse_timestamp : Option String → Option ℕ
unfolding units
parse_timestamp none = none
parse_timestamp (some s) =
    let n = number_from 0 (units s) in
    if is_number_text (units s) && leb n max_safe then some n else none

-- `/^[A-Za-z0-9_-]{16,128}$/`
abbrev pub is_nonce : List ℕ → Bool
is_nonce cs =
    leb 16 (length cs) && leb (length cs) 128 && all (λ c. is_alnum c || c == b'_' || c == b'-') cs

-- `/^[A-Z]+$/`
abbrev pub is_method : List ℕ → Bool
is_method cs = ltb 0 (length cs) && all is_upper cs

-- `Math.abs(now - timestamp) <= maxAgeMs`
abbrev pub is_recent : ℕ → ℕ → ℕ → Bool
is_recent now timestamp max_age = leb now (timestamp + max_age) && leb timestamp (now + max_age)

-- `validateSignedRequest`, at the number and the text that it demands
unfoldable pub validate_signed_request :
    Request → Option ℕ → Option String → ℕ → ℕ → Result (ℕ × String)
unfolding units
validate_signed_request r (some timestamp) (some nonce) now max_age =
    if is_method (units r.method)
      && starts_units (units r.target) (b'/' ∷ [])
      && leb (length (units r.target)) 2048
      && leb timestamp max_safe
      && is_nonce (units nonce)
      && leb now max_safe
      && (max_age == 0 || is_recent now timestamp max_age)
    then ok (timestamp, nonce)
    else err rejected
validate_signed_request r _ _ now max_age = err rejected

-- `parseAuthorization`: the 32 bytes behind the prefix
unfoldable pub parse_authorization : Signer → Option String → Option (List ℕ)
unfolding units
parse_authorization signer none = none
parse_authorization signer (some value) =
    let prefix = units (append_text "HMAC " (append_text signer.key_id ":")) in
    let signature = signer.from_base64url (drop (length prefix) (units value)) in
    if starts_units (units value) prefix && length signature == 32 then some signature else none

abbrev pub eq_bytes : List ℕ → List ℕ → Bool
eq_bytes [] [] = true
eq_bytes (a ∷ as') (b ∷ bs) = a == b && eq_bytes as' bs
eq_bytes _ _ = false

abbrev pub is_signature : Option (List ℕ) → List ℕ → Bool
is_signature none expected = false
is_signature (some actual) expected = eq_bytes actual expected

-- `verifyIncoming` up to the replay store: the timestamp and the nonce of an authentic request.
unfoldable pub authenticate : Signer → ℕ → Request → Result (ℕ × String)
unfolding parse_timestamp validate_signed_request parse_authorization
authenticate signer now r = do
  claim ←
      validate_signed_request r (parse_timestamp r.timestamp_header) r.nonce_header now
        signer.max_age_ms
  ensure
      (is_signature (parse_authorization signer r.authorization_header)
        (signer.sign r.method r.target claim.0 claim.1 r.body))
      rejected
  ok claim

-- The key of a nonce in the replay store.
abbrev pub nonce_key : Signer → String → String
nonce_key signer nonce = append_text signer.key_id (append_text ":" nonce)
