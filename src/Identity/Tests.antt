-- ===== src/Identity/Tests.antt =====
-- Verifications of concrete requests, under a signer whose signatures are 32 zeros.
use xmcl_shared_node_agent.Base.{ℕ, ◌≡◌, ◌≢◌, refl, true, false, List, [], ◌∷◌, some, arith}
use xmcl_shared_node_agent.Base.Dict
use xmcl_shared_node_agent.Js.Fault.{ok, is_ok}
use xmcl_shared_node_agent.Js.Text.{js_length}
use xmcl_shared_node_agent.Identity.Request.{
  Request, Signer, authenticate, parse_timestamp, validate_signed_request, parse_authorization,
}
use xmcl_shared_node_agent.Identity.Cache
use xmcl_shared_node_agent.Identity.Cache.{drop_expired, verify_incoming}
use xmcl_shared_node_agent.Identity.Cache.Replay.{Attempt, verify_all, no_replay, replay_at_expiry}
use xmcl_shared_node_agent.Identity.Store
use xmcl_shared_node_agent.Identity.Store.{Settings}
use xmcl_shared_node_agent.Identity.Store.Once.{Use, consume_all, accepted_once}

abbrev zeros : List ℕ
zeros =
    0 ∷ 0 ∷ 0 ∷ 0 ∷ 0 ∷ 0 ∷ 0 ∷ 0 ∷ 0 ∷ 0 ∷ 0 ∷ 0 ∷ 0 ∷ 0 ∷ 0 ∷ 0 ∷ 0 ∷ 0 ∷ 0 ∷ 0 ∷ 0 ∷ 0 ∷ 0 ∷ 0
    ∷ 0 ∷ 0 ∷ 0 ∷ 0 ∷ 0 ∷ 0 ∷ 0 ∷ 0 ∷ []

abbrev signer : Signer
signer = record {
  key_id = "k1";
  max_age_ms = 100;
  sign = λ method target timestamp nonce body. zeros;
  from_base64url = λ text. zeros;
}

abbrev post : Request
post = record {
  method = "POST";
  target = "/v1/compiler-jobs";
  body = 1 ∷ [];
  timestamp_header = some "1000";
  nonce_header = some "0123456789abcdef";
  authorization_header = some "HMAC k1:AAAA";
}

abbrev attempt : ℕ → Attempt
attempt now = record { now = now; request = post }

authentic_first : authenticate signer 1010 post ≡ ok (1000, "0123456789abcdef")
unfolding authenticate parse_timestamp validate_signed_request parse_authorization
authentic_first = refl

authentic_second : authenticate signer 1090 post ≡ ok (1000, "0123456789abcdef")
unfolding authenticate parse_timestamp validate_signed_request parse_authorization
authentic_second = refl

authentic_last : authenticate signer 1100 post ≡ ok (1000, "0123456789abcdef")
unfolding authenticate parse_timestamp validate_signed_request parse_authorization
authentic_last = refl

accepted_first : (verify_incoming signer 10 1010 post []).0 ≡ ok tt
unfolding verify_incoming authenticate parse_timestamp validate_signed_request parse_authorization
    Cache.consume Dict.get
accepted_first = refl

no_replay_example :
    is_ok
      (verify_incoming signer 10 1090 post
        (verify_all signer 10 (attempt 1050 ∷ []) (verify_incoming signer 10 1010 post []).1)).0
    ≡ false
no_replay_example =
    no_replay signer 10 (attempt 1010) (attempt 1090) (attempt 1050 ∷ []) [] 1000 1000
      "0123456789abcdef" authentic_first accepted_first (omega arith, tt) authentic_second
      (omega arith)

replay_at_expiry_example :
    ((verify_incoming signer 10 1100 post []).0 ≡ ok tt)
    × ((verify_incoming signer 10 1100 post (verify_incoming signer 10 1100 post []).1).0 ≡ ok tt)
replay_at_expiry_example =
    replay_at_expiry signer 10 post [] 1000 "0123456789abcdef" authentic_last (omega arith)
      (unfold drop_expired Dict.get in refl) (unfold drop_expired in omega arith)

abbrev settings : Settings
settings = record {
  hash_text = λ key. "0123456789abcdef0123456789abcdef0123456789abcdef0123456789abcdef";
  max_entries = 1;
}

abbrev one_use : Use
one_use = record { key = "k1:n"; expires_at = 50; now = 10 }

used_once : (Store.consume settings "k1:n" 50 10 []).0 ≡ ok true
unfolding Store.consume Store.make_room Store.remove_expired Dict.get js_length
used_once = refl

-- The directory is full, so that the calls in between clean it up.
accepted_once_example :
    (Store.consume settings "k1:n" 50 45 (
      consume_all settings
        (record { key = "k1:m"; expires_at = 90; now = 40 } ∷ [])
        (Store.consume settings "k1:n" 50 10 []).1)).0
    ≢ ok true
accepted_once_example =
    accepted_once settings one_use (record { key = "k1:m"; expires_at = 90; now = 40 } ∷ []) 45 []
      used_once (omega arith, tt)
