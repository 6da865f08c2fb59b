-- ===== src/Identity/Cache.antt =====
-- `InMemoryReplayCache`, and `HmacServiceIdentity.verifyIncoming` over it.
pub mod Replay
use xmcl_shared_node_agent.Base.{
  ℕ, ◌+◌, String, Bool, true, false, ◌&&◌, ◌||◌, List, [], ◌∷◌, leb, if◌then◌else◌, length,
}
use xmcl_shared_node_agent.Base.Dict
use xmcl_shared_node_agent.Base.Dict.{Dict}
use xmcl_shared_node_agent.Js.Value.{max_safe}
use xmcl_shared_node_agent.Js.Fault.{Fault, identity_error, Result, ok, err}
use xmcl_shared_node_agent.Identity.Request.{Request, Signer, authenticate, nonce_key}

-- The loop that drops what has expired.
unfoldable pub drop_expired : ℕ → Dict ℕ → Dict ℕ
drop_expired now [] = []
drop_expired now ((k, expiry) ∷ m) =
    let rest = drop_expired now m in if leb expiry now then rest else (k, expiry) ∷ rest

abbrev pub store_rejected : Fault
store_rejected = identity_error "replay_store_rejected"

-- `consume`, with the cache after it
unfoldable pub consume : ℕ → String → ℕ → ℕ → Dict ℕ → Result Bool × Dict ℕ
unfolding drop_expired
consume max_entries key expires_at now m =
    let live = drop_expired now m in
    if leb expires_at max_safe && leb now max_safe
    then if Dict.has live key || leb max_entries (length live)
      then (ok false, live)
      else (ok true, Dict.put live key expires_at)
    else (err store_rejected, m)

abbrev pub accepted : Result Bool × Dict ℕ → Result (Unit {0}) × Dict ℕ
accepted (ok true, m) = (ok tt, m)
accepted (ok false, m) = (err (identity_error "request_replayed"), m)
accepted (err e, m) = (err e, m)

-- `verifyIncoming` at a reading of the clock
unfoldable pub verify_incoming : Signer → ℕ → ℕ → Request → Dict ℕ → Result (Unit {0}) × Dict ℕ
unfolding consume
verify_incoming signer max_entries now r m = elim (authenticate signer now r) [
  | err e ↦ (err e, m)
  | ok (timestamp, nonce) ↦
      accepted (consume max_entries (nonce_key signer nonce) (timestamp + signer.max_age_ms) now m)
]
