-- ===== src/Identity/Cache/Replay.antt =====
-- Which replays the cache refuses.
use xmcl_shared_node_agent.Base.{
  ℕ, ◌+◌, ◌≤◌, ◌<◌, ◌≡◌, refl, ap, String, Bool, true, false, List, [], ◌∷◌, none, some, arith, inl,
  inr, length, eq_iff, All,
}
use xmcl_shared_node_agent.Base.Dict
use xmcl_shared_node_agent.Base.Dict.{Dict}
use xmcl_shared_node_agent.Js.Value.{max_safe}
use xmcl_shared_node_agent.Js.Fault.{Result, ok, err, Result-cases, is_ok}
use xmcl_shared_node_agent.Identity.Request.{Request, Signer, authenticate, nonce_key}
use xmcl_shared_node_agent.Identity.Cache.{drop_expired, consume, accepted, verify_incoming}

get-drop_expired :
    (now : ℕ) (m : Dict ℕ) (k : String) (expiry : ℕ)
    → Dict.get m k ≡ some expiry
    → now < expiry
    → Dict.get (drop_expired now m) k ≡ some expiry
unfolding Dict.get drop_expired
get-drop_expired now [] k expiry h lt = cc
get-drop_expired now ((j, e) ∷ m) k expiry h lt = ground (arith, get-drop_expired now m k expiry)

-- One verification, at its time.
pub record Attempt : Type 0 where
  pub now : ℕ
  pub request : Request

module _ (signer : Signer) (max_entries : ℕ) where
  consume-get :
      (key : String) (expires_at now : ℕ) (m : Dict ℕ) (k : String) (expiry : ℕ)
      → Dict.get m k ≡ some expiry
      → now < expiry
      → Dict.get (consume max_entries key expires_at now m).1 k ≡ some expiry
  unfolding consume
  consume-get key expires_at now m k expiry h lt = ground (
    arith,
    get-drop_expired now m k expiry,
    Dict.get-put (drop_expired now m) key expires_at k,
    eq_iff key k,
  )

  accepted-state : (r : Result Bool × Dict ℕ) → (accepted r).1 ≡ r.1
  accepted-state (ok true, m) = refl
  accepted-state (ok false, m) = refl
  accepted-state (err e, m) = refl

  verify-get :
      (now : ℕ) (r : Request) (m : Dict ℕ) (k : String) (expiry : ℕ)
      → Dict.get m k ≡ some expiry
      → now < expiry
      → Dict.get (verify_incoming signer max_entries now r m).1 k ≡ some expiry
  unfolding verify_incoming
  verify-get now r m k expiry h lt = elim (Result-cases (authenticate signer now r)) [
    | inr (e, failed) ↦ rw (failed, verify_incoming) h
    | inl ((t, nonce), claim) ↦
        rw (claim, verify_incoming, accepted-state)
          (consume-get (nonce_key signer nonce) (t + signer.max_age_ms) now m k expiry h lt)
  ]

  -- The cache after a row of verifications.
  unfoldable pub verify_all : List Attempt → Dict ℕ → Dict ℕ
  unfolding verify_incoming
  verify_all [] m = m
  verify_all (a ∷ as') m = verify_all as' (verify_incoming signer max_entries a.now a.request m).1

  verify_all-get :
      (as' : List Attempt) (m : Dict ℕ) (k : String) (expiry : ℕ)
      → Dict.get m k ≡ some expiry
      → All (λ a. a.now < expiry) as'
      → Dict.get (verify_all as' m) k ≡ some expiry
  unfolding verify_all
  verify_all-get [] m k expiry h times = h
  verify_all-get (a ∷ as') m k expiry h (here, later) =
      verify_all-get as' _ k expiry (verify-get a.now a.request m k expiry h here) later

  -- An accepted request leaves its nonce in the cache.
  verify-accepted :
      (now : ℕ) (r : Request) (m : Dict ℕ) (t : ℕ) (nonce : String)
      → authenticate signer now r ≡ ok (t, nonce)
      → (verify_incoming signer max_entries now r m).0 ≡ ok tt
      → Dict.get (verify_incoming signer max_entries now r m).1 (nonce_key signer nonce)
        ≡ some (t + signer.max_age_ms)
  unfolding verify_incoming consume
  verify-accepted now r m t nonce claim h = ground (
    arith,
    Dict.get-put (drop_expired now m) (nonce_key signer nonce) (t + signer.max_age_ms)
        (nonce_key signer nonce),
    eq_iff (nonce_key signer nonce) (nonce_key signer nonce),
  )

  verify-refused :
      (now : ℕ) (r : Request) (m : Dict ℕ) (t expiry : ℕ) (nonce : String)
      → authenticate signer now r ≡ ok (t, nonce)
      → Dict.get m (nonce_key signer nonce) ≡ some expiry
      → now < expiry
      → is_ok (verify_incoming signer max_entries now r m).0 ≡ false
  unfolding verify_incoming consume
  verify-refused now r m t expiry nonce claim h lt =
      ground (arith, get-drop_expired now m (nonce_key signer nonce) expiry)

  -- After a request is accepted, no request with its nonce is accepted before its timestamp is as
  -- old as the maximal age, whatever is verified in between and whatever its own timestamp.
  pub no_replay :
      (a b : Attempt) (between : List Attempt) (m : Dict ℕ) (t u : ℕ) (nonce : String)
      → authenticate signer a.now a.request ≡ ok (t, nonce)
      → (verify_incoming signer max_entries a.now a.request m).0 ≡ ok tt
      → All (λ c. c.now < t + signer.max_age_ms) between
      → authenticate signer b.now b.request ≡ ok (u, nonce)
      → b.now < t + signer.max_age_ms
      → is_ok
          (verify_incoming signer max_entries b.now b.request
            (verify_all between (verify_incoming signer max_entries a.now a.request m).1)).0
        ≡ false
  no_replay a b between m t u nonce first accepted_first times second time =
      verify-refused b.now b.request _ u (t + signer.max_age_ms) nonce second
        (verify_all-get between _ (nonce_key signer nonce) (t + signer.max_age_ms)
          (verify-accepted a.now a.request m t nonce first accepted_first) times)
        time

drop-put :
    (now : ℕ) (m : Dict ℕ) (k : String)
    → Dict.get (drop_expired now m) k ≡ none
    → drop_expired now (Dict.put (drop_expired now m) k now) ≡ drop_expired now m
unfolding drop_expired Dict.get Dict.put
drop-put now [] k h = ground arith
drop-put now ((j, e) ∷ m) k h = ground (arith, drop-put now m k)

verify-admits :
    (signer : Signer) (max_entries now : ℕ) (r : Request) (m : Dict ℕ) (t : ℕ) (nonce : String)
    → authenticate signer now r ≡ ok (t, nonce)
    → t + signer.max_age_ms ≤ max_safe
    → now ≤ max_safe
    → Dict.get (drop_expired now m) (nonce_key signer nonce) ≡ none
    → length (drop_expired now m) < max_entries
    → verify_incoming signer max_entries now r m
      ≡ (ok tt, Dict.put (drop_expired now m) (nonce_key signer nonce) (t + signer.max_age_ms))
unfolding verify_incoming consume
verify-admits signer max_entries now r m t nonce claim safe time new room = ground arith

-- At the last moment at which a timestamp is still accepted the cache gives no protection: where
-- the cache has room and does not hold the nonce, a request that is exactly as old as the maximal
-- age is accepted, and then accepted again at the same moment.
pub replay_at_expiry :
    (signer : Signer) (max_entries : ℕ) (r : Request) (m : Dict ℕ) (t : ℕ) (nonce : String)
    → authenticate signer (t + signer.max_age_ms) r ≡ ok (t, nonce)
    → t + signer.max_age_ms ≤ max_safe
    → Dict.get (drop_expired (t + signer.max_age_ms) m) (nonce_key signer nonce) ≡ none
    → length (drop_expired (t + signer.max_age_ms) m) < max_entries
    → ((verify_incoming signer max_entries (t + signer.max_age_ms) r m).0 ≡ ok tt)
      × ((verify_incoming signer max_entries
            (t + signer.max_age_ms)
            r
            (verify_incoming signer max_entries (t + signer.max_age_ms) r m).1).0
          ≡ ok tt)
replay_at_expiry signer max_entries r m t nonce claim safe new room =
    let now = t + signer.max_age_ms in
    let key = nonce_key signer nonce in
    let first = verify-admits signer max_entries now r m t nonce claim safe safe new room in
    let again = drop-put now m key new in
    let second =
      verify-admits signer max_entries now r (Dict.put (drop_expired now m) key now) t nonce claim
        safe safe (rw again new) (rw again room) in
    (ap (λ x. x.0) first, rw first (ap (λ x. x.0) second))
