-- ===== src/Identity/Store/Once.antt =====
-- The replay store on the file system accepts a nonce at one timestamp once.
use xmcl_shared_node_agent.Base.{
  ℕ, ◌≤◌, ◌<◌, ◌≡◌, ◌≢◌, String, true, ◌&&◌, List, [], ◌∷◌, some, arith, inl, inr, Bool-cases, leb,
  if◌then◌else◌, eq_iff, All, take, map,
}
use xmcl_shared_node_agent.Base.Dict
use xmcl_shared_node_agent.Base.Dict.{Dict}
use xmcl_shared_node_agent.Js.Text.{hex64}
use xmcl_shared_node_agent.Js.Fault.{ok}
use xmcl_shared_node_agent.Identity.Store.{
  Directory, Settings, is_past, remove_expired, make_room, consume,
}

remove_expired-get :
    (now : ℕ) (names : List String) (d : Directory) (k : String) (expiry : ℕ)
    → Dict.get d k ≡ some (some expiry)
    → now < expiry
    → Dict.get (remove_expired now names d) k ≡ some (some expiry)
unfolding remove_expired
remove_expired-get now [] d k expiry h lt = h
remove_expired-get now (name ∷ names) d k expiry h lt =
    remove_expired-get now names _ k expiry kept lt
  where
    kept :
        Dict.get (if hex64 name && is_past now (Dict.get d name) then Dict.delete d name else d) k
        ≡ some (some expiry)
    kept = elim (Bool-cases (hex64 name && is_past now (Dict.get d name))) [
      | inl past ↦ rw past (ground (arith, Dict.get-delete d name k, eq_iff name k))
      | inr other ↦ rw other h
    ]

make_room-get :
    (max_entries now : ℕ) (d : Directory) (k : String) (expiry : ℕ)
    → Dict.get d k ≡ some (some expiry)
    → now < expiry
    → Dict.get (make_room max_entries now d) k ≡ some (some expiry)
unfolding make_room
make_room-get max_entries now d k expiry h lt =
    ground (arith, remove_expired-get now (take 1024 (map (λ e. e.0) d)) d k expiry)

-- A call of `consume`.
pub record Use : Type 0 where
  pub key : String
  pub expires_at : ℕ
  pub now : ℕ

module _ (s : Settings) where
  consume-get :
      (u : Use) (d : Directory) (k : String) (expiry : ℕ)
      → Dict.get d k ≡ some (some expiry)
      → u.now < expiry
      → Dict.get (consume s u.key u.expires_at u.now d).1 k ≡ some (some expiry)
  unfolding consume
  consume-get u d k expiry h lt =
      let cleaned = make_room s.max_entries u.now d in
      ground (
        arith,
        make_room-get s.max_entries u.now d k expiry,
        Dict.get-put cleaned (s.hash_text u.key) (some u.expires_at) k,
        eq_iff (s.hash_text u.key) k,
      )

  unfoldable pub consume_all : List Use → Directory → Directory
  unfolding consume
  consume_all [] d = d
  consume_all (u ∷ us) d = consume_all us (consume s u.key u.expires_at u.now d).1

  consume_all-get :
      (us : List Use) (d : Directory) (k : String) (expiry : ℕ)
      → Dict.get d k ≡ some (some expiry)
      → All (λ u. u.now < expiry) us
      → Dict.get (consume_all us d) k ≡ some (some expiry)
  unfolding consume_all
  consume_all-get [] d k expiry h times = h
  consume_all-get (u ∷ us) d k expiry h (here, later) =
      consume_all-get us _ k expiry (consume-get u d k expiry h here) later

  consume-accepted :
      (u : Use) (d : Directory)
      → (consume s u.key u.expires_at u.now d).0 ≡ ok true
      → Dict.get (consume s u.key u.expires_at u.now d).1 (s.hash_text u.key)
        ≡ some (some u.expires_at)
  unfolding consume
  consume-accepted u d h = ground (
    arith,
    Dict.get-put (make_room s.max_entries u.now d) (s.hash_text u.key) (some u.expires_at)
        (s.hash_text u.key),
    eq_iff (s.hash_text u.key) (s.hash_text u.key),
  )

  consume-again :
      (u : Use) (d : Directory)
      → Dict.get d (s.hash_text u.key) ≡ some (some u.expires_at)
      → u.now < u.expires_at
      → (consume s u.key u.expires_at u.now d).0 ≢ ok true
  unfolding consume
  consume-again u d h lt e =
      ground (arith, make_room-get s.max_entries u.now d (s.hash_text u.key) u.expires_at)

  consume-late :
      (u : Use) (d : Directory)
      → u.expires_at ≤ u.now
      → (consume s u.key u.expires_at u.now d).0 ≢ ok true
  unfolding consume
  consume-late u d late e = ground arith

  earlier :
      (us : List Use) (now expiry : ℕ)
      → now < expiry
      → All (λ u. u.now ≤ now) us
      → All (λ u. u.now < expiry) us
  earlier [] now expiry lt h = tt
  earlier (u ∷ us) now expiry lt (here, later) = (omega arith, earlier us now expiry lt later)

  -- A nonce with its expiry is accepted once: after it was, whatever else is asked of the store in
  -- between, clean-ups of a full store included, the same nonce and expiry are never accepted again
  -- at a time that is not before any of the calls in between.
  pub accepted_once :
      (first : Use) (between : List Use) (now : ℕ) (d : Directory)
      → (consume s first.key first.expires_at first.now d).0 ≡ ok true
      → All (λ u. u.now ≤ now) between
      → (consume s first.key first.expires_at now
          (consume_all between (consume s first.key first.expires_at first.now d).1)).0
        ≢ ok true
  accepted_once first between now d accepted times = elim (Bool-cases (leb first.expires_at now)) [
    | inl late ↦ consume-late (record first { now = now }) _ (ground arith)
    | inr early ↦
        let lt : now < first.expires_at = ground arith in
        consume-again (record first { now = now }) _
          (consume_all-get between _ (s.hash_text first.key) first.expires_at
            (consume-accepted first d accepted) (earlier between now first.expires_at lt times))
          lt
  ]
