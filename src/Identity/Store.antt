-- ===== src/Identity/Store.antt =====
-- `FilesystemReplayStore` of compiler/src/service-identity.mjs. A file is known by the number that
-- its text holds; `none` is a file with any other text.
pub mod Once
use xmcl_shared_node_agent.Base.{
  ℕ, ◌+◌, String, Bool, true, false, not, ◌&&◌, ◌||◌, List, [], ◌∷◌, Option, none, some, leb, ltb,
  if◌then◌else◌, length, take, map,
}
use xmcl_shared_node_agent.Base.Dict
use xmcl_shared_node_agent.Base.Dict.{Dict}
use xmcl_shared_node_agent.Js.Text.{js_length, hex64}
use xmcl_shared_node_agent.Js.Value.{max_safe}
use xmcl_shared_node_agent.Js.Fault.{Fault, Result, ok, err, identity_error}

abbrev pub Directory : Type 0
Directory = Dict (Option ℕ)

-- `createHash("sha256").update(key).digest("hex")`, and the limit on entries.
pub record Settings : Type 0 where
  pub hash_text : String → String
  pub max_entries : ℕ

abbrev pub rejected : Fault
rejected = identity_error "replay_store_rejected"

abbrev pub is_past : ℕ → Option (Option ℕ) → Bool
is_past now (some (some expiry)) = leb 1 expiry && leb expiry now
is_past now _ = false

-- `#removeExpired`, over the first 1,024 names
unfoldable pub remove_expired : ℕ → List String → Directory → Directory
remove_expired now [] d = d
remove_expired now (name ∷ names) d =
    remove_expired now names
      (if hex64 name && is_past now (Dict.get d name) then Dict.delete d name else d)

-- The clean-up that a full directory asks for.
unfoldable pub make_room : ℕ → ℕ → Directory → Directory
unfolding remove_expired
make_room max_entries now d =
    if leb max_entries (length d) then remove_expired now (take 1024 (map (λ e. e.0) d)) d else d

-- `consume`, with the directory after it, where `initialize` finds the directory in order and no
-- file operation fails.
unfoldable pub consume : Settings → String → ℕ → ℕ → Directory → Result Bool × Directory
unfolding make_room
consume s key expires_at now d =
    let name = s.hash_text key in
    let cleaned = make_room s.max_entries now d in
    if leb (js_length key) 512 && leb expires_at max_safe && leb now max_safe && ltb now expires_at
    then if leb s.max_entries (length cleaned) || Dict.has cleaned name
      then (ok false, cleaned)
      else (ok true, Dict.put cleaned name (some expires_at))
    else (err rejected, d)
