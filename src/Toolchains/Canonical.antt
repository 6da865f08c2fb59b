-- ===== src/Toolchains/Canonical.antt =====
-- `canonicalize` and what is computed from it. The keys of a catalog that is accepted are names, which
-- an object keeps in the order in which they are set.
pub mod Order
use xmcl_shared_node_agent.Base.{ℕ, String, List, [], ◌∷◌, str_eq, if◌then◌else◌, any}
use xmcl_shared_node_agent.Js.Text.{lt_string}
use xmcl_shared_node_agent.Js.Value.{
  Value, undefined, null, bool, num, real, str, obj, arr, Fields, end, field, Items, nil, cons,
}
use xmcl_shared_node_agent.Js.Host.{Host}
use xmcl_shared_node_agent.Js.Fault.{Fault, catalog_failure, Result, ok, err, ◌>>=◌}

abbrev pub malformed : Fault
malformed = catalog_failure "catalog_malformed"

-- The place of a key among sorted keys.
unfoldable pub insert_field : String → Value → Fields → Fields
insert_field k v end = field k v end
insert_field k v (field j w fs) =
    let rest = insert_field k v fs in
    if lt_string j k then field j w rest else field k v (field j w fs)

unfoldable mutual
  pub canonicalize : Value → Result Value
  canonicalize undefined = err malformed
  canonicalize null = ok null
  canonicalize (bool b) = ok (bool b)
  canonicalize (num n) = ok (num n)
  canonicalize (real s) =
      if any (str_eq s) ("NaN" ∷ "Infinity" ∷ "-Infinity" ∷ []) then err malformed else ok (real s)
  canonicalize (str s) = ok (str s)
  canonicalize (obj fs) = do sorted ← canonical_fields fs; ok (obj sorted)
  canonicalize (arr vs) = do same ← canonical_items vs; ok (arr same)

  pub canonical_fields : Fields → Result Fields
  canonical_fields end = ok end
  canonical_fields (field k v fs) = do
    value ← canonicalize v
    rest ← canonical_fields fs
    ok (insert_field k value rest)

  pub canonical_items : Items → Result Items
  canonical_items nil = ok nil
  canonical_items (cons v vs) = do
    value ← canonicalize v
    rest ← canonical_items vs
    ok (cons value rest)

-- `{ ...fields, [key]: value }`
unfoldable pub with_field : Fields → String → Value → Fields
with_field end k v = field k v end
with_field (field j w fs) k v =
    let rest = with_field fs k v in if str_eq j k then field j v fs else field j w rest

-- `ZERO_SHA256`
abbrev pub zero_sha256 : String
zero_sha256 = "0000000000000000000000000000000000000000000000000000000000000000"

module _ (host : Host) where
  -- `canonicalJsonBytes`; a text is printed as JSON and encoded by the host
  abbrev pub canonical_bytes : Value → Result (List ℕ)
  canonical_bytes v = do canonical ← canonicalize v; ok (host.print_json canonical)

  -- `catalogRevisionFor`
  unfoldable pub catalog_revision_for : Value → Result String
  unfolding canonicalize with_field
  catalog_revision_for (obj fs) = do
    bytes ← canonical_bytes (obj (with_field fs "catalogRevision" (str zero_sha256)))
    ok (host.sha256 bytes)
  catalog_revision_for _ = err malformed
