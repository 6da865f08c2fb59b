-- ===== src/Toolchains/Canonical/Order.antt =====
-- The canonical form of a catalog and the order of its fields.
use xmcl_shared_node_agent.Base.{
  String, ◌≡◌, refl, sym, ◌∙◌, ap, true, false, ◌∷◌, [], any, str_eq, Bool-cases, inl, inr, arith,
  eq_iff,
}
use xmcl_shared_node_agent.Js.Text.{lt_string}
use xmcl_shared_node_agent.Js.Text.Order.{lt_string-ne, lt_string_trans}
use xmcl_shared_node_agent.Js.Value.{
  Value, undefined, null, bool, num, real, str, obj, arr, Fields, end, field, Items, nil, cons,
}
use xmcl_shared_node_agent.Js.Host.{Host}
use xmcl_shared_node_agent.Js.Fault.{Result, ok, err, ◌>>=◌}
use xmcl_shared_node_agent.Toolchains.Canonical.{
  malformed, insert_field, canonicalize, canonical_fields, canonical_items, with_field, zero_sha256,
  catalog_revision_for,
}

-- Values that differ in the order of the fields of their objects, at any depth, and in nothing else.
mutual
  pub data SameValue : Value → Value → Type 0 where
    same : {v : Value} → SameValue v v
    objects : {fs gs : Fields} → SameFields fs gs → SameValue (obj fs) (obj gs)
    arrays : {vs ws : Items} → SameItems vs ws → SameValue (arr vs) (arr ws)

  pub data SameFields : Fields → Fields → Type 0 where
    none_left : SameFields end end
    next :
        {k : String} {v w : Value} {fs gs : Fields}
        → SameValue v w
        → SameFields fs gs
        → SameFields (field k v fs) (field k w gs)
    swap :
        {j k : String} {v w : Value} {fs : Fields}
        → lt_string j k ≡ true
        → SameFields (field j v (field k w fs)) (field k w (field j v fs))
    back : {fs gs : Fields} → SameFields fs gs → SameFields gs fs
    through : {fs gs hs : Fields} → SameFields fs gs → SameFields gs hs → SameFields fs hs

  pub data SameItems : Items → Items → Type 0 where
    no_items : SameItems nil nil
    items :
        {v w : Value} {vs ws : Items}
        → SameValue v w
        → SameItems vs ws
        → SameItems (cons v vs) (cons w ws)

lt_string_asym : (j k : String) → lt_string j k ≡ true → lt_string k j ≡ false
lt_string_asym j k h = elim (Bool-cases (lt_string k j)) [
  | inl less ↦ absurd (lt_string-ne j j (lt_string_trans j k j h less) refl)
  | inr apart ↦ apart
]

insert_swap :
    (j k : String) (v w : Value) (fs : Fields)
    → lt_string j k ≡ true
    → insert_field j v (insert_field k w fs) ≡ insert_field k w (insert_field j v fs)
unfolding insert_field
insert_swap j k v w end h = rw (h, lt_string_asym j k h) refl
insert_swap j k v w (field i u fs) h = elim (Bool-cases (lt_string i j)) [
  | inl before ↦
      rw (before, lt_string_trans i j k before h)
        (rw before (ap (field i u) (insert_swap j k v w fs h)))
  | inr after ↦ elim (Bool-cases (lt_string i k)) [
    | inl between ↦ rw (after, between) (rw (after, h) refl)
    | inr last ↦ rw (after, last) (rw (lt_string_asym j k h, h) refl)
  ]
]

-- A computation whose only failure is that of a malformed catalog.
abbrev IsPlain : {A : Type 0} → Result A → Type 0
IsPlain (ok a) = Unit
IsPlain (err e) = e ≡ malformed

then-IsPlain :
    {A B : Type 0} (r : Result A) (f : A → Result B)
    → IsPlain r
    → ((a : A) → IsPlain (f a))
    → IsPlain (r >>= f)
then-IsPlain (ok a) f p q = q a
then-IsPlain (err e) f p q = p

mutual
  unfolding canonicalize

  canonicalize-IsPlain : (v : Value) → IsPlain (canonicalize v)
  canonicalize-IsPlain undefined = refl
  canonicalize-IsPlain null = tt
  canonicalize-IsPlain (bool b) = tt
  canonicalize-IsPlain (num n) = tt
  canonicalize-IsPlain (real s) =
      elim (Bool-cases (any (str_eq s) ("NaN" ∷ "Infinity" ∷ "-Infinity" ∷ []))) [
        | inl odd ↦ rw odd refl
        | inr plain ↦ rw plain tt
      ]
  canonicalize-IsPlain (str s) = tt
  canonicalize-IsPlain (obj fs) =
      then-IsPlain (canonical_fields fs) _ (canonical_fields-IsPlain fs) (λ gs. tt)
  canonicalize-IsPlain (arr vs) =
      then-IsPlain (canonical_items vs) _ (canonical_items-IsPlain vs) (λ ws. tt)

  canonical_fields-IsPlain : (fs : Fields) → IsPlain (canonical_fields fs)
  canonical_fields-IsPlain end = tt
  canonical_fields-IsPlain (field k v fs) =
      then-IsPlain (canonicalize v) _ (canonicalize-IsPlain v)
        (λ w. then-IsPlain (canonical_fields fs) _ (canonical_fields-IsPlain fs) (λ gs. tt))

  canonical_items-IsPlain : (vs : Items) → IsPlain (canonical_items vs)
  canonical_items-IsPlain nil = tt
  canonical_items-IsPlain (cons v vs) =
      then-IsPlain (canonicalize v) _ (canonicalize-IsPlain v)
        (λ w. then-IsPlain (canonical_items vs) _ (canonical_items-IsPlain vs) (λ ws. tt))

abbrev put : String → Result Value → Result Fields → Result Fields
put k value rest = do v ← value; fs ← rest; ok (insert_field k v fs)

put_swap :
    (j k : String) (a b : Result Value) (c : Result Fields)
    → lt_string j k ≡ true
    → IsPlain a
    → IsPlain b
    → IsPlain c
    → put j a (put k b c) ≡ put k b (put j a c)
put_swap j k (ok v) (ok w) (ok fs) h p q r = ap ok (insert_swap j k v w fs h)
put_swap j k (ok v) (ok w) (err e) h p q r = refl
put_swap j k (ok v) (err e) c h p q r = refl
put_swap j k (err e) (ok w) (ok fs) h p q r = refl
put_swap j k (err e) (ok w) (err d) h p q r = refl
put_swap j k (err e) (err d) c h p q r = ap err (p ∙ sym q)

mutual
  unfolding canonicalize

  canonicalize-SameValue : {v w : Value} → SameValue v w → canonicalize v ≡ canonicalize w
  canonicalize-SameValue same = refl
  canonicalize-SameValue (objects p) =
      ap (λ r. r >>= λ gs. ok (obj gs)) (canonical_fields-SameFields p)
  canonicalize-SameValue (arrays p) =
      ap (λ r. r >>= λ ws. ok (arr ws)) (canonical_items-SameItems p)

  canonical_fields-SameFields :
      {fs gs : Fields} → SameFields fs gs → canonical_fields fs ≡ canonical_fields gs
  canonical_fields-SameFields none_left = refl
  canonical_fields-SameFields (next {k} {v} {w} {fs} {gs} p q) =
      ap (λ r. put k r (canonical_fields fs)) (canonicalize-SameValue p)
      ∙ ap (λ r. put k (canonicalize w) r) (canonical_fields-SameFields q)
  canonical_fields-SameFields (swap {j} {k} {v} {w} {fs} h) =
      put_swap j k (canonicalize v) (canonicalize w) (canonical_fields fs) h
        (canonicalize-IsPlain v) (canonicalize-IsPlain w) (canonical_fields-IsPlain fs)
  canonical_fields-SameFields (back p) = sym (canonical_fields-SameFields p)
  canonical_fields-SameFields (through p q) =
      canonical_fields-SameFields p ∙ canonical_fields-SameFields q

  canonical_items-SameItems :
      {vs ws : Items} → SameItems vs ws → canonical_items vs ≡ canonical_items ws
  canonical_items-SameItems no_items = refl
  canonical_items-SameItems (items p q) =
      rw (canonicalize-SameValue p, canonical_items-SameItems q) refl

same_fields : (fs : Fields) → SameFields fs fs
same_fields end = none_left
same_fields (field k v fs) = next same (same_fields fs)

with_field-SameFields :
    (k : String) (v : Value) {fs gs : Fields}
    → SameFields fs gs
    → SameFields (with_field fs k v) (with_field gs k v)
unfolding with_field
with_field-SameFields k v none_left = next same none_left
with_field-SameFields k v (next {k = i} p q) = elim (Bool-cases (str_eq i k)) [
  | inl here ↦ rw here (next same q)
  | inr there ↦ rw there (next p (with_field-SameFields k v q))
]
with_field-SameFields k v (swap {j = i} {k = j} h) = elim (Bool-cases (str_eq i k)) [
  | inl first ↦ elim (Bool-cases (str_eq j k)) [
    | inl second ↦ absurd (lt_string-ne i j h (ground (arith, eq_iff i k, eq_iff j k)))
    | inr other ↦ rw (first, other) (swap h)
  ]
  | inr later ↦ elim (Bool-cases (str_eq j k)) [
    | inl second ↦ rw (later, second) (swap h)
    | inr neither ↦ rw (later, neither) (swap h)
  ]
]
with_field-SameFields k v (back p) = back (with_field-SameFields k v p)
with_field-SameFields k v (through p q) =
    through (with_field-SameFields k v p) (with_field-SameFields k v q)

-- The revision of a catalog does not depend on the order of the fields of its objects, at any depth.
pub catalog_revision_for-SameValue :
    (host : Host) {v w : Value}
    → SameValue v w
    → catalog_revision_for host v ≡ catalog_revision_for host w
unfolding catalog_revision_for
catalog_revision_for-SameValue host same = refl
catalog_revision_for-SameValue host (arrays p) = refl
catalog_revision_for-SameValue host (objects p) =
    ap
      (λ r. (r >>= λ canonical. ok (host.print_json canonical)) >>= λ bytes. ok (host.sha256 bytes))
      (canonicalize-SameValue
        (objects (with_field-SameFields "catalogRevision" (str zero_sha256) p)))
