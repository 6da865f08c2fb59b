-- ===== src/Js/Fault.antt =====
-- What the service throws, and the result of code that may throw.
use xmcl_shared_node_agent.Base.{
  ℕ, String, Bool, true, false, ◌≡◌, refl, Option, none, some, ◌⊎◌, inl, inr,
}

-- `CompilerFailure(code)`, `WorldSeedFailure(code)`, `ServiceIdentityError(code)`,
-- `ToolchainCatalogFailure(code)`, `HttpWorkerError(status, code)`, an `Error` with and without a `code`, and a `TypeError`.
pub data Fault : Type 0 where
  compiler_failure world_seed_failure identity_error coded_error catalog_failure : String → Fault
  http_error : ℕ → String → Fault
  plain_error type_error : Fault

-- `error?.code`
abbrev pub code_of : Fault → Option String
code_of (compiler_failure c) = some c
code_of (world_seed_failure c) = some c
code_of (identity_error c) = some c
code_of (coded_error c) = some c
code_of (catalog_failure c) = some c
code_of (http_error status c) = some c
code_of plain_error = none
code_of type_error = none

pub data Result {ℓ} (A : Type ℓ) : Type ℓ where
  ok : A → Result A
  err : Fault → Result A

infixl 5 ◌>>=◌ ◌>>◌
abbrev pub ◌>>=◌ {ℓ κ} : {A : Type ℓ} {B : Type κ} → Result A → (A → Result B) → Result B
ok value >>= next = next value
err e >>= next = err e

abbrev pub ◌>>◌ {ℓ} : {B : Type ℓ} → Result (Unit {0}) → Result B → Result B
ok _ >> after = after
err e >> after = err e

-- `if (!test) throw fault`
abbrev pub ensure : Bool → Fault → Result (Unit {0})
ensure true e = ok tt
ensure false e = err e

-- `try { m } catch { throw fault }`
abbrev pub rethrow {ℓ} : {A : Type ℓ} → Result A → Fault → Result A
rethrow (ok a) e = ok a
rethrow (err _) e = err e

abbrev pub of_option {ℓ} : {A : Type ℓ} → Option A → Fault → Result A
of_option none e = err e
of_option (some a) e = ok a

abbrev pub is_ok {ℓ} : {A : Type ℓ} → Result A → Bool
is_ok (ok _) = true
is_ok (err _) = false

pub Result-cases {ℓ} :
    {A : Type ℓ} (r : Result A) → ((a : A) × (r ≡ ok a)) ⊎ ((e : Fault) × (r ≡ err e))
Result-cases (ok a) = inl (a, refl)
Result-cases (err e) = inr (e, refl)

-- What the parts of a sequence gave, where it succeeded.
pub bind_parts {ℓ κ} :
    {A : Type ℓ} {B : Type κ} (m : Result A) (f : A → Result B) (b : B)
    → (m >>= f) ≡ ok b
    → (a : A) × (m ≡ ok a) × (f a ≡ ok b)
bind_parts (ok a) f b h = (a, refl, h)
bind_parts (err e) f b h = cc

pub ensure_parts {ℓ} :
    {B : Type ℓ} (test : Bool) (e : Fault) (k : Result B) (b : B)
    → (ensure test e >> k) ≡ ok b
    → (test ≡ true) × (k ≡ ok b)
ensure_parts true e k b h = (refl, h)
ensure_parts false e k b h = cc

pub then_parts {ℓ} :
    {B : Type ℓ} (m : Result (Unit {0})) (k : Result B) (b : B)
    → (m >> k) ≡ ok b
    → (m ≡ ok tt) × (k ≡ ok b)
then_parts (ok tt) k b h = (refl, h)
then_parts (err e) k b h = cc

pub of_option-some {ℓ} :
    {A : Type ℓ} (o : Option A) (e : Fault) (a : A) → of_option o e ≡ ok a → o ≡ some a
of_option-some none e a h = cc
of_option-some (some b) e a h = cc

pub ensure-true : (test : Bool) (e : Fault) → ensure test e ≡ ok tt → test ≡ true
ensure-true true e h = refl
ensure-true false e h = cc
