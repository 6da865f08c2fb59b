-- ===== src/Compiler/Exec.antt =====
-- The effects of a compiler job: every call to the outside is logged with whether it succeeded, and
-- its answer may depend on all calls before it.
use xmcl_shared_node_agent.Base.{ℕ, String, Bool, List, ◌∷◌, Option}
use xmcl_shared_node_agent.Js.Value.{Value}
use xmcl_shared_node_agent.Js.Fault.{Result, ok, err, is_ok}

-- The calls of `CompilerWorker.run`: on the control plane, the object store and the builder.
pub data Call : Type 0 where
  get_grants : Value → Call
  download : Value → Call
  build : Call
  prepare_upload : Value → Call
  upload : Value → List ℕ → Call
  reconcile : Value → Call
  publish : Value → Call
  failed : String → Call

-- The newest call comes first.
abbrev pub Log : Type 0
Log = List (Call × Bool)

-- The variables of `run` that its `catch` reads, with the log.
pub record Locals : Type 0 where
  pub log : Log
  pub publication : Option Value
  pub upload_preparation_started : Bool
  pub publication_started : Bool

abbrev pub Exec : Type 0 → Type 0
Exec A = Locals → Result A × Locals

abbrev pub pure : {A : Type 0} → A → Exec A
pure a s = (ok a, s)

abbrev pub lift : {A : Type 0} → Result A → Exec A
lift r s = (r, s)

-- A call, and its answer from the log of the calls before it.
abbrev pub call : {A : Type 0} → Call → (Log → Result A) → Exec A
call c answer s = (answer s.log, record s { log = (c, is_ok (answer s.log)) ∷ s.log })

abbrev pub modify : (Locals → Locals) → Exec (Unit {0})
modify f s = (ok tt, f s)

abbrev pub continue : {A B : Type 0} → (A → Exec B) → Result A × Locals → Result B × Locals
continue f (ok a, s) = f a s
continue f (err e, s) = (err e, s)

infixl 5 ◌>>=◌ ◌>>◌
abbrev pub ◌>>=◌ : {A B : Type 0} → Exec A → (A → Exec B) → Exec B
◌>>=◌ m f s = continue f (m s)

abbrev pub ◌>>◌ : {B : Type 0} → Exec (Unit {0}) → Exec B → Exec B
m >> k = m >>= λ _. k

abbrev pub recovered : {A : Type 0} → Exec A → Result A × Locals → Result A × Locals
recovered handler (ok a, s) = (ok a, s)
recovered handler (err e, s) = handler s

-- `try { m } catch { handler }`
abbrev pub or_catch : {A : Type 0} → Exec A → Exec A → Exec A
or_catch m handler s = recovered handler (m s)
