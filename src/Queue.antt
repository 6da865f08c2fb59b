-- ===== src/Queue.antt =====
-- compiler/src/job-queue.mjs: what both queues share. The children model the queue in memory and
-- the one on the file system.
pub mod Delay
pub mod Memory
pub mod Files
mod Tests
use xmcl_shared_node_agent.Base.{
  ℕ, ◌-◌, ◌*◌, ◌^◌, ◌&&◌, String, Bool, true, false, List, Option, min, str_eq,
}
use xmcl_shared_node_agent.Js.Text.{hex64, nonempty}
use xmcl_shared_node_agent.Js.Value.{Value}
use xmcl_shared_node_agent.Js.Fault.{Fault, type_error, coded_error, Result, ensure}

-- The argument of `enqueue`; `body` is a `Uint8Array`.
pub record Input : Type 0 where
  pub id : String
  pub deployment_id : String
  pub job_fingerprint : String
  pub body : List ℕ

-- What identifies a job under its id.
pub record Identity : Type 0 where
  pub id : String
  pub deployment_id : String
  pub job_fingerprint : String

pub data State : Type 0 where
  pending running retry terminal : State

abbrev pub is_running : State → Bool
is_running running = true
is_running _ = false

-- What `claim` returns.
pub record Claimed : Type 0 where
  pub id : String
  pub deployment_id : String
  pub body : List ℕ
  pub attempts : ℕ

-- `outcome.kind`, with `outcome.result`
pub data Outcome : Type 0 where
  terminal retry : Value → Outcome

abbrev pub is_valid_input : Input → Bool
is_valid_input input =
    nonempty input.id && nonempty input.deployment_id && hex64 input.job_fingerprint

unfoldable pub validate_enqueue : Input → Result (Unit {0})
validate_enqueue input = ensure (is_valid_input input) type_error

abbrev pub idempotency_conflict : Fault
idempotency_conflict = coded_error "idempotency_conflict"

abbrev pub identity_of : Input → Identity
identity_of input = record {
  id = input.id;
  deployment_id = input.deployment_id;
  job_fingerprint = input.job_fingerprint;
}

unfoldable pub same_identity : Identity → Identity → Bool
same_identity kept given =
    str_eq kept.id given.id
    && str_eq kept.deployment_id given.deployment_id
    && str_eq kept.job_fingerprint given.job_fingerprint

unfoldable pub assert_same_identity : Identity → Identity → Result (Unit {0})
assert_same_identity kept given = ensure (same_identity kept given) idempotency_conflict

-- `attempts - 1` stops at 0, as `Math.max` does there.
unfoldable pub retry_delay : ℕ → ℕ → ℕ
retry_delay base attempts = min (base * 2 ^ min (attempts - 1) 8) 300000
