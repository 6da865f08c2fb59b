-- ===== src/Queue/Delay.antt =====
-- `retryDelay` of compiler/src/job-queue.mjs.
use native.Mathlib.Nat
use xmcl_shared_node_agent.Base.{
  ℕ, zero, suc, ◌-◌, ◌*◌, ◌^◌, ◌≤◌, ◌≡◌, refl, ap, ◌∙◌, min, leb, Bool-cases, inl, inr, arith,
  if◌then◌else◌,
}
use xmcl_shared_node_agent.Queue.{retry_delay}

min_doubled : (a b limit : ℕ) → min (a * (2 * b)) limit ≡ min (2 * min (a * b) limit) limit
min_doubled a b limit = grind (arith, Nat.mul_left_comm a 2 b)

-- The delay by the exponent.
delay_at :
    (base attempts e : ℕ)
    → min (attempts - 1) 8 ≡ e
    → retry_delay base attempts ≡ min (base * 2 ^ e) 300000
unfolding retry_delay
delay_at base attempts e h = ap (λ n. min (base * 2 ^ n) 300000) h

-- The first delay is the base, or five minutes where that is less. From one attempt to the next, up to
-- the ninth, the delay doubles, but stays within five minutes; after that it does not change.
pub retry_delay_doubles :
    (base attempts : ℕ)
    → 1 ≤ attempts
    → (retry_delay base 1 ≡ min base 300000)
      × (retry_delay base (suc attempts) ≡ (
          if leb attempts 8
          then min (2 * retry_delay base attempts) 300000
          else retry_delay base attempts))
retry_delay_doubles base zero h = absurd (omega arith)
retry_delay_doubles base (suc k) h = (
  delay_at base 1 0 (omega arith) ∙ grind arith,
  elim (Bool-cases (leb (suc k) 8)) [
    | inl early ↦
        rw
          (
            early,
            delay_at base (suc k) k (ground arith),
            delay_at base (suc (suc k)) (suc k) (ground arith),
            Nat.pow-succ' 2 k,
          )
          (min_doubled base (2 ^ k) 300000)
    | inr late ↦
        rw
          (
            late,
            delay_at base (suc k) 8 (ground arith),
            delay_at base (suc (suc k)) 8 (ground arith),
          )
          refl
  ],
)
