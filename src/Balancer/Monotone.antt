-- ===== src/Balancer/Monotone.antt =====
-- More load never makes an instance heavier, and an effective weight stays within its bounds.
use hmmp_python_sdk.Base.{ℕ, ◌≤◌, ◌<◌, ◌≢◌, Bool, arith}
use native.Mathlib.Nat.{mul-le-mul}
use hmmp_python_sdk.Codec.Metrics.{Metrics, unpack_metrics_pack, percent}
use hmmp_python_sdk.Models.Instance.{ServiceInstance, flag_byte}
use hmmp_python_sdk.Balancer.Weights.{
  cpu_factor, mem_factor, conn_factor, latency_factor, error_penalty, preheat_penalty, load_factor,
  declared_weight, compute_effective_weight,
}

-- The second metrics show at least the load of the first.
pub record Loaded (m n : Metrics) : Type 0 where
  pub cpu : m.cpu ≤ n.cpu
  pub memory : m.memory ≤ n.memory
  pub active_conns : m.active_conns ≤ n.active_conns
  pub ewma_delay : m.ewma_delay ≤ n.ewma_delay
  pub error : flag_byte m.error ≤ flag_byte n.error
  pub preheating : flag_byte m.preheating ≤ flag_byte n.preheating

cpu_factor_anti : (a b : ℕ) → a ≤ b → cpu_factor (percent b) ≤ cpu_factor (percent a)
unfolding cpu_factor percent
cpu_factor_anti a b h = ground arith

mem_factor_anti : (a b : ℕ) → a ≤ b → mem_factor (percent b) ≤ mem_factor (percent a)
unfolding mem_factor percent
mem_factor_anti a b h = ground arith

conn_factor_anti : (a b : ℕ) → a ≤ b → conn_factor b ≤ conn_factor a
unfolding conn_factor
conn_factor_anti a b h = ground arith

latency_factor_anti : (a b : ℕ) → a ≤ b → latency_factor b ≤ latency_factor a
unfolding latency_factor
latency_factor_anti a b h = ground arith

error_penalty_anti : (a b : Bool) → flag_byte a ≤ flag_byte b → error_penalty b ≤ error_penalty a
unfolding error_penalty
error_penalty_anti a b h = ground arith

preheat_penalty_anti :
    (a b : Bool) → flag_byte a ≤ flag_byte b → preheat_penalty b ≤ preheat_penalty a
unfolding preheat_penalty
preheat_penalty_anti a b h = ground arith

load_factor_anti : (m n : Metrics) → Loaded m n → load_factor n ≤ load_factor m
unfolding load_factor
load_factor_anti m n h =
    mul-le-mul
      (mul-le-mul
        (mul-le-mul
          (mul-le-mul
            (mul-le-mul (cpu_factor_anti m.cpu n.cpu h.cpu)
              (mem_factor_anti m.memory n.memory h.memory))
            (conn_factor_anti m.active_conns n.active_conns h.active_conns))
          (latency_factor_anti m.ewma_delay n.ewma_delay h.ewma_delay))
        (error_penalty_anti m.error n.error h.error))
      (preheat_penalty_anti m.preheating n.preheating h.preheating)

module _ (unit : ℕ) (i j : ServiceInstance ℕ) where
  -- An instance that reports at least the load of another, and declares no larger weight, is never
  -- weighed heavier: the effective weight falls with every one of the six measures. Both instances
  -- report metrics, and a declared weight of zero stands for 1.0.
  pub weight_mono :
      declared_weight unit i ≤ declared_weight unit j
      → Loaded (unpack_metrics_pack j.metrics_pack) (unpack_metrics_pack i.metrics_pack)
      → i.metrics_pack ≢ 0
      → j.metrics_pack ≢ 0
      → compute_effective_weight unit i ≤ compute_effective_weight unit j
  unfolding compute_effective_weight
  weight_mono h loaded p q = ground (
    arith,
    mul-le-mul h (
        load_factor_anti (unpack_metrics_pack j.metrics_pack) (unpack_metrics_pack i.metrics_pack)
          loaded),
  )

-- No weight is zero.
pub weight_pos : (unit : ℕ) (i : ServiceInstance ℕ) → 0 < unit → 0 < compute_effective_weight unit i
unfolding compute_effective_weight
weight_pos unit i h = ground arith
