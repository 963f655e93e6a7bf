-- ===== src/Collector/Average.antt =====
-- The moving average of the latencies, and when the error flag is reported.
use hmmp_python_sdk.Base.{
  ℕ, ◌+◌, ◌*◌, ◌≤◌, ◌<◌, ◌≡◌, ◌↔◌, ◌⊎◌, inl, inr, refl, [], ◌∷◌, List, All, Bool, true, false,
  if◌then◌else◌, arith,
}
use native.Mathlib.Nat.{mul-le-mul_right}
use hmmp_python_sdk.Collector.Metrics.{
  MetricsCollector, record_latency, compute_error_flag, has_error_rate,
}

-- The latencies are recorded in a row.
unfoldable pub record_latencies : List ℕ → MetricsCollector → MetricsCollector
record_latencies [] c = c
record_latencies (latency ∷ latencies) c = record_latencies latencies (record_latency latency c)

module _ (least greatest : ℕ) where
  abbrev pub Within : ℕ → Type 0
  Within latency = (least ≤ latency) × (latency ≤ greatest)

  -- The average is a fraction between the two.
  pub record IsBetween (c : MetricsCollector) : Type 0 where
    pub den_pos : 0 < c.ewma_den
    pub above : least * c.ewma_den ≤ c.ewma_num
    pub below : c.ewma_num ≤ greatest * c.ewma_den

  scaled : (n d a b : ℕ) → a * d ≤ n → a ≤ b → a * (10 * d) ≤ 3 * (b * d) + 7 * n
  scaled n d a b h k = omega (arith, mul-le-mul_right d k)

  scaled_below : (n d a b : ℕ) → n ≤ a * d → b ≤ a → 3 * (b * d) + 7 * n ≤ a * (10 * d)
  scaled_below n d a b h k = omega (arith, mul-le-mul_right d k)

  sample_IsBetween :
      (latency : ℕ) (c : MetricsCollector)
      → Within latency
      → (c.ewma_num ≡ 0) ⊎ IsBetween c
      → IsBetween (record_latency latency c)
  unfolding record_latency
  sample_IsBetween latency c h (inl e) = ground arith
  sample_IsBetween latency c h (inr v) = ground (
    arith,
    scaled c.ewma_num c.ewma_den least latency,
    scaled_below c.ewma_num c.ewma_den greatest latency,
  )

  samples_IsBetween :
      (latencies : List ℕ) (c : MetricsCollector)
      → All Within latencies
      → IsBetween c
      → IsBetween (record_latencies latencies c)
  unfolding record_latencies
  samples_IsBetween [] c h v = v
  samples_IsBetween (latency ∷ latencies) c h v =
      samples_IsBetween latencies (record_latency latency c) h.1
        (sample_IsBetween latency c h.0 (inr v))

  -- Of a collector without samples: after one latency or more, the moving average lies between the
  -- bounds that all the latencies keep, so never above the greatest of them nor below the least.
  pub average_IsBetween :
      (latency : ℕ) (latencies : List ℕ) (c : MetricsCollector)
      → c.ewma_num ≡ 0
      → All Within (latency ∷ latencies)
      → IsBetween (record_latencies (latency ∷ latencies) c)
  unfolding record_latencies
  average_IsBetween latency latencies c e h =
      samples_IsBetween latencies (record_latency latency c) h.1
        (sample_IsBetween latency c h.0 (inl e))

rate_iff :
    (total failed : ℕ) → (has_error_rate total failed ≡ true) ↔ ((0 < total) × (total ≤ 2 * failed))
unfolding has_error_rate
rate_iff total failed = ((λ e. (ground arith, ground arith)), (λ h. ground arith))

flag_or_rate :
    (flag : Bool) (total failed : ℕ)
    → ((if flag then true else has_error_rate total failed) ≡ true)
      ↔ ((flag ≡ true) ⊎ ((0 < total) × (total ≤ 2 * failed)))
flag_or_rate true total failed = ((λ e. inl refl), (λ h. refl))
flag_or_rate false total failed = (
  (λ e. inr ((rate_iff total failed).0 e)),
  (λ h. elim h [ inl e ↦ cc | inr p ↦ (rate_iff total failed).1 p ]),
)

-- The error flag is reported exactly when it was set from outside, or when there were requests and at
-- least half of them failed: a rate of exactly one half is reported.
pub error_flag_iff :
    (c : MetricsCollector)
    → (compute_error_flag c ≡ true) ↔ (
        (c.error_flag_override ≡ true)
        ⊎ ((0 < c.total_requests) × (c.total_requests ≤ 2 * c.failed_requests)))
unfolding compute_error_flag
error_flag_iff c = flag_or_rate c.error_flag_override c.total_requests c.failed_requests
