-- ===== src/Tests/Balancer.antt =====
-- Two instances of a service, one under load, for the theorems on hmmp/load_balancer.py.
use hmmp_python_sdk.Base.{ℕ, ◌≤◌, ◌<◌, ◌≡◌, refl, inl, [], ◌∷◌, codes, true, some, arith, text_eq}
use hmmp_python_sdk.Base.Decimal.{decimal}
use hmmp_python_sdk.Base.Dict
use hmmp_python_sdk.Cache.Snapshots.{instance_key}
use hmmp_python_sdk.Codec.Metrics.{unpack_metrics_pack, percent}
use hmmp_python_sdk.CircuitBreaker.Breaker
use hmmp_python_sdk.CircuitBreaker.Breaker.{
  CircuitBreaker, defaults, try_acquire, transition_to, half_open,
}
use hmmp_python_sdk.CircuitBreaker.Registry.{CircuitBreakerRegistry, is_instance_available}
use hmmp_python_sdk.Models.Instance.{ServiceInstance}
use hmmp_python_sdk.Balancer.Weights.{
  compute_effective_weight, load_factor, cpu_factor, mem_factor, conn_factor, latency_factor,
  error_penalty, preheat_penalty,
}
use hmmp_python_sdk.Balancer.Monotone.{weight_mono}
use hmmp_python_sdk.Balancer.Selection.{
  Random, weighted, weighted_instances, total_weight, select, healthy_available,
  select_with_circuit_breaker,
}
use hmmp_python_sdk.Balancer.Draws.{select_share}
use hmmp_python_sdk.Balancer.Permits.{asked, after, acquired, times_listed, selection_spends}
use hmmp_python_sdk.Balancer.Router.{split_tag, route}
use hmmp_python_sdk.Balancer.Colors.{Selects, IsColored, route-IsColored}

abbrev idle : ServiceInstance ℕ
idle = record {
  service_name = codes "pay";
  ip = codes "a";
  port = 80;
  weight = 1000;
  ephemeral = true;
  healthy = true;
  metadata = (codes "env", codes "gray") ∷ [];
  metadata_hash = 0;
  metrics_pack = 1;
}

-- Level 31 of the processor, with the error flag.
abbrev busy : ServiceInstance ℕ
busy = record {
  service_name = codes "pay";
  ip = codes "b";
  port = 81;
  weight = 1000;
  ephemeral = true;
  healthy = true;
  metadata = [];
  metadata_hash = 0;
  metrics_pack = 536870943;
}

-- Level 31 is 99.82 %, and its factor 0.1054.
busy_weight : compute_effective_weight 1000 busy ≡ 10540000000000000000000000000000
unfolding compute_effective_weight load_factor cpu_factor mem_factor conn_factor latency_factor
    error_penalty preheat_penalty percent unpack_metrics_pack
busy_weight = refl

weight_mono_example : compute_effective_weight 1000 busy ≤ compute_effective_weight 1000 idle
weight_mono_example =
    weight_mono 1000 busy idle (omega arith)
      (unfold unpack_metrics_pack in
        record {
          cpu = omega arith;
          memory = omega arith;
          active_conns = omega arith;
          ewma_delay = omega arith;
          error = omega arith;
          preheating = omega arith;
        })
      (omega arith) (omega arith)

first_of : ℕ → ℕ
first_of n = 0

first_of-lt : (n : ℕ) → 0 < n → first_of n < n
unfolding first_of
first_of-lt n h = h

abbrev half : Random
half = record {
  draw = 4503599627370496;
  choice = first_of;
  draw-lt = omega arith;
  choice-lt = first_of-lt;
}

select_share_example : select 1000 half (idle ∷ (busy ∷ [])) ≡ some idle
select_share_example =
    select_share 1000 (omega arith) half idle busy [] (weighted 1000 idle) []
      (weighted 1000 busy ∷ []) (unfold weighted_instances in refl) (inl refl)
      (unfold total_weight compute_effective_weight load_factor cpu_factor mem_factor conn_factor
          latency_factor error_penalty preheat_penalty percent unpack_metrics_pack in
        omega arith)

abbrev probing : CircuitBreaker
probing = transition_to half_open 9 (Breaker.new (codes "b:81") defaults 0)

abbrev one_probing : CircuitBreakerRegistry
one_probing = record { breakers = (codes "b:81", probing) ∷ []; default_config = defaults }

-- The busy instance is listed twice, and its breaker is asked twice.
listed_twice : times_listed 10 (codes "b:81") (idle ∷ busy ∷ busy ∷ []) ≡ 2
unfolding times_listed instance_key decimal
listed_twice = refl

selection_spends_example :
    Dict.get
      (select_with_circuit_breaker
        (asked 10)
        1000
        half
        (idle ∷ busy ∷ busy ∷ [])
        one_probing).0.breakers
      (codes "b:81")
    ≡ after 10
        (acquired 10 (times_listed 10 (codes "b:81") (idle ∷ busy ∷ busy ∷ [])))
        (Dict.get one_probing.breakers (codes "b:81"))
selection_spends_example =
    selection_spends 10 1000 half (idle ∷ busy ∷ busy ∷ []) one_probing (codes "b:81")
      (unfold instance_key decimal Dict.get healthy_available is_instance_available in λ e. cc)

route-IsColored_example :
    Selects
      (IsColored (codes "env") (codes "gray"))
      (route half (some 1000) (record { color_tag = some (codes "env=gray") }) (busy ∷ (idle ∷ [])))
route-IsColored_example =
    route-IsColored (codes "env") (codes "gray") half (some 1000) (codes "env=gray") (busy ∷ []) []
      idle (unfold split_tag in refl) (unfold Dict.get in refl)
