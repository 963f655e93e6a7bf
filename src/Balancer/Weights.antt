-- ===== src/Balancer/Weights.antt =====
-- load_balancer.py: the effective weight of an instance. Weights are counted in parts of which `unit`
-- make 1.0, percentages in hundredths, and each factor in parts of 100,000. An effective weight is
-- the product of six factors with a declared weight, in parts of which `unit` * 10^30 make 1.0.
use hmmp_python_sdk.Base.{ℕ, ◌-◌, ◌*◌, max, Bool, leb, ltb, ◌==◌, if◌then◌else◌}
use hmmp_python_sdk.Codec.Metrics.{Metrics, unpack_metrics_pack, percent}
use hmmp_python_sdk.Models.Instance.{ServiceInstance}

-- `max(0.05, factor)`
abbrev pub at_least : ℕ → ℕ
at_least factor = max 5000 factor

unfoldable pub cpu_factor : ℕ → ℕ
cpu_factor cpu = at_least (
    if leb cpu 6000
    then 100000
    else if leb cpu 8000
    then 100000 - (cpu - 6000) * 15
    else 70000 - (cpu - 8000) * 30)

unfoldable pub mem_factor : ℕ → ℕ
mem_factor memory = at_least (
    if leb memory 7000
    then 100000
    else if leb memory 9000
    then 100000 - (memory - 7000) * 10
    else 80000 - (memory - 9000) * 60)

unfoldable pub conn_factor : ℕ → ℕ
conn_factor active_conns = at_least (
    if leb active_conns 200
    then 100000
    else if leb active_conns 600
    then 100000 - (active_conns - 200) * 100
    else 60000 - (active_conns - 600) * 100)

unfoldable pub latency_factor : ℕ → ℕ
latency_factor ewma_delay = at_least (
    if leb ewma_delay 50
    then 100000
    else if leb ewma_delay 200
    then 100000 - (ewma_delay - 50) * 200
    else if leb ewma_delay 1000
    then 70000 - (ewma_delay - 200) * 50
    else 30000 - (ewma_delay - 1000) * 10)

unfoldable pub error_penalty : Bool → ℕ
error_penalty error_flag = if error_flag then 10000 else 100000

unfoldable pub preheat_penalty : Bool → ℕ
preheat_penalty preheating = if preheating then 30000 else 100000

-- The product of the factors, in parts of 10^30.
unfoldable pub load_factor : Metrics → ℕ
load_factor m =
    cpu_factor (percent m.cpu)
    * mem_factor (percent m.memory)
    * conn_factor m.active_conns
    * latency_factor m.ewma_delay
    * error_penalty m.error
    * preheat_penalty m.preheating

module _ (unit : ℕ) where
  -- `instance.weight if instance.weight > 0 else 1.0`
  abbrev pub declared_weight : ServiceInstance ℕ → ℕ
  declared_weight i = if ltb 0 i.weight then i.weight else unit

  unfoldable pub compute_effective_weight : ServiceInstance ℕ → ℕ
  compute_effective_weight i =
      if i.metrics_pack == 0
      then declared_weight i * 1000000000000000000000000000000
      else max (unit * 1000000000000000000000000000)
          (declared_weight i * load_factor (unpack_metrics_pack i.metrics_pack))
