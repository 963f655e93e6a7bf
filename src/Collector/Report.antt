-- ===== src/Collector/Report.antt =====
-- What a peer reads from the word that a client reports.
use hmmp_python_sdk.Base.{ℕ, ◌*◌, ◌/◌, ◌<◌, ◌≡◌, ◌∙◌, refl, min, false, ok, arith}
use hmmp_python_sdk.Codec.Metrics.{Metrics, pack_metrics_pack, unpack_metrics_pack}
use hmmp_python_sdk.Codec.MetricsLaws.{unpack-pack}
use hmmp_python_sdk.Collector.Metrics.{
  MetricsCollector, Machine, Usage, quantized, ewma_ms, compute_error_flag, compute_preheat_flag,
  get_cpu_usage, get_memory_usage, collect_metrics_pack,
}

clipped :
    (m : Metrics)
    → m.cpu < 32
    → m.memory < 32
    → m.active_conns < 1024
    → m.ewma_delay < 512
    → unpack_metrics_pack (pack_metrics_pack m) ≡ m
clipped m h1 h2 h3 h4 = unpack-pack m ∙ ground arith

module _ (per_ms : ℕ) (m : Machine) (now : ℕ) (c : MetricsCollector) where
  -- Where the usages can be read, a word is collected, and unpacking it gives each measure clipped to
  -- the largest value of its field, the processor and the memory in steps of 3.22 percent, and the two
  -- flags as the collector computes them: no measure spills into another field, and none wraps around.
  pub report_unpacks :
      (cpu memory : Usage)
      → get_cpu_usage m now c ≡ ok cpu
      → get_memory_usage m now c ≡ ok memory
      → (word : ℕ) × (collect_metrics_pack per_ms m now c ≡ ok word)
        × (unpack_metrics_pack word ≡ record {
          cpu = min 31 (cpu.num / (322 * cpu.den));
          memory = min 31 (memory.num / (322 * memory.den));
          active_conns = min 1023 c.active_connections;
          ewma_delay = min 511 (c.ewma_num / (c.ewma_den * per_ms));
          error = compute_error_flag c;
          preheating = compute_preheat_flag now c;
          delay_scale = false;
        })
  unfolding collect_metrics_pack quantized ewma_ms
  report_unpacks cpu memory e f = (
    _,
    rw (e, f) refl,
    clipped
        (record {
          cpu = min 31 (cpu.num / (322 * cpu.den));
          memory = min 31 (memory.num / (322 * memory.den));
          active_conns = min 1023 c.active_connections;
          ewma_delay = min 511 (c.ewma_num / (c.ewma_den * per_ms));
          error = compute_error_flag c;
          preheating = compute_preheat_flag now c;
          delay_scale = false;
        })
        (omega arith) (omega arith) (omega arith) (omega arith),
  )
