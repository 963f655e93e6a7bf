-- ===== src/Tests/Collector.antt =====
-- A busy client, for the theorems on hmmp/metrics.py.
use hmmp_python_sdk.Base.{ℕ, ◌*◌, ◌/◌, ◌≡◌, refl, [], ◌∷◌, min, false, some, none, ok, arith}
use hmmp_python_sdk.Codec.Metrics.{unpack_metrics_pack}
use hmmp_python_sdk.Collector.Metrics.{
  MetricsCollector, Machine, compute_error_flag, compute_preheat_flag, get_cpu_usage,
  get_memory_usage, collect_metrics_pack,
}
use hmmp_python_sdk.Collector.Average.{IsBetween, record_latencies, average_IsBetween}
use hmmp_python_sdk.Collector.Report.{report_unpacks}

abbrev collector : MetricsCollector
collector = record {
  active_connections = 5000;
  ewma_num = 0;
  ewma_den = 1;
  total_requests = 4;
  failed_requests = 2;
  error_flag_override = false;
  preheat_flag_override = none;
  preheat_duration_ms = 120000;
  start_time_ms = 1000;
  cpu_provider = none;
  memory_provider = none;
}

abbrev machine : Machine
machine = record {
  psutil_cpu = some (ok (record { num = 9999; den = 1 }));
  psutil_memory = none;
  proc_cpu = none;
  proc_memory = some (record { num = 6440; den = 1 });
}

average_IsBetween_example : IsBetween 10 40 (record_latencies (10 ∷ 40 ∷ 25 ∷ []) collector)
average_IsBetween_example = average_IsBetween 10 40 10 (40 ∷ 25 ∷ []) collector refl (omega arith)

report_unpacks_example :
    (word : ℕ) × (collect_metrics_pack 1 machine 5000 collector ≡ ok word)
    × (unpack_metrics_pack word ≡ record {
      cpu = min 31 (9999 / (322 * 1));
      memory = min 31 (6440 / (322 * 1));
      active_conns = min 1023 5000;
      ewma_delay = min 511 (0 / (1 * 1));
      error = compute_error_flag collector;
      preheating = compute_preheat_flag 5000 collector;
      delay_scale = false;
    })
report_unpacks_example =
    report_unpacks 1 machine 5000 collector (record { num = 9999; den = 1 })
      (record { num = 6440; den = 1 }) (unfold get_cpu_usage in refl)
      (unfold get_memory_usage in refl)
