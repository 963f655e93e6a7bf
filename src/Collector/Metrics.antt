-- ===== src/Collector/Metrics.antt =====
-- metrics.py, class MetricsCollector. Times are in whole milliseconds. A latency is counted in ticks of
-- which `per_ms` make a millisecond, and the moving average is a fraction of ticks. A usage is a
-- fraction of hundredths of a percent. `now` is the time that a method reads.
use hmmp_python_sdk.Base.{
  ℕ, zero, suc, ◌+◌, ◌-◌, ◌*◌, ◌/◌, [], ◌∷◌, List, Text, codes, min, Bool, true, false, Option,
  none, some, Result, ok, err, ◌>>=◌, ltb, leb, ◌==◌, text_eq, not, if◌then◌else◌,
}
use hmmp_python_sdk.Codec.Metrics.{pack_metrics_pack}

pub record Usage : Type 0 where
  pub num : ℕ
  pub den : ℕ

pub record MetricsCollector : Type 0 where
  pub active_connections : ℕ
  -- `_ewma_delay_ms`, as numerator and denominator
  pub ewma_num : ℕ
  pub ewma_den : ℕ
  pub total_requests : ℕ
  pub failed_requests : ℕ
  pub error_flag_override : Bool
  pub preheat_flag_override : Option Bool
  pub preheat_duration_ms : ℕ
  pub start_time_ms : ℕ
  -- A provider is asked at a time, and may raise.
  pub cpu_provider : Option (ℕ → Result Usage)
  pub memory_provider : Option (ℕ → Result Usage)

-- `preheat_duration_ms or DEFAULT_PREHEAT_DURATION_MS`
abbrev pub or_default : Option ℕ → ℕ
or_default none = 120000
or_default (some zero) = 120000
or_default (some (suc n)) = suc n

unfoldable pub new : Option ℕ → ℕ → MetricsCollector
new preheat_duration_ms now = record {
  active_connections = 0;
  ewma_num = 0;
  ewma_den = 1;
  total_requests = 0;
  failed_requests = 0;
  error_flag_override = false;
  preheat_flag_override = none;
  preheat_duration_ms = or_default preheat_duration_ms;
  start_time_ms = now;
  cpu_provider = none;
  memory_provider = none;
}

unfoldable pub set_cpu_provider : (ℕ → Result Usage) → MetricsCollector → MetricsCollector
set_cpu_provider provider c = record c { cpu_provider = some provider }

unfoldable pub set_memory_provider : (ℕ → Result Usage) → MetricsCollector → MetricsCollector
set_memory_provider provider c = record c { memory_provider = some provider }

unfoldable pub increment_connections : MetricsCollector → MetricsCollector
increment_connections c = record c { active_connections = c.active_connections + 1 }

-- `max(0, active - 1)`
unfoldable pub decrement_connections : MetricsCollector → MetricsCollector
decrement_connections c = record c { active_connections = c.active_connections - 1 }

-- Three tenths of the latency and seven tenths of the average, or the first sample.
unfoldable pub record_latency : ℕ → MetricsCollector → MetricsCollector
record_latency latency c =
    if c.ewma_num == 0 then record c { ewma_num = latency; ewma_den = 1 } else record c {
      ewma_num = 3 * (latency * c.ewma_den) + 7 * c.ewma_num;
      ewma_den = 10 * c.ewma_den;
    }

unfoldable pub record_request : Bool → MetricsCollector → MetricsCollector
record_request success c = record c {
  total_requests = c.total_requests + 1;
  failed_requests = if success then c.failed_requests else c.failed_requests + 1;
}

unfoldable pub set_error_flag : Bool → MetricsCollector → MetricsCollector
set_error_flag flag c = record c { error_flag_override = flag }

unfoldable pub reset_error_counters : MetricsCollector → MetricsCollector
reset_error_counters c = record c { total_requests = 0; failed_requests = 0 }

unfoldable pub set_preheat_flag : Option Bool → MetricsCollector → MetricsCollector
set_preheat_flag flag c = record c { preheat_flag_override = flag }

unfoldable pub set_preheat_duration_ms : ℕ → MetricsCollector → MetricsCollector
set_preheat_duration_ms ms c = record c { preheat_duration_ms = ms }

-- `error_rate >= 0.5`; without requests the rate is 0.
unfoldable pub has_error_rate : ℕ → ℕ → Bool
has_error_rate total failed = if total == 0 then false else leb total (failed * 2)

unfoldable pub compute_error_flag : MetricsCollector → Bool
unfolding has_error_rate
compute_error_flag c =
    if c.error_flag_override then true else has_error_rate c.total_requests c.failed_requests

-- `uptime_ms < duration`, where the clock may have been set back.
abbrev pub preheats : Option Bool → ℕ → MetricsCollector → Bool
preheats (some flag) now c = flag
preheats none now c = ltb now (c.start_time_ms + c.preheat_duration_ms)

unfoldable pub compute_preheat_flag : ℕ → MetricsCollector → Bool
compute_preheat_flag now c = preheats c.preheat_flag_override now c

-- The words of the first line of /proc/stat, their numbers read by `parse_int`. `none` is an
-- exception, which the caller swallows.
abbrev pub all_ints : (Text → Option ℕ) → ℕ → List Text → Option (List ℕ)
all_ints parse_int zero ws = some []
all_ints parse_int (suc n) [] = some []
all_ints parse_int (suc n) (w ∷ ws) = elim (parse_int w) [
  | none ↦ none
  | some v ↦ elim (all_ints parse_int n ws) [ none ↦ none | some vs ↦ some (v ∷ vs) ]
]

unfoldable pub sum : List ℕ → ℕ
sum [] = 0
sum (x ∷ xs) = x + sum xs

-- `values[3] + values[4]` of the total are idle; fewer than five numbers are an IndexError.
unfoldable pub busy_share : List ℕ → Option Usage
busy_share (user ∷ nice ∷ system ∷ idle ∷ iowait ∷ others) =
    let total = sum (user ∷ nice ∷ system ∷ idle ∷ iowait ∷ others) in
    if total == 0
    then some (record { num = 0; den = 1 })
    else some (record { num = (total - (idle + iowait)) * 10000; den = total })
busy_share _ = none

unfoldable pub read_proc_cpu : (Text → Option ℕ) → Option (List Text) → Option Usage
read_proc_cpu parse_int none = none
read_proc_cpu parse_int (some []) = none
read_proc_cpu parse_int (some (name ∷ ws)) =
    if not (text_eq.beq name (codes "cpu"))
    then some (record { num = 0; den = 1 })
    else elim (all_ints parse_int 8 ws) [ none ↦ none | some values ↦ busy_share values ]

-- What the process can ask about its machine: psutil, where it is installed, and what reading /proc
-- gives, where that does not raise.
pub record Machine : Type 0 where
  pub psutil_cpu : Option (Result Usage)
  pub psutil_memory : Option (Result Usage)
  pub proc_cpu : Option Usage
  pub proc_memory : Option Usage

abbrev pub from_machine : Option (Result Usage) → Option Usage → Result Usage
from_machine (some psutil) proc = psutil
from_machine none (some usage) = ok usage
from_machine none none = ok (record { num = 0; den = 1 })

-- The provider first; if it raises, the machine.
abbrev pub asked : Option (Result Usage) → Result Usage → Result Usage
asked (some (ok usage)) machine = ok usage
asked (some (err e)) machine = machine
asked none machine = machine

abbrev pub at_time : ℕ → Option (ℕ → Result Usage) → Option (Result Usage)
at_time now none = none
at_time now (some provider) = some (provider now)

unfoldable pub get_cpu_usage : Machine → ℕ → MetricsCollector → Result Usage
get_cpu_usage m now c = asked (at_time now c.cpu_provider) (from_machine m.psutil_cpu m.proc_cpu)

unfoldable pub get_memory_usage : Machine → ℕ → MetricsCollector → Result Usage
get_memory_usage m now c =
    asked (at_time now c.memory_provider) (from_machine m.psutil_memory m.proc_memory)

-- `min(31, int(percentage / 3.22))`
unfoldable pub quantized : Usage → ℕ
quantized u = min 31 (u.num / (322 * u.den))

-- `int(self._ewma_delay_ms)`
unfoldable pub ewma_ms : ℕ → MetricsCollector → ℕ
ewma_ms per_ms c = c.ewma_num / (c.ewma_den * per_ms)

unfoldable pub collect_metrics_pack : ℕ → Machine → ℕ → MetricsCollector → Result ℕ
collect_metrics_pack per_ms m now c = do
  cpu ← get_cpu_usage m now c
  memory ← get_memory_usage m now c
  ok (
      pack_metrics_pack (record {
        cpu = quantized cpu;
        memory = quantized memory;
        active_conns = min 1023 c.active_connections;
        ewma_delay = min 511 (ewma_ms per_ms c);
        error = compute_error_flag c;
        preheating = compute_preheat_flag now c;
        delay_scale = false;
      }))
