-- ===== src/Backpressure/Controller.antt =====
-- hmmp/backpressure.py, class BackpressureController. A method takes the time `now`, in milliseconds,
-- that its call of `time.time()` reads. A delay is counted in eighths of a millisecond: the floats
-- that occur are multiples of it (Backpressure/Delays).
use hmmp_python_sdk.Base.{
  ℕ, ◌+◌, ◌*◌, ◌/◌, min, max, ltb, Bool, true, false, if◌then◌else◌, List, [], ◌∷◌,
}

abbrev pub base_delay : ℕ
base_delay = 50 * 8

abbrev pub max_delay : ℕ
max_delay = 2000 * 8

abbrev pub min_delay : ℕ
min_delay = 10 * 8

abbrev pub recovery_window_ms : ℕ
recovery_window_ms = 5000

pub record BackpressureController : Type 0 where
  pub active : Bool
  pub backpressure_start_time : ℕ
  pub delay : ℕ

-- `__init__`, and the state that `reset` sets.
abbrev pub new : BackpressureController
new = record { active = false; backpressure_start_time = 0; delay = base_delay }

unfoldable pub on_backpressure_signal : ℕ → BackpressureController → BackpressureController
on_backpressure_signal now c = record {
  active = true;
  backpressure_start_time = now;
  delay = min (c.delay * 2) max_delay;
}

unfoldable pub recover : BackpressureController → BackpressureController
recover c = if c.active then record c { active = false; delay = base_delay } else c

-- `elapsed > RECOVERY_WINDOW_MS`
abbrev pub has_recovered : ℕ → BackpressureController → Bool
has_recovered now c = ltb (c.backpressure_start_time + recovery_window_ms) now

unfoldable pub on_normal_response : ℕ → BackpressureController → BackpressureController
unfolding recover
on_normal_response now c =
    if c.active
    then (if has_recovered now c
        then recover c
        else record c { delay = max (c.delay / 2) min_delay })
    else c

-- The delay before the next request, and the state left behind.
unfoldable pub compute_delay : ℕ → BackpressureController → BackpressureController × ℕ
unfolding recover
compute_delay now c =
    if c.active then (if has_recovered now c then (recover c, 0) else (c, c.delay)) else (c, 0)

abbrev pub current_delay : BackpressureController → ℕ
current_delay c = if c.active then c.delay else 0

abbrev pub reset : BackpressureController → BackpressureController
reset c = new

-- The calls that a controller receives, each with its time, and runs of them.
pub data Event : Type 0 where
  signal normal compute : ℕ → Event
  cleared : Event

unfoldable pub step : Event → BackpressureController → BackpressureController
step (signal now) c = on_backpressure_signal now c
step (normal now) c = on_normal_response now c
step (compute now) c = (compute_delay now c).0
step cleared c = reset c

unfoldable pub run : List Event → BackpressureController → BackpressureController
run [] c = c
run (e ∷ es) c = run es (step e c)
