-- ===== src/CircuitBreaker/Breaker.antt =====
-- hmmp/circuit_breaker.py, class CircuitBreaker. Each method takes the time `now`, in milliseconds,
-- that its calls of `time.time()` read, and returns the new breaker. The float
-- failure_rate_threshold is the fraction rate_num / rate_den.
use hmmp_python_sdk.Base.{
  ℕ, ◌+◌, ◌-◌, ◌*◌, ◌/◌, max, ltb, leb, if◌then◌else◌, Bool, true, false, ◌||◌, ◌&&◌, Text,
}
use hmmp_python_sdk.Base.Int.{ℤ, pos, decrement, is_nonneg}

pub data CircuitState : Type 0 where
  closed open' half_open : CircuitState

pub record CircuitBreakerConfig : Type 0 where
  pub failure_threshold : ℕ
  pub rate_num : ℕ
  pub rate_den : ℕ
  pub minimum_calls_before_trip : ℕ
  pub wait_duration_in_open_state_ms : ℕ
  pub permitted_calls_in_half_open : ℕ

abbrev pub defaults : CircuitBreakerConfig
defaults = record {
  failure_threshold = 5;
  rate_num = 1;
  rate_den = 2;
  minimum_calls_before_trip = 10;
  wait_duration_in_open_state_ms = 30000;
  permitted_calls_in_half_open = 3;
}

pub record CircuitBreaker : Type 0 where
  pub name : Text
  pub config : CircuitBreakerConfig
  pub state : CircuitState
  pub failure_count : ℕ
  pub success_count : ℕ
  pub total_requests : ℕ
  pub last_state_change_time : ℕ
  pub half_open_permits : ℤ
  pub remote_error_flag : Bool
  pub backpressure_active : Bool

-- `__init__`
unfoldable pub new : Text → CircuitBreakerConfig → ℕ → CircuitBreaker
new name config now = record {
  name = name;
  config = config;
  state = closed;
  failure_count = 0;
  success_count = 0;
  total_requests = 0;
  last_state_change_time = now;
  half_open_permits = pos 0;
  remote_error_flag = false;
  backpressure_active = false;
}

unfoldable pub transition_to : CircuitState → ℕ → CircuitBreaker → CircuitBreaker
transition_to closed now b = record b {
  state = closed;
  last_state_change_time = now;
  failure_count = 0;
  success_count = 0;
}
transition_to half_open now b = record b {
  state = half_open;
  last_state_change_time = now;
  success_count = 0;
  half_open_permits = pos b.config.permitted_calls_in_half_open;
}
transition_to open' now b = record b { state = open'; last_state_change_time = now }

unfoldable pub try_acquire_half_open : CircuitBreaker → CircuitBreaker × Bool
try_acquire_half_open b =
    let permits = decrement b.half_open_permits in
    (record b { half_open_permits = permits }, is_nonneg permits)

-- `elapsed >= wait`, for elapsed = now - last_state_change_time
abbrev pub has_waited : CircuitBreaker → ℕ → Bool
has_waited b now = leb (b.last_state_change_time + b.config.wait_duration_in_open_state_ms) now

acquire_in : CircuitState → ℕ → CircuitBreaker → CircuitBreaker × Bool
unfolding try_acquire_half_open transition_to
acquire_in closed now b = (b, true)
acquire_in open' now b =
    if has_waited b now then try_acquire_half_open (transition_to half_open now b) else (b, false)
acquire_in half_open now b = try_acquire_half_open b

unfoldable pub try_acquire : ℕ → CircuitBreaker → CircuitBreaker × Bool
unfolding acquire_in
try_acquire now b = acquire_in b.state now b

-- The threshold in force: halved under the remote error flag, then cut to three quarters under
-- backpressure, and never below 1 when it was lowered.
unfoldable pub effective_threshold : CircuitBreaker → ℕ
effective_threshold b =
    let threshold = b.config.failure_threshold in
    let flagged = if b.remote_error_flag then max 1 (threshold / 2) else threshold in
    if b.backpressure_active then max 1 (flagged * 3 / 4) else flagged

-- `failure_count / total_requests >= failure_rate_threshold`, over a common denominator
unfoldable pub rate_reached : CircuitBreaker → Bool
rate_reached b =
    leb b.config.minimum_calls_before_trip b.total_requests
    && leb (b.config.rate_num * b.total_requests) (b.failure_count * b.config.rate_den)

unfoldable pub should_trip : CircuitBreaker → Bool
should_trip b = rate_reached b || leb (effective_threshold b) b.failure_count

success_in : CircuitState → ℕ → CircuitBreaker → CircuitBreaker
unfolding transition_to
success_in half_open now b =
    let c = record b { success_count = b.success_count + 1 } in
    if leb c.config.permitted_calls_in_half_open c.success_count
    then transition_to closed now c
    else c
success_in closed now b =
    if ltb 0 b.failure_count then record b { failure_count = b.failure_count - 1 } else b
success_in open' now b = b

unfoldable pub record_success : ℕ → CircuitBreaker → CircuitBreaker
unfolding success_in
record_success now b = success_in b.state now (record b { total_requests = b.total_requests + 1 })

failure_in : CircuitState → ℕ → CircuitBreaker → CircuitBreaker
unfolding transition_to
failure_in half_open now b = transition_to open' now b
failure_in closed now b =
    let c = record b { failure_count = b.failure_count + 1 } in
    if should_trip c then transition_to open' now c else c
failure_in open' now b = b

unfoldable pub record_failure : ℕ → CircuitBreaker → CircuitBreaker
unfolding failure_in
record_failure now b = failure_in b.state now (record b { total_requests = b.total_requests + 1 })

flag_set_in : CircuitState → ℕ → CircuitBreaker → CircuitBreaker
unfolding transition_to
flag_set_in closed now b =
    if leb (max 1 (b.config.failure_threshold / 2)) b.failure_count
    then transition_to open' now b
    else b
flag_set_in _ now b = b

unfoldable pub on_remote_error_flag_set : ℕ → CircuitBreaker → CircuitBreaker
unfolding flag_set_in
on_remote_error_flag_set now b = flag_set_in b.state now (record b { remote_error_flag = true })

flag_cleared_in : CircuitState → ℕ → CircuitBreaker → CircuitBreaker
unfolding transition_to
flag_cleared_in open' now b = transition_to half_open now b
flag_cleared_in _ now b = b

unfoldable pub on_remote_error_flag_cleared : ℕ → CircuitBreaker → CircuitBreaker
unfolding flag_cleared_in
on_remote_error_flag_cleared now b =
    flag_cleared_in b.state now (record b { remote_error_flag = false })

unfoldable pub on_backpressure : Bool → CircuitBreaker → CircuitBreaker
on_backpressure active b = record b { backpressure_active = active }
