-- ===== src/CircuitBreaker/Invariant.antt =====
-- What holds of a breaker between two calls.
use hmmp_python_sdk.Base.{ℕ, ◌+◌, ◌≤◌, ◌<◌, ◌≡◌, max, Text, List, [], ◌∷◌, false, arith}
use hmmp_python_sdk.Base.Int.{decrement, pos_part}
use hmmp_python_sdk.CircuitBreaker.Breaker.{
  CircuitBreaker, CircuitBreakerConfig, closed, half_open, new, try_acquire, effective_threshold,
  should_trip, record_success, record_failure, on_remote_error_flag_set,
  on_remote_error_flag_cleared, on_backpressure,
}
use hmmp_python_sdk.CircuitBreaker.Events.{
  Event, acquire, success, failure, flag_set, flag_cleared, backpressure, step, run, ◌⟶◌, stay,
  trip, probe, recover, relapse,
}

pub record IsSound (b : CircuitBreaker) : Type 0 where
  -- A closed breaker is below the configured threshold, or has no failure at all.
  pub below : b.state ≡ closed → b.failure_count < max 1 b.config.failure_threshold
  -- Every failure that is counted was a request.
  pub counted : b.failure_count ≤ b.total_requests
  -- While probing there are at most the permitted calls, and fewer successes than close it.
  pub permits :
      b.state ≡ half_open → pos_part b.half_open_permits ≤ b.config.permitted_calls_in_half_open
  pub probing : b.state ≡ half_open → b.success_count < max 1 b.config.permitted_calls_in_half_open

pub new-IsSound : (name : Text) (c : CircuitBreakerConfig) (now : ℕ) → IsSound (new name c now)
unfolding new
new-IsSound name c now = ground arith

effective-le : (b : CircuitBreaker) → effective_threshold b ≤ max 1 b.config.failure_threshold
unfolding effective_threshold
effective-le b = ground arith

no_trip :
    (b : CircuitBreaker)
    → should_trip b ≡ false
    → b.failure_count < max 1 b.config.failure_threshold
unfolding should_trip
no_trip b h = ground (arith, effective-le b)

record_failure-IsSound : (now : ℕ) (b : CircuitBreaker) → IsSound b → IsSound (record_failure now b)
unfolding record_failure
record_failure-IsSound now b v = ground (
  arith,
  no_trip (record b { total_requests = b.total_requests + 1; failure_count = b.failure_count + 1 }),
)

-- Every call keeps the invariant, in every state.
pub step-IsSound : (e : Event) (b : CircuitBreaker) → IsSound b → IsSound (step e b)
unfolding step try_acquire record_success on_remote_error_flag_set on_remote_error_flag_cleared
    on_backpressure decrement
step-IsSound (acquire now) b v = ground arith
step-IsSound (success now) b v = ground arith
step-IsSound (failure now) b v = record_failure-IsSound now b v
step-IsSound (flag_set now) b v = ground arith
step-IsSound (flag_cleared now) b v = ground arith
step-IsSound (backpressure active) b v = ground arith

IsSound-run : (es : List Event) (b : CircuitBreaker) → IsSound b → IsSound (run es b)
unfolding run
IsSound-run [] b v = v
IsSound-run (e ∷ es) b v = IsSound-run es (step e b) (step-IsSound e b v)

-- From a new breaker, whatever its configuration, the calls and the times: a closed breaker is below
-- the configured failure threshold (or has no failure), no more failures than requests are counted,
-- and a half-open one has at most the permitted calls left and too few successes to close.
pub run-IsSound :
    (es : List Event) (name : Text) (c : CircuitBreakerConfig) (now : ℕ)
    → IsSound (run es (new name c now))
run-IsSound es name c now = IsSound-run es (new name c now) (new-IsSound name c now)

-- A call moves the breaker along an edge of the documented state machine, or not at all.
pub step-⟶ : (e : Event) (b : CircuitBreaker) → b.state ⟶ (step e b).state
unfolding step try_acquire record_success record_failure on_remote_error_flag_set
    on_remote_error_flag_cleared on_backpressure decrement
step-⟶ e b = grind (arith, stay, trip, probe, recover, relapse)
