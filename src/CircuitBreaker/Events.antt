-- ===== src/CircuitBreaker/Events.antt =====
-- The calls that a breaker receives, as events, and runs of them.
use hmmp_python_sdk.Base.{ℕ, Bool, List, [], ◌∷◌}
use hmmp_python_sdk.CircuitBreaker.Breaker.{
  CircuitBreaker, CircuitState, closed, open', half_open, try_acquire, record_success,
  record_failure, on_remote_error_flag_set, on_remote_error_flag_cleared, on_backpressure,
}

-- Each with the time at which it happens.
pub data Event : Type 0 where
  acquire success failure flag_set flag_cleared : ℕ → Event
  backpressure : Bool → Event

unfoldable pub step : Event → CircuitBreaker → CircuitBreaker
step (acquire now) b = (try_acquire now b).0
step (success now) b = record_success now b
step (failure now) b = record_failure now b
step (flag_set now) b = on_remote_error_flag_set now b
step (flag_cleared now) b = on_remote_error_flag_cleared now b
step (backpressure active) b = on_backpressure active b

unfoldable pub run : List Event → CircuitBreaker → CircuitBreaker
run [] b = b
run (e ∷ es) b = run es (step e b)

-- The state machine of the module's documentation.
infix 40 ◌⟶◌
pub data ◌⟶◌ : CircuitState → CircuitState → Type 0 where
  stay : {s : CircuitState} → s ⟶ s
  trip : closed ⟶ open'
  probe : open' ⟶ half_open
  recover : half_open ⟶ closed
  relapse : half_open ⟶ open'
