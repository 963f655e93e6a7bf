-- ===== src/CircuitBreaker/Registry.antt =====
-- hmmp/circuit_breaker.py, class CircuitBreakerRegistry. A method that asks a breaker takes the time
-- `now` that the breaker reads.
use hmmp_python_sdk.Base.{
  ℕ, [], ◌∷◌, List, Text, Bool, true, Option, none, some, text_eq, if◌then◌else◌,
}
use hmmp_python_sdk.Base.Dict
use hmmp_python_sdk.Base.Dict.{Dict}
use hmmp_python_sdk.Cache.Snapshots.{instance_key}
use hmmp_python_sdk.Codec.Metrics.{unpack_metrics_pack}
use hmmp_python_sdk.CircuitBreaker.Breaker
use hmmp_python_sdk.CircuitBreaker.Breaker.{CircuitBreaker, CircuitBreakerConfig, try_acquire}

pub record CircuitBreakerRegistry : Type 0 where
  pub breakers : Dict Text CircuitBreaker
  pub default_config : CircuitBreakerConfig

unfoldable pub new : CircuitBreakerConfig → CircuitBreakerRegistry
new config = record { breakers = []; default_config = config }

abbrev pub set : Text → CircuitBreaker → CircuitBreakerRegistry → CircuitBreakerRegistry
set id b r = record r { breakers = Dict.put r.breakers id b }

-- The breaker of an instance; one that is not there is put into the registry.
abbrev pub found_or_new :
    ℕ
    → Text
    → CircuitBreakerRegistry
    → Option CircuitBreaker
    → CircuitBreakerRegistry × CircuitBreaker
found_or_new now id r (some b) = (r, b)
found_or_new now id r none =
    (set id (Breaker.new id r.default_config now) r, Breaker.new id r.default_config now)

unfoldable pub get_breaker :
    ℕ → Text → CircuitBreakerRegistry → CircuitBreakerRegistry × CircuitBreaker
get_breaker now id r = found_or_new now id r (Dict.get r.breakers id)

-- The error flag of one instance's metrics goes to its breaker, if it has one.
abbrev pub signal :
    ℕ → Text → Bool → CircuitBreakerRegistry → Option CircuitBreaker → CircuitBreakerRegistry
signal now id error r none = r
signal now id error r (some b) =
    set id
      (if error
        then Breaker.on_remote_error_flag_set now b
        else Breaker.on_remote_error_flag_cleared now b)
      r

-- Of each instance of the snapshot the method reads the address, the port and the metrics word.
unfoldable pub on_service_snapshot_updated :
    ℕ → List (Text × ℕ × ℕ) → CircuitBreakerRegistry → CircuitBreakerRegistry
on_service_snapshot_updated now [] r = r
on_service_snapshot_updated now ((ip, port, metrics_pack) ∷ instances) r =
    let id = instance_key ip port in
    let metrics = unpack_metrics_pack metrics_pack in
    on_service_snapshot_updated now instances
      (signal now id metrics.error r (Dict.get r.breakers id))

abbrev pub ask :
    ℕ → Text → CircuitBreakerRegistry → Option CircuitBreaker → CircuitBreakerRegistry × Bool
ask now id r none = (r, true)
ask now id r (some b) = let (b', allowed) = try_acquire now b in (set id b' r, allowed)

unfoldable pub is_instance_available :
    ℕ → Text → ℕ → CircuitBreakerRegistry → CircuitBreakerRegistry × Bool
is_instance_available now host port r =
    let id = instance_key host port in ask now id r (Dict.get r.breakers id)

abbrev pub succeed :
    ℕ → Text → CircuitBreakerRegistry → Option CircuitBreaker → CircuitBreakerRegistry
succeed now id r none = r
succeed now id r (some b) = set id (Breaker.record_success now b) r

unfoldable pub record_success : ℕ → Text → ℕ → CircuitBreakerRegistry → CircuitBreakerRegistry
record_success now host port r =
    let id = instance_key host port in succeed now id r (Dict.get r.breakers id)

unfoldable pub record_failure : ℕ → Text → ℕ → CircuitBreakerRegistry → CircuitBreakerRegistry
unfolding get_breaker
record_failure now host port r =
    let id = instance_key host port in
    let (r', b) = get_breaker now id r in set id (Breaker.record_failure now b) r'

-- The calls of a registry, and runs of them.
pub data Event : Type 0 where
  available success failure : ℕ → Text → ℕ → Event
  snapshot : ℕ → List (Text × ℕ × ℕ) → Event

unfoldable pub step : Event → CircuitBreakerRegistry → CircuitBreakerRegistry
step (available now host port) r = (is_instance_available now host port r).0
step (success now host port) r = record_success now host port r
step (failure now host port) r = record_failure now host port r
step (snapshot now instances) r = on_service_snapshot_updated now instances r

unfoldable pub run : List Event → CircuitBreakerRegistry → CircuitBreakerRegistry
run [] r = r
run (e ∷ es) r = run es (step e r)
