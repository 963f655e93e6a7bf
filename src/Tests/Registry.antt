-- ===== src/Tests/Registry.antt =====
-- Concrete inputs for the theorems on the registry of circuit breakers.
use hmmp_python_sdk.Base.{◌^◌, ◌≡◌, refl, List, [], ◌∷◌, none, codes, text_eq}
use hmmp_python_sdk.Base.Decimal.{decimal}
use hmmp_python_sdk.Base.Dict
use hmmp_python_sdk.Cache.Snapshots.{instance_key}
use hmmp_python_sdk.Codec.Metrics.{unpack_metrics_pack}
use hmmp_python_sdk.CircuitBreaker.Events
use hmmp_python_sdk.CircuitBreaker.Breaker.{defaults}
use hmmp_python_sdk.CircuitBreaker.Registry.{Event, new, available, success, failure, snapshot, run}
use hmmp_python_sdk.CircuitBreaker.Replay.{all_calls, calls_for, flags, replay, registry_replays}

abbrev calls : List Event
calls =
    success 4 (codes "a") 80
    ∷ failure 5 (codes "a") 80
    ∷ failure 5 (codes "b") 80
    ∷ snapshot 6 ((codes "a", 80, 2 ^ 29) ∷ (codes "b", 80, 0) ∷ [])
    ∷ available 7 (codes "a") 80
    ∷ []

-- What of these is for the first address.
calls_of_first :
    all_calls (codes "a:80") calls
    ≡ Events.success 4 ∷ Events.failure 5 ∷ Events.flag_set 6 ∷ Events.acquire 7 ∷ []
unfolding all_calls calls_for flags instance_key decimal unpack_metrics_pack
calls_of_first = refl

registry_replays_example :
    Dict.get (run calls (new defaults)).breakers (codes "a:80")
    ≡ replay (codes "a:80") defaults (all_calls (codes "a:80") calls) none
registry_replays_example = registry_replays defaults calls (codes "a:80")
