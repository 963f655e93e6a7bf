-- ===== src/CircuitBreaker/Instances.antt =====
-- The registry keeps its breakers apart.
use hmmp_python_sdk.Base.{
  ℕ, ◌≡◌, refl, ◌∙◌, [], ◌∷◌, List, Text, Bool, false, Option, none, some, text_eq, All,
}
use hmmp_python_sdk.Base.Dict
use hmmp_python_sdk.Base.Dict.{Dict, get-put}
use hmmp_python_sdk.Cache.Snapshots.{instance_key}
use hmmp_python_sdk.CircuitBreaker.Breaker
use hmmp_python_sdk.CircuitBreaker.Breaker.{CircuitBreaker, CircuitBreakerConfig, try_acquire}
use hmmp_python_sdk.CircuitBreaker.Registry
use hmmp_python_sdk.CircuitBreaker.Registry.{
  CircuitBreakerRegistry, new, set, get_breaker, on_service_snapshot_updated, is_instance_available,
  record_success, record_failure, Event, available, success, failure, snapshot, step, run,
}

-- The instances that an event is about.
abbrev pub Spares : Text → Event → Type 0
Spares key (available now host port) = text_eq.beq (instance_key host port) key ≡ false
Spares key (success now host port) = text_eq.beq (instance_key host port) key ≡ false
Spares key (failure now host port) = text_eq.beq (instance_key host port) key ≡ false
Spares key (snapshot now instances) =
    All (λ (i : Text × ℕ × ℕ). text_eq.beq (instance_key i.0 i.1) key ≡ false) instances

get-set :
    (id key : Text) (b : CircuitBreaker) (r : CircuitBreakerRegistry)
    → text_eq.beq id key ≡ false
    → Dict.get (set id b r).breakers key ≡ Dict.get r.breakers key
get-set id key b r h = get-put r.breakers id key b ∙ rw h refl

signal-spares :
    (now : ℕ) (id key : Text) (error : Bool) (r : CircuitBreakerRegistry)
    (o : Option CircuitBreaker)
    → text_eq.beq id key ≡ false
    → Dict.get (Registry.signal now id error r o).breakers key ≡ Dict.get r.breakers key
signal-spares now id key error r none h = refl
signal-spares now id key error r (some b) h = get-set id key _ r h

snapshot-spares :
    (now : ℕ) (key : Text) (instances : List (Text × ℕ × ℕ)) (r : CircuitBreakerRegistry)
    → All (λ (i : Text × ℕ × ℕ). text_eq.beq (instance_key i.0 i.1) key ≡ false) instances
    → Dict.get (on_service_snapshot_updated now instances r).breakers key ≡ Dict.get r.breakers key
unfolding on_service_snapshot_updated
snapshot-spares now key [] r h = refl
snapshot-spares now key ((ip, port, pack) ∷ instances) r h =
    snapshot-spares now key instances _ h.1
    ∙ signal-spares now (instance_key ip port) key _ r (Dict.get r.breakers (instance_key ip port))
        h.0

ask-spares :
    (now : ℕ) (id key : Text) (r : CircuitBreakerRegistry) (o : Option CircuitBreaker)
    → text_eq.beq id key ≡ false
    → (Dict.get (Registry.ask now id r o).0.breakers key ≡ Dict.get r.breakers key)
      × (Dict.get (Registry.succeed now id r o).breakers key ≡ Dict.get r.breakers key)
      × (Dict.get (Registry.found_or_new now id r o).0.breakers key ≡ Dict.get r.breakers key)
ask-spares now id key r none h = (refl, refl, get-set id key _ r h)
ask-spares now id key r (some b) h = (get-set id key _ r h, get-set id key _ r h, refl)

-- A call for one instance, and a snapshot that does not list an instance, leave that instance's
-- breaker as it was.
pub others_kept :
    (e : Event) (key : Text) (r : CircuitBreakerRegistry)
    → Spares key e
    → Dict.get (step e r).breakers key ≡ Dict.get r.breakers key
unfolding step is_instance_available record_success record_failure get_breaker
others_kept (available now host port) key r h =
    (ask-spares now (instance_key host port) key r _ h).0
others_kept (success now host port) key r h = (ask-spares now (instance_key host port) key r _ h).1
others_kept (failure now host port) key r h =
    let id = instance_key host port in
    let found = Registry.found_or_new now id r (Dict.get r.breakers id) in
    get-set id key (Breaker.record_failure now found.1) found.0 h
    ∙ (ask-spares now (instance_key host port) key r _ h).2
others_kept (snapshot now instances) key r h = snapshot-spares now key instances r h
