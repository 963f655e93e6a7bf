-- ===== src/CircuitBreaker/Replay.antt =====
-- The registry as a family of breakers, one for each address, none of which knows of the others.
use hmmp_python_sdk.Base.{
  ℕ, ◌≡◌, ◌∙◌, refl, ap, sym, [], ◌∷◌, ◌++◌, List, Text, Bool, true, false, Option, none, some,
  text_eq,
}
use hmmp_python_sdk.Base.Dict
use hmmp_python_sdk.Base.Dict.{get-put}
use hmmp_python_sdk.Cache.Snapshots.{instance_key}
use hmmp_python_sdk.Codec.Metrics.{unpack_metrics_pack}
use hmmp_python_sdk.CircuitBreaker.Breaker
use hmmp_python_sdk.CircuitBreaker.Breaker.{CircuitBreaker, CircuitBreakerConfig}
use hmmp_python_sdk.CircuitBreaker.Events
use hmmp_python_sdk.CircuitBreaker.Registry
use hmmp_python_sdk.CircuitBreaker.Registry.{
  CircuitBreakerRegistry, new, set, get_breaker, on_service_snapshot_updated, is_instance_available,
  record_success, record_failure, Event, available, success, failure, snapshot, step, run,
}

-- The calls of the registry that are for one address, as the calls of its breaker. A snapshot is one
-- call for each time that it lists the address.
abbrev flag : Bool → ℕ → Events.Event
flag true now = Events.flag_set now
flag false now = Events.flag_cleared now

abbrev only_if : Bool → Events.Event → List Events.Event → List Events.Event
only_if true e es = e ∷ es
only_if false e es = es

unfoldable pub flags : Text → ℕ → List (Text × ℕ × ℕ) → List Events.Event
flags key now [] = []
flags key now ((ip, port, metrics_pack) ∷ instances) =
    only_if (text_eq.beq (instance_key ip port) key)
      (flag (unpack_metrics_pack metrics_pack).error now) (flags key now instances)

unfoldable pub calls_for : Text → Event → List Events.Event
calls_for key (available now host port) =
    only_if (text_eq.beq (instance_key host port) key) (Events.acquire now) []
calls_for key (success now host port) =
    only_if (text_eq.beq (instance_key host port) key) (Events.success now) []
calls_for key (failure now host port) =
    only_if (text_eq.beq (instance_key host port) key) (Events.failure now) []
calls_for key (snapshot now instances) = flags key now instances

unfoldable pub all_calls : Text → List Event → List Events.Event
all_calls key [] = []
all_calls key (e ∷ es) = calls_for key e ++ all_calls key es

-- One breaker by itself. It comes into being with the first failure, in the closed state.
abbrev pub born : Text → CircuitBreakerConfig → Events.Event → Option CircuitBreaker
born key config (Events.failure now) =
    some (Breaker.record_failure now (Breaker.new key config now))
born key config _ = none

abbrev pub advance :
    Text → CircuitBreakerConfig → Events.Event → Option CircuitBreaker → Option CircuitBreaker
advance key config e (some b) = some (Events.step e b)
advance key config e none = born key config e

unfoldable pub replay :
    Text → CircuitBreakerConfig → List Events.Event → Option CircuitBreaker → Option CircuitBreaker
replay key config [] o = o
replay key config (e ∷ es) o = replay key config es (advance key config e o)

replay-append :
    (key : Text) (config : CircuitBreakerConfig) (es later : List Events.Event)
    (o : Option CircuitBreaker)
    → replay key config (es ++ later) o ≡ replay key config later (replay key config es o)
unfolding replay
replay-append key config [] later o = refl
replay-append key config (e ∷ es) later o =
    replay-append key config es later (advance key config e o)

-- What a call for the address `id` does to the breaker of the address `key`.
module _ (id key : Text) (r : CircuitBreakerRegistry) where
  abbrev at : Option CircuitBreaker
  at = Dict.get r.breakers key

  abbrev config : CircuitBreakerConfig
  config = r.default_config

  at_id :
      (o : Option CircuitBreaker) → text_eq.beq id key ≡ true → Dict.get r.breakers id ≡ o → at ≡ o
  at_id o h found =
      ap (λ (k : Text). Dict.get r.breakers k) (sym ((text_eq.beq_iff id key).0 h)) ∙ found

  put_replays :
      (same : Bool) (e : Events.Event) (b : CircuitBreaker)
      → text_eq.beq id key ≡ same
      → Dict.get r.breakers id ≡ some b
      → Dict.get (set id (Events.step e b) r).breakers key
        ≡ replay key config (only_if same e []) at
  unfolding replay
  put_replays true e b h found =
      get-put r.breakers id key (Events.step e b)
      ∙ rw h (ap (advance key config e) (sym (at_id (some b) h found)))
  put_replays false e b h found = get-put r.breakers id key (Events.step e b) ∙ rw h refl

  absent_replays :
      (same : Bool) (e : Events.Event)
      → text_eq.beq id key ≡ same
      → Dict.get r.breakers id ≡ none
      → born key config e ≡ none
      → at ≡ replay key config (only_if same e []) at
  unfolding replay
  absent_replays true e h found unborn =
      let missing = at_id none h found in
      missing ∙ sym unborn ∙ ap (advance key config e) (sym missing)
  absent_replays false e h found unborn = refl

  new_replays :
      (same : Bool) (now : ℕ)
      → text_eq.beq id key ≡ same
      → Dict.get r.breakers id ≡ none
      → let b = Breaker.new id config now in
        Dict.get (set id (Breaker.record_failure now b) (set id b r)).breakers key
        ≡ replay key config (only_if same (Events.failure now) []) at
  unfolding replay
  new_replays true now h found =
      get-put _ id key _
      ∙ rw h (
          ap (λ (k : Text). some (Breaker.record_failure now (Breaker.new k config now)))
            ((text_eq.beq_iff id key).0 h)
          ∙ ap (advance key config (Events.failure now)) (sym (at_id none h found)))
  new_replays false now h found =
      get-put _ id key _ ∙ rw h (get-put r.breakers id key _ ∙ rw h refl)

  abbrev same : Bool
  same = text_eq.beq id key

  ask_replays :
      (now : ℕ) (o : Option CircuitBreaker)
      → Dict.get r.breakers id ≡ o
      → Dict.get (Registry.ask now id r o).0.breakers key
        ≡ replay key config (only_if same (Events.acquire now) []) at
  ask_replays now none e = absent_replays same (Events.acquire now) refl e refl
  ask_replays now (some b) e = unfold Events.step in put_replays same (Events.acquire now) b refl e

  succeed_replays :
      (now : ℕ) (o : Option CircuitBreaker)
      → Dict.get r.breakers id ≡ o
      → Dict.get (Registry.succeed now id r o).breakers key
        ≡ replay key config (only_if same (Events.success now) []) at
  succeed_replays now none e = absent_replays same (Events.success now) refl e refl
  succeed_replays now (some b) e =
      unfold Events.step in put_replays same (Events.success now) b refl e

  fail_replays :
      (now : ℕ) (o : Option CircuitBreaker)
      → Dict.get r.breakers id ≡ o
      → let (r', b) = Registry.found_or_new now id r o in
        Dict.get (set id (Breaker.record_failure now b) r').breakers key
        ≡ replay key config (only_if same (Events.failure now) []) at
  fail_replays now none e = new_replays same now refl e
  fail_replays now (some b) e = unfold Events.step in put_replays same (Events.failure now) b refl e

  signal_replays :
      (now : ℕ) (error : Bool) (o : Option CircuitBreaker)
      → Dict.get r.breakers id ≡ o
      → Dict.get (Registry.signal now id error r o).breakers key
        ≡ replay key config (only_if same (flag error now) []) at
  signal_replays now true none e = absent_replays same (Events.flag_set now) refl e refl
  signal_replays now false none e = absent_replays same (Events.flag_cleared now) refl e refl
  signal_replays now true (some b) e =
      unfold Events.step in put_replays same (Events.flag_set now) b refl e
  signal_replays now false (some b) e =
      unfold Events.step in put_replays same (Events.flag_cleared now) b refl e

-- The configuration of new breakers never changes.
signal_config :
    (now : ℕ) (id : Text) (error : Bool) (r : CircuitBreakerRegistry) (o : Option CircuitBreaker)
    → (Registry.signal now id error r o).default_config ≡ r.default_config
signal_config now id error r none = refl
signal_config now id error r (some b) = refl

snapshot_config :
    (now : ℕ) (instances : List (Text × ℕ × ℕ)) (r : CircuitBreakerRegistry)
    → (on_service_snapshot_updated now instances r).default_config ≡ r.default_config
unfolding on_service_snapshot_updated
snapshot_config now [] r = refl
snapshot_config now ((ip, port, pack) ∷ instances) r =
    snapshot_config now instances _
    ∙ signal_config now (instance_key ip port) _ r (Dict.get r.breakers (instance_key ip port))

asked_config :
    (now : ℕ) (id : Text) (r : CircuitBreakerRegistry) (o : Option CircuitBreaker)
    → ((Registry.ask now id r o).0.default_config ≡ r.default_config)
      × ((Registry.succeed now id r o).default_config ≡ r.default_config)
      × ((Registry.found_or_new now id r o).0.default_config ≡ r.default_config)
asked_config now id r none = (refl, refl, refl)
asked_config now id r (some b) = (refl, refl, refl)

step_config :
    (e : Event) (r : CircuitBreakerRegistry) → (step e r).default_config ≡ r.default_config
unfolding step is_instance_available record_success record_failure get_breaker
step_config (available now host port) r = (asked_config now (instance_key host port) r _).0
step_config (success now host port) r = (asked_config now (instance_key host port) r _).1
step_config (failure now host port) r = (asked_config now (instance_key host port) r _).2
step_config (snapshot now instances) r = snapshot_config now instances r

only_if-append :
    (same : Bool) (e : Events.Event) (es : List Events.Event)
    → only_if same e [] ++ es ≡ only_if same e es
only_if-append true e es = refl
only_if-append false e es = refl

-- Two steps one behind the other, where the second one starts from what the first one left.
chained :
    (key : Text) (config config' : CircuitBreakerConfig) (es later : List Events.Event)
    (o o' : Option CircuitBreaker)
    → config' ≡ config
    → o' ≡ replay key config es o
    → replay key config' later o' ≡ replay key config (es ++ later) o
chained key config config' es later o o' c h =
    ap (λ c. replay key c later o') c
    ∙ ap (replay key config later) h
    ∙ sym (replay-append key config es later o)

snapshot_replays :
    (now : ℕ) (key : Text) (instances : List (Text × ℕ × ℕ)) (r : CircuitBreakerRegistry)
    → Dict.get (on_service_snapshot_updated now instances r).breakers key
      ≡ replay key r.default_config (flags key now instances) (Dict.get r.breakers key)
unfolding on_service_snapshot_updated flags replay
snapshot_replays now key [] r = refl
snapshot_replays now key ((ip, port, pack) ∷ instances) r =
    let id = instance_key ip port in
    let error = (unpack_metrics_pack pack).error in
    let o = Dict.get r.breakers id in
    let r' = Registry.signal now id error r o in
    snapshot_replays now key instances r'
    ∙ chained key r.default_config r'.default_config
        (only_if (text_eq.beq id key) (flag error now) []) (flags key now instances)
        (Dict.get r.breakers key) (Dict.get r'.breakers key) (signal_config now id error r o)
        (signal_replays id key r now error o refl)
    ∙ ap (λ es. replay key r.default_config es (Dict.get r.breakers key))
        (only_if-append (text_eq.beq id key) (flag error now) (flags key now instances))

step_replays :
    (key : Text) (e : Event) (r : CircuitBreakerRegistry)
    → Dict.get (step e r).breakers key
      ≡ replay key r.default_config (calls_for key e) (Dict.get r.breakers key)
unfolding step is_instance_available record_success record_failure get_breaker calls_for
step_replays key (available now host port) r = ask_replays (instance_key host port) key r now _ refl
step_replays key (success now host port) r =
    succeed_replays (instance_key host port) key r now _ refl
step_replays key (failure now host port) r = fail_replays (instance_key host port) key r now _ refl
step_replays key (snapshot now instances) r = snapshot_replays now key instances r

run_replays :
    (key : Text) (es : List Event) (r : CircuitBreakerRegistry)
    → Dict.get (run es r).breakers key
      ≡ replay key r.default_config (all_calls key es) (Dict.get r.breakers key)
unfolding run all_calls replay
run_replays key [] r = refl
run_replays key (e ∷ es) r =
    run_replays key es (step e r)
    ∙ chained key r.default_config (step e r).default_config (calls_for key e) (all_calls key es)
        (Dict.get r.breakers key) (Dict.get (step e r).breakers key) (step_config e r)
        (step_replays key e r)

-- The registry implements one independent breaker for each address, host:port. Whatever calls of
-- is_instance_available, record_success and record_failure and whatever snapshots arrive at a new
-- registry, the breaker that it holds for an address is the one that the calls for that address alone
-- leave, in their order: asking for permission, successes and failures of the address, and for each time
-- that a snapshot lists it, the error flag of its metrics, set or cleared. The breaker comes into being
-- with the first failure, named by the address and with the registry's configuration; before it there is
-- none.
pub registry_replays :
    (config : CircuitBreakerConfig) (es : List Event) (key : Text)
    → Dict.get (run es (new config)).breakers key ≡ replay key config (all_calls key es) none
registry_replays config es key = (unfold new Dict.get in run_replays key es (new config))
