-- ===== src/Balancer/Permits.antt =====
-- The balancer and the circuit breakers: what one selection does to the breakers of the instances
-- that it only looks at.
use hmmp_python_sdk.Base.{
  ℕ, zero, suc, sym, Option, none, ◌≡◌, ◌≢◌, ◌∙◌, refl, ap, [], ◌∷◌, List, Text, Bool, true, false,
  some, text_eq, beq_refl,
}
use mathlib.Core.Path.{subst}
use hmmp_python_sdk.Base.Dict
use hmmp_python_sdk.Base.Dict.{get-put}
use hmmp_python_sdk.Cache.Snapshots.{instance_key}
use hmmp_python_sdk.CircuitBreaker.Breaker.{CircuitBreaker, try_acquire}
use hmmp_python_sdk.CircuitBreaker.Registry.{
  CircuitBreakerRegistry, is_instance_available, step, available,
}
use hmmp_python_sdk.CircuitBreaker.Instances.{others_kept}
use hmmp_python_sdk.Models.Instance.{ServiceInstance}
use hmmp_python_sdk.Balancer.Selection.{
  Random, healthy_answer, healthy_available, keep, or_available, select_found,
  select_with_circuit_breaker,
}

abbrev pub key_of : ServiceInstance ℕ → Text
key_of i = instance_key i.ip i.port

abbrev pub asked : ℕ → Text → ℕ → CircuitBreakerRegistry → CircuitBreakerRegistry × Bool
asked now host port r = is_instance_available now host port r

module _ (now : ℕ) where
  keep_state :
      (i : ServiceInstance ℕ) (answer : Bool)
      (p : CircuitBreakerRegistry × List (ServiceInstance ℕ))
      → (keep (asked now) i answer p).0 ≡ p.0
  keep_state i true (r, found) = refl
  keep_state i false (r, found) = refl

  -- A breaker that is asked for permission so many times.
  abbrev pub acquired : ℕ → CircuitBreaker → CircuitBreaker
  acquired zero b = b
  acquired (suc n) b = acquired n (try_acquire now b).0

  abbrev counts : Bool → Bool → ℕ → ℕ
  counts true true n = suc n
  counts _ _ n = n

  -- How many of the instances are healthy and have the address with the key.
  unfoldable pub times_listed : Text → List (ServiceInstance ℕ) → ℕ
  times_listed key [] = zero
  times_listed key (i ∷ is') = counts i.healthy (text_eq.beq (key_of i) key) (times_listed key is')

  abbrev pub after {ℓ κ} : {A : Type ℓ} {B : Type κ} → (A → B) → Option A → Option B
  after f none = none
  after f (some a) = some (f a)

  after_none : (o : Option CircuitBreaker) → after (acquired zero) o ≡ o
  after_none none = refl
  after_none (some b) = refl

  ask_at :
      (i : ServiceInstance ℕ) (r : CircuitBreakerRegistry) (o : Option CircuitBreaker)
      → Dict.get r.breakers (key_of i) ≡ o
      → Dict.get (asked now i.ip i.port r).0.breakers (key_of i) ≡ after (acquired 1) o
  unfolding is_instance_available
  ask_at i r none e = rw e e
  ask_at i r (some b) e = rw e (
      get-put r.breakers (key_of i) (key_of i) (try_acquire now b).0
      ∙ rw (beq_refl (key_of i)) refl)

  once_more :
      (n : ℕ) (o : Option CircuitBreaker)
      → after (acquired n) (after (acquired 1) o) ≡ after (acquired (suc n)) o
  once_more n none = refl
  once_more n (some b) = refl

  -- One instance's turn, then the others'.
  turn :
      (healthy same : Bool) (i : ServiceInstance ℕ) (key : Text) (n : ℕ)
      (r : CircuitBreakerRegistry)
      → text_eq.beq (key_of i) key ≡ same
      → after (acquired n) (Dict.get (healthy_answer (asked now) healthy i r).0.breakers key)
        ≡ after (acquired (counts healthy same n)) (Dict.get r.breakers key)
  turn false same i key n r e = refl
  turn true false i key n r e =
      ap (after (acquired n)) (unfold step in others_kept (available now i.ip i.port) key r e)
  turn true true i key n r e =
      ap (after (acquired n)) (
        subst
          (λ (k : Text).
            Dict.get (asked now i.ip i.port r).0.breakers k
            ≡ after (acquired 1) (Dict.get r.breakers k))
          ((text_eq.beq_iff (key_of i) key).0 e) (ask_at i r (Dict.get r.breakers (key_of i)) refl))
      ∙ once_more n (Dict.get r.breakers key)

  filter_asks :
      (is' : List (ServiceInstance ℕ)) (key : Text) (r : CircuitBreakerRegistry)
      → Dict.get (healthy_available (asked now) is' r).0.breakers key
        ≡ after (acquired (times_listed key is')) (Dict.get r.breakers key)
  unfolding healthy_available times_listed
  filter_asks [] key r = sym (after_none (Dict.get r.breakers key))
  filter_asks (i ∷ is') key r =
      let s = healthy_answer (asked now) i.healthy i r in
      ap (λ (t : CircuitBreakerRegistry). Dict.get t.breakers key)
        (keep_state i s.1 (healthy_available (asked now) is' s.0))
      ∙ filter_asks is' key s.0
      ∙ turn i.healthy (text_eq.beq (key_of i) key) i key (times_listed key is') r refl

  found_state :
      (unit : ℕ) (rng : Random) (first : ServiceInstance ℕ) (all' : List (ServiceInstance ℕ))
      (p : CircuitBreakerRegistry × List (ServiceInstance ℕ))
      → p.1 ≢ []
      → (select_found (asked now) unit rng first (or_available (asked now) all' p)).0 ≡ p.0
  found_state unit rng first all' (r, []) h = absurd (h refl)
  found_state unit rng first all' (r, i ∷ found) h = refl

  -- Where some healthy instance is available, one selection by the breakers' registry asks the breaker
  -- of every healthy instance that is listed, not of the selected one alone: whichever instance the draw
  -- selects, the breaker of any address is left as `try_acquire` leaves it, run once for each healthy
  -- instance that is listed with that address. Addresses without a breaker stay without one.
  pub selection_spends :
      (unit : ℕ) (rng : Random) (instances : List (ServiceInstance ℕ)) (r : CircuitBreakerRegistry)
      (key : Text)
      → (healthy_available (asked now) instances r).1 ≢ []
      → Dict.get (select_with_circuit_breaker (asked now) unit rng instances r).0.breakers key
        ≡ after (acquired (times_listed key instances)) (Dict.get r.breakers key)
  unfolding select_with_circuit_breaker healthy_available
  selection_spends unit rng [] r key found = filter_asks [] key r
  selection_spends unit rng (i ∷ is') r key found =
      let p = healthy_available (asked now) (i ∷ is') r in
      ap (λ (t : CircuitBreakerRegistry). Dict.get t.breakers key)
        (found_state unit rng i (i ∷ is') p found)
      ∙ filter_asks (i ∷ is') key r
