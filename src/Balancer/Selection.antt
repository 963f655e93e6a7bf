-- ===== src/Balancer/Selection.antt =====
-- load_balancer.py, class AdaptiveLoadBalancer: the weighted choice. The generator of random numbers
-- is a parameter: the next `random()` is `draw` / 2^53, and the next `choice` takes the element at an
-- index that depends on the length only.
use hmmp_python_sdk.Base.{
  ℕ, zero, suc, ◌+◌, ◌*◌, ◌^◌, ◌<◌, [], ◌∷◌, List, Text, length, Bool, true, false, Option, none,
  some, leb, if◌then◌else◌,
}
use hmmp_python_sdk.Models.Instance.{ServiceInstance}
use hmmp_python_sdk.Balancer.Weights.{compute_effective_weight}

pub record Random : Type 0 where
  pub draw : ℕ
  pub choice : ℕ → ℕ
  pub draw-lt : draw < 2 ^ 53
  pub choice-lt : (n : ℕ) → 0 < n → choice n < n

pub record WeightedInstance : Type 0 where
  pub instance' : ServiceInstance ℕ
  pub effective_weight : ℕ
  pub declared_weight : ℕ

-- `xs[n]` within range
abbrev pub get_elem? {ℓ} : {A : Type ℓ} → List A → ℕ → Option A
get_elem? [] n = none
get_elem? (x ∷ xs) zero = some x
get_elem? (x ∷ xs) (suc n) = get_elem? xs n

abbrev pub instance_of : Option WeightedInstance → Option (ServiceInstance ℕ)
instance_of (some w) = some w.instance'
instance_of none = none

module _ (unit : ℕ) where
  abbrev pub weighted : ServiceInstance ℕ → WeightedInstance
  weighted i = record {
    instance' = i;
    effective_weight = compute_effective_weight unit i;
    declared_weight = i.weight;
  }

  unfoldable pub compute_weights : List (ServiceInstance ℕ) → List WeightedInstance
  compute_weights [] = []
  compute_weights (i ∷ is') = weighted i ∷ compute_weights is'

  -- The loop of `select` that skips the unhealthy instances.
  unfoldable pub weighted_instances : List (ServiceInstance ℕ) → List WeightedInstance
  weighted_instances [] = []
  weighted_instances (i ∷ is') =
      if i.healthy then weighted i ∷ weighted_instances is' else weighted_instances is'

unfoldable pub total_weight : List WeightedInstance → ℕ
total_weight [] = 0
total_weight (w ∷ ws) = w.effective_weight + total_weight ws

-- `random_value <= cumulative`, where `random_value` is `draw` / 2^53 of `total`. Where no sum is
-- large enough, the last instance is chosen.
unfoldable pub walk : ℕ → ℕ → WeightedInstance → List WeightedInstance → ServiceInstance ℕ
walk value cumulative w [] = w.instance'
walk value cumulative w (v ∷ ws) =
    if leb value ((cumulative + w.effective_weight) * 2 ^ 53)
    then w.instance'
    else walk value (cumulative + w.effective_weight) v ws

-- What `select` does with the instances that it weighed; `first` is the snapshot's first one.
unfoldable pub choose :
    Random → ServiceInstance ℕ → List WeightedInstance → Option (ServiceInstance ℕ)
choose rng first [] = some first
choose rng first (w ∷ ws) =
    let total = total_weight (w ∷ ws) in
    if leb total 0
    then instance_of (get_elem? (w ∷ ws) (rng.choice (length (w ∷ ws))))
    else some (walk (rng.draw * total) 0 w ws)

module _ (unit : ℕ) (rng : Random) where
  unfoldable pub select : List (ServiceInstance ℕ) → Option (ServiceInstance ℕ)
  select [] = none
  select (i ∷ []) = some i
  select (i ∷ (j ∷ is')) = choose rng i (weighted_instances unit (i ∷ (j ∷ is')))

-- A circuit breaker's answer may change its state, which is passed on.
module _ {ℓ} {S : Type ℓ} (is_available : Text → ℕ → S → S × Bool) where
  abbrev pub ask_for : ServiceInstance ℕ → S → S × Bool
  ask_for i s = is_available i.ip i.port s

  abbrev pub keep :
      ServiceInstance ℕ → Bool → S × List (ServiceInstance ℕ) → S × List (ServiceInstance ℕ)
  keep i true (s, found) = (s, i ∷ found)
  keep i false (s, found) = (s, found)

  -- `[inst for inst in instances if is_available(inst.ip, inst.port)]`
  unfoldable pub available : List (ServiceInstance ℕ) → S → S × List (ServiceInstance ℕ)
  available [] s = (s, [])
  available (i ∷ is') s = let (s', answer) = ask_for i s in keep i answer (available is' s')

  -- `[inst for inst in instances if inst.healthy and is_available(inst.ip, inst.port)]`
  abbrev pub healthy_answer : Bool → ServiceInstance ℕ → S → S × Bool
  healthy_answer true i s = ask_for i s
  healthy_answer false i s = (s, false)

  unfoldable pub healthy_available : List (ServiceInstance ℕ) → S → S × List (ServiceInstance ℕ)
  healthy_available [] s = (s, [])
  healthy_available (i ∷ is') s =
      let (s', answer) = healthy_answer i.healthy i s in keep i answer (healthy_available is' s')

  -- The second list is made only where the first is empty.
  abbrev pub or_available :
      List (ServiceInstance ℕ) → S × List (ServiceInstance ℕ) → S × List (ServiceInstance ℕ)
  or_available instances (s, []) = available instances s
  or_available instances (s, i ∷ found) = (s, i ∷ found)

  abbrev pub select_found :
      ℕ → Random → ServiceInstance ℕ → S × List (ServiceInstance ℕ) → S × Option (ServiceInstance ℕ)
  select_found unit rng first (s, []) = (s, some first)
  select_found unit rng first (s, i ∷ found) = (s, select unit rng (i ∷ found))

  unfoldable pub select_with_circuit_breaker :
      ℕ → Random → List (ServiceInstance ℕ) → S → S × Option (ServiceInstance ℕ)
  select_with_circuit_breaker unit rng [] s = (s, none)
  select_with_circuit_breaker unit rng (i ∷ is') s =
      select_found unit rng i (or_available (i ∷ is') (healthy_available (i ∷ is') s))
