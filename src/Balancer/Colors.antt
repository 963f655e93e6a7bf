-- ===== src/Balancer/Colors.antt =====
-- Routing by traffic colour keeps to the instances of the colour.
use hmmp_python_sdk.Base.{
  ℕ, zero, suc, ◌+◌, ◌*◌, ◌<◌, ◌≡◌, refl, [], ◌∷◌, ◌++◌, List, Text, All, length, true, false,
  Bool-cases, inl, inr, Option, none, some, text_eq, leb, if◌then◌else◌, ◌^◌, arith,
}
use hmmp_python_sdk.Models.Instance.{ServiceInstance}
use hmmp_python_sdk.Balancer.Selection.{
  Random, WeightedInstance, weighted, weighted_instances, total_weight, walk, choose, instance_of,
  get_elem?, select,
}
use hmmp_python_sdk.Balancer.Router.{
  split_tag, has_color, matching, or_all, pick, filter_tagged, filter_instances, route,
}

-- A selection is one of the instances.
abbrev pub Selects {κ} : (ServiceInstance ℕ → Type κ) → Option (ServiceInstance ℕ) → Type κ
Selects P o = (i : ServiceInstance ℕ) × (o ≡ some i) × P i

module _ {κ} (P : ServiceInstance ℕ → Type κ) where
  get_elem?-All :
      (xs : List (ServiceInstance ℕ)) (n : ℕ)
      → All P xs
      → n < length xs
      → Selects P (get_elem? xs n)
  get_elem?-All [] n h lt = absurd (omega arith)
  get_elem?-All (x ∷ xs) zero h lt = (x, refl, h.0)
  get_elem?-All (x ∷ xs) (suc n) h lt = get_elem?-All xs n h.1 (omega arith)

  abbrev OfWeighted : WeightedInstance → Type κ
  OfWeighted w = P w.instance'

  weighted-All :
      (unit : ℕ) (xs : List (ServiceInstance ℕ))
      → All P xs
      → All OfWeighted (weighted_instances unit xs)
  unfolding weighted_instances
  weighted-All unit [] h = tt
  weighted-All unit (x ∷ xs) h =
      elim x.healthy
        as (λ b. All OfWeighted (
          if b then weighted unit x ∷ weighted_instances unit xs else weighted_instances unit xs)) [
            | true ↦ (h.0, weighted-All unit xs h.1)
            | false ↦ weighted-All unit xs h.1
          ]

  walk-All :
      (value cumulative : ℕ) (w : WeightedInstance) (ws : List WeightedInstance)
      → OfWeighted w
      → All OfWeighted ws
      → P (walk value cumulative w ws)
  unfolding walk
  walk-All value cumulative w [] h hs = h
  walk-All value cumulative w (v ∷ ws) h hs =
      let rest = walk-All value (cumulative + w.effective_weight) v ws hs.0 hs.1 in
      elim (Bool-cases (leb value ((cumulative + w.effective_weight) * 2 ^ 53))) [
        | inl e ↦ rw e h
        | inr e ↦ rw e rest
      ]

  some_instance :
      (ws : List WeightedInstance) (n : ℕ)
      → All OfWeighted ws
      → n < length ws
      → Selects P (instance_of (get_elem? ws n))
  some_instance [] n h lt = absurd (omega arith)
  some_instance (w ∷ ws) zero h lt = (w.instance', refl, h.0)
  some_instance (w ∷ ws) (suc n) h lt = some_instance ws n h.1 (omega arith)

  choose-All :
      (rng : Random) (first : ServiceInstance ℕ) (ws : List WeightedInstance)
      → P first
      → All OfWeighted ws
      → Selects P (choose rng first ws)
  unfolding choose
  choose-All rng first [] h hs = (first, refl, h)
  choose-All rng first (w ∷ ws) h hs = elim (Bool-cases (leb (total_weight (w ∷ ws)) 0)) [
    | inl e ↦ rw e (
        some_instance (w ∷ ws) (rng.choice (length (w ∷ ws))) hs
          (rng.choice-lt (length (w ∷ ws)) (omega arith)))
    | inr e ↦ rw e (_, refl, walk-All (rng.draw * total_weight (w ∷ ws)) 0 w ws hs.0 hs.1)
  ]

  -- A selection from instances that all have a property is one with that property.
  pub select-All :
      (unit : ℕ) (rng : Random) (xs : List (ServiceInstance ℕ))
      → All P xs
      → 0 < length xs
      → Selects P (select unit rng xs)
  unfolding select
  select-All unit rng [] h lt = absurd (omega arith)
  select-All unit rng (i ∷ []) h lt = (i, refl, h.0)
  select-All unit rng (i ∷ (j ∷ xs)) h lt =
      choose-All rng i (weighted_instances unit (i ∷ (j ∷ xs))) h.0
        (weighted-All unit (i ∷ (j ∷ xs)) h)

  pick-All :
      (rng : Random) (load_balancer : Option ℕ) (xs : List (ServiceInstance ℕ))
      → All P xs
      → 0 < length xs
      → Selects P (pick rng load_balancer xs)
  pick-All rng load_balancer [] h lt = absurd (omega arith)
  pick-All rng (some unit) (i ∷ xs) h lt = select-All unit rng (i ∷ xs) h lt
  pick-All rng none (i ∷ xs) h lt =
      get_elem?-All (i ∷ xs) (rng.choice (length (i ∷ xs))) h
        (rng.choice-lt (length (i ∷ xs)) (omega arith))

abbrev pub IsColored : Text → Text → ServiceInstance ℕ → Type 0
IsColored key value i = has_color key value i ≡ true

module _ (key value : Text) where
  matching-All : (xs : List (ServiceInstance ℕ)) → All (IsColored key value) (matching key value xs)
  unfolding matching
  matching-All [] = tt
  matching-All (x ∷ xs) = elim (Bool-cases (has_color key value x)) [
    | inl e ↦ rw e (e, matching-All xs)
    | inr e ↦ rw e (matching-All xs)
  ]

  length-matching :
      (xs ys : List (ServiceInstance ℕ)) (i : ServiceInstance ℕ)
      → IsColored key value i
      → 0 < length (matching key value (xs ++ (i ∷ ys)))
  unfolding matching
  length-matching [] ys i h = rw h (omega arith)
  length-matching (x ∷ xs) ys i h = elim (Bool-cases (has_color key value x)) [
    | inl e ↦ rw e (omega arith)
    | inr e ↦ rw e (length-matching xs ys i h)
  ]

  or_all_matched : (all' ms : List (ServiceInstance ℕ)) → 0 < length ms → or_all all' ms ≡ ms
  or_all_matched all' [] h = absurd (omega arith)
  or_all_matched all' (m ∷ ms) h = refl

  filter_eq :
      (tag : Text) (all' : List (ServiceInstance ℕ))
      → split_tag tag ≡ some (key, value)
      → 0 < length (matching key value all')
      → filter_tagged (some tag) all' ≡ matching key value all'
  filter_eq [] all' e h =
      let e' : ◌≡◌ {A = Option (Text × Text)} none (some (key, value)) = unfold split_tag in e in
      absurd (cc)
  filter_eq (c ∷ s) all' e h = rw e (or_all_matched all' (matching key value all') h)

  -- Where some instance carries the colour of the tag, routing returns an instance that carries it,
  -- with a balancer and without one, and whatever is drawn.
  pub route-IsColored :
      (rng : Random) (load_balancer : Option ℕ) (tag : Text) (xs ys : List (ServiceInstance ℕ))
      (i : ServiceInstance ℕ)
      → split_tag tag ≡ some (key, value)
      → IsColored key value i
      → Selects
          (IsColored key value)
          (route rng load_balancer (record { color_tag = some tag }) (xs ++ (i ∷ ys)))
  unfolding route filter_instances
  route-IsColored rng load_balancer tag xs ys i e h =
      rw (filter_eq tag (xs ++ (i ∷ ys)) e (length-matching xs ys i h)) (
        pick-All (IsColored key value) rng load_balancer (matching key value (xs ++ (i ∷ ys)))
          (matching-All (xs ++ (i ∷ ys))) (length-matching xs ys i h))
