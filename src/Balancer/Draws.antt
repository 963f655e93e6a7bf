-- ===== src/Balancer/Draws.antt =====
-- The weighted choice: which draw selects which instance.
use hmmp_python_sdk.Base.{
  ℕ, ◌+◌, ◌*◌, ◌^◌, ◌≤◌, ◌<◌, ◌≡◌, ◌⊎◌, inl, inr, refl, [], ◌∷◌, ◌++◌, List, All, Bool, true, false,
  some, if◌then◌else◌, arith,
}
use hmmp_python_sdk.Models.Instance.{ServiceInstance}
use hmmp_python_sdk.Balancer.Monotone.{weight_pos}
use hmmp_python_sdk.Balancer.Selection.{
  Random, WeightedInstance, weighted, weighted_instances, total_weight, walk, choose, select,
}

total_weight-append :
    (us vs : List WeightedInstance) → total_weight (us ++ vs) ≡ total_weight us + total_weight vs
unfolding total_weight
total_weight-append [] vs = omega arith
total_weight-append (u ∷ us) vs = omega (arith, total_weight-append us vs)

-- Where the sum before an instance is below the value, and the sum with it is not.
walk_stops :
    (value cumulative : ℕ) (u w : WeightedInstance) (us vs : List WeightedInstance)
    → (cumulative + total_weight (u ∷ us)) * 2 ^ 53 < value
    → value ≤ (cumulative + total_weight (u ∷ us) + w.effective_weight) * 2 ^ 53
    → walk value cumulative u (us ++ (w ∷ vs)) ≡ w.instance'
unfolding walk total_weight
walk_stops value cumulative u w [] [] h k = ground arith
walk_stops value cumulative u w [] (v ∷ vs) h k = ground arith
walk_stops value cumulative u w (x ∷ us) vs h k =
    ground (arith, walk_stops value (cumulative + u.effective_weight) x w us vs)

walk_first :
    (value : ℕ) (w : WeightedInstance) (vs : List WeightedInstance)
    → value ≤ w.effective_weight * 2 ^ 53
    → walk value 0 w vs ≡ w.instance'
unfolding walk
walk_first value w [] h = refl
walk_first value w (v ∷ vs) h = ground arith

choose_draw :
    (rng : Random) (first : ServiceInstance ℕ) (w : WeightedInstance)
    (us vs : List WeightedInstance)
    → 0 < w.effective_weight
    → (us ≡ []) ⊎ (total_weight us * 2 ^ 53 < rng.draw * total_weight (us ++ (w ∷ vs)))
    → rng.draw * total_weight (us ++ (w ∷ vs)) ≤ (total_weight us + w.effective_weight) * 2 ^ 53
    → choose rng first (us ++ (w ∷ vs)) ≡ some w.instance'
unfolding choose total_weight
choose_draw rng first w [] vs p below upto =
    ground (arith, walk_first (rng.draw * total_weight (w ∷ vs)) w vs)
choose_draw rng first w (u ∷ us) vs p (inl e) upto = cc
choose_draw rng first w (u ∷ us) vs p (inr below) upto = ground (
  arith,
  total_weight-append us (w ∷ vs),
  walk_stops (rng.draw * total_weight ((u ∷ us) ++ (w ∷ vs))) 0 u w us vs,
)

abbrev pub IsPositive : WeightedInstance → Type 0
IsPositive w = 0 < w.effective_weight

All-middle {ℓ κ} :
    {A : Type ℓ} (P : A → Type κ) (xs : List A) (y : A) (zs : List A) → All P (xs ++ (y ∷ zs)) → P y
All-middle P [] y zs h = h.0
All-middle P (x ∷ xs) y zs h = All-middle P xs y zs h.1

All-if {ℓ κ} :
    {A : Type ℓ} (P : A → Type κ) (b : Bool) (x : A) (xs : List A)
    → P x
    → All P xs
    → All P (if b then x ∷ xs else xs)
All-if P true x xs p ps = (p, ps)
All-if P false x xs p ps = ps

module _ (unit : ℕ) (unit_pos : 0 < unit) where
  pub weighted_instances-IsPositive :
      (is' : List (ServiceInstance ℕ)) → All IsPositive (weighted_instances unit is')
  unfolding weighted_instances
  weighted_instances-IsPositive [] = tt
  weighted_instances-IsPositive (i ∷ is') =
      All-if IsPositive i.healthy (weighted unit i) (weighted_instances unit is')
        (weight_pos unit i unit_pos) (weighted_instances-IsPositive is')

  -- Of two or more instances, a draw selects the healthy instance in whose share it falls: the shares
  -- stand side by side in the order of the snapshot, each as wide as the instance's effective weight,
  -- the last draw of a share belongs to it, and so does the draw 0 to the first one.
  pub select_share :
      (rng : Random) (i j : ServiceInstance ℕ) (is' : List (ServiceInstance ℕ))
      (w : WeightedInstance) (us vs : List WeightedInstance)
      → weighted_instances unit (i ∷ (j ∷ is')) ≡ us ++ (w ∷ vs)
      → (us ≡ []) ⊎ (total_weight us * 2 ^ 53 < rng.draw * total_weight (us ++ (w ∷ vs)))
      → rng.draw * total_weight (us ++ (w ∷ vs)) ≤ (total_weight us + w.effective_weight) * 2 ^ 53
      → select unit rng (i ∷ (j ∷ is')) ≡ some w.instance'
  unfolding select
  select_share rng i j is' w us vs e below upto =
      let pos' = weighted_instances-IsPositive (i ∷ (j ∷ is')) in
      rw e (choose_draw rng i w us vs (All-middle IsPositive us w vs (rw e at pos')) below upto)
