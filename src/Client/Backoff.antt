-- ===== src/Client/Backoff.antt =====
-- How long the client waits between its attempts to reconnect.
use hmmp_python_sdk.Base.{
  ℕ, zero, suc, ◌*◌, ◌^◌, ◌≤◌, ◌≡◌, ◌∙◌, ap, min, ◌∷◌, ◌++◌, List, true, some, replicate, arith,
  Bool-cases, inl, inr, leb,
}
use native.Mathlib.Nat.{pow-suc, mul_assoc, mul-le-mul_left, mul-le-mul_right}
use hmmp_python_sdk.Balancer.Selection.{get_elem?}
use hmmp_python_sdk.Client.Lifecycle.{Attempt, failing, reconnect}

power_pos : (n : ℕ) → 1 ≤ 2 ^ n
power_pos zero = omega arith
power_pos (suc n) = omega (arith, pow-suc 2 n, power_pos n)

capped : (i m p : ℕ) → 1 ≤ p → min (min (i * 2) m * p) m ≡ min (i * (2 * p)) m
capped i m p h = elim (Bool-cases (leb (i * 2) m)) [
  | inl small ↦
      let e : min (i * 2) m ≡ i * 2 = ground arith in rw e (ap (λ t. min t m) (mul_assoc i 2 p))
  | inr large ↦
      let e : min (i * 2) m ≡ m = ground arith in
      let above : m ≤ i * 2 = ground arith in
      rw (e, ← mul_assoc i 2 p) (omega (arith, mul-le-mul_left m h, mul-le-mul_right p above))
]

-- After `n` failed attempts the client waits the first interval doubled `n` times, but never longer than
-- the largest interval.
pub backoff_doubles :
    (interval max_interval n : ℕ) (a : Attempt) (later : List Attempt)
    → interval ≤ max_interval
    → a.running ≡ true
    → get_elem? (reconnect interval max_interval (replicate n failing ++ (a ∷ later))) n
      ≡ some (min (interval * 2 ^ n) max_interval)
unfolding reconnect
backoff_doubles interval max_interval zero a later h r = ground arith
backoff_doubles interval max_interval (suc n) a later h r =
    backoff_doubles (min (interval * 2) max_interval) max_interval n a later (omega arith) r
    ∙ ap some (
        capped interval max_interval (2 ^ n) (power_pos n)
        ∙ ap (λ t. min (interval * t) max_interval) (omega (arith, pow-suc 2 n)))
