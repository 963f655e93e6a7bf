-- ===== src/Tests/Backpressure.antt =====
-- Concrete inputs for the theorems on hmmp/backpressure.py.
use hmmp_python_sdk.Base.{◌/◌, ◌%◌, ◌≤◌, ◌≡◌, ◌⊎◌, max, [], ◌∷◌, true}
use hmmp_python_sdk.Backpressure.Controller.{
  base_delay, max_delay, min_delay, new, signal, normal, cleared, run,
}
use hmmp_python_sdk.Backpressure.Delays.{delay_bounds}

delay_bounds_example :
    let c =
      run (signal 10 ∷ signal 20 ∷ normal 30 ∷ normal 9000 ∷ cleared ∷ signal 9001 ∷ []) new in
    (min_delay ≤ c.delay)
    × (c.delay ≤ max_delay)
    × ((c.active ≡ true) ⊎ (c.delay ≡ base_delay))
    × ((c.delay % 2 ≡ 0) ⊎ (max (c.delay / 2) min_delay ≡ min_delay))
delay_bounds_example =
    delay_bounds (signal 10 ∷ signal 20 ∷ normal 30 ∷ normal 9000 ∷ cleared ∷ signal 9001 ∷ [])
