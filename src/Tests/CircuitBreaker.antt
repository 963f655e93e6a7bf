-- ===== src/Tests/CircuitBreaker.antt =====
-- Concrete inputs for the theorems on hmmp/circuit_breaker.py.
use hmmp_python_sdk.Base.{◌≡◌, refl, min, [], ◌∷◌, codes, false, ltb, if◌then◌else◌, arith}
use hmmp_python_sdk.Base.Int.{pos, decrement, is_nonneg}
use hmmp_python_sdk.CircuitBreaker.Breaker.{
  CircuitBreaker, defaults, new, closed, open', half_open, try_acquire,
}
use hmmp_python_sdk.CircuitBreaker.Events.{
  acquire, success, failure, flag_set, flag_cleared, step, run, ◌⟶◌,
}
use hmmp_python_sdk.CircuitBreaker.Invariant.{IsSound, run-IsSound, step-⟶}
use hmmp_python_sdk.CircuitBreaker.Probing.{
  granted, granted-half_open, granted-probe, half_open_stuck,
}
use hmmp_python_sdk.CircuitBreaker.Tripping.{open_refuses, failures, trips_at_threshold}

abbrev fresh : CircuitBreaker
fresh = new (codes "a") defaults 1000

abbrev opened : CircuitBreaker
opened = record fresh {
  state = open';
  failure_count = 5;
  total_requests = 7;
  last_state_change_time = 2000;
}

abbrev probing : CircuitBreaker
probing = record opened { state = half_open; half_open_permits = pos 2 }

abbrev spent : CircuitBreaker
spent = record probing { half_open_permits = pos 0 }

run-IsSound_example :
    IsSound (run (failure 1500 ∷ flag_set 1600 ∷ acquire 40000 ∷ success 40001 ∷ []) fresh)
run-IsSound_example =
    run-IsSound (failure 1500 ∷ flag_set 1600 ∷ acquire 40000 ∷ success 40001 ∷ []) (codes "a")
      defaults 1000

step-⟶_example : open' ⟶ (step (acquire 40000) opened).state
unfolding new
step-⟶_example = step-⟶ (acquire 40000) opened

granted-half_open_example : granted (1 ∷ 2 ∷ 3 ∷ []) probing ≡ min 3 2
granted-half_open_example = granted-half_open (1 ∷ 2 ∷ 3 ∷ []) probing refl

granted-probe_example : granted (32000 ∷ 32001 ∷ 32002 ∷ 32003 ∷ []) opened ≡ min 4 3
unfolding new
granted-probe_example = granted-probe 32000 (32001 ∷ 32002 ∷ 32003 ∷ []) opened refl (omega arith)

half_open_stuck_example :
    ((run (acquire 90000 ∷ flag_cleared 90001 ∷ []) spent).state ≡ half_open)
    × ((try_acquire 99999 (run (acquire 90000 ∷ flag_cleared 90001 ∷ []) spent)).1 ≡ false)
half_open_stuck_example =
    half_open_stuck (acquire 90000 ∷ flag_cleared 90001 ∷ []) 99999 spent (tt, (tt, tt))
      (record { probing = refl; spent = unfold decrement is_nonneg in refl })

open_refuses_example :
    ((run (acquire 3000 ∷ success 99999 ∷ []) opened).state ≡ open')
    × ((try_acquire 31999 (run (acquire 3000 ∷ success 99999 ∷ []) opened)).1 ≡ false)
unfolding new
open_refuses_example =
    open_refuses (acquire 3000 ∷ success 99999 ∷ []) 31999 opened refl (omega arith, (tt, tt))
      (omega arith)

trips_at_threshold_example :
    (run (failures (1 ∷ 2 ∷ 3 ∷ 4 ∷ 5 ∷ 6 ∷ [])) (new (codes "a") defaults 0)).state
    ≡ (if ltb 6 5 then closed else open')
trips_at_threshold_example =
    trips_at_threshold defaults (omega arith) (omega arith) (codes "a") 0
      (1 ∷ 2 ∷ 3 ∷ 4 ∷ 5 ∷ 6 ∷ [])
