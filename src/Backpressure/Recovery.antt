-- ===== src/Backpressure/Recovery.antt =====
-- How long a controller delays after a signal.
use hmmp_python_sdk.Base.{
  ℕ, ◌+◌, ◌≤◌, ◌≡◌, refl, ltb, not, true, if◌then◌else◌, List, [], ◌∷◌, All, arith,
}
use hmmp_python_sdk.Backpressure.Controller.{
  BackpressureController, base_delay, min_delay, recovery_window_ms, on_backpressure_signal,
  recover, on_normal_response, compute_delay, Event, signal, normal, compute, cleared, step, run,
}

-- The calls within the window after the signal at `start`, other than signals and resets.
abbrev pub IsWithin : ℕ → Event → Type 0
IsWithin start (normal now) = now ≤ start + recovery_window_ms
IsWithin start (compute now) = now ≤ start + recovery_window_ms
IsWithin start _ = ⊥

record IsDelaying (start : ℕ) (c : BackpressureController) : Type 0 where
  on : c.active ≡ true
  since : c.backpressure_start_time ≡ start
  least : min_delay ≤ c.delay

step-IsDelaying :
    (start : ℕ) (e : Event) (c : BackpressureController)
    → IsWithin start e
    → IsDelaying start c
    → IsDelaying start (step e c)
unfolding step on_normal_response compute_delay recover
step-IsDelaying start (signal now) c w v = absurd w
step-IsDelaying start (normal now) c w v = ground arith
step-IsDelaying start (compute now) c w v = ground arith
step-IsDelaying start cleared c w v = absurd w

run-IsDelaying :
    (start : ℕ) (es : List Event) (c : BackpressureController)
    → All (IsWithin start) es
    → IsDelaying start c
    → IsDelaying start (run es c)
unfolding run
run-IsDelaying start [] c w v = v
run-IsDelaying start (e ∷ es) c w v =
    run-IsDelaying start es (step e c) w.1 (step-IsDelaying start e c w.0 v)

-- After a signal, and after any responses and computed delays of the recovery window, a request is
-- delayed by at least the least delay while the window lasts; behind it the delay is zero and the
-- controller is idle again, with the base delay.
pub delays_in_window :
    (start now : ℕ) (es : List Event) (c : BackpressureController)
    → min_delay ≤ c.delay
    → All (IsWithin start) es
    → let d = run es (on_backpressure_signal start c) in
      let over = ltb (start + recovery_window_ms) now in
      (min_delay ≤ d.delay)
      × ((compute_delay now d).1 ≡ (if over then 0 else d.delay))
      × ((compute_delay now d).0.active ≡ not over)
      × ((compute_delay now d).0.delay ≡ (if over then base_delay else d.delay))
unfolding compute_delay recover
delays_in_window start now es c least w =
    let v =
      run-IsDelaying start es (on_backpressure_signal start c) w (
        unfold on_backpressure_signal in record { on = refl; since = refl; least = omega arith }) in
    ground (arith, v.on, v.since, v.least)
