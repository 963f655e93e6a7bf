-- ===== src/CircuitBreaker/Tripping.antt =====
-- When a breaker opens, and how long it stays open.
use hmmp_python_sdk.Base.{
  ℕ, suc, ◌+◌, ◌/◌, ◌≤◌, ◌<◌, ◌≡◌, ◌∙◌, refl, max, Text, List, [], ◌∷◌, true, false, arith,
  if◌then◌else◌, length, All, ltb, leb, Bool-cases, ltb→lt, inl, inr,
}
use hmmp_python_sdk.CircuitBreaker.Breaker.{
  CircuitBreaker, CircuitBreakerConfig, closed, open', new, try_acquire, transition_to,
  effective_threshold, rate_reached, should_trip, record_success, record_failure,
  on_remote_error_flag_set, on_backpressure,
}
use hmmp_python_sdk.CircuitBreaker.Events.{
  Event, acquire, success, failure, flag_set, flag_cleared, backpressure, step, run,
}

-- The events that leave a breaker open until `deadline`: no call after it, and no sign of recovery.
abbrev pub IsBefore : ℕ → Event → Type 0
IsBefore deadline (acquire now) = now < deadline
IsBefore deadline (flag_cleared now) = ⊥
IsBefore deadline _ = Unit

pub record IsOpenUntil (deadline : ℕ) (b : CircuitBreaker) : Type 0 where
  pub is_open : b.state ≡ open'
  pub waits : b.last_state_change_time + b.config.wait_duration_in_open_state_ms ≡ deadline

step-IsOpenUntil :
    (deadline : ℕ) (e : Event) (b : CircuitBreaker)
    → IsBefore deadline e
    → IsOpenUntil deadline b
    → IsOpenUntil deadline (step e b)
unfolding step try_acquire record_success record_failure on_remote_error_flag_set on_backpressure
step-IsOpenUntil deadline (acquire now) b q s = ground arith
step-IsOpenUntil deadline (success now) b q s = ground arith
step-IsOpenUntil deadline (failure now) b q s = ground arith
step-IsOpenUntil deadline (flag_set now) b q s = ground arith
step-IsOpenUntil deadline (flag_cleared now) b q s = absurd q
step-IsOpenUntil deadline (backpressure active) b q s = ground arith

run-IsOpenUntil :
    (deadline : ℕ) (es : List Event) (b : CircuitBreaker)
    → All (IsBefore deadline) es
    → IsOpenUntil deadline b
    → IsOpenUntil deadline (run es b)
unfolding run
run-IsOpenUntil deadline [] b q s = s
run-IsOpenUntil deadline (e ∷ es) b q s =
    run-IsOpenUntil deadline es (step e b) q.1 (step-IsOpenUntil deadline e b q.0 s)

refused :
    (deadline now : ℕ) (b : CircuitBreaker)
    → IsOpenUntil deadline b
    → now < deadline
    → (try_acquire now b).1 ≡ false
unfolding try_acquire
refused deadline now b s h = ground arith

-- An open breaker refuses every call before its waiting time is over, whatever else is reported to
-- it in the meantime, unless the server clears the error flag.
pub open_refuses :
    (es : List Event) (now : ℕ) (b : CircuitBreaker)
    → b.state ≡ open'
    → All (IsBefore (b.last_state_change_time + b.config.wait_duration_in_open_state_ms)) es
    → now < b.last_state_change_time + b.config.wait_duration_in_open_state_ms
    → ((run es b).state ≡ open') × ((try_acquire now (run es b)).1 ≡ false)
open_refuses es now b h q before =
    let deadline = b.last_state_change_time + b.config.wait_duration_in_open_state_ms in
    let s = run-IsOpenUntil deadline es b q (record { is_open = h; waits = refl }) in
    (s.is_open, refused deadline now (run es b) s before)

abbrev pub failures : List ℕ → List Event
failures [] = []
failures (now ∷ times) = failure now ∷ failures times

-- A closed breaker that has seen `k` failures, no success and no signal.
record IsCounting (c : CircuitBreakerConfig) (k : ℕ) (b : CircuitBreaker) : Type 0 where
  config : b.config ≡ c
  is_closed : b.state ≡ closed
  count : b.failure_count ≡ k
  total : b.total_requests ≡ k
  no_flag : b.remote_error_flag ≡ false
  no_pressure : b.backpressure_active ≡ false

module _ (c : CircuitBreakerConfig) (some_failures : 0 < c.failure_threshold)
    (rate_later : c.failure_threshold ≤ c.minimum_calls_before_trip) where
  count_on :
      (now k : ℕ) (b : CircuitBreaker)
      → IsCounting c k b
      → suc k < c.failure_threshold
      → IsCounting c (suc k) (record_failure now b)
  unfolding record_failure should_trip rate_reached effective_threshold
  count_on now k b s h = ground arith

  trip :
      (now k : ℕ) (b : CircuitBreaker)
      → IsCounting c k b
      → suc k ≡ c.failure_threshold
      → (record_failure now b).state ≡ open'
  unfolding record_failure should_trip rate_reached effective_threshold
  trip now k b s h = ground arith

  stay_open :
      (times : List ℕ) (b : CircuitBreaker)
      → b.state ≡ open'
      → (run (failures times) b).state ≡ open'
  unfolding run step record_failure
  stay_open [] b h = h
  stay_open (now ∷ times) b h = stay_open times (record_failure now b) (ground arith)

  count_failures :
      (times : List ℕ) (k : ℕ) (b : CircuitBreaker)
      → IsCounting c k b
      → k < c.failure_threshold
      → (run (failures times) b).state
        ≡ (if ltb (k + length times) c.failure_threshold then closed else open')
  unfolding run step
  count_failures [] k b s h = ground arith
  count_failures (now ∷ times) k b s h = elim (Bool-cases (ltb (suc k) c.failure_threshold)) [
    | inl more ↦ ground (
      arith,
      count_failures times (suc k) (record_failure now b)
          (count_on now k b s (ltb→lt (suc k) c.failure_threshold more)),
    )
    | inr full ↦
        ground (arith, stay_open times (record_failure now b), trip now k b s (ground arith))
  ]

  -- A new breaker that sees nothing but failures is closed below the threshold and open from there
  -- on, if the failure rate is looked at no earlier than that.
  pub trips_at_threshold :
      (name : Text) (start : ℕ) (times : List ℕ)
      → (run (failures times) (new name c start)).state
        ≡ (if ltb (length times) c.failure_threshold then closed else open')
  trips_at_threshold name start times =
      count_failures times 0 (new name c start)
        (unfold new in
          record {
            config = refl;
            is_closed = refl;
            count = refl;
            total = refl;
            no_flag = refl;
            no_pressure = refl;
          })
        some_failures
      ∙ ground arith

module _ (now : ℕ) (b : CircuitBreaker) where
  -- The remote error flag opens a closed breaker exactly when half the threshold, rounded down but
  -- at least one, is reached by the failures so far; in each case the flag is kept.
  pub flag_trips :
      b.state ≡ closed
      → ((on_remote_error_flag_set now b).state ≡ (
          if leb (max 1 (b.config.failure_threshold / 2)) b.failure_count then open' else closed))
        × ((on_remote_error_flag_set now b).remote_error_flag ≡ true)
        × ((on_remote_error_flag_set now b).failure_count ≡ b.failure_count)
  unfolding on_remote_error_flag_set transition_to
  flag_trips h = ground arith
