-- ===== src/CircuitBreaker/Probing.antt =====
-- The half-open state: how many calls it lets through, and what may follow.
use hmmp_python_sdk.Base.{
  ℕ, suc, ◌+◌, ◌-◌, ◌≤◌, ◌≡◌, ◌∙◌, refl, min, List, [], ◌∷◌, Bool, true, false, arith, ap, length,
  All,
}
use hmmp_python_sdk.Base.Int.{decrement, is_nonneg, pos_part}
use hmmp_python_sdk.CircuitBreaker.Breaker.{
  CircuitBreaker, open', half_open, try_acquire, transition_to, on_remote_error_flag_set,
  on_remote_error_flag_cleared, on_backpressure,
}
use hmmp_python_sdk.CircuitBreaker.Events.{
  Event, acquire, success, failure, flag_set, flag_cleared, backpressure, step, run,
}

abbrev pub count_true : Bool → ℕ → ℕ
count_true true n = suc n
count_true false n = n

-- How many of a row of calls of `try_acquire` are let through.
unfoldable pub granted : List ℕ → CircuitBreaker → ℕ
granted [] b = 0
granted (now ∷ times) b =
    let (b', allowed) = try_acquire now b in count_true allowed (granted times b')

acquire_spent :
    (now n : ℕ) (b : CircuitBreaker)
    → b.state ≡ half_open
    → pos_part b.half_open_permits ≡ n
    → let r = try_acquire now b in
      (r.0.state ≡ half_open)
      × (pos_part r.0.half_open_permits ≡ n - 1)
      × (count_true r.1 0 ≡ min 1 n)
unfolding try_acquire decrement is_nonneg
acquire_spent now n b h e = ground arith

count_true_add : (c : Bool) (n : ℕ) → count_true c n ≡ count_true c 0 + n
count_true_add true n = omega arith
count_true_add false n = omega arith

-- While no outcome is reported, a half-open breaker lets through as many calls as it has permits,
-- whatever the times of the calls, and refuses all others.
pub granted-half_open :
    (times : List ℕ) (b : CircuitBreaker)
    → b.state ≡ half_open
    → granted times b ≡ min (length times) (pos_part b.half_open_permits)
unfolding granted
granted-half_open [] b h = omega arith
granted-half_open (now ∷ times) b h =
    let (s, p, c) = acquire_spent now (pos_part b.half_open_permits) b h refl in
    omega (
      arith,
      p,
      c,
      count_true_add (try_acquire now b).1 (granted times (try_acquire now b).0),
      granted-half_open times (try_acquire now b).0 s,
    )

probe_first :
    (now : ℕ) (b : CircuitBreaker)
    → b.state ≡ open'
    → b.last_state_change_time + b.config.wait_duration_in_open_state_ms ≤ now
    → try_acquire now b ≡ try_acquire now (transition_to half_open now b)
unfolding try_acquire transition_to
probe_first now b h w = ground arith

-- A probe after the waiting time opens a window of exactly the permitted calls.
pub granted-probe :
    (now : ℕ) (times : List ℕ) (b : CircuitBreaker)
    → b.state ≡ open'
    → b.last_state_change_time + b.config.wait_duration_in_open_state_ms ≤ now
    → granted (now ∷ times) b ≡ min (suc (length times)) b.config.permitted_calls_in_half_open
unfolding granted
granted-probe now times b h w =
    ap (λ (r : CircuitBreaker × Bool). count_true r.1 (granted times r.0)) (probe_first now b h w)
    ∙ unfold transition_to in granted-half_open (now ∷ times) (transition_to half_open now b) refl

-- The events that tell the breaker nothing about its target.
abbrev pub IsQuiet : Event → Type 0
IsQuiet (acquire now) = Unit
IsQuiet (backpressure active) = Unit
IsQuiet (flag_set now) = Unit
IsQuiet (flag_cleared now) = Unit
IsQuiet _ = ⊥

pub record IsStuck (b : CircuitBreaker) : Type 0 where
  pub probing : b.state ≡ half_open
  pub spent : is_nonneg (decrement b.half_open_permits) ≡ false

step-IsStuck : (e : Event) (b : CircuitBreaker) → IsQuiet e → IsStuck b → IsStuck (step e b)
unfolding step try_acquire on_remote_error_flag_set on_remote_error_flag_cleared on_backpressure
    decrement is_nonneg
step-IsStuck (acquire now) b q s = ground arith
step-IsStuck (flag_set now) b q s = ground arith
step-IsStuck (flag_cleared now) b q s = ground arith
step-IsStuck (backpressure active) b q s = ground arith
step-IsStuck (success now) b q s = absurd q
step-IsStuck (failure now) b q s = absurd q

run-IsStuck :
    (es : List Event) (b : CircuitBreaker) → All IsQuiet es → IsStuck b → IsStuck (run es b)
unfolding run
run-IsStuck [] b q s = s
run-IsStuck (e ∷ es) b q s = run-IsStuck es (step e b) q.1 (step-IsStuck e b q.0 s)

refused : (now : ℕ) (b : CircuitBreaker) → IsStuck b → (try_acquire now b).1 ≡ false
unfolding try_acquire
refused now b s = ground arith

-- A half-open breaker whose permits were taken by calls that report no outcome refuses every further
-- call: no waiting time and no signal from the server lets it leave the half-open state.
pub half_open_stuck :
    (es : List Event) (now : ℕ) (b : CircuitBreaker)
    → All IsQuiet es
    → IsStuck b
    → ((run es b).state ≡ half_open) × ((try_acquire now (run es b)).1 ≡ false)
half_open_stuck es now b q s =
    let s' = run-IsStuck es b q s in (s'.probing, refused now (run es b) s')
