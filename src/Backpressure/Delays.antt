-- ===== src/Backpressure/Delays.antt =====
-- The delays that a controller can come to.
use hmmp_python_sdk.Base.{
  ℕ, suc, ◌+◌, ◌*◌, ◌/◌, ◌%◌, ◌^◌, ◌≤◌, ◌<◌, ◌≡◌, refl, ap, ◌∙◌, min, max, ltb, leb, ◌==◌, ==_iff,
  Bool, true, false, ◌||◌, ◌&&◌, List, [], ◌∷◌, ◌⊎◌, arith, length,
}
use native.Mathlib.Nat.{pow-suc}
use hmmp_python_sdk.Backpressure.Controller.{
  BackpressureController, base_delay, max_delay, min_delay, new, on_backpressure_signal, recover,
  on_normal_response, compute_delay, Event, signal, normal, compute, cleared, step, run,
}

-- Every value that the delay takes, in eighths of a millisecond.
abbrev delays : List ℕ
delays =
    80 ∷ 160 ∷ 320 ∷ 640 ∷ 1280 ∷ 2560 ∷ 5120 ∷ 10240 ∷ 16000 ∷ 8000 ∷ 4000 ∷ 2000 ∷ 1000 ∷ 500
    ∷ 250 ∷ 125 ∷ 400 ∷ 800 ∷ 1600 ∷ 3200 ∷ 6400 ∷ 12800 ∷ 200 ∷ 100 ∷ []

is_delay : ℕ → List ℕ → Bool
is_delay n [] = false
is_delay n (d ∷ ds) = n == d || is_delay n ds

-- What is checked of each: doubling and halving lead to another one, within the bounds, and halving
-- loses nothing where the half is used.
is_closed : ℕ → Bool
unfolding is_delay
is_closed d =
    is_delay (min (d * 2) max_delay) delays
    && is_delay (max (d / 2) min_delay) delays
    && leb min_delay d
    && leb d max_delay
    && (d % 2 == 0 || ltb d 160)

all_closed : List ℕ → Bool
all_closed [] = true
all_closed (d ∷ ds) = is_closed d && all_closed ds

delays_closed : all_closed delays ≡ true
unfolding all_closed is_closed is_delay
delays_closed = refl

closed_at : (ds : List ℕ) (n : ℕ) → all_closed ds ≡ true → is_delay n ds ≡ true → is_closed n ≡ true
unfolding is_delay all_closed
closed_at [] n a h = absurd (cc)
closed_at (d ∷ ds) n a h = ground (arith, closed_at ds n, ==_iff n d)

facts :
    (n : ℕ)
    → is_delay n delays ≡ true
    → (is_delay (min (n * 2) max_delay) delays ≡ true)
      × (is_delay (max (n / 2) min_delay) delays ≡ true)
      × (min_delay ≤ n)
      × (n ≤ max_delay)
      × ((n % 2 ≡ 0) ⊎ (n < 160))
unfolding is_closed
facts n h = ground (arith, closed_at delays n delays_closed h)

record IsRegular (c : BackpressureController) : Type 0 where
  known : is_delay c.delay delays ≡ true
  idle : c.active ≡ false → c.delay ≡ base_delay

base_known : is_delay base_delay delays ≡ true
unfolding is_delay
base_known = refl

step-IsRegular : (e : Event) (c : BackpressureController) → IsRegular c → IsRegular (step e c)
unfolding step on_backpressure_signal on_normal_response compute_delay recover
step-IsRegular (signal now) c v = ground (arith, facts c.delay v.known)
step-IsRegular (normal now) c v = ground (arith, facts c.delay v.known, base_known)
step-IsRegular (compute now) c v = ground (arith, base_known)
step-IsRegular cleared c v = ground (arith, base_known)

run-IsRegular : (es : List Event) (c : BackpressureController) → IsRegular c → IsRegular (run es c)
unfolding run
run-IsRegular [] c v = v
run-IsRegular (e ∷ es) c v = run-IsRegular es (step e c) (step-IsRegular e c v)

-- From a new controller, whatever the signals, responses and times: the delay stays between 10 and
-- 2000 milliseconds, an idle controller has the base delay, and halving the delay either is exact in
-- eighths of a millisecond or ends at the least delay.
pub delay_bounds :
    (es : List Event)
    → let c = run es new in
      (min_delay ≤ c.delay)
      × (c.delay ≤ max_delay)
      × ((c.active ≡ true) ⊎ (c.delay ≡ base_delay))
      × ((c.delay % 2 ≡ 0) ⊎ (max (c.delay / 2) min_delay ≡ min_delay))
delay_bounds es =
    let v = run-IsRegular es new (record { known = base_known; idle = λ e. refl }) in
    ground (arith, facts (run es new).delay v.known, v.idle)

abbrev pub signals : List ℕ → List Event
signals [] = []
signals (now ∷ times) = signal now ∷ signals times

-- The delay after so many signals.
abbrev at_power : ℕ → ℕ
at_power k = min (base_delay * 2 ^ k) max_delay

doubling :
    (times : List ℕ) (k : ℕ) (c : BackpressureController)
    → c.delay ≡ min (base_delay * 2 ^ k) max_delay
    → (run (signals times) c).delay ≡ min (base_delay * 2 ^ (k + length times)) max_delay
unfolding run step on_backpressure_signal
doubling [] k c h = h ∙ ap at_power (omega arith)
doubling (now ∷ times) k c h =
    doubling times (suc k) (on_backpressure_signal now c) (rw (pow-suc 2 k) (omega arith))
    ∙ ap at_power (omega arith)

-- Each signal in a row doubles the delay, from the base delay up to the cap, whatever their times.
pub signals_double :
    (times : List ℕ)
    → (run (signals times) new).delay ≡ min (base_delay * 2 ^ length times) max_delay
signals_double times = doubling times 0 new refl ∙ ap at_power (omega arith)
