-- ===== src/Tests/Interceptor.antt =====
-- A frame that signals an open circuit breaker.
use hmmp_python_sdk.Base.{◌≡◌, refl, [], ◌∷◌, codes, true, false, none}
use hmmp_python_sdk.Frame.Decoder.{Frame}
use hmmp_python_sdk.Interceptor.Frames.{new, after_receive, is_circuit_breaker_open}
use hmmp_python_sdk.Interceptor.Signals.{tag, receive, run, never_open}
use hmmp_python_sdk.Tests.Frame.{plain_frame}

abbrev signal : Frame
signal = record plain_frame { body = 0x85 ∷ 1 ∷ [] }

never_open_example :
    let g = run (receive signal ∷ tag (codes "env=gray") ∷ []) (new none none none) in
    (is_circuit_breaker_open (codes "pay") g ≡ false) × ((after_receive signal g).1 ≡ true)
never_open_example =
    never_open none none none (receive signal ∷ tag (codes "env=gray") ∷ []) (codes "pay") signal
      (1 ∷ []) refl
