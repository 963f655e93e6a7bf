-- ===== src/Interceptor/Signals.antt =====
-- What the interceptors make of the frames that arrive.
use hmmp_python_sdk.Base.{
  ◌≡◌, ◌∙◌, refl, ap, [], ◌∷◌, List, Bytes, Text, true, false, Option, none, some, Result, ok, err,
}
use hmmp_python_sdk.Frame.Decoder.{Frame}
use hmmp_python_sdk.Governance.Block.{GovernanceBlock}
use hmmp_python_sdk.Governance.Parse.{parse_governance_block}
use hmmp_python_sdk.Interceptor.Frames.{
  GovernanceFrameInterceptor, new, set_trace_context, set_traffic_tag, after_receive, process_block,
  processed, is_open_signal, is_circuit_breaker_open, contains,
}

-- The calls that change the interceptor.
pub data Call : Type 0 where
  trace : Bytes → Bytes → Call
  tag : Text → Call
  receive : Frame → Call

unfoldable pub step : Call → GovernanceFrameInterceptor → GovernanceFrameInterceptor
step (trace t s) g = set_trace_context t s g
step (tag t) g = set_traffic_tag t g
step (receive f) g = (after_receive f g).0

unfoldable pub run : List Call → GovernanceFrameInterceptor → GovernanceFrameInterceptor
run [] g = g
run (c ∷ cs) g = run cs (step c g)

processed_eq :
    (r : Option (Result GovernanceBlock)) (g : GovernanceFrameInterceptor) → processed r g ≡ g
processed_eq (some (ok gov)) g = refl
processed_eq (some (err e)) g = refl
processed_eq none g = refl

block_eq : (b : Option Bytes) (g : GovernanceFrameInterceptor) → process_block b g ≡ g
block_eq none g = refl
block_eq (some []) g = refl
block_eq (some (b ∷ bs)) g = processed_eq (parse_governance_block (b ∷ bs)) g

abbrev services : GovernanceFrameInterceptor → List Text
services g = g.circuit_breaker_open_services

services-step : (c : Call) (g : GovernanceFrameInterceptor) → services (step c g) ≡ services g
unfolding step set_trace_context set_traffic_tag after_receive
services-step (trace t s) g = refl
services-step (tag t) g = refl
services-step (receive f) g = ap services (block_eq f.governance_block g)

services-run : (cs : List Call) (g : GovernanceFrameInterceptor) → services (run cs g) ≡ services g
unfolding run
services-run [] g = refl
services-run (c ∷ cs) g = services-run cs (step c g) ∙ services-step c g

-- An interceptor never says of a service that its circuit breaker is open, whatever it was told and
-- whichever frames it received before; and yet it reports each frame whose body begins with the status
-- 0x85.
pub never_open :
    (trace_id span_id : Option Bytes) (traffic_tag : Option Text) (cs : List Call)
    (service_key : Text) (f : Frame) (rest : Bytes)
    → f.body ≡ 0x85 ∷ rest
    → let g = run cs (new trace_id span_id traffic_tag) in
      (is_circuit_breaker_open service_key g ≡ false) × ((after_receive f g).1 ≡ true)
unfolding after_receive is_open_signal is_circuit_breaker_open new
never_open trace_id span_id traffic_tag cs service_key f rest e = (
  ap (λ ss. contains ss service_key) (services-run cs (new trace_id span_id traffic_tag)),
  ap is_open_signal e,
)
