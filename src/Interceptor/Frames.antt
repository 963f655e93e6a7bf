-- ===== src/Interceptor/Frames.antt =====
-- interceptor.py. An interceptor is the record of its two methods over a state that all of them share.
use hmmp_python_sdk.Base.{
  ℕ, [], ◌∷◌, ◌++◌, List, Bytes, Text, Bool, true, false, ◌||◌, Option, none, some, Result, ok, err,
  value_error, ◌==◌, text_eq, if◌then◌else◌,
}
use hmmp_python_sdk.Frame.Decoder.{Frame}
use hmmp_python_sdk.Governance.Block.{GovernanceBlock}
use hmmp_python_sdk.Governance.Parse.{parse_governance_block}

-- constants.py, class CircuitBreakerStatus
abbrev pub open_status : ℕ
open_status = 0x85

abbrev pub instance_degraded : ℕ
instance_degraded = 0x86

-- Two interceptors are the same object where their identities agree.
pub record FrameInterceptor (S : Type 0) : Type 0 where
  pub identity : ℕ
  pub on_before_send : Bytes → ℕ → Bytes
  pub on_after_receive : Frame → S → S × Bool

pub record GovernanceFrameInterceptor : Type 0 where
  pub trace_id : Option Bytes
  pub span_id : Option Bytes
  pub traffic_tag : Option Text
  pub circuit_breaker_open_services : List Text

unfoldable pub new : Option Bytes → Option Bytes → Option Text → GovernanceFrameInterceptor
new trace_id span_id traffic_tag = record {
  trace_id = trace_id;
  span_id = span_id;
  traffic_tag = traffic_tag;
  circuit_breaker_open_services = [];
}

unfoldable pub set_trace_context :
    Bytes → Bytes → GovernanceFrameInterceptor → GovernanceFrameInterceptor
set_trace_context trace_id span_id g = record g { trace_id = some trace_id; span_id = some span_id }

unfoldable pub set_traffic_tag : Text → GovernanceFrameInterceptor → GovernanceFrameInterceptor
set_traffic_tag tag g = record g { traffic_tag = some tag }

unfoldable pub before_send : Bytes → ℕ → Bytes
before_send frame_data opcode = frame_data

-- The first byte of the body says whether a circuit breaker is open.
unfoldable pub is_open_signal : Bytes → Bool
is_open_signal [] = false
is_open_signal (status ∷ rest) = status == open_status

-- What is done with a parsed block goes to the log only.
abbrev pub process_governance_block :
    GovernanceBlock → GovernanceFrameInterceptor → GovernanceFrameInterceptor
process_governance_block gov g = g

-- An exception of the parser is logged. (Its fuel suffices, see Governance.Total.)
abbrev pub processed :
    Option (Result GovernanceBlock) → GovernanceFrameInterceptor → GovernanceFrameInterceptor
processed (some (ok gov)) g = process_governance_block gov g
processed (some (err e)) g = g
processed none g = g

abbrev pub process_block : Option Bytes → GovernanceFrameInterceptor → GovernanceFrameInterceptor
process_block none g = g
process_block (some []) g = g
process_block (some (b ∷ bs)) g = processed (parse_governance_block (b ∷ bs)) g

unfoldable pub after_receive :
    Frame → GovernanceFrameInterceptor → GovernanceFrameInterceptor × Bool
after_receive frame g = (process_block frame.governance_block g, is_open_signal frame.body)

unfoldable pub contains : List Text → Text → Bool
contains [] key = false
contains (k ∷ ks) key = text_eq.beq k key || contains ks key

unfoldable pub is_circuit_breaker_open : Text → GovernanceFrameInterceptor → Bool
unfolding contains
is_circuit_breaker_open service_key g = contains g.circuit_breaker_open_services service_key

-- class CompositeFrameInterceptor: the interceptors in the order in which they were added.
module _ {S : Type 0} where
  unfoldable pub add_interceptor :
      FrameInterceptor S → List (FrameInterceptor S) → List (FrameInterceptor S)
  add_interceptor i is' = is' ++ (i ∷ [])

  abbrev pub kept :
      FrameInterceptor S → Result (List (FrameInterceptor S)) → Result (List (FrameInterceptor S))
  kept i (ok is') = ok (i ∷ is')
  kept i (err e) = err e

  -- `list.remove`: the first one that is the same object goes.
  unfoldable pub remove_interceptor :
      FrameInterceptor S → List (FrameInterceptor S) → Result (List (FrameInterceptor S))
  remove_interceptor i [] = err value_error
  remove_interceptor i (j ∷ js) =
      let rest = remove_interceptor i js in if i.identity == j.identity then ok js else kept j rest

  unfoldable pub chain_before_send : List (FrameInterceptor S) → Bytes → ℕ → Bytes
  chain_before_send [] frame_data opcode = frame_data
  chain_before_send (i ∷ is') frame_data opcode =
      chain_before_send is' (i.on_before_send frame_data opcode) opcode

  -- Every interceptor runs, also behind one that reported an error.
  unfoldable pub chain_after_receive : List (FrameInterceptor S) → Frame → Bool → S → S × Bool
  chain_after_receive [] frame is_error s = (s, is_error)
  chain_after_receive (i ∷ is') frame is_error s =
      let (s', reported) = i.on_after_receive frame s in
      chain_after_receive is' frame (if reported then true else is_error) s'
