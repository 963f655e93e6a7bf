-- ===== src/Tests/Router.antt =====
-- Concrete inputs for the theorem on the frame router.
use hmmp_python_sdk.Base.{◌≡◌, [], ◌∷◌, none, arith, nat_eq}
use hmmp_python_sdk.Base.Dict
use hmmp_python_sdk.Connection.Router.{
  Router, result, register_request, route_frame, register, cancel, run,
}
use hmmp_python_sdk.Connection.Responses.{response_reaches}
use hmmp_python_sdk.Tests.Frame.{plain_frame}

abbrev router : Router
router = record { pending_requests = []; next_future = 0 }

response_reaches_example :
    let (waiting, future) = register_request 3 router in
    let (after, effects) = route_frame plain_frame (run (register 4 ∷ cancel 4 ∷ []) waiting) in
    (effects ≡ (future, result plain_frame) ∷ []) × (Dict.get after.pending_requests 3 ≡ none)
response_reaches_example =
    response_reaches router (register 4 ∷ cancel 4 ∷ []) plain_frame (λ e. omega arith)
      ((λ e. omega arith), ((λ e. omega arith), tt))
