-- ===== src/Connection/Responses.antt =====
-- A response finds the request that waits for it.
use hmmp_python_sdk.Base.{
  ℕ, ◌≡◌, ◌≢◌, refl, ◌∙◌, [], ◌∷◌, List, All, false, Option, none, some, ◌==◌, ==_iff, nat_eq,
  beq_refl, arith, Bool-cases, inl, inr,
}
use hmmp_python_sdk.Base.Dict
use hmmp_python_sdk.Base.Dict.{Dict, get-put, get-pop}
use hmmp_python_sdk.Frame.Decoder.{Frame, stream_id}
use hmmp_python_sdk.Connection.Router.{
  Outcome, result, Router, register_request, settle, cancel_request, route_frame, Event, register,
  cancel, route, step, run,
}

-- The events that are about another stream.
abbrev pub IsElsewhere : ℕ → Event → Type 0
IsElsewhere id (register other) = other ≢ id
IsElsewhere id (cancel other) = other ≢ id
IsElsewhere id (route f) = stream_id f ≢ id

apart : (a b : ℕ) → a ≢ b → (a == b) ≡ false
apart a b h = ground (arith, ==_iff a b, h)

settle-get :
    (other id : ℕ) (outcome : Outcome) (r : Router) (o : Option ℕ)
    → other ≢ id
    → Dict.get (settle other outcome r o).0.pending_requests id ≡ Dict.get r.pending_requests id
settle-get other id outcome r none h = refl
settle-get other id outcome r (some future) h =
    get-pop r.pending_requests other id ∙ rw (apart other id h) refl

route-get :
    (f : Frame) (id : ℕ) (r : Router)
    → stream_id f ≢ id
    → Dict.get (route_frame f r).0.pending_requests id ≡ Dict.get r.pending_requests id
unfolding route_frame
route-get f id r h = elim (Bool-cases (stream_id f == 0)) [
  | inl notice ↦ rw notice refl
  | inr answer ↦
      rw answer
        (settle-get (stream_id f) id (result f) r (Dict.get r.pending_requests (stream_id f)) h)
]

step-get :
    (e : Event) (id : ℕ) (r : Router)
    → IsElsewhere id e
    → Dict.get (step e r).pending_requests id ≡ Dict.get r.pending_requests id
unfolding step register_request cancel_request
step-get (register other) id r h =
    get-put r.pending_requests other id r.next_future ∙ rw (apart other id h) refl
step-get (cancel other) id r h = settle-get other id _ r (Dict.get r.pending_requests other) h
step-get (route f) id r h = route-get f id r h

run-get :
    (es : List Event) (id : ℕ) (r : Router)
    → All (IsElsewhere id) es
    → Dict.get (run es r).pending_requests id ≡ Dict.get r.pending_requests id
unfolding run
run-get [] id r h = refl
run-get (e ∷ es) id r h = run-get es id (step e r) h.1 ∙ step-get e id r h.0

-- A request is registered, and then requests, responses and cancellations of other streams come, and
-- notifications, in any order: a frame with the request's stream completes the request's future with
-- that frame, no other future, and the stream is no longer pending.
pub response_reaches :
    (r : Router) (es : List Event) (f : Frame)
    → stream_id f ≢ 0
    → All (IsElsewhere (stream_id f)) es
    → let (waiting, future) = register_request (stream_id f) r in
      let (after, effects) = route_frame f (run es waiting) in
      (effects ≡ (future, result f) ∷ []) × (Dict.get after.pending_requests (stream_id f) ≡ none)
unfolding route_frame
response_reaches r es f real h =
    let id = stream_id f in
    let waiting = (register_request id r).0 in
    let there : Dict.get (run es waiting).pending_requests id ≡ some r.next_future =
      run-get es id waiting h
      ∙ unfold register_request in
        (get-put r.pending_requests id id r.next_future ∙ rw (beq_refl id) refl) in
    rw (apart id 0 real, there)
      (
        unfold register_request in refl,
        get-pop (run es waiting).pending_requests id id ∙ rw (beq_refl id) refl,
      )
