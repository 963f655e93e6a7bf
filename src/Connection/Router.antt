-- ===== src/Connection/Router.antt =====
-- hmmp/connection.py, class FrameRouter: the pending requests. A future is its number; an operation
-- returns the new router beside what it does to futures, each of which is skipped for a future that
-- is done already. The handlers of notifications are code of the client and change no request.
use hmmp_python_sdk.Base.{ℕ, suc, [], ◌∷◌, List, Option, none, some, ◌==◌, nat_eq, if◌then◌else◌}
use hmmp_python_sdk.Base.Dict
use hmmp_python_sdk.Base.Dict.{Dict}
use hmmp_python_sdk.Frame.Decoder.{Frame, stream_id}

pub data Outcome : Type 0 where
  result : Frame → Outcome
  failed cancelled : Outcome

pub record Router : Type 0 where
  pub pending_requests : Dict ℕ ℕ
  pub next_future : ℕ

unfoldable pub register_request : ℕ → Router → Router × ℕ
register_request id r = (
  record {
    pending_requests = Dict.put r.pending_requests id r.next_future;
    next_future = suc r.next_future;
  },
  r.next_future,
)

abbrev pub settle : ℕ → Outcome → Router → Option ℕ → Router × List (ℕ × Outcome)
settle id outcome r none = (r, [])
settle id outcome r (some future) =
    (record r { pending_requests = Dict.pop r.pending_requests id }, (future, outcome) ∷ [])

unfoldable pub cancel_request : ℕ → Router → Router × List (ℕ × Outcome)
cancel_request id r = settle id cancelled r (Dict.get r.pending_requests id)

abbrev pub failures : Dict ℕ ℕ → List (ℕ × Outcome)
failures [] = []
failures ((id, future) ∷ d) = (future, failed) ∷ failures d

unfoldable pub fail_all : Router → Router × List (ℕ × Outcome)
fail_all r = (record r { pending_requests = [] }, failures r.pending_requests)

-- Stream 0 is for notifications.
unfoldable pub route_frame : Frame → Router → Router × List (ℕ × Outcome)
route_frame f r =
    if stream_id f == 0
    then (r, [])
    else settle (stream_id f) (result f) r (Dict.get r.pending_requests (stream_id f))

pub data Event : Type 0 where
  register cancel : ℕ → Event
  route : Frame → Event

unfoldable pub step : Event → Router → Router
step (register id) r = (register_request id r).0
step (cancel id) r = (cancel_request id r).0
step (route f) r = (route_frame f r).0

unfoldable pub run : List Event → Router → Router
run [] r = r
run (e ∷ es) r = run es (step e r)
