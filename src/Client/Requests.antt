-- ===== src/Client/Requests.antt =====
-- What a request of a connected client ends in.
use hmmp_python_sdk.Base.{
  nat_eq, ℕ, ◌<◌, ◌≡◌, ◌≢◌, ◌∙◌, refl, List, Bytes, Text, true, none, some, Result, Raised, ok, err,
  All, arith, ==_iff,
}
use hmmp_python_sdk.Base.Dict
use hmmp_python_sdk.Base.Dict.{Dict, get-put}
use hmmp_python_sdk.Frame.Metadata.{Value, MsgPack}
use hmmp_python_sdk.Frame.Encoder.{encode}
use hmmp_python_sdk.Connection.Stream.{Connection, authenticated, next_stream_id}
use hmmp_python_sdk.Connection.Transport.{send_raised, send_frame}
use hmmp_python_sdk.Connection.Router.{Router, Event, register_request}
use hmmp_python_sdk.Client.Session.{Link, request, send_encoded, exchange, send_request}
use hmmp_python_sdk.Client.Waiting.{OfOthers, Waits, IsAnswer, Settled, wait_settles}

-- Every pending future was given out by this router.
abbrev pub IsFresh : Router → Type 0
IsFresh r = (k n : ℕ) → Dict.get r.pending_requests k ≡ some n → n < r.next_future

registered-Waits :
    (id : ℕ) (r : Router) → IsFresh r → Waits id r.next_future (register_request id r).0
unfolding register_request
registered-Waits id r fresh = record {
  there = get-put r.pending_requests id id r.next_future ∙ ground (arith, ==_iff id id);
  only = λ k e.
      ground (
        arith,
        get-put r.pending_requests id k r.next_future,
        ==_iff id k,
        fresh k r.next_future,
        e,
      );
  given = omega arith;
}

next_stream_id-ne : (conn : Connection) → (next_stream_id conn).1 ≢ 0
unfolding next_stream_id
next_stream_id-ne conn = ground arith

send_settles :
    (id : ℕ) (es : List Event) (encoded : Result Bytes) (bytes : Bytes) (r : Router)
    → id ≢ 0
    → encoded ≡ ok bytes
    → IsFresh r
    → All (OfOthers id) es
    → Settled id (send_encoded true id es (ok tt) encoded r)
unfolding register_request
send_settles id es encoded bytes r real e fresh h = rw e (
    wait_settles id r.next_future real es (register_request id r).0 h (registered-Waits id r fresh))

send_leaks :
    (id : ℕ) (why : Raised) (es : List Event) (encoded : Result Bytes) (bytes : Bytes) (r : Router)
    → encoded ≡ ok bytes
    → IsFresh r
    → let p = send_encoded true id es (err why) encoded r in
      (Dict.get p.0.pending_requests id ≡ some r.next_future) × (p.1 ≡ err why)
send_leaks id why es encoded bytes r e fresh = rw e ((registered-Waits id r fresh).there, refl)

module _ (mp : MsgPack) (v : Text) (opcode : ℕ) (body bytes : Bytes) (metadata : Dict Text Value)
    (conn : Connection) (arriving : Bytes) (r : Router) (es : List Event) where
  -- A connected client, whose frames are read, and whose connection hands out a stream next.
  abbrev pub connected : Link
  connected = record {
    conn = some (record conn { state = authenticated; reader = some arriving });
    router = r;
    reading = true;
  }

  abbrev pub stream : ℕ
  stream = (next_stream_id conn).1

  -- A request of a connected client, of which a task reads the frames, is settled, where its frame can be
  -- encoded and all pending futures were given out by the client's router: whatever the other tasks do
  -- meanwhile on other streams and whichever frames arrive, its stream is no longer pending, and it
  -- returned a frame of its own stream or raised TimeoutError. If writing the frame raises, the request
  -- raises ConnectionClosedError (or is cancelled, where writing was cancelled), but its stream stays
  -- pending. (The reconnecting that a closed connection starts is no part of this.)
  pub request_settles :
      encode mp v (request opcode body metadata stream) ≡ ok bytes
      → IsFresh r
      → All (OfOthers stream) es
      → (why : Raised)
      → let p =
          send_request mp v opcode body metadata
            (record { written = ok tt; events = es })
            connected in
        let q =
          send_request mp v opcode body metadata
            (record { written = err why; events = es })
            connected in
        (Dict.get p.0.router.pending_requests stream ≡ none)
        × IsAnswer stream p.1
        × (Dict.get q.0.router.pending_requests stream ≡ some r.next_future)
        × (q.1 ≡ err (send_raised why))
  unfolding send_request exchange next_stream_id send_frame
  request_settles e fresh h why =
      let encoded = encode mp v (request opcode body metadata stream) in
      let (settled, answer) =
        send_settles stream es encoded bytes r (next_stream_id-ne conn) e fresh h in
      let (leaked, raised) = send_leaks stream (send_raised why) es encoded bytes r e fresh in
      (settled, answer, leaked, raised)
