-- ===== src/Client/Session.antt =====
-- client.py, class HMMPClient: requests that wait for their response. What the other tasks do while a
-- request waits is an argument, as the events of the frame router in their order; the events end where
-- the time that the request waits is over.
use hmmp_python_sdk.Base.{
  ℕ, [], ◌∷◌, List, Bytes, Text, Bool, true, false, Option, none, some, Result, Raised, ok, err,
  timeout_error, cancelled_error, connection_closed_error, ◌==◌, if◌then◌else◌,
}
use hmmp_python_sdk.Base.Dict.{Dict}
use hmmp_python_sdk.Frame.Metadata.{Value, MsgPack}
use hmmp_python_sdk.Frame.Encoder.{Request, encode}
use hmmp_python_sdk.Frame.Decoder.{Frame}
use hmmp_python_sdk.Connection.Stream.{Connection, ConnectionState, authenticated, next_stream_id}
use hmmp_python_sdk.Connection.Transport.{send_frame}
use hmmp_python_sdk.Connection.Router.{
  Router, Event, register, cancel, route, Outcome, result, failed, cancelled, register_request,
  cancel_request, route_frame,
}

-- `_conn`, `_router`, and whether a task reads frames from the connection (`_read_task`).
pub record Link : Type 0 where
  pub conn : Option Connection
  pub router : Router
  pub reading : Bool

-- Writing the frame succeeds or raises; then the other tasks run.
pub record Traffic : Type 0 where
  pub written : Result (Unit {0})
  pub events : List Event

-- An event and what it does to futures. Frames are routed by the task that reads: without it none is.
abbrev pub happen : Bool → Event → Router → Router × List (ℕ × Outcome)
happen reading (register id) r = ((register_request id r).0, [])
happen reading (cancel id) r = cancel_request id r
happen true (route f) r = route_frame f r
happen false (route f) r = (r, [])

abbrev pub outcome_of : ℕ → List (ℕ × Outcome) → Option Outcome
outcome_of future [] = none
outcome_of future ((n, outcome) ∷ effects) =
    let rest = outcome_of future effects in if n == future then some outcome else rest

-- What awaiting the future gives.
abbrev pub awaited : Outcome → Result Frame
awaited (result f) = ok f
awaited failed = err connection_closed_error
awaited cancelled = err cancelled_error

abbrev pub or_wait : Router → Option Outcome → Router × Result Frame → Router × Result Frame
or_wait r (some outcome) later = (r, awaited outcome)
or_wait r none later = later

-- `asyncio.wait_for(future, timeout)`, and the cancellation of the request after the timeout.
unfoldable pub wait : Bool → ℕ → ℕ → List Event → Router → Router × Result Frame
wait reading id future [] r = ((cancel_request id r).0, err timeout_error)
wait reading id future (e ∷ es) r =
    let (r', effects) = happen reading e r in
    or_wait r' (outcome_of future effects) (wait reading id future es r')

-- `except asyncio.TimeoutError: raise ...`
abbrev pub timeout_as : Raised → Result Frame → Result Frame
timeout_as e (ok f) = ok f
timeout_as e (err timeout_error) = err e
timeout_as e (err other) = err other

-- A request whose frame cannot be sent stays registered.
abbrev pub send_and_wait :
    Bool → ℕ → ℕ → List Event → Result (Unit {0}) → Router → Router × Result Frame
send_and_wait reading id future es (ok u) r = wait reading id future es r
send_and_wait reading id future es (err e) r = (r, err e)

abbrev pub send_encoded :
    Bool → ℕ → List Event → Result (Unit {0}) → Result Bytes → Router → Router × Result Frame
send_encoded reading id es sent (err e) r = (r, err e)
send_encoded reading id es sent (ok bytes) r =
    let (r', future) = register_request id r in send_and_wait reading id future es sent r'

abbrev pub request : ℕ → Bytes → Dict Text Value → ℕ → Request
request opcode body metadata id = record {
  opcode = opcode;
  body = body;
  stream_id = id;
  is_request = true;
  metadata = metadata;
  flags = 0;
  governance_block = none;
}

-- A frame that cannot be encoded is not sent.
abbrev pub conn_after : Result Bytes → Connection × Result (Unit {0}) → Connection → Connection
conn_after (ok bytes) sent conn = sent.0
conn_after (err e) sent conn = conn

module _ (mp : MsgPack) (client_version : Text) where
  -- The part that the nonce challenge, the handshake, heartbeats and all requests share: the next
  -- stream, the frame, its registration, sending it, and waiting.
  unfoldable pub exchange :
      ℕ → Bytes → Dict Text Value → Traffic → Connection → Link → Link × Result Frame
  exchange opcode body metadata t conn l =
      let (conn', id) = next_stream_id conn in
      let encoded = encode mp client_version (request opcode body metadata id) in
      let sent = send_frame t.written conn' in
      let (router', response) = send_encoded l.reading id t.events sent.1 encoded l.router in
      (record l { conn = some (conn_after encoded sent conn'); router = router' }, response)

  abbrev pub if_authenticated :
      ConnectionState
      → ℕ
      → Bytes
      → Dict Text Value
      → Traffic
      → Connection
      → Link
      → Link × Result Frame
  if_authenticated authenticated opcode body metadata t conn l =
      exchange opcode body metadata t conn l
  if_authenticated other opcode body metadata t conn l = (l, err connection_closed_error)

  abbrev pub send_on :
      Option Connection → ℕ → Bytes → Dict Text Value → Traffic → Link → Link × Result Frame
  send_on none opcode body metadata t l = (l, err connection_closed_error)
  send_on (some conn) opcode body metadata t l =
      if_authenticated conn.state opcode body metadata t conn l

  unfoldable pub send_request : ℕ → Bytes → Dict Text Value → Traffic → Link → Link × Result Frame
  send_request opcode body metadata t l = send_on l.conn opcode body metadata t l
