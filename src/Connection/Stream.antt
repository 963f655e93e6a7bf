-- ===== src/Connection/Stream.antt =====
-- hmmp/connection.py, class HMMPConnection. The socket is the bytes that will still arrive and what
-- happens when they run out: the peer closes the connection, or nothing comes and a read times out.
use hmmp_python_sdk.Base.{
  ℕ, zero, suc, ◌+◌, ◌++◌, Bytes, length, take, drop, Bool, true, false, Option, none, some, Result,
  ok, err, Raised, connection_error, connection_closed_error, cancelled_error, ltb, if◌then◌else◌,
}
use hmmp_python_sdk.Constants.{header_size}
use hmmp_python_sdk.Frame.Header.{FrameHeader, from_bytes}
use hmmp_python_sdk.Frame.Metadata.{MsgPack}
use hmmp_python_sdk.Frame.Decoder.{Frame, decode}

pub data ConnectionState : Type 0 where
  disconnected pending authenticating authenticated closing : ConnectionState

pub data End : Type 0 where
  closes stalls : End

pub record Connection : Type 0 where
  pub state : ConnectionState
  pub stream_id_counter : ℕ
  -- The reader, if there is one: the bytes to come.
  pub reader : Option Bytes
  pub ends : End

abbrev pub max_stream_id : ℕ
max_stream_id = 0x7FFFFFFF

unfoldable pub is_connected : ConnectionState → Bool
is_connected pending = true
is_connected authenticating = true
is_connected authenticated = true
is_connected disconnected = false
is_connected closing = false

unfoldable pub next_stream_id : Connection → Connection × ℕ
next_stream_id c =
    let id = if ltb max_stream_id (c.stream_id_counter + 1) then 1 else c.stream_id_counter + 1 in
    (record c { stream_id_counter = id }, id)

close_in : ConnectionState → Connection → Connection
close_in disconnected c = c
close_in _ c = record c { state = disconnected; reader = none }

unfoldable pub close : Connection → Connection
unfolding close_in
close c = close_in c.state c

-- Why a read came up short.
abbrev pub shortage : End → Raised
shortage closes = connection_closed_error
shortage stalls = connection_error

-- A peer that closes takes the connection down; after a timeout it stays up.
abbrev pub fall_short : End → Connection → Connection
fall_short closes c = close c
fall_short stalls c = c

-- A malformed frame closes the connection; nothing else comes out of the decoder.
abbrev pub deliver : Result Frame → Connection → Connection × Result Frame
deliver (ok f) c = (c, ok f)
deliver (err e) c = (close c, err e)

-- A closed connection just ends the loop, and a cancellation passes through; any other error closes the
-- connection first.
abbrev pub leave : Raised → Connection → Connection
leave connection_closed_error c = c
leave cancelled_error c = c
leave e c = close c

module _ (mp : MsgPack) where
  abbrev pub read_payload :
      Result FrameHeader → Bytes → Bytes → Connection → Connection × Result Frame
  read_payload (err e) head rest c = (close (record c { reader = some rest }), err e)
  read_payload (ok h) head rest c =
      if ltb (length rest) h.payload_length
      then (fall_short c.ends (record c { reader = some rest }), err (shortage c.ends))
      else deliver (decode mp (head ++ take h.payload_length rest))
          (record c { reader = some (drop h.payload_length rest) })

  abbrev pub read_from : Option Bytes → Connection → Connection × Result Frame
  read_from none c = (c, err connection_closed_error)
  read_from (some bytes) c =
      if ltb (length bytes) header_size
      then (fall_short c.ends c, err (shortage c.ends))
      else read_payload (from_bytes (take header_size bytes)) (take header_size bytes)
          (drop header_size bytes) c

  unfoldable pub read_frame : Connection → Connection × Result Frame
  read_frame c = read_from c.reader c

  -- `read_frame_loop`: every frame goes to the handler, which may raise and has a state of its own.
  -- (A connection without a handler is one with a handler that does nothing.) `none` would mean that
  -- the fuel did not suffice.
  module _ {S : Type 0} (on_frame : Frame → S → S × Result (Unit {0})) where
    abbrev pub after_handler :
        S × Result (Unit {0}) → Connection → (S → Option (Connection × S)) → Option (Connection × S)
    after_handler (s, ok u) c next = next s
    after_handler (s, err e) c next = some (leave e c, s)

    abbrev pub after_read :
        Connection × Result Frame
        → S
        → (Connection → S → Option (Connection × S))
        → Option (Connection × S)
    after_read (c, err e) s next = some (leave e c, s)
    after_read (c, ok f) s next = after_handler (on_frame f s) c (next c)

    unfoldable pub read_frame_loop : ℕ → Connection → S → Option (Connection × S)
    read_frame_loop zero c s = none
    read_frame_loop (suc fuel) c s = elim (is_connected c.state) [
      | true ↦ after_read (read_frame c) s (read_frame_loop fuel)
      | false ↦ some (c, s)
    ]
