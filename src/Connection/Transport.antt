-- ===== src/Connection/Transport.antt =====
-- hmmp/connection.py, class HMMPConnection: connecting and sending. Reader and writer are there together,
-- so that a connection has a writer where it has a reader. What the transport does is an argument.
use hmmp_python_sdk.Base.{
  Bytes, Option, none, some, Result, Raised, ok, err, connection_error, connection_closed_error,
  timeout_error, os_error, cancelled_error,
}
use hmmp_python_sdk.Connection.Stream.{
  Connection, ConnectionState, disconnected, pending, End, close,
}

-- `except asyncio.TimeoutError` and `except OSError`
abbrev pub connect_raised : Raised → Raised
connect_raised timeout_error = connection_error
connect_raised os_error = connection_error
connect_raised e = e

abbrev pub opened : Result (Bytes × End) → Connection → Connection × Result (Unit {0})
opened (ok (arriving, ends)) c =
    (record c { state = pending; reader = some arriving; ends = ends }, ok tt)
opened (err e) c = (c, err (connect_raised e))

abbrev pub connect_in :
    ConnectionState → Result (Bytes × End) → Connection → Connection × Result (Unit {0})
connect_in disconnected transport c = opened transport c
connect_in _ transport c = (c, err connection_error)

unfoldable pub connect : Result (Bytes × End) → Connection → Connection × Result (Unit {0})
connect transport c = connect_in c.state transport c

-- `except Exception`, which a cancellation passes through.
abbrev pub send_raised : Raised → Raised
send_raised cancelled_error = cancelled_error
send_raised e = connection_closed_error

abbrev pub close_unless_cancelled : Raised → Connection → Connection
close_unless_cancelled cancelled_error c = c
close_unless_cancelled e c = close c

-- `written` is whether writing and draining raise.
abbrev pub send_over :
    Option Bytes → Result (Unit {0}) → Connection → Connection × Result (Unit {0})
send_over none written c = (c, err connection_closed_error)
send_over (some arriving) (ok u) c = (c, ok u)
send_over (some arriving) (err e) c = (close_unless_cancelled e c, err (send_raised e))

unfoldable pub send_frame : Result (Unit {0}) → Connection → Connection × Result (Unit {0})
send_frame written c = send_over c.reader written c
