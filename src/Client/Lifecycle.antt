-- ===== src/Client/Lifecycle.antt =====
-- client.py: heartbeats, reconnecting, disconnecting and migrating. Intervals are in milliseconds. What
-- closing a connection starts (the close handler, which reconnects) is `reconnect` by itself.
use hmmp_python_sdk.Base.{
  ℕ, ◌*◌, min, [], ◌∷◌, List, Text, Bool, true, false, not, ◌&&◌, Option, none, some, Result, err,
  connection_closed_error, cancelled_error, if◌then◌else◌,
}
use hmmp_python_sdk.Constants.OpCode
use hmmp_python_sdk.Crypto.Primitives.{Primitives}
use hmmp_python_sdk.Frame.Metadata.{MsgPack}
use hmmp_python_sdk.Frame.Decoder.{Frame}
use hmmp_python_sdk.Connection.Stream
use hmmp_python_sdk.Connection.Stream.{Connection, close}
use hmmp_python_sdk.Models.Notices.{RedirectInfo}
use hmmp_python_sdk.Client.Session.{Traffic, exchange}
use hmmp_python_sdk.Client.State.{Client, M, ◌>>=◌, pure, modify, current}
use hmmp_python_sdk.Client.Handshake.{Meeting, exchange_on, set_conn, establish_connection}

-- One round of the loop of `_reconnect`: whether the client still runs, and whether connecting succeeds.
pub record Attempt : Type 0 where
  pub running : Bool
  pub succeeds : Bool

-- The times that the loop sleeps.
unfoldable pub reconnect : ℕ → ℕ → List Attempt → List ℕ
reconnect interval max_interval [] = []
reconnect interval max_interval (a ∷ as') =
    let rest = reconnect (min (interval * 2) max_interval) max_interval as' in
    if not a.running then [] else if a.succeeds then interval ∷ [] else interval ∷ rest

abbrev pub is_up : Option Connection → Bool
is_up none = false
is_up (some conn) = Stream.is_connected conn.state

-- A closed connection ends the loop of heartbeats, and so does a cancellation, which passes through; any
-- other error is logged.
abbrev pub beats_on : Result Frame → Bool
beats_on (err connection_closed_error) = false
beats_on (err cancelled_error) = false
beats_on _ = true

-- `if self._conn: await self._conn.close()`
abbrev pub closed : Option Connection → Client → Client
closed none c = c
closed (some conn) c = set_conn (close conn) c

unfoldable pub disconnect : Client → Client
disconnect c =
    let stopped : Client = record c {
      running = false;
      link = record { conn = c.link.conn; router = c.link.router; reading = false };
    } in
    closed c.link.conn stopped

module _ (mp : MsgPack) (client_version : Text) (ps : Primitives) where
  abbrev pub beat : Traffic → Client → Client × Result Frame
  beat t c = exchange_on c.link.conn (exchange mp client_version OpCode.heartbeat_ping [] [] t) c

  abbrev pub after_beat : Client × Result Frame → (Client → Client) → Client
  after_beat (c, response) next = let later = next c in if beats_on response then later else c

  unfoldable pub heartbeat_loop : List Traffic → Client → Client
  heartbeat_loop [] c = c
  heartbeat_loop (t ∷ ts) c = elim (c.running && is_up c.link.conn) [
    | true ↦ after_beat (beat t c) (heartbeat_loop ts)
    | false ↦ c
  ]

  abbrev pub establish_if : Bool → Meeting → M (Unit {0})
  establish_if true m = establish_connection mp client_version ps m
  establish_if false m = pure tt

  unfoldable pub migrate_connection : RedirectInfo → Meeting → M (Unit {0})
  migrate_connection redirect m = do
    moved ← modify (λ c. record c {
      config = record c.config { host = redirect.target_ip; port = redirect.target_port };
    })
    down ← modify (λ c. closed c.link.conn c)
    c ← current
    establish_if c.running m

-- What fails goes on.
abbrev pub failing : Attempt
failing = record { running = true; succeeds = false }
