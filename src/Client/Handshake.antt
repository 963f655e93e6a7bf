-- ===== src/Client/Handshake.antt =====
-- client.py: the nonce challenge, the handshake, and connecting.
use hmmp_python_sdk.Base.{
  ℕ, [], Bytes, Text, Bool, true, false, Option, none, some, Result, Raised, ok, err, nonce_error,
  handshake_error, handshake_timeout_error, attribute_error, ◌==◌, ◌&&◌, if◌then◌else◌, text_eq,
}
use hmmp_python_sdk.Base.Dict.{Dict}
use hmmp_python_sdk.Constants.OpCode
use hmmp_python_sdk.Constants.StatusCode.{ok_status}
use hmmp_python_sdk.Crypto.Primitives.{Primitives}
use hmmp_python_sdk.Crypto.Signatures.{derive_session_secret, derive_cek}
use hmmp_python_sdk.Frame.Metadata.{Value, MsgPack}
use hmmp_python_sdk.Frame.Decoder.{Frame}
use hmmp_python_sdk.Models.Notices.{nonce_from_bytes}
use hmmp_python_sdk.Connection.Stream.{
  Connection, ConnectionState, End, disconnected, authenticating, authenticated,
}
use hmmp_python_sdk.Connection.Transport
use hmmp_python_sdk.Client.Session.{Link, Traffic, timeout_as, exchange}
use hmmp_python_sdk.Client.Bodies.{
  nonce_body, handshake_body, handshake_metadata, signature_of, HandshakeResult,
  parse_handshake_response, value_text, is_truthy,
}
use hmmp_python_sdk.Client.State.{Client, M, ◌>>=◌, pure, raise, lift, current, modify}

-- What the client meets while it connects: whether the transport opens, with the bytes that arrive on
-- it; the times that it reads; and what happens while its two requests wait.
pub record Meeting : Type 0 where
  pub opened : Result (Bytes × End)
  pub nonce_time : ℕ
  pub nonce_traffic : Traffic
  pub handshake_time : ℕ
  pub handshake_traffic : Traffic
  pub key_time : ℕ

-- `HMMPConnection(...)` and its method `connect`
abbrev pub fresh_connection : Connection
fresh_connection = record {
  state = disconnected;
  stream_id_counter = 0;
  reader = none;
  ends = End.closes;
}

abbrev pub set_conn : Connection → Client → Client
set_conn conn c = record c {
  link = record { conn = some conn; router = c.link.router; reading = c.link.reading };
}

abbrev pub with_conn : Connection × Result (Unit {0}) → M (Unit {0})
with_conn (conn, result) c = (set_conn conn c, result)

unfoldable pub open_connection : Result (Bytes × End) → M (Unit {0})
open_connection transport c = with_conn (Transport.connect transport fresh_connection) c

-- `self._conn.set_state(state)`
abbrev pub state_set : ConnectionState → Option Connection → Client → Client × Result (Unit {0})
state_set state none c = (c, err attribute_error)
state_set state (some conn) c = (set_conn (record conn { state = state }) c, ok tt)

unfoldable pub set_state : ConnectionState → M (Unit {0})
set_state state c = state_set state c.link.conn c

abbrev pub linked : Client → Link × Result Frame → Client × Result Frame
linked c (l, response) = (record c { link = l }, response)

abbrev pub exchange_on :
    Option Connection → (Connection → Link → Link × Result Frame) → Client → Client × Result Frame
exchange_on none f c = (c, err attribute_error)
exchange_on (some conn) f c = linked c (f conn c.link)

abbrev pub timed : Raised → Client × Result Frame → Client × Result Frame
timed e (c, response) = (c, timeout_as e response)

module _ (mp : MsgPack) (client_version : Text) (ps : Primitives) where
  -- A request on the connection, whatever its state, with the error that a timeout becomes.
  unfoldable pub call : Raised → ℕ → Bytes → Dict Text Value → Traffic → M Frame
  call e opcode body metadata t c =
      timed e (exchange_on c.link.conn (exchange mp client_version opcode body metadata t) c)

  unfoldable pub nonce_challenge : ℕ → Traffic → M (Unit {0})
  nonce_challenge timestamp t = do
    c ← current
    body ← lift (nonce_body c.config timestamp)
    response ← call nonce_error OpCode.nonce_challenge_request body [] t
    result ← lift (nonce_from_bytes response.body)
    if result.status == 0
        then modify (λ s. record s {
          server_nonce = result.server_nonce;
          nonce_ttl_ms = result.nonce_ttl_ms;
        })
        else raise nonce_error

  -- The key of configuration bodies, where the server named a cipher and a key.
  unfoldable pub derive_key : ℕ → M (Unit {0})
  derive_key timestamp = do
    c ← current
    if is_truthy c.cipher_suite && is_truthy c.config_key_id
        then (do
          session_secret ←
              lift (derive_session_secret ps c.config.client_id timestamp c.config.secret_key)
          key_id ← lift (value_text c.config_key_id)
          cek ← lift (derive_cek ps session_secret key_id)
          modify (λ s. record s { cek = cek }))
        else pure tt

  abbrev pub accept : HandshakeResult → Client → Client
  accept r s = record s {
    session_id = r.session_id;
    cipher_suite = r.config_cipher_suite;
    config_key_id = r.config_key_id;
    config_key_rotation_ms = r.config_key_rotation_ms;
  }

  unfoldable pub accept_response : ℕ → HandshakeResult → M (Unit {0})
  accept_response key_time r = do
    checked ← lift (if r.status == ok_status then ok tt else err handshake_error)
    stored ← modify (accept r)
    derived ← derive_key key_time
    set_state authenticated

  abbrev pub finish_handshake : ℕ → Frame → M (Unit {0})
  finish_handshake key_time response = do
    r ← lift (parse_handshake_response response)
    accept_response key_time r

  abbrev pub send_signed : ℕ → Traffic → ℕ → Client → Text → M (Unit {0})
  send_signed timestamp t key_time c signature = do
    body ← lift (handshake_body c.config c.server_nonce timestamp signature)
    response ←
        call handshake_timeout_error OpCode.handshake_request body (handshake_metadata c.config) t
    finish_handshake key_time response

  unfoldable pub send_handshake_request : ℕ → Traffic → ℕ → M (Unit {0})
  send_handshake_request timestamp t key_time = do
    c ← current
    signature ← lift (signature_of ps c.config c.server_nonce timestamp)
    send_signed timestamp t key_time c signature

  abbrev pub challenge_if : Bool → ℕ → Traffic → M (Unit {0})
  challenge_if true timestamp t = nonce_challenge timestamp t
  challenge_if false timestamp t = pure tt

  unfoldable pub handshake : Meeting → M (Unit {0})
  handshake m = do
    set ← set_state authenticating
    c ← current
    challenged ← challenge_if c.config.use_nonce_challenge m.nonce_time m.nonce_traffic
    send_handshake_request m.handshake_time m.handshake_traffic m.key_time

  -- The task that reads frames is started behind the handshake.
  unfoldable pub establish_connection : Meeting → M (Unit {0})
  establish_connection m = do
    opened ← open_connection m.opened
    shaken ← handshake m
    modify (λ c. record c {
      link = record { conn = c.link.conn; router = c.link.router; reading = true };
    })

  abbrev pub connect_if : Bool → Meeting → M (Unit {0})
  connect_if true m = pure tt
  connect_if false m = do
    started ← modify (λ c. record c { running = true })
    establish_connection m

  unfoldable pub connect : Meeting → M (Unit {0})
  connect m = do c ← current; connect_if c.running m
