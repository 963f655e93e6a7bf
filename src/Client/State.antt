-- ===== src/Client/State.antt =====
-- client.py, class ClientConfig and the fields of HMMPClient that the connection is about. A method is
-- a state-passing function that may raise.
use hmmp_python_sdk.Base.{
  ℕ, List, Bytes, Text, Bool, true, false, Option, none, some, Result, Raised, ok, err,
}
use hmmp_python_sdk.Base.Dict.{Dict}
use hmmp_python_sdk.Frame.Metadata.{Value}
use hmmp_python_sdk.Connection.Stream.{Connection, ConnectionState, authenticated}
use hmmp_python_sdk.Client.Session.{Link}

pub record ClientConfig : Type 0 where
  pub host : Text
  pub port : ℕ
  pub client_id : Text
  pub access_key : Text
  pub secret_key : Text
  pub namespace : Text
  pub auto_reconnect : Bool
  pub use_nonce_challenge : Bool
  pub config_encrypt : Bool
  pub config_cipher_suites : List Text
  pub canary_labels : Dict Text Text
  pub labels : Dict Text Text

-- The values that come out of metadata are kept as they are.
pub record Client : Type 0 where
  pub config : ClientConfig
  pub link : Link
  pub session_id : Text
  pub server_nonce : Bytes
  pub nonce_ttl_ms : ℕ
  pub cek : Bytes
  pub config_key_id : Value
  pub config_key_rotation_ms : Value
  pub cipher_suite : Value
  pub decryption_failures : ℕ
  pub running : Bool

abbrev pub M : Type 0 → Type 0
M A = Client → Client × Result A

abbrev pub and_then :
    {A B : Type 0} → Client × Result A → (A → Client → Client × Result B) → Client × Result B
and_then (c, ok a) f = f a c
and_then (c, err e) f = (c, err e)

infixl 5 ◌>>=◌
abbrev pub ◌>>=◌ :
    {A B : Type 0}
    → (Client → Client × Result A)
    → (A → Client → Client × Result B)
    → Client
    → Client × Result B
◌>>=◌ m f c = and_then (m c) f

abbrev pub pure : {A : Type 0} → A → M A
pure a c = (c, ok a)

abbrev pub raise : {A : Type 0} → Raised → M A
raise e c = (c, err e)

abbrev pub lift : {A : Type 0} → Result A → M A
lift r c = (c, r)

abbrev pub current : M Client
current c = (c, ok c)

abbrev pub modify : (Client → Client) → M (Unit {0})
modify f c = (f c, ok tt)

abbrev pub is_authenticated : ConnectionState → Bool
is_authenticated authenticated = true
is_authenticated _ = false

abbrev pub ready : Option Connection → Bool
ready none = false
ready (some conn) = is_authenticated conn.state

-- The property `is_connected`.
unfoldable pub is_connected : Client → Bool
is_connected c = ready c.link.conn
