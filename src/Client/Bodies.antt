-- ===== src/Client/Bodies.antt =====
-- client.py: the bodies of the nonce challenge and of the handshake, and what the response says.
use hmmp_python_sdk.Base.{
  ℕ, [], ◌∷◌, Bytes, Text, codes, length, is_empty, Bool, true, false, not, Option, none, some,
  Result, ok, err, ◌>>=◌, attribute_error, ◌==◌, if◌then◌else◌, text_eq,
}
use hmmp_python_sdk.Base.Dict
use hmmp_python_sdk.Base.Dict.{Dict}
use hmmp_python_sdk.Codec.Writer.{write_u8, write_u64, write_bytes, write_string_u8}
use hmmp_python_sdk.Codec.Reader
use hmmp_python_sdk.Codec.Reader.{read_u16, read_string_u16}
use hmmp_python_sdk.Crypto.Primitives.{Primitives}
use hmmp_python_sdk.Crypto.Signatures.{compute_signature, compute_signature_v2}
use hmmp_python_sdk.Frame.Metadata.{Value, null, num, flag, text, bin, texts, labels, Metadata, get}
use hmmp_python_sdk.Frame.Decoder.{Frame}
use hmmp_python_sdk.Models.Requests.{write_labels}
use hmmp_python_sdk.Client.State.{ClientConfig}

unfoldable pub nonce_body : ClientConfig → ℕ → Result Bytes
nonce_body config timestamp = do w ← write_string_u8 [] config.client_id; ok (write_u64 w timestamp)

-- With a nonce from the server the extended form.
abbrev pub signature_of : Primitives → ClientConfig → Bytes → ℕ → Result Text
signature_of ps config [] timestamp =
    compute_signature ps config.secret_key config.client_id timestamp
signature_of ps config (b ∷ bs) timestamp =
    compute_signature_v2 ps config.secret_key config.client_id timestamp (b ∷ bs)

abbrev pub write_nonce : Bytes → Bytes → Bytes
write_nonce w [] = write_u8 w 0
write_nonce w (b ∷ bs) = write_bytes (write_u8 w 1) (b ∷ bs)

unfoldable pub handshake_body : ClientConfig → Bytes → ℕ → Text → Result Bytes
handshake_body config server_nonce timestamp signature = do
  named ← write_string_u8 [] config.client_id
  keyed ← write_string_u8 named config.access_key
  signed ← write_string_u8 (write_u64 keyed timestamp) signature
  write_labels (write_u8 (write_nonce signed server_nonce) (length config.labels)) config.labels

abbrev pub encryption_metadata : ClientConfig → Dict Text Value
encryption_metadata config =
    if config.config_encrypt
    then (codes "config_encrypt", flag true)
      ∷ (codes "config_cipher_suites", texts config.config_cipher_suites)
      ∷ []
    else []

unfoldable pub handshake_metadata : ClientConfig → Dict Text Value
handshake_metadata config =
    if is_empty config.canary_labels
    then encryption_metadata config
    else Dict.put (encryption_metadata config) (codes "canary_labels") (labels config.canary_labels)

-- models.py, class HandshakeResult; the values of the metadata are kept as they came.
pub record HandshakeResult : Type 0 where
  pub session_id : Text
  pub status : ℕ
  pub config_cipher_suite : Value
  pub config_key_id : Value
  pub config_key_rotation_ms : Value
  pub canary_enabled : Value
  pub canary_match_result : Value

-- `metadata.get(key, default)`
abbrev pub or_value : Value → Option Value → Value
or_value default' none = default'
or_value default' (some v) = v

abbrev pub get_or : Metadata → Text → Value → Result Value
get_or metadata key default' = do found ← get metadata key; ok (or_value default' found)

abbrev pub read_status : Reader.Read (Text × ℕ)
read_status =
    Reader.◌>>=◌ read_string_u16
      (λ session_id. Reader.◌>>=◌ read_u16 (λ status. Reader.pure (session_id, status)))

unfoldable pub parse_handshake_response : Frame → Result HandshakeResult
parse_handshake_response frame = do
  (session_id, status) ← (read_status frame.body).0
  suite ← get_or frame.metadata (codes "config_cipher_suite") (text [])
  key_id ← get_or frame.metadata (codes "config_key_id") (text [])
  rotation ← get_or frame.metadata (codes "config_key_rotation_ms") (num 0)
  enabled ← get_or frame.metadata (codes "canary_enabled") (flag false)
  matched ← get_or frame.metadata (codes "canary_match_result") (labels [])
  ok (record {
    session_id = session_id;
    status = status;
    config_cipher_suite = suite;
    config_key_id = key_id;
    config_key_rotation_ms = rotation;
    canary_enabled = enabled;
    canary_match_result = matched;
  })

-- `bool(value)`
unfoldable pub is_truthy : Value → Bool
is_truthy null = false
is_truthy (num n) = not (n == 0)
is_truthy (flag b) = b
is_truthy (text s) = not (is_empty s)
is_truthy (bin b) = not (is_empty b)
is_truthy (texts ts) = not (is_empty ts)
is_truthy (labels d) = not (is_empty d)

-- What `value.encode("utf-8")` works on.
unfoldable pub value_text : Value → Result Text
value_text (text s) = ok s
value_text _ = err attribute_error
