-- ===== src/Crypto/Signatures.antt =====
-- crypto.py: the signatures of a client and the keys derived from them. A timestamp is in whole
-- milliseconds.
use hmmp_python_sdk.Base.{ℕ, ◌++◌, Bytes, Text, codes, Bool, Result, ok, ◌>>=◌}
use hmmp_python_sdk.Base.Decimal.{decimal}
use hmmp_python_sdk.Codec.Utf8.{encode}
use hmmp_python_sdk.Crypto.Primitives.{Primitives, hex, compare_digest, compare_bytes}

-- `f"{client_id}{timestamp}"`
abbrev pub signed_text : Text → ℕ → Text
signed_text client_id timestamp = client_id ++ decimal timestamp

module _ (ps : Primitives) where
  unfoldable pub compute_signature : Text → Text → ℕ → Result Text
  compute_signature secret client_id timestamp = do
    message ← encode (signed_text client_id timestamp)
    key ← encode secret
    ok (hex (ps.hmac_sha256 key message))

  unfoldable pub compute_signature_v2 : Text → Text → ℕ → Bytes → Result Text
  compute_signature_v2 secret client_id timestamp server_nonce = do
    message ← encode (signed_text client_id timestamp ++ hex server_nonce)
    key ← encode secret
    ok (hex (ps.hmac_sha256 key message))

  unfoldable pub verify_signature : Text → Text → ℕ → Text → Result Bool
  verify_signature secret client_id timestamp signature = do
    expected ← compute_signature secret client_id timestamp
    compare_digest expected signature

  unfoldable pub verify_signature_v2 : Text → Text → ℕ → Bytes → Text → Result Bool
  verify_signature_v2 secret client_id timestamp server_nonce signature = do
    expected ← compute_signature_v2 secret client_id timestamp server_nonce
    compare_digest expected signature

  unfoldable pub derive_session_secret : Text → ℕ → Text → Result Bytes
  derive_session_secret client_id timestamp shared_key = do
    message ← encode (signed_text client_id timestamp)
    key ← encode shared_key
    ok (ps.hmac_sha256 key message)

  unfoldable pub derive_cek : Bytes → Text → Result Bytes
  derive_cek session_secret config_key_id = do
    info ← encode config_key_id
    ok (ps.hkdf_sha256 32 (codes "hmmp-config-encrypt-v1") info session_secret)

  unfoldable pub compute_md5 : Bytes → Bytes
  compute_md5 content = ps.md5 content

  unfoldable pub verify_md5 : Bytes → Bytes → Bool
  unfolding compute_md5
  verify_md5 content expected_md5 = compare_bytes (compute_md5 content) expected_md5
