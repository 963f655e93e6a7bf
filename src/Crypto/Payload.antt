-- ===== src/Crypto/Payload.antt =====
-- crypto.py: the body of an encrypted configuration. The random IV is an argument.
use hmmp_python_sdk.Base.{
  ℕ, ◌+◌, [], ◌∷◌, ◌++◌, Bytes, length, take, drop, Result, ok, err, ◌>>=◌, decryption_error, ltb,
  ◌==◌, not, if◌then◌else◌,
}
use hmmp_python_sdk.Constants.{magic_number, protocol_version}
use hmmp_python_sdk.Codec.Endian.{pack_be, from_be}
use hmmp_python_sdk.Crypto.Primitives.{Primitives}

-- `struct.pack("!HBIH", magic, version, stream_id, body_type)`
unfoldable pub build_aad : ℕ → ℕ → ℕ → ℕ → Result Bytes
build_aad magic version stream_id body_type = do
  m ← pack_be 2 magic
  v ← pack_be 1 version
  s ← pack_be 4 stream_id
  t ← pack_be 2 body_type
  ok (m ++ (v ++ (s ++ t)))

-- `except Exception: raise DecryptionError`
abbrev pub as_decryption_error : Result Bytes → Result Bytes
as_decryption_error (ok plaintext) = ok plaintext
as_decryption_error (err e) = err decryption_error

module _ (ps : Primitives) where
  unfoldable pub encrypt_config_body : Bytes → Bytes → Bytes → ℕ → ℕ → Result Bytes
  encrypt_config_body iv plaintext cek stream_id body_type = do
    aad ← build_aad magic_number protocol_version stream_id body_type
    ciphertext ← ps.aes_encrypt cek iv plaintext aad
    iv_len ← pack_be 1 12
    size ← pack_be 4 (length ciphertext)
    ok (iv_len ++ (iv ++ (size ++ ciphertext)))

  -- The ciphertext of the announced length, or an error; then the associated data and the cipher.
  abbrev pub decrypt_rest : Bytes → Bytes → ℕ → Bytes → ℕ → ℕ → Result Bytes
  decrypt_rest iv rest ciphertext_len cek stream_id body_type =
      if ltb (length rest) ciphertext_len then err decryption_error else (do
        aad ← build_aad magic_number protocol_version stream_id body_type
        as_decryption_error (ps.aes_decrypt cek iv (take ciphertext_len rest) aad))

  -- `offset` has moved behind the length of the IV, and then behind the IV and the next length.
  unfoldable pub decrypt_config_body : Bytes → Bytes → ℕ → ℕ → Result Bytes
  decrypt_config_body [] cek stream_id body_type = err decryption_error
  decrypt_config_body (iv_len ∷ after) cek stream_id body_type =
      if not (iv_len == 12)
      then err decryption_error
      else if ltb (length after) (iv_len + 4)
      then err decryption_error
      else decrypt_rest (take iv_len after) (drop 4 (drop iv_len after))
          (from_be (take 4 (drop iv_len after))) cek stream_id body_type
