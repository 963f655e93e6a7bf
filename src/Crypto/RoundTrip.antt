-- ===== src/Crypto/RoundTrip.antt =====
-- Encrypted bodies: what a receiver with the key makes of them, and of bytes that are none.
use hmmp_python_sdk.Base.{
  ℕ, ◌^◌, ◌<◌, ◌≡◌, refl, [], ◌∷◌, ◌++◌, append_assoc, Bytes, length, take, drop, take-append,
  drop-append, length-append, ok, ◌>>=◌, bind_returns, le→ltb, arith,
}
use hmmp_python_sdk.Constants.{magic_number, protocol_version}
use hmmp_python_sdk.Codec.Endian.{be, length-be, from_be-be, pack_be}
use hmmp_python_sdk.Crypto.Primitives.{Primitives}
use hmmp_python_sdk.Crypto.Payload.{
  build_aad, encrypt_config_body, decrypt_config_body, decrypt_rest,
}

pack_be-ok : (k n : ℕ) (bs : Bytes) → pack_be k n ≡ ok bs → (n < 256 ^ k) × (bs ≡ be k n)
unfolding pack_be
pack_be-ok k n bs h = ground arith

-- The prefix of the length of `iv` says where it ends.
module _ (iv size rest : Bytes) where
  take_iv : take (length iv) (iv ++ (size ++ rest)) ≡ iv
  take_iv = take-append iv (size ++ rest)

  take_size : length size ≡ 4 → take 4 (drop (length iv) (iv ++ (size ++ rest))) ≡ size
  take_size h = rw (drop-append iv (size ++ rest), ← h) (take-append size rest)

  drop_size : length size ≡ 4 → drop 4 (drop (length iv) (iv ++ (size ++ rest))) ≡ rest
  drop_size h = rw (drop-append iv (size ++ rest), ← h) (drop-append size rest)

one_byte : pack_be 1 12 ≡ ok (12 ∷ [])
unfolding pack_be be
one_byte = refl

size_shape :
    (iv c body : Bytes)
    → (do size ← pack_be 4 (length c); ok (12 ∷ (iv ++ (size ++ c)))) ≡ ok body
    → (length c < 256 ^ 4) × (body ≡ 12 ∷ (iv ++ (be 4 (length c) ++ c)))
unfolding pack_be
size_shape iv c body h = ground arith

-- What is written around the ciphertext.
layout_of :
    (iv c body : Bytes)
    → (do iv_len ← pack_be 1 12; size ← pack_be 4 (length c); ok (iv_len ++ (iv ++ (size ++ c))))
      ≡ ok body
    → (length c < 256 ^ 4) × (body ≡ 12 ∷ (iv ++ (be 4 (length c) ++ c)))
layout_of iv c body h = size_shape iv c body (rw one_byte at h)

module _ (ps : Primitives) (cek : Bytes) (stream_id body_type : ℕ) where
  decrypt_rest_eq :
      (iv c rest aad plaintext : Bytes)
      → build_aad magic_number protocol_version stream_id body_type ≡ ok aad
      → ps.aes_decrypt cek iv c aad ≡ ok plaintext
      → decrypt_rest ps iv (c ++ rest) (length c) cek stream_id body_type ≡ ok plaintext
  decrypt_rest_eq iv c rest aad plaintext e d = rw (
    le→ltb (length (c ++ rest)) (length c) (omega (arith, length-append c rest)),
    e,
    take-append c rest,
    d,
  )

  -- The layout: the length of the IV, the IV, the length of the ciphertext, the ciphertext.
  layout_decrypts :
      (iv c rest plaintext aad : Bytes)
      → length iv ≡ 12
      → length c < 256 ^ 4
      → build_aad magic_number protocol_version stream_id body_type ≡ ok aad
      → ps.aes_decrypt cek iv c aad ≡ ok plaintext
      → decrypt_config_body ps
          (12 ∷ (iv ++ (be 4 (length c) ++ (c ++ rest))))
          cek
          stream_id
          body_type
        ≡ ok plaintext
  unfolding decrypt_config_body
  layout_decrypts iv c rest plaintext aad h small e d =
      rw
        (
          le→ltb (length (iv ++ (be 4 (length c) ++ (c ++ rest)))) 16 (
              omega (
                arith,
                length-append iv (be 4 (length c) ++ (c ++ rest)),
                length-append (be 4 (length c)) (c ++ rest),
                length-be 4 (length c),
              )),
          ← h,
          take_iv iv (be 4 (length c)) (c ++ rest),
          drop_size iv (be 4 (length c)) (c ++ rest) (length-be 4 (length c)),
          take_size iv (be 4 (length c)) (c ++ rest) (length-be 4 (length c)),
          from_be-be 4 (length c) small,
        )
        (decrypt_rest_eq iv c rest aad plaintext e d)

  -- A body that was encrypted under a twelve-byte IV is decrypted to its plaintext by a receiver with
  -- the same key, stream and operation, whatever bytes stand behind it.
  pub decrypt-encrypt :
      (iv plaintext body rest : Bytes)
      → length iv ≡ 12
      → encrypt_config_body ps iv plaintext cek stream_id body_type ≡ ok body
      → decrypt_config_body ps (body ++ rest) cek stream_id body_type ≡ ok plaintext
  unfolding encrypt_config_body
  decrypt-encrypt iv plaintext body rest h e =
      let (aad, a, e1) =
        bind_returns _ (build_aad magic_number protocol_version stream_id body_type) e in
      let (c, b, e2) = bind_returns _ (ps.aes_encrypt cek iv plaintext aad) e1 in
      let (small, shape) = layout_of iv c body e2 in
      rw (shape, append_assoc, append_assoc)
        (layout_decrypts iv c rest plaintext aad h small a
          (ps.decrypt-encrypt_aes cek iv plaintext aad c b))
