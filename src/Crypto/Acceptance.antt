-- ===== src/Crypto/Acceptance.antt =====
-- Which signatures are accepted, and what a body that is no encryption makes the receiver raise.
use hmmp_python_sdk.Base.{
  ℕ, ◌^◌, ◌<◌, ◌≡◌, ◌↔◌, ◌⊎◌, refl, ◌∙◌, ap, inl, inr, [], ◌∷◌, ◌++◌, Bytes, Text, length, take,
  drop, IsBytes, true, Result, Raised, ok, err, ◌>>=◌, Result-cases, Bool-cases, beq_refl, text_eq,
  text_beq_iff, decryption_error, ltb, arith,
}
use hmmp_python_sdk.Constants.{magic_number, protocol_version}
use hmmp_python_sdk.Codec.Endian.{be, pack_be_ok, from_be}
use hmmp_python_sdk.Codec.Utf8.{encode}
use hmmp_python_sdk.Crypto.Primitives.{Primitives, hex, is_ascii, compare_digest}
use hmmp_python_sdk.Crypto.Signatures.{
  signed_text, compute_signature, compute_signature_v2, verify_signature, verify_signature_v2,
}
use hmmp_python_sdk.Crypto.Payload.{
  build_aad, decrypt_config_body, decrypt_rest, as_decryption_error,
}

hex-is_ascii : (bs : Bytes) → IsBytes bs → is_ascii (hex bs) ≡ true
unfolding hex is_ascii
hex-is_ascii [] h = refl
hex-is_ascii (b ∷ bs) h = ground (arith, hex-is_ascii bs h.1, h.0)

compare_digest_iff : (a s : Text) → is_ascii a ≡ true → (compare_digest a s ≡ ok true) ↔ (a ≡ s)
unfolding compare_digest
compare_digest_iff a s h =
    ((λ e. ground (arith, text_beq_iff a s)), (λ e. rw (← e, h, beq_refl a) refl))

-- Comparing with what was computed.

compared_iff :
    (r : Result Text) (s : Text)
    → ((t : Text) → r ≡ ok t → is_ascii t ≡ true)
    → ((do t ← r; compare_digest t s) ≡ ok true) ↔ (r ≡ ok s)
compared_iff (ok t) s h = (
  (λ e. ap ok ((compare_digest_iff t s (h t refl)).0 e)),
  (λ e. (compare_digest_iff t s (h t refl)).1 (cc e)),
)
compared_iff (err x) s h = ((λ e. cc), (λ e. cc))

module _ (ps : Primitives) (secret client_id : Text) (timestamp : ℕ) where
  signed-is_ascii :
      (m k : Result Bytes) (t : Text)
      → (do message ← m; key ← k; ok (hex (ps.hmac_sha256 key message))) ≡ ok t
      → is_ascii t ≡ true
  signed-is_ascii (ok m) (ok k) t e =
      let e' : hex (ps.hmac_sha256 k m) ≡ t = cc e in
      rw (← e') (hex-is_ascii (ps.hmac_sha256 k m) (ps.hmac-IsBytes k m))
  signed-is_ascii (ok m) (err x) t e = cc
  signed-is_ascii (err x) k t e = cc

  -- A signature is accepted exactly when it is the one that is computed from the same secret, client
  -- and timestamp, and in the extended form from the same nonce too.
  pub verify_iff :
      (nonce : Bytes) (signature : Text)
      → ((verify_signature ps secret client_id timestamp signature ≡ ok true)
          ↔ (compute_signature ps secret client_id timestamp ≡ ok signature))
        × ((verify_signature_v2 ps secret client_id timestamp nonce signature ≡ ok true)
            ↔ (compute_signature_v2 ps secret client_id timestamp nonce ≡ ok signature))
  unfolding verify_signature verify_signature_v2 compute_signature compute_signature_v2
  verify_iff nonce signature = (
    compared_iff (compute_signature ps secret client_id timestamp) signature
        (signed-is_ascii (encode (signed_text client_id timestamp)) (encode secret)),
    compared_iff (compute_signature_v2 ps secret client_id timestamp nonce) signature
        (signed-is_ascii (encode (signed_text client_id timestamp ++ hex nonce)) (encode secret)),
  )

aad_ok :
    (stream_id body_type : ℕ)
    → stream_id < 256 ^ 4
    → body_type < 256 ^ 2
    → (aad : Bytes) × (build_aad magic_number protocol_version stream_id body_type ≡ ok aad)
unfolding build_aad
aad_ok stream_id body_type h k = (
  be 2 magic_number ++ (be 1 protocol_version ++ (be 4 stream_id ++ be 2 body_type)),
  rw
      (
        pack_be_ok 2 magic_number (omega arith),
        pack_be_ok 1 protocol_version (omega arith),
        pack_be_ok 4 stream_id h,
        pack_be_ok 2 body_type k,
      )
      refl,
)

wrapped_raises :
    (r : Result Bytes) {e : Raised} → as_decryption_error r ≡ err e → e ≡ decryption_error
wrapped_raises (ok p) h = cc
wrapped_raises (err x) h = cc

module _ (ps : Primitives) (cek : Bytes) (stream_id body_type : ℕ) (id_fits : stream_id < 256 ^ 4)
    (type_fits : body_type < 256 ^ 2) where
  rest_raises :
      (iv rest : Bytes) (n : ℕ) (e : Raised)
      → decrypt_rest ps iv rest n cek stream_id body_type ≡ err e
      → e ≡ decryption_error
  rest_raises iv rest n e h = elim (Bool-cases (ltb (length rest) n)) [
    | inl short ↦ cc (rw short at h)
    | inr long ↦
        let (aad, a) = aad_ok stream_id body_type id_fits type_fits in
        wrapped_raises (ps.aes_decrypt cek iv (take n rest) aad) (rw (long, a) at h)
  ]

  body_raises :
      (body : Bytes) (e : Raised)
      → decrypt_config_body ps body cek stream_id body_type ≡ err e
      → e ≡ decryption_error
  unfolding decrypt_config_body
  body_raises [] e h = cc
  body_raises (iv_len ∷ after) e h = ground (
    arith,
    rest_raises (take iv_len after) (drop 4 (drop iv_len after))
        (from_be (take 4 (drop iv_len after))) e,
  )

  -- Whatever the bytes are, decrypting the body of a frame returns a plaintext or raises
  -- DecryptionError, and nothing else.
  pub decrypt_raises :
      (body : Bytes)
      → ((plaintext : Bytes) × (decrypt_config_body ps body cek stream_id body_type ≡ ok plaintext))
        ⊎ (decrypt_config_body ps body cek stream_id body_type ≡ err decryption_error)
  decrypt_raises body = elim (Result-cases (decrypt_config_body ps body cek stream_id body_type)) [
    | inl done ↦ inl done
    | inr (e, raised) ↦ inr (raised ∙ ap err (body_raises body e raised))
  ]
