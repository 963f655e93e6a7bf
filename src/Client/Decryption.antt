-- ===== src/Client/Decryption.antt =====
-- Encrypted responses to the client's requests.
use hmmp_python_sdk.Base.{
  ◌+◌, ◌^◌, ◌<◌, ◌≡◌, ◌≢◌, ◌∙◌, ◌⊎◌, sym, ap, inl, inr, refl, [], ◌∷◌, append-nil, Bytes, Text,
  length, is_empty, true, false, Result, ok, err, decryption_error, arith,
}
use hmmp_python_sdk.Constants.OpCode
use hmmp_python_sdk.Crypto.Primitives.{Primitives}
use hmmp_python_sdk.Crypto.Payload.{encrypt_config_body, decrypt_config_body}
use hmmp_python_sdk.Crypto.RoundTrip.{decrypt-encrypt}
use hmmp_python_sdk.Crypto.Acceptance.{decrypt_raises}
use hmmp_python_sdk.Frame.Header.{is_encrypted}
use hmmp_python_sdk.Frame.Metadata.{MsgPack}
use hmmp_python_sdk.Frame.Decoder.{Frame, stream_id}
use hmmp_python_sdk.Client.State.{Client}
use hmmp_python_sdk.Client.Configs.{response_body, decrypted}

nonempty : (b : Bytes) → b ≢ [] → is_empty b ≡ false
nonempty [] h = absurd (h refl)
nonempty (x ∷ xs) h = refl

module _ (mp : MsgPack) (v : Text) (ps : Primitives) (c : Client) (response : Frame)
    (marked : is_encrypted response.header ≡ true) (keyed : c.cek ≢ []) where
  abbrev opened : Result Bytes
  opened = decrypt_config_body ps response.body c.cek (stream_id response) OpCode.config_response

  is_decrypted : response_body mp v ps response c ≡ decrypted opened c
  unfolding response_body
  is_decrypted = simp (marked, nonempty c.cek keyed) refl

  -- Where the server encrypted the body of a configuration response for the response's stream, with an
  -- IV of twelve bytes and under the client's key, a client that has a key and finds the response
  -- marked as encrypted gets the plaintext; it forgets the failures before, and nothing else of it
  -- changes.
  pub response_decrypts :
      (iv plaintext : Bytes)
      → length iv ≡ 12
      → encrypt_config_body ps iv plaintext c.cek (stream_id response) OpCode.config_response
        ≡ ok response.body
      → response_body mp v ps response c ≡ (record c { decryption_failures = 0 }, ok plaintext)
  response_decrypts iv plaintext h e =
      is_decrypted
      ∙ ap (λ (r : Result Bytes). decrypted r c)
          (ap (λ b. decrypt_config_body ps b c.cek (stream_id response) OpCode.config_response)
              (sym (append-nil response.body))
            ∙ decrypt-encrypt ps c.cek (stream_id response) OpCode.config_response iv plaintext
                response.body [] h e)

  -- Any other body either decrypts too, or is counted as one more failure and raises DecryptionError.
  response_fails :
      stream_id response < 256 ^ 4
      → ((plaintext : Bytes) × (response_body mp v ps response c
            ≡ (record c { decryption_failures = 0 }, ok plaintext)))
        ⊎ (response_body mp v ps response c
            ≡ (record c { decryption_failures = c.decryption_failures + 1 }, err decryption_error))
  response_fails fits =
      elim (decrypt_raises ps c.cek (stream_id response) OpCode.config_response fits (omega arith)
        response.body) [
          | inl (plaintext, e) ↦
              inl (plaintext, is_decrypted ∙ ap (λ (r : Result Bytes). decrypted r c) e)
          | inr e ↦ inr (is_decrypted ∙ ap (λ (r : Result Bytes). decrypted r c) e)
        ]
