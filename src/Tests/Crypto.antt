-- ===== src/Tests/Crypto.antt =====
-- Signatures and an encrypted body with a cipher that puts a tag in front of the plaintext.
use hmmp_python_sdk.Base.{
  ◌+◌, ◌≡◌, refl, [], ◌∷◌, ◌++◌, Bytes, replicate, Result, ok, err, value_error,
}
use hmmp_python_sdk.Codec.Endian.{be, from_be, be-IsBytes, pack_be}
use hmmp_python_sdk.Crypto.Primitives.{Primitives}
use hmmp_python_sdk.Crypto.Payload.{build_aad, encrypt_config_body, decrypt_config_body}
use hmmp_python_sdk.Crypto.RoundTrip.{decrypt-encrypt}

unfoldable pub open_tagged : Bytes → Result Bytes
open_tagged [] = err value_error
open_tagged (tag ∷ plaintext) = ok plaintext

pub open_tagged-cons :
    (key iv plaintext aad ciphertext : Bytes)
    → ◌≡◌ {A = Result Bytes} (ok (170 ∷ plaintext)) (ok ciphertext)
    → open_tagged ciphertext ≡ ok plaintext
unfolding open_tagged
open_tagged-cons key iv plaintext aad ciphertext e =
    let e' : 170 ∷ plaintext ≡ ciphertext = cc e in rw (← e') refl

abbrev pub tagging : Primitives
tagging = record {
  hmac_sha256 = λ key message. be 4 (from_be key + from_be message);
  hmac-IsBytes = λ key message. be-IsBytes 4 (from_be key + from_be message);
  hkdf_sha256 = λ length' salt info ikm. be length' (from_be info + from_be ikm);
  aes_encrypt = λ key iv plaintext aad. ok (170 ∷ plaintext);
  aes_decrypt = λ key iv ciphertext aad. open_tagged ciphertext;
  md5 = λ b. be 16 (from_be b);
  decrypt-encrypt_aes = open_tagged-cons;
}

abbrev pub nonce12 : Bytes
nonce12 = replicate 12 7

abbrev body : Bytes
body = 12 ∷ (nonce12 ++ (0 ∷ 0 ∷ 0 ∷ 3 ∷ 170 ∷ 104 ∷ 105 ∷ []))

decrypt-encrypt_example :
    decrypt_config_body tagging (body ++ (1 ∷ [])) (9 ∷ []) 5 0x0202 ≡ ok (104 ∷ 105 ∷ [])
decrypt-encrypt_example =
    decrypt-encrypt tagging (9 ∷ []) 5 0x0202 nonce12 (104 ∷ 105 ∷ []) body (1 ∷ []) refl
      (unfold encrypt_config_body build_aad pack_be be in refl)
