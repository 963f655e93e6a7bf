-- ===== src/Crypto/Primitives.antt =====
-- What hmmp/crypto.py takes from elsewhere: hashlib and hmac of the standard library, and HKDF and
-- AES-GCM of the package cryptography. Hexadecimal digits are those of `bytes.hex()`.
use hmmp_python_sdk.Base.{
  ℕ, ◌+◌, ◌/◌, ◌%◌, ◌≡◌, [], ◌∷◌, Bytes, Text, Bool, true, ◌&&◌, IsBytes, Result, ok, err,
  type_error, ltb, text_beq, if◌then◌else◌,
}

pub record Primitives : Type 0 where
  -- `hmac.new(key, message, hashlib.sha256).digest()`
  pub hmac_sha256 : Bytes → Bytes → Bytes
  pub hmac-IsBytes : (key message : Bytes) → IsBytes (hmac_sha256 key message)
  -- `HKDF(SHA256(), length, salt, info).derive(ikm)`
  pub hkdf_sha256 : ℕ → Bytes → Bytes → Bytes → Bytes
  -- `AESGCM(key).encrypt(iv, plaintext, aad)` and `AESGCM(key).decrypt(iv, ciphertext, aad)`. Both
  -- raise: on a key of a wrong length, and the second when the tag does not verify.
  pub aes_encrypt : Bytes → Bytes → Bytes → Bytes → Result Bytes
  pub aes_decrypt : Bytes → Bytes → Bytes → Bytes → Result Bytes
  pub md5 : Bytes → Bytes
  -- Under the same key, IV and associated data the plaintext comes back.
  pub decrypt-encrypt_aes :
      (key iv plaintext aad ciphertext : Bytes)
      → aes_encrypt key iv plaintext aad ≡ ok ciphertext
      → aes_decrypt key iv ciphertext aad ≡ ok plaintext

hex_digit : ℕ → ℕ
hex_digit n = if ltb n 10 then 48 + n else 87 + n

-- `b.hex()`
unfoldable pub hex : Bytes → Text
unfolding hex_digit
hex [] = []
hex (b ∷ bs) = hex_digit (b / 16) ∷ (hex_digit (b % 16) ∷ hex bs)

unfoldable pub is_ascii : Text → Bool
is_ascii [] = true
is_ascii (c ∷ s) = ltb c 128 && is_ascii s

-- `hmac.compare_digest(a, b)`, which raises TypeError on text that is not ASCII, and on bytes.
unfoldable pub compare_digest : Text → Text → Result Bool
compare_digest a b = if is_ascii a && is_ascii b then ok (text_beq a b) else err type_error

unfoldable pub compare_bytes : Bytes → Bytes → Bool
compare_bytes a b = text_beq a b
