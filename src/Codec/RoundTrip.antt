-- ===== src/Codec/RoundTrip.antt =====
-- What a BinaryWriter method wrote, the BinaryReader method of the same name reads back.
use hmmp_python_sdk.Base.{
  ℕ, ◌%◌, ◌^◌, ◌<◌, ◌≡◌, refl, ◌++◌, Bytes, Text, length, take-append, drop-append, ok, le→ltb,
  arith,
}
use hmmp_python_sdk.Codec.Endian.{be, length-be, from_be-be}
use hmmp_python_sdk.Codec.Utf8.{encode, decode}
use hmmp_python_sdk.Codec.Writer.{
  write_u8, write_u16, write_u32, write_u64, write_string_u8, write_string_u16,
}
use hmmp_python_sdk.Codec.Reader.{
  read_bytes, read_uint, read_u8, read_u16, read_u32, read_u64, read_string_u8, read_string_u16,
}
use native.Mathlib.Nat.{le_refl}

pub read_bytes-append_self : (xs rest : Bytes) → read_bytes (length xs) (xs ++ rest) ≡ (ok xs, rest)
unfolding read_bytes
read_bytes-append_self xs rest =
    rw (take-append, drop-append, le→ltb (length xs) (length xs) (le_refl (length xs)))

pub read_bytes-append :
    (n : ℕ) (xs rest : Bytes) → length xs ≡ n → read_bytes n (xs ++ rest) ≡ (ok xs, rest)
read_bytes-append n xs rest h = rw (← h) (read_bytes-append_self xs rest)

pub read_uint-be :
    (k n : ℕ) (rest : Bytes) → n < 256 ^ k → read_uint k (be k n ++ rest) ≡ (ok n, rest)
unfolding read_uint
read_uint-be k n rest h = rw (read_bytes-append k (be k n) rest (length-be k n), from_be-be k n h)

-- A value goes through its field reduced to the field's width, whatever stands before or behind it.
pub uint_round_trip :
    (w rest : Bytes) (v : ℕ)
    → (out8 out16 out32 out64 : Bytes) × (write_u8 w v ≡ w ++ out8)
      × (read_u8 (out8 ++ rest) ≡ (ok (v % 2 ^ 8), rest))
      × (write_u16 w v ≡ w ++ out16)
      × (read_u16 (out16 ++ rest) ≡ (ok (v % 2 ^ 16), rest))
      × (write_u32 w v ≡ w ++ out32)
      × (read_u32 (out32 ++ rest) ≡ (ok (v % 2 ^ 32), rest))
      × (write_u64 w v ≡ w ++ out64)
      × (read_u64 (out64 ++ rest) ≡ (ok (v % 2 ^ 64), rest))
unfolding write_u8 write_u16 write_u32 write_u64
uint_round_trip w rest v = (
  be 1 (v % 2 ^ 8),
  be 2 (v % 2 ^ 16),
  be 4 (v % 2 ^ 32),
  be 8 (v % 2 ^ 64),
  refl,
  read_uint-be 1 _ rest (omega arith),
  refl,
  read_uint-be 2 _ rest (omega arith),
  refl,
  read_uint-be 4 _ rest (omega arith),
  refl,
  read_uint-be 8 _ rest (omega arith),
)

-- A string field, once its encoding and the range of its length are known.
module _ (s : Text) (bs : Bytes) (encoded : encode s ≡ ok bs) where
  pub write_string_u8_eq :
      (w : Bytes) → write_string_u8 w s ≡ ok ((w ++ be 1 (length bs % 2 ^ 8)) ++ bs)
  unfolding write_string_u8 write_u8
  write_string_u8_eq w = rw encoded

  pub write_string_u16_eq :
      (w : Bytes) → write_string_u16 w s ≡ ok ((w ++ be 2 (length bs % 2 ^ 16)) ++ bs)
  unfolding write_string_u16 write_u16
  write_string_u16_eq w = rw encoded

module _ (s : Text) (bs : Bytes) (decoded : decode bs ≡ ok s) where
  pub read_string_u8-field :
      (rest : Bytes)
      → length bs < 256
      → read_string_u8 (be 1 (length bs) ++ (bs ++ rest)) ≡ (ok s, rest)
  unfolding read_string_u8
  read_string_u8-field rest h =
      rw (read_uint-be 1 (length bs) (bs ++ rest) h, read_bytes-append_self, decoded)

  pub read_string_u16-field :
      (rest : Bytes)
      → length bs < 65536
      → read_string_u16 (be 2 (length bs) ++ (bs ++ rest)) ≡ (ok s, rest)
  unfolding read_string_u16
  read_string_u16-field rest h =
      rw (read_uint-be 2 (length bs) (bs ++ rest) h, read_bytes-append_self, decoded)
