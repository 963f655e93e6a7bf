-- ===== src/Codec/Strings.antt =====
-- String fields: the prefix says how long the encoding is, in eight or in sixteen bits.
use hmmp_python_sdk.Base.{
  ℕ, ◌%◌, ◌^◌, ◌≤◌, ◌<◌, ◌≡◌, ◌≢◌, ◌∙◌, sym, ap, ◌++◌, append_assoc, Bytes, Text, length,
  length-append, drop, ok, length-drop, arith,
}
use hmmp_python_sdk.Codec.Endian.{be}
use hmmp_python_sdk.Codec.Utf8.{encode, decode-encode_ok}
use hmmp_python_sdk.Codec.Writer.{write_string_u8, write_string_u16}
use hmmp_python_sdk.Codec.Reader.{read_bytes, read_string_u8, read_string_u16}
use hmmp_python_sdk.Codec.RoundTrip.{
  write_string_u8_eq, write_string_u16_eq, read_uint-be, read_string_u8-field,
  read_string_u16-field,
}
use native.Mathlib.Nat.{mod-eq_of_lt}

module _ (s : Text) (bs w rest : Bytes) (encoded : encode s ≡ ok bs) where
  -- A string whose encoding has at most 255 bytes is read back from the field that was written.
  pub string_u8_round_trip :
      length bs < 256
      → (out : Bytes) × (write_string_u8 w s ≡ ok (w ++ out))
        × (read_string_u8 (out ++ rest) ≡ (ok s, rest))
  string_u8_round_trip fits = (
    be 1 (length bs) ++ bs,
    write_string_u8_eq s bs encoded w ∙ rw (mod-eq_of_lt fits) (ap ok (append_assoc w _ bs)),
    rw append_assoc (read_string_u8-field s bs (decode-encode_ok s bs encoded) rest fits),
  )

  -- A string whose encoding has at most 65535 bytes is read back from the field that was written.
  pub string_u16_round_trip :
      length bs < 65536
      → (out : Bytes) × (write_string_u16 w s ≡ ok (w ++ out))
        × (read_string_u16 (out ++ rest) ≡ (ok s, rest))
  string_u16_round_trip fits = (
    be 2 (length bs) ++ bs,
    write_string_u16_eq s bs encoded w ∙ rw (mod-eq_of_lt fits) (ap ok (append_assoc w _ bs)),
    rw append_assoc (read_string_u16-field s bs (decode-encode_ok s bs encoded) rest fits),
  )

-- The reader stops behind as many bytes as the prefix says.
read_string_u8_stop :
    (n : ℕ) (tail' : Bytes) → n < 256 → (read_string_u8 (be 1 n ++ tail')).1 ≡ drop n tail'
unfolding read_string_u8 read_bytes
read_string_u8_stop n tail' h = rw (read_uint-be 1 n tail' h) (ground arith)

drop_short : (n : ℕ) (bs rest : Bytes) → n < length bs → drop n (bs ++ rest) ≢ rest
drop_short n bs rest h e =
    omega (arith, ap length e, length-drop n (bs ++ rest), length-append bs rest)

-- A string whose encoding has 256 bytes or more is written all the same, with a prefix that is too
-- small: a reader does not come to the end of the field, whatever stands behind it.
pub string_u8_too_long :
    (s : Text) (bs w rest : Bytes)
    → encode s ≡ ok bs
    → 256 ≤ length bs
    → (out : Bytes) × (write_string_u8 w s ≡ ok (w ++ out))
      × ((read_string_u8 (out ++ rest)).1 ≢ rest)
string_u8_too_long s bs w rest encoded long = (
  be 1 (length bs % 2 ^ 8) ++ bs,
  write_string_u8_eq s bs encoded w ∙ ap ok (append_assoc w _ bs),
  λ e. drop_short (length bs % 2 ^ 8) bs rest (omega arith) (
      sym (read_string_u8_stop (length bs % 2 ^ 8) (bs ++ rest) (omega arith))
      ∙ rw append_assoc at e),
)
