-- ===== src/Codec/Writer.antt =====
-- hmmp/codec.py, class BinaryWriter. A writer is the bytes in its buffer; a method returns the new
-- buffer. `value & 0xFF` and the wider masks are written as remainders.
use hmmp_python_sdk.Base.{
  ℕ, ◌%◌, ◌^◌, ◌++◌, Bytes, Text, length, Result, ok, err, value_error, ◌>>=◌, ◌==◌, if◌then◌else◌,
}
use hmmp_python_sdk.Codec.Endian.{be}
use hmmp_python_sdk.Codec.Utf8.{encode}

-- constants.py, class IpType
pub data IpType : Type 0 where
  ipv4 ipv6 : IpType

-- `int(ip_type)`
abbrev pub ip_code : IpType → ℕ
ip_code ipv4 = 4
ip_code ipv6 = 6

abbrev pub ip_length : IpType → ℕ
ip_length ipv4 = 4
ip_length ipv6 = 16

abbrev pub write_bytes : Bytes → Bytes → Bytes
write_bytes w b = w ++ b

unfoldable pub write_u8 : Bytes → ℕ → Bytes
write_u8 w value = w ++ be 1 (value % 2 ^ 8)

unfoldable pub write_u16 : Bytes → ℕ → Bytes
write_u16 w value = w ++ be 2 (value % 2 ^ 16)

unfoldable pub write_u32 : Bytes → ℕ → Bytes
write_u32 w value = w ++ be 4 (value % 2 ^ 32)

unfoldable pub write_u64 : Bytes → ℕ → Bytes
write_u64 w value = w ++ be 8 (value % 2 ^ 64)

unfoldable pub write_string_u8 : Bytes → Text → Result Bytes
write_string_u8 w value = do
  encoded ← encode value
  ok (write_bytes (write_u8 w (length encoded)) encoded)

unfoldable pub write_string_u16 : Bytes → Text → Result Bytes
write_string_u16 w value = do
  encoded ← encode value
  ok (write_bytes (write_u16 w (length encoded)) encoded)

unfoldable pub write_ip : Bytes → Bytes → IpType → Result Bytes
write_ip w ip_bytes ip_type =
    if length ip_bytes == ip_length ip_type then ok (w ++ ip_bytes) else err value_error
