-- ===== src/Models/Platform.antt =====
-- What hmmp/codec.py takes from the standard library for addresses and 32-bit floats: the module
-- `ipaddress`, and `struct` with the format "!f".
use hmmp_python_sdk.Base.{
  ◌≡◌, Bytes, Text, length, Option, none, some, Result, ok, err, value_error,
}
use hmmp_python_sdk.Codec.Writer.{IpType, ipv4, ipv6}
use hmmp_python_sdk.Codec.Reader.{Read, read_bytes, ◌>>=◌, pure}
use hmmp_python_sdk.Base.{◌++◌}

pub record Platform : Type 1 where
  -- The type of floats.
  pub Float : Type 0
  -- `struct.pack("!f", x)`, which raises on a number that is too large, and `struct.unpack`
  pub pack_f32 : Float → Result Bytes
  pub unpack_f32 : Bytes → Float
  pub length-pack_f32 : (x : Float) (b : Bytes) → pack_f32 x ≡ ok b → length b ≡ 4
  -- `IPv4Address(s).packed` and `IPv6Address(s).packed`, none for AddressValueError
  pub packed4 : Text → Option Bytes
  pub packed6 : Text → Option Bytes
  -- `str(IPv4Address(b))` and `str(IPv6Address(b))`
  pub text4 : Bytes → Text
  pub text6 : Bytes → Text
  pub length-packed4 : (s : Text) (b : Bytes) → packed4 s ≡ some b → length b ≡ 4
  pub length-packed6 : (s : Text) (b : Bytes) → packed6 s ≡ some b → length b ≡ 16
  -- The text of an address is read as that address, and of one kind only.
  pub packed4-text4 : (b : Bytes) → length b ≡ 4 → packed4 (text4 b) ≡ some b
  pub packed6-text6 : (b : Bytes) → length b ≡ 16 → packed6 (text6 b) ≡ some b
  pub packed4-text6 : (b : Bytes) → length b ≡ 16 → packed4 (text6 b) ≡ none

ip_of : Option Bytes → Option Bytes → Result (Bytes × IpType)
ip_of (some b) o = ok (b, ipv4)
ip_of none (some b) = ok (b, ipv6)
ip_of none none = err value_error

abbrev pub append_packed : Bytes → Result Bytes → Result Bytes
append_packed w (ok b) = ok (w ++ b)
append_packed w (err e) = err e

module _ (pf : Platform) where
  unfoldable pub ip_to_bytes : Text → Result (Bytes × IpType)
  unfolding ip_of
  ip_to_bytes ip = ip_of (pf.packed4 ip) (pf.packed6 ip)

  unfoldable pub bytes_to_ip : Bytes → IpType → Text
  bytes_to_ip data' ipv4 = pf.text4 data'
  bytes_to_ip data' ipv6 = pf.text6 data'

  unfoldable pub write_f32 : Bytes → pf.Float → Result Bytes
  write_f32 w x = append_packed w (pf.pack_f32 x)

  unfoldable pub read_f32 : Read pf.Float
  read_f32 = do got ← read_bytes 4; pure (pf.unpack_f32 got)
