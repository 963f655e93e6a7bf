-- ===== src/Tests/Platform.antt =====
-- A platform to try the parsers on: an address is spelled as its bytes, and a float is its encoding.
use hmmp_python_sdk.Base.{
  ℕ, ◌≡◌, Bytes, length, Option, none, some, Result, ok, err, value_error, ◌==◌, ==_iff,
  if◌then◌else◌, arith,
}
use hmmp_python_sdk.Models.Platform.{Platform}

unfoldable pub sized : ℕ → Bytes → Option Bytes
sized n b = if length b == n then some b else none

pub sized_eq : (n : ℕ) (b : Bytes) → length b ≡ n → sized n b ≡ some b
unfolding sized
sized_eq n b h = ground (arith, ==_iff (length b) n, h)

pub length-sized : (n : ℕ) (s b : Bytes) → sized n s ≡ some b → length b ≡ n
unfolding sized
length-sized n s b h = ground (arith, ==_iff (length s) n, h)

unfoldable pub packed : Bytes → Result Bytes
packed b = if length b == 4 then ok b else err value_error

pub length-packed : (x b : Bytes) → packed x ≡ ok b → length b ≡ 4
unfolding packed
length-packed x b h = ground (arith, ==_iff (length x) 4, h)

pub other_size : (b : Bytes) → length b ≡ 16 → sized 4 b ≡ none
unfolding sized
other_size b h = ground (arith, ==_iff (length b) 4, h)

abbrev pub bytewise : Platform
bytewise = record {
  Float = Bytes;
  pack_f32 = packed;
  unpack_f32 = λ b. b;
  length-pack_f32 = length-packed;
  packed4 = sized 4;
  packed6 = sized 16;
  text4 = λ b. b;
  text6 = λ b. b;
  length-packed4 = length-sized 4;
  length-packed6 = length-sized 16;
  packed4-text4 = sized_eq 4;
  packed6-text6 = sized_eq 16;
  packed4-text6 = other_size;
}
