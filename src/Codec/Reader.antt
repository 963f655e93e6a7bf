-- ===== src/Codec/Reader.antt =====
-- hmmp/codec.py, class BinaryReader. A reader is the part of the buffer that is not read yet; the
-- position is what was taken from the front. A read that comes up short has taken the rest before it
-- raises, so the state comes back beside the error too.
use hmmp_python_sdk.Base.{
  ℕ, zero, suc, ◌-◌, Bytes, Text, length, take, drop, Result, ok, err, eof_error, value_error, ltb,
  ◌==◌, if◌then◌else◌, Bool, true, false, ◌≡◌, refl, arith, List, [], ◌∷◌,
}
use hmmp_python_sdk.Codec.Endian.{from_be}
use hmmp_python_sdk.Codec.Utf8.{decode}
use hmmp_python_sdk.Codec.Writer.{IpType, ipv4, ipv6, ip_length}

abbrev pub Read {ℓ} : Type ℓ → Type ℓ
Read A = Bytes → Result A × Bytes

abbrev pub continue {ℓ κ} :
    {A : Type ℓ} {B : Type κ} → Result A → Bytes → (A → Bytes → Result B × Bytes) → Result B × Bytes
continue (ok a) s f = f a s
continue (err e) s f = (err e, s)

infixl 5 ◌>>=◌
abbrev pub ◌>>=◌ {ℓ κ} :
    {A : Type ℓ} {B : Type κ}
    → (Bytes → Result A × Bytes)
    → (A → Bytes → Result B × Bytes)
    → Bytes
    → Result B × Bytes
◌>>=◌ m f s = let (r, s') = m s in continue r s' f

abbrev pub pure {ℓ} : {A : Type ℓ} → A → Read A
pure a s = (ok a, s)

abbrev pub lift {ℓ} : {A : Type ℓ} → Result A → Read A
lift r s = (r, s)

-- `self._buffer.read(n)` and the length test behind it
unfoldable pub read_bytes : ℕ → Read Bytes
read_bytes n s =
    let got = take n s in (if ltb (length got) n then err eof_error else ok got, drop n s)

unfoldable pub read_uint : ℕ → Read ℕ
read_uint n = do got ← read_bytes n; pure (from_be got)

abbrev pub read_u8 : Read ℕ
read_u8 = read_uint 1

abbrev pub read_u16 : Read ℕ
read_u16 = read_uint 2

abbrev pub read_u32 : Read ℕ
read_u32 = read_uint 4

abbrev pub read_u64 : Read ℕ
read_u64 = read_uint 8

unfoldable pub read_string_u8 : Read Text
read_string_u8 = do length' ← read_u8; got ← read_bytes length'; lift (decode got)

unfoldable pub read_string_u16 : Read Text
read_string_u16 = do length' ← read_u16; got ← read_bytes length'; lift (decode got)

abbrev pub read_ip : IpType → Read Bytes
read_ip ip_type = read_bytes (ip_length ip_type)

-- `IpType(n)`
unfoldable pub ip_type_of : ℕ → Result IpType
ip_type_of n = if n == 4 then ok ipv4 else if n == 6 then ok ipv6 else err value_error

-- `for _ in range(count): items.append(read())`
unfoldable pub read_list {ℓ} : {A : Type ℓ} → ℕ → Read A → Read (List A)
read_list zero read = pure []
read_list (suc n) read = do x ← read; xs ← read_list n read; pure (x ∷ xs)

abbrev pub remaining : Bytes → ℕ
remaining s = length s

unfoldable pub has_remaining : Bytes → Bool
has_remaining s = ltb 0 (remaining s)

abbrev pub position : Bytes → Bytes → ℕ
position buffer s = length buffer - length s

pub has_remaining-cons : (b : ℕ) (s : Bytes) → has_remaining (b ∷ s) ≡ true
unfolding has_remaining
has_remaining-cons b s = ground arith

pub has_remaining-nil : has_remaining [] ≡ false
unfolding has_remaining
has_remaining-nil = refl
