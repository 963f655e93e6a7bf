-- ===== src/Codec/Endian.antt =====
-- The standard library's `struct` on unsigned integers in network byte order ("!B", "!H", "!I", "!Q").
use hmmp_python_sdk.Base.{
  ℕ, zero, suc, ◌+◌, ◌*◌, ◌/◌, ◌%◌, ◌^◌, ◌<◌, ◌≡◌, refl, ◌∙◌, [], ◌∷◌, ◌++◌, Bytes, length,
  length-append, All-append, IsByte, IsBytes, Result, ok, err, struct_error, ltb, if◌then◌else◌,
  arith,
}
use native.Mathlib.Nat.{pow-suc}

-- The low `k` bytes of `n`, highest first.
unfoldable pub be : ℕ → ℕ → Bytes
be zero n = []
be (suc k) n = be k (n / 256) ++ ((n % 256) ∷ [])

from_be_onto : ℕ → Bytes → ℕ
from_be_onto acc [] = acc
from_be_onto acc (b ∷ bs) = from_be_onto (acc * 256 + b) bs

-- `struct.unpack`: the number that the bytes stand for.
unfoldable pub from_be : Bytes → ℕ
unfolding from_be_onto
from_be bs = from_be_onto 0 bs

-- `struct.pack` of a value that it checks: out of range it raises `struct.error`.
unfoldable pub pack_be : ℕ → ℕ → Result Bytes
pack_be k n = if ltb n (256 ^ k) then ok (be k n) else err struct_error

pub pack_be_ok : (k n : ℕ) → n < 256 ^ k → pack_be k n ≡ ok (be k n)
unfolding pack_be
pack_be_ok k n h = ground arith

pub length-be : (k n : ℕ) → length (be k n) ≡ k
unfolding be
length-be zero n = refl
length-be (suc k) n = length-append (be k (n / 256)) _ ∙ omega (arith, length-be k (n / 256))

from_be_onto-append :
    (acc : ℕ) (xs ys : Bytes) → from_be_onto acc (xs ++ ys) ≡ from_be_onto (from_be_onto acc xs) ys
unfolding from_be_onto
from_be_onto-append acc [] ys = refl
from_be_onto-append acc (x ∷ xs) ys = from_be_onto-append (acc * 256 + x) xs ys

digit_split : (k n : ℕ) → n < 256 ^ suc k → n / 256 < 256 ^ k
digit_split k n h = omega (arith, pow-suc 256 k)

-- Unpacking what was packed gives the number back, at every width that holds it.
pub from_be-be : (k n : ℕ) → n < 256 ^ k → from_be (be k n) ≡ n
unfolding from_be be
from_be-be zero n h = omega arith
from_be-be (suc k) n h =
    from_be_onto-append 0 (be k (n / 256)) ((n % 256) ∷ [])
    ∙ omega (arith, from_be-be k (n / 256) (digit_split k n h))

pub be-IsBytes : (k n : ℕ) → IsBytes (be k n)
unfolding be
be-IsBytes zero n = tt
be-IsBytes (suc k) n =
    All-append IsByte (be k (n / 256)) _ (be-IsBytes k (n / 256)) (omega arith, tt)
