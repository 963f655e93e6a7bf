-- ===== src/Frame/Flags.antt =====
-- What the encoder does to the flags.
use Prim.Native.Nat.{bit_or}
use hmmp_python_sdk.Base.{
  ℕ, ◌<◌, ◌≡◌, refl, Bool, true, false, ◌&&◌, ◌||◌, not, ltb, if◌then◌else◌, arith,
}
use hmmp_python_sdk.Base.Tables.{table, from_table}
use hmmp_python_sdk.Constants.Flag
use hmmp_python_sdk.Frame.Header.{has_flag}
use hmmp_python_sdk.Frame.Encoder.{Request, block_of, is_some, frame_flags}

set_flags : Bool → Bool → ℕ → ℕ
set_flags requested blocked flags =
    let f = if requested then bit_or flags Flag.request else flags in
    if blocked then bit_or f Flag.governance else f

-- The flags stay within a byte; the governance bit tells whether there is a block, and the request
-- bit is set for a request.
right_flags : Bool → Bool → ℕ → Bool
right_flags requested blocked flags =
    let f = set_flags requested blocked flags in
    ltb f 256
    && (if blocked then has_flag f Flag.governance else not (has_flag f Flag.governance))
    && (if requested then has_flag f Flag.request else true)

flags_are_right : (requested blocked : Bool) → table (right_flags requested blocked) 128 ≡ true
unfolding right_flags set_flags has_flag table
flags_are_right true true = refl
flags_are_right true false = refl
flags_are_right false true = refl
flags_are_right false false = refl

read_flags :
    (requested blocked : Bool) (flags : ℕ)
    → right_flags requested blocked flags ≡ true
    → (set_flags requested blocked flags < 256)
      × (has_flag (set_flags requested blocked flags) Flag.governance ≡ blocked)
      × (has_flag (set_flags requested blocked flags) Flag.request || not requested ≡ true)
unfolding right_flags
read_flags true true flags e = ground arith
read_flags true false flags e = ground arith
read_flags false true flags e = ground arith
read_flags false false flags e = ground arith

-- Flags without the governance bit stay within a byte; then the bit tells whether a block follows,
-- and the request bit is set for a request.
pub frame_flags_lem :
    (r : Request)
    → r.flags < 128
    → (frame_flags r < 256)
      × (has_flag (frame_flags r) Flag.governance ≡ is_some (block_of r.governance_block))
      × (has_flag (frame_flags r) Flag.request || not r.is_request ≡ true)
unfolding frame_flags
frame_flags_lem r h =
    let requested = r.is_request in
    let blocked = is_some (block_of r.governance_block) in
    unfold set_flags in
    read_flags requested blocked r.flags
      (from_table (right_flags requested blocked) r.flags 128 h (flags_are_right requested blocked))
