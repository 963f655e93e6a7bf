-- ===== src/Frame/RoundTrip.antt =====
-- A frame that the encoder built is taken apart by the decoder.
use hmmp_python_sdk.Base.{
  ◌^◌, ◌≤◌, ◌<◌, ◌≡◌, refl, ◌++◌, Bytes, length, length-append, take, ok, le→ltb, arith,
}
use hmmp_python_sdk.Codec.Endian.{be, pack_be_ok, from_be-be}
use hmmp_python_sdk.Constants.{magic_number, header_size}
use hmmp_python_sdk.Frame.Header.{FrameHeader, slice, unpack, check_magic, to_bytes, from_bytes}

-- The header's layout when every field fits.
abbrev pub header_bytes : FrameHeader → Bytes
header_bytes h =
    be 2 h.magic
    ++ (be 1 h.version
        ++ (be 1 h.flags ++ (be 4 h.stream_id ++ (be 4 h.payload_length ++ be 4 h.padding))))

pub record IsHeader (h : FrameHeader) : Type 0 where
  pub magic : h.magic ≡ magic_number
  pub version : h.version < 2 ^ 8
  pub flags : h.flags < 2 ^ 8
  pub stream_id : h.stream_id < 2 ^ 32
  pub payload_length : h.payload_length < 2 ^ 32
  pub padding : h.padding < 2 ^ 32

pub to_bytes-header_bytes : (h : FrameHeader) → IsHeader h → to_bytes h ≡ ok (header_bytes h)
unfolding to_bytes
to_bytes-header_bytes h v = rw (
  pack_be_ok 2 h.magic (omega arith),
  pack_be_ok 1 h.version (omega arith),
  pack_be_ok 1 h.flags (omega arith),
  pack_be_ok 4 h.stream_id (omega arith),
  pack_be_ok 4 h.payload_length (omega arith),
  pack_be_ok 4 h.padding (omega arith),
)

pub length-header_bytes : (h : FrameHeader) → length (header_bytes h) ≡ 16
unfolding be
length-header_bytes h = refl

slices :
    (h : FrameHeader) (rest : Bytes)
    → let bs = take 16 (header_bytes h ++ rest) in
      (slice 0 2 bs ≡ be 2 h.magic)
      × (slice 2 1 bs ≡ be 1 h.version)
      × (slice 3 1 bs ≡ be 1 h.flags)
      × (slice 4 4 bs ≡ be 4 h.stream_id)
      × (slice 8 4 bs ≡ be 4 h.payload_length)
      × (slice 12 4 bs ≡ be 4 h.padding)
unfolding be slice
slices h rest = (refl, refl, refl, refl, refl, refl)

unpacked :
    (h : FrameHeader) (rest : Bytes) → IsHeader h → unpack (take 16 (header_bytes h ++ rest)) ≡ h
unpacked h rest v =
    let (a, b, c, d, e, f) = slices h rest in
    rw (a, b, c, d, e, f)
      (rw (
        from_be-be 2 h.magic (omega arith),
        from_be-be 1 h.version (omega arith),
        from_be-be 1 h.flags (omega arith),
        from_be-be 4 h.stream_id (omega arith),
        from_be-be 4 h.payload_length (omega arith),
        from_be-be 4 h.padding (omega arith),
      ))

header_is_there : (h : FrameHeader) (rest : Bytes) → 16 ≤ length (header_bytes h ++ rest)
header_is_there h rest = omega (arith, length-append (header_bytes h) rest, length-header_bytes h)

pub from_bytes-header_bytes :
    (h : FrameHeader) (rest : Bytes) → IsHeader h → from_bytes (header_bytes h ++ rest) ≡ ok h
unfolding from_bytes
from_bytes-header_bytes h rest v =
    rw (le→ltb (length (header_bytes h ++ rest)) 16 (header_is_there h rest))
      (rw (unpacked h rest v) (unfold check_magic in ground arith))

-- Parsing a header that was written gives the header back, whatever follows its 16 bytes.
pub from_bytes-to_bytes :
    (h : FrameHeader) (rest : Bytes)
    → IsHeader h
    → (bs : Bytes) × (to_bytes h ≡ ok bs)
      × (length bs ≡ header_size)
      × (from_bytes (bs ++ rest) ≡ ok h)
from_bytes-to_bytes h rest v = (
  header_bytes h,
  to_bytes-header_bytes h v,
  length-header_bytes h,
  from_bytes-header_bytes h rest v,
)
