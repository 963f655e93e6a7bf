-- ===== src/Frame/Header.antt =====
-- hmmp/frame.py, class FrameHeader.
use Prim.Native.Nat.{bit_and}
use hmmp_python_sdk.Base.{
  ℕ, ◌++◌, Bytes, length, take, drop, Bool, not, Result, ok, err, protocol_error, ◌>>=◌, ltb, ◌==◌,
  if◌then◌else◌,
}
use hmmp_python_sdk.Codec.Endian.{from_be, pack_be}
use hmmp_python_sdk.Constants.{magic_number, header_size}
use hmmp_python_sdk.Constants.Flag

pub record FrameHeader : Type 0 where
  pub magic : ℕ
  pub version : ℕ
  pub flags : ℕ
  pub stream_id : ℕ
  pub payload_length : ℕ
  pub padding : ℕ

-- `data[start:start + n]`
unfoldable pub slice : ℕ → ℕ → Bytes → Bytes
slice start n data' = take n (drop start data')

-- `struct.pack("!HBBIII", …)`
unfoldable pub to_bytes : FrameHeader → Result Bytes
to_bytes h = do
  magic ← pack_be 2 h.magic
  version ← pack_be 1 h.version
  flags ← pack_be 1 h.flags
  stream_id ← pack_be 4 h.stream_id
  payload_length ← pack_be 4 h.payload_length
  padding ← pack_be 4 h.padding
  ok (magic ++ (version ++ (flags ++ (stream_id ++ (payload_length ++ padding)))))

-- `struct.unpack("!HBBIII", data[:HEADER_SIZE])`
abbrev pub unpack : Bytes → FrameHeader
unpack data' = record {
  magic = from_be (slice 0 2 data');
  version = from_be (slice 2 1 data');
  flags = from_be (slice 3 1 data');
  stream_id = from_be (slice 4 4 data');
  payload_length = from_be (slice 8 4 data');
  padding = from_be (slice 12 4 data');
}

unfoldable pub check_magic : FrameHeader → Result FrameHeader
check_magic header = if header.magic == magic_number then ok header else err protocol_error

unfoldable pub from_bytes : Bytes → Result FrameHeader
from_bytes data' =
    if ltb (length data') header_size
    then err protocol_error
    else check_magic (unpack (take header_size data'))

-- `bool(flags & mask)`
unfoldable pub has_flag : ℕ → ℕ → Bool
has_flag flags mask = not (bit_and flags mask == 0)

abbrev pub is_request : FrameHeader → Bool
is_request h = has_flag h.flags Flag.request

abbrev pub is_compressed : FrameHeader → Bool
is_compressed h = has_flag h.flags Flag.compression

abbrev pub has_backpressure : FrameHeader → Bool
has_backpressure h = has_flag h.flags Flag.backpressure

abbrev pub is_redirect : FrameHeader → Bool
is_redirect h = has_flag h.flags Flag.redirect

abbrev pub is_encrypted : FrameHeader → Bool
is_encrypted h = has_flag h.flags Flag.encrypted

abbrev pub is_probing : FrameHeader → Bool
is_probing h = has_flag h.flags Flag.probing

abbrev pub has_governance : FrameHeader → Bool
has_governance h = has_flag h.flags Flag.governance
