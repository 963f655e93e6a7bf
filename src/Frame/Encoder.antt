-- ===== src/Frame/Encoder.antt =====
-- hmmp/frame.py, class FrameEncoder.
use Prim.Native.Nat.{bit_or}
use hmmp_python_sdk.Base.{
  ℕ, ◌+◌, ◌++◌, Bytes, Text, codes, length, Bool, true, false, Option, none, some, [], ◌∷◌, Result,
  ok, ◌>>=◌, if◌then◌else◌,
}
use hmmp_python_sdk.Base.Dict.{Dict}
use hmmp_python_sdk.Codec.Endian.{pack_be}
use hmmp_python_sdk.Constants.{magic_number, protocol_version}
use hmmp_python_sdk.Constants.Flag
use hmmp_python_sdk.Frame.Header.{FrameHeader, to_bytes}
use hmmp_python_sdk.Frame.Metadata.{Value, num, text, update, MsgPack}

-- The arguments of `encode`; a metadata argument of None is the empty dict.
pub record Request : Type 0 where
  pub opcode : ℕ
  pub body : Bytes
  pub stream_id : ℕ
  pub is_request : Bool
  pub metadata : Dict Text Value
  pub flags : ℕ
  pub governance_block : Option Bytes

-- `if governance_block:` asks for a block that is there and not empty.
abbrev pub block_of : Option Bytes → Option Bytes
block_of none = none
block_of (some []) = none
block_of (some (b ∷ bs)) = some (b ∷ bs)

abbrev pub is_some {ℓ} : {A : Type ℓ} → Option A → Bool
is_some none = false
is_some (some a) = true

unfoldable pub meta_of : Text → Request → Dict Text Value
meta_of client_version r =
    update ((codes "body_type", num r.opcode) ∷ (codes "client_version", text client_version) ∷ [])
      r.metadata

unfoldable pub frame_flags : Request → ℕ
frame_flags r =
    let requested = if r.is_request then bit_or r.flags Flag.request else r.flags in
    if is_some (block_of r.governance_block) then bit_or requested Flag.governance else requested

abbrev pub block_size : Option Bytes → ℕ
block_size none = 0
block_size (some b) = length b + 4

unfoldable pub block_bytes : Option Bytes → Result Bytes
block_bytes none = ok []
block_bytes (some b) = do size ← pack_be 4 (length b); ok (size ++ b)

unfoldable pub header_of : Request → Bytes → FrameHeader
header_of r payload = record {
  magic = magic_number;
  version = protocol_version;
  flags = frame_flags r;
  stream_id = r.stream_id;
  payload_length = length payload + block_size (block_of r.governance_block);
  padding = 0;
}

unfoldable pub encode : MsgPack → Text → Request → Result Bytes
encode mp client_version r = do
  meta_bytes ← mp.packb (meta_of client_version r)
  meta_length ← pack_be 2 (length meta_bytes)
  let payload = meta_length ++ (meta_bytes ++ r.body)
  header ← to_bytes (header_of r payload)
  block ← block_bytes (block_of r.governance_block)
  ok (header ++ (block ++ payload))
