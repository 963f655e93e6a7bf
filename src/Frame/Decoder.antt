-- ===== src/Frame/Decoder.antt =====
-- hmmp/frame.py, class Frame and class FrameDecoder.
use hmmp_python_sdk.Base.{
  ℕ, ◌+◌, Bytes, codes, length, drop, Option, none, some, Result, ok, err, protocol_error, ◌>>=◌,
  ltb, if◌then◌else◌,
}
use hmmp_python_sdk.Codec.Endian.{from_be}
use hmmp_python_sdk.Constants.{header_size}
use hmmp_python_sdk.Frame.Header.{FrameHeader, slice, from_bytes, has_governance}
use hmmp_python_sdk.Frame.Metadata.{Value, Metadata, get, MsgPack}

pub record Frame : Type 0 where
  pub header : FrameHeader
  pub metadata : Metadata
  pub body : Bytes
  pub governance_block : Option Bytes

abbrev pub stream_id : Frame → ℕ
stream_id f = f.header.stream_id

abbrev pub body_type : Frame → Result (Option Value)
body_type f = get f.metadata (codes "body_type")

-- The governance part: the block and the offset behind it.
unfoldable pub decode_block : FrameHeader → Bytes → Result (Option Bytes × ℕ)
decode_block header data' =
    let offset = header_size in
    if has_governance header
    then (if ltb (length data') (offset + 4)
        then err protocol_error
        else let gov_len = from_be (slice offset 4 data') in
          if ltb (length data') (offset + 4 + gov_len)
          then err protocol_error
          else ok (some (slice (offset + 4) gov_len data'), offset + 4 + gov_len))
    else ok (none, offset)

abbrev pub unpacked : Option Metadata → Result Metadata
unpacked none = err protocol_error
unpacked (some m) = ok m

module _ (mp : MsgPack) where
  unfoldable pub decode_rest : FrameHeader → Bytes → Option Bytes → ℕ → Result Frame
  decode_rest header data' block start =
      if ltb (length data') (start + 2)
      then err protocol_error
      else let meta_len = from_be (slice start 2 data') in
        if ltb (length data') (start + 2 + meta_len) then err protocol_error else do
          metadata ← unpacked (mp.unpackb (slice (start + 2) meta_len data'))
          ok (record {
            header = header;
            metadata = metadata;
            body = drop (start + 2 + meta_len) data';
            governance_block = block;
          })

  unfoldable pub decode : Bytes → Result Frame
  decode data' = if ltb (length data') header_size then err protocol_error else do
    header ← from_bytes data'
    (block, start) ← decode_block header data'
    decode_rest header data' block start

  -- Only the payload: metadata and body.
  unfoldable pub decode_payload : Bytes → Result (Metadata × Bytes)
  decode_payload payload =
      if ltb (length payload) 2
      then err protocol_error
      else let meta_len = from_be (slice 0 2 payload) in
        if ltb (length payload) (2 + meta_len) then err protocol_error else do
          metadata ← unpacked (mp.unpackb (slice 2 meta_len payload))
          ok (metadata, drop (2 + meta_len) payload)
