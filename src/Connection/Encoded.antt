-- ===== src/Connection/Encoded.antt =====
-- What the encoder returns is one whole frame for the reader of a connection.
use hmmp_python_sdk.Base.{
  ◌+◌, ◌^◌, ◌<◌, ◌≡◌, refl, ap, ◌∙◌, sym, [], ◌++◌, append-nil, Bytes, Text, length, length-append,
  Option, none, some, Result, ok, arith,
}
use hmmp_python_sdk.Codec.Endian.{be, length-be}
use hmmp_python_sdk.Frame.Header.{FrameHeader, from_bytes}
use hmmp_python_sdk.Frame.Metadata.{MsgPack}
use hmmp_python_sdk.Frame.Encoder.{Request, block_of, block_size, meta_of, header_of, encode}
use hmmp_python_sdk.Frame.RoundTrip.{header_bytes, length-header_bytes, from_bytes-header_bytes}
use hmmp_python_sdk.Frame.Whole.{
  frame_of, layout, block_layout, header-IsHeader, encode-layout, decode-encode,
}
use hmmp_python_sdk.Connection.Framing.{IsFrame}

ok_injective : {a b : Bytes} → Path (Result Bytes) (ok a) (ok b) → a ≡ b
ok_injective e = cc

length-block_layout : (o : Option Bytes) → length (block_layout o) ≡ block_size o
length-block_layout none = refl
length-block_layout (some b) =
    omega (arith, length-append (be 4 (length b)) b, length-be 4 (length b))

module _ (mp : MsgPack) (client_version : Text) (r : Request) (meta : Bytes)
    (packed : mp.packb (meta_of client_version r) ≡ ok meta) (meta_fits : length meta < 65536)
    (flags_fit : r.flags < 128) (stream_fits : r.stream_id < 2 ^ 32)
    (payload_fits : 2 + length meta + length r.body + block_size (block_of r.governance_block)
      < 2 ^ 32) where
  abbrev head : FrameHeader
  head = header_of r (be 2 (length meta) ++ (meta ++ r.body))

  abbrev behind : Bytes
  behind = block_layout (block_of r.governance_block) ++ (be 2 (length meta) ++ (meta ++ r.body))

  size : length behind ≡ head.payload_length
  unfolding header_of
  size = omega (
    arith,
    length-append (block_layout (block_of r.governance_block))
        (be 2 (length meta) ++ (meta ++ r.body)),
    length-block_layout (block_of r.governance_block),
  )

  head_parses : from_bytes (header_bytes head) ≡ ok head
  head_parses =
      ap from_bytes (sym (append-nil (header_bytes head)))
      ∙ from_bytes-header_bytes head [] (
          header-IsHeader mp client_version r meta packed meta_fits flags_fit stream_fits
            payload_fits)

  -- A request whose metadata packs to fewer than 2^16 bytes, whose stream and payload length fit 32
  -- bits, and whose flags are below 128 (so that the governance bit is not among them) encodes to the
  -- bytes of one whole frame: the header's payload_length is the number of bytes behind the header, and
  -- the bytes decode to the request.
  pub encode-IsFrame :
      (bs : Bytes) × (encode mp client_version r ≡ ok bs)
      × IsFrame mp (frame_of client_version r meta) bs
  encode-IsFrame =
      let (bs, e, d) =
        decode-encode mp client_version r meta packed meta_fits flags_fit stream_fits
          payload_fits in
      let same : layout mp client_version r meta packed meta_fits flags_fit stream_fits payload_fits
          ≡ bs =
        ok_injective (
          sym (
            encode-layout mp client_version r meta packed meta_fits flags_fit stream_fits
              payload_fits)
          ∙ e) in
      (
        bs,
        e,
        record {
          header = header_bytes head;
          rest = behind;
          parts = sym same;
          header_fits = length-header_bytes head;
          header_parses = head_parses;
          size = size;
          decodes = d;
        },
      )
