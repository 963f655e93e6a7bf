-- ===== src/Frame/Whole.antt =====
-- A frame that the encoder built is taken apart by the decoder.
use hmmp_python_sdk.Base.{
  ℕ, ◌+◌, ◌^◌, ◌≤◌, ◌<◌, ◌≡◌, refl, ◌∙◌, ◌++◌, append_assoc, Bytes, Text, length, length-append,
  drop, take-append, drop-append, Option, none, some, [], ok, le→ltb, arith,
}
use hmmp_python_sdk.Codec.Endian.{be, pack_be_ok, length-be, from_be-be}
use hmmp_python_sdk.Constants.{header_size}
use hmmp_python_sdk.Frame.Header.{FrameHeader, slice, from_bytes, has_governance}
use hmmp_python_sdk.Frame.Metadata.{Metadata, dict, MsgPack}
use hmmp_python_sdk.Frame.Encoder.{
  Request, block_of, block_size, block_bytes, is_some, meta_of, header_of, encode,
}
use hmmp_python_sdk.Frame.Decoder.{Frame, decode_block, decode_rest, decode}
use hmmp_python_sdk.Frame.RoundTrip.{
  header_bytes, IsHeader, to_bytes-header_bytes, length-header_bytes, from_bytes-header_bytes,
}
use hmmp_python_sdk.Frame.Flags.{frame_flags_lem}

pub slice-append :
    (start n : ℕ) (front xs back : Bytes)
    → length front ≡ start
    → length xs ≡ n
    → slice start n (front ++ (xs ++ back)) ≡ xs
unfolding slice
slice-append start n front xs back hs hn = rw (← hs, ← hn) (rw (drop-append, take-append))

drop-append_eq : (n : ℕ) (front back : Bytes) → length front ≡ n → drop n (front ++ back) ≡ back
drop-append_eq n front back h = rw (← h) (drop-append front back)

module _ (front size meta body : Bytes) (start : ℕ) (hs : length front ≡ start) where
  payload_slice :
      length size ≡ 2 → slice (start + 2) (length meta) (front ++ (size ++ (meta ++ body))) ≡ meta
  payload_slice h = rw (← append_assoc front size (meta ++ body)) (
      slice-append (start + 2) (length meta) (front ++ size) meta body
        (omega (arith, length-append front size)) refl)

  payload_drop :
      length size ≡ 2 → drop (start + 2 + length meta) (front ++ (size ++ (meta ++ body))) ≡ body
  payload_drop h =
      rw (← append_assoc front size (meta ++ body), ← append_assoc (front ++ size) meta body)
        (drop-append_eq (start + 2 + length meta) ((front ++ size) ++ meta) body
          (omega (arith, length-append (front ++ size) meta, length-append front size)))

  payload_length :
      length size ≡ 2
      → length (front ++ (size ++ (meta ++ body))) ≡ start + 2 + length meta + length body
  payload_length h = omega (
    arith,
    length-append front (size ++ (meta ++ body)),
    length-append size (meta ++ body),
    length-append meta body,
  )

module _ (mp : MsgPack) (header : FrameHeader) (block : Option Bytes) where
  -- The payload, from the offset at which it begins.
  decode_rest-payload :
      (front meta body : Bytes) (start : ℕ) (m : Metadata)
      → length front ≡ start
      → length meta < 65536
      → mp.unpackb meta ≡ some m
      → decode_rest mp header (front ++ (be 2 (length meta) ++ (meta ++ body))) block start
        ≡ ok (record { header = header; metadata = m; body = body; governance_block = block })
  unfolding decode_rest
  decode_rest-payload front meta body start m hs fits um =
      let size = be 2 (length meta) in
      ground (
        arith,
        slice-append start 2 front size (meta ++ body) hs (length-be 2 (length meta)),
        from_be-be 2 (length meta) (omega arith),
        payload_slice front size meta body start hs (length-be 2 (length meta)),
        payload_drop front size meta body start hs (length-be 2 (length meta)),
        payload_length front size meta body start hs (length-be 2 (length meta)),
      )

abbrev pub block_layout : Option Bytes → Bytes
block_layout none = []
block_layout (some b) = be 4 (length b) ++ b

-- The governance part, between a header of 16 bytes and the payload.
decode_block-layout :
    (header : FrameHeader) (front payload : Bytes) (block : Option Bytes)
    → length front ≡ header_size
    → block_size block < 2 ^ 32
    → has_governance header ≡ is_some block
    → decode_block header (front ++ (block_layout block ++ payload))
      ≡ ok (block, header_size + length (block_layout block))
unfolding decode_block
decode_block-layout header front payload none hs fits g = rw g
decode_block-layout header front payload (some b) hs fits g =
    let size = be 4 (length b) in
    rw g (
      rw (append_assoc size b payload) (
        ground (
          arith,
          slice-append header_size 4 front size (b ++ payload) hs (length-be 4 (length b)),
          from_be-be 4 (length b) (omega arith),
          slice-append (header_size + 4) (length b) (front ++ size) b payload
              (omega (arith, length-append front size, length-be 4 (length b))) refl,
          append_assoc front size (b ++ payload),
          length-append front (size ++ (b ++ payload)),
          length-append size (b ++ payload),
          length-append b payload,
          length-append size b,
          length-be 4 (length b),
        )))

block_bytes-layout :
    (block : Option Bytes) → block_size block < 2 ^ 32 → block_bytes block ≡ ok (block_layout block)
unfolding block_bytes
block_bytes-layout none fits = refl
block_bytes-layout (some b) fits = rw (pack_be_ok 4 (length b) (omega arith))

-- The frame that the decoder returns for a request whose metadata packs to `meta`.
abbrev pub frame_of : Text → Request → Bytes → Frame
frame_of client_version r meta = record {
  header = header_of r (be 2 (length meta) ++ (meta ++ r.body));
  metadata = dict (meta_of client_version r);
  body = r.body;
  governance_block = block_of r.governance_block;
}

module _ (mp : MsgPack) (client_version : Text) (r : Request) (meta : Bytes)
    (packed : mp.packb (meta_of client_version r) ≡ ok meta) (meta_fits : length meta < 65536)
    (flags_fit : r.flags < 128) (stream_fits : r.stream_id < 2 ^ 32)
    (payload_fits : 2 + length meta + length r.body + block_size (block_of r.governance_block)
      < 2 ^ 32) where
  abbrev pub header : FrameHeader
  header = header_of r (be 2 (length meta) ++ (meta ++ r.body))

  pub header-IsHeader : IsHeader header
  unfolding header_of
  header-IsHeader = record {
    magic = refl;
    version = omega arith;
    flags = (frame_flags_lem r flags_fit).0;
    stream_id = stream_fits;
    payload_length = omega (
      arith,
      length-append (be 2 (length meta)) (meta ++ r.body),
      length-append meta r.body,
      length-be 2 (length meta),
    );
    padding = omega arith;
  }

  abbrev pub layout : Bytes
  layout =
      header_bytes header
      ++ (block_layout (block_of r.governance_block) ++ (be 2 (length meta) ++ (meta ++ r.body)))

  pub encode-layout : encode mp client_version r ≡ ok layout
  unfolding encode
  encode-layout =
      rw (packed, pack_be_ok 2 (length meta) meta_fits)
        (rw (
          to_bytes-header_bytes header header-IsHeader,
          block_bytes-layout (block_of r.governance_block) (omega arith),
        ))

  abbrev pub behind_header : Bytes
  behind_header =
      block_layout (block_of r.governance_block) ++ (be 2 (length meta) ++ (meta ++ r.body))

  header_is_there : header_size ≤ length layout
  header_is_there =
      omega (arith, length-append (header_bytes header) behind_header, length-header_bytes header)

  from_bytes-layout : from_bytes layout ≡ ok header
  from_bytes-layout = from_bytes-header_bytes header behind_header header-IsHeader

  has_block : has_governance header ≡ is_some (block_of r.governance_block)
  unfolding header_of
  has_block = (frame_flags_lem r flags_fit).1

  -- A request whose metadata packs to fewer than 2^16 bytes, whose stream and payload length fit 32
  -- bits, and whose flags are below 128 encodes, and decoding the bytes gives back the stream, the
  -- metadata, the body and the governance block (None if it is empty). Flags below 128 are those without
  -- the governance bit, 0x80, which the encoder sets by itself where there is a block; a caller who sets
  -- it is not covered.
  pub decode-encode :
      (bs : Bytes) × (encode mp client_version r ≡ ok bs)
      × (decode mp bs ≡ ok (frame_of client_version r meta))
  unfolding decode
  decode-encode = (
    layout,
    encode-layout,
    rw (le→ltb (length layout) header_size header_is_there) (
        rw from_bytes-layout (
          rw
            (decode_block-layout header _ _ (block_of r.governance_block)
              (length-header_bytes header) (omega arith) has_block)
            (rw
              (← append_assoc (header_bytes header) (block_layout (block_of r.governance_block))
                (be 2 (length meta) ++ (meta ++ r.body)))
              (decode_rest-payload mp header (block_of r.governance_block)
                (header_bytes header ++ block_layout (block_of r.governance_block)) meta r.body _ _
                (length-append (header_bytes header) _ ∙ omega (arith, length-header_bytes header))
                meta_fits (mp.unpackb-packb _ _ packed))))),
  )
