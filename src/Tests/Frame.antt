-- ===== src/Tests/Frame.antt =====
-- Concrete inputs for the theorems on hmmp/frame.py.
use hmmp_python_sdk.Base.{
  ◌≡◌, refl, ◌++◌, [], ◌∷◌, Bytes, Text, codes, length, take, drop, take-append, drop-append, true,
  Option, none, some, Result, ok, err, protocol_error, value_error, arith,
}
use hmmp_python_sdk.Base.Dict.{Dict}
use hmmp_python_sdk.Codec.Endian.{from_be}
use hmmp_python_sdk.Frame.Header.{slice, check_magic, FrameHeader, from_bytes, has_flag}
use hmmp_python_sdk.Frame.Metadata.{
  Value, null, num, text, flag, bin, texts, labels, Metadata, dict, update, MsgPack,
}
use hmmp_python_sdk.Frame.Encoder.{Request, meta_of, encode}
use hmmp_python_sdk.Frame.Decoder.{Frame, decode_block, decode_rest, decode}
use hmmp_python_sdk.Frame.Whole.{frame_of, decode-encode}
use hmmp_python_sdk.Frame.Trailing.{decode-append}

-- A packing of the dicts that hold one number and one text, in this order.
pack_two : Text → Text → Value → Value → Result Bytes
pack_two k j (num n) (text t) = ok (n ∷ length k ∷ length j ∷ (k ++ (j ++ t)))
pack_two k j (num n) null = err value_error
pack_two k j (num n) (num m) = err value_error
pack_two k j (num n) (flag b) = err value_error
pack_two k j (num n) (bin b) = err value_error
pack_two k j (num n) (texts b) = err value_error
pack_two k j (num n) (labels b) = err value_error
pack_two k j null w = err value_error
pack_two k j (text t) w = err value_error
pack_two k j (flag b) w = err value_error
pack_two k j (bin b) w = err value_error
pack_two k j (texts b) w = err value_error
pack_two k j (labels b) w = err value_error

unfoldable pub small_packb : Dict Text Value → Result Bytes
unfolding pack_two
small_packb [] = err value_error
small_packb (e ∷ []) = err value_error
small_packb ((k, v) ∷ (j, w) ∷ []) = pack_two k j v w
small_packb (e ∷ f ∷ g ∷ d) = err value_error

unfoldable pub small_unpackb : Bytes → Option Metadata
small_unpackb (n ∷ k ∷ j ∷ rest) =
    some (dict ((take k rest, num n) ∷ (take j (drop k rest), text (drop j (drop k rest))) ∷ []))
small_unpackb _ = none

pub small_round_trip :
    (d : Dict Text Value) (b : Bytes) → small_packb d ≡ ok b → small_unpackb b ≡ some (dict d)
unfolding small_packb small_unpackb
small_round_trip [] b h = absurd (cc)
small_round_trip (e ∷ []) b h = absurd (cc)
small_round_trip ((k, v) ∷ (j, w) ∷ []) b h = two k j v w b h
  where
    two :
        (k j : Text) (v w : Value) (b : Bytes)
        → pack_two k j v w ≡ ok b
        → small_unpackb b ≡ some (dict ((k, v) ∷ (j, w) ∷ []))
    two k j (num n) (text t) b h =
        rw (← ok_injective h) (rw (take-append, drop-append) (rw (take-append, drop-append) refl))
      where
        ok_injective : {x y : Bytes} → Path (Result Bytes) (ok x) (ok y) → x ≡ y
        ok_injective e = cc
    two k j v w b h = absurd (cc)
small_round_trip (e ∷ f ∷ g ∷ d) b h = absurd (cc)

abbrev pub small : MsgPack
small = record { packb = small_packb; unpackb = small_unpackb; unpackb-packb = small_round_trip }

abbrev pub ping : Request
ping = record {
  opcode = 0x0501;
  body = 5 ∷ 6 ∷ [];
  stream_id = 3;
  is_request = true;
  metadata = [];
  flags = 0;
  governance_block = some (1 ∷ 0 ∷ 0 ∷ []);
}

abbrev pub version_text : Text
version_text = codes "1.0"

abbrev ping_meta : Dict Text Value
ping_meta = (codes "body_type", num 0x0501) ∷ (codes "client_version", text version_text) ∷ []

abbrev pub ping_packed_as : Bytes
ping_packed_as = 0x0501 ∷ 9 ∷ 14 ∷ (codes "body_type" ++ (codes "client_version" ++ version_text))

pub ping_packed : small.packb (meta_of version_text ping) ≡ ok ping_packed_as
unfolding meta_of small_packb update
ping_packed = refl

decode-encode_example :
    (bs : Bytes) × (encode small version_text ping ≡ ok bs)
    × (decode small bs ≡ ok (frame_of version_text ping ping_packed_as))
decode-encode_example =
    decode-encode small version_text ping ping_packed_as ping_packed (omega arith) (omega arith)
      (omega arith) (omega arith)

abbrev pub a_header : FrameHeader
a_header = record {
  magic = 0x5153;
  version = 7;
  flags = 0x01;
  stream_id = 3;
  payload_length = 9;
  padding = 0;
}

short_refused : decode small (1 ∷ []) ≡ err protocol_error
unfolding decode
short_refused = refl

-- A frame with no governance block, its metadata packed by `small`.
abbrev pub plain : Bytes
plain =
    0x51 ∷ 0x53 ∷ 7 ∷ 0x01 ∷ 0 ∷ 0 ∷ 0 ∷ 3 ∷ 0 ∷ 0 ∷ 0 ∷ 9 ∷ 0 ∷ 0 ∷ 0 ∷ 0 ∷ 0 ∷ 5 ∷ 1 ∷ 1 ∷ 1 ∷ 65
    ∷ 66 ∷ 8 ∷ 9 ∷ []

abbrev pub plain_frame : Frame
plain_frame = record {
  header = a_header;
  metadata = dict ((65 ∷ [], num 1) ∷ (66 ∷ [], text []) ∷ []);
  body = 8 ∷ 9 ∷ [];
  governance_block = none;
}

pub plain_decoded : decode small plain ≡ ok plain_frame
unfolding decode from_bytes check_magic from_be slice decode_block has_flag decode_rest
    small_unpackb
plain_decoded = refl

decode-append_example :
    decode small (plain ++ (7 ∷ [])) ≡ ok (record plain_frame { body = 8 ∷ 9 ∷ 7 ∷ [] })
decode-append_example = decode-append small plain (7 ∷ []) plain_frame plain_decoded
