-- ===== src/Tests/Connection.antt =====
-- Concrete inputs for the theorems on hmmp/connection.py.
use hmmp_python_sdk.Base.{
  ◌+◌, ◌%◌, ◌≤◌, ◌≡◌, ℕ, zero, suc, refl, [], ◌∷◌, ◌++◌, Bytes, take, drop, some, Result, ok, err,
  attribute_error, arith,
}
use hmmp_python_sdk.Codec.Endian.{from_be}
use hmmp_python_sdk.Frame.Header.{slice, check_magic, from_bytes}
use hmmp_python_sdk.Frame.Encoder.{encode}
use hmmp_python_sdk.Frame.Decoder.{Frame}
use hmmp_python_sdk.Frame.Whole.{frame_of}
use hmmp_python_sdk.Connection.Stream.{
  Connection, authenticated, closes, max_stream_id, is_connected, next_stream_id, read_frame_loop,
}
use hmmp_python_sdk.Connection.Framing.{
  IsFrame, no_more, one_more, handled, left_in, read_frame_loop-AreFrames,
}
use hmmp_python_sdk.Connection.Encoded.{encode-IsFrame}
use hmmp_python_sdk.Connection.StreamIds.{after, stream_id_eq}
use hmmp_python_sdk.Tests.Frame.{
  small, ping, version_text, ping_packed_as, ping_packed, plain, plain_frame, plain_decoded,
}

plain-IsFrame : IsFrame small plain_frame plain
unfolding from_bytes check_magic from_be slice
plain-IsFrame = record {
  header = take 16 plain;
  rest = drop 16 plain;
  parts = refl;
  header_fits = refl;
  header_parses = refl;
  size = refl;
  decodes = plain_decoded;
}

abbrev online : Connection
online = record {
  state = authenticated;
  stream_id_counter = 0;
  reader = some (plain ++ (plain ++ []));
  ends = closes;
}

-- A handler that counts the frames, and raises at the second.
abbrev counting : Frame → ℕ → ℕ × Result (Unit {0})
counting f zero = (1, ok tt)
counting f (suc n) = (suc (suc n), err attribute_error)

read_frame_loop-AreFrames_example :
    let (n, raised) = handled small counting (plain_frame ∷ plain_frame ∷ []) 0 in
    (d : Connection) × (read_frame_loop small counting 3 online 0 ≡ some (d, n))
    × (d.state ≡ left_in small raised authenticated)
read_frame_loop-AreFrames_example =
    read_frame_loop-AreFrames small counting (plain_frame ∷ plain_frame ∷ [])
      (plain ++ (plain ++ [])) online 0 3 (one_more plain-IsFrame (one_more plain-IsFrame no_more))
      (unfold is_connected in refl) refl refl (omega arith)

encode-IsFrame_example :
    (bs : Bytes) × (encode small version_text ping ≡ ok bs)
    × IsFrame small (frame_of version_text ping ping_packed_as) bs
encode-IsFrame_example =
    encode-IsFrame small version_text ping ping_packed_as ping_packed (omega arith) (omega arith)
      (omega arith) (omega arith)

stream_id_eq_example :
    ((next_stream_id (after 3 online)).1 ≡ 3 % max_stream_id + 1)
    × (1 ≤ (next_stream_id (after 3 online)).1)
    × ((next_stream_id (after 3 online)).1 ≤ max_stream_id)
stream_id_eq_example = stream_id_eq 3 online refl
