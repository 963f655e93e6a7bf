-- ===== src/Frame/Trailing.antt =====
-- What the decoder does with bytes behind the payload, and how it fails.
use hmmp_python_sdk.Base.{
  ℕ, zero, suc, ◌+◌, ◌≤◌, ◌≡◌, refl, ap, length-drop, [], ◌∷◌, ◌++◌, Bytes, length, length-append,
  take, drop, Option, none, Raised, ok, err, protocol_error, arith, false, Result-cases, inl, inr,
}
use hmmp_python_sdk.Codec.Endian.{from_be}
use hmmp_python_sdk.Constants.{header_size}
use hmmp_python_sdk.Frame.Header.{FrameHeader, slice, check_magic, from_bytes, has_governance}
use hmmp_python_sdk.Frame.Metadata.{MsgPack}
use hmmp_python_sdk.Frame.Decoder.{Frame, decode_block, decode_rest, decode, decode_payload}

-- Whatever the bytes, the decoder raises no exception but ProtocolError.
pub decode_raises :
    (mp : MsgPack) (data' : Bytes) (e : Raised) → decode mp data' ≡ err e → e ≡ protocol_error
unfolding decode decode_block decode_rest from_bytes check_magic
decode_raises mp data' e h = ground arith

drop-append_within :
    (n : ℕ) (xs extra : Bytes) → n ≤ length xs → drop n (xs ++ extra) ≡ drop n xs ++ extra
drop-append_within zero xs extra h = refl
drop-append_within (suc n) [] extra h = absurd (omega arith)
drop-append_within (suc n) (x ∷ xs) extra h = drop-append_within n xs extra (omega arith)

take-append_within : (n : ℕ) (xs extra : Bytes) → n ≤ length xs → take n (xs ++ extra) ≡ take n xs
take-append_within zero xs extra h = refl
take-append_within (suc n) [] extra h = absurd (omega arith)
take-append_within (suc n) (x ∷ xs) extra h =
    ap (λ t. x ∷ t) (take-append_within n xs extra (omega arith))

slice-append_within :
    (start n : ℕ) (xs extra : Bytes)
    → start + n ≤ length xs
    → slice start n (xs ++ extra) ≡ slice start n xs
unfolding slice
slice-append_within zero n xs extra h = take-append_within n xs extra (omega arith)
slice-append_within (suc start) n [] extra h = absurd (omega arith)
slice-append_within (suc start) n (x ∷ xs) extra h =
    slice-append_within start n xs extra (omega arith)

module _ (data' extra : Bytes) where
  from_bytes-append :
      (h : FrameHeader) → from_bytes data' ≡ ok h → from_bytes (data' ++ extra) ≡ ok h
  unfolding from_bytes
  from_bytes-append h e =
      ground (arith, length-append data' extra, take-append_within header_size data' extra)

  decode_block-append :
      (h : FrameHeader) (block : Option Bytes) (start : ℕ)
      → decode_block h data' ≡ ok (block, start)
      → decode_block h (data' ++ extra) ≡ ok (block, start)
  unfolding decode_block
  decode_block-append h block start e = ground (
    arith,
    length-append data' extra,
    slice-append_within header_size 4 data' extra,
    slice-append_within (header_size + 4) (from_be (slice header_size 4 data')) data' extra,
  )

  decode_rest-append :
      (mp : MsgPack) (h : FrameHeader) (block : Option Bytes) (start : ℕ) (f : Frame)
      → decode_rest mp h data' block start ≡ ok f
      → decode_rest mp h (data' ++ extra) block start ≡ ok (record f { body = f.body ++ extra })
  unfolding decode_rest
  decode_rest-append mp h block start f e = ground (
    arith,
    length-append data' extra,
    slice-append_within start 2 data' extra,
    slice-append_within (start + 2) (from_be (slice start 2 data')) data' extra,
    drop-append_within (start + 2 + from_be (slice start 2 data')) data' extra,
  )

-- The decoder does not look at the header's payload_length: bytes added behind a frame that it
-- accepts become the end of the body, and all else of the frame stays.
pub decode-append :
    (mp : MsgPack) (data' extra : Bytes) (f : Frame)
    → decode mp data' ≡ ok f
    → decode mp (data' ++ extra) ≡ ok (record f { body = f.body ++ extra })
unfolding decode
decode-append mp data' extra f e = elim (Result-cases (from_bytes data')) [
  | inl (h, eh) ↦ elim (Result-cases (decode_block h data')) [
    | inl ((block, start), eb) ↦ ground (
      arith,
      length-append data' extra,
      from_bytes-append data' extra h eh,
      decode_block-append data' extra h block start eb,
      decode_rest-append data' extra mp h block start f,
    )
    | inr (x, eb) ↦ ground arith
  ]
  | inr (x, eh) ↦ ground arith
]

drop-drop : (m n k : ℕ) (xs : Bytes) → k ≡ m + n → drop n (drop m xs) ≡ drop k xs
drop-drop zero n k xs e = ap (λ j. drop j xs) (omega arith)
drop-drop (suc m) n zero xs e = absurd (omega arith)
drop-drop (suc m) zero (suc k) [] e = refl
drop-drop (suc m) (suc n) (suc k) [] e = refl
drop-drop (suc m) n (suc k) (x ∷ xs) e = drop-drop m n k xs (omega arith)

slice-drop : (m start n : ℕ) (xs : Bytes) → slice start n (drop m xs) ≡ slice (m + start) n xs
unfolding slice
slice-drop m start n xs = ap (take n) (drop-drop m start (m + start) xs refl)

payload_of_rest :
    (mp : MsgPack) (h : FrameHeader) (data' : Bytes) (block : Option Bytes) (f : Frame)
    → decode_rest mp h data' block header_size ≡ ok f
    → decode_payload mp (drop header_size data') ≡ ok (f.metadata, f.body)
unfolding decode_rest decode_payload
payload_of_rest mp h data' block f e = ground (
  arith,
  length-drop header_size data',
  slice-drop header_size 0 2 data',
  slice-drop header_size 2 (from_be (slice header_size 2 data')) data',
  drop-drop header_size (2 + from_be (slice header_size 2 data')) _ data' refl,
)

header_of_rest :
    (mp : MsgPack) (h : FrameHeader) (data' : Bytes) (block : Option Bytes) (start : ℕ) (f : Frame)
    → decode_rest mp h data' block start ≡ ok f
    → f.header ≡ h
unfolding decode_rest
header_of_rest mp h data' block start f e = ground arith

no_block :
    (h : FrameHeader) (data' : Bytes)
    → has_governance h ≡ false
    → decode_block h data' ≡ ok (none, header_size)
unfolding decode_block
no_block h data' g = rw g

-- On a frame with no governance block, decoding the payload alone gives the same metadata and body
-- as decoding the whole frame.
pub decode_payload-drop :
    (mp : MsgPack) (data' : Bytes) (f : Frame)
    → decode mp data' ≡ ok f
    → has_governance f.header ≡ false
    → decode_payload mp (drop header_size data') ≡ ok (f.metadata, f.body)
unfolding decode
decode_payload-drop mp data' f e g = elim (Result-cases (from_bytes data')) [
  | inl (h, eh) ↦ elim (Result-cases (decode_block h data')) [
    | inl ((block, start), eb) ↦ ground (
      arith,
      header_of_rest mp h data' block start f,
      no_block h data',
      payload_of_rest mp h data' none f,
    )
    | inr (x, eb) ↦ ground arith
  ]
  | inr (x, eh) ↦ ground arith
]
