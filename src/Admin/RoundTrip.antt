-- ===== src/Admin/RoundTrip.antt =====
-- What a server reads from the requests about credentials, and what the client makes of its answers.
use hmmp_python_sdk.Base.{
  ℕ, ◌<◌, ◌≡◌, ◌∙◌, refl, ap, [], ◌++◌, append_assoc, Bytes, Text, length, Bool, Option, none, some,
  Result, ok, ◌==◌, if◌then◌else◌, arith,
}
use hmmp_python_sdk.Base.{◌>>=◌ as and_then}
use hmmp_python_sdk.Constants.OpCode
use hmmp_python_sdk.Codec.Endian.{be}
use hmmp_python_sdk.Codec.Utf8.{encode, decode-encode_ok}
use hmmp_python_sdk.Codec.Writer.{write_u8, write_string_u16}
use hmmp_python_sdk.Codec.Reader.{Read, ◌>>=◌, pure, read_u8, read_u16, read_string_u16}
use hmmp_python_sdk.Codec.RoundTrip.{read_uint-be, write_string_u16_eq, read_string_u16-field}
use hmmp_python_sdk.Models.Instance.{flag_byte}
use hmmp_python_sdk.Models.Laws.Snapshots.{flag_byte-eq}
use hmmp_python_sdk.Admin.Credentials.{
  write_optional, write_optional_flag, update_bytes, update_credential,
}
use native.Mathlib.Nat.{mod-eq_of_lt}

-- A text whose encoding a long field holds.
abbrev pub Fits : Text → Type 0
Fits s = (bs : Bytes) × (encode s ≡ ok bs) × (length bs < 65536)

abbrev pub FitsIfThere : Option Text → Type 0
FitsIfThere none = Unit
FitsIfThere (some s) = Fits s

-- What an operation writes behind any buffer, and that a reader gets a value back from it.
abbrev IsRead : {A : Type 0} → Read A → A → Bytes → Type 0
IsRead read a out = (rest : Bytes) → read (out ++ rest) ≡ (ok a, rest)

string_field :
    (s : Text)
    → Fits s
    → (out : Bytes) × ((w : Bytes) → write_string_u16 w s ≡ ok (w ++ out))
      × IsRead read_string_u16 s out
string_field s (bs, e, fits) = (
  be 2 (length bs) ++ bs,
  (λ w.
      write_string_u16_eq s bs e w
      ∙ rw (mod-eq_of_lt fits) (ap ok (append_assoc w (be 2 (length bs)) bs))),
  (λ rest. rw append_assoc (read_string_u16-field s bs (decode-encode_ok s bs e) rest fits)),
)

-- The server's view of an optional field: a flag, and the field where the flag is 1.
abbrev pub read_if_there {ℓ} : {A : Type ℓ} → Read A → Read (Option A)
read_if_there read = do
  there ← read_u8
  if there == 1 then (do a ← read; pure (some a)) else pure none

abbrev pub read_flag : Read Bool
read_flag = do b ← read_u8; pure (b == 1)

-- The server's view of an update.
abbrev pub read_update : Read (Text × Option Text × Option Text × Option Text × Option Bool)
read_update = do
  client_id ← read_string_u16
  secret ← read_if_there read_string_u16
  tenant ← read_if_there read_string_u16
  node_type ← read_if_there read_string_u16
  enabled ← read_if_there read_flag
  pure (client_id, secret, tenant, node_type, enabled)

optional_field :
    (o : Option Text)
    → FitsIfThere o
    → (out : Bytes) × ((w : Bytes) → write_optional w o ≡ ok (w ++ out))
      × IsRead (read_if_there read_string_u16) o out
unfolding write_u8
optional_field none h =
    (be 1 0, (λ w. refl), (λ rest. rw (read_uint-be 1 0 rest (omega arith)) refl))
optional_field (some s) h =
    let (out, written, back) = string_field s h in
    (
      be 1 1 ++ out,
      (λ w. written (w ++ be 1 1) ∙ ap ok (append_assoc w (be 1 1) out)),
      (λ rest. rw append_assoc (rw (read_uint-be 1 1 (out ++ rest) (omega arith), back rest) refl)),
    )

optional_flag :
    (o : Option Bool)
    → (out : Bytes) × ((w : Bytes) → write_optional_flag w o ≡ w ++ out)
      × IsRead (read_if_there read_flag) o out
unfolding write_u8
optional_flag none = (be 1 0, (λ w. refl), (λ rest. rw (read_uint-be 1 0 rest (omega arith)) refl))
optional_flag (some b) =
    let (flag_back, flag_fits) = flag_byte-eq b in
    (
      be 1 1 ++ be 1 (flag_byte b),
      (λ w. rw (mod-eq_of_lt flag_fits) (append_assoc w (be 1 1) (be 1 (flag_byte b)))),
      (λ rest. rw append_assoc (
          rw
            (
              read_uint-be 1 1 (be 1 (flag_byte b) ++ rest) (omega arith),
              read_uint-be 1 (flag_byte b) rest flag_fits,
              flag_back,
            )
            refl)),
    )

module _ (send : ℕ → Bytes → Result Bytes) (client_id : Text)
    (secret tenant node_type : Option Text) (enabled : Option Bool) (rest : Bytes) where
  -- Updating a credential sends one body under the update's op code and returns the status that the
  -- server answers. A server that reads the body gets the client's name and each optional field as it
  -- was given: None is told apart from a value, and from the empty text. Every text is one whose
  -- encoding has at most 65535 bytes.
  pub update_round_trip :
      Fits client_id
      → FitsIfThere secret
      → FitsIfThere tenant
      → FitsIfThere node_type
      → (body : Bytes) × (update_credential send client_id secret tenant node_type enabled
          ≡ and_then
              (send OpCode.admin_update_credential_req body)
              (λ response. (read_u16 response).0))
        × (read_update (body ++ rest) ≡ (ok (client_id, secret, tenant, node_type, enabled), rest))
  unfolding update_credential update_bytes
  update_round_trip h1 h2 h3 h4 =
      let (o1, w1, r1) = string_field client_id h1 in
      let (o2, w2, r2) = optional_field secret h2 in
      let (o3, w3, r3) = optional_field tenant h3 in
      let (o4, w4, r4) = optional_field node_type h4 in
      let (o5, w5, r5) = optional_flag enabled in
      (
        o1 ++ (o2 ++ (o3 ++ (o4 ++ o5))),
        rw (w1 [], w2 o1, w3 (o1 ++ o2), w4 ((o1 ++ o2) ++ o3), w5 (((o1 ++ o2) ++ o3) ++ o4))
            (ap
              (λ b.
                and_then (send OpCode.admin_update_credential_req b)
                  (λ response. (read_u16 response).0))
              (simp append_assoc)),
        simp append_assoc (rw (r1, r2, r3, r4, r5) refl),
      )
