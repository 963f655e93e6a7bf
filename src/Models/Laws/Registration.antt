-- ===== src/Models/Laws/Registration.antt =====
-- A registration body (docs/HMMP-SPECIFICATION.md, RegisterInstanceRequest) and what a reader finds
-- in it.
use hmmp_python_sdk.Base.{
  ℕ, ◌^◌, ◌<◌, ◌≡◌, ap, [], ◌++◌, append_assoc, Bytes, Text, length, Bool, ok, ◌==◌,
}
use hmmp_python_sdk.Codec.Endian.{be}
use hmmp_python_sdk.Codec.Utf8.{encode, decode-encode_ok}
use hmmp_python_sdk.Codec.Writer.{IpType, ip_code, ip_length, write_u8, write_u16}
use hmmp_python_sdk.Codec.Reader.{
  Read, read_u8, read_u16, read_ip, read_string_u16, ip_type_of, lift, pure, ◌>>=◌,
}
use hmmp_python_sdk.Codec.RoundTrip.{
  read_uint-be, read_bytes-append, read_string_u16-field, write_string_u16_eq,
}
use hmmp_python_sdk.Models.Platform.{Platform, ip_to_bytes, write_f32, read_f32}
use hmmp_python_sdk.Models.Instance.{ServiceInstance, flag_byte, to_register_bytes}
use hmmp_python_sdk.Models.Laws.Snapshots.{ip_type_of-ip_code, flag_byte-eq}
use native.Mathlib.Nat.{mod-eq_of_lt}

-- The documented fields, in their order.
pub record Registration (Float : Type 0) : Type 0 where
  pub service_name : Text
  pub ip_type : IpType
  pub port : ℕ
  pub ephemeral : Bool
  pub ip : Bytes
  pub weight : Float

abbrev pub read_registration : (pf : Platform) → Read (Registration pf.Float)
read_registration pf = do
  service_name ← read_string_u16
  code ← read_u8
  ip_type ← lift (ip_type_of code)
  port ← read_u16
  ephemeral ← read_u8
  ip ← read_ip ip_type
  weight ← read_f32 pf
  pure (record {
    service_name = service_name;
    ip_type = ip_type;
    port = port;
    ephemeral = ephemeral == 1;
    ip = ip;
    weight = weight;
  })

module _ (pf : Platform) (i : ServiceInstance pf.Float) (name ip weight : Bytes) (ip_type : IpType)
    (name_encoded : encode i.service_name ≡ ok name) (name_fits : length name < 2 ^ 16)
    (port_fits : i.port < 2 ^ 16) (ip_packed : ip_to_bytes pf i.ip ≡ ok (ip, ip_type))
    (ip_size : length ip ≡ ip_length ip_type)
    (weight_packed : pf.pack_f32 i.weight ≡ ok weight) where
  abbrev body : Bytes
  body =
      be 2 (length name)
      ++ (name
          ++ (be 1 (ip_code ip_type)
              ++ (be 2 i.port ++ (be 1 (flag_byte i.ephemeral) ++ (ip ++ weight)))))

  to_register_bytes-body : to_register_bytes pf i ≡ ok body
  unfolding to_register_bytes write_f32 write_u8 write_u16
  to_register_bytes-body =
      rw (write_string_u16_eq i.service_name name name_encoded [], ip_packed)
        (rw weight_packed (
          rw
            (
              mod-eq_of_lt name_fits,
              mod-eq_of_lt port_fits,
              mod-eq_of_lt (ip_type_of-ip_code ip_type).1,
              mod-eq_of_lt (flag_byte-eq i.ephemeral).1,
            )
            (ap ok (simp append_assoc))))

  read_registration-body :
      (rest : Bytes)
      → read_registration pf (
          be 2 (length name)
          ++ (name
              ++ (be 1 (ip_code ip_type)
                  ++ (be 2 i.port ++ (be 1 (flag_byte i.ephemeral) ++ (ip ++ (weight ++ rest)))))))
        ≡ (
          ok (record {
            service_name = i.service_name;
            ip_type = ip_type;
            port = i.port;
            ephemeral = i.ephemeral;
            ip = ip;
            weight = pf.unpack_f32 weight;
          }),
          rest,
        )
  unfolding read_f32
  read_registration-body rest =
      rw
        (
          read_string_u16-field i.service_name name
              (decode-encode_ok i.service_name name name_encoded) _ name_fits,
          read_uint-be 1 (ip_code ip_type) _ (ip_type_of-ip_code ip_type).1,
        )
        (rw (ip_type_of-ip_code ip_type).0 (
          rw (
            read_uint-be 2 i.port _ port_fits,
            read_uint-be 1 (flag_byte i.ephemeral) _ (flag_byte-eq i.ephemeral).1,
            read_bytes-append (ip_length ip_type) ip _ ip_size,
            read_bytes-append 4 weight _ (pf.length-pack_f32 i.weight weight weight_packed),
            (flag_byte-eq i.ephemeral).0,
          )))

  -- The body that an instance registers with is read back, field by field in the documented order,
  -- as the instance's name, address, port, ephemeral flag and weight; the latter as a 32-bit float.
  pub registration_round_trip :
      (rest : Bytes)
      → (out : Bytes) × (to_register_bytes pf i ≡ ok out)
        × (read_registration pf (out ++ rest) ≡ (
          ok (record {
            service_name = i.service_name;
            ip_type = ip_type;
            port = i.port;
            ephemeral = i.ephemeral;
            ip = ip;
            weight = pf.unpack_f32 weight;
          }),
          rest,
        ))
  registration_round_trip rest =
      (body, to_register_bytes-body, simp append_assoc (read_registration-body rest))
