-- ===== src/Models/Instance.antt =====
-- hmmp/models.py, class ServiceInstance. A method that serialises returns the writer's bytes.
use hmmp_python_sdk.Base.{ℕ, [], ◌∷◌, Bytes, Text, length, Bool, true, false, Result, ok, ◌>>=◌}
use hmmp_python_sdk.Base.Dict.{Dict}
use hmmp_python_sdk.Codec.Writer.{
  IpType, ipv4, ipv6, ip_code, write_bytes, write_u8, write_u16, write_string_u8, write_string_u16,
}
use hmmp_python_sdk.Models.Platform.{Platform, ip_to_bytes, write_f32}

pub record ServiceInstance (Float : Type 0) : Type 0 where
  pub service_name : Text
  pub ip : Text
  pub port : ℕ
  pub weight : Float
  pub ephemeral : Bool
  pub healthy : Bool
  pub metadata : Dict Text Text
  pub metadata_hash : ℕ
  pub metrics_pack : ℕ

abbrev pub flag_byte : Bool → ℕ
flag_byte true = 1
flag_byte false = 0

-- constants.py, class AddressFamily
abbrev pub family_code : IpType → ℕ
family_code ipv4 = 1
family_code ipv6 = 2

-- The metadata's entries: the key in a short field, the value in a long one.
unfoldable pub write_metadata : Bytes → Dict Text Text → Result Bytes
write_metadata w [] = ok w
write_metadata w ((key, value) ∷ d) = do
  k ← write_string_u8 w key
  v ← write_string_u16 k value
  write_metadata v d

module _ (pf : Platform) where
  unfoldable pub to_register_bytes : ServiceInstance pf.Float → Result Bytes
  to_register_bytes i = do
    named ← write_string_u16 [] i.service_name
    (ip_bytes, ip_type) ← ip_to_bytes pf i.ip
    let typed = write_u16 (write_u8 named (ip_code ip_type)) i.port
    write_f32 pf (write_bytes (write_u8 typed (flag_byte i.ephemeral)) ip_bytes) i.weight

  -- The same fields, and then the metadata behind their count.
  unfoldable pub to_register_with_meta_bytes : ServiceInstance pf.Float → Result Bytes
  to_register_with_meta_bytes i = do
    named ← write_string_u16 [] i.service_name
    (ip_bytes, ip_type) ← ip_to_bytes pf i.ip
    let typed = write_u16 (write_u8 named (ip_code ip_type)) i.port
    weighed ← write_f32 pf (write_bytes (write_u8 typed (flag_byte i.ephemeral)) ip_bytes) i.weight
    write_metadata (write_u16 weighed (length i.metadata)) i.metadata

  unfoldable pub to_deregister_bytes : ServiceInstance pf.Float → Result Bytes
  to_deregister_bytes i = do
    named ← write_string_u16 [] i.service_name
    (ip_bytes, ip_type) ← ip_to_bytes pf i.ip
    ok (write_u16 (write_bytes (write_u16 named (family_code ip_type)) ip_bytes) i.port)
