-- ===== src/Models/Laws/Snapshots.antt =====
-- A discovery snapshot (docs/HMMP-SPECIFICATION.md, DiscoverServiceResponse) and its parse.
use hmmp_python_sdk.Base.{
  ℕ, ◌^◌, ◌<◌, ◌≡◌, refl, ap, [], ◌∷◌, ◌++◌, List, Bytes, Text, length, All, Bool, true, false,
  Result, ok, ◌==◌, arith,
}
use hmmp_python_sdk.Codec.Endian.{be}
use hmmp_python_sdk.Codec.Utf8.{encode, decode-encode_ok}
use hmmp_python_sdk.Codec.Writer.{IpType, ipv4, ipv6, ip_code, ip_length}
use hmmp_python_sdk.Codec.Reader.{read_list, ip_type_of}
use hmmp_python_sdk.Codec.RoundTrip.{read_uint-be, read_bytes-append, read_string_u16-field}
use hmmp_python_sdk.Models.Platform.{Platform, bytes_to_ip, read_f32}
use hmmp_python_sdk.Models.Instance.{ServiceInstance, flag_byte}
use hmmp_python_sdk.Models.Snapshot.{
  ServiceSnapshot, from_snapshot_bytes, read_snapshot, from_bytes,
}

-- An instance as it stands in the body.
pub record Item : Type 0 where
  pub ip_type : IpType
  pub port : ℕ
  pub healthy : Bool
  pub ip_bytes : Bytes
  pub weight : Bytes
  pub metrics_pack : ℕ
  pub metadata_hash : ℕ

pub record IsItem (i : Item) : Type 0 where
  pub port : i.port < 2 ^ 16
  pub ip_bytes : length i.ip_bytes ≡ ip_length i.ip_type
  pub weight : length i.weight ≡ 4
  pub metrics_pack : i.metrics_pack < 2 ^ 32
  pub metadata_hash : i.metadata_hash < 2 ^ 64

-- The fields of an item, and `rest` behind them.
abbrev pub item_layout : Item → Bytes → Bytes
item_layout i rest =
    be 1 (ip_code i.ip_type)
    ++ (be 2 i.port
        ++ (be 1 (flag_byte i.healthy)
            ++ (i.ip_bytes
                ++ (i.weight ++ (be 4 i.metrics_pack ++ (be 8 i.metadata_hash ++ rest))))))

abbrev pub items_layout : List Item → Bytes → Bytes
items_layout [] rest = rest
items_layout (i ∷ items) rest = item_layout i (items_layout items rest)

pub ip_type_of-ip_code : (t : IpType) → (ip_type_of (ip_code t) ≡ ok t) × (ip_code t < 256)
unfolding ip_type_of
ip_type_of-ip_code ipv4 = (refl, omega arith)
ip_type_of-ip_code ipv6 = (refl, omega arith)

pub flag_byte-eq : (b : Bool) → ((flag_byte b == 1) ≡ b) × (flag_byte b < 256)
flag_byte-eq true = (ground arith, omega arith)
flag_byte-eq false = (ground arith, omega arith)

module _ (pf : Platform) where
  -- The instance that an item stands for.
  abbrev pub instance_of : Text → Item → ServiceInstance pf.Float
  instance_of service_name i = record {
    service_name = service_name;
    ip = bytes_to_ip pf i.ip_bytes i.ip_type;
    port = i.port;
    weight = pf.unpack_f32 i.weight;
    ephemeral = true;
    healthy = i.healthy;
    metadata = [];
    metadata_hash = i.metadata_hash;
    metrics_pack = i.metrics_pack;
  }

  abbrev pub instances_of : Text → List Item → List (ServiceInstance pf.Float)
  instances_of name [] = []
  instances_of name (i ∷ items) = instance_of name i ∷ instances_of name items

  from_snapshot_bytes-item :
      (name : Text) (i : Item) (rest : Bytes)
      → IsItem i
      → from_snapshot_bytes pf name (item_layout i rest) ≡ (ok (instance_of name i), rest)
  unfolding from_snapshot_bytes read_f32
  from_snapshot_bytes-item name i rest v =
      let (code_back, code_fits) = ip_type_of-ip_code i.ip_type in
      let (flag_back, flag_fits) = flag_byte-eq i.healthy in
      rw (read_uint-be 1 (ip_code i.ip_type) _ code_fits) (
        rw code_back (
          rw (
            read_uint-be 2 i.port _ v.port,
            read_uint-be 1 (flag_byte i.healthy) _ flag_fits,
            read_bytes-append (ip_length i.ip_type) i.ip_bytes _ v.ip_bytes,
            read_bytes-append 4 i.weight _ v.weight,
            read_uint-be 4 i.metrics_pack _ v.metrics_pack,
            read_uint-be 8 i.metadata_hash _ v.metadata_hash,
            flag_back,
          )))

  read_list-items :
      (name : Text) (items : List Item) (rest : Bytes)
      → All IsItem items
      → read_list (length items) (from_snapshot_bytes pf name) (items_layout items rest)
        ≡ (ok (instances_of name items), rest)
  unfolding read_list
  read_list-items name [] rest v = refl
  read_list-items name (i ∷ items) rest v = rw (
    from_snapshot_bytes-item name i (items_layout items rest) v.0,
    read_list-items name items rest v.1,
  )

  module _ (name : Text) (encoded : Bytes) (version : ℕ) (items : List Item) (rest : Bytes)
      (name_encoded : encode name ≡ ok encoded) (name_fits : length encoded < 2 ^ 16)
      (version_fits : version < 2 ^ 64) (count_fits : length items < 2 ^ 16)
      (sizes : All IsItem items) where
    abbrev body : Bytes
    body =
        be 2 (length encoded)
        ++ (encoded ++ (be 8 version ++ (be 2 (length items) ++ items_layout items rest)))

    abbrev snapshot : ServiceSnapshot pf.Float
    snapshot = record {
      service_name = name;
      topology_version = version;
      instances = instances_of name items;
    }

    read_snapshot-body : read_snapshot pf body ≡ (ok snapshot, rest)
    read_snapshot-body = rw (
      read_string_u16-field name encoded (decode-encode_ok name encoded name_encoded)
          (be 8 version ++ (be 2 (length items) ++ items_layout items rest)) name_fits,
      read_uint-be 8 version (be 2 (length items) ++ items_layout items rest) version_fits,
      read_uint-be 2 (length items) (items_layout items rest) count_fits,
      read_list-items name items rest sizes,
    )

    -- A body laid out as documented (name, version, count, then the items) parses to the snapshot
    -- with these instances, whatever bytes stand behind it; each instance carries the service's name.
    pub snapshot_parses :
        from_bytes pf (
          be 2 (length encoded)
          ++ (encoded ++ (be 8 version ++ (be 2 (length items) ++ items_layout items rest))))
        ≡ ok (record {
          service_name = name;
          topology_version = version;
          instances = instances_of name items;
        })
    unfolding from_bytes
    snapshot_parses = ap (λ (r : Result (ServiceSnapshot pf.Float) × Bytes). r.0) read_snapshot-body
