-- ===== src/Models/Snapshot.antt =====
-- hmmp/models.py: reading instances and snapshots, class ServiceSnapshot and class
-- FilteredServiceSnapshot.
use hmmp_python_sdk.Base.{
  ℕ, zero, suc, [], Bytes, Text, Bool, true, List, Result, ◌==◌, if◌then◌else◌,
}
use hmmp_python_sdk.Base.{text_eq}
use hmmp_python_sdk.Base.Dict
use hmmp_python_sdk.Base.Dict.{Dict}
use hmmp_python_sdk.Codec.Reader.{
  Read, read_u8, read_u16, read_u32, read_u64, read_ip, ip_type_of, read_string_u8, read_string_u16,
  read_list, lift, pure, ◌>>=◌,
}
use hmmp_python_sdk.Models.Platform.{Platform, bytes_to_ip, read_f32}
use hmmp_python_sdk.Models.Instance.{ServiceInstance}

pub record ServiceSnapshot (Float : Type 0) : Type 0 where
  pub service_name : Text
  pub topology_version : ℕ
  pub instances : List (ServiceInstance Float)

pub record FilteredServiceSnapshot (Float : Type 0) : Type 0 where
  pub service_name : Text
  pub topology_version : ℕ
  pub total_count : ℕ
  pub instances : List (ServiceInstance Float)

-- `for _ in range(meta_count)`: the entries are put into the instance's metadata one by one.
unfoldable pub read_metadata : ℕ → Dict Text Text → Read (Dict Text Text)
read_metadata zero d = pure d
read_metadata (suc n) d = do
  key ← read_string_u8
  value ← read_string_u16
  read_metadata n (Dict.put d key value)

module _ (pf : Platform) where
  -- The fields that the snapshot does not carry have their defaults.
  unfoldable pub from_snapshot_bytes : Text → Read (ServiceInstance pf.Float)
  from_snapshot_bytes service_name = do
    code ← read_u8
    ip_type ← lift (ip_type_of code)
    port ← read_u16
    is_healthy ← read_u8
    ip_bytes ← read_ip ip_type
    weight ← read_f32 pf
    metrics_pack ← read_u32
    metadata_hash ← read_u64
    pure (record {
      service_name = service_name;
      ip = bytes_to_ip pf ip_bytes ip_type;
      port = port;
      weight = weight;
      ephemeral = true;
      healthy = is_healthy == 1;
      metadata = [];
      metadata_hash = metadata_hash;
      metrics_pack = metrics_pack;
    })

  abbrev pub read_snapshot : Read (ServiceSnapshot pf.Float)
  read_snapshot = do
    service_name ← read_string_u16
    topology_version ← read_u64
    instance_count ← read_u16
    instances ← read_list instance_count (from_snapshot_bytes service_name)
    pure (record {
      service_name = service_name;
      topology_version = topology_version;
      instances = instances;
    })

  unfoldable pub from_bytes : Bytes → Result (ServiceSnapshot pf.Float)
  from_bytes data' = (read_snapshot data').0

  abbrev pub with_metadata : ServiceInstance pf.Float → Read (ServiceInstance pf.Float)
  with_metadata i = do
    meta_count ← read_u16
    metadata ← read_metadata meta_count i.metadata
    pure (record i { metadata = metadata })

  unfoldable pub read_filtered_instance : Bool → Text → Read (ServiceInstance pf.Float)
  read_filtered_instance include_metadata service_name = do
    i ← from_snapshot_bytes service_name
    if include_metadata then with_metadata i else pure i

  abbrev pub read_filtered : Bool → Read (FilteredServiceSnapshot pf.Float)
  read_filtered include_metadata = do
    service_name ← read_string_u16
    topology_version ← read_u64
    total_count ← read_u16
    instance_count ← read_u16
    instances ← read_list instance_count (read_filtered_instance include_metadata service_name)
    pure (record {
      service_name = service_name;
      topology_version = topology_version;
      total_count = total_count;
      instances = instances;
    })

  unfoldable pub filtered_from_bytes : Bool → Bytes → Result (FilteredServiceSnapshot pf.Float)
  filtered_from_bytes include_metadata data' = (read_filtered include_metadata data').0
