-- ===== src/Tests/Models.antt =====
-- Concrete inputs for the theorems on hmmp/models.py.
use hmmp_python_sdk.Base.{◌≡◌, refl, [], ◌∷◌, ◌++◌, Bytes, codes, true, ok, arith}
use hmmp_python_sdk.Codec.Endian.{be}
use hmmp_python_sdk.Codec.Utf8.{encode}
use hmmp_python_sdk.Codec.Writer.{ipv4}
use hmmp_python_sdk.Models.Instance.{ServiceInstance}
use hmmp_python_sdk.Models.Snapshot.{from_bytes}
use hmmp_python_sdk.Models.Laws.Snapshots.{
  Item, IsItem, items_layout, instances_of, snapshot_parses,
}
use hmmp_python_sdk.Tests.Platform.{bytewise}

abbrev item : Item
item = record {
  ip_type = ipv4;
  port = 8080;
  healthy = true;
  ip_bytes = 10 ∷ 0 ∷ 0 ∷ 1 ∷ [];
  weight = 63 ∷ 128 ∷ 0 ∷ 0 ∷ [];
  metrics_pack = 77;
  metadata_hash = 5;
}

item-IsItem : IsItem item
item-IsItem = record {
  port = omega arith;
  ip_bytes = refl;
  weight = refl;
  metrics_pack = omega arith;
  metadata_hash = omega arith;
}

pub encoded_pay : encode (codes "pay") ≡ ok (codes "pay")
unfolding encode
encoded_pay = refl

snapshot_parses_example :
    from_bytes bytewise
      (be 2 3 ++ (codes "pay" ++ (be 8 9 ++ (be 2 1 ++ items_layout (item ∷ []) (1 ∷ 2 ∷ [])))))
    ≡ ok (record {
      service_name = codes "pay";
      topology_version = 9;
      instances = instances_of bytewise (codes "pay") (item ∷ []);
    })
snapshot_parses_example =
    snapshot_parses bytewise (codes "pay") (codes "pay") 9 (item ∷ []) (1 ∷ 2 ∷ []) encoded_pay
      (omega arith) (omega arith) (omega arith) (item-IsItem, tt)

abbrev instance' : ServiceInstance Bytes
instance' = record {
  service_name = codes "pay";
  ip = 10 ∷ 0 ∷ 0 ∷ 1 ∷ [];
  port = 8080;
  weight = 63 ∷ 128 ∷ 0 ∷ 0 ∷ [];
  ephemeral = true;
  healthy = true;
  metadata = [];
  metadata_hash = 0;
  metrics_pack = 0;
}
