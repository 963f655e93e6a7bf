-- ===== src/Tests/Admin.antt =====
-- Concrete inputs for the theorems on hmmp/admin.py.
use hmmp_python_sdk.Base.{
  ℕ, ◌≡◌, refl, [], ◌∷◌, ◌++◌, Bytes, codes, true, false, some, none, Result, ok, ◌>>=◌, arith,
}
use hmmp_python_sdk.Constants.OpCode
use hmmp_python_sdk.Codec.Endian.{be}
use hmmp_python_sdk.Codec.Utf8.{encode}
use hmmp_python_sdk.Codec.Reader.{read_u16}
use hmmp_python_sdk.Admin.Listings.{
  list_services, list_configs, publish_config, delete_config, list_tenants, get_tenant_policy,
  get_governance_state, migrate_connection,
}
use hmmp_python_sdk.Admin.Credentials.{update_credential}
use hmmp_python_sdk.Admin.OpCodes.{IsRefused, numbered_operations_raise}
use hmmp_python_sdk.Admin.RoundTrip.{read_update, update_round_trip}
use hmmp_python_sdk.Admin.Listed.{Item, IsItem, items_layout}

-- A server that answers OK to everything.
abbrev obliging : ℕ → Bytes → Result Bytes
obliging op body = ok (0 ∷ 0 ∷ [])

numbered_operations_raise_example :
    IsRefused (list_services obliging (codes "t"))
    × IsRefused (list_configs obliging (codes "t") (codes "g"))
    × IsRefused (publish_config obliging (codes "t") (codes "g") (codes "d") (codes "c"))
    × IsRefused (delete_config obliging (codes "t") (codes "g") (codes "d"))
    × IsRefused (list_tenants obliging)
    × IsRefused (get_tenant_policy obliging (codes "t"))
    × IsRefused (get_governance_state obliging)
    × IsRefused (migrate_connection obliging 1 2 3 4)
numbered_operations_raise_example =
    numbered_operations_raise obliging (codes "t") (codes "g") (codes "d") (codes "c") 1 2 3 4

encoded_id : encode (codes "id") ≡ ok (codes "id")
unfolding encode
encoded_id = refl

encoded_t : encode (codes "t") ≡ ok (codes "t")
unfolding encode
encoded_t = refl

update_round_trip_example :
    (body : Bytes) × (update_credential obliging
        (codes "id")
        none
        (some (codes "t"))
        none
        (some false)
      ≡ (do response ← obliging OpCode.admin_update_credential_req body; (read_u16 response).0))
    × (read_update (body ++ (9 ∷ []))
        ≡ (ok (codes "id", none, some (codes "t"), none, some false), 9 ∷ []))
update_round_trip_example =
    update_round_trip obliging (codes "id") none (some (codes "t")) none (some false) (9 ∷ [])
      (codes "id", encoded_id, omega arith) tt (codes "t", encoded_t, omega arith) tt

abbrev listed_item : Item
listed_item = record {
  credential = record {
    client_id = codes "id";
    tenant = codes "t";
    node_type = codes "id";
    enabled = true;
    created_at = 5;
  };
  client_id = codes "id";
  tenant = codes "t";
  node_type = codes "id";
}

listed_item-IsItem : IsItem listed_item
listed_item-IsItem = record {
  client_id = encoded_id;
  tenant = encoded_t;
  node_type = encoded_id;
  client_id_fits = omega arith;
  tenant_fits = omega arith;
  node_type_fits = omega arith;
  created_at_fits = omega arith;
}

abbrev lists_one : ℕ → Bytes → Result Bytes
lists_one op body = ok (be 2 1 ++ items_layout (listed_item ∷ []) (7 ∷ []))
