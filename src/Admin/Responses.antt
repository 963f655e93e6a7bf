-- ===== src/Admin/Responses.antt =====
-- admin.py: the items of the management plane, and the parsers of the responses' bodies.
use hmmp_python_sdk.Base.{ℕ, List, Bytes, Text, Bool, Option, none, some, ◌==◌, if◌then◌else◌}
use hmmp_python_sdk.Constants.StatusCode.{ok_status}
use hmmp_python_sdk.Codec.Reader.{
  Read, ◌>>=◌, pure, read_bytes, read_u8, read_u16, read_u32, read_u64, read_string_u16, read_list,
}

pub record AdminConfigItem : Type 0 where
  pub tenant : Text
  pub group : Text
  pub data_id : Text
  pub md5 : Bytes
  pub length' : ℕ
  pub deleted : Bool

pub record AdminTenantItem : Type 0 where
  pub tenant : Text
  pub max_connections : ℕ
  pub rate_limit_ops : ℕ
  pub policy_flags : ℕ

pub record TenantPolicy : Type 0 where
  pub tenant : Text
  pub policy_flags : ℕ
  pub max_connections : ℕ
  pub rate_limit_ops : ℕ
  pub lease_duration_ms : ℕ

-- models.py, class CredentialInfo
pub record CredentialInfo : Type 0 where
  pub client_id : Text
  pub tenant : Text
  pub node_type : Text
  pub enabled : Bool
  pub created_at : ℕ

pub record CircuitBreakerItem : Type 0 where
  pub service_key : Text
  pub state : ℕ
  pub failure_count : ℕ

pub record GovernanceState : Type 0 where
  pub circuit_breakers : List CircuitBreakerItem
  pub coloring_rules : List (Text × Text)
  pub outlier_votes : List (ℕ × ℕ)

-- `status == StatusCode.OK`
abbrev pub is_ok : Read Bool
is_ok = do status ← read_u16; pure (status == ok_status)

unfoldable pub read_credential : Read CredentialInfo
read_credential = do
  client_id ← read_string_u16
  tenant ← read_string_u16
  node_type ← read_string_u16
  enabled ← read_u8
  created_at ← read_u64
  pure (record {
    client_id = client_id;
    tenant = tenant;
    node_type = node_type;
    enabled = enabled == 1;
    created_at = created_at;
  })

unfoldable pub read_credentials : Read (List CredentialInfo)
read_credentials = do count ← read_u16; read_list count read_credential

unfoldable pub read_services : Read (List Text)
read_services = do count ← read_u16; read_list count read_string_u16

unfoldable pub read_config_item : Read AdminConfigItem
read_config_item = do
  tenant ← read_string_u16
  group ← read_string_u16
  data_id ← read_string_u16
  md5 ← read_bytes 16
  length' ← read_u32
  deleted ← read_u8
  pure (record {
    tenant = tenant;
    group = group;
    data_id = data_id;
    md5 = md5;
    length' = length';
    deleted = deleted == 1;
  })

unfoldable pub read_configs : Read (List AdminConfigItem)
read_configs = do count ← read_u16; read_list count read_config_item

unfoldable pub read_tenant_item : Read AdminTenantItem
read_tenant_item = do
  tenant ← read_string_u16
  max_conns ← read_u32
  rate_limit ← read_u32
  policy_flags ← read_u16
  pure (record {
    tenant = tenant;
    max_connections = max_conns;
    rate_limit_ops = rate_limit;
    policy_flags = policy_flags;
  })

unfoldable pub read_tenants : Read (List AdminTenantItem)
read_tenants = do count ← read_u16; read_list count read_tenant_item

unfoldable pub read_policy_fields : Text → Read (Option TenantPolicy)
read_policy_fields tenant = do
  policy_flags ← read_u16
  max_conns ← read_u32
  rate_limit ← read_u32
  lease_duration ← read_u64
  pure (
      some (record {
        tenant = tenant;
        policy_flags = policy_flags;
        max_connections = max_conns;
        rate_limit_ops = rate_limit;
        lease_duration_ms = lease_duration;
      }))

-- A policy that is not found is None.
unfoldable pub read_policy : Text → Read (Option TenantPolicy)
read_policy tenant = do found ← read_u8; if found == 0 then pure none else read_policy_fields tenant

unfoldable pub read_breaker_item : Read CircuitBreakerItem
read_breaker_item = do
  service_key ← read_string_u16
  state ← read_u8
  failure_count ← read_u32
  pure (record { service_key = service_key; state = state; failure_count = failure_count })

unfoldable pub read_rule : Read (Text × Text)
read_rule = do rule_key ← read_string_u16; rule_value ← read_string_u16; pure (rule_key, rule_value)

unfoldable pub read_vote : Read (ℕ × ℕ)
read_vote = do suspect_id ← read_u64; vote_count ← read_u32; pure (suspect_id, vote_count)

unfoldable pub read_governance_state : Read GovernanceState
read_governance_state = do
  cb_count ← read_u16
  circuit_breakers ← read_list cb_count read_breaker_item
  color_count ← read_u16
  coloring_rules ← read_list color_count read_rule
  vote_count ← read_u16
  outlier_votes ← read_list vote_count read_vote
  pure (record {
    circuit_breakers = circuit_breakers;
    coloring_rules = coloring_rules;
    outlier_votes = outlier_votes;
  })
