-- ===== src/Admin/Listings.antt =====
-- admin.py, class AdminService: listings, configurations and the migration of connections. The
-- operation is named by `OpCode(n)`, which is evaluated after the body was written.
use hmmp_python_sdk.Base.{ℕ, [], Bytes, Text, length, Bool, List, Option, Result, ◌>>=◌}
use hmmp_python_sdk.Constants.OpCode.{op_code}
use hmmp_python_sdk.Codec.Utf8.{encode}
use hmmp_python_sdk.Codec.Writer.{write_bytes, write_u32, write_u64, write_string_u16}
use hmmp_python_sdk.Admin.Responses.{
  AdminConfigItem, AdminTenantItem, TenantPolicy, GovernanceState, is_ok, read_services,
  read_configs, read_tenants, read_policy, read_governance_state,
}
use hmmp_python_sdk.Admin.Tenants.{parsed}

module _ (send : ℕ → Bytes → Result Bytes) where
  -- `self._client._send_request(OpCode(n), body)`
  abbrev pub send_numbered : ℕ → Bytes → Result Bytes
  send_numbered n body = do op ← op_code n; send op body

  unfoldable pub list_services : Text → Result (List Text)
  list_services tenant = do
    body ← write_string_u16 [] tenant
    response ← send_numbered 0x0401 body
    parsed read_services response

  unfoldable pub list_configs : Text → Text → Result (List AdminConfigItem)
  list_configs tenant group = do
    w ← write_string_u16 [] tenant
    body ← write_string_u16 w group
    response ← send_numbered 0x0409 body
    parsed read_configs response

  unfoldable pub publish_config : Text → Text → Text → Text → Result Bool
  publish_config tenant group data_id content = do
    w1 ← write_string_u16 [] tenant
    w2 ← write_string_u16 w1 group
    w3 ← write_string_u16 w2 data_id
    content_bytes ← encode content
    response ←
        send_numbered 0x040B (write_bytes (write_u32 w3 (length content_bytes)) content_bytes)
    parsed is_ok response

  unfoldable pub delete_config : Text → Text → Text → Result Bool
  delete_config tenant group data_id = do
    w1 ← write_string_u16 [] tenant
    w2 ← write_string_u16 w1 group
    body ← write_string_u16 w2 data_id
    response ← send_numbered 0x040D body
    parsed is_ok response

  unfoldable pub list_tenants : Result (List AdminTenantItem)
  list_tenants = do response ← send_numbered 0x0407 []; parsed read_tenants response

  unfoldable pub get_tenant_policy : Text → Result (Option TenantPolicy)
  get_tenant_policy tenant = do
    body ← write_string_u16 [] tenant
    response ← send_numbered 0x040D body
    parsed (read_policy tenant) response

  unfoldable pub get_governance_state : Result GovernanceState
  get_governance_state = do
    response ← send_numbered 0x040F []
    parsed read_governance_state response

  unfoldable pub migrate_connection : ℕ → ℕ → ℕ → ℕ → Result Bool
  migrate_connection source_node_id target_node_id stream_id graceful_wait_ms = do
    let nodes = write_u64 (write_u64 [] source_node_id) target_node_id
    response ← send_numbered 0x0405 (write_u32 (write_u32 nodes stream_id) graceful_wait_ms)
    parsed is_ok response
