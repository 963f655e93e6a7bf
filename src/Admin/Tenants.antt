-- ===== src/Admin/Tenants.antt =====
-- admin.py, class AdminService: the life cycle of tenants. `send` is the client's `_send_request`: it
-- takes an operation and a body, and returns the response's body or raises.
use hmmp_python_sdk.Base.{ℕ, [], Bytes, Text, Bool, Result, ok, ◌>>=◌}
use hmmp_python_sdk.Constants.OpCode
use hmmp_python_sdk.Codec.Writer.{write_u8, write_u16, write_u32, write_u64, write_string_u16}
use hmmp_python_sdk.Codec.Reader.{Read, read_u16}
use hmmp_python_sdk.Models.Instance.{flag_byte}
use hmmp_python_sdk.Models.Notices.{TenantStats, stats_from_bytes}

-- A tenant and its policy, as both requests lay them out.
unfoldable pub policy_bytes : Text → ℕ → ℕ → ℕ → ℕ → Result Bytes
policy_bytes tenant policy_flags max_connections rate_limit_ops lease_duration_ms = do
  w ← write_string_u16 [] tenant
  let flagged = write_u16 w policy_flags
  let limited = write_u32 (write_u32 flagged max_connections) rate_limit_ops
  ok (write_u64 limited lease_duration_ms)

-- `reader = BinaryReader(response.body)` and what is read from it
abbrev pub parsed {ℓ} : {A : Type ℓ} → Read A → Bytes → Result A
parsed read body = (read body).0

module _ (send : ℕ → Bytes → Result Bytes) where
  unfoldable pub create_tenant : Text → ℕ → ℕ → ℕ → ℕ → Result ℕ
  create_tenant tenant policy_flags max_connections rate_limit_ops lease_duration_ms = do
    body ← policy_bytes tenant policy_flags max_connections rate_limit_ops lease_duration_ms
    response ← send OpCode.admin_create_tenant_req body
    parsed read_u16 response

  unfoldable pub update_tenant_policy : Text → ℕ → ℕ → ℕ → ℕ → Result ℕ
  update_tenant_policy tenant policy_flags max_connections rate_limit_ops lease_duration_ms = do
    body ← policy_bytes tenant policy_flags max_connections rate_limit_ops lease_duration_ms
    response ← send OpCode.admin_update_tenant_policy_req body
    parsed read_u16 response

  unfoldable pub delete_tenant : Text → Bool → Result ℕ
  delete_tenant tenant force = do
    w ← write_string_u16 [] tenant
    response ← send OpCode.admin_delete_tenant_req (write_u8 w (flag_byte force))
    parsed read_u16 response

  unfoldable pub get_tenant_stats : Text → Result TenantStats
  get_tenant_stats tenant = do
    body ← write_string_u16 [] tenant
    response ← send OpCode.admin_get_tenant_stats_req body
    stats_from_bytes response
