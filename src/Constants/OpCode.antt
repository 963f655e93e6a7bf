-- ===== src/Constants/OpCode.antt =====
-- constants.py, class OpCode: an operation is its number, and `op_code` is the conversion
-- `OpCode(n)`, which refuses the numbers that name no operation.
use hmmp_python_sdk.Base.{
  ℕ, Bool, false, ◌||◌, List, [], ◌∷◌, Result, ok, err, value_error, ◌==◌, if◌then◌else◌,
}

abbrev pub handshake_request : ℕ
handshake_request = 0x0001

abbrev pub handshake_response : ℕ
handshake_response = 0x0002

abbrev pub heartbeat_ping : ℕ
heartbeat_ping = 0x0003

abbrev pub heartbeat_pong : ℕ
heartbeat_pong = 0x0004

abbrev pub cluster_node_redirect_notify : ℕ
cluster_node_redirect_notify = 0x0005

abbrev pub instance_shutdown_prepare_notice : ℕ
instance_shutdown_prepare_notice = 0x0006

abbrev pub nonce_challenge_request : ℕ
nonce_challenge_request = 0x0007

abbrev pub nonce_challenge_response : ℕ
nonce_challenge_response = 0x0008

abbrev pub register_instance_request : ℕ
register_instance_request = 0x0101

abbrev pub deregister_instance_request : ℕ
deregister_instance_request = 0x0103

abbrev pub discover_service_request : ℕ
discover_service_request = 0x0105

abbrev pub discover_service_response : ℕ
discover_service_response = 0x0106

abbrev pub service_changed_notify : ℕ
service_changed_notify = 0x0108

abbrev pub register_instance_with_meta_request : ℕ
register_instance_with_meta_request = 0x0109

abbrev pub register_instance_with_meta_response : ℕ
register_instance_with_meta_response = 0x010A

abbrev pub discover_service_by_filter_request : ℕ
discover_service_by_filter_request = 0x010B

abbrev pub discover_service_by_filter_response : ℕ
discover_service_by_filter_response = 0x010C

abbrev pub get_config_request : ℕ
get_config_request = 0x0201

abbrev pub config_response : ℕ
config_response = 0x0202

abbrev pub listen_config_request : ℕ
listen_config_request = 0x0203

abbrev pub config_changed_notify : ℕ
config_changed_notify = 0x0204

abbrev pub raft_append_entries_req : ℕ
raft_append_entries_req = 0x0301

abbrev pub raft_append_entries_res : ℕ
raft_append_entries_res = 0x0302

abbrev pub raft_request_vote_req : ℕ
raft_request_vote_req = 0x0303

abbrev pub raft_request_vote_res : ℕ
raft_request_vote_res = 0x0304

abbrev pub distro_sync_data_req : ℕ
distro_sync_data_req = 0x0311

abbrev pub cluster_node_load_report : ℕ
cluster_node_load_report = 0x0312

abbrev pub cluster_leader_redirect_command : ℕ
cluster_leader_redirect_command = 0x0313

abbrev pub admin_create_tenant_req : ℕ
admin_create_tenant_req = 0x0411

abbrev pub admin_create_tenant_res : ℕ
admin_create_tenant_res = 0x0412

abbrev pub admin_update_tenant_policy_req : ℕ
admin_update_tenant_policy_req = 0x0413

abbrev pub admin_update_tenant_policy_res : ℕ
admin_update_tenant_policy_res = 0x0414

abbrev pub admin_delete_tenant_req : ℕ
admin_delete_tenant_req = 0x0415

abbrev pub admin_delete_tenant_res : ℕ
admin_delete_tenant_res = 0x0416

abbrev pub admin_get_tenant_stats_req : ℕ
admin_get_tenant_stats_req = 0x0417

abbrev pub admin_get_tenant_stats_res : ℕ
admin_get_tenant_stats_res = 0x0418

abbrev pub admin_create_credential_req : ℕ
admin_create_credential_req = 0x0419

abbrev pub admin_create_credential_res : ℕ
admin_create_credential_res = 0x041A

abbrev pub admin_update_credential_req : ℕ
admin_update_credential_req = 0x041B

abbrev pub admin_update_credential_res : ℕ
admin_update_credential_res = 0x041C

abbrev pub admin_delete_credential_req : ℕ
admin_delete_credential_req = 0x041D

abbrev pub admin_delete_credential_res : ℕ
admin_delete_credential_res = 0x041E

abbrev pub admin_list_credentials_req : ℕ
admin_list_credentials_req = 0x041F

abbrev pub admin_list_credentials_res : ℕ
admin_list_credentials_res = 0x0420

-- The members of the enumeration.
unfoldable pub members : List ℕ
members =
    handshake_request ∷ handshake_response ∷ heartbeat_ping ∷ heartbeat_pong
    ∷ cluster_node_redirect_notify ∷ instance_shutdown_prepare_notice ∷ nonce_challenge_request
    ∷ nonce_challenge_response ∷ register_instance_request ∷ deregister_instance_request
    ∷ discover_service_request ∷ discover_service_response ∷ service_changed_notify
    ∷ register_instance_with_meta_request ∷ register_instance_with_meta_response
    ∷ discover_service_by_filter_request ∷ discover_service_by_filter_response ∷ get_config_request
    ∷ config_response ∷ listen_config_request ∷ config_changed_notify ∷ raft_append_entries_req
    ∷ raft_append_entries_res ∷ raft_request_vote_req ∷ raft_request_vote_res ∷ distro_sync_data_req
    ∷ cluster_node_load_report ∷ cluster_leader_redirect_command ∷ admin_create_tenant_req
    ∷ admin_create_tenant_res ∷ admin_update_tenant_policy_req ∷ admin_update_tenant_policy_res
    ∷ admin_delete_tenant_req ∷ admin_delete_tenant_res ∷ admin_get_tenant_stats_req
    ∷ admin_get_tenant_stats_res ∷ admin_create_credential_req ∷ admin_create_credential_res
    ∷ admin_update_credential_req ∷ admin_update_credential_res ∷ admin_delete_credential_req
    ∷ admin_delete_credential_res ∷ admin_list_credentials_req ∷ admin_list_credentials_res ∷ []

unfoldable pub is_member : ℕ → List ℕ → Bool
is_member n [] = false
is_member n (m ∷ ms) = n == m || is_member n ms

-- `OpCode(n)`
unfoldable pub op_code : ℕ → Result ℕ
unfolding is_member members
op_code n = if is_member n members then ok n else err value_error
