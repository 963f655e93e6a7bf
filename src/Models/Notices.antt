-- ===== src/Models/Notices.antt =====
-- hmmp/models.py: the results and notices with fields of fixed sizes.
use hmmp_python_sdk.Base.{ℕ, Bytes, Text, Bool, Result, ◌==◌}
use hmmp_python_sdk.Codec.Reader.{
  Read, read_u8, read_u16, read_u32, read_u64, read_bytes, read_ip, ip_type_of, lift, pure, ◌>>=◌,
}
use hmmp_python_sdk.Models.Platform.{Platform, bytes_to_ip}

pub record NonceChallengeResult : Type 0 where
  pub status : ℕ
  pub server_nonce : Bytes
  pub nonce_ttl_ms : ℕ
  pub server_timestamp : ℕ

abbrev pub read_nonce : Read NonceChallengeResult
read_nonce = do
  status ← read_u16
  server_nonce ← read_bytes 32
  nonce_ttl_ms ← read_u32
  server_timestamp ← read_u64
  pure (record {
    status = status;
    server_nonce = server_nonce;
    nonce_ttl_ms = nonce_ttl_ms;
    server_timestamp = server_timestamp;
  })

unfoldable pub nonce_from_bytes : Bytes → Result NonceChallengeResult
nonce_from_bytes data' = (read_nonce data').0

pub record RedirectInfo : Type 0 where
  pub sequence_number : ℕ
  pub reason : ℕ
  pub graceful_wait_ms : ℕ
  pub target_ip : Text
  pub target_port : ℕ

abbrev pub read_redirect : Platform → Read RedirectInfo
read_redirect pf = do
  sequence_number ← read_u32
  reason ← read_u8
  graceful_wait_ms ← read_u16
  code ← read_u8
  target_ip_type ← lift (ip_type_of code)
  target_port ← read_u16
  target_ip_bytes ← read_ip target_ip_type
  pure (record {
    sequence_number = sequence_number;
    reason = reason;
    graceful_wait_ms = graceful_wait_ms;
    target_ip = bytes_to_ip pf target_ip_bytes target_ip_type;
    target_port = target_port;
  })

unfoldable pub redirect_from_bytes : Platform → Bytes → Result RedirectInfo
redirect_from_bytes pf data' = (read_redirect pf data').0

-- class ShutdownNotice: its only field is the delay.
unfoldable pub shutdown_from_bytes : Bytes → Result ℕ
shutdown_from_bytes data' = (read_u32 data').0

pub record TenantStats : Type 0 where
  pub found : Bool
  pub active_connections : ℕ
  pub registered_services : ℕ
  pub registered_instances : ℕ
  pub credential_count : ℕ
  pub config_count : ℕ

abbrev pub read_stats : Read TenantStats
read_stats = do
  found ← read_u8
  active_connections ← read_u32
  registered_services ← read_u16
  registered_instances ← read_u32
  credential_count ← read_u16
  config_count ← read_u32
  pure (record {
    found = found == 1;
    active_connections = active_connections;
    registered_services = registered_services;
    registered_instances = registered_instances;
    credential_count = credential_count;
    config_count = config_count;
  })

unfoldable pub stats_from_bytes : Bytes → Result TenantStats
stats_from_bytes data' = (read_stats data').0
