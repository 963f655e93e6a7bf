-- ===== src/Constants.antt =====
-- hmmp/constants.py: the numbers that the protocol fixes.
pub mod Flag
pub mod OpCode
pub mod StatusCode
use hmmp_python_sdk.Base.{ℕ}

abbrev pub magic_number : ℕ
magic_number = 0x5153

abbrev pub protocol_version : ℕ
protocol_version = 0x07

abbrev pub header_size : ℕ
header_size = 16

abbrev pub default_nonce_ttl_ms : ℕ
default_nonce_ttl_ms = 5000

abbrev pub fnv_offset_basis : ℕ
fnv_offset_basis = 0xCBF29CE484222325

abbrev pub fnv_prime : ℕ
fnv_prime = 0x100000001B3
