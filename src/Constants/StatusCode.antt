-- ===== src/Constants/StatusCode.antt =====
-- constants.py, class StatusCode and class NonceStatus.
use hmmp_python_sdk.Base.{ℕ}

abbrev pub ok_status : ℕ
ok_status = 0x0000

abbrev pub timestamp_expired : ℕ
timestamp_expired = 1001

abbrev pub nonce_already_consumed : ℕ
nonce_already_consumed = 0x0003

abbrev pub nonce_required : ℕ
nonce_required = 0x0004

abbrev pub timestamp_drift : ℕ
timestamp_drift = 0x0001

abbrev pub rate_limited : ℕ
rate_limited = 0x0002
