-- ===== src/Tests/Governance.antt =====
-- Concrete inputs for the theorems on hmmp/governance.py.
use hmmp_python_sdk.Base.{◌≡◌, refl, [], ◌∷◌, Bytes, codes, replicate, some, Result, ok, inr, arith}
use hmmp_python_sdk.Base.{◌++◌}
use hmmp_python_sdk.Codec.Endian.{be, pack_be}
use hmmp_python_sdk.Codec.Writer.{write_u8, write_u16}
use hmmp_python_sdk.Codec.Utf8.{encode}
use hmmp_python_sdk.Governance.Block.{
  GovernanceBlock, empty_block, to_bytes, to_frame_bytes, write_entry, write_unknown,
  trace_to_bytes, ljust,
}
use hmmp_python_sdk.Governance.Parse.{from_bytes, parse_governance_block}
use hmmp_python_sdk.Governance.Prefix.{lost, prefixed_block_lost}
use hmmp_python_sdk.Governance.Total.{from_bytes_total}
use hmmp_python_sdk.Governance.Whole.{IsDocumented, parse-to_bytes}

abbrev full_block : GovernanceBlock
full_block = record {
  trace_context = some (record { trace_id = replicate 16 1; span_id = replicate 8 2 });
  traffic_coloring = some (codes "canary");
  method_metrics = some (record { queue_duration_us = 70000; execution_duration_ms = 12 });
  tenant_quota_token = some (replicate 16 3);
  unknown_tags = (9, 1 ∷ 2 ∷ []) ∷ (7, []) ∷ [];
}

full_block-IsDocumented : IsDocumented full_block
unfolding encode
full_block-IsDocumented = record {
  trace = (refl, refl);
  coloring = (codes "canary", refl, omega arith);
  metrics = (omega arith, omega arith);
  token = refl;
  unknown = (
    (omega arith, inr (omega arith), omega arith),
    ((omega arith, inr (omega arith), omega arith), tt),
  );
  apart = (((λ e. omega arith), tt), (tt, tt));
}

parse-to_bytes_example :
    (bs : Bytes) × (to_bytes full_block ≡ ok bs) × (from_bytes bs ≡ some (ok full_block))
parse-to_bytes_example = parse-to_bytes full_block full_block-IsDocumented

from_bytes_total_example : (r : Result GovernanceBlock) × (from_bytes (1 ∷ 0 ∷ 9 ∷ 5 ∷ []) ≡ some r)
from_bytes_total_example = from_bytes_total (1 ∷ 0 ∷ 9 ∷ 5 ∷ [])

abbrev traced : GovernanceBlock
traced = record empty_block {
  trace_context = some (record { trace_id = replicate 16 1; span_id = replicate 8 2 });
}

abbrev traced_content : Bytes
traced_content = 0 ∷ 24 ∷ (replicate 16 1 ++ replicate 8 2)

traced_bytes : to_bytes traced ≡ ok (1 ∷ traced_content)
unfolding to_bytes write_entry trace_to_bytes ljust write_u8 write_u16 be write_unknown
traced_bytes = refl

traced_frame_bytes : to_frame_bytes traced ≡ ok (0 ∷ 0 ∷ 0 ∷ 27 ∷ 1 ∷ traced_content)
unfolding to_frame_bytes to_bytes write_entry trace_to_bytes ljust write_u8 write_u16 be
    write_unknown pack_be
traced_frame_bytes = refl

prefixed_block_lost_example :
    parse_governance_block (0 ∷ 0 ∷ 0 ∷ 27 ∷ 1 ∷ traced_content) ≡ some (ok lost)
prefixed_block_lost_example =
    prefixed_block_lost traced 1 traced_content (0 ∷ 0 ∷ 0 ∷ 27 ∷ 1 ∷ traced_content) traced_bytes
      traced_frame_bytes (omega arith) (omega arith)
