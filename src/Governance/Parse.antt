-- ===== src/Governance/Parse.antt =====
-- hmmp/governance.py: parsing a block, and building one from its parts.
use hmmp_python_sdk.Base.{
  ℕ, zero, suc, [], ◌∷◌, Bytes, Text, length, is_empty, Bool, true, false, ◌&&◌, Option, none, some,
  Result, Raised, ok, err, eof_error, if◌then◌else◌,
}
use hmmp_python_sdk.Codec.Reader.{Read, read_u8, read_u16, read_bytes, has_remaining, ◌>>=◌, lift}
use hmmp_python_sdk.Governance.Block.{
  TraceContext, MethodMetrics, GovernanceBlock, empty_block, add_entry, to_frame_bytes,
}

-- The body of the `try`: one entry is read and put into the block.
unfoldable pub read_entry : GovernanceBlock → Read GovernanceBlock
read_entry block = do
  tag_type ← read_u8
  tag_length ← read_u16
  tag_value ← read_bytes tag_length
  lift (add_entry block tag_type tag_value)

-- `except EOFError: break`; every other exception goes through.
abbrev pub stop : GovernanceBlock → Raised → Result GovernanceBlock
stop block eof_error = ok block
stop block e = err e

-- The next round, or the end of the loop.
abbrev pub after_entry :
    GovernanceBlock
    → Result GovernanceBlock × Bytes
    → (GovernanceBlock → Bytes → Option (Result GovernanceBlock))
    → Option (Result GovernanceBlock)
after_entry block (ok block', s) next = next block' s
after_entry block (err e, s) next = some (stop block e)

-- The `while` loop. Each round takes three bytes at least, so `length data` rounds are enough; `none`
-- would mean that they were not.
unfoldable pub parse_loop : ℕ → GovernanceBlock → Bytes → Option (Result GovernanceBlock)
parse_loop zero block s = if has_remaining s then none else some (ok block)
parse_loop (suc fuel) block s =
    let next = after_entry block (read_entry block s) (parse_loop fuel) in
    if has_remaining s then next else some (ok block)

unfoldable pub from_bytes : Bytes → Option (Result GovernanceBlock)
from_bytes data' = parse_loop (length data') empty_block data'

abbrev pub parse_governance_block : Bytes → Option (Result GovernanceBlock)
parse_governance_block = from_bytes

-- Two arguments that count only together, and only if neither is empty.
abbrev both_bytes : Option Bytes → Option Bytes → Option TraceContext
both_bytes (some (a ∷ as')) (some (b ∷ bs)) = some (record { trace_id = a ∷ as'; span_id = b ∷ bs })
both_bytes _ _ = none

abbrev both_numbers : Option ℕ → Option ℕ → Option MethodMetrics
both_numbers (some q) (some e) = some (record { queue_duration_us = q; execution_duration_ms = e })
both_numbers _ _ = none

-- An argument that counts if it is there and not empty.
abbrev nonempty : Option Bytes → Option Bytes
nonempty (some (b ∷ bs)) = some (b ∷ bs)
nonempty _ = none

abbrev is_none {ℓ} : {A : Type ℓ} → Option A → Bool
is_none none = true
is_none (some a) = false

abbrev some_of : Result Bytes → Result (Option Bytes)
some_of (ok b) = ok (some b)
some_of (err e) = err e

unfoldable pub is_empty_block : GovernanceBlock → Bool
is_empty_block b =
    is_none b.trace_context
    && is_none b.traffic_coloring
    && is_none b.method_metrics
    && is_none b.tenant_quota_token
    && is_empty b.unknown_tags

-- `build_governance_block(trace_id, span_id, traffic_tag, queue, execution, quota_token)`
unfoldable pub build_governance_block :
    Option Bytes
    → Option Bytes
    → Option Text
    → Option ℕ
    → Option ℕ
    → Option Bytes
    → Result (Option Bytes)
unfolding is_empty_block
build_governance_block trace_id span_id traffic_tag queue execution quota_token =
    let block : GovernanceBlock = record {
      trace_context = both_bytes trace_id span_id;
      traffic_coloring = nonempty traffic_tag;
      method_metrics = both_numbers queue execution;
      tenant_quota_token = nonempty quota_token;
      unknown_tags = [];
    } in
    if is_empty_block block then ok none else some_of (to_frame_bytes block)
