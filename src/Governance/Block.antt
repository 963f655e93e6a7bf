-- ===== src/Governance/Block.antt =====
-- hmmp/governance.py: the entries, the block, and its serialisation.
use hmmp_python_sdk.Base.{
  ℕ, ◌-◌, ◌++◌, [], ◌∷◌, Bytes, Text, length, take, replicate, Option, none, some, Result, ok, err,
  value_error, ltb, ◌==◌, if◌then◌else◌, ◌>>=◌,
}
use hmmp_python_sdk.Base.Dict
use hmmp_python_sdk.Base.Dict.{Dict}
use hmmp_python_sdk.Base.{nat_eq}
use hmmp_python_sdk.Codec.Endian.{from_be, pack_be}
use hmmp_python_sdk.Codec.Utf8.{encode, decode}
use hmmp_python_sdk.Codec.Writer.{write_u8, write_u16, write_bytes}
use hmmp_python_sdk.Frame.Header.{slice}

-- constants.py, class GovernanceTag
abbrev pub tag_trace_context : ℕ
tag_trace_context = 0x01

abbrev pub tag_traffic_coloring : ℕ
tag_traffic_coloring = 0x02

abbrev pub tag_method_metrics : ℕ
tag_method_metrics = 0x03

abbrev pub tag_tenant_quota_token : ℕ
tag_tenant_quota_token = 0x04

pub record TraceContext : Type 0 where
  pub trace_id : Bytes
  pub span_id : Bytes

pub record MethodMetrics : Type 0 where
  pub queue_duration_us : ℕ
  pub execution_duration_ms : ℕ

-- `xs[:n].ljust(n, b"\x00")`
unfoldable pub ljust : ℕ → Bytes → Bytes
ljust n xs = take n xs ++ replicate (n - length (take n xs)) 0

unfoldable pub trace_to_bytes : TraceContext → Bytes
trace_to_bytes t = ljust 16 t.trace_id ++ ljust 8 t.span_id

unfoldable pub trace_from_bytes : Bytes → Result TraceContext
unfolding slice
trace_from_bytes data' =
    if ltb (length data') 24
    then err value_error
    else ok (record { trace_id = take 16 data'; span_id = slice 16 8 data' })

-- class TrafficColoring: its only field is the tag.
unfoldable pub coloring_to_bytes : Text → Result Bytes
coloring_to_bytes tag = do encoded ← encode tag; ok (take 255 encoded)

unfoldable pub metrics_to_bytes : MethodMetrics → Result Bytes
metrics_to_bytes m = do
  queue ← pack_be 4 m.queue_duration_us
  execution ← pack_be 4 m.execution_duration_ms
  ok (queue ++ execution)

unfoldable pub metrics_from_bytes : Bytes → Result MethodMetrics
metrics_from_bytes data' =
    if ltb (length data') 8
    then err value_error
    else ok (record {
      queue_duration_us = from_be (slice 0 4 (take 8 data'));
      execution_duration_ms = from_be (slice 4 4 (take 8 data'));
    })

-- class TenantQuotaToken: its only field is the token.
unfoldable pub token_to_bytes : Bytes → Bytes
token_to_bytes token = ljust 16 token

unfoldable pub token_from_bytes : Bytes → Result Bytes
token_from_bytes data' = if ltb (length data') 16 then err value_error else ok (take 16 data')

pub record GovernanceBlock : Type 0 where
  pub trace_context : Option TraceContext
  pub traffic_coloring : Option Text
  pub method_metrics : Option MethodMetrics
  pub tenant_quota_token : Option Bytes
  pub unknown_tags : Dict ℕ Bytes

abbrev pub empty_block : GovernanceBlock
empty_block = record {
  trace_context = none;
  traffic_coloring = none;
  method_metrics = none;
  tenant_quota_token = none;
  unknown_tags = [];
}

-- The four writes of one entry.
unfoldable pub write_entry : Bytes → ℕ → Bytes → Bytes
write_entry w tag value = write_bytes (write_u16 (write_u8 w tag) (length value)) value

abbrev pub write_trace : Bytes → Option TraceContext → Bytes
write_trace w none = w
write_trace w (some t) = write_entry w tag_trace_context (trace_to_bytes t)

abbrev pub write_coloring : Bytes → Option Text → Result Bytes
write_coloring w none = ok w
write_coloring w (some tag) = do
  value ← coloring_to_bytes tag
  ok (write_entry w tag_traffic_coloring value)

abbrev pub write_metrics : Bytes → Option MethodMetrics → Result Bytes
write_metrics w none = ok w
write_metrics w (some m) = do
  value ← metrics_to_bytes m
  ok (write_entry w tag_method_metrics value)

abbrev pub write_token : Bytes → Option Bytes → Bytes
write_token w none = w
write_token w (some token) = write_entry w tag_tenant_quota_token (token_to_bytes token)

unfoldable pub write_unknown : Bytes → Dict ℕ Bytes → Bytes
write_unknown w [] = w
write_unknown w ((tag, value) ∷ tags) = write_unknown (write_entry w tag value) tags

unfoldable pub to_bytes : GovernanceBlock → Result Bytes
to_bytes b = do
  let traced = write_trace [] b.trace_context
  colored ← write_coloring traced b.traffic_coloring
  measured ← write_metrics colored b.method_metrics
  ok (write_unknown (write_token measured b.tenant_quota_token) b.unknown_tags)

unfoldable pub to_frame_bytes : GovernanceBlock → Result Bytes
to_frame_bytes b = do content ← to_bytes b; size ← pack_be 4 (length content); ok (size ++ content)

-- The branches on `tag_type`.
unfoldable pub add_entry : GovernanceBlock → ℕ → Bytes → Result GovernanceBlock
add_entry b tag value =
    if tag == tag_trace_context
    then (do t ← trace_from_bytes value; ok (record b { trace_context = some t }))
    else if tag == tag_traffic_coloring
    then (do t ← decode value; ok (record b { traffic_coloring = some t }))
    else if tag == tag_method_metrics
    then (do m ← metrics_from_bytes value; ok (record b { method_metrics = some m }))
    else if tag == tag_tenant_quota_token
    then (do t ← token_from_bytes value; ok (record b { tenant_quota_token = some t }))
    else ok (record b { unknown_tags = Dict.put b.unknown_tags tag value })
