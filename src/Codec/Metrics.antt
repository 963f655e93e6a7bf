-- ===== src/Codec/Metrics.antt =====
-- hmmp/codec.py: the 32-bit metrics word. The percentages are counted in hundredths of a percent, so
-- that the factor 3.22 is the whole number 322.
use Prim.Native.Nat.{bit_and, bit_or}
use hmmp_python_sdk.Base.{ℕ, ◌*◌, ◌/◌, ◌^◌, Bool, not, ◌==◌, if◌then◌else◌}

pub record Metrics : Type 0 where
  pub cpu : ℕ
  pub memory : ℕ
  pub active_conns : ℕ
  pub ewma_delay : ℕ
  pub error : Bool
  pub preheating : Bool
  pub delay_scale : Bool

unfoldable pub pack_metrics_pack : Metrics → ℕ
pack_metrics_pack m =
    let p1 = bit_or 0 (bit_and m.cpu 0x1F) in
    let p2 = bit_or p1 (bit_and m.memory 0x1F * 2 ^ 5) in
    let p3 = bit_or p2 (bit_and m.active_conns 0x3FF * 2 ^ 10) in
    let p4 = bit_or p3 (bit_and m.ewma_delay 0x1FF * 2 ^ 20) in
    let p5 = if m.error then bit_or p4 (1 * 2 ^ 29) else p4 in
    let p6 = if m.preheating then bit_or p5 (1 * 2 ^ 30) else p5 in
    if m.delay_scale then bit_or p6 (1 * 2 ^ 31) else p6

-- `bool(n)`
abbrev pub to_bool : ℕ → Bool
to_bool n = not (n == 0)

unfoldable pub unpack_metrics_pack : ℕ → Metrics
unpack_metrics_pack pack = record {
  cpu = bit_and pack 0x1F;
  memory = bit_and (pack / 2 ^ 5) 0x1F;
  active_conns = bit_and (pack / 2 ^ 10) 0x3FF;
  ewma_delay = bit_and (pack / 2 ^ 20) 0x1FF;
  error = to_bool (bit_and (pack / 2 ^ 29) 1);
  preheating = to_bool (bit_and (pack / 2 ^ 30) 1);
  delay_scale = to_bool (bit_and (pack / 2 ^ 31) 1);
}

-- `cpu_percent` and `memory_percent`, in hundredths
unfoldable pub percent : ℕ → ℕ
percent level = level * 322
