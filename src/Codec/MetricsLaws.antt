-- ===== src/Codec/MetricsLaws.antt =====
-- The metrics word holds its fields apart.
use Prim.Native.Nat.{bit_and, bit_or, bit_or-bitwise}
use hmmp_python_sdk.Base.{
  ℕ, ◌+◌, ◌*◌, ◌/◌, ◌%◌, ◌^◌, ◌<◌, ◌≡◌, ap, ◌∙◌, ◌≤◌, Bool, true, false, if◌then◌else◌, arith,
}
use hmmp_python_sdk.Base.Bits.{bit_and-mask, bit_or-shift}
use hmmp_python_sdk.Codec.Metrics.{Metrics, pack_metrics_pack, to_bool, unpack_metrics_pack}

low5 : (a : ℕ) → bit_and a 0x1F ≡ a % 32
low5 a = omega (arith, bit_and-mask 5 a)

low9 : (a : ℕ) → bit_and a 0x1FF ≡ a % 512
low9 a = omega (arith, bit_and-mask 9 a)

low10 : (a : ℕ) → bit_and a 0x3FF ≡ a % 1024
low10 a = omega (arith, bit_and-mask 10 a)

low1 : (a : ℕ) → bit_and a 1 ≡ a % 2
low1 a = omega (arith, bit_and-mask 1 a)

or5 : (a b : ℕ) → a < 2 ^ 5 → bit_or a (b * 2 ^ 5) ≡ a + b * 2 ^ 5
or5 a b h = ap (bit_or a) (omega arith) ∙ bit_or-shift 5 a b (omega arith) ∙ omega arith

or10 : (a b : ℕ) → a < 2 ^ 10 → bit_or a (b * 2 ^ 10) ≡ a + b * 2 ^ 10
or10 a b h = ap (bit_or a) (omega arith) ∙ bit_or-shift 10 a b (omega arith) ∙ omega arith

or20 : (a b : ℕ) → a < 2 ^ 20 → bit_or a (b * 2 ^ 20) ≡ a + b * 2 ^ 20
or20 a b h = ap (bit_or a) (omega arith) ∙ bit_or-shift 20 a b (omega arith) ∙ omega arith

or29 : (a b : ℕ) → a < 2 ^ 29 → bit_or a (b * 2 ^ 29) ≡ a + b * 2 ^ 29
or29 a b h = ap (bit_or a) (omega arith) ∙ bit_or-shift 29 a b (omega arith) ∙ omega arith

or30 : (a b : ℕ) → a < 2 ^ 30 → bit_or a (b * 2 ^ 30) ≡ a + b * 2 ^ 30
or30 a b h = ap (bit_or a) (omega arith) ∙ bit_or-shift 30 a b (omega arith) ∙ omega arith

or31 : (a b : ℕ) → a < 2 ^ 31 → bit_or a (b * 2 ^ 31) ≡ a + b * 2 ^ 31
or31 a b h = ap (bit_or a) (omega arith) ∙ bit_or-shift 31 a b (omega arith) ∙ omega arith

abbrev bit : Bool → ℕ
bit true = 1
bit false = 0

-- The word as a sum.
abbrev pub word : Metrics → ℕ
word m =
    m.cpu % 32
    + m.memory % 32 * 2 ^ 5
    + m.active_conns % 1024 * 2 ^ 10
    + m.ewma_delay % 512 * 2 ^ 20
    + bit m.error * 2 ^ 29
    + bit m.preheating * 2 ^ 30
    + bit m.delay_scale * 2 ^ 31

or_bit29 :
    (c : Bool) (a : ℕ) → a < 2 ^ 29 → (if c then bit_or a (1 * 2 ^ 29) else a) ≡ a + bit c * 2 ^ 29
or_bit29 true a h = or29 a 1 h
or_bit29 false a h = omega arith

or_bit30 :
    (c : Bool) (a : ℕ) → a < 2 ^ 30 → (if c then bit_or a (1 * 2 ^ 30) else a) ≡ a + bit c * 2 ^ 30
or_bit30 true a h = or30 a 1 h
or_bit30 false a h = omega arith

or_bit31 :
    (c : Bool) (a : ℕ) → a < 2 ^ 31 → (if c then bit_or a (1 * 2 ^ 31) else a) ≡ a + bit c * 2 ^ 31
or_bit31 true a h = or31 a 1 h
or_bit31 false a h = omega arith

bit-le : (c : Bool) → bit c ≤ 1
bit-le true = omega arith
bit-le false = omega arith

zero_or : (a : ℕ) → bit_or 0 a ≡ a
zero_or a = bit_or-bitwise 0 a

-- The numeric fields, and then the fields up to each flag.
abbrev numbers : Metrics → ℕ
numbers m =
    m.cpu % 32
    + m.memory % 32 * 2 ^ 5
    + m.active_conns % 1024 * 2 ^ 10
    + m.ewma_delay % 512 * 2 ^ 20

-- The or of the shifted fields is the sum of the fields reduced to their widths.
pub pack-word : (m : Metrics) → pack_metrics_pack m ≡ word m
unfolding pack_metrics_pack
pack-word m =
    let two = m.cpu % 32 + m.memory % 32 * 2 ^ 5 in
    rw (
      zero_or (bit_and m.cpu 0x1F),
      low5 m.cpu,
      low5 m.memory,
      low10 m.active_conns,
      low9 m.ewma_delay,
      or5 (m.cpu % 32) (m.memory % 32) (omega arith),
      or10 two (m.active_conns % 1024) (omega arith),
      or20 (two + m.active_conns % 1024 * 2 ^ 10) (m.ewma_delay % 512) (omega arith),
      or_bit29 m.error (numbers m) (omega arith),
      or_bit30 m.preheating (numbers m + bit m.error * 2 ^ 29) (omega (arith, bit-le m.error)),
      or_bit31 m.delay_scale (numbers m + bit m.error * 2 ^ 29 + bit m.preheating * 2 ^ 30)
          (omega (arith, bit-le m.error, bit-le m.preheating)),
    )

to_bool-bit : (n : ℕ) (c : Bool) → n ≡ bit c → to_bool n ≡ c
to_bool-bit n true h = ground arith
to_bool-bit n false h = ground arith

-- Unpacking a packed word gives each numeric field reduced to its width, and each flag.
pub unpack-pack :
    (m : Metrics)
    → unpack_metrics_pack (pack_metrics_pack m) ≡ record m {
      cpu = m.cpu % 32;
      memory = m.memory % 32;
      active_conns = m.active_conns % 1024;
      ewma_delay = m.ewma_delay % 512;
    }
unfolding unpack_metrics_pack
unpack-pack m = λ i. record {
  cpu = eq_cpu i;
  memory = eq_memory i;
  active_conns = eq_conns i;
  ewma_delay = eq_delay i;
  error = eq_error i;
  preheating = eq_preheating i;
  delay_scale = eq_scale i;
}
  where
    e : pack_metrics_pack m ≡ word m
    e = pack-word m

    eq_cpu : bit_and (pack_metrics_pack m) 0x1F ≡ m.cpu % 32
    eq_cpu = low5 (pack_metrics_pack m) ∙ omega (arith, e)

    eq_memory : bit_and (pack_metrics_pack m / 2 ^ 5) 0x1F ≡ m.memory % 32
    eq_memory = low5 (pack_metrics_pack m / 2 ^ 5) ∙ omega (arith, e)

    eq_conns : bit_and (pack_metrics_pack m / 2 ^ 10) 0x3FF ≡ m.active_conns % 1024
    eq_conns = low10 (pack_metrics_pack m / 2 ^ 10) ∙ omega (arith, e)

    eq_delay : bit_and (pack_metrics_pack m / 2 ^ 20) 0x1FF ≡ m.ewma_delay % 512
    eq_delay = low9 (pack_metrics_pack m / 2 ^ 20) ∙ omega (arith, e)

    eq_error : to_bool (bit_and (pack_metrics_pack m / 2 ^ 29) 1) ≡ m.error
    eq_error =
        to_bool-bit _ m.error
          (low1 (pack_metrics_pack m / 2 ^ 29) ∙ omega (arith, e, bit-le m.error))

    eq_preheating : to_bool (bit_and (pack_metrics_pack m / 2 ^ 30) 1) ≡ m.preheating
    eq_preheating = to_bool-bit _ m.preheating (
        low1 (pack_metrics_pack m / 2 ^ 30) ∙ omega (arith, e, bit-le m.error, bit-le m.preheating))

    eq_scale : to_bool (bit_and (pack_metrics_pack m / 2 ^ 31) 1) ≡ m.delay_scale
    eq_scale = to_bool-bit _ m.delay_scale (
        low1 (pack_metrics_pack m / 2 ^ 31)
        ∙ omega (arith, e, bit-le m.error, bit-le m.preheating, bit-le m.delay_scale))
