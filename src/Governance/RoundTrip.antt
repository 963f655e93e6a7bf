-- ===== src/Governance/RoundTrip.antt =====
-- A block whose parts have their documented sizes is parsed back from its serialisation.
use hmmp_python_sdk.Base.{
  ℕ, zero, suc, ◌+◌, ◌-◌, ◌^◌, ◌≤◌, ◌<◌, ◌≡◌, refl, sym, ap, ◌∙◌, [], ◌∷◌, ◌++◌, append-nil,
  append_assoc, Bytes, Text, length, take, drop, length-append, take-append, drop-append, some, ok,
  arith, nat_eq,
}
use hmmp_python_sdk.Codec.Endian.{be, length-be, pack_be_ok, from_be-be}
use hmmp_python_sdk.Codec.Utf8.{encode}
use hmmp_python_sdk.Codec.Writer.{write_u8, write_u16}
use hmmp_python_sdk.Codec.RoundTrip.{read_uint-be, read_bytes-append_self}
use hmmp_python_sdk.Frame.Header.{slice}
use hmmp_python_sdk.Governance.Block.{
  TraceContext, MethodMetrics, GovernanceBlock, ljust, trace_to_bytes, trace_from_bytes,
  coloring_to_bytes, metrics_to_bytes, metrics_from_bytes, token_to_bytes, token_from_bytes,
  write_entry, add_entry,
}
use hmmp_python_sdk.Governance.Parse.{read_entry, after_entry, parse_loop}
use hmmp_python_sdk.Governance.Total.{parse_loop_step}
use native.Mathlib.Nat.{mod-eq_of_lt}

abbrev pub entry : ℕ → Bytes → Bytes
entry tag value = be 1 tag ++ (be 2 (length value) ++ value)

module _ (tag : ℕ) (value : Bytes) (tag_fits : tag < 256) (value_fits : length value < 65536) where
  pub write_entry-entry : (w : Bytes) → write_entry w tag value ≡ w ++ entry tag value
  unfolding write_entry write_u8 write_u16
  write_entry-entry w =
      rw (mod-eq_of_lt tag_fits, mod-eq_of_lt value_fits)
        (append_assoc (w ++ be 1 tag) (be 2 (length value)) value
          ∙ append_assoc w (be 1 tag) (be 2 (length value) ++ value))

  read_entry-entry :
      (b : GovernanceBlock) (rest : Bytes)
      → read_entry b (entry tag value ++ rest) ≡ (add_entry b tag value, rest)
  unfolding read_entry
  read_entry-entry b rest =
      rw
        (
          append_assoc (be 1 tag) (be 2 (length value) ++ value) rest,
          append_assoc (be 2 (length value)) value rest,
        )
        (rw (
          read_uint-be 1 tag (be 2 (length value) ++ (value ++ rest)) tag_fits,
          read_uint-be 2 (length value) (value ++ rest) value_fits,
          read_bytes-append_self value rest,
        ))

-- With enough rounds the loop comes to the result `r`.
abbrev pub Parses : GovernanceBlock → Bytes → GovernanceBlock → Type 0
Parses b s r = (fuel : ℕ) → length s ≤ fuel → parse_loop fuel b s ≡ some (ok r)

length-entry :
    (tag : ℕ) (value rest : Bytes)
    → length (entry tag value ++ rest) ≡ 3 + length value + length rest
length-entry tag value rest = omega (
  arith,
  length-append (entry tag value) rest,
  length-append (be 1 tag) (be 2 (length value) ++ value),
  length-append (be 2 (length value)) value,
  length-be 1 tag,
  length-be 2 (length value),
)

pub Parses-entry :
    (tag : ℕ) (value rest : Bytes) (b b' r : GovernanceBlock)
    → tag < 256
    → length value < 65536
    → add_entry b tag value ≡ ok b'
    → Parses b' rest r
    → Parses b (entry tag value ++ rest) r
unfolding be
Parses-entry tag value rest b b' r ht hv added next zero h =
    absurd (omega (arith, length-entry tag value rest))
Parses-entry tag value rest b b' r ht hv added next (suc fuel) h =
    parse_loop_step fuel b _ _
    ∙ ap (λ p. after_entry b p (parse_loop fuel)) (read_entry-entry tag value ht hv b rest)
    ∙ rw added (next fuel (omega (arith, length-entry tag value rest)))

ljust_exact : (xs : Bytes) (n : ℕ) → length xs ≡ n → ljust n xs ≡ xs
unfolding ljust
ljust_exact xs n h = rw (← h) (rw take_all (rw sub_self (append-nil xs)))
  where
    take_all : take (length xs) xs ≡ xs
    take_all = ap (take (length xs)) (sym (append-nil xs)) ∙ take-append xs []

    sub_self : length xs - length xs ≡ 0
    sub_self = omega arith

pub trace-trace :
    (t : TraceContext)
    → length t.trace_id ≡ 16
    → length t.span_id ≡ 8
    → (trace_from_bytes (trace_to_bytes t) ≡ ok t) × (length (trace_to_bytes t) ≡ 24)
unfolding trace_to_bytes trace_from_bytes
trace-trace t h k =
    rw (ljust_exact t.trace_id 16 h, ljust_exact t.span_id 8 k)
      (ground (arith, total, head', tail'), total)
  where
    total : length (t.trace_id ++ t.span_id) ≡ 24
    total = length-append t.trace_id t.span_id ∙ omega arith

    head' : take 16 (t.trace_id ++ t.span_id) ≡ t.trace_id
    head' = rw (← h) (take-append t.trace_id t.span_id)

    tail' : take 8 (drop 16 (t.trace_id ++ t.span_id)) ≡ t.span_id
    tail' = rw (← h) (
        rw drop-append (
          ap (λ n. take n t.span_id) (sym k)
          ∙ ap (take (length t.span_id)) (sym (append-nil t.span_id))
          ∙ take-append t.span_id []))

numbers_layout :
    (q e : ℕ)
    → let bs = be 4 q ++ be 4 e in
      (slice 0 4 (take 8 bs) ≡ be 4 q) × (slice 4 4 (take 8 bs) ≡ be 4 e) × (length bs ≡ 8)
unfolding be slice
numbers_layout q e = (refl, refl, refl)

metrics_from_bytes_numbers :
    (m : MethodMetrics)
    → m.queue_duration_us < 2 ^ 32
    → m.execution_duration_ms < 2 ^ 32
    → metrics_from_bytes (be 4 m.queue_duration_us ++ be 4 m.execution_duration_ms) ≡ ok m
unfolding metrics_from_bytes
metrics_from_bytes_numbers m h k =
    let (a, b, c) = numbers_layout m.queue_duration_us m.execution_duration_ms in
    ground
      (arith, a, b, c, from_be-be 4 m.queue_duration_us h, from_be-be 4 m.execution_duration_ms k)

pub metrics-metrics :
    (m : MethodMetrics)
    → m.queue_duration_us < 2 ^ 32
    → m.execution_duration_ms < 2 ^ 32
    → (value : Bytes) × (metrics_to_bytes m ≡ ok value)
      × (metrics_from_bytes value ≡ ok m)
      × (length value ≡ 8)
unfolding metrics_to_bytes
metrics-metrics m h k = (
  be 4 m.queue_duration_us ++ be 4 m.execution_duration_ms,
  rw (pack_be_ok 4 m.queue_duration_us h, pack_be_ok 4 m.execution_duration_ms k),
  metrics_from_bytes_numbers m h k,
  (numbers_layout m.queue_duration_us m.execution_duration_ms).2,
)

pub token-token :
    (t : Bytes)
    → length t ≡ 16
    → (token_from_bytes (token_to_bytes t) ≡ ok t) × (length (token_to_bytes t) ≡ 16)
unfolding token_to_bytes token_from_bytes
token-token t h = rw (ljust_exact t 16 h) (ground (arith, whole), h)
  where
    whole : take 16 t ≡ t
    whole = rw (← h) (ap (take (length t)) (sym (append-nil t)) ∙ take-append t [])

pub coloring-coloring :
    (t : Text) (bs : Bytes) → encode t ≡ ok bs → length bs < 256 → coloring_to_bytes t ≡ ok bs
unfolding coloring_to_bytes
coloring-coloring t bs e h = rw e (ap ok (take_within 255 bs (omega arith)))
  where
    take_within : (n : ℕ) (xs : Bytes) → length xs ≤ n → take n xs ≡ xs
    take_within zero [] l = refl
    take_within zero (x ∷ xs) l = absurd (omega arith)
    take_within (suc n) [] l = refl
    take_within (suc n) (x ∷ xs) l = ap (λ z. x ∷ z) (take_within n xs (omega arith))
