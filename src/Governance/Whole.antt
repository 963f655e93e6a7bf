-- ===== src/Governance/Whole.antt =====
-- The round trip of a whole block.
use hmmp_python_sdk.Base.{
  ℕ, ◌^◌, ◌<◌, ◌≡◌, ◌≢◌, refl, sym, ap, ◌∙◌, [], ◌∷◌, ◌++◌, append-nil, append_assoc, Bytes, Text,
  length, All, Option, none, some, ok, ==_iff, ◌⊎◌, arith, nat_eq,
}
use hmmp_python_sdk.Base.Dict
use hmmp_python_sdk.Base.Dict.{Dict}
use hmmp_python_sdk.Codec.Utf8.{encode, decode-encode_ok}
use hmmp_python_sdk.Governance.Block.{
  TraceContext, MethodMetrics, GovernanceBlock, empty_block, tag_trace_context,
  tag_traffic_coloring, tag_method_metrics, tag_tenant_quota_token, trace_to_bytes, token_to_bytes,
  write_unknown, write_trace, write_coloring, write_metrics, write_token, to_bytes, add_entry,
}
use hmmp_python_sdk.Governance.Parse.{from_bytes}
use hmmp_python_sdk.Governance.Total.{parse_loop_end}
use hmmp_python_sdk.Governance.RoundTrip.{
  entry, Parses, Parses-entry, write_entry-entry, trace-trace, metrics-metrics, token-token,
  coloring-coloring,
}

abbrev pub FitsTrace : Option TraceContext → Type 0
FitsTrace none = Unit
FitsTrace (some t) = (length t.trace_id ≡ 16) × (length t.span_id ≡ 8)

abbrev pub FitsColoring : Option Text → Type 0
FitsColoring none = Unit
FitsColoring (some t) = (bs : Bytes) × (encode t ≡ ok bs) × (length bs < 256)

abbrev pub FitsMetrics : Option MethodMetrics → Type 0
FitsMetrics none = Unit
FitsMetrics (some m) = (m.queue_duration_us < 2 ^ 32) × (m.execution_duration_ms < 2 ^ 32)

abbrev pub FitsToken : Option Bytes → Type 0
FitsToken none = Unit
FitsToken (some t) = length t ≡ 16

-- A tag of one byte that is none of the four known ones, with a value that fits its length field.
abbrev pub FitsUnknown : ℕ × Bytes → Type 0
FitsUnknown (tag, value) = (tag < 256) × ((tag ≡ 0) ⊎ (4 < tag)) × (length value < 65536)

abbrev pub HasTagsApart : Dict ℕ Bytes → Type 0
HasTagsApart [] = Unit
HasTagsApart (e ∷ d) = All (λ (f : ℕ × Bytes). e.0 ≢ f.0) d × HasTagsApart d

-- The sizes that the documentation gives for the parts of a block.
pub record IsDocumented (b : GovernanceBlock) : Type 0 where
  pub trace : FitsTrace b.trace_context
  pub coloring : FitsColoring b.traffic_coloring
  pub metrics : FitsMetrics b.method_metrics
  pub token : FitsToken b.tenant_quota_token
  pub unknown : All FitsUnknown b.unknown_tags
  pub apart : HasTagsApart b.unknown_tags

abbrev parts :
    Option TraceContext
    → Option Text
    → Option MethodMetrics
    → Option Bytes
    → Dict ℕ Bytes
    → GovernanceBlock
parts t c m q u = record {
  trace_context = t;
  traffic_coloring = c;
  method_metrics = m;
  tenant_quota_token = q;
  unknown_tags = u;
}

-- Each part, written, appends a layout; and the layout sets the part when it is parsed.
module _ (w : Bytes) where
  trace_part :
      (o : Option TraceContext)
      → FitsTrace o
      → (out : Bytes) × (write_trace w o ≡ w ++ out)
        × ((rest : Bytes) (r : GovernanceBlock)
            → Parses (parts o none none none []) rest r
            → Parses empty_block (out ++ rest) r)
  trace_part none h = ([], sym (append-nil w), λ rest r p. p)
  trace_part (some t) h =
      let (parsed, size) = trace-trace t h.0 h.1 in
      (
        entry tag_trace_context (trace_to_bytes t),
        write_entry-entry tag_trace_context (trace_to_bytes t) (omega arith) (omega (arith, size))
            w,
        λ rest r.
            Parses-entry tag_trace_context (trace_to_bytes t) rest empty_block
              (parts (some t) none none none []) r (omega arith) (omega (arith, size))
              (unfold add_entry in rw parsed),
      )

  coloring_part :
      (t : Option TraceContext) (o : Option Text)
      → FitsColoring o
      → (out : Bytes) × (write_coloring w o ≡ ok (w ++ out))
        × ((rest : Bytes) (r : GovernanceBlock)
            → Parses (parts t o none none []) rest r
            → Parses (parts t none none none []) (out ++ rest) r)
  coloring_part t none h = ([], ap ok (sym (append-nil w)), λ rest r p. p)
  coloring_part t (some c) (bs, e, size) = (
    entry tag_traffic_coloring bs,
    rw (coloring-coloring c bs e size)
        (ap ok (write_entry-entry tag_traffic_coloring bs (omega arith) (omega arith) w)),
    λ rest r.
        Parses-entry tag_traffic_coloring bs rest (parts t none none none [])
          (parts t (some c) none none []) r (omega arith) (omega arith)
          (unfold add_entry in rw (decode-encode_ok c bs e)),
  )

  metrics_part :
      (t : Option TraceContext) (c : Option Text) (o : Option MethodMetrics)
      → FitsMetrics o
      → (out : Bytes) × (write_metrics w o ≡ ok (w ++ out))
        × ((rest : Bytes) (r : GovernanceBlock)
            → Parses (parts t c o none []) rest r
            → Parses (parts t c none none []) (out ++ rest) r)
  metrics_part t c none h = ([], ap ok (sym (append-nil w)), λ rest r p. p)
  metrics_part t c (some m) h =
      let (value, written, parsed, size) = metrics-metrics m h.0 h.1 in
      (
        entry tag_method_metrics value,
        rw written (
            ap ok
              (write_entry-entry tag_method_metrics value (omega arith) (omega (arith, size)) w)),
        λ rest r.
            Parses-entry tag_method_metrics value rest (parts t c none none [])
              (parts t c (some m) none []) r (omega arith) (omega (arith, size))
              (unfold add_entry in rw parsed),
      )

  token_part :
      (t : Option TraceContext) (c : Option Text) (m : Option MethodMetrics) (o : Option Bytes)
      → FitsToken o
      → (out : Bytes) × (write_token w o ≡ w ++ out)
        × ((rest : Bytes) (r : GovernanceBlock)
            → Parses (parts t c m o []) rest r
            → Parses (parts t c m none []) (out ++ rest) r)
  token_part t c m none h = ([], sym (append-nil w), λ rest r p. p)
  token_part t c m (some q) h =
      let (parsed, size) = token-token q h in
      (
        entry tag_tenant_quota_token (token_to_bytes q),
        write_entry-entry tag_tenant_quota_token (token_to_bytes q) (omega arith)
            (omega (arith, size)) w,
        λ rest r.
            Parses-entry tag_tenant_quota_token (token_to_bytes q) rest (parts t c m none [])
              (parts t c m (some q) []) r (omega arith) (omega (arith, size))
              (unfold add_entry in rw parsed),
      )

put-fresh :
    (d : Dict ℕ Bytes) (tag : ℕ) (value : Bytes)
    → All (λ (f : ℕ × Bytes). f.0 ≢ tag) d
    → Dict.put d tag value ≡ d ++ ((tag, value) ∷ [])
unfolding Dict.put
put-fresh [] tag value h = refl
put-fresh ((t, v) ∷ d) tag value h = ground (arith, put-fresh d tag value h.1, ==_iff t tag, h.0)

-- None of the tags read so far is among those to come.
abbrev AllApart : Dict ℕ Bytes → Dict ℕ Bytes → Type 0
AllApart [] u = Unit
AllApart (e ∷ d) u = All (λ (f : ℕ × Bytes). e.0 ≢ f.0) u × AllApart d u

AllApart-head :
    (d u : Dict ℕ Bytes) (e : ℕ × Bytes) → AllApart d (e ∷ u) → All (λ (f : ℕ × Bytes). f.0 ≢ e.0) d
AllApart-head [] u e k = tt
AllApart-head (f ∷ d) u e k = (k.0.0, AllApart-head d u e k.1)

AllApart-step :
    (d u : Dict ℕ Bytes) (e : ℕ × Bytes)
    → AllApart d (e ∷ u)
    → All (λ (f : ℕ × Bytes). e.0 ≢ f.0) u
    → AllApart (d ++ (e ∷ [])) u
AllApart-step [] u e k h = (h, tt)
AllApart-step (f ∷ d) u e k h = (k.0.1, AllApart-step d u e k.1 h)

add_unknown :
    (b : GovernanceBlock) (tag : ℕ) (value : Bytes)
    → (tag ≡ 0) ⊎ (4 < tag)
    → add_entry b tag value ≡ ok (record b { unknown_tags = Dict.put b.unknown_tags tag value })
unfolding add_entry
add_unknown b tag value h = ground arith

unknown_part :
    (w : Bytes) (t : Option TraceContext) (c : Option Text) (m : Option MethodMetrics)
    (q : Option Bytes) (d u : Dict ℕ Bytes)
    → All FitsUnknown u
    → HasTagsApart u
    → AllApart d u
    → (out : Bytes) × (write_unknown w u ≡ w ++ out)
      × Parses (parts t c m q d) out (parts t c m q (d ++ u))
unfolding write_unknown
unknown_part w t c m q d [] f h k =
    ([], sym (append-nil w), λ fuel l. rw append-nil (parse_loop_end fuel _))
unknown_part w t c m q d ((tag, value) ∷ u) f h k =
    let (out, written, parsed) =
      unknown_part (w ++ entry tag value) t c m q (d ++ ((tag, value) ∷ [])) u f.1 h.1
        (AllApart-step d u (tag, value) k h.0) in
    (
      entry tag value ++ out,
      rw (write_entry-entry tag value f.0.0 f.0.2 w)
          (written ∙ append_assoc w (entry tag value) out),
      Parses-entry tag value out (parts t c m q d) (parts t c m q (d ++ ((tag, value) ∷ [])))
          (parts t c m q (d ++ ((tag, value) ∷ u))) f.0.0 f.0.2
          (add_unknown (parts t c m q d) tag value f.0.1
            ∙ ap (λ u'. ok (parts t c m q u'))
                (put-fresh d tag value (AllApart-head d u (tag, value) k)))
          (rw append_assoc at parsed),
    )

-- A block whose parts have their documented sizes serialises, and parsing the bytes gives it back.
pub parse-to_bytes :
    (b : GovernanceBlock)
    → IsDocumented b
    → (bs : Bytes) × (to_bytes b ≡ ok bs) × (from_bytes bs ≡ some (ok b))
unfolding to_bytes from_bytes
parse-to_bytes b v =
    let t = b.trace_context in
    let c = b.traffic_coloring in
    let m = b.method_metrics in
    let q = b.tenant_quota_token in
    let (o1, e1, p1) = trace_part [] t v.trace in
    let (o2, e2, p2) = coloring_part o1 t c v.coloring in
    let (o3, e3, p3) = metrics_part (o1 ++ o2) t c m v.metrics in
    let (o4, e4, p4) = token_part ((o1 ++ o2) ++ o3) t c m q v.token in
    let (o5, e5, p5) =
      unknown_part (((o1 ++ o2) ++ o3) ++ o4) t c m q [] b.unknown_tags v.unknown v.apart tt in
    (
      o1 ++ (o2 ++ (o3 ++ (o4 ++ o5))),
      rw (e1, e2, e3, e4, e5) (ap ok (simp append_assoc)),
      p1 _ b (p2 _ b (p3 _ b (p4 _ b p5))) (length (o1 ++ (o2 ++ (o3 ++ (o4 ++ o5)))))
          (omega arith),
    )
