-- ===== src/Codec/Utf8.antt =====
-- The standard library's UTF-8 codec: `str.encode("utf-8")` and the strict `bytes.decode("utf-8")`.
use hmmp_python_sdk.Base.{
  ℕ, zero, suc, ◌+◌, ◌-◌, ◌*◌, ◌/◌, ◌%◌, ◌≤◌, ◌<◌, ◌≡◌, refl, ◌∙◌, inl, inr, [], ◌∷◌, ◌++◌, Bytes,
  Text, All, Result, Raised, ok, err, unicode_error, ◌>>=◌, Bool, true, ◌&&◌, not, Bool-cases,
  Result-cases, ltb→lt, ltb-false, Option, none, some, ltb, leb, ◌==◌, if◌then◌else◌, arith,
}

-- A code point that has an encoding: at most 0x10FFFF, and no surrogate.
unfoldable pub is_scalar : ℕ → Bool
is_scalar c = ltb c 0x110000 && not (leb 0xd800 c && ltb c 0xe000)

unfoldable pub encode_char : ℕ → Bytes
encode_char c =
    if ltb c 0x80
    then c ∷ []
    else if ltb c 0x800
    then (0xc0 + c / 0x40) ∷ (0x80 + c % 0x40) ∷ []
    else if ltb c 0x10000
    then (0xe0 + c / 0x1000) ∷ (0x80 + c / 0x40 % 0x40) ∷ (0x80 + c % 0x40) ∷ []
    else (0xf0 + c / 0x40000)
      ∷ (0x80 + c / 0x1000 % 0x40)
      ∷ (0x80 + c / 0x40 % 0x40)
      ∷ (0x80 + c % 0x40)
      ∷ []

unfoldable pub encode : Text → Result Bytes
unfolding is_scalar encode_char
encode [] = ok []
encode (c ∷ s) =
    let rest = encode s in
    if is_scalar c then (do bs ← rest; ok (encode_char c ++ bs)) else err unicode_error

-- Where the decoder stands inside a character: the continuation bytes that are missing, the bits
-- read so far, and the least code point that needs this many bytes.
record Partial : Type 0 where
  need : ℕ
  acc : ℕ
  least : ℕ

abbrev start : Partial
start = record { need = 0; acc = 0; least = 0 }

abbrev lead : ℕ → Option (Option ℕ × Partial)
lead b =
    if ltb b 0x80
    then some (some b, start)
    else if ltb b 0xc0
    then none
    else if ltb b 0xe0
    then some (none, record { need = 1; acc = b - 0xc0; least = 0x80 })
    else if ltb b 0xf0
    then some (none, record { need = 2; acc = b - 0xe0; least = 0x800 })
    else if ltb b 0xf8
    then some (none, record { need = 3; acc = b - 0xf0; least = 0x10000 })
    else none

abbrev complete : ℕ → ℕ → ℕ → Option (Option ℕ × Partial)
complete zero acc least = if leb least acc && is_scalar acc then some (some acc, start) else none
complete (suc n) acc least = some (none, record { need = suc n; acc = acc; least = least })

-- One byte: a refusal, or the character that it completes, if any, and where the decoder stands.
decode_step : ℕ → ℕ → ℕ → ℕ → Option (Option ℕ × Partial)
unfolding is_scalar
decode_step zero acc least b = lead b
decode_step (suc n) acc least b =
    if leb 0x80 b && ltb b 0xc0 then complete n (acc * 0x40 + (b - 0x80)) least else none

abbrev emit : Option ℕ → Text → Text
emit none s = s
emit (some c) s = c ∷ s

decode_loop : Partial → Bytes → Result Text
unfolding decode_step
decode_loop p [] = if p.need == 0 then ok [] else err unicode_error
decode_loop p (b ∷ bs) = elim (decode_step p.need p.acc p.least b) [
  | none ↦ err unicode_error
  | some (c, q) ↦ do s ← decode_loop q bs; ok (emit c s)
]

unfoldable pub decode : Bytes → Result Text
unfolding decode_loop
decode bs = decode_loop start bs

-- A text that UTF-8 can carry.
abbrev pub IsText : Text → Type 0
IsText = All (λ c. is_scalar c ≡ true)

bind_ok {ℓ} : {A : Type ℓ} (m : Result A) → (m >>= λ s. ok s) ≡ m
bind_ok (ok a) = refl
bind_ok (err e) = refl

-- One lemma for each kind of byte: a leading byte, a continuation byte, and the last one.
module _ (bs : Bytes) where
  one_byte :
      (c : ℕ) → c < 0x80 → decode_loop start (c ∷ bs) ≡ (do s ← decode_loop start bs; ok (c ∷ s))
  unfolding decode_loop
  one_byte c h = ground arith

  lead_two :
      (y : ℕ)
      → y < 0x20
      → decode_loop start ((0xc0 + y) ∷ bs)
        ≡ decode_loop (record { need = 1; acc = y; least = 0x80 }) bs
  unfolding decode_loop
  lead_two y h =
      ground (arith, bind_ok (decode_loop (record { need = 1; acc = y; least = 0x80 }) bs))

  lead_three :
      (y : ℕ)
      → y < 0x10
      → decode_loop start ((0xe0 + y) ∷ bs)
        ≡ decode_loop (record { need = 2; acc = y; least = 0x800 }) bs
  unfolding decode_loop
  lead_three y h =
      ground (arith, bind_ok (decode_loop (record { need = 2; acc = y; least = 0x800 }) bs))

  lead_four :
      (y : ℕ)
      → y < 8
      → decode_loop start ((0xf0 + y) ∷ bs)
        ≡ decode_loop (record { need = 3; acc = y; least = 0x10000 }) bs
  unfolding decode_loop
  lead_four y h =
      ground (arith, bind_ok (decode_loop (record { need = 3; acc = y; least = 0x10000 }) bs))

  middle :
      (n acc least x : ℕ)
      → x < 0x40
      → decode_loop (record { need = suc (suc n); acc = acc; least = least }) ((0x80 + x) ∷ bs)
        ≡ decode_loop (record { need = suc n; acc = acc * 0x40 + x; least = least }) bs
  unfolding decode_loop
  middle n acc least x h = ground (
    arith,
    bind_ok (decode_loop (record { need = suc n; acc = acc * 0x40 + x; least = least }) bs),
  )

  last :
      (acc least x c : ℕ)
      → x < 0x40
      → c ≡ acc * 0x40 + x
      → least ≤ c
      → is_scalar c ≡ true
      → decode_loop (record { need = 1; acc = acc; least = least }) ((0x80 + x) ∷ bs)
        ≡ (do s ← decode_loop start bs; ok (c ∷ s))
  unfolding decode_loop
  last acc least x c h e l v = ground arith

two_bytes :
    (c : ℕ) (bs : Bytes)
    → 0x80 ≤ c
    → c < 0x800
    → is_scalar c ≡ true
    → decode_loop start ((0xc0 + c / 0x40) ∷ (0x80 + c % 0x40) ∷ bs)
      ≡ (do s ← decode_loop start bs; ok (c ∷ s))
two_bytes c bs l h v =
    lead_two _ (c / 0x40) (omega arith)
    ∙ last bs (c / 0x40) 0x80 (c % 0x40) c (omega arith) (omega arith) l v

three_bytes :
    (c : ℕ) (bs : Bytes)
    → 0x800 ≤ c
    → c < 0x10000
    → is_scalar c ≡ true
    → decode_loop start ((0xe0 + c / 0x1000) ∷ (0x80 + c / 0x40 % 0x40) ∷ (0x80 + c % 0x40) ∷ bs)
      ≡ (do s ← decode_loop start bs; ok (c ∷ s))
three_bytes c bs l h v =
    lead_three _ (c / 0x1000) (omega arith)
    ∙ middle _ 0 (c / 0x1000) 0x800 (c / 0x40 % 0x40) (omega arith)
    ∙ last bs _ 0x800 (c % 0x40) c (omega arith) (omega arith) l v

four_bytes :
    (c : ℕ) (bs : Bytes)
    → 0x10000 ≤ c
    → c < 0x110000
    → is_scalar c ≡ true
    → decode_loop start (
        (0xf0 + c / 0x40000)
        ∷ (0x80 + c / 0x1000 % 0x40)
        ∷ (0x80 + c / 0x40 % 0x40)
        ∷ (0x80 + c % 0x40)
        ∷ bs)
      ≡ (do s ← decode_loop start bs; ok (c ∷ s))
four_bytes c bs l h v =
    lead_four _ (c / 0x40000) (omega arith)
    ∙ middle _ 1 (c / 0x40000) 0x10000 (c / 0x1000 % 0x40) (omega arith)
    ∙ middle _ 0 _ 0x10000 (c / 0x40 % 0x40) (omega arith)
    ∙ last bs _ 0x10000 (c % 0x40) c (omega arith) (omega arith) l v

is_scalar_lt : (c : ℕ) → is_scalar c ≡ true → c < 0x110000
unfolding is_scalar
is_scalar_lt c h = ground arith

decode_loop-encode_char :
    (c : ℕ) (bs : Bytes)
    → is_scalar c ≡ true
    → decode_loop start (encode_char c ++ bs) ≡ (do s ← decode_loop start bs; ok (c ∷ s))
unfolding encode_char
decode_loop-encode_char c bs v = elim (Bool-cases (ltb c 0x80)) [
  | inl a ↦ rw a (one_byte bs c (ltb→lt c _ a))
  | inr a ↦ elim (Bool-cases (ltb c 0x800)) [
    | inl b ↦ rw (a, b) (two_bytes c bs (ltb-false c _ a) (ltb→lt c _ b) v)
    | inr b ↦ elim (Bool-cases (ltb c 0x10000)) [
      | inl d ↦ rw (a, b, d) (three_bytes c bs (ltb-false c _ b) (ltb→lt c _ d) v)
      | inr d ↦ rw (a, b, d) (four_bytes c bs (ltb-false c _ d) (is_scalar_lt c v) v)
    ]
  ]
]

-- Every text of scalar values has an encoding, and decoding it gives the text back.
pub utf8_round_trip : (s : Text) → IsText s → (bs : Bytes) × (encode s ≡ ok bs) × (decode bs ≡ ok s)
unfolding encode decode
utf8_round_trip [] h = ([], refl, unfold decode_loop in refl)
utf8_round_trip (c ∷ s) h =
    let (bs, e, d) = utf8_round_trip s h.1 in
    (encode_char c ++ bs, ground arith, decode_loop-encode_char c bs h.0 ∙ rw d)

pub encode-IsText : (s : Text) (bs : Bytes) → encode s ≡ ok bs → IsText s
unfolding encode
encode-IsText [] bs h = tt
encode-IsText (c ∷ s) bs h = elim (Bool-cases (is_scalar c)) [
  | inl v ↦ elim (Result-cases (encode s)) [
    | inl (out, e) ↦ (v, encode-IsText s out e)
    | inr (x, e) ↦ absurd (cc (rw (v, e) at h))
  ]
  | inr v ↦ absurd (cc (rw v at h))
]

-- What `encode` returned, `decode` takes back to the text.
pub decode-encode_ok : (s : Text) (bs : Bytes) → encode s ≡ ok bs → decode bs ≡ ok s
decode-encode_ok s bs h = let (out, e, d) = utf8_round_trip s (encode-IsText s bs h) in cc

decode_loop_raises :
    (p : Partial) (bs : Bytes) (e : Raised) → decode_loop p bs ≡ err e → e ≡ unicode_error
unfolding decode_loop
decode_loop_raises p [] e h = ground arith
decode_loop_raises p (b ∷ bs) e h =
    go (decode_step p.need p.acc p.least b) refl (λ q x. decode_loop_raises q bs x)
  where
    go :
        (o : Option (Option ℕ × Partial))
        → decode_step p.need p.acc p.least b ≡ o
        → ((q : Partial) (x : Raised) → decode_loop q bs ≡ err x → x ≡ unicode_error)
        → e ≡ unicode_error
    go none q ih = cc (rw (q, decode_loop) at h)
    go (some (c, r)) q ih = elim (Result-cases (decode_loop r bs)) [
      | inl (s, d) ↦ absurd (cc (rw (q, d, decode_loop) at h))
      | inr (x, d) ↦ cc (rw (q, d, decode_loop) at h, ih r x d)
    ]

-- Decoding raises nothing but UnicodeDecodeError.
pub utf8_raises : (bs : Bytes) (e : Raised) → decode bs ≡ err e → e ≡ unicode_error
unfolding decode
utf8_raises bs e h = decode_loop_raises start bs e h

test_decode : decode (0xe2 ∷ 0x82 ∷ 0xac ∷ 0x41 ∷ []) ≡ ok (0x20ac ∷ 0x41 ∷ [])
unfolding decode
test_decode = refl

test_overlong : decode (0xc0 ∷ 0x80 ∷ []) ≡ err unicode_error
unfolding decode
test_overlong = refl
