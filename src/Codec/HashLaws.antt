-- ===== src/Codec/HashLaws.antt =====
-- The metadata hash does not depend on the order in which the entries were put in.
use hmmp_python_sdk.Base.{
  ℕ, ◌%◌, ◌^◌, ◌<◌, [], ◌∷◌, List, Bytes, Text, true, false, All, is_empty, Result, ok, err, ◌>>=◌,
  ◌≡◌, ◌≢◌, refl, sym, ap, ap₂, ◌∙◌, arith, inl, inr, Raised, unicode_error, Result-cases,
}
use Prim.Native.Nat.{bit_xor, ◌*◌}
use hmmp_python_sdk.Base.Dict.{Dict}
use hmmp_python_sdk.Constants.{fnv_offset_basis, fnv_prime}
use hmmp_python_sdk.Codec.Utf8.{encode, decode-encode_ok}
use hmmp_python_sdk.Codec.Hash.{
  fnv1a_from, fnv1a_64, bytes_le, insert_entry, sort_entries, concatenate, encode_entries,
  compute_metadata_hash,
}
use mathlib.Core.List.{Perm, Permᴰ}
use mathlib.Core.Logic.{∥∥₁_elim}
use mathlib.Core.Path.{subst}

bytes_le_total : (a b : Bytes) → bytes_le a b ≡ false → bytes_le b a ≡ true
unfolding bytes_le
bytes_le_total [] b h = absurd (cc)
bytes_le_total (x ∷ a) [] h = refl
bytes_le_total (x ∷ a) (y ∷ b) h = ground (arith, bytes_le_total a b)

bytes_le_antisymm : (a b : Bytes) → bytes_le a b ≡ true → bytes_le b a ≡ true → a ≡ b
unfolding bytes_le
bytes_le_antisymm [] [] h k = refl
bytes_le_antisymm [] (y ∷ b) h k = absurd (cc)
bytes_le_antisymm (x ∷ a) [] h k = absurd (cc)
bytes_le_antisymm (x ∷ a) (y ∷ b) h k = ground (arith, bytes_le_antisymm a b)

bytes_le_trans : (a b c : Bytes) → bytes_le a b ≡ true → bytes_le b c ≡ true → bytes_le a c ≡ true
unfolding bytes_le
bytes_le_trans [] b c h k = refl
bytes_le_trans (x ∷ a) [] c h k = absurd (cc)
bytes_le_trans (x ∷ a) (y ∷ b) [] h k = absurd (cc)
bytes_le_trans (x ∷ a) (y ∷ b) (z ∷ c) h k = ground (arith, bytes_le_trans a b c)

insert_entry_comm :
    (x y : Bytes × Bytes) (es : List (Bytes × Bytes))
    → x.0 ≢ y.0
    → insert_entry x (insert_entry y es) ≡ insert_entry y (insert_entry x es)
unfolding insert_entry
insert_entry_comm x y [] ne = ground (arith, bytes_le_total x.0 y.0, bytes_le_antisymm x.0 y.0)
insert_entry_comm x y (f ∷ es) ne = ground (
  arith,
  insert_entry_comm x y es ne,
  bytes_le_total x.0 y.0,
  bytes_le_antisymm x.0 y.0,
  bytes_le_trans y.0 x.0 f.0,
  bytes_le_trans x.0 y.0 f.0,
  bytes_le_total x.0 f.0,
  bytes_le_total y.0 f.0,
)

abbrev canonical : Dict Text Text → Result (List (Bytes × Bytes))
canonical d = do es ← encode_entries d; ok (sort_entries es)

-- One more entry, encoded and put in its place.
abbrev add_encoded :
    Result Bytes → Result Bytes → Result (List (Bytes × Bytes)) → Result (List (Bytes × Bytes))
add_encoded key value r = do kb ← key; vb ← value; es ← r; ok (insert_entry (kb, vb) es)

canonical-cons :
    (k v : Text) (d : Dict Text Text)
    → canonical ((k, v) ∷ d) ≡ add_encoded (encode k) (encode v) (canonical d)
unfolding encode_entries sort_entries
canonical-cons k v d = ground arith

encode_error : (s : Text) (e : Raised) → encode s ≡ err e → e ≡ unicode_error
unfolding encode
encode_error [] e h = cc
encode_error (c ∷ s) e h = elim (Result-cases (encode s)) [
  | inl (bs, p) ↦ ground arith
  | inr (x, p) ↦ ground (arith, encode_error s x p)
]

canonical_error : (d : Dict Text Text) (e : Raised) → canonical d ≡ err e → e ≡ unicode_error
unfolding encode_entries
canonical_error [] e h = cc
canonical_error ((k, v) ∷ d) e h = elim (Result-cases (encode_entries d)) [
  | inl (es, p) ↦ ground (arith, encode_error k e, encode_error v e)
  | inr (x, p) ↦ ground (arith, encode_error k e, encode_error v e, canonical_error d x (rw p))
]

encode_injective : (s t : Text) (bs : Bytes) → encode s ≡ ok bs → encode t ≡ ok bs → s ≡ t
encode_injective s t bs p q = cc (decode-encode_ok s bs p, decode-encode_ok t bs q)

add_encoded_comm :
    (k v j w : Text) (r : Result (List (Bytes × Bytes)))
    → k ≢ j
    → ((e : Raised) → r ≡ err e → e ≡ unicode_error)
    → add_encoded (encode k) (encode v) (add_encoded (encode j) (encode w) r)
      ≡ add_encoded (encode j) (encode w) (add_encoded (encode k) (encode v) r)
add_encoded_comm k v j w r ne re =
    go (encode k) (encode v) (encode j) (encode w) r refl refl refl refl refl
  where
    go :
        (kr vr jr wr : Result Bytes) (r' : Result (List (Bytes × Bytes)))
        → encode k ≡ kr
        → encode v ≡ vr
        → encode j ≡ jr
        → encode w ≡ wr
        → r ≡ r'
        → add_encoded kr vr (add_encoded jr wr r') ≡ add_encoded jr wr (add_encoded kr vr r')
    go (ok a) (ok b) (ok c) (ok d) (ok es) p q s t u =
        ap ok (
          insert_entry_comm (a, b) (c, d) es λ e. ne (encode_injective k j a p (s ∙ ap ok (sym e))))
    go (ok a) (ok b) (ok c) (ok d) (err x) p q s t u = refl
    go (ok a) (ok b) (ok c) (err x) r' p q s t u = refl
    go (ok a) (ok b) (err x) wr r' p q s t u = refl
    go (ok a) (err y) (ok c) (ok d) r' p q s t u = refl
    go (ok a) (err y) (ok c) (err x) r' p q s t u = cc (encode_error v y q, encode_error w x t)
    go (ok a) (err y) (err x) wr r' p q s t u = cc (encode_error v y q, encode_error j x s)
    go (err y) vr (ok c) (ok d) r' p q s t u = refl
    go (err y) vr (ok c) (err x) r' p q s t u = cc (encode_error k y p, encode_error w x t)
    go (err y) vr (err x) wr r' p q s t u = cc (encode_error k y p, encode_error j x s)

-- The keys of a dict are pairwise different.
abbrev pub HasKeysApart : Dict Text Text → Type 0
HasKeysApart [] = Unit
HasKeysApart (e ∷ d) = All (λ (f : Text × Text). e.0 ≢ f.0) d × HasKeysApart d

module _ (P : Text × Text → Type 0) where
  All-perm : {d d' : Dict Text Text} → Permᴰ d d' → All P d → All P d'
  All-perm Permᴰ.nil h = h
  All-perm (Permᴰ.cons e p) h = (subst P e h.0, All-perm p h.1)
  All-perm (Permᴰ.swap e f) h = (subst P f h.1.0, (subst P e h.0, h.1.1))
  All-perm (Permᴰ.trans p q) h = All-perm q (All-perm p h)

HasKeysApart-perm : {d d' : Dict Text Text} → Permᴰ d d' → HasKeysApart d → HasKeysApart d'
HasKeysApart-perm Permᴰ.nil h = h
HasKeysApart-perm (Permᴰ.cons {a} {b} {l₁ = l} {l₂ = l'} e p) h = (
  subst (λ (x : Text × Text). All (λ (f : Text × Text). x.0 ≢ f.0) l') e
      (All-perm (λ (f : Text × Text). a.0 ≢ f.0) p h.0),
  HasKeysApart-perm p h.1,
)
HasKeysApart-perm (Permᴰ.swap {a} {b} {a'} {b'} {l} e f) h = (
  (
    λ (q : a'.0 ≡ b'.0).
        h.0.0 (ap (λ (x : Text × Text). x.0) e ∙ sym q ∙ ap (λ (x : Text × Text). x.0) (sym f)),
    subst (λ (x : Text × Text). All (λ (g : Text × Text). x.0 ≢ g.0) l) f h.1.0,
  ),
  (subst (λ (x : Text × Text). All (λ (g : Text × Text). x.0 ≢ g.0) l) e h.0.1, h.1.1),
)
HasKeysApart-perm (Permᴰ.trans p q) h = HasKeysApart-perm q (HasKeysApart-perm p h)

canonical-perm : {d d' : Dict Text Text} → Permᴰ d d' → HasKeysApart d → canonical d ≡ canonical d'
canonical-perm Permᴰ.nil h = refl
canonical-perm (Permᴰ.cons {a} {b} {l₁ = l} {l₂ = l'} e p) h =
    ap (λ (x : Text × Text). canonical (x ∷ l)) e
    ∙ canonical-cons b.0 b.1 l
    ∙ ap (add_encoded (encode b.0) (encode b.1)) (canonical-perm p h.1)
    ∙ sym (canonical-cons b.0 b.1 l')
canonical-perm (Permᴰ.swap {a} {b} {a'} {b'} {l} e f) h =
    canonical-cons a.0 a.1 (b ∷ l)
    ∙ ap (add_encoded (encode a.0) (encode a.1)) (canonical-cons b.0 b.1 l)
    ∙ add_encoded_comm a.0 a.1 b.0 b.1 (canonical l) h.0.0 (canonical_error l)
    ∙ ap (add_encoded (encode b.0) (encode b.1)) (sym (canonical-cons a.0 a.1 l))
    ∙ sym (canonical-cons b.0 b.1 (a ∷ l))
    ∙ ap₂ (λ (x y : Text × Text). canonical (x ∷ y ∷ l)) f e
canonical-perm (Permᴰ.trans p q) h = canonical-perm p h ∙ canonical-perm q (HasKeysApart-perm p h)

hash_of : Result (List (Bytes × Bytes)) → Result ℕ
hash_of r = do es ← r; ok (fnv1a_64 (concatenate es))

compute_metadata_hash-canonical :
    (x : Text × Text) (d : Dict Text Text)
    → compute_metadata_hash (x ∷ d) ≡ hash_of (canonical (x ∷ d))
unfolding compute_metadata_hash hash_of
compute_metadata_hash-canonical x d = ground arith

is_empty-perm : {d d' : Dict Text Text} → Permᴰ d d' → is_empty d ≡ is_empty d'
is_empty-perm Permᴰ.nil = refl
is_empty-perm (Permᴰ.cons e p) = refl
is_empty-perm (Permᴰ.swap e f) = refl
is_empty-perm (Permᴰ.trans p q) = is_empty-perm p ∙ is_empty-perm q

hash_of_canonical :
    (d d' : Dict Text Text)
    → is_empty d ≡ is_empty d'
    → canonical d ≡ canonical d'
    → compute_metadata_hash d ≡ compute_metadata_hash d'
hash_of_canonical [] [] e c = refl
hash_of_canonical [] (y ∷ d') e c = cc
hash_of_canonical (x ∷ d) [] e c = cc
hash_of_canonical (x ∷ d) (y ∷ d') e c =
    compute_metadata_hash-canonical x d ∙ ap hash_of c ∙ sym (compute_metadata_hash-canonical y d')

Result-set : IsSet (Result ℕ)
Result-set = hlevel

-- Two dicts with the same entries, in whatever order they were put in, have the same hash; where one
-- cannot be encoded, the other raises the same exception.
pub hash-perm :
    (d d' : Dict Text Text)
    → Perm d d'
    → HasKeysApart d
    → compute_metadata_hash d ≡ compute_metadata_hash d'
hash-perm d d' p h =
    ∥∥₁_elim p (Result-set _ _) λ q. hash_of_canonical d d' (is_empty-perm q) (canonical-perm q h)

fnv1a_from-lt : (hash : ℕ) (bytes : Bytes) → hash < 2 ^ 64 → fnv1a_from hash bytes < 2 ^ 64
unfolding fnv1a_from
fnv1a_from-lt hash [] h = h
fnv1a_from-lt hash (b ∷ bytes) h =
    fnv1a_from-lt (bit_xor hash b * fnv_prime % 2 ^ 64) bytes (omega arith)

abbrev entries_of : Result (List (Bytes × Bytes)) → List (Bytes × Bytes)
entries_of (ok es) = es
entries_of (err e) = []

-- The hash of metadata that can be encoded fits into the 64 bits that carry it.
pub compute_metadata_hash-lt :
    (d : Dict Text Text) (hash : ℕ) → compute_metadata_hash d ≡ ok hash → hash < 2 ^ 64
unfolding compute_metadata_hash fnv1a_64
compute_metadata_hash-lt d hash e = ground (
  arith,
  fnv1a_from-lt fnv_offset_basis (concatenate (sort_entries (entries_of (encode_entries d))))
      (omega arith),
)
