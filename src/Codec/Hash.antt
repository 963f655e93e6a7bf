-- ===== src/Codec/Hash.antt =====
-- hmmp/codec.py: the FNV-1a hash and the canonical hash of an instance's metadata.
use Prim.Native.Nat.{bit_xor}
use hmmp_python_sdk.Base.{
  ℕ, ◌*◌, ◌%◌, ◌^◌, ◌++◌, [], ◌∷◌, List, Bytes, Text, Bool, true, false, ◌&&◌, ◌||◌, ltb, ◌==◌,
  if◌then◌else◌, Result, ok, ◌>>=◌, is_empty, ◌≡◌, refl, codes,
}
use hmmp_python_sdk.Base.Dict.{Dict}
use hmmp_python_sdk.Constants.{fnv_offset_basis, fnv_prime}
use hmmp_python_sdk.Codec.Utf8.{encode}

-- The loop of `fnv1a_64`, from the hash value so far.
unfoldable pub fnv1a_from : ℕ → Bytes → ℕ
fnv1a_from hash_value [] = hash_value
fnv1a_from hash_value (byte ∷ bytes) =
    fnv1a_from (bit_xor hash_value byte * fnv_prime % 2 ^ 64) bytes

unfoldable pub fnv1a_64 : Bytes → ℕ
unfolding fnv1a_from
fnv1a_64 data' = fnv1a_from fnv_offset_basis data'

-- The order of `bytes`.
unfoldable pub bytes_le : Bytes → Bytes → Bool
bytes_le [] bs = true
bytes_le (a ∷ as') [] = false
bytes_le (a ∷ as') (b ∷ bs) = ltb a b || (a == b && bytes_le as' bs)

-- An entry is an encoded key with its encoded value.
unfoldable pub insert_entry : Bytes × Bytes → List (Bytes × Bytes) → List (Bytes × Bytes)
insert_entry e [] = e ∷ []
insert_entry e (f ∷ es) =
    let rest = insert_entry e es in if bytes_le e.0 f.0 then e ∷ (f ∷ es) else f ∷ rest

-- `sorted(…, key=lambda k: k.encode("utf-8"))`, which is stable.
unfoldable pub sort_entries : List (Bytes × Bytes) → List (Bytes × Bytes)
unfolding insert_entry
sort_entries [] = []
sort_entries (e ∷ es) = insert_entry e (sort_entries es)

unfoldable pub concatenate : List (Bytes × Bytes) → Bytes
concatenate [] = []
concatenate ((k, v) ∷ es) = k ++ (0 ∷ (v ++ (0 ∷ concatenate es)))

unfoldable pub encode_entries : Dict Text Text → Result (List (Bytes × Bytes))
encode_entries [] = ok []
encode_entries ((k, v) ∷ d) = do
  kb ← encode k
  vb ← encode v
  es ← encode_entries d
  ok ((kb, vb) ∷ es)

unfoldable pub compute_metadata_hash : Dict Text Text → Result ℕ
unfolding encode_entries sort_entries concatenate
compute_metadata_hash metadata =
    if is_empty metadata
    then ok 0
    else do es ← encode_entries metadata; ok (fnv1a_64 (concatenate (sort_entries es)))

-- The published FNV-1a test vectors for "" and "a".
fnv_vectors : (fnv1a_64 [] ≡ 0xcbf29ce484222325) × (fnv1a_64 (codes "a") ≡ 0xaf63dc4c8601ec8c)
unfolding fnv1a_64
fnv_vectors = (refl, refl)
