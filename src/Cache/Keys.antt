-- ===== src/Cache/Keys.antt =====
-- hmmp/cache.py: the keys of the caches, and the names of the snapshot files.
use hmmp_python_sdk.Base.{
  ℕ, ◌≡◌, ◌≢◌, refl, [], ◌∷◌, ◌++◌, Text, codes, All, ◌||◌, Option, some, ◌==◌, if◌then◌else◌,
  append_assoc, arith,
}
use hmmp_python_sdk.Base.Decimal.{split_front}

abbrev pub plus : ℕ
plus = 43

-- f"{tenant}+{group}+{name}": `cache_key`, and `config_key` with no tag
unfoldable pub cache_key : Text → Text → Text → Text
cache_key tenant group name = tenant ++ (plus ∷ (group ++ (plus ∷ name)))

-- `config_key`: a tag that is there and not empty is added.
unfoldable pub config_key : Text → Text → Text → Option Text → Text
unfolding cache_key
config_key tenant group data_id (some (c ∷ tag)) =
    cache_key tenant group data_id ++ (codes "+tag:" ++ (c ∷ tag))
config_key tenant group data_id _ = cache_key tenant group data_id

-- `key.replace("+", "_").replace("/", "_").replace("\\", "_")`
unfoldable pub sanitize_filename : Text → Text
sanitize_filename [] = []
sanitize_filename (c ∷ key) =
    let rest = sanitize_filename key in
    if c == 43 || (c == 47 || c == 92) then 95 ∷ rest else c ∷ rest

abbrev pub HasNoPlus : Text → Type 0
HasNoPlus = All (λ c. c ≢ plus)

-- Two names with no plus sign in tenant and group have the same key only if they are the same.
pub cache_key_injective :
    (t t' g g' n n' : Text)
    → HasNoPlus t
    → HasNoPlus t'
    → HasNoPlus g
    → HasNoPlus g'
    → cache_key t g n ≡ cache_key t' g' n'
    → (t ≡ t') × (g ≡ g') × (n ≡ n')
unfolding cache_key
cache_key_injective t t' g g' n n' ht ht' hg hg' e =
    let (p, q) = split_front plus t t' _ _ ht ht' e in
    let (r, s) = split_front plus g g' n n' hg hg' q in (p, r, s)

-- A plus sign may stand in the tenant or in the group: then different names share a key.
cache_key_shared :
    (t g n extra : Text) → cache_key (t ++ (plus ∷ extra)) g n ≡ cache_key t (extra ++ (plus ∷ g)) n
unfolding cache_key
cache_key_shared t g n extra = simp append_assoc refl

abbrev pub IsFileName : Text → Type 0
IsFileName = All (λ c. (c ≢ 43) × (c ≢ 47) × (c ≢ 92))

clean : ℕ → ℕ
clean c = if c == 43 || (c == 47 || c == 92) then 95 else c

sanitize-cons : (c : ℕ) (key : Text) → sanitize_filename (c ∷ key) ≡ clean c ∷ sanitize_filename key
unfolding sanitize_filename clean
sanitize-cons c key = ground arith

clean-apart : (c : ℕ) → (clean c ≢ 43) × (clean c ≢ 47) × (clean c ≢ 92)
unfolding clean
clean-apart c = ground arith

-- A snapshot's file name has no plus sign and no path separator in it, whatever the key.
pub sanitize_filename-IsFileName : (key : Text) → IsFileName (sanitize_filename key)
sanitize_filename-IsFileName [] = unfold sanitize_filename in tt
sanitize_filename-IsFileName (c ∷ key) =
    rw (sanitize-cons c key) (clean-apart c, sanitize_filename-IsFileName key)

sanitize-append :
    (s t : Text) → sanitize_filename (s ++ t) ≡ sanitize_filename s ++ sanitize_filename t
sanitize-append [] t = unfold sanitize_filename in refl
sanitize-append (c ∷ s) t = rw (sanitize-cons c (s ++ t), sanitize-cons c s, sanitize-append s t)

-- The configurations of a tenant `t_x` in the group `g` and of the tenant `t` in the group `x_g`
-- have the same snapshot file.
file_name_shared :
    (t g n extra : Text)
    → sanitize_filename (cache_key (t ++ (95 ∷ extra)) g n)
      ≡ sanitize_filename (cache_key t (extra ++ (95 ∷ g)) n)
unfolding cache_key
file_name_shared t g n extra =
    simp (append_assoc, sanitize-append, sanitize-cons) (unfold clean in refl)

-- The keys escape nothing and the file names fold the separator into an underscore. With a plus sign
-- in the tenant or in the group, two different names share one cache key; with an underscore there,
-- two different configurations have the same snapshot file.
pub names_shared :
    (t g n extra : Text)
    → (cache_key (t ++ (plus ∷ extra)) g n ≡ cache_key t (extra ++ (plus ∷ g)) n)
      × (sanitize_filename (cache_key (t ++ (95 ∷ extra)) g n)
          ≡ sanitize_filename (cache_key t (extra ++ (95 ∷ g)) n))
names_shared t g n extra = (cache_key_shared t g n extra, file_name_shared t g n extra)
