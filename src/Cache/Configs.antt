-- ===== src/Cache/Configs.antt =====
-- hmmp/cache.py, class ConfigCache. `now` is the time in milliseconds that a method reads. The
-- snapshot directory holds the bytes of its files under their names; whether the system lets a file
-- be written, read or deleted is the parameter `allows`, and an OSError is logged and swallowed.
use hmmp_python_sdk.Base.{
  ℕ, ◌+◌, [], ◌∷◌, Bytes, Text, Bool, true, false, Option, none, some, Result, ok, err, ◌>>=◌, ltb,
  ◌==◌, ◌&&◌, text_eq, if◌then◌else◌,
}
use hmmp_python_sdk.Base.Dict
use hmmp_python_sdk.Base.Dict.{Dict}
use hmmp_python_sdk.Codec.Utf8.{encode, decode}
use hmmp_python_sdk.Cache.Keys.{sanitize_filename}

pub record ConfigCache : Type 0 where
  pub cache : Dict Text Text
  pub fetch_time : Dict Text ℕ
  pub md5_cache : Dict Text Bytes
  pub ttl_ms : ℕ
  -- The files of the snapshot directory, if one is enabled.
  pub snapshot_dir : Option (Dict Text Bytes)

unfoldable pub new : ℕ → Option (Dict Text Bytes) → ConfigCache
new ttl_ms dir = record {
  cache = [];
  fetch_time = [];
  md5_cache = [];
  ttl_ms = ttl_ms;
  snapshot_dir = dir;
}

abbrev pub fresh : ℕ → ℕ → Option Text → Option ℕ → Option Text
fresh ttl now (some content) (some fetched_at) =
    if ltb now (fetched_at + ttl) then some content else none
fresh ttl now _ _ = none

unfoldable pub get : ℕ → Text → ConfigCache → Option Text
get now key c = fresh c.ttl_ms now (Dict.get c.cache key) (Dict.get c.fetch_time key)

unfoldable pub get_md5 : Text → ConfigCache → Option Bytes
get_md5 key c = Dict.get c.md5_cache key

-- `open(…)` in text mode: each of "\r\n", "\r" and "\n" is read as "\n". The flag says whether the
-- character before was a "\r".
unfoldable pub newlines : Bool → Text → Text
newlines after [] = []
newlines after (c ∷ s) = elim (c == 13) [
  | true ↦ 10 ∷ newlines true s
  | false ↦ elim (after && c == 10) [ true ↦ newlines false s | false ↦ c ∷ newlines false s ]
]

unfoldable pub universal_newlines : Text → Text
unfolding newlines
universal_newlines s = newlines false s

module _ (md5 : Bytes → Bytes) (allows : Text → Bool) where
  -- `_compute_md5`
  unfoldable pub compute_md5 : Text → Result Bytes
  compute_md5 content = do encoded ← encode content; ok (md5 encoded)

  abbrev pub restore : ℕ → Text → Text → Bytes → ConfigCache → ConfigCache
  restore now key content digest c = record c {
    cache = Dict.put c.cache key content;
    fetch_time = Dict.put c.fetch_time key now;
    md5_cache = Dict.put c.md5_cache key digest;
  }

  abbrev pub save_in : Text → Text → Option (Dict Text Bytes) → Result (Option (Dict Text Bytes))
  save_in key content none = ok none
  save_in key content (some files) =
      if allows (sanitize_filename key)
      then (do encoded ← encode content; ok (some (Dict.put files (sanitize_filename key) encoded)))
      else ok (some files)

  -- `_save_snapshot`
  unfoldable pub save_snapshot : Text → Text → ConfigCache → Result ConfigCache
  save_snapshot key content c = do
    dir ← save_in key content c.snapshot_dir
    ok (record c { snapshot_dir = dir })

  abbrev pub cached : ℕ → Text → Text → ConfigCache → ConfigCache
  cached now key content c = record c {
    cache = Dict.put c.cache key content;
    fetch_time = Dict.put c.fetch_time key now;
  }

  abbrev pub saved : ConfigCache → Result ConfigCache → ConfigCache × Result (Unit {0})
  saved c (ok c') = (c', ok tt)
  saved c (err e) = (c, err e)

  abbrev pub hashed : Text → Text → ConfigCache → Result Bytes → ConfigCache × Result (Unit {0})
  hashed key content c (err e) = (c, err e)
  hashed key content c (ok digest) =
      let c' = record c { md5_cache = Dict.put c.md5_cache key digest } in
      saved c' (save_snapshot key content c')

  -- A content that has no encoding raises when its hash is computed, and stays cached.
  unfoldable pub put : ℕ → Text → Text → ConfigCache → ConfigCache × Result (Unit {0})
  put now key content c = hashed key content (cached now key content c) (compute_md5 content)

  abbrev pub delete_in : Text → Option (Dict Text Bytes) → Option (Dict Text Bytes)
  delete_in key none = none
  delete_in key (some files) =
      some
        (if allows (sanitize_filename key) then Dict.pop files (sanitize_filename key) else files)

  unfoldable pub invalidate : Text → ConfigCache → ConfigCache
  invalidate key c = record c {
    cache = Dict.pop c.cache key;
    fetch_time = Dict.pop c.fetch_time key;
    md5_cache = Dict.pop c.md5_cache key;
  }

  unfoldable pub remove : Text → ConfigCache → ConfigCache
  unfolding invalidate
  remove key c = record (invalidate key c) { snapshot_dir = delete_in key c.snapshot_dir }

  abbrev pub file_of : Text → Option (Dict Text Bytes) → Option Bytes
  file_of key none = none
  file_of key (some files) =
      if allows (sanitize_filename key) then Dict.get files (sanitize_filename key) else none

  abbrev pub load_file : ℕ → Text → ConfigCache → Option Bytes → Result (ConfigCache × Option Text)
  load_file now key c none = ok (c, none)
  load_file now key c (some stored) = do
    content ← decode stored
    digest ← compute_md5 (universal_newlines content)
    ok (restore now key (universal_newlines content) digest c, some (universal_newlines content))

  -- No directory, no such file or one that cannot be read: None. A file that is not UTF-8 raises.
  unfoldable pub load_from_snapshot : ℕ → Text → ConfigCache → Result (ConfigCache × Option Text)
  load_from_snapshot now key c = load_file now key c (file_of key c.snapshot_dir)
