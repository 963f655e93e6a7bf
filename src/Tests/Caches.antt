-- ===== src/Tests/Caches.antt =====
-- Concrete inputs for the theorems on hmmp/cache.py.
use hmmp_python_sdk.Base.{
  ◌+◌, ◌≤◌, ◌≡◌, refl, [], ◌∷◌, Bytes, Text, codes, Bool, true, false, none, some, ok, ltb,
  if◌then◌else◌, text_eq, arith,
}
use hmmp_python_sdk.Base.Dict
use hmmp_python_sdk.Base.Dict.{Dict}
use hmmp_python_sdk.Codec.Utf8.{encode}
use hmmp_python_sdk.Models.Snapshot.{ServiceSnapshot}
use hmmp_python_sdk.Cache.Keys.{cache_key, sanitize_filename, names_shared}
use hmmp_python_sdk.Cache.Snapshots
use hmmp_python_sdk.Cache.Snapshots.{ServiceSnapshotCache, detect_metadata_hash_changes}
use hmmp_python_sdk.Cache.Freshness.{
  Put, get-put_fresh, expired_stays, version_of, put_all, versions_rise,
}
use hmmp_python_sdk.Cache.Configs
use hmmp_python_sdk.Cache.Configs.{
  ConfigCache, universal_newlines, newlines, restore, compute_md5, save_snapshot,
  load_from_snapshot,
}
use hmmp_python_sdk.Cache.Files.{load-put}
use hmmp_python_sdk.Cache.Canary.{CanaryVersion, CanaryVersionVector}

abbrev t : Text
t = codes "t"

abbrev snapshot : ServiceSnapshot Bytes
snapshot = record { service_name = codes "n"; topology_version = 4; instances = [] }

abbrev empty : ServiceSnapshotCache Bytes
empty = record { cache = []; fetch_time = []; metadata_hash_cache = []; ttl_ms = 30000 }

abbrev one : ServiceSnapshotCache Bytes
one = record empty { cache = (codes "t+t+n", snapshot) ∷ []; fetch_time = (codes "t+t+n", 10) ∷ [] }

get-put_fresh_example :
    (Snapshots.get Bytes 50 t t
        (codes "n")
        (Snapshots.put Bytes 10 t t (codes "n") snapshot empty).0
      ≡ (if ltb 50 (10 + 30000) then some snapshot else none))
    × (Snapshots.get Bytes 50 t t (codes "n") (
          Snapshots.invalidate Bytes t t
            (codes "n")
            (Snapshots.put Bytes 10 t t (codes "n") snapshot empty).0)
        ≡ none)
get-put_fresh_example =
    get-put_fresh 10 50 t t (codes "n") snapshot empty (unfold Snapshots.put Dict.get in refl)

expired_stays_example :
    ((Snapshots.put Bytes 40000 t t (codes "n") snapshot one).1 ≡ false)
    × (Snapshots.get Bytes 50000 t t
          (codes "n")
          (Snapshots.put Bytes 40000 t t (codes "n") snapshot one).0
        ≡ none)
expired_stays_example =
    expired_stays 10 40000 50000 t t (codes "n") snapshot snapshot one
      (unfold cache_key Dict.get in refl) (unfold cache_key Dict.get in refl) (omega arith)
      (omega arith)

abbrev newer : Put Bytes
newer = record {
  now = 99;
  tenant = t;
  group = t;
  service_name = codes "n";
  snapshot = record snapshot { topology_version = 6 };
}

versions_rise_example :
    version_of (Dict.get one.cache (codes "t+t+n"))
    ≤ version_of (Dict.get (put_all (newer ∷ []) one).cache (codes "t+t+n"))
versions_rise_example = versions_rise (newer ∷ []) (codes "t+t+n") one

abbrev digest : Bytes → Bytes
digest bs = 1 ∷ bs

abbrev allowed : Text → Bool
allowed name = true

abbrev configs : ConfigCache
configs = record {
  cache = [];
  fetch_time = [];
  md5_cache = [];
  ttl_ms = 30000;
  snapshot_dir = some [];
}

abbrev stored : ConfigCache
stored = record {
  cache = (codes "a_b+c", 97 ∷ 13 ∷ 10 ∷ []) ∷ [];
  fetch_time = (codes "a_b+c", 5) ∷ [];
  md5_cache = (codes "a_b+c", 1 ∷ 97 ∷ 13 ∷ 10 ∷ []) ∷ [];
  ttl_ms = 30000;
  snapshot_dir = some ((codes "a_b_c", 97 ∷ 13 ∷ 10 ∷ []) ∷ []);
}

load-put_example :
    (out : Bytes) × (load_from_snapshot digest allowed 9 (codes "a+b_c") stored
      ≡ ok (
        restore digest allowed 9
            (codes "a+b_c")
            (universal_newlines (97 ∷ 13 ∷ 10 ∷ []))
            out
            stored,
        some (universal_newlines (97 ∷ 13 ∷ 10 ∷ [])),
      ))
load-put_example =
    load-put digest allowed 5 9 (codes "a_b+c") (codes "a+b_c") (97 ∷ 13 ∷ 10 ∷ []) [] configs
      stored
      (unfold Configs.put compute_md5 save_snapshot encode sanitize_filename Dict.put in refl) refl
      refl (unfold sanitize_filename in refl)

abbrev canary : CanaryVersion
canary = record { version_id = codes "v2"; stable_version_id = codes "v1"; md5 = [] }

abbrev tracked : CanaryVersionVector
tracked = (codes "t+t+n", canary) ∷ []

names_shared_example :
    (cache_key (codes "a+b") (codes "c") (codes "n")
      ≡ cache_key (codes "a") (codes "b+c") (codes "n"))
    × (sanitize_filename (cache_key (codes "a_b") (codes "c") (codes "n"))
        ≡ sanitize_filename (cache_key (codes "a") (codes "b_c") (codes "n")))
names_shared_example = names_shared (codes "a") (codes "c") (codes "n") (codes "b")
