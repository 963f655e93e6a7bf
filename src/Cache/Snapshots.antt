-- ===== src/Cache/Snapshots.antt =====
-- hmmp/cache.py, class ServiceSnapshotCache. `now` is the time in milliseconds that a method reads.
use hmmp_python_sdk.Base.{
  ℕ, ◌+◌, [], ◌∷◌, ◌++◌, List, Text, Bool, true, false, Option, none, some, ltb, leb, text_eq,
  if◌then◌else◌,
}
use hmmp_python_sdk.Base.Decimal.{decimal}
use hmmp_python_sdk.Base.Dict
use hmmp_python_sdk.Base.Dict.{Dict}
use hmmp_python_sdk.Models.Instance.{ServiceInstance}
use hmmp_python_sdk.Models.Snapshot.{ServiceSnapshot}
use hmmp_python_sdk.Cache.Keys.{cache_key}

-- f"{inst.ip}:{inst.port}"
unfoldable pub instance_key : Text → ℕ → Text
instance_key ip port = ip ++ (58 ∷ decimal port)

module _ (Float : Type 0) where
  pub record ServiceSnapshotCache : Type 0 where
    pub cache : Dict Text (ServiceSnapshot Float)
    pub fetch_time : Dict Text ℕ
    pub metadata_hash_cache : Dict Text ℕ
    pub ttl_ms : ℕ

  unfoldable pub new : ℕ → ServiceSnapshotCache
  new ttl_ms = record { cache = []; fetch_time = []; metadata_hash_cache = []; ttl_ms = ttl_ms }

  -- The cached snapshot with the time of its fetch, unless one is missing or too old.
  abbrev pub fresh :
      ℕ → ℕ → Option (ServiceSnapshot Float) → Option ℕ → Option (ServiceSnapshot Float)
  fresh ttl now (some s) (some fetched_at) = if ltb now (fetched_at + ttl) then some s else none
  fresh ttl now _ _ = none

  unfoldable pub get :
      ℕ → Text → Text → Text → ServiceSnapshotCache → Option (ServiceSnapshot Float)
  get now tenant group service_name c =
      let key = cache_key tenant group service_name in
      fresh c.ttl_ms now (Dict.get c.cache key) (Dict.get c.fetch_time key)

  -- The guard: a snapshot that is not newer than the cached one is stale.
  abbrev pub is_stale : Option (ServiceSnapshot Float) → ServiceSnapshot Float → Bool
  is_stale none s = false
  is_stale (some existing) s = leb s.topology_version existing.topology_version

  unfoldable pub detect_metadata_hash_changes :
      List (ServiceInstance Float) → Dict Text ℕ → Dict Text ℕ
  detect_metadata_hash_changes [] hashes = hashes
  detect_metadata_hash_changes (i ∷ instances) hashes =
      detect_metadata_hash_changes instances
        (Dict.put hashes (instance_key i.ip i.port) i.metadata_hash)

  -- Whether the snapshot was accepted.
  unfoldable pub put :
      ℕ
      → Text
      → Text
      → Text
      → ServiceSnapshot Float
      → ServiceSnapshotCache
      → ServiceSnapshotCache × Bool
  put now tenant group service_name s c =
      let key = cache_key tenant group service_name in
      if is_stale (Dict.get c.cache key) s then (c, false) else (
        record c {
          cache = Dict.put c.cache key s;
          fetch_time = Dict.put c.fetch_time key now;
          metadata_hash_cache = detect_metadata_hash_changes s.instances c.metadata_hash_cache;
        },
        true,
      )

  unfoldable pub invalidate : Text → Text → Text → ServiceSnapshotCache → ServiceSnapshotCache
  invalidate tenant group service_name c =
      let key = cache_key tenant group service_name in
      record c { cache = Dict.pop c.cache key; fetch_time = Dict.pop c.fetch_time key }
