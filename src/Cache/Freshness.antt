-- ===== src/Cache/Freshness.antt =====
-- What ServiceSnapshotCache returns: how old, and of which version.
use hmmp_python_sdk.Base.{
  ℕ, ◌+◌, ◌≤◌, ◌≡◌, refl, [], ◌∷◌, List, Text, true, false, Option, none, some, ltb, text_eq,
  if◌then◌else◌, arith, beq_refl, Bool-cases, inl, inr,
}
use native.Mathlib.Nat.{le_refl}
use hmmp_python_sdk.Base.Dict
use hmmp_python_sdk.Base.Dict.{Dict, get-put, get-pop}
use hmmp_python_sdk.Models.Snapshot.{ServiceSnapshot}
use hmmp_python_sdk.Cache.Keys.{cache_key}
use hmmp_python_sdk.Cache.Snapshots.{
  ServiceSnapshotCache, get, is_stale, detect_metadata_hash_changes, put, invalidate,
}

-- A call of `put`, with the time at which it happens.
pub record Put (Float : Type 0) : Type 0 where
  pub now : ℕ
  pub tenant : Text
  pub group : Text
  pub service_name : Text
  pub snapshot : ServiceSnapshot Float

module _ {Float : Type 0} where
  abbrev accepted :
      ℕ → Text → ServiceSnapshot Float → ServiceSnapshotCache Float → ServiceSnapshotCache Float
  accepted now key s c = record c {
    cache = Dict.put c.cache key s;
    fetch_time = Dict.put c.fetch_time key now;
    metadata_hash_cache = detect_metadata_hash_changes Float s.instances c.metadata_hash_cache;
  }

  put_cases :
      (now : ℕ) (t g n : Text) (s : ServiceSnapshot Float) (c : ServiceSnapshotCache Float)
      → put Float now t g n s c ≡ (
          if is_stale Float (Dict.get c.cache (cache_key t g n)) s
          then (c, false)
          else (accepted now (cache_key t g n) s c, true))
  unfolding put
  put_cases now t g n s c = refl

  -- An accepted snapshot is returned for exactly the cache's lifetime, and not at all after the
  -- service is invalidated.
  pub get-put_fresh :
      (now later : ℕ) (t g n : Text) (s : ServiceSnapshot Float) (c : ServiceSnapshotCache Float)
      → (put Float now t g n s c).1 ≡ true
      → (get Float later t g n (put Float now t g n s c).0
          ≡ (if ltb later (now + c.ttl_ms) then some s else none))
        × (get Float later t g n (invalidate Float t g n (put Float now t g n s c).0) ≡ none)
  unfolding get invalidate
  get-put_fresh now later t g n s c h =
      let key = cache_key t g n in
      elim (Bool-cases (is_stale Float (Dict.get c.cache key) s)) [
        | inl stale ↦ absurd (cc (rw (put_cases now t g n s c, stale) at h))
        | inr newer ↦
            rw (put_cases now t g n s c, newer)
              (rw
                (
                  get-put c.cache key key s,
                  get-put c.fetch_time key key now,
                  get-pop (Dict.put c.cache key s) key key,
                  get-pop (Dict.put c.fetch_time key now) key key,
                  beq_refl key,
                )
                (refl, refl))
      ]

  -- Once a cached snapshot is too old, a snapshot of the same or an older version does not bring it
  -- back: the cache refuses it, and returns nothing for the service at any later time.
  pub expired_stays :
      (fetched now later : ℕ) (t g n : Text) (s old : ServiceSnapshot Float)
      (c : ServiceSnapshotCache Float)
      → Dict.get c.cache (cache_key t g n) ≡ some old
      → Dict.get c.fetch_time (cache_key t g n) ≡ some fetched
      → fetched + c.ttl_ms ≤ later
      → s.topology_version ≤ old.topology_version
      → ((put Float now t g n s c).1 ≡ false)
        × (get Float later t g n (put Float now t g n s c).0 ≡ none)
  unfolding get
  expired_stays fetched now later t g n s old c cached at' late not_newer =
      rw (put_cases now t g n s c, cached) (ground (arith, cached, at'))

  -- The version that is cached for a key, zero for none.
  abbrev pub version_of : Option (ServiceSnapshot Float) → ℕ
  version_of none = 0
  version_of (some s) = s.topology_version

  unfoldable pub put_all :
      List (Put Float) → ServiceSnapshotCache Float → ServiceSnapshotCache Float
  put_all [] c = c
  put_all (p ∷ ps) c = put_all ps (put Float p.now p.tenant p.group p.service_name p.snapshot c).0

  not_stale :
      (o : Option (ServiceSnapshot Float)) (s : ServiceSnapshot Float)
      → is_stale Float o s ≡ false
      → version_of o ≤ s.topology_version
  not_stale none s h = omega arith
  not_stale (some old) s h = ground arith

  put_monotone :
      (now : ℕ) (t g n key : Text) (s : ServiceSnapshot Float) (c : ServiceSnapshotCache Float)
      → version_of (Dict.get c.cache key)
        ≤ version_of (Dict.get (put Float now t g n s c).0.cache key)
  put_monotone now t g n key s c =
      let at' = cache_key t g n in
      elim (Bool-cases (is_stale Float (Dict.get c.cache at') s)) [
        | inl stale ↦ rw (put_cases now t g n s c, stale) (le_refl _)
        | inr newer ↦
            rw (put_cases now t g n s c, newer)
              (rw (get-put c.cache at' key s) (elim (Bool-cases (text_eq.beq at' key)) [
                | inl same ↦
                    rw (same, ← (text_eq.beq_iff at' key).0 same)
                      (not_stale (Dict.get c.cache at') s newer)
                | inr other ↦ rw other (le_refl _)
              ]))
      ]

  -- However many snapshots arrive, in whatever order and for whatever services: the version that is
  -- cached for a service never goes down.
  pub versions_rise :
      (ps : List (Put Float)) (key : Text) (c : ServiceSnapshotCache Float)
      → version_of (Dict.get c.cache key) ≤ version_of (Dict.get (put_all ps c).cache key)
  unfolding put_all
  versions_rise [] key c = omega arith
  versions_rise (p ∷ ps) key c = omega (
    arith,
    put_monotone p.now p.tenant p.group p.service_name key p.snapshot c,
    versions_rise ps key (put Float p.now p.tenant p.group p.service_name p.snapshot c).0,
  )
