-- ===== src/Cache/Canary.antt =====
-- hmmp/cache.py, class CanaryVersionVector.
use hmmp_python_sdk.Base.{
  ◌≡◌, refl, Bytes, Text, Bool, false, not, Option, none, some, text_eq, if◌then◌else◌, beq_refl,
  arith,
}
use mathlib.Core.Option as Option
use hmmp_python_sdk.Base.Dict
use hmmp_python_sdk.Base.Dict.{Dict, get-put, get-pop}
use hmmp_python_sdk.Cache.Keys.{cache_key}

pub record CanaryVersion : Type 0 where
  pub version_id : Text
  pub stable_version_id : Text
  pub md5 : Bytes

unfoldable pub is_canary : CanaryVersion → Bool
is_canary v = not (text_eq.beq v.version_id v.stable_version_id)

abbrev pub CanaryVersionVector : Type 0
CanaryVersionVector = Dict Text CanaryVersion

unfoldable pub put : Text → Text → Text → CanaryVersion → CanaryVersionVector → CanaryVersionVector
put t g d v versions = Dict.put versions (cache_key t g d) v

unfoldable pub get : Text → Text → Text → CanaryVersionVector → Option CanaryVersion
get t g d versions = Dict.get versions (cache_key t g d)

unfoldable pub remove : Text → Text → Text → CanaryVersionVector → CanaryVersionVector
remove t g d versions = Dict.pop versions (cache_key t g d)

abbrev promote : Text → Option CanaryVersion → CanaryVersionVector → CanaryVersionVector
promote key none versions = versions
promote key (some v) versions =
    Dict.put versions key (record v { stable_version_id = v.version_id })

unfoldable pub on_canary_promoted : Text → Text → Text → CanaryVersionVector → CanaryVersionVector
on_canary_promoted t g d versions =
    let key = cache_key t g d in promote key (Dict.get versions key) versions

unfoldable pub on_canary_withdrawn : Text → Text → Text → CanaryVersionVector → CanaryVersionVector
on_canary_withdrawn t g d versions = Dict.pop versions (cache_key t g d)

-- The canary of a version, made the stable one.
abbrev pub stable : CanaryVersion → CanaryVersion
stable v = record v { stable_version_id = v.version_id }

stable_at :
    (key k : Text) (o : Option CanaryVersion) (versions : CanaryVersionVector)
    → Dict.get versions key ≡ o
    → Dict.get (promote key o versions) k
      ≡ (if text_eq.beq key k then Option.map stable o else Dict.get versions k)
stable_at key k none versions h = ground (arith, text_eq.beq_iff key k, h)
stable_at key k (some v) versions h = get-put versions key k (stable v)

-- Promoting a configuration's canary makes its version the stable one, so that it is no canary any
-- more; it does nothing where none is tracked, and leaves every other configuration as it was.
pub promoted_is_stable :
    (t g d key : Text) (versions : CanaryVersionVector)
    → (Dict.get (on_canary_promoted t g d versions) key ≡ (
        if text_eq.beq (cache_key t g d) key
        then Option.map stable (get t g d versions)
        else Dict.get versions key))
      × ((v : CanaryVersion) → is_canary (stable v) ≡ false)
unfolding get on_canary_promoted is_canary
promoted_is_stable t g d key versions = (
  stable_at (cache_key t g d) key (Dict.get versions (cache_key t g d)) versions refl,
  λ v. rw (beq_refl v.version_id) refl,
)
