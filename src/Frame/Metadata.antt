-- ===== src/Frame/Metadata.antt =====
-- The metadata of a frame, and the MessagePack library that the encoder and the decoder call.
use hmmp_python_sdk.Base.{
  ℕ, ◌≡◌, Bool, Option, some, List, [], ◌∷◌, Bytes, Text, Result, ok, err, attribute_error, text_eq,
}
use hmmp_python_sdk.Base.Dict
use hmmp_python_sdk.Base.Dict.{Dict}

-- The values that the SDK puts into metadata or takes out of it.
pub data Value : Type 0 where
  null : Value
  num : ℕ → Value
  flag : Bool → Value
  text : Text → Value
  bin : Bytes → Value
  texts : List Text → Value
  labels : Dict Text Text → Value

-- What unpacking returns: a dict, or a value of another type, which has no `get`.
pub data Metadata : Type 0 where
  dict : Dict Text Value → Metadata
  other : Value → Metadata

-- `metadata.get(key)`
unfoldable pub get : Metadata → Text → Result (Option Value)
get (dict d) key = ok (Dict.get d key)
get (other v) key = err attribute_error

-- `meta.update(metadata)`
unfoldable pub update : Dict Text Value → Dict Text Value → Dict Text Value
update d [] = d
update d ((k, v) ∷ more) = update (Dict.put d k v) more

-- The library `msgpack`: packing may raise (a number that is too large), unpacking may raise (no
-- value), and unpacking what was packed gives the dict back.
pub record MsgPack : Type 0 where
  pub packb : Dict Text Value → Result Bytes
  pub unpackb : Bytes → Option Metadata
  pub unpackb-packb : (d : Dict Text Value) (b : Bytes) → packb d ≡ ok b → unpackb b ≡ some (dict d)
