-- ===== src/Tests/Codec.antt =====
-- Concrete inputs for the theorems on hmmp/codec.py.
use hmmp_python_sdk.Base.{
  ◌≡◌, ◌≢◌, refl, ◌++◌, [], ◌∷◌, Bytes, Text, codes, replicate, true, false, ok, err, unicode_error,
  arith,
}
use hmmp_python_sdk.Base.Dict.{Dict}
use hmmp_python_sdk.Codec.Utf8.{encode, decode, utf8_round_trip, utf8_raises}
use hmmp_python_sdk.Codec.Writer.{write_string_u8}
use hmmp_python_sdk.Codec.Reader.{read_string_u8}
use hmmp_python_sdk.Codec.Strings.{string_u8_too_long}
use hmmp_python_sdk.Codec.Metrics.{Metrics}
use hmmp_python_sdk.Codec.Hash.{compute_metadata_hash}
use hmmp_python_sdk.Codec.HashLaws.{hash-perm}
use mathlib.Core.List.{Permᴰ}

abbrev euro : Text
euro = 0x20ac ∷ 0x41 ∷ []

abbrev euro_bytes : Bytes
euro_bytes = 0xe2 ∷ 0x82 ∷ 0xac ∷ 0x41 ∷ []

euro_encoded : encode euro ≡ ok euro_bytes
unfolding encode
euro_encoded = refl

utf8_round_trip_example : (bs : Bytes) × (encode euro ≡ ok bs) × (decode bs ≡ ok euro)
utf8_round_trip_example = utf8_round_trip euro (unfold encode in (refl, (refl, tt)))

overlong_refused : decode (0xc0 ∷ 0x80 ∷ []) ≡ err unicode_error
unfolding decode
overlong_refused = refl

utf8_raises_example : unicode_error ≡ unicode_error
utf8_raises_example = utf8_raises (0xc0 ∷ 0x80 ∷ []) unicode_error overlong_refused

abbrev long_text : Text
long_text = replicate 256 0x61

long_encoded : encode long_text ≡ ok long_text
unfolding encode
long_encoded = refl

string_u8_too_long_example :
    (out : Bytes) × (write_string_u8 [] long_text ≡ ok ([] ++ out))
    × ((read_string_u8 (out ++ (2 ∷ []))).1 ≢ 2 ∷ [])
string_u8_too_long_example =
    string_u8_too_long long_text long_text [] (2 ∷ []) long_encoded (omega arith)

abbrev some_metrics : Metrics
some_metrics = record {
  cpu = 33;
  memory = 7;
  active_conns = 1000;
  ewma_delay = 513;
  error = true;
  preheating = false;
  delay_scale = true;
}

abbrev zone : Dict Text Text
zone = (codes "zone", codes "a") ∷ (codes "env", codes "prod") ∷ []

abbrev zone_turned : Dict Text Text
zone_turned = (codes "env", codes "prod") ∷ (codes "zone", codes "a") ∷ []

hash-perm_example : compute_metadata_hash zone ≡ compute_metadata_hash zone_turned
hash-perm_example = hash-perm zone zone_turned ∣ Permᴰ.swap refl refl ∣₁ (((λ e. cc), tt), (tt, tt))
