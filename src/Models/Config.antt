-- ===== src/Models/Config.antt =====
-- hmmp/models.py: configuration entries, their requests, responses and notifications.
use hmmp_python_sdk.Base.{ℕ, zero, suc, [], Bytes, Text, Bool, Result, ◌==◌, if◌then◌else◌, text_eq}
use hmmp_python_sdk.Base.Dict
use hmmp_python_sdk.Base.Dict.{Dict}
use hmmp_python_sdk.Codec.Reader.{
  Read, read_u8, read_u16, read_u32, read_bytes, read_string_u8, read_string_u16, has_remaining,
  pure, ◌>>=◌,
}

pub record ConfigEntry : Type 0 where
  pub tenant : Text
  pub group : Text
  pub data_id : Text
  pub content : Bytes
  pub md5 : Bytes
  pub is_deleted : Bool
  pub total_chunks : ℕ
  pub chunk_index : ℕ
  pub version_id : Text
  pub stable_version_id : Text
  pub match_labels : Dict Text Text

-- `for _ in range(match_count)`
unfoldable pub read_labels : ℕ → Dict Text Text → Read (Dict Text Text)
read_labels zero d = pure d
read_labels (suc n) d = do
  key ← read_string_u8
  value ← read_string_u8
  read_labels n (Dict.put d key value)

unfoldable pub read_canary : ConfigEntry → Read ConfigEntry
read_canary entry = do
  version_id ← read_string_u16
  stable_version_id ← read_string_u16
  match_count ← read_u8
  match_labels ← read_labels match_count entry.match_labels
  pure (record entry {
    version_id = version_id;
    stable_version_id = stable_version_id;
    match_labels = match_labels;
  })

-- The canary context, if there is one.
unfoldable pub read_context : ConfigEntry → Read ConfigEntry
read_context entry s =
    if has_remaining s
    then (do has_canary ← read_u8; if has_canary == 1 then read_canary entry else pure entry) s
    else (pure entry) s

unfoldable pub read_entry : Read ConfigEntry
read_entry = do
  tenant ← read_string_u8
  group ← read_string_u8
  data_id ← read_string_u8
  md5 ← read_bytes 16
  total_chunks ← read_u16
  chunk_index ← read_u16
  is_deleted ← read_u8
  raw_len ← read_u32
  raw_bytes ← read_bytes raw_len
  read_context (record {
    tenant = tenant;
    group = group;
    data_id = data_id;
    content = raw_bytes;
    md5 = md5;
    is_deleted = is_deleted == 1;
    total_chunks = total_chunks;
    chunk_index = chunk_index;
    version_id = [];
    stable_version_id = [];
    match_labels = [];
  })

unfoldable pub from_response_bytes : Bytes → Result ConfigEntry
from_response_bytes data' = (read_entry data').0

pub record ConfigChangedNotification : Type 0 where
  pub tenant : Text
  pub group : Text
  pub data_id : Text
  pub new_md5 : Bytes
  pub version_id : Text
  pub changed_reason : ℕ

abbrev pub read_change : ConfigChangedNotification → Read ConfigChangedNotification
read_change n = do
  version_id ← read_string_u16
  changed_reason ← read_u8
  pure (record n { version_id = version_id; changed_reason = changed_reason })

unfoldable pub read_reason : ConfigChangedNotification → Read ConfigChangedNotification
read_reason n s =
    if has_remaining s
    then (do has_canary ← read_u8; if has_canary == 1 then read_change n else pure n) s
    else (pure n) s

unfoldable pub read_notification : Read ConfigChangedNotification
read_notification = do
  tenant ← read_string_u16
  group ← read_string_u16
  data_id ← read_string_u16
  new_md5 ← read_bytes 16
  read_reason (record {
    tenant = tenant;
    group = group;
    data_id = data_id;
    new_md5 = new_md5;
    version_id = [];
    changed_reason = 0;
  })

unfoldable pub notification_from_bytes : Bytes → Result ConfigChangedNotification
notification_from_bytes data' = (read_notification data').0
