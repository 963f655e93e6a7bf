-- ===== src/Models/Requests.antt =====
-- hmmp/models.py: the bodies of configuration requests, and class FilterExpression.
use hmmp_python_sdk.Base.{
  ℕ, suc, [], ◌∷◌, ◌++◌, List, Bytes, Text, length, Option, some, Result, ok, ◌>>=◌, ◌==◌,
  if◌then◌else◌,
}
use hmmp_python_sdk.Base.Dict.{Dict}
use hmmp_python_sdk.Codec.Writer.{write_bytes, write_u8, write_string_u8, write_string_u16}

unfoldable pub write_labels : Bytes → Dict Text Text → Result Bytes
write_labels w [] = ok w
write_labels w ((key, value) ∷ d) = do
  k ← write_string_u8 w key
  v ← write_string_u8 k value
  write_labels v d

unfoldable pub write_name : Bytes → Text → Text → Text → Result Bytes
write_name w tenant group data_id = do
  t ← write_string_u8 w tenant
  g ← write_string_u8 t group
  write_string_u8 g data_id

-- `if canary_labels:` asks for labels that are there and not empty.
abbrev pub write_context : Bytes → Option (Dict Text Text) → Result Bytes
write_context w (some (l ∷ labels)) =
    write_labels (write_u8 (write_u8 w 1) (length (l ∷ labels))) (l ∷ labels)
write_context w _ = ok (write_u8 w 0)

-- ConfigEntry.to_get_request_bytes
unfoldable pub to_get_request_bytes : Text → Text → Text → Option (Dict Text Text) → Result Bytes
to_get_request_bytes tenant group data_id canary_labels = do
  named ← write_name [] tenant group data_id
  write_context named canary_labels

pub record ListenConfigEntry : Type 0 where
  pub tenant : Text
  pub group : Text
  pub data_id : Text
  pub current_md5 : Bytes

unfoldable pub listen_to_bytes : ListenConfigEntry → Result Bytes
listen_to_bytes e = do
  named ← write_name [] e.tenant e.group e.data_id
  ok (write_bytes named e.current_md5)

-- constants.py, class FilterNodeType
abbrev pub leaf_node : ℕ
leaf_node = 1

abbrev pub and_node : ℕ
and_node = 2

abbrev pub or_node : ℕ
or_node = 3

abbrev pub not_node : ℕ
not_node = 4

mutual
  pub data FilterExpression : Type 0 where
    -- node_type, key, operator, operand, children
    node : ℕ → Text → ℕ → Text → Filters → FilterExpression

  pub data Filters : Type 0 where
    nil : Filters
    cons : FilterExpression → Filters → Filters

abbrev pub count : Filters → ℕ
count nil = 0
count (cons f fs) = suc (count fs)

abbrev first : List (Result Bytes) → Result Bytes
first [] = ok []
first (r ∷ rs) = r

abbrev all_of : List (Result Bytes) → Result Bytes
all_of [] = ok []
all_of (r ∷ rs) = do b ← r; bs ← all_of rs; ok (b ++ bs)

unfoldable mutual
  pub filter_to_bytes : FilterExpression → Result Bytes
  filter_to_bytes (node node_type key operator operand children) =
      let w = write_u8 [] node_type in
      let parts = children_to_bytes children in
      if node_type == leaf_node
      then (do keyed ← write_string_u8 w key; write_string_u16 (write_u8 keyed operator) operand)
      else if node_type == and_node
      then (do bytes ← all_of parts; ok (write_bytes (write_u8 w (count children)) bytes))
      else if node_type == or_node
      then (do bytes ← all_of parts; ok (write_bytes (write_u8 w (count children)) bytes))
      else if node_type == not_node
      then (do bytes ← first parts; ok (write_bytes w bytes))
      else ok w

  pub children_to_bytes : Filters → List (Result Bytes)
  children_to_bytes nil = []
  children_to_bytes (cons f fs) = filter_to_bytes f ∷ children_to_bytes fs

abbrev pub leaf : Text → ℕ → Text → FilterExpression
leaf key operator operand = node leaf_node key operator operand nil

abbrev pub and' : Filters → FilterExpression
and' children = node and_node [] 0 [] children

abbrev pub or' : Filters → FilterExpression
or' children = node or_node [] 0 [] children

abbrev pub not' : FilterExpression → FilterExpression
not' child = node not_node [] 0 [] (cons child nil)
