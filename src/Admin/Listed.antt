-- ===== src/Admin/Listed.antt =====
-- The list of credentials that a server answers is the one that the client returns.
use hmmp_python_sdk.Base.{
  ℕ, ◌^◌, ◌<◌, ◌≡◌, refl, ap, [], ◌∷◌, ◌++◌, List, Bytes, Text, length, All, Result, ok,
}
use hmmp_python_sdk.Constants.OpCode
use hmmp_python_sdk.Codec.Endian.{be}
use hmmp_python_sdk.Codec.Utf8.{encode, decode-encode_ok}
use hmmp_python_sdk.Codec.Writer.{write_string_u16}
use hmmp_python_sdk.Codec.Reader.{read_list}
use hmmp_python_sdk.Codec.RoundTrip.{read_uint-be, read_string_u16-field}
use hmmp_python_sdk.Models.Instance.{flag_byte}
use hmmp_python_sdk.Models.Laws.Snapshots.{flag_byte-eq}
use hmmp_python_sdk.Admin.Responses.{CredentialInfo, read_credential, read_credentials}
use hmmp_python_sdk.Admin.Credentials.{list_credentials}

-- A credential, and the encodings of its three texts.
pub record Item : Type 0 where
  pub credential : CredentialInfo
  pub client_id : Bytes
  pub tenant : Bytes
  pub node_type : Bytes

pub record IsItem (i : Item) : Type 0 where
  pub client_id : encode i.credential.client_id ≡ ok i.client_id
  pub tenant : encode i.credential.tenant ≡ ok i.tenant
  pub node_type : encode i.credential.node_type ≡ ok i.node_type
  pub client_id_fits : length i.client_id < 65536
  pub tenant_fits : length i.tenant < 65536
  pub node_type_fits : length i.node_type < 65536
  pub created_at_fits : i.credential.created_at < 2 ^ 64

abbrev pub text_layout : Bytes → Bytes → Bytes
text_layout bs rest = be 2 (length bs) ++ (bs ++ rest)

-- The fields in the order of the protocol, and `rest` behind them.
abbrev pub item_layout : Item → Bytes → Bytes
item_layout i rest = text_layout i.client_id (
    text_layout i.tenant (
      text_layout i.node_type
        (be 1 (flag_byte i.credential.enabled) ++ (be 8 i.credential.created_at ++ rest))))

abbrev pub items_layout : List Item → Bytes → Bytes
items_layout [] rest = rest
items_layout (i ∷ items) rest = item_layout i (items_layout items rest)

abbrev pub credentials_of : List Item → List CredentialInfo
credentials_of [] = []
credentials_of (i ∷ items) = i.credential ∷ credentials_of items

read_credential-item :
    (i : Item) (rest : Bytes)
    → IsItem i
    → read_credential (item_layout i rest) ≡ (ok i.credential, rest)
unfolding read_credential
read_credential-item i rest v =
    let (flag_back, flag_fits) = flag_byte-eq i.credential.enabled in
    rw (
      read_string_u16-field i.credential.client_id i.client_id
          (decode-encode_ok i.credential.client_id i.client_id v.client_id) _ v.client_id_fits,
      read_string_u16-field i.credential.tenant i.tenant
          (decode-encode_ok i.credential.tenant i.tenant v.tenant) _ v.tenant_fits,
      read_string_u16-field i.credential.node_type i.node_type
          (decode-encode_ok i.credential.node_type i.node_type v.node_type) _ v.node_type_fits,
      read_uint-be 1 (flag_byte i.credential.enabled) _ flag_fits,
      read_uint-be 8 i.credential.created_at rest v.created_at_fits,
      flag_back,
    )

read_list-items :
    (items : List Item) (rest : Bytes)
    → All IsItem items
    → read_list (length items) read_credential (items_layout items rest)
      ≡ (ok (credentials_of items), rest)
unfolding read_list
read_list-items [] rest v = refl
read_list-items (i ∷ items) rest v =
    rw (read_credential-item i (items_layout items rest) v.0, read_list-items items rest v.1)

read_credentials-items :
    (items : List Item) (rest : Bytes)
    → All IsItem items
    → length items < 2 ^ 16
    → read_credentials (be 2 (length items) ++ items_layout items rest)
      ≡ (ok (credentials_of items), rest)
unfolding read_credentials
read_credentials-items items rest v fits =
    rw (read_uint-be 2 (length items) (items_layout items rest) fits, read_list-items items rest v)

-- Where the server answers the list request for the filter with a count and as many credentials as
-- documented, listing returns exactly these credentials in their order, whatever bytes stand behind
-- them.
pub credentials_listed :
    (send : ℕ → Bytes → Result Bytes) (body : Bytes) (tenant_filter : Text) (items : List Item)
    (rest : Bytes)
    → write_string_u16 [] tenant_filter ≡ ok body
    → send OpCode.admin_list_credentials_req body
      ≡ ok (be 2 (length items) ++ items_layout items rest)
    → All IsItem items
    → length items < 2 ^ 16
    → list_credentials send tenant_filter ≡ ok (credentials_of items)
unfolding list_credentials
credentials_listed send body tenant_filter items rest e answer v fits =
    rw (e, answer)
      (ap (λ (p : Result (List CredentialInfo) × Bytes). p.0)
        (read_credentials-items items rest v fits))
