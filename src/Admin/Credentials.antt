-- ===== src/Admin/Credentials.antt =====
-- admin.py, class AdminService: the life cycle of credentials.
use hmmp_python_sdk.Base.{ℕ, [], Bytes, Text, Bool, List, Option, none, some, Result, ok, ◌>>=◌}
use hmmp_python_sdk.Constants.OpCode
use hmmp_python_sdk.Codec.Writer.{write_u8, write_string_u16}
use hmmp_python_sdk.Codec.Reader.{read_u16}
use hmmp_python_sdk.Models.Instance.{flag_byte}
use hmmp_python_sdk.Admin.Responses.{CredentialInfo, read_credentials}
use hmmp_python_sdk.Admin.Tenants.{parsed}

-- A byte that says whether the field is there, and the field.
abbrev pub write_optional : Bytes → Option Text → Result Bytes
write_optional w (some value) = write_string_u16 (write_u8 w 1) value
write_optional w none = ok (write_u8 w 0)

abbrev pub write_optional_flag : Bytes → Option Bool → Bytes
write_optional_flag w (some enabled) = write_u8 (write_u8 w 1) (flag_byte enabled)
write_optional_flag w none = write_u8 w 0

unfoldable pub update_bytes :
    Text → Option Text → Option Text → Option Text → Option Bool → Result Bytes
update_bytes client_id secret tenant node_type enabled = do
  named ← write_string_u16 [] client_id
  with_secret ← write_optional named secret
  with_tenant ← write_optional with_secret tenant
  with_type ← write_optional with_tenant node_type
  ok (write_optional_flag with_type enabled)

module _ (send : ℕ → Bytes → Result Bytes) where
  unfoldable pub create_credential : Text → Text → Text → Text → Result ℕ
  create_credential client_id secret tenant node_type = do
    w1 ← write_string_u16 [] client_id
    w2 ← write_string_u16 w1 secret
    w3 ← write_string_u16 w2 tenant
    body ← write_string_u16 w3 node_type
    response ← send OpCode.admin_create_credential_req body
    parsed read_u16 response

  unfoldable pub update_credential :
      Text → Option Text → Option Text → Option Text → Option Bool → Result ℕ
  update_credential client_id secret tenant node_type enabled = do
    body ← update_bytes client_id secret tenant node_type enabled
    response ← send OpCode.admin_update_credential_req body
    parsed read_u16 response

  unfoldable pub delete_credential : Text → Result ℕ
  delete_credential client_id = do
    body ← write_string_u16 [] client_id
    response ← send OpCode.admin_delete_credential_req body
    parsed read_u16 response

  unfoldable pub list_credentials : Text → Result (List CredentialInfo)
  list_credentials tenant_filter = do
    body ← write_string_u16 [] tenant_filter
    response ← send OpCode.admin_list_credentials_req body
    parsed read_credentials response
