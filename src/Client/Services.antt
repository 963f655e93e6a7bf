-- ===== src/Client/Services.antt =====
-- client.py: registering and discovering services. `send` is the client's `_send_request`: it takes an
-- operation and a body, and returns the response's body or raises.
use hmmp_python_sdk.Base.{ℕ, [], Bytes, Text, length, Bool, Option, none, some, Result, ok, ◌>>=◌}
use hmmp_python_sdk.Constants.OpCode
use hmmp_python_sdk.Codec.Writer.{write_bytes, write_u8, write_u16, write_string_u16}
use hmmp_python_sdk.Codec.Reader
use hmmp_python_sdk.Codec.Reader.{read_u64}
use hmmp_python_sdk.Models.Platform.{Platform}
use hmmp_python_sdk.Models.Instance.{
  ServiceInstance, flag_byte, to_register_bytes, to_register_with_meta_bytes, to_deregister_bytes,
}
use hmmp_python_sdk.Models.Snapshot.{
  ServiceSnapshot, FilteredServiceSnapshot, from_bytes, filtered_from_bytes,
}
use hmmp_python_sdk.Models.Requests.{FilterExpression, filter_to_bytes}
use hmmp_python_sdk.Client.Configs.{or_namespace}

abbrev pub read_registration : Bytes → Result (ℕ × ℕ)
read_registration body =
    (Reader.◌>>=◌ read_u64
      (λ topology_version.
        Reader.◌>>=◌ read_u64 (λ metadata_hash. Reader.pure (topology_version, metadata_hash)))
      body).0

-- The filter behind its length, and a length of zero without one.
abbrev pub write_filter : Bytes → Option FilterExpression → Result Bytes
write_filter w none = ok (write_u16 w 0)
write_filter w (some filter_expr) = do
  filter_bytes ← filter_to_bytes filter_expr
  ok (write_bytes (write_u16 w (length filter_bytes)) filter_bytes)

module _ (pf : Platform) (send : ℕ → Bytes → Result Bytes) where
  unfoldable pub register_instance : ServiceInstance pf.Float → Result (Unit {0})
  register_instance i = do
    body ← to_register_bytes pf i
    response ← send OpCode.register_instance_request body
    ok tt

  unfoldable pub register_instance_with_metadata : ServiceInstance pf.Float → Result (ℕ × ℕ)
  register_instance_with_metadata i = do
    body ← to_register_with_meta_bytes pf i
    response ← send OpCode.register_instance_with_meta_request body
    read_registration response

  unfoldable pub deregister_instance : ServiceInstance pf.Float → Result (Unit {0})
  deregister_instance i = do
    body ← to_deregister_bytes pf i
    response ← send OpCode.deregister_instance_request body
    ok tt

  unfoldable pub discover_service : Text → Result (ServiceSnapshot pf.Float)
  discover_service service_name = do
    body ← write_string_u16 [] service_name
    response ← send OpCode.discover_service_request body
    from_bytes pf response

  unfoldable pub discover_service_by_filter :
      Text
      → Text
      → Option FilterExpression
      → Bool
      → Option Text
      → Result (FilteredServiceSnapshot pf.Float)
  discover_service_by_filter namespace service_name filter_expr include_metadata tenant = do
    w1 ← write_string_u16 [] (or_namespace tenant namespace)
    w2 ← write_string_u16 w1 service_name
    w3 ← write_filter w2 filter_expr
    response ←
        send OpCode.discover_service_by_filter_request (write_u8 w3 (flag_byte include_metadata))
    filtered_from_bytes pf include_metadata response
