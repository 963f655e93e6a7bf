-- ===== src/Client/Configs.antt =====
-- client.py: reading, listening to and publishing configurations. `rounds` are the looks of an assembly
-- of chunks (see Chunks); none as a result means that it still waits.
use hmmp_python_sdk.Base.{
  ℕ, ◌+◌, [], ◌∷◌, List, Bytes, Text, length, is_empty, not, ◌&&◌, Option, none, some, Result, ok,
  err, decryption_error, ltb, if◌then◌else◌,
}
use hmmp_python_sdk.Constants.OpCode
use hmmp_python_sdk.Crypto.Primitives.{Primitives}
use hmmp_python_sdk.Crypto.Payload.{decrypt_config_body}
use hmmp_python_sdk.Codec.Writer.{write_bytes, write_u16}
use hmmp_python_sdk.Frame.Header.{is_encrypted}
use hmmp_python_sdk.Frame.Metadata.{MsgPack}
use hmmp_python_sdk.Frame.Decoder.{Frame, stream_id}
use hmmp_python_sdk.Models.Config.{ConfigEntry, from_response_bytes}
use hmmp_python_sdk.Models.Requests.{ListenConfigEntry, listen_to_bytes, to_get_request_bytes}
use hmmp_python_sdk.Client.Session.{Traffic, send_request}
use hmmp_python_sdk.Client.State.{M, ◌>>=◌, pure, lift, current}
use hmmp_python_sdk.Client.Handshake.{linked}
use hmmp_python_sdk.Client.Chunks.{Chunks, assemble_config_chunks}

abbrev pub or_namespace : Option Text → Text → Text
or_namespace none namespace = namespace
or_namespace (some []) namespace = namespace
or_namespace (some (c ∷ s)) namespace = c ∷ s

-- What decryption gave: a failure is counted, a success resets the count. Only a DecryptionError is
-- caught.
abbrev pub decrypted : Result Bytes → M Bytes
decrypted (ok body) c = (record c { decryption_failures = 0 }, ok body)
decrypted (err decryption_error) c =
    (record c { decryption_failures = c.decryption_failures + 1 }, err decryption_error)
decrypted (err e) c = (c, err e)

abbrev pub finished : Option (Result ConfigEntry) → M (Option ConfigEntry)
finished none c = (c, ok none)
finished (some (ok entry)) c = (c, ok (some entry))
finished (some (err e)) c = (c, err e)

-- `for config in configs: writer.write_bytes(config.to_bytes())`
abbrev pub append_result : Bytes → Result Bytes → Result Bytes
append_result w (ok b) = ok (write_bytes w b)
append_result w (err e) = err e

abbrev pub write_next : ListenConfigEntry → Result Bytes → Result Bytes
write_next e (ok w) = append_result w (listen_to_bytes e)
write_next e (err x) = err x

unfoldable pub write_configs : Result Bytes → List ListenConfigEntry → Result Bytes
write_configs w [] = w
write_configs w (e ∷ es) = write_configs (write_next e w) es

module _ (mp : MsgPack) (client_version : Text) (ps : Primitives) where
  -- `self._send_request(opcode, body)`
  unfoldable pub ask : ℕ → Bytes → Traffic → M Frame
  ask opcode body t c = linked c (send_request mp client_version opcode body [] t c.link)

  -- The body of a response, decrypted where it is encrypted and the client has a key.
  unfoldable pub response_body : Frame → M Bytes
  response_body response c =
      if is_encrypted response.header && not (is_empty c.cek)
      then decrypted
          (decrypt_config_body ps response.body c.cek (stream_id response) OpCode.config_response) c
      else (c, ok response.body)

  abbrev pub assembled : List (List ConfigEntry) → Chunks → ConfigEntry → M (Option ConfigEntry)
  assembled rounds chunks result =
      if ltb 1 result.total_chunks
      then finished (assemble_config_chunks rounds result chunks)
      else pure (some result)

  unfoldable pub get_config :
      Text
      → Text
      → Option Text
      → Traffic
      → List (List ConfigEntry)
      → Chunks
      → M (Option ConfigEntry)
  get_config data_id group tenant t rounds chunks = do
    c ← current
    body ← lift (
        to_get_request_bytes (or_namespace tenant c.config.namespace) group data_id
          (some c.config.canary_labels))
    response ← ask OpCode.get_config_request body t
    plain ← response_body response
    result ← lift (from_response_bytes plain)
    assembled rounds chunks result

  unfoldable pub listen_config : List ListenConfigEntry → Traffic → M (Unit {0})
  listen_config configs t = do
    body ← lift (write_configs (ok (write_u16 [] (length configs))) configs)
    response ← ask OpCode.listen_config_request body t
    pure tt
