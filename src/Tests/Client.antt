-- ===== src/Tests/Client.antt =====
-- Concrete inputs for the theorems on hmmp/client.py.
use hmmp_python_sdk.Base.{
  nat_eq, text_eq, ◌≡◌, refl, [], ◌∷◌, ◌++◌, Bytes, codes, true, false, none, some, Raised, ok, err,
  os_error, connection_closed_error, arith,
}
use hmmp_python_sdk.Base.Dict
use hmmp_python_sdk.Codec.Endian.{be, pack_be}
use hmmp_python_sdk.Crypto.Payload.{build_aad, encrypt_config_body}
use hmmp_python_sdk.Frame.Header.{has_flag, to_bytes}
use hmmp_python_sdk.Frame.Metadata.{text, num, update}
use hmmp_python_sdk.Frame.Encoder.{meta_of, frame_flags, block_bytes, header_of, encode}
use hmmp_python_sdk.Frame.Decoder.{Frame}
use hmmp_python_sdk.Models.Config.{ConfigEntry}
use hmmp_python_sdk.Connection.Stream.{Connection, End, disconnected, authenticated, next_stream_id}
use hmmp_python_sdk.Connection.Router.{Router, register, route}
use hmmp_python_sdk.Client.Session.{request, send_request}
use hmmp_python_sdk.Client.State.{Client, ClientConfig, is_connected}
use hmmp_python_sdk.Client.Handshake.{Meeting, connect}
use hmmp_python_sdk.Client.Unread.{connect_raises}
use hmmp_python_sdk.Client.Waiting.{IsAnswer}
use hmmp_python_sdk.Client.Requests.{IsFresh, request_settles}
use hmmp_python_sdk.Client.Chunks.{assemble_config_chunks, assembly_waits}
use hmmp_python_sdk.Client.Configs.{response_body}
use hmmp_python_sdk.Client.Decryption.{response_decrypts}
use hmmp_python_sdk.Tests.Frame.{small, small_packb, version_text, plain_frame}
use hmmp_python_sdk.Tests.Crypto.{tagging, nonce12}

abbrev config : ClientConfig
config = record {
  host = codes "h";
  port = 8847;
  client_id = codes "c";
  access_key = codes "a";
  secret_key = codes "s";
  namespace = codes "public";
  auto_reconnect = true;
  use_nonce_challenge = true;
  config_encrypt = false;
  config_cipher_suites = [];
  canary_labels = [];
  labels = [];
}

abbrev pub empty_router : Router
empty_router = record { pending_requests = []; next_future = 0 }

abbrev new_client : Client
new_client = record {
  config = config;
  link = record { conn = none; router = empty_router; reading = false };
  session_id = [];
  server_nonce = [];
  nonce_ttl_ms = 5000;
  cek = 9 ∷ [];
  config_key_id = text [];
  config_key_rotation_ms = num 0;
  cipher_suite = text [];
  decryption_failures = 2;
  running = false;
}

-- The server answers at once, and nobody reads the answer.
abbrev meeting : Meeting
meeting = record {
  opened = ok (1 ∷ 2 ∷ [], End.stalls);
  nonce_time = 5;
  nonce_traffic = record { written = ok tt; events = route plain_frame ∷ [] };
  handshake_time = 6;
  handshake_traffic = record { written = ok tt; events = [] };
  key_time = 7;
}

connect_raises_example :
    let first = connect small version_text tagging meeting new_client in
    ((e : Raised) × (first.1 ≡ err e))
    × (connect small version_text tagging meeting first.0 ≡ (first.0, ok tt))
    × (is_connected first.0 ≡ false)
connect_raises_example =
    connect_raises small version_text tagging new_client meeting meeting refl refl
      (unfold is_connected in refl)

abbrev idle_connection : Connection
idle_connection = record {
  state = disconnected;
  stream_id_counter = 2;
  reader = none;
  ends = End.stalls;
}

empty_router-IsFresh : IsFresh empty_router
unfolding Dict.get
empty_router-IsFresh k n e = absurd (cc)

abbrev entry : ConfigEntry
entry = record {
  tenant = codes "t";
  group = codes "g";
  data_id = codes "d";
  content = 1 ∷ [];
  md5 = [];
  is_deleted = false;
  total_chunks = 2;
  chunk_index = 0;
  version_id = [];
  stable_version_id = [];
  match_labels = [];
}

assembly_waits_example :
    assemble_config_chunks ([] ∷ (record entry { chunk_index = 1 } ∷ []) ∷ []) entry [] ≡ none
assembly_waits_example =
    assembly_waits ([] ∷ (record entry { chunk_index = 1 } ∷ []) ∷ []) entry [] (omega arith)

abbrev sealed_frame : Frame
sealed_frame = record plain_frame {
  header = record {
    magic = 0x5153;
    version = 7;
    flags = 0x10;
    stream_id = 5;
    payload_length = 20;
    padding = 0;
  };
  body = 12 ∷ (nonce12 ++ (0 ∷ 0 ∷ 0 ∷ 3 ∷ 170 ∷ 104 ∷ 105 ∷ []));
}

response_decrypts_example :
    response_body small version_text tagging sealed_frame new_client
    ≡ (record new_client { decryption_failures = 0 }, ok (104 ∷ 105 ∷ []))
response_decrypts_example =
    response_decrypts small version_text tagging new_client sealed_frame (unfold has_flag in refl)
      (λ e. cc) nonce12 (104 ∷ 105 ∷ []) refl
      (unfold encrypt_config_body build_aad pack_be be in refl)

abbrev request_bytes : Bytes
request_bytes =
    81
    ∷ 83
    ∷ 7
    ∷ 1
    ∷ 0
    ∷ 0
    ∷ 0
    ∷ 3
    ∷ 0
    ∷ 0
    ∷ 0
    ∷ 32
    ∷ 0
    ∷ 0
    ∷ 0
    ∷ 0
    ∷ 0
    ∷ 29
    ∷ 1281
    ∷ 9
    ∷ 14
    ∷ (codes "body_type" ++ (codes "client_version" ++ (codes "1.0" ++ (5 ∷ []))))

encoded_request :
    encode small version_text (request 0x0501 (5 ∷ []) [] (next_stream_id idle_connection).1)
    ≡ ok request_bytes
unfolding encode meta_of small_packb update pack_be to_bytes header_of frame_flags block_bytes be
    next_stream_id
encoded_request = refl

request_settles_example :
    let p =
      send_request small version_text 0x0501
        (5 ∷ [])
        []
        (record { written = ok tt; events = register 8 ∷ route plain_frame ∷ [] })
        (record {
          conn = some (record idle_connection { state = authenticated; reader = some [] });
          router = empty_router;
          reading = true;
        }) in
    let q =
      send_request small version_text 0x0501
        (5 ∷ [])
        []
        (record { written = err os_error; events = register 8 ∷ route plain_frame ∷ [] })
        (record {
          conn = some (record idle_connection { state = authenticated; reader = some [] });
          router = empty_router;
          reading = true;
        }) in
    (Dict.get p.0.router.pending_requests (next_stream_id idle_connection).1 ≡ none)
    × IsAnswer (next_stream_id idle_connection).1 p.1
    × (Dict.get q.0.router.pending_requests (next_stream_id idle_connection).1 ≡ some 0)
    × (q.1 ≡ err connection_closed_error)
request_settles_example =
    request_settles small version_text 0x0501 (5 ∷ []) request_bytes [] idle_connection []
      empty_router (register 8 ∷ route plain_frame ∷ []) encoded_request empty_router-IsFresh
      ((unfold next_stream_id in λ e. omega arith), (tt, tt)) os_error
