-- ===== src/Client/Notices.antt =====
-- client.py: the handlers of notifications. A handler is its number; what a method does is the list of
-- the calls that it makes, in their order: an exception of a handler is logged and the next one is called.
use hmmp_python_sdk.Base.{
  text_eq, ℕ, [], ◌∷◌, ◌++◌, List, Bytes, Text, is_empty, not, ◌&&◌, Option, none, some, Result, ok,
  err, ◌>>=◌, decryption_error, if◌then◌else◌,
}
use hmmp_python_sdk.Base.Dict
use hmmp_python_sdk.Base.Dict.{Dict}
use hmmp_python_sdk.Constants.OpCode
use hmmp_python_sdk.Crypto.Primitives.{Primitives}
use hmmp_python_sdk.Crypto.Payload.{decrypt_config_body}
use hmmp_python_sdk.Frame.Header.{is_encrypted}
use hmmp_python_sdk.Frame.Decoder.{Frame, stream_id}
use hmmp_python_sdk.Models.Platform.{Platform}
use hmmp_python_sdk.Models.Snapshot.{ServiceSnapshot, from_bytes}
use hmmp_python_sdk.Models.Config.{ConfigChangedNotification, notification_from_bytes}
use hmmp_python_sdk.Models.Notices.{RedirectInfo, redirect_from_bytes, shutdown_from_bytes}
use hmmp_python_sdk.Client.Configs.{or_namespace}
use hmmp_python_sdk.Client.Chunks.{slashed}

pub record Handlers : Type 0 where
  pub service_change : Dict Text (List ℕ)
  pub config_change : Dict Text (List ℕ)
  pub shutdown : List ℕ
  pub redirect : List ℕ

abbrev pub none_yet : Handlers
none_yet = record { service_change = []; config_change = []; shutdown = []; redirect = [] }

abbrev pub found : Option (List ℕ) → List ℕ
found none = []
found (some hs) = hs

unfoldable pub add_handler : Text → ℕ → Dict Text (List ℕ) → Dict Text (List ℕ)
add_handler key h d = Dict.put d key (found (Dict.get d key) ++ (h ∷ []))

unfoldable pub on_service_change : Text → ℕ → Handlers → Handlers
on_service_change service_name h hs = record hs {
  service_change = add_handler service_name h hs.service_change;
}

unfoldable pub on_config_change : Text → Text → Text → Option Text → ℕ → Handlers → Handlers
on_config_change namespace data_id group tenant h hs =
    let key = slashed (or_namespace tenant namespace) group data_id in
    record hs { config_change = add_handler key h hs.config_change }

unfoldable pub on_shutdown : ℕ → Handlers → Handlers
on_shutdown h hs = record hs { shutdown = hs.shutdown ++ (h ∷ []) }

unfoldable pub on_redirect : ℕ → Handlers → Handlers
on_redirect h hs = record hs { redirect = hs.redirect ++ (h ∷ []) }

-- `for handler in handlers: await handler(notice)`
abbrev pub call_all {ℓ} : {A : Type ℓ} → A → List ℕ → List (ℕ × A)
call_all notice [] = []
call_all notice (h ∷ hs) = (h, notice) ∷ call_all notice hs

module _ (pf : Platform) (hs : Handlers) where
  unfoldable pub handle_service_changed : Frame → Result (List (ℕ × ServiceSnapshot pf.Float))
  handle_service_changed frame = do
    snapshot ← from_bytes pf frame.body
    ok (call_all snapshot (found (Dict.get hs.service_change snapshot.service_name)))

  unfoldable pub handle_shutdown_notice : Frame → Result (List (ℕ × ℕ))
  handle_shutdown_notice frame = do
    notice ← shutdown_from_bytes frame.body
    ok (call_all notice hs.shutdown)

  -- The redirect is returned beside the calls: the connection migrates to it.
  unfoldable pub handle_redirect : Frame → Result (List (ℕ × RedirectInfo) × RedirectInfo)
  handle_redirect frame = do
    redirect ← redirect_from_bytes pf frame.body
    ok (call_all redirect hs.redirect, redirect)

module _ (ps : Primitives) (hs : Handlers) where
  abbrev pub notified : Bytes → Result (List (ℕ × ConfigChangedNotification))
  notified body = do
    notification ← notification_from_bytes body
    let key = slashed notification.tenant notification.group notification.data_id
    ok (call_all notification (found (Dict.get hs.config_change key)))

  -- A notification that cannot be decrypted is dropped.
  abbrev pub or_dropped : Result Bytes → Result (List (ℕ × ConfigChangedNotification))
  or_dropped (ok body) = notified body
  or_dropped (err decryption_error) = ok []
  or_dropped (err e) = err e

  unfoldable pub handle_config_changed :
      Bytes → Frame → Result (List (ℕ × ConfigChangedNotification))
  handle_config_changed cek frame =
      if is_encrypted frame.header && not (is_empty cek)
      then or_dropped
          (decrypt_config_body ps frame.body cek (stream_id frame) OpCode.config_changed_notify)
      else notified frame.body
