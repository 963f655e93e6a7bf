-- ===== src/Client/Deliveries.antt =====
-- client.py: which handlers of the application a notification reaches, from the frame router through
-- the client's own handlers.
use hmmp_python_sdk.Base.{ℕ, [], ◌∷◌, List, Bytes, Text, Option, none, some, Result, ok, err, ◌>>=◌}
use hmmp_python_sdk.Base.Dict.{Dict}
use hmmp_python_sdk.Constants.OpCode
use hmmp_python_sdk.Crypto.Primitives.{Primitives}
use hmmp_python_sdk.Frame.Decoder.{Frame}
use hmmp_python_sdk.Models.Platform.{Platform}
use hmmp_python_sdk.Models.Snapshot.{ServiceSnapshot}
use hmmp_python_sdk.Models.Config.{ConfigChangedNotification}
use hmmp_python_sdk.Models.Notices.{RedirectInfo}
use hmmp_python_sdk.Connection.Router.{Router}
use hmmp_python_sdk.Connection.Dispatch.{register_notify_handler, dispatch}
use hmmp_python_sdk.Client.Notices.{
  Handlers, on_service_change, on_config_change, on_shutdown, on_redirect, handle_service_changed,
  handle_config_changed, handle_shutdown_notice, handle_redirect,
}

-- The client's own handlers of notifications.
pub data Method : Type 0 where
  service_changed config_changed shutdown_notice redirect_notice : Method

unfoldable pub setup_handlers : Dict ℕ Method → Dict ℕ Method
setup_handlers hs = register_notify_handler OpCode.cluster_node_redirect_notify redirect_notice (
    register_notify_handler OpCode.instance_shutdown_prepare_notice shutdown_notice (
      register_notify_handler OpCode.config_changed_notify config_changed
        (register_notify_handler OpCode.service_changed_notify service_changed hs)))

pub data Notice (F : Type 0) : Type 0 where
  service : ServiceSnapshot F → Notice F
  config : ConfigChangedNotification → Notice F
  shutdown : ℕ → Notice F
  redirect : RedirectInfo → Notice F

abbrev pub tagged {ℓ κ} : {A : Type ℓ} {B : Type κ} → (A → B) → List (ℕ × A) → List (ℕ × B)
tagged f [] = []
tagged f ((h, a) ∷ calls) = (h, f a) ∷ tagged f calls

module _ (pf : Platform) (ps : Primitives) (hs : Handlers) (cek : Bytes) where
  abbrev pub handle : Method → Frame → Result (List (ℕ × Notice pf.Float))
  handle service_changed f = do calls ← handle_service_changed pf hs f; ok (tagged service calls)
  handle config_changed f = do calls ← handle_config_changed ps hs cek f; ok (tagged config calls)
  handle shutdown_notice f = do calls ← handle_shutdown_notice pf hs f; ok (tagged shutdown calls)
  handle redirect_notice f = do calls ← handle_redirect pf hs f; ok (tagged redirect calls.0)

  -- An exception of the client's handler is logged.
  abbrev pub or_logged : Result (List (ℕ × Notice pf.Float)) → List (ℕ × Notice pf.Float)
  or_logged (ok calls) = calls
  or_logged (err e) = []

  abbrev pub run_handler : Frame → Result (Option Method) → Result (List (ℕ × Notice pf.Float))
  run_handler f (ok none) = ok []
  run_handler f (ok (some m)) = ok (or_logged (handle m f))
  run_handler f (err e) = err e

  -- The calls of the application's handlers that a frame makes.
  unfoldable pub deliver : Dict ℕ Method → Router → Frame → Result (List (ℕ × Notice pf.Float))
  deliver methods r f = run_handler f (dispatch [] methods f r).2

-- The calls by which an application subscribes.
pub data Subscription : Type 0 where
  to_service : Text → ℕ → Subscription
  to_config : Text → Text → Option Text → ℕ → Subscription
  to_shutdown to_redirect : ℕ → Subscription

unfoldable pub subscribe : Text → Subscription → Handlers → Handlers
subscribe namespace (to_service name h) hs = on_service_change name h hs
subscribe namespace (to_config data_id group tenant h) hs =
    on_config_change namespace data_id group tenant h hs
subscribe namespace (to_shutdown h) hs = on_shutdown h hs
subscribe namespace (to_redirect h) hs = on_redirect h hs

unfoldable pub subscribe_all : Text → List Subscription → Handlers → Handlers
subscribe_all namespace [] hs = hs
subscribe_all namespace (s ∷ ss) hs = subscribe_all namespace ss (subscribe namespace s hs)
