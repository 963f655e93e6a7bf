-- ===== src/Client/Subscriptions.antt =====
-- Notifications reach the handlers that were subscribed for them.
use hmmp_python_sdk.Base.{
  nat_eq, text_eq, ℕ, ◌≡◌, ◌∙◌, sym, refl, ap, [], ◌∷◌, ◌++◌, append-nil, append_assoc, List, Bytes,
  Text, is_empty, Bool, true, false, Bool-cases, not, ◌&&◌, none, some, Result, ok, err, ◌>>=◌,
  ==_iff, inl, inr, if◌then◌else◌,
}
use hmmp_python_sdk.Base.Dict
use hmmp_python_sdk.Base.Dict.{Dict, get-put}
use hmmp_python_sdk.Constants.OpCode
use hmmp_python_sdk.Crypto.Primitives.{Primitives}
use hmmp_python_sdk.Crypto.Payload.{decrypt_config_body}
use hmmp_python_sdk.Frame.Header.{is_encrypted}
use hmmp_python_sdk.Frame.Metadata.{num}
use hmmp_python_sdk.Frame.Decoder.{Frame, stream_id, body_type}
use hmmp_python_sdk.Models.Platform.{Platform}
use hmmp_python_sdk.Models.Snapshot.{from_bytes}
use hmmp_python_sdk.Models.Config.{ConfigChangedNotification, notification_from_bytes}
use hmmp_python_sdk.Models.Notices.{RedirectInfo, redirect_from_bytes, shutdown_from_bytes}
use hmmp_python_sdk.Connection.Router.{Router}
use hmmp_python_sdk.Connection.Dispatch.{
  register_notify_handler, notify_handler, handler_key, dispatch,
}
use hmmp_python_sdk.Client.Chunks.{slashed}
use hmmp_python_sdk.Client.Configs.{or_namespace}
use hmmp_python_sdk.Client.Notices.{
  Handlers, none_yet, found, add_handler, call_all, notified, or_dropped, on_service_change,
  on_config_change, on_shutdown, on_redirect, handle_service_changed, handle_config_changed,
  handle_shutdown_notice, handle_redirect,
}
use hmmp_python_sdk.Client.Deliveries.{
  Method, service_changed, config_changed, shutdown_notice, redirect_notice, setup_handlers, Notice,
  service, config, shutdown, redirect, tagged, handle, or_logged, run_handler, deliver,
  Subscription, to_service, to_config, to_shutdown, to_redirect, subscribe, subscribe_all,
}

-- Whether a notice is for a subscription, and the subscription's handler. Configurations are compared as
-- the client does, by the one text that tenant, group and data id make, joined with slashes: with
-- slashes inside, ("a", "b/c", "d") and ("a/b", "c", "d") are one.
abbrev pub is_addressed : {F : Type 0} → Text → Notice F → Subscription → Bool
is_addressed namespace (service s) (to_service name h) = text_eq.beq name s.service_name
is_addressed namespace (config n) (to_config data_id group tenant h) =
    text_eq.beq (slashed (or_namespace tenant namespace) group data_id)
      (slashed n.tenant n.group n.data_id)
is_addressed namespace (shutdown d) (to_shutdown h) = true
is_addressed namespace (redirect r) (to_redirect h) = true
is_addressed namespace _ _ = false

abbrev pub handler_of : Subscription → ℕ
handler_of (to_service name h) = h
handler_of (to_config data_id group tenant h) = h
handler_of (to_shutdown h) = h
handler_of (to_redirect h) = h

unfoldable pub subscribers : {F : Type 0} → Text → Notice F → List Subscription → List ℕ
subscribers namespace n [] = []
subscribers namespace n (s ∷ ss) =
    let rest = subscribers namespace n ss in
    if is_addressed namespace n s then handler_of s ∷ rest else rest

abbrev handlers_for : {F : Type 0} → Notice F → Handlers → List ℕ
handlers_for (service s) hs = found (Dict.get hs.service_change s.service_name)
handlers_for (config n) hs = found (Dict.get hs.config_change (slashed n.tenant n.group n.data_id))
handlers_for (shutdown d) hs = hs.shutdown
handlers_for (redirect r) hs = hs.redirect

abbrev one_if : Bool → ℕ → List ℕ
one_if b h = if b then h ∷ [] else []

get-add_handler :
    (key other : Text) (h : ℕ) (d : Dict Text (List ℕ))
    → found (Dict.get (add_handler key h d) other)
      ≡ found (Dict.get d other) ++ one_if (text_eq.beq key other) h
unfolding add_handler
get-add_handler key other h d =
    let before = found (Dict.get d key) in
    ap found (get-put d key other (before ++ (h ∷ [])))
    ∙ elim (Bool-cases (text_eq.beq key other)) [
      | inl same ↦
          rw same (ap (λ k. found (Dict.get d k) ++ (h ∷ [])) ((text_eq.beq_iff key other).0 same))
      | inr different ↦ rw different (sym (append-nil (found (Dict.get d other))))
    ]

handlers_for-subscribe :
    {F : Type 0} (namespace : Text) (n : Notice F) (s : Subscription) (hs : Handlers)
    → handlers_for n (subscribe namespace s hs)
      ≡ handlers_for n hs ++ one_if (is_addressed namespace n s) (handler_of s)
unfolding subscribe on_service_change on_config_change on_shutdown on_redirect
handlers_for-subscribe namespace (service x) (to_service name h) hs =
    get-add_handler name x.service_name h hs.service_change
handlers_for-subscribe namespace (config n) (to_config data_id group tenant h) hs =
    get-add_handler (slashed (or_namespace tenant namespace) group data_id)
      (slashed n.tenant n.group n.data_id) h hs.config_change
handlers_for-subscribe namespace (shutdown d) (to_shutdown h) hs = refl
handlers_for-subscribe namespace (redirect r) (to_redirect h) hs = refl
handlers_for-subscribe namespace n s hs = sym (append-nil (handlers_for n hs))

append_if :
    (b : Bool) (h : ℕ) (before later : List ℕ)
    → (before ++ one_if b h) ++ later ≡ before ++ (if b then h ∷ later else later)
append_if true h before later = append_assoc before (h ∷ []) later
append_if false h before later = ap (λ hs. hs ++ later) (append-nil before)

handlers_for-subscribe_all :
    {F : Type 0} (namespace : Text) (n : Notice F) (ss : List Subscription) (hs : Handlers)
    → handlers_for n (subscribe_all namespace ss hs)
      ≡ handlers_for n hs ++ subscribers namespace n ss
unfolding subscribe_all subscribers
handlers_for-subscribe_all namespace n [] hs = sym (append-nil (handlers_for n hs))
handlers_for-subscribe_all namespace n (s ∷ ss) hs =
    handlers_for-subscribe_all namespace n ss (subscribe namespace s hs)
    ∙ ap (λ before. before ++ subscribers namespace n ss) (handlers_for-subscribe namespace n s hs)
    ∙ append_if (is_addressed namespace n s) (handler_of s) (handlers_for n hs)
        (subscribers namespace n ss)

handlers_for-none_yet : {F : Type 0} (n : Notice F) → handlers_for n none_yet ≡ []
unfolding Dict.get
handlers_for-none_yet (service s) = refl
handlers_for-none_yet (config n) = refl
handlers_for-none_yet (shutdown d) = refl
handlers_for-none_yet (redirect r) = refl

-- The notification that the body of a frame is, for each of the client's handlers.
module _ (pf : Platform) (ps : Primitives) (cek : Bytes) where
  unfoldable pub config_body : Frame → Result Bytes
  config_body f =
      if is_encrypted f.header && not (is_empty cek)
      then decrypt_config_body ps f.body cek (stream_id f) OpCode.config_changed_notify
      else ok f.body

  unfoldable pub parse : Method → Frame → Result (Notice pf.Float)
  parse service_changed f = do s ← from_bytes pf f.body; ok (service s)
  parse config_changed f = do body ← config_body f; n ← notification_from_bytes body; ok (config n)
  parse shutdown_notice f = do d ← shutdown_from_bytes f.body; ok (shutdown d)
  parse redirect_notice f = do r ← redirect_from_bytes pf f.body; ok (redirect r)

abbrev pub opcode_of : Method → ℕ
opcode_of service_changed = 0x0108
opcode_of config_changed = 0x0204
opcode_of shutdown_notice = 0x0006
opcode_of redirect_notice = 0x0005

tagged-call_all :
    {A B : Type 0} (f : A → B) (a : A) (hs : List ℕ) → tagged f (call_all a hs) ≡ call_all (f a) hs
tagged-call_all f a [] = refl
tagged-call_all f a (h ∷ hs) = ap (λ calls. (h, f a) ∷ calls) (tagged-call_all f a hs)

-- Parsing, calling and wrapping gives the calls of the parsed notice.
called :
    {A B : Type 0} (f : A → B) (hs : B → List ℕ) (r : Result A) (n : B)
    → (do a ← r; ok (f a)) ≡ ok n
    → (do calls ← (do a ← r; ok (call_all a (hs (f a)))); ok (tagged f calls))
      ≡ ok (call_all n (hs n))
called f hs (ok a) n e =
    ap ok (tagged-call_all f a (hs (f a))) ∙ ap (λ m. ok (call_all m (hs m))) (cc e)
called f hs (err x) n e = absurd (cc)

module _ (pf : Platform) (ps : Primitives) (hs : Handlers) (cek : Bytes) where
  as_config : ConfigChangedNotification → Notice pf.Float
  as_config c = config c

  called_config :
      (r : Result Bytes) (n : Notice pf.Float)
      → (do body ← r; c ← notification_from_bytes body; ok (as_config c)) ≡ ok n
      → (do calls ← or_dropped ps hs r; ok (tagged as_config calls))
        ≡ ok (call_all n (handlers_for n hs))
  unfolding as_config
  called_config (ok body) n e =
      called as_config (λ n. handlers_for n hs) (notification_from_bytes body) n e
  called_config (err x) n e = absurd (cc)

  with_redirect : RedirectInfo → List (ℕ × RedirectInfo) × RedirectInfo
  with_redirect r = (call_all r hs.redirect, r)

  called_redirect :
      (r : Result RedirectInfo) (n : Notice pf.Float)
      → (do x ← r; ok (redirect x)) ≡ ok n
      → (do calls ← (do x ← r; ok (with_redirect x)); ok (tagged (λ x. redirect x) calls.0))
        ≡ ok (call_all n (handlers_for n hs))
  unfolding with_redirect
  called_redirect (ok x) n e = called redirect (λ n. handlers_for n hs) (ok x) n e
  called_redirect (err x) n e = absurd (cc)

  if_dropped :
      (sealed : Bool) (r : Result Bytes) (body : Bytes)
      → (if sealed then or_dropped ps hs r else notified ps hs body)
        ≡ or_dropped ps hs (if sealed then r else ok body)
  if_dropped true r body = refl
  if_dropped false r body = refl

  handle-parse :
      (m : Method) (f : Frame) (n : Notice pf.Float)
      → parse pf ps cek m f ≡ ok n
      → handle pf ps hs cek m f ≡ ok (call_all n (handlers_for n hs))
  unfolding parse handle_service_changed handle_config_changed handle_shutdown_notice
      handle_redirect config_body as_config with_redirect
  handle-parse service_changed f n e =
      called service (λ n. handlers_for n hs) (from_bytes pf f.body) n e
  handle-parse config_changed f n e =
      ap
        (λ (r : Result (List (ℕ × ConfigChangedNotification))). do
          calls ← r
          ok (tagged as_config calls))
        (if_dropped (is_encrypted f.header && not (is_empty cek))
          (decrypt_config_body ps f.body cek (stream_id f) OpCode.config_changed_notify) f.body)
      ∙ called_config (config_body pf ps cek f) n e
  handle-parse shutdown_notice f n e =
      called shutdown (λ n. handlers_for n hs) (shutdown_from_bytes f.body) n e
  handle-parse redirect_notice f n e = called_redirect (redirect_from_bytes pf f.body) n e

method_set :
    (m : Method) (before : Dict ℕ Method) → Dict.get (setup_handlers before) (opcode_of m) ≡ some m
unfolding setup_handlers register_notify_handler
method_set service_changed before = simp (get-put) refl
method_set config_changed before = simp (get-put) refl
method_set shutdown_notice before = simp (get-put) refl
method_set redirect_notice before = simp (get-put) refl

notify_handler-set :
    (m : Method) (before : Dict ℕ Method) (f : Frame)
    → body_type f ≡ ok (some (num (opcode_of m)))
    → notify_handler (setup_handlers before) f ≡ ok (some m)
unfolding notify_handler handler_key
notify_handler-set service_changed before f e = rw e (ap ok (method_set service_changed before))
notify_handler-set config_changed before f e = rw e (ap ok (method_set config_changed before))
notify_handler-set shutdown_notice before f e = rw e (ap ok (method_set shutdown_notice before))
notify_handler-set redirect_notice before f e = rw e (ap ok (method_set redirect_notice before))

deliver-run :
    (pf : Platform) (ps : Primitives) (hs : Handlers) (cek : Bytes) (m : Method)
    (before : Dict ℕ Method) (r : Router) (f : Frame)
    → stream_id f ≡ 0
    → body_type f ≡ ok (some (num (opcode_of m)))
    → deliver pf ps hs cek (setup_handlers before) r f
      ≡ ok (or_logged pf ps hs cek (handle pf ps hs cek m f))
unfolding deliver dispatch
deliver-run pf ps hs cek m before r f z e =
    ap
      (λ (notice : Bool).
        run_handler pf ps hs cek f
          (if notice then notify_handler (setup_handlers before) f else ok none))
      ((==_iff (stream_id f) 0).1 z)
    ∙ ap (run_handler pf ps hs cek f) (notify_handler-set m before f e)

module _ (pf : Platform) (ps : Primitives) (cek : Bytes) (namespace : Text) where
  -- A notification that arrives on stream 0 with the op code of one of the four kinds that the client
  -- set up handlers for, and whose body can be parsed (and, where it is an encrypted configuration notice
  -- and there is a key, decrypted), calls exactly the handlers that the application subscribed for it, in
  -- the order of the subscriptions: those for the service's name, those for a configuration whose tenant,
  -- group and data id, joined with slashes, make the same text as the notice's, or all for shutdowns or
  -- redirects. It raises nothing.
  pub notice_reaches :
      (subscriptions : List Subscription) (before : Dict ℕ Method) (r : Router) (m : Method)
      (f : Frame) (n : Notice pf.Float)
      → stream_id f ≡ 0
      → body_type f ≡ ok (some (num (opcode_of m)))
      → parse pf ps cek m f ≡ ok n
      → deliver pf ps
          (subscribe_all namespace subscriptions none_yet)
          cek
          (setup_handlers before)
          r
          f
        ≡ ok (call_all n (subscribers namespace n subscriptions))
  notice_reaches subscriptions before r m f n z e parsed =
      let hs = subscribe_all namespace subscriptions none_yet in
      deliver-run pf ps hs cek m before r f z e
      ∙ ap (λ (calls : Result (List (ℕ × Notice pf.Float))). ok (or_logged pf ps hs cek calls))
          (handle-parse pf ps hs cek m f n parsed)
      ∙ ap (λ handlers. ok (call_all n handlers))
          (handlers_for-subscribe_all namespace n subscriptions none_yet
            ∙ ap (λ before. before ++ subscribers namespace n subscriptions)
                (handlers_for-none_yet n))
