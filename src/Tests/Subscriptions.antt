-- ===== src/Tests/Subscriptions.antt =====
-- A service change that the application subscribed for twice.
use hmmp_python_sdk.Base.{
  ◌≡◌, refl, ap, [], ◌∷◌, ◌++◌, List, Bytes, codes, none, Result, ok, ◌>>=◌, arith,
}
use hmmp_python_sdk.Base.Dict
use hmmp_python_sdk.Codec.Endian.{be}
use hmmp_python_sdk.Frame.Metadata.{num, dict, get}
use hmmp_python_sdk.Frame.Decoder.{Frame}
use hmmp_python_sdk.Models.Snapshot.{ServiceSnapshot}
use hmmp_python_sdk.Models.Laws.Snapshots.{snapshot_parses}
use hmmp_python_sdk.Client.Notices.{none_yet, call_all}
use hmmp_python_sdk.Client.Deliveries.{
  Subscription, to_service, to_shutdown, subscribe_all, setup_handlers, deliver, Notice, service,
  service_changed,
}
use hmmp_python_sdk.Client.Subscriptions.{parse, subscribers, notice_reaches}
use hmmp_python_sdk.Tests.Client.{empty_router}
use hmmp_python_sdk.Tests.Crypto.{tagging}
use hmmp_python_sdk.Tests.Models.{encoded_pay}
use hmmp_python_sdk.Tests.Frame.{plain_frame}
use hmmp_python_sdk.Tests.Platform.{bytewise}

abbrev change : Frame
change = record {
  header = record plain_frame.header { stream_id = 0 };
  metadata = dict ((codes "body_type", num 0x0108) ∷ []);
  body = be 2 3 ++ (codes "pay" ++ (be 8 9 ++ (be 2 0 ++ [])));
  governance_block = none;
}

abbrev changed : Notice Bytes
changed = service (record { service_name = codes "pay"; topology_version = 9; instances = [] })

abbrev subscribed : List Subscription
subscribed =
    to_service (codes "pay") 1
    ∷ to_shutdown 2
    ∷ to_service (codes "buy") 3
    ∷ to_service (codes "pay") 4
    ∷ []

called_twice : subscribers (codes "public") changed subscribed ≡ 1 ∷ 4 ∷ []
unfolding subscribers
called_twice = refl

notice_reaches_example :
    deliver bytewise tagging
      (subscribe_all (codes "public") subscribed none_yet)
      []
      (setup_handlers [])
      empty_router
      change
    ≡ ok (call_all changed (subscribers (codes "public") changed subscribed))
notice_reaches_example =
    notice_reaches bytewise tagging [] (codes "public") subscribed [] empty_router service_changed
      change changed refl (unfold get Dict.get in refl)
      (unfold parse in
        ap (λ (r : Result (ServiceSnapshot Bytes)). r >>= (λ s. ok (service s)))
          (snapshot_parses bytewise (codes "pay") (codes "pay") 9 [] [] encoded_pay (omega arith)
            (omega arith) (omega arith) tt))
