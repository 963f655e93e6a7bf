-- ===== src/Connection/Dispatch.antt =====
-- hmmp/connection.py, class FrameRouter: the handlers. Handlers are code of the client, of any type `H`;
-- what the router does is which of them it calls.
use hmmp_python_sdk.Base.{
  nat_eq, ℕ, zero, suc, [], ◌∷◌, ◌++◌, List, true, false, Option, none, some, Result, ok, err,
  ◌>>=◌, type_error, ◌==◌, if◌then◌else◌,
}
use hmmp_python_sdk.Base.Dict
use hmmp_python_sdk.Base.Dict.{Dict}
use hmmp_python_sdk.Frame.Metadata.{Value, null, num, flag, text, bin, texts, labels}
use hmmp_python_sdk.Frame.Decoder.{Frame, stream_id, body_type}
use hmmp_python_sdk.Connection.Router.{Router, Outcome, route_frame}

-- `opcode and opcode in self._notify_handlers`: the number that is looked for. True is the key 1; a
-- string is no key, and a list or a dict has no hash.
unfoldable pub handler_key : Option Value → Result (Option ℕ)
handler_key none = ok none
handler_key (some null) = ok none
handler_key (some (num zero)) = ok none
handler_key (some (num (suc n))) = ok (some (suc n))
handler_key (some (flag true)) = ok (some 1)
handler_key (some (flag false)) = ok none
handler_key (some (text t)) = ok none
handler_key (some (bin b)) = ok none
handler_key (some (texts [])) = ok none
handler_key (some (texts (t ∷ ts))) = err type_error
handler_key (some (labels [])) = ok none
handler_key (some (labels (l ∷ ls))) = err type_error

module _ {H : Type 0} where
  unfoldable pub register_notify_handler : ℕ → H → Dict ℕ H → Dict ℕ H
  register_notify_handler opcode h hs = Dict.put hs opcode h

  unfoldable pub add_global_handler : H → List H → List H
  add_global_handler h hs = hs ++ (h ∷ [])

  abbrev pub found_handler : Dict ℕ H → Option ℕ → Option H
  found_handler hs none = none
  found_handler hs (some opcode) = Dict.get hs opcode

  -- The handler of a notification.
  unfoldable pub notify_handler : Dict ℕ H → Frame → Result (Option H)
  notify_handler hs f = do opcode ← body_type f; key ← handler_key opcode; ok (found_handler hs key)

  -- A frame: what becomes of the pending requests, and the handlers that are called, first all global
  -- ones. Of the handlers' exceptions none gets out; but looking for a handler may raise.
  unfoldable pub dispatch :
      List H
      → Dict ℕ H
      → Frame
      → Router
      → (Router × List (ℕ × Outcome)) × List H × Result (Option H)
  dispatch global hs f r =
      (route_frame f r, global, if stream_id f == 0 then notify_handler hs f else ok none)
