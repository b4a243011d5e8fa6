-- ===== src/Client/Receive.antt =====
-- app/assets/js/oocsi-web.js: `onMessage`, with its try block.
use oocsi_web.Common.{String, Bool, false, not, List, [], ◌∷◌, str_eq, ◌&&◌, ltb}
use oocsi_web.Common.Dict.{lookup, erase}
use oocsi_web.Common.Text.{◌<>◌}
use oocsi_web.Json.{Value, str, truthy, is_object, property, delete_property, to_string}
use oocsi_web.Client.Messaging.{is_dangerous_key, call_page, run_callback}
use oocsi_web.Client.State.{
  is_connecting, option_case, branch, try_catch, Callback, PendingCall, transmit, log, Input,
  Platform, Action, skip, throw, emit, assign, when, ◌>>◌,
}

-- `isDangerousKey` of any value: only a text is `===` to one of the keys.
unfoldable pub is_dangerous_value : Value → Bool
is_dangerous_value (str s) = is_dangerous_key s
is_dangerous_value v = false

-- `websocket.send(".")`, which answers a ping; it throws while the socket is connecting.
unfoldable pub pong : Action
pong s =
    option_case s.websocket throw (λ r. branch (is_connecting r) throw (emit (transmit r "."))) s

module _ (p : Platform) (i : Input) where
  -- The branch of a message that answers a call: the function is called in time only, and the call
  -- is forgotten afterwards.
  unfoldable pub finish_call : (key : String) → PendingCall → (message : Value) → Action
  finish_call key c message =
      when (ltb i.now c.expiration)
        (option_case c.fn throw (λ f. call_page p f (delete_property "_MESSAGE_ID" message)))
      >> assign (λ s. record s { calls = erase key s.calls })

  -- `handlers[e.recipient].forEach(…)`.
  unfoldable pub run_handlers : List Callback → Value → Action
  run_handlers [] e = skip
  run_handlers (f ∷ fs) e = run_callback p i f e >> run_handlers fs e

  -- The branches of a message that answers no call.
  unfoldable pub route : (text : String) → Value → Action
  route text e s =
      let recipient = property "recipient" e in
      let unhandled : Action = emit (log ("no handler for event: " <> text)) in
      branch (truthy recipient && not (is_dangerous_value recipient))
        (option_case (to_string recipient) throw
          (λ key. option_case (lookup key s.handlers) unhandled (λ fs. run_handlers fs e)))
        unhandled s

  -- What is done with a parsed event.
  unfoldable pub dispatch : (text : String) → Value → Action
  dispatch text e s =
      let message = property "data" e in
      let id = property "_MESSAGE_ID" message in
      branch (truthy e && truthy message && is_object message)
        (branch (truthy id)
          (option_case (to_string id) throw (λ key.
            option_case (lookup key s.calls) (route text e) (λ c. finish_call key c message)))
          (route text e))
        skip s

  -- `onMessage`, with `evt.data`. The logger is taken to throw nothing, as the default one does.
  unfoldable pub on_message : String → Action
  on_message text = branch (str_eq text "ping") pong (
      try_catch (option_case (p.parse text) throw (dispatch text))
        (emit (log ("ERROR: parse exception for event data " <> text)))
      >> emit (log ("RESPONSE: " <> text)))
