-- ===== src/Client/Messaging.antt =====
-- app/assets/js/oocsi-web.js: `submit`, the `internal…` functions, `waitForSocket`, the cleanup of
-- calls, and the closures that `register` and `variable` subscribe.
use oocsi_web.Common.{
  ℕ, suc, ◌+◌, String, Bool, true, false, not, Option, none, some, List, [], ◌∷◌, ◌++◌,
  if◌then◌else◌, str_eq, ◌&&◌, ◌||◌, ltb, any, get_elem?, set,
}
use oocsi_web.Common.Dict.{Dict, lookup, insert, keep_values}
use oocsi_web.Common.Text.{◌<>◌}
use oocsi_web.Json.{
  Value, str, obj, Fields, end, field, set_field, property, own_property, to_string, hides_method,
}
use oocsi_web.Client.Guid.{guid}
use oocsi_web.Client.State.{
  option_case, branch, is_connecting, is_open, Callback, user, responder, feed, same_callback,
  Deferred, send_data, call_function, register_responder, subscribe_channel, unsubscribe_channel,
  close_socket, resubscribe, State, transmit, shut_socket, invoke, answer, Input, Platform, Action,
  skip, throw, emit, assign, when, ◌>>◌,
}

-- `isDangerousKey`.
unfoldable pub is_dangerous_key : String → Bool
is_dangerous_key key = str_eq key "__proto__" || str_eq key "prototype" || str_eq key "constructor"

-- `internalConnected`.
unfoldable pub connected : State → Bool
connected s = elim s.websocket [ none ↦ false | some r ↦ is_open r ]

-- The test of `waitForSocket`: there is no socket yet, or it is connecting.
unfoldable pub must_wait : State → Bool
must_wait s = elim s.websocket [ none ↦ true | some r ↦ is_connecting r ]

-- `submit`. `WebSocket.send` returns `undefined`, so the call of the logger is never made.
unfoldable pub submit : String → Action
submit message s = option_case s.websocket skip (λ r. emit (transmit r message)) s

-- `internalClose`.
unfoldable pub internal_close : Action
internal_close s = option_case s.websocket skip (λ r. emit shut_socket) s

-- `cleanupExpiredCalls`.
unfoldable pub cleanup_expired_calls : ℕ → Action
cleanup_expired_calls now =
    assign λ s. record s { calls = keep_values (λ c. ltb now c.expiration) s.calls }

-- The loop that subscribes again to every channel with a handler, over the entries of `handlers`.
unfoldable pub resubscribe_all : Dict (List Callback) → Action
unfolding is_dangerous_key submit
resubscribe_all [] = skip
resubscribe_all ((ch, []) ∷ rest) = resubscribe_all rest
resubscribe_all ((ch, _ ∷ _) ∷ rest) =
    when (not (is_dangerous_key ch)) (submit ("subscribe " <> ch)) >> resubscribe_all rest

-- `handlers[channel]`, made empty first where there is none, with `fn` added unless it is there.
unfoldable pub add_handler : String → Option Callback → Dict (List Callback) → Dict (List Callback)
add_handler channel none m = elim (lookup channel m) [ none ↦ insert channel [] m | some fs ↦ m ]
add_handler channel (some fn) m = elim (lookup channel m) [
  | none ↦ insert channel (fn ∷ []) m
  | some fs ↦ if any (same_callback fn) fs then m else insert channel (fs ++ fn ∷ []) m
]

-- `internalSubscribe`.
unfoldable pub internal_subscribe : String → Option Callback → Action
internal_subscribe channel fn = branch (str_eq channel "" || is_dangerous_key channel) skip (
    assign (λ s. record s { handlers = add_handler channel fn s.handlers })
    >> (λ s. when (connected s) (submit ("subscribe " <> channel)) s))

-- `internalUnsubscribe`.
unfoldable pub internal_unsubscribe : String → Action
internal_unsubscribe channel s =
    when (connected s)
      (submit ("unsubscribe " <> channel)
        >> when (not (is_dangerous_key channel))
            (assign (λ s. record s { handlers = insert channel [] s.handlers })))
      s

-- `internalRegister`. The closure that it subscribes is a new function at every call.
unfoldable pub internal_register : String → Option ℕ → Action
internal_register call fn s =
    when (connected s && not (is_dangerous_key call))
      (assign (λ s. record s {
        responders = insert call fn s.responders;
        next_closure = suc s.next_closure;
      })
        >> internal_subscribe call (some (responder s.next_closure fn)))
      s

module _ (p : Platform) where
  -- `internalSend`; the recipient is made a text by the concatenation.
  unfoldable pub internal_send : Value → Fields → Action
  internal_send client message s =
      when (connected s)
        (option_case (to_string client) throw
          (λ c. submit ("sendjson " <> c <> " " <> p.stringify (obj message))))
        s

  -- `internalCall`.
  unfoldable pub internal_call : Input → String → Fields → ℕ → Option ℕ → Action
  internal_call i call message timeout fn s =
      let id = guid i in
      let tagged =
        set_field "_MESSAGE_HANDLE" (str call) (set_field "_MESSAGE_ID" (str id) message) in
      when (connected s)
        (cleanup_expired_calls i.now
          >> assign (λ s. record s {
            calls = insert id (record { expiration = i.now + timeout; fn = fn }) s.calls;
          })
          >> submit ("sendjson " <> call <> " " <> p.stringify (obj tagged)))
        s

  -- A call of one of the page's functions with one argument.
  unfoldable pub call_page : ℕ → Value → Action
  call_page f v = emit (invoke f v) >> when (p.throws f v) throw

  -- `listeners.forEach(...)`.
  unfoldable pub notify : List ℕ → Value → Action
  notify [] v = skip
  notify (f ∷ fs) v = call_page f v >> notify fs v

  -- `accessor(newValue, broadcast)` of the k-th variable.
  unfoldable pub accessor : Input → ℕ → Value → Bool → Action
  accessor i k new broadcast s =
      option_case (get_elem? s.variables k) skip
        (λ v. branch (ltb i.now (v.last_update + v.throttle)) skip (
          assign (λ s. record s {
            variables = set s.variables k (record v { value = new; last_update = i.now });
          })
          >> notify v.listeners new
          >> when (not (p.same_value new v.value) && broadcast)
              (internal_send (str v.channel) (field v.name new end))))
        s

  -- The closure that `variable` subscribes.
  unfoldable pub feed_variable : Input → ℕ → Value → Action
  feed_variable i k e s =
      option_case (get_elem? s.variables k) skip
        (λ v. branch (hides_method "hasOwnProperty" (property "data" e)) throw (
          option_case (own_property v.name (property "data" e)) skip
            (λ new. accessor i k new false)))
        s

  -- The closure that `internalRegister` subscribes.
  unfoldable pub respond_to : Option ℕ → Value → Action
  respond_to none e = throw
  respond_to (some f) e =
      let message = property "data" e in
      let response = field "_MESSAGE_ID" (property "_MESSAGE_ID" message) end in
      emit (answer f message response)
      >> when (p.throws f message) throw
      >> internal_send (property "sender" e) (p.respond f message response)

  -- A handler gets an event.
  unfoldable pub run_callback : Input → Callback → Value → Action
  run_callback i (user f) e = call_page f e
  run_callback i (responder id fn) e = respond_to fn e
  run_callback i (feed k) e = feed_variable i k e

  -- What `waitForSocket` runs once there is a socket that is not connecting.
  unfoldable pub run_deferred : Input → Deferred → Action
  run_deferred i (send_data recipient message) = internal_send (str recipient) message
  run_deferred i (call_function call message timeout fn) = internal_call i call message timeout fn
  run_deferred i (register_responder call fn) = internal_register call fn
  run_deferred i (subscribe_channel channel fn) = internal_subscribe channel fn
  run_deferred i (unsubscribe_channel channel) = internal_unsubscribe channel
  run_deferred i close_socket = internal_close
  run_deferred i resubscribe = λ s. resubscribe_all s.handlers s

  -- `waitForSocket`; the retry 200 ms later is the entry of `waiting`.
  unfoldable pub wait_for_socket : Input → Deferred → Action
  wait_for_socket i d s =
      branch (must_wait s) (assign (λ s. record s { waiting = s.waiting ++ d ∷ [] }))
        (run_deferred i d) s
