-- ===== src/Client/Laws/Remote.antt =====
-- app/assets/js/oocsi-web.js: two clients and the server between them. One registers a function, the
-- other calls it.
use oocsi_web.Common.{
  ℕ, suc, ◌+◌, ◌<◌, String, true, false, none, some, List, [], ◌∷◌, ◌≡◌, ◌≢◌, refl, ◌∙◌, ap, arith,
  str_eq, eq_iff,
}
use oocsi_web.Common.Dict.{lookup, insert, lookup-insert_self}
use oocsi_web.Common.Text.{◌<>◌}
use oocsi_web.Json.{
  str, obj, Fields, end, field, truthy, is_object, property, get_field, delete_field, set_field,
  to_string,
}
use oocsi_web.Json.Access.{get_field-set_field}
use oocsi_web.Client.Guid.{guid}
use oocsi_web.Client.Messaging.{
  is_dangerous_key, connected, submit, add_handler, internal_subscribe, internal_register,
  internal_send, internal_call, run_callback, respond_to, run_deferred, wait_for_socket,
}
use oocsi_web.Client.Receive.{is_dangerous_value, route, run_handlers, dispatch, on_message}
use oocsi_web.Client.State.{
  Callback, responder, State, outcome, transmit, log, invoke, answer, Input, Platform, effects,
  state_of, control, open_, branch, option_case,
}
use oocsi_web.Client.Api.{run_event, call, register, received}
use oocsi_web.Client.Sound.{connected_open}
use oocsi_web.Client.Laws.Carried.{sending, Carries, must_wait-connected}
use oocsi_web.Client.Laws.Calls.{internal_call_lem, call-answer, on_message_parsed}

-- The fields that a call sends: its own, the id and the name of the function.
unfoldable pub request : Input → String → Fields → Fields
request i c m = set_field "_MESSAGE_HANDLE" (str c) (set_field "_MESSAGE_ID" (str (guid i)) m)

-- What a responder fills in, from a response that has only the id of the request.
unfoldable pub reply : Platform → Input → ℕ → Fields → Fields
reply q i g m = q.respond g (obj m) (field "_MESSAGE_ID" (str (guid i)) end)

run_call :
    (p : Platform) (i : Input) (c : String) (m : Fields) (timeout f : ℕ) (s : State)
    → connected s ≡ true
    → run_event p i (call c m timeout (some f)) s ≡ internal_call p i c m timeout (some f) s
unfolding run_event wait_for_socket run_deferred control
run_call p i c m timeout f s on = rw (must_wait-connected s on, branch) refl

module _ (q : Platform) (j : Input) where
  -- A message with an id of which no call is pending goes to the handlers of its channel.
  dispatch_foreign :
      (text key channel : String) (fs : List Callback) (e m : Fields) (s : State)
      → get_field "data" e ≡ obj m
      → get_field "_MESSAGE_ID" m ≡ str key
      → key ≢ ""
      → lookup key s.calls ≡ none
      → get_field "recipient" e ≡ str channel
      → channel ≢ ""
      → is_dangerous_key channel ≡ false
      → lookup channel s.handlers ≡ some fs
      → dispatch q j text (obj e) s ≡ run_handlers q j fs (obj e) s
  unfolding dispatch route control truthy is_object property to_string is_dangerous_value
  dispatch_foreign text key channel fs e m s got id marked foreign to named safe held =
      let apart : str_eq key "" ≡ false = ground (arith, eq_iff key "") in
      rw
        (
          got, is_object, property, truthy, id, truthy, to_string, apart, branch, option_case,
          foreign, option_case, route, to, is_dangerous_value, safe,
        )
        (ground (arith, eq_iff channel ""))

  -- The closure of a responder runs its function and sends what it filled in to the sender.
  run_responder :
      (n g : ℕ) (key caller : String) (e m : Fields) (s : State)
      → connected s ≡ true
      → get_field "data" e ≡ obj m
      → get_field "_MESSAGE_ID" m ≡ str key
      → get_field "sender" e ≡ str caller
      → q.throws g (obj m) ≡ false
      → let given = field "_MESSAGE_ID" (str key) end in
        run_handlers q j (responder n (some g) ∷ []) (obj e) s
        ≡ outcome s
            (answer g (obj m) given
              ∷ transmit open_ (sending q caller (q.respond g (obj m) given))
              ∷ [])
            false
  unfolding run_handlers run_callback respond_to internal_send submit control property to_string
      sending
  run_responder n g key caller e m s on got id from fine =
      rw (got, property, id, fine, from, to_string, on, connected_open s on) refl

-- A client that registers a function has its closure under the name.
internal_register-handlers :
    (c : String) (g : ℕ) (b : State)
    → connected b ≡ true
    → c ≢ ""
    → is_dangerous_key c ≡ false
    → lookup c b.handlers ≡ none
    → state_of (internal_register c (some g) b) ≡ record b {
      responders = insert c (some g) b.responders;
      next_closure = suc b.next_closure;
      handlers = insert c (responder b.next_closure (some g) ∷ []) b.handlers;
    }
unfolding internal_register internal_subscribe add_handler connected control submit
internal_register-handlers c g b on named safe fresh = ground (arith, eq_iff c "")

run_register :
    (q : Platform) (j : Input) (c : String) (g : ℕ) (b : State)
    → connected b ≡ true
    → run_event q j (register c (some g)) b ≡ internal_register c (some g) b
unfolding run_event wait_for_socket run_deferred control
run_register q j c g b on = rw (must_wait-connected b on, branch) refl

request-id :
    (i : Input) (c : String) (m : Fields) → get_field "_MESSAGE_ID" (request i c m) ≡ str (guid i)
unfolding request
request-id i c m =
    get_field-set_field "_MESSAGE_HANDLE" "_MESSAGE_ID" (str c)
      (set_field "_MESSAGE_ID" (str (guid i)) m)
    ∙ get_field-set_field "_MESSAGE_ID" "_MESSAGE_ID" (str (guid i)) m

-- A registered function gets the request and its response goes to the sender.
responder-answers :
    (q : Platform) (j : Input) (b : State) (text caller c key : String) (g : ℕ) (m e : Fields)
    → connected b ≡ true
    → c ≢ ""
    → is_dangerous_key c ≡ false
    → lookup c b.handlers ≡ none
    → key ≢ ""
    → lookup key b.calls ≡ none
    → get_field "_MESSAGE_ID" m ≡ str key
    → Carries q text caller c m e
    → q.throws g (obj m) ≡ false
    → let given = field "_MESSAGE_ID" (str key) end in
      effects (on_message q j text (state_of (internal_register c (some g) b)))
      ≡ answer g (obj m) given
        ∷ transmit open_ (sending q caller (q.respond g (obj m) given))
        ∷ log ("RESPONSE: " <> text)
        ∷ []
unfolding connected
responder-answers q j b text caller c key g m e on named safe fresh marked foreign id carried fine =
    let kept : List Callback = responder b.next_closure (some g) ∷ [] in
    let registered : State = record b {
      responders = insert c (some g) b.responders;
      next_closure = suc b.next_closure;
      handlers = insert c kept b.handlers;
    } in
    let handled =
      dispatch_foreign q j text key c kept e m registered carried.content id marked foreign
        carried.to named safe (lookup-insert_self c kept b.handlers)
      ∙ run_responder q j b.next_closure g key caller e m registered on carried.content id
          carried.from fine in
    rw (internal_register-handlers c g b on named safe fresh) (
      ap effects (
        on_message_parsed q j registered text (obj e) registered _ carried.not_ping carried.parsed
          handled))

-- A client that is connected calls a function that another one, with no handler for its name, has
-- registered: it sends the request; the other client runs the function with it and sends what the
-- function filled in to the caller; and the caller's function gets that without the id, after which
-- the call is forgotten. The server carries both messages, the answer keeps the id and comes in time,
-- the functions do not throw, the other client has no call with the id, and the function's name and
-- the id are not empty and the name is no dangerous key.
pub remote_call :
    (p q : Platform) (server : (sender text : String) → String) (i j k : Input) (a b : State)
    (caller owner c : String) (m d e : Fields) (timeout f g : ℕ)
    → connected a ≡ true
    → connected b ≡ true
    → guid i ≢ ""
    → c ≢ ""
    → is_dangerous_key c ≡ false
    → lookup c b.handlers ≡ none
    → lookup (guid i) b.calls ≡ none
    → Carries q (server caller (sending p c (request i c m))) caller c (request i c m) d
    → q.throws g (obj (request i c m)) ≡ false
    → get_field "_MESSAGE_ID" (reply q i g (request i c m)) ≡ str (guid i)
    → Carries p
        (server owner (sending q caller (reply q i g (request i c m))))
        owner
        caller
        (reply q i g (request i c m))
        e
    → p.throws f (obj (delete_field "_MESSAGE_ID" (reply q i g (request i c m)))) ≡ false
    → k.now < i.now + timeout
    → let asked = server caller (sending p c (request i c m)) in
      let filled = reply q i g (request i c m) in
      let answered = server owner (sending q caller filled) in
      let sent = run_event p i (call c m timeout (some f)) a in
      let registered = run_event q j (register c (some g)) b in
      let responded = run_event q j (received asked) (state_of registered) in
      let finished = run_event p k (received answered) (state_of sent) in
      (effects sent ≡ transmit open_ (sending p c (request i c m)) ∷ [])
      × (effects responded
          ≡ answer g (obj (request i c m)) (field "_MESSAGE_ID" (str (guid i)) end)
            ∷ transmit open_ (sending q caller filled)
            ∷ log ("RESPONSE: " <> asked)
            ∷ [])
      × (effects finished
          ≡ invoke f (obj (delete_field "_MESSAGE_ID" filled))
            ∷ log ("RESPONSE: " <> answered)
            ∷ [])
      × (lookup (guid i) (state_of finished).calls ≡ none)
unfolding run_event request sending reply
remote_call p q server i j k a b caller owner c m d e timeout f g on_a on_b marked named safe fresh
      foreign asked fine_g keeps answered fine_f early =
    let (out, calls) =
      call-answer p i k a c m timeout f _ e _ on_a marked answered.not_ping answered.parsed
        answered.content keeps fine_f early in
    rw (run_call p i c m timeout f a on_a, run_register q j c g b on_b)
      (
        (internal_call_lem p i a c m timeout (some f) on_a).1,
        responder-answers q j b _ caller c (guid i) g _ d on_b named safe fresh marked foreign
            (request-id i c m) asked fine_g,
        out,
        calls,
      )
