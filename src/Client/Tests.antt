-- ===== src/Client/Tests.antt =====
-- Runs of the client on small inputs, and its theorems at such inputs.
use oocsi_web.Common.{
  List, ℕ, true, false, none, some, [], ◌∷◌, ◌++◌, ◌≡◌, refl, arith, All, ◌==◌, In, eq_iff, inr,
}
use oocsi_web.Common.Dict.{lookup, insert}
use oocsi_web.Common.Text.{◌<>◌, digit_char}
use oocsi_web.Json.{num, str, obj, end, get_field, delete_field, truthy}
use oocsi_web.Client.Samples.{response, response_event, channel_event, browser, moment, ready}
use oocsi_web.Client.Guid.{guid, fill_digits}
use oocsi_web.Client.Messaging.{is_dangerous_key}
use oocsi_web.Client.Connection.{
  connect, connect_again, choose_name, handler_list, in_use, init, on_close,
}
use oocsi_web.Client.Receive.{on_message}
use oocsi_web.Client.Presence.{Addition, add_brick, add_location, switch}
use oocsi_web.Client.State.{
  connecting, Input, branch, follow, when, Deferred, send_data, subscribe_channel, Platform, State,
  open_, closed, user, transmit, open_socket, set_timeout, log, invoke, outcome, effects, state_of,
  remove_timer,
}
use oocsi_web.Client.Api.{
  connect_to, run_event, Event, received, reconnect_fires, retry_fires, opened, socket_moves,
  subscribe, start, next, initial,
}
use oocsi_web.Client.Laws.Errors.{on_message_throwing}
use oocsi_web.Client.Laws.Socket.{IsPermitted, run_event-IsPermitted}
use oocsi_web.Client.Laws.Timers.{HasOneTimer, Reach-HasOneTimer, IsBackoff, on_close-IsBackoff}
use oocsi_web.Client.Laws.Handlers.{
  HasDistinctHandlers, Reach-HasDistinctHandlers, invocations, users, on_message-handlers,
}
use oocsi_web.Client.Laws.Calls.{on_message-answer}
use oocsi_web.Client.Laws.Waiting.{hold_all, retry_all, make_all, hold_all-retry_all}
use oocsi_web.Client.Laws.Recovery.{subscriptions, reconnect_recovers}
use oocsi_web.Client.Laws.Guids.{uuid_text, guid-uuid_text}

reconnect_recovers_example :
    let lost = record ready { websocket = some closed } in
    let fired = run_event browser moment (reconnect_fires 4) lost in
    let opening = state_of (run_event browser moment (socket_moves open_) (state_of fired)) in
    let recovered = run_event browser moment opened opening in
    In (open_socket "ws://host/ws") (effects fired)
    × (effects recovered ≡ transmit open_ "ann" ∷ log "CONNECTED" ∷ subscriptions ready.handlers)
    × (state_of (run_event browser moment retry_fires (state_of recovered)) ≡ record lost {
      timers = remove_timer 4 (4 ∷ []);
      websocket = some open_;
      reconnect_attempts = 0;
    })
    × (effects (run_event browser moment retry_fires (state_of recovered))
        ≡ subscriptions ready.handlers)
reconnect_recovers_example =
    reconnect_recovers browser moment moment 4 (record ready { websocket = some closed }) refl refl

on_message-answer_example :
    effects (on_message browser moment "response" ready)
    ≡ invoke 7 (obj (delete_field "_MESSAGE_ID" response)) ∷ log ("RESPONSE: " <> "response") ∷ []
unfolding get_field lookup
on_message-answer_example =
    (on_message-answer browser moment ready "response" "id-1"
      (record { expiration = 1500; fn = some 7 }) 7 response_event response refl refl refl refl
      (λ e. ground (arith, eq_iff "id-1" "")) refl refl refl).0

on_message-handlers_example :
    on_message browser moment "event" ready
    ≡ outcome ready
        (invocations (1 ∷ 2 ∷ []) (obj channel_event) ++ log ("RESPONSE: " <> "event") ∷ [])
        false
unfolding get_field truthy is_dangerous_key lookup users
on_message-handlers_example =
    on_message-handlers browser moment "event" "room" (1 ∷ 2 ∷ []) channel_event end ready refl refl
      refl refl refl (λ e. ground (arith, eq_iff "room" "")) refl refl (refl, (refl, tt))

run_event-IsPermitted_example :
    All IsPermitted (effects (run_event browser moment (received "ping") ready))
run_event-IsPermitted_example = run_event-IsPermitted browser moment (received "ping") ready refl

abbrev first_step : Event
first_step = subscribe "room" (some 1)

Reach-HasOneTimer_example : HasOneTimer (state_of (run_event browser moment first_step initial))
Reach-HasOneTimer_example =
    Reach-HasOneTimer browser (state_of (run_event browser moment first_step initial))
      (next start moment first_step tt)

-- The page connects with a function for its own channel.
abbrev with_handler : Event
with_handler = connect_to "ws://host/ws" (some "ann") (some 4)

with_handler-handlers :
    (state_of (run_event browser moment with_handler initial)).handlers ≡ ("ann", user 4 ∷ []) ∷ []
unfolding run_event connect connect_again choose_name handler_list initial branch in_use follow init
    when insert fill_digits
with_handler-handlers = refl

Reach-HasDistinctHandlers_example :
    HasDistinctHandlers (state_of (run_event browser moment with_handler initial)).handlers
Reach-HasDistinctHandlers_example =
    Reach-HasDistinctHandlers browser (state_of (run_event browser moment with_handler initial))
      (next start moment with_handler tt)

on_close-IsBackoff_example :
    (d : ℕ) × In (set_timeout 5 d) (effects (on_close moment 1013 false ready))
    × IsBackoff true 3 d
    × ((state_of (on_close moment 1013 false ready)).timers ≡ 5 ∷ [])
on_close-IsBackoff_example =
    on_close-IsBackoff moment 1013 false ready refl (λ k n h. h) (inr (4, refl, refl))

-- Two calls that wait while the socket opens.
abbrev held : List (Input × Deferred)
held =
    (moment, send_data "bob" end)
    ∷ (record moment { now = 1200 }, subscribe_channel "hall" (some (user 3)))
    ∷ []

hold_all-retry_all_example :
    let early = record ready { websocket = some connecting } in
    let opened =
      state_of (run_event browser moment (socket_moves open_) (hold_all browser held early)) in
    (retry_all browser held opened
      ≡ make_all browser held (record early { websocket = some open_ }))
    × ((retry_all browser held opened).0.waiting ≡ [])
hold_all-retry_all_example =
    hold_all-retry_all browser held held moment (record ready { websocket = some connecting }) refl
      refl refl

guid-uuid_text_example :
    guid (record moment { random_uuid = none }) ≡ "01020304-0506-4708-890a-0b0c0d0e0f10"
unfolding uuid_text digit_char
guid-uuid_text_example =
    guid-uuid_text (record moment { random_uuid = none }) refl refl (λ k. omega arith)

-- A lamp that is added twice is announced as it was added last, and its place is a property.
abbrev additions : List Addition
additions =
    add_brick "lamp" (switch (str "home") (str "switch") (str "off") (str "bulb"))
    ∷ add_location "home" (num "51") (num "5")
    ∷ add_brick "lamp" (switch (str "home") (str "switch") (str "on") (str "bulb"))
    ∷ []

-- The second of three functions throws.
abbrev grim : Platform
grim = record browser { throws = λ f v. f == 2 }

abbrev crowded : State
crowded = record ready { handlers = ("room", user 1 ∷ user 2 ∷ user 3 ∷ []) ∷ [] }

on_message_throwing_example :
    on_message grim moment "event" crowded
    ≡ outcome crowded
        ((invocations (1 ∷ 2 ∷ []) (obj channel_event)
            ++ log ("ERROR: parse exception for event data " <> "event") ∷ [])
          ++ log ("RESPONSE: " <> "event") ∷ [])
        false
unfolding get_field truthy is_dangerous_key lookup users
on_message_throwing_example =
    on_message_throwing grim moment "event" "room" (1 ∷ []) 2 (3 ∷ []) channel_event end crowded
      refl refl refl refl refl (λ e. ground (arith, eq_iff "room" "")) refl refl (refl, tt) refl
