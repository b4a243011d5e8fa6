-- ===== src/Client/Api.antt =====
-- app/assets/js/oocsi-web.js: the object that the module returns, and the events that run its code.
use mathlib.Core.Option
use oocsi_web.Common.{
  List, In, ◌≡◌, ℕ, String, Bool, false, Option, none, some, [], ◌∷◌, ◌++◌, get_elem?, set, length,
}
use oocsi_web.Json.{Value, undefined, Fields}
use oocsi_web.Client.Messaging.{cleanup_expired_calls, wait_for_socket, accessor}
use oocsi_web.Client.Connection.{
  on_open, on_close, on_error, on_reconnect_timer, on_visibility_change, connect,
  schedule_reconnect,
}
use oocsi_web.Client.Receive.{on_message}
use oocsi_web.Client.State.{
  Deferred, ReadyState, connecting, open_, closing, closed, is_connecting, remove_timer, user, feed,
  send_data, call_function, register_responder, subscribe_channel, unsubscribe_channel,
  close_socket, State, Input, Platform, Action, skip, assign, option_case, state_of, ◌>>◌,
}

-- The state when the script has run.
unfoldable pub initial : State
initial = record {
  ws_uri = "ws://localhost/ws";
  username = none;
  handlers = [];
  responders = [];
  calls = [];
  websocket = none;
  reconnect_timer = none;
  reconnect_attempts = 0;
  cleanup_running = false;
  timers = [];
  waiting = [];
  variables = [];
  next_timer = 1;
  next_closure = 0;
}

-- `isConnecting`.
unfoldable pub is_connecting_now : State → Bool
is_connecting_now s = elim s.websocket [ none ↦ false | some r ↦ is_connecting r ]

-- `handle`.
unfoldable pub handle : State → Option String
handle s = s.username

-- The calls that a page makes, and the events of the browser.
pub data Event : Type 0 where
  connect_to : (server : String) → Option String → Option ℕ → Event
  send : String → Fields → Event
  call : String → Fields → (timeout : ℕ) → Option ℕ → Event
  register : String → Option ℕ → Event
  subscribe : String → Option ℕ → Event
  unsubscribe : String → Event
  variable : (channel name : String) → (throttle : ℕ) → Event
  listen : (index : ℕ) → (listener : ℕ) → Event
  assign_variable : (index : ℕ) → Value → (broadcast : Bool) → Event
  reconnect close : Event
  -- `onopen`, `onclose`, `onmessage` and `onerror` of a socket.
  opened : Event
  closed_with : (code : ℕ) → (says_429 : Bool) → Event
  received : String → Event
  failed : String → Event
  visibility_changed : Event
  -- A timeout of `scheduleReconnect`, the oldest retry of `waitForSocket`, the cleanup interval.
  reconnect_fires : ℕ → Event
  retry_fires : Event
  cleanup_fires : Event
  -- The browser moves the socket to another ready state.
  socket_moves : ReadyState → Event

-- `listeners.push(listener)`.
unfoldable pub add_listener : ℕ → ℕ → Action
add_listener k f s =
    option_case (get_elem? s.variables k) skip
      (λ v. assign (λ s. record s {
        variables = set s.variables k (record v { listeners = v.listeners ++ f ∷ [] });
      }))
      s

-- The retry of the call that `waitForSocket` has held back longest.
unfoldable pub retry_first : Platform → Input → List Deferred → Action
retry_first p i [] = skip
retry_first p i (d ∷ rest) = assign (λ s. record s { waiting = rest }) >> wait_for_socket p i d

unfoldable pub retry : Platform → Input → Action
retry p i s = retry_first p i s.waiting s

-- `variable`: the new variable, and the subscription of its closure.
unfoldable pub make_variable : Platform → Input → String → String → ℕ → Action
make_variable p i channel name throttle s =
    (assign (λ s. record s {
      variables =
          s.variables
          ++ record {
            channel = channel;
            name = name;
            throttle = throttle;
            listeners = [];
            value = undefined;
            last_update = 0;
          }
            ∷ [];
    })
        >> wait_for_socket p i (subscribe_channel channel (some (feed (length s.variables)))))
      s

-- The code that runs at an event.
unfoldable pub run_event : Platform → Input → Event → Action
unfolding add_listener retry retry_first make_variable
run_event p i (connect_to server name fn) = connect i server name (Option.map user fn)
run_event p i (send recipient message) = wait_for_socket p i (send_data recipient message)
run_event p i (call c message timeout fn) = wait_for_socket p i (call_function c message timeout fn)
run_event p i (register c fn) = wait_for_socket p i (register_responder c fn)
run_event p i (subscribe channel fn) =
    wait_for_socket p i (subscribe_channel channel (Option.map user fn))
run_event p i (unsubscribe channel) = wait_for_socket p i (unsubscribe_channel channel)
run_event p i (variable channel name throttle) = make_variable p i channel name throttle
run_event p i (listen k f) = add_listener k f
run_event p i (assign_variable k v broadcast) = accessor p i k v broadcast
run_event p i reconnect = schedule_reconnect i (some 0)
run_event p i close = wait_for_socket p i close_socket
run_event p i opened = on_open
run_event p i (closed_with c says_429) = on_close i c says_429
run_event p i (received text) = on_message p i text
run_event p i (failed text) = on_error i text
run_event p i visibility_changed = on_visibility_change i
run_event p i (reconnect_fires t) =
    assign (λ s. record s { timers = remove_timer t s.timers }) >> on_reconnect_timer p i
run_event p i retry_fires = retry p i
run_event p i cleanup_fires = cleanup_expired_calls i.now
run_event p i (socket_moves r) = assign λ s. record s { websocket = some r }

-- The moves of a socket's ready state that the browser makes.
pub data Moves : Option ReadyState → ReadyState → Type 0 where
  opens : Moves (some connecting) open_
  fails : Moves (some connecting) closed
  starts_closing : Moves (some open_) closing
  drops : Moves (some open_) closed
  ends : Moves (some closing) closed

-- When an event can occur. The page's calls always can.
abbrev pub CanOccur : State → Event → Type 0
CanOccur s opened = s.websocket ≡ some open_
CanOccur s (received text) = s.websocket ≡ some open_
CanOccur s (reconnect_fires t) = In t s.timers
CanOccur s (socket_moves r) = Moves s.websocket r
CanOccur s _ = Unit {0}

-- The states that a sequence of events leads to, with what was called on the browser at each.
pub data Reach (p : Platform) : State → Type 0 where
  start : Reach p initial
  next :
      {s : State}
      → Reach p s
      → (i : Input) (e : Event) → CanOccur s e
      → Reach p (state_of (run_event p i e s))

-- The client runs the page's calls, in order.
unfoldable pub run_events : Platform → Input → List Event → Action
unfolding run_event
run_events p i [] = skip
run_events p i (e ∷ events) = run_event p i e >> run_events p i events
