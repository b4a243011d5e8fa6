-- ===== src/Client/Samples.antt =====
-- A browser, a moment and a state of the client, for tests.
use oocsi_web.Common.{
  ◌+◌, ◌%◌, String, true, false, Option, none, some, [], ◌∷◌, if◌then◌else◌, str_eq,
}
use oocsi_web.Json.{Value, undefined, num, str, obj, Fields, end, field}
use oocsi_web.Client.State.{open_, user, State, Input, Platform}

abbrev pub response : Fields
response = field "_MESSAGE_ID" (str "id-1") (field "sum" (num "7") end)

abbrev pub response_event : Fields
response_event = field "recipient" (str "ann") (field "data" (obj response) end)

abbrev pub channel_event : Fields
channel_event =
    field "sender" (str "bob") (field "recipient" (str "room") (field "data" (obj end) end))

abbrev pub parse_sample : String → Option Value
parse_sample text =
    if str_eq text "response"
    then some (obj response_event)
    else if str_eq text "event"
    then some (obj channel_event)
    else none

abbrev pub browser : Platform
browser = record {
  parse = parse_sample;
  stringify = λ v. "{}";
  throws = λ f v. false;
  respond = λ f v r. r;
  same_value = λ v w. false;
}

abbrev pub moment : Input
moment = record {
  now = 1000;
  hidden = false;
  random_uuid = some "id-1";
  random_values = true;
  byte = λ k. (k + 1) % 256;
  roll = λ k n. 0;
}

abbrev pub ready : State
ready = record {
  ws_uri = "ws://host/ws";
  username = some "ann";
  handlers = ("ann", []) ∷ ("room", user 1 ∷ user 2 ∷ []) ∷ [];
  responders = [];
  calls = ("id-1", record { expiration = 1500; fn = some 7 }) ∷ [];
  websocket = some open_;
  reconnect_timer = some 4;
  reconnect_attempts = 3;
  cleanup_running = true;
  timers = 4 ∷ [];
  waiting = [];
  variables =
      record {
        channel = "room";
        name = "light";
        throttle = 500;
        listeners = 5 ∷ [];
        value = undefined;
        last_update = 0;
      }
      ∷ [];
  next_timer = 5;
  next_closure = 0;
}
