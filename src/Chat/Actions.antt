-- ===== src/Chat/Actions.antt =====
-- app/assets/js/oocsi-chat.js: what the user and the page set off: names, the window, sending and
-- leaving, and the widget as it is built.
use oocsi_web.Common.{
  String, Bool, true, false, not, Option, none, some, [], if◌then◌else◌, ◌&&◌, ◌||◌, str_eq,
}
use oocsi_web.Json.{Value}
use oocsi_web.Chat.Text.{get_cookie, cookie_text, erase_text}
use oocsi_web.Chat.Widget.{
  message, send, unsubscribe, set_document_cookie, Widget, Surroundings, given, call, append_entry,
  update_badge, update_username, payload, connect_to_channel, on_data, on_connected,
}

-- `toggleWindow`.
unfoldable pub toggle_window : Widget → Widget
unfolding update_badge
toggle_window w =
    if w.is_open
    then record w { is_open = false; window_open = false }
    else update_badge (record w { is_open = true; window_open = true; unread_count = 0 })

-- `name && name.trim() !== ""`, with the trimmed text. `trim` is `String.prototype.trim`.
module _ (trim : String → String) where
  unfoldable pub answer : Option String → Option String
  answer none = none
  answer (some s) = if str_eq s "" || str_eq (trim s) "" then none else some (trim s)

  -- What `changeUsername` does with an answer to its question, and `ensureUsername` too.
  unfoldable pub take_username : Surroundings → Option String → Widget → Widget
  unfolding answer call update_username
  take_username i reply w = elim (answer reply) [
    | none ↦ w
    | some name ↦ update_username (
        call (set_document_cookie (cookie_text "oc_username" name (i.expiry 30) 30))
          (record w { current_username = some name }))
  ]

  -- `ensureUsername`, and the value that it returns.
  unfoldable pub ensure_username : Surroundings → Widget → Bool × Widget
  unfolding take_username
  ensure_username i w =
      let asked = take_username i i.prompts.0 w in
      if given w.current_username then (true, w) else (given asked.current_username, asked)

  -- `openChat`.
  unfoldable pub open_chat : Surroundings → Widget → Widget
  unfolding ensure_username answer toggle_window connect_to_channel
  open_chat i w =
      let (has_name, v) = ensure_username i w in
      let joined : Widget = elim (answer i.prompts.1) [
        | none ↦ v
        | some channel ↦ toggle_window (
            connect_to_channel i channel (
              call (set_document_cookie (cookie_text "oc_channel" channel (i.expiry 7) 7))
                (record v { current_channel = some channel })))
      ] in
      if not has_name then v else if given v.current_channel then toggle_window v else joined

  -- `sendMessage`. The code throws before it changes anything where there is no `OOCSI`.
  unfoldable pub send_message : Surroundings → Widget → Widget
  unfolding call append_entry payload
  send_message i w =
      let text = trim w.input_value in
      let sent : Widget = elim w.current_channel [
        | none ↦ w
        | some channel ↦
            record (append_entry (message text i.time true)
              (call (send channel (payload i text w.current_username)) w)) { input_value = "" }
      ] in
      if not (str_eq text "") && given w.current_channel && i.loaded && i.connected then sent else w

-- The leave message of `disconnect` and of the listener of `beforeunload`.
unfoldable pub send_leave : Surroundings → Widget → Widget
unfolding call payload
send_leave i w = elim w.current_channel [
  | none ↦ w
  | some channel ↦
      if i.connected && not (str_eq channel "")
      then call (send channel (payload i "<LEAVE>" w.current_username)) w
      else w
]

-- `OOCSI.unsubscribe(currentChannel)`, under the test of `disconnect`.
unfoldable pub leave_channel : Surroundings → Widget → Widget
unfolding call send_leave
leave_channel i w = elim w.current_channel [
  | none ↦ w
  | some channel ↦
      if i.connected && not (str_eq channel "")
      then call (unsubscribe channel) (send_leave i w)
      else w
]

-- `disconnect`. The code throws before it changes anything where there is no `OOCSI`.
unfoldable pub disconnect : Surroundings → Widget → Widget
unfolding leave_channel update_badge
disconnect i w =
    let left = call (set_document_cookie (erase_text "oc_channel")) (leave_channel i w) in
    if i.confirmed && i.loaded
    then update_badge (record left {
      current_channel = none;
      is_connected = false;
      is_open = false;
      window_open = false;
      messages = [];
      header_name = "Not Connected";
      unread_count = 0;
    })
    else w

-- The widget as it is built, with the text of `document.cookie`, and its first action.
unfoldable pub initial_widget : (cookies : String) → Widget
unfolding get_cookie
initial_widget cookies = record {
  current_channel = get_cookie "oc_channel" cookies;
  current_username = get_cookie "oc_username" cookies;
  unread_count = 0;
  is_open = false;
  is_connected = false;
  badge_text = "0";
  badge_shown = false;
  header_name = "Not Connected";
  username_display = "";
  window_open = false;
  messages = [];
  input_value = "";
  calls = [];
}

unfoldable pub start_widget : Surroundings → (cookies : String) → Widget
unfolding initial_widget connect_to_channel update_username
start_widget i cookies =
    let w = initial_widget cookies in
    elim w.current_channel [
      | none ↦ update_username w
      | some channel ↦
          if str_eq channel "" then update_username w else connect_to_channel i channel w
    ]

-- What runs the code of the widget: the clicks and the key, a message on the channel, the client's
-- connection, and the end of the page; the user may also write in the input.
pub data Action : Type 0 where
  click_button click_close click_name click_send press_enter leave_page : Action
  receive : Value → Action
  finish_connect : (channel server : String) → Action
  write : String → Action

module _ (trim : String → String) where
  unfoldable pub run_action : Surroundings → Action → Widget → Widget
  unfolding open_chat disconnect take_username send_message send_leave on_data on_connected
  run_action i click_button = open_chat trim i
  run_action i click_close = disconnect i
  run_action i click_name = take_username trim i i.prompts.0
  run_action i click_send = send_message trim i
  run_action i press_enter = send_message trim i
  run_action i leave_page = λ w. if i.loaded then send_leave i w else w
  run_action i (receive msg) = on_data i msg
  run_action i (finish_connect channel server) = on_connected i channel server
  run_action i (write s) = λ w. record w { input_value = s }
