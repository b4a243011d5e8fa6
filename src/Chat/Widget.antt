-- ===== src/Chat/Widget.antt =====
-- app/assets/js/oocsi-chat.js: the variables of the widget, its window and badge, and its actions. What
-- an action calls outside of the widget is listed in `calls`, the newest call last.
use oocsi_web.Common.{
  ℕ, suc, String, Bool, true, false, not, Option, none, some, List, [], ◌∷◌, ◌++◌, if◌then◌else◌,
  ◌&&◌, str_eq, ltb,
}
use oocsi_web.Common.Text.{◌<>◌, show}
use oocsi_web.Json.{
  Value, undefined, null, str, num, Fields, end, field, truthy, property, to_string,
}
use oocsi_web.Chat.Text.{escape_html, render_json}

-- A child of `msgList`, with its texts.
pub data Entry : Type 0 where
  message : (text : String) (meta : String) (own : Bool) → Entry
  system : (html meta : String) → Entry
  info : String → Entry

pub data Call : Type 0 where
  connect : (url name : String) → Call
  send : (channel : String) → Fields → Call
  subscribe unsubscribe : String → Call
  set_document_cookie : String → Call
  log_line : String → Call
  report : String → Call

pub record Widget : Type 0 where
  pub current_channel : Option String
  pub current_username : Option String
  pub unread_count : ℕ
  pub is_open : Bool
  pub is_connected : Bool
  -- The badge, the header, and whether the window has the class `open`.
  pub badge_text : String
  pub badge_shown : Bool
  pub header_name : String
  pub username_display : String
  pub window_open : Bool
  pub messages : List Entry
  pub input_value : String
  pub calls : List Call

-- What the browser and the client give at one event: whether there is an `OOCSI` and what its
-- functions return, the answer to a first and a second question, the clock in its three forms, and
-- `Math.floor(Math.random() * 100000000)`.
pub record Surroundings : Type 0 where
  pub loaded : Bool
  pub connected : Bool
  pub connecting : Bool
  pub handle : Option String
  pub prompts : Option String × Option String
  pub confirmed : Bool
  pub now : ℕ
  pub time : String
  pub expiry : (days : ℕ) → String
  pub random : ℕ
  pub secure : Bool
  pub host : String

-- Whether a text or `null` is true in a test.
unfoldable pub given : Option String → Bool
given none = false
given (some s) = not (str_eq s "")

-- `data.username !== currentUsername` and `sender === OOCSI.handle()`, the first negated.
unfoldable pub is_username : Value → Option String → Bool
is_username (str s) (some u) = str_eq s u
is_username null none = true
is_username _ _ = false

unfoldable pub is_handle : Value → Option String → Bool
is_handle (str s) (some u) = str_eq s u
is_handle undefined none = true
is_handle _ _ = false

unfoldable pub call : Call → Widget → Widget
call c w = record w { calls = w.calls ++ c ∷ [] }

unfoldable pub append_entry : Entry → Widget → Widget
append_entry e w = record w { messages = w.messages ++ e ∷ [] }

-- `updateBadge`.
unfoldable pub update_badge : Widget → Widget
update_badge w =
    if ltb 0 w.unread_count && not w.is_open
    then record w {
      badge_text = (if ltb 9 w.unread_count then "9+" else show w.unread_count);
      badge_shown = true;
    }
    else record w { badge_shown = false }

-- `updateUsernameUI`.
unfoldable pub update_username : Widget → Widget
update_username w = record w {
  username_display = elim w.current_username [
    | none ↦ "Set Name"
    | some u ↦ if str_eq u "" then "Set Name" else u
  ];
}

-- The `{message, username, timestamp}` that the widget sends.
unfoldable pub payload : Surroundings → (text : String) → Option String → Fields
payload i text username =
    let handle : Value = elim i.handle [ none ↦ undefined | some h ↦ str h ] in
    let name : Value = elim username [
      | none ↦ handle
      | some u ↦ if str_eq u "" then handle else str u
    ] in
    field "message" (str text) (field "username" name (field "timestamp" (num (show i.now)) end))

-- `sendJoin`.
unfoldable pub send_join : Surroundings → (channel : String) → Widget → Widget
unfolding call
send_join i channel w = call (send channel (payload i "<JOIN>" w.current_username)) w

-- The function that `connectToChannel` hands to `OOCSI.connect`.
unfoldable pub on_connected : Surroundings → (channel server : String) → Widget → Widget
unfolding call
on_connected i channel server w =
    send_join i channel
      (record (call (log_line ("[OOCSI-Chat] Connected to " <> server)) w) { is_connected = true })

unfoldable pub server_url : Surroundings → String
server_url i = (if i.secure then "wss://" else "ws://") <> i.host <> "/ws"

-- `connectToChannel`.
unfoldable pub connect_to_channel : Surroundings → String → Widget → Widget
unfolding call update_username server_url
connect_to_channel i channel w =
    let missing = record (call (report "OOCSI library not loaded") w) {
      header_name = "Error: OOCSI Missing";
    } in
    let named =
      update_username (record (call (log_line ("[OOCSI-Chat] Connecting to " <> channel)) w) {
        header_name = channel;
      }) in
    let joined =
      if not i.connected && not i.connecting && not (given i.handle)
      then call (connect (server_url i) ("ChatClient_" <> show i.random)) named
      else send_join i channel (record named { is_connected = true }) in
    if str_eq channel "" then w else if i.loaded then call (subscribe channel) joined else missing

-- A message that the widget counts.
unfoldable pub count_unread : Widget → Widget
unfolding update_badge
count_unread w =
    if w.is_open then w else update_badge (record w { unread_count = suc w.unread_count })

-- `msg.sender || (data ? data.sender : 'Unknown')`.
unfoldable pub sender_of : (msg content : Value) → Value
sender_of msg content =
    if truthy (property "sender" msg)
    then property "sender" msg
    else if truthy content
    then property "sender" content
    else str "Unknown"

-- `data.username || sender`.
unfoldable pub name_of : (content sender : Value) → Value
name_of content sender =
    if truthy (property "username" content) then property "username" content else sender

-- The branch of a chat message; where a name has no text, the code throws before it changes anything.
unfoldable pub on_chat : Surroundings → (text : String) → (content sender : Value) → Widget → Widget
unfolding append_entry name_of
on_chat i text content sender w =
    let shown : Widget = elim (to_string (name_of content sender)) [
      | none ↦ w
      | some name ↦
          if str_eq text "<JOIN>"
          then append_entry (info (name <> " joined the chat")) w
          else if str_eq text "<LEAVE>"
          then append_entry (info (name <> " left the chat")) w
          else count_unread (append_entry (message text (name <> " • " <> i.time) false) w)
    ] in
    if is_username (property "username" content) w.current_username then w else shown

-- The branch of raw data.
unfoldable pub on_raw : Surroundings → (content sender : Value) → Widget → Widget
unfolding append_entry
on_raw i content sender w =
    let shown : Widget = elim (to_string sender) [
      | none ↦ w
      | some name ↦
          let html =
            "<details><summary>Raw Data ["
            <> escape_html name
            <> "]</summary>"
            <> render_json content
            <> "</details>" in
          count_unread (append_entry (system html (name <> " • " <> i.time)) w)
    ] in
    if is_handle sender i.handle then w else shown

-- `typeof data.message === 'string'`, with the text, which is not empty in a true value.
unfoldable pub chat_text : Value → Option String
chat_text (str s) = if str_eq s "" then none else some s
chat_text _ = none

-- The handler that `connectToChannel` subscribes.
unfoldable pub on_data : Surroundings → (msg : Value) → Widget → Widget
unfolding chat_text sender_of
on_data i msg w =
    let content = property "data" msg in
    let sender = sender_of msg content in
    elim (chat_text (property "message" content)) [
      | some text ↦ on_chat i text content sender w
      | none ↦ on_raw i content sender w
    ]
