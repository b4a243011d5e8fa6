-- ===== src/Chat/ConversationTests.antt =====
-- Ann writes to a channel that Bob joins.
use oocsi_web.Common.{
  String, true, false, none, some, [], ◌∷◌, ◌≡◌, refl, arith, if◌then◌else◌, str_eq, eq_iff,
}
use oocsi_web.Common.Dict.{lookup}
use oocsi_web.Json.{str, obj, Fields, end, field, get_field}
use oocsi_web.Client.Samples.{moment, ready}
use oocsi_web.Client.Messaging.{connected, is_dangerous_key}
use oocsi_web.Client.State.{Platform}
use oocsi_web.Chat.Widget.{message, Widget, Surroundings, payload, connect_to_channel, on_data}
use oocsi_web.Chat.Laws.Conversation.{conversation}

abbrev page : Surroundings
page = record {
  loaded = true;
  connected = true;
  connecting = false;
  handle = some "page";
  prompts = (none, none);
  confirmed = false;
  now = 5;
  time = "10:00";
  expiry = λ days. "later";
  random = 7;
  secure = true;
  host = "oocsi.example";
}

-- A closed widget of a user.
abbrev widget_of : (name : String) → Widget
widget_of name = record {
  current_channel = some "studio";
  current_username = some name;
  unread_count = 2;
  is_open = false;
  is_connected = true;
  badge_text = "2";
  badge_shown = true;
  header_name = "studio";
  username_display = name;
  window_open = false;
  messages = [];
  input_value = "hello";
  calls = [];
}

abbrev carried : Fields
carried =
    field "sender" (str "client-1") (
      field "recipient" (str "studio") (field "data" (obj (payload page "hello" (some "ann"))) end))

abbrev network : Platform
network = record {
  parse = λ text. if str_eq text "carried" then some (obj carried) else none;
  stringify = λ v. "{}";
  throws = λ f v. false;
  respond = λ f v r. r;
  same_value = λ v w. false;
}

conversation_example :
    (on_data page (obj carried) (connect_to_channel page "studio" (widget_of "bob"))).messages
    ≡ message "hello" "ann • 10:00" false ∷ []
unfolding lookup connected get_field is_dangerous_key
conversation_example =
    (conversation network network (λ sender text. "carried") (λ s. s) moment moment moment page page
      page ready ready (widget_of "ann") (widget_of "bob") "client-1" "studio" "ann" "bob" carried 3
      4 refl refl refl refl refl refl (λ e. ground (arith, eq_iff "studio" "")) refl refl refl refl
      refl (λ e. ground (arith, eq_iff "ann" "")) (λ e. ground (arith, eq_iff "ann" "bob")) refl
      refl (λ e. ground (arith, eq_iff "hello" "")) (λ e. ground (arith, eq_iff "hello" "<JOIN>"))
      (λ e. ground (arith, eq_iff "hello" "<LEAVE>"))
      (record { not_ping = refl; parsed = refl; from = refl; to = refl; content = refl }) refl).3
