-- ===== src/Chat/Tests.antt =====
-- The widget on small inputs.
use oocsi_web.Common.{suc, ◌+◌, String, List, [], ◌∷◌, true, false, some, ◌≡◌, refl}
use oocsi_web.Common.Text.{◌<>◌, after_prefix, show, length_text}
use oocsi_web.Json.{Value, str, obj, end, field, property, get_field, to_string, truthy}
use oocsi_web.Chat.Text.{
  find_cookie, escape_html, render_json, get_cookie, drop_spaces, first_piece, later_pieces,
}
use oocsi_web.Chat.Widget.{Widget, Surroundings, on_chat, is_username, send_join, count_unread}
use oocsi_web.Chat.Actions.{start_widget, run_action, receive}
use oocsi_web.Common.Dict.{Dict, lookup}
use oocsi_web.Common.Text.Pieces.{lacks}
use oocsi_web.Chat.Laws.Cookies.{cookies_text, starts_space, get_cookie-lookup, get_cookie_ends}
use oocsi_web.Chat.Laws.Unread.{receive_all, count_messages, receive_all-unread}
use oocsi_web.Chat.Laws.Escape.{escape_html-entities, entities}
use oocsi_web.Chat.Laws.Render.{IsMarkup, render_json-IsMarkup}
use oocsi_web.Chat.Laws.Badge.{IsTidy, start, next, Reach-IsTidy}

abbrev surroundings : Surroundings
surroundings = record {
  loaded = true;
  connected = true;
  connecting = false;
  handle = some "page";
  prompts = (some "ann", some "studio");
  confirmed = true;
  now = 5;
  time = "10:00";
  expiry = λ days. "later";
  random = 7;
  secure = true;
  host = "oocsi.example";
}

abbrev chat_message : Value
chat_message = obj (
    field "sender" (str "bob")
      (field "data" (obj (field "message" (str "hi <b>") (field "username" (str "bob") end))) end))

-- A widget with a channel, closed, that got a message of another user.
abbrev told : Widget
told =
    run_action (λ s. s) surroundings (receive chat_message)
      (start_widget surroundings "oc_username=ann; oc_channel=studio")

get_cookie-second : get_cookie "oc_channel" "oc_username=ann; oc_channel=studio" ≡ some "studio"
unfolding get_cookie after_prefix drop_spaces first_piece later_pieces length_text
get_cookie-second = refl

told-badge : told.badge_text ≡ "1"
unfolding start_widget run_action show property get_field on_chat is_username after_prefix
    drop_spaces first_piece later_pieces length_text send_join to_string truthy count_unread
told-badge = refl

Reach-IsTidy_example : IsTidy told
Reach-IsTidy_example =
    Reach-IsTidy (λ s. s)
      (next (start surroundings "oc_username=ann; oc_channel=studio") surroundings
        (receive chat_message))

render_json-IsMarkup_example : IsMarkup (render_json chat_message)
render_json-IsMarkup_example = render_json-IsMarkup chat_message

escape_html-entities_example : escape_html "<i> & \"x\"" ≡ entities "<i> & \"x\""
escape_html-entities_example = escape_html-entities "<i> & \"x\""

abbrev jar : Dict String
jar = ("oc_username", "ann") ∷ ("oc_channel", "studio") ∷ []

get_cookie-lookup_example : get_cookie "oc_channel" (cookies_text jar) ≡ lookup "oc_channel" jar
unfolding lacks starts_space
get_cookie-lookup_example =
    get_cookie-lookup "oc_channel" jar refl
      ((refl, refl, refl, refl), ((refl, refl, refl, refl), tt))

get_cookie_ends_example :
    find_cookie (suc (length_text "a=1; b=2") + 3) ("b" <> "=") "a=1; b=2"
    ≡ some (get_cookie "b" "a=1; b=2")
get_cookie_ends_example = get_cookie_ends "b" "a=1; b=2" 3

abbrev two_messages : List (Surroundings × Value)
two_messages = (surroundings, chat_message) ∷ (surroundings, chat_message) ∷ []

receive_all-unread_example :
    (receive_all two_messages told).unread_count
    ≡ count_messages told.current_username two_messages + told.unread_count
unfolding start_widget run_action property get_field on_chat is_username after_prefix drop_spaces
    first_piece later_pieces length_text send_join to_string truthy count_unread
receive_all-unread_example = receive_all-unread two_messages told refl
