-- ===== src/Chat/Laws/Spoken.antt =====
-- app/assets/js/oocsi-chat.js: what a widget sends, and what it does with a message of another user.
use oocsi_web.Common.{
  ℕ, ◌+◌, String, true, false, Option, some, [], ◌∷◌, ◌++◌, ◌≡◌, ◌≢◌, refl, ◌∙◌, ap, arith, str_eq,
  eq_iff, if◌then◌else◌,
}
use oocsi_web.Common.Text.{◌<>◌}
use oocsi_web.Json.{Value, str, obj, Fields, truthy, property, get_field, to_string}
use oocsi_web.Client.Api.{run_event, run_events, received}
use oocsi_web.Client.Api as Api
use oocsi_web.Chat.Widget.{
  Entry, message, Widget, Surroundings, is_username, call, append_entry, update_badge,
  update_username, payload, send_join, connect_to_channel, count_unread, name_of, sender_of,
  on_chat, chat_text, on_data, given,
}
use oocsi_web.Chat.Actions.{send_message}
use oocsi_web.Chat.System.{client_event, client_events}

-- A widget that joins a channel over a connected client.
pub connect_to_channel_lem :
    (i : Surroundings) (c : String) (v : Widget) (connection f : ℕ)
    → i.loaded ≡ true
    → i.connected ≡ true
    → c ≢ ""
    → v.calls ≡ []
    → let joined = connect_to_channel i c v in
      (client_events connection f joined.calls
        ≡ Api.send c (payload i "<JOIN>" v.current_username) ∷ Api.subscribe c (some f) ∷ [])
      × (joined.current_username ≡ v.current_username)
      × (joined.messages ≡ v.messages)
      × (joined.unread_count ≡ v.unread_count)
      × (joined.is_open ≡ v.is_open)
unfolding connect_to_channel call update_username send_join client_events client_event
connect_to_channel_lem i c v connection f there on named quiet =
    let apart : str_eq c "" ≡ false = ground (arith, eq_iff c "") in
    rw (apart, there, on, quiet) (refl, refl, refl, refl, refl)

-- A widget that sends what stands in its input.
pub send_message_lem :
    (trim : String → String) (i : Surroundings) (c u : String) (w : Widget) (connection f : ℕ)
    → i.loaded ≡ true
    → i.connected ≡ true
    → c ≢ ""
    → w.current_channel ≡ some c
    → w.current_username ≡ some u
    → trim w.input_value ≢ ""
    → w.calls ≡ []
    → let written = send_message trim i w in
      let text = trim w.input_value in
      (client_events connection f written.calls ≡ Api.send c (payload i text (some u)) ∷ [])
      × (written.messages ≡ w.messages ++ message text i.time true ∷ [])
unfolding send_message call append_entry given client_events client_event
send_message_lem trim i c u w connection f there on named held known said quiet =
    let apart : str_eq c "" ≡ false = ground (arith, eq_iff c "") in
    let full : str_eq (trim w.input_value) "" ≡ false =
      ground (arith, eq_iff (trim w.input_value) "") in
    rw (full, held, given, apart, there, on, known, quiet) (refl, refl)

-- A message of another user.
on_chat-stranger :
    (j : Surroundings) (text u other : String) (content sender : Value) (v : Widget)
    → property "username" content ≡ str u
    → u ≢ ""
    → text ≢ "<JOIN>"
    → text ≢ "<LEAVE>"
    → v.current_username ≡ some other
    → u ≢ other
    → on_chat j text content sender v
      ≡ count_unread (append_entry (message text (u <> " • " <> j.time) false) v)
unfolding on_chat is_username name_of truthy to_string
on_chat-stranger j text u other content sender v name named no_join no_leave known apart =
    let has_name : str_eq u "" ≡ false = ground (arith, eq_iff u "") in
    let stranger : str_eq u other ≡ false = ground (arith, eq_iff u other) in
    let not_join : str_eq text "<JOIN>" ≡ false = ground (arith, eq_iff text "<JOIN>") in
    let not_leave : str_eq text "<LEAVE>" ≡ false = ground (arith, eq_iff text "<LEAVE>") in
    let foreign : is_username (property "username" content) v.current_username ≡ false =
      rw (name, known, is_username) stranger in
    let called : to_string (name_of content sender) ≡ some u =
      rw (name, name_of, truthy, has_name, to_string) refl in
    rw (foreign, called, not_join, not_leave) refl

-- What a widget sends has no message id.
pub payload-plain :
    (i : Surroundings) (text : String) (name : Option String)
    → truthy (get_field "_MESSAGE_ID" (payload i text name)) ≡ false
unfolding payload get_field truthy
payload-plain i text name = refl

payload-username :
    (i : Surroundings) (text u : String)
    → u ≢ ""
    → get_field "username" (payload i text (some u)) ≡ str u
unfolding payload get_field
payload-username i text u named = ground (arith, eq_iff u "")

pub on_data-message :
    (i j : Surroundings) (text u other : String) (e : Fields) (v : Widget)
    → get_field "data" e ≡ obj (payload i text (some u))
    → u ≢ ""
    → text ≢ ""
    → text ≢ "<JOIN>"
    → text ≢ "<LEAVE>"
    → v.current_username ≡ some other
    → u ≢ other
    → on_data j (obj e) v
      ≡ count_unread (append_entry (message text (u <> " • " <> j.time) false) v)
unfolding on_data chat_text payload property get_field
on_data-message i j text u other e v got named said no_join no_leave known apart =
    let full : str_eq text "" ≡ false = ground (arith, eq_iff text "") in
    let content : property "data" (obj e) ≡ obj (payload i text (some u)) = got in
    let written : chat_text (property "message" (property "data" (obj e))) ≡ some text =
      ap (λ d. chat_text (property "message" d)) content ∙ rw full refl in
    let name : property "username" (property "data" (obj e)) ≡ str u =
      ap (property "username") content ∙ payload-username i text u named in
    rw (written, on_data)
      (on_chat-stranger j text u other (property "data" (obj e))
        (sender_of (obj e) (property "data" (obj e))) v name named no_join no_leave known apart)

pub heard :
    (entry : Entry) (w : Widget)
    → ((count_unread (append_entry entry w)).messages ≡ w.messages ++ entry ∷ [])
      × ((count_unread (append_entry entry w)).unread_count
          ≡ (if w.is_open then 0 else 1) + w.unread_count)
unfolding count_unread append_entry update_badge
heard entry w = ground arith
