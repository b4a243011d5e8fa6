-- ===== src/Chat/Laws/Unread.antt =====
-- app/assets/js/oocsi-chat.js: the number of unread messages is a count of the messages received.
use oocsi_web.Common.{
  ℕ, ◌+◌, String, Bool, false, not, ◌&&◌, Option, none, some, List, [], ◌∷◌, ◌≡◌, ap, arith,
  if◌then◌else◌, str_eq, is_some, Option-cases, inl, inr,
}
use oocsi_web.Json.{Value, property, to_string}
use oocsi_web.Chat.Widget.{
  Widget, Surroundings, append_entry, update_badge, count_unread, chat_text, sender_of, name_of,
  is_username, is_handle, on_chat, on_raw, on_data,
}

-- A message of another user that is neither a joining nor a leaving, or raw data of another client; its
-- sender has a text.
unfoldable pub is_counted : Surroundings → (username : Option String) → Value → Bool
is_counted i username msg =
    let content = property "data" msg in
    let sender = sender_of msg content in
    elim (chat_text (property "message" content)) [
      | some text ↦
          not (is_username (property "username" content) username)
          && not (str_eq text "<JOIN>")
          && not (str_eq text "<LEAVE>")
          && is_some (to_string (name_of content sender))
      | none ↦ not (is_handle sender i.handle) && is_some (to_string sender)
    ]

unfoldable pub count_messages : Option String → List (Surroundings × Value) → ℕ
count_messages username [] = 0
count_messages username ((j, msg) ∷ more) =
    (if is_counted j username msg then 1 else 0) + count_messages username more

-- The messages are received one after the other.
unfoldable pub receive_all : List (Surroundings × Value) → Widget → Widget
receive_all [] w = w
receive_all ((i, msg) ∷ more) w = receive_all more (on_data i msg w)

on_chat-unread :
    (i : Surroundings) (text : String) (content sender : Value) (w : Widget)
    → w.is_open ≡ false
    → ((on_chat i text content sender w).unread_count
        ≡ (if not (is_username (property "username" content) w.current_username)
              && not (str_eq text "<JOIN>")
              && not (str_eq text "<LEAVE>")
              && is_some (to_string (name_of content sender))
            then 1
            else 0)
          + w.unread_count)
      × ((on_chat i text content sender w).is_open ≡ false)
      × ((on_chat i text content sender w).current_username ≡ w.current_username)
unfolding on_chat append_entry count_unread update_badge
on_chat-unread i text content sender w closed = ground (arith, closed)

on_raw-unread :
    (i : Surroundings) (content sender : Value) (w : Widget)
    → w.is_open ≡ false
    → ((on_raw i content sender w).unread_count
        ≡ (if not (is_handle sender i.handle) && is_some (to_string sender) then 1 else 0)
          + w.unread_count)
      × ((on_raw i content sender w).is_open ≡ false)
      × ((on_raw i content sender w).current_username ≡ w.current_username)
unfolding on_raw append_entry count_unread update_badge
on_raw-unread i content sender w closed = ground (arith, closed)

on_data-unread :
    (i : Surroundings) (msg : Value) (w : Widget)
    → w.is_open ≡ false
    → ((on_data i msg w).unread_count
        ≡ (if is_counted i w.current_username msg then 1 else 0) + w.unread_count)
      × ((on_data i msg w).is_open ≡ false)
      × ((on_data i msg w).current_username ≡ w.current_username)
unfolding on_data is_counted
on_data-unread i msg w closed =
    let content = property "data" msg in
    elim (Option-cases (chat_text (property "message" content))) [
      | inl e ↦
          rw (e, on_data, is_counted) (on_raw-unread i content (sender_of msg content) w closed)
      | inr (text, e) ↦
          rw (e, on_data, is_counted)
            (on_chat-unread i text content (sender_of msg content) w closed)
    ]

-- While the window is closed the number of unread messages grows by the number of chat messages of other
-- users, without their joining and leaving, and of raw messages of other clients that come in.
pub receive_all-unread :
    (messages : List (Surroundings × Value)) (w : Widget)
    → w.is_open ≡ false
    → (receive_all messages w).unread_count
      ≡ count_messages w.current_username messages + w.unread_count
unfolding receive_all count_messages
receive_all-unread [] w closed = omega arith
receive_all-unread ((i, msg) ∷ more) w closed =
    let (grown, still, named) = on_data-unread i msg w closed in
    omega (
      arith,
      grown,
      receive_all-unread more (on_data i msg w) still,
      ap (λ u. count_messages u more) named,
    )
