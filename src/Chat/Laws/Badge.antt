-- ===== src/Chat/Laws/Badge.antt =====
-- app/assets/js/oocsi-chat.js: the badge, the window and the counter of unread messages agree.
use oocsi_web.Common.{
  String, true, not, Option, some, ◌≡◌, ap, sym, ◌∙◌, subst, if◌then◌else◌, ◌&&◌, ltb, arith,
  Option-cases, Bool-cases, inl, inr, ◌⊎◌,
}
use oocsi_web.Common.Text.{show}
use oocsi_web.Json.{Value, property}
use oocsi_web.Chat.Text.{cookie_text}
use oocsi_web.Chat.Widget.{
  set_document_cookie, Widget, Surroundings, given, call, append_entry, update_badge,
  update_username, send_join, connect_to_channel, count_unread, chat_text, sender_of, on_chat,
  on_raw, on_data, on_connected,
}
use oocsi_web.Chat.Actions.{
  answer, take_username, ensure_username, toggle_window, open_chat, send_message, send_leave,
  leave_channel, disconnect, start_widget, initial_widget, Action, click_button, click_close,
  click_name, click_send, press_enter, leave_page, receive, finish_connect, write, run_action,
}

-- The badge is seen while the window is closed and messages are unread, with their number; an open
-- window has a channel, and nothing unread.
abbrev pub IsTidy : Widget → Type 0
IsTidy w =
    (w.badge_shown ≡ (ltb 0 w.unread_count && not w.is_open))
    × (w.badge_shown ≡ true
        → w.badge_text ≡ (if ltb 9 w.unread_count then "9+" else show w.unread_count))
    × (w.window_open ≡ w.is_open)
    × (w.is_open ≡ true → w.unread_count ≡ 0)
    × (w.is_open ≡ true → given w.current_channel ≡ true)

connect_to_channel-IsTidy :
    (i : Surroundings) (channel : String) (w : Widget)
    → IsTidy w
    → IsTidy (connect_to_channel i channel w)
unfolding connect_to_channel send_join call update_username
connect_to_channel-IsTidy i channel w h = ground arith

connect_to_channel-current_channel :
    (i : Surroundings) (channel : String) (w : Widget)
    → (connect_to_channel i channel w).current_channel ≡ w.current_channel
unfolding connect_to_channel send_join call update_username
connect_to_channel-current_channel i channel w = ground arith

on_chat-IsTidy :
    (i : Surroundings) (text : String) (content sender : Value) (w : Widget)
    → IsTidy w
    → IsTidy (on_chat i text content sender w)
unfolding on_chat append_entry count_unread update_badge
on_chat-IsTidy i text content sender w h = ground arith

on_raw-IsTidy :
    (i : Surroundings) (content sender : Value) (w : Widget)
    → IsTidy w
    → IsTidy (on_raw i content sender w)
unfolding on_raw append_entry count_unread update_badge
on_raw-IsTidy i content sender w h = ground arith

on_data-IsTidy : (i : Surroundings) (msg : Value) (w : Widget) → IsTidy w → IsTidy (on_data i msg w)
unfolding on_data
on_data-IsTidy i msg w h =
    let content = property "data" msg in
    elim (Option-cases (chat_text (property "message" content))) [
      | inl e ↦ rw (e, on_data) (on_raw-IsTidy i content (sender_of msg content) w h)
      | inr (text, e) ↦ rw (e, on_data) (on_chat-IsTidy i text content (sender_of msg content) w h)
    ]

toggle_window-IsTidy :
    (w : Widget) → given w.current_channel ≡ true → IsTidy w → IsTidy (toggle_window w)
unfolding toggle_window update_badge
toggle_window-IsTidy w c h = ground arith

module _ (trim : String → String) where
  take_username-IsTidy :
      (i : Surroundings) (reply : Option String) (w : Widget)
      → IsTidy w
      → IsTidy (take_username trim i reply w)
  unfolding take_username update_username call
  take_username-IsTidy i reply w h = ground arith

  send_message-IsTidy : (i : Surroundings) (w : Widget) → IsTidy w → IsTidy (send_message trim i w)
  unfolding send_message append_entry call
  send_message-IsTidy i w h = ground arith

send_leave-IsTidy : (i : Surroundings) (w : Widget) → IsTidy w → IsTidy (send_leave i w)
unfolding send_leave call
send_leave-IsTidy i w h = ground arith

disconnect-IsTidy : (i : Surroundings) (w : Widget) → IsTidy w → IsTidy (disconnect i w)
unfolding disconnect update_badge leave_channel send_leave call
disconnect-IsTidy i w h = ground arith

module _ (trim : String → String) where
  ensure_username-IsTidy :
      (i : Surroundings) (w : Widget) → IsTidy w → IsTidy (ensure_username trim i w).1
  unfolding ensure_username
  ensure_username-IsTidy i w h = elim (Bool-cases (given w.current_username)) [
    | inl e ↦ rw (e, ensure_username) h
    | inr e ↦ rw (e, ensure_username) (take_username-IsTidy trim i i.prompts.0 w h)
  ]

  with_channel-IsTidy :
      (i : Surroundings) (channel : String) (w : Widget)
      → given (some channel) ≡ true
      → IsTidy w
      → IsTidy (
          call
            (set_document_cookie (cookie_text "oc_channel" channel (i.expiry 7) 7))
            (record w { current_channel = some channel }))
  unfolding call
  with_channel-IsTidy i channel w g h = ground (arith, h, g)

  answer-given :
      (reply : Option String) (s : String) → answer trim reply ≡ some s → given (some s) ≡ true
  unfolding answer given
  answer-given reply s e = ground arith

  -- What a click of the button does: nothing more than the question, or the window changes, after the
  -- channel was joined if there was none.
  open_chat-cases :
      (i : Surroundings) (w : Widget)
      → let v = (ensure_username trim i w).1 in
        (open_chat trim i w ≡ v)
        ⊎ ((given v.current_channel ≡ true) × (open_chat trim i w ≡ toggle_window v))
        ⊎ ((channel : String) × (given (some channel) ≡ true)
            × (open_chat trim i w
                ≡ toggle_window (
                    connect_to_channel i channel (
                      call
                        (set_document_cookie (cookie_text "oc_channel" channel (i.expiry 7) 7))
                        (record v { current_channel = some channel })))))
  unfolding open_chat
  open_chat-cases i w =
      let v = (ensure_username trim i w).1 in
      elim (Bool-cases (ensure_username trim i w).0) [
        | inr e ↦ inl (ground (arith, e))
        | inl e ↦ elim (Bool-cases (given v.current_channel)) [
          | inl c ↦ inr (inl (c, ground (arith, e, c)))
          | inr c ↦ elim (Option-cases (answer trim i.prompts.1)) [
            | inl a ↦ inl (ground (arith, e, c, a))
            | inr (channel, a) ↦
                inr (inr (channel, answer-given i.prompts.1 channel a, ground (arith, e, c, a)))
          ]
        ]
      ]

  open_chat-IsTidy : (i : Surroundings) (w : Widget) → IsTidy w → IsTidy (open_chat trim i w)
  unfolding connect_to_channel
  open_chat-IsTidy i w h =
      let v = (ensure_username trim i w).1 in
      let tidy = ensure_username-IsTidy i w h in
      elim (open_chat-cases i w) [
        | inl e ↦ subst (λ w. IsTidy w) (sym e) tidy
        | inr (inl (c, e)) ↦ subst (λ w. IsTidy w) (sym e) (toggle_window-IsTidy v c tidy)
        | inr (inr (channel, g, e)) ↦
            subst (λ w. IsTidy w) (sym e)
              (toggle_window-IsTidy _
                (ap given (connect_to_channel-current_channel i channel _) ∙ g)
                (connect_to_channel-IsTidy i channel _ (with_channel-IsTidy i channel v g tidy)))
      ]

  -- What the widget does at one event keeps it so.
  run_action-IsTidy :
      (i : Surroundings) (a : Action) (w : Widget) → IsTidy w → IsTidy (run_action trim i a w)
  unfolding run_action on_connected send_join call
  run_action-IsTidy i click_button w h = open_chat-IsTidy i w h
  run_action-IsTidy i click_close w h = disconnect-IsTidy i w h
  run_action-IsTidy i click_name w h = take_username-IsTidy trim i i.prompts.0 w h
  run_action-IsTidy i click_send w h = send_message-IsTidy trim i w h
  run_action-IsTidy i press_enter w h = send_message-IsTidy trim i w h
  run_action-IsTidy i leave_page w h = elim (Bool-cases i.loaded) [
    | inl e ↦ rw e (send_leave-IsTidy i w h)
    | inr e ↦ rw e h
  ]
  run_action-IsTidy i (receive msg) w h = on_data-IsTidy i msg w h
  run_action-IsTidy i (finish_connect channel server) w h = h
  run_action-IsTidy i (write s) w h = h

start_widget-IsTidy : (i : Surroundings) (cookies : String) → IsTidy (start_widget i cookies)
unfolding start_widget initial_widget update_username connect_to_channel send_join call
start_widget-IsTidy i cookies = ground arith

-- The widgets that a page can come to.
pub data Reach (trim : String → String) : Widget → Type 0 where
  start : (i : Surroundings) (cookies : String) → Reach trim (start_widget i cookies)
  next :
      {w : Widget}
      → Reach trim w
      → (i : Surroundings) (a : Action) → Reach trim (run_action trim i a w)

-- Whatever happens to the widget, its badge is seen exactly while its window is closed and messages
-- are unread, with their number or 9+; the window is drawn as it is open or closed, and an open
-- window has a channel and leaves nothing unread.
pub Reach-IsTidy : (trim : String → String) {w : Widget} → Reach trim w → IsTidy w
Reach-IsTidy trim (start i cookies) = start_widget-IsTidy i cookies
Reach-IsTidy trim (next r i a) = run_action-IsTidy trim i a _ (Reach-IsTidy trim r)
