-- ===== src/Chat/Laws/Conversation.antt =====
-- app/assets/js/oocsi-chat.js on app/assets/js/oocsi-web.js: two widgets, their clients, and the server between
-- them. One user writes, the other one reads.
use oocsi_web.Common.{
  ℕ, ◌+◌, String, true, false, none, some, [], ◌∷◌, ◌++◌, ◌≡◌, ◌≢◌, refl, ◌∙◌, ap, arith, eq_iff,
  if◌then◌else◌,
}
use oocsi_web.Common.Dict.{lookup, insert, lookup-insert_self}
use oocsi_web.Common.Text.{◌<>◌}
use oocsi_web.Json.{obj, Fields}
use oocsi_web.Client.Messaging.{
  is_dangerous_key, connected, submit, add_handler, internal_subscribe, run_deferred,
  wait_for_socket,
}
use oocsi_web.Client.State.{
  user, State, transmit, log, invoke, Input, Platform, effects, state_of, control, open_, branch,
}
use oocsi_web.Client.Api.{run_event, run_events, received}
use oocsi_web.Client.Api as Api
use oocsi_web.Client.Laws.Carried.{run_send, handler-called, sending, Carries, must_wait-connected}
use oocsi_web.Chat.Widget.{
  Entry, message, Widget, Surroundings, payload, connect_to_channel, on_data,
}
use oocsi_web.Chat.Actions.{send_message}
use oocsi_web.Chat.System.{client_events}
use oocsi_web.Chat.Laws.Spoken.{
  payload-plain, connect_to_channel_lem, send_message_lem, on_data-message, heard,
}

run_subscribe :
    (p : Platform) (i : Input) (c : String) (f : ℕ) (s : State)
    → connected s ≡ true
    → c ≢ ""
    → is_dangerous_key c ≡ false
    → lookup c s.handlers ≡ none
    → state_of (run_event p i (Api.subscribe c (some f)) s)
      ≡ record s { handlers = insert c (user f ∷ []) s.handlers }
unfolding run_event wait_for_socket run_deferred internal_subscribe add_handler connected submit
    control
run_subscribe p i c f s on named safe fresh =
    rw (must_wait-connected s on, branch) (ground (arith, eq_iff c ""))

-- What the client of a widget does when the widget joins a channel.
join-handlers :
    (p : Platform) (i : Input) (c : String) (m : Fields) (f : ℕ) (s : State)
    → connected s ≡ true
    → c ≢ ""
    → is_dangerous_key c ≡ false
    → lookup c s.handlers ≡ none
    → state_of (run_events p i (Api.send c m ∷ Api.subscribe c (some f) ∷ []) s)
      ≡ record s { handlers = insert c (user f ∷ []) s.handlers }
unfolding run_events control
join-handlers p i c m f s on named safe fresh =
    rw (run_send p i c m s on) (ground (arith, run_subscribe p i c f s on named safe fresh))

send_once :
    (p : Platform) (i : Input) (c : String) (m : Fields) (s : State)
    → connected s ≡ true
    → effects (run_events p i (Api.send c m ∷ []) s) ≡ transmit open_ (sending p c m) ∷ []
unfolding run_events control
send_once p i c m s on = rw (run_send p i c m s on) refl

-- Two users on one channel, of which the second joins it now, with clients that are connected. What the first
-- one writes is sent once and stands among the own messages; when it arrives, the client of the second
-- calls the widget's function with it, and the widget appends it with the name of the first user and
-- counts it if its window is closed. The server carries the message, the function does not throw, the
-- users have different names, and the text is not empty and not one of the marks for joining and
-- leaving.
pub conversation :
    (p q : Platform) (server : (sender text : String) → String) (trim : String → String)
    (i j k : Input) (si sj sk : Surroundings) (a b : State) (w v : Widget)
    (sender c ann bob : String) (e : Fields) (connection f : ℕ)
    → connected a ≡ true
    → connected b ≡ true
    → si.loaded ≡ true
    → si.connected ≡ true
    → sj.loaded ≡ true
    → sj.connected ≡ true
    → c ≢ ""
    → is_dangerous_key c ≡ false
    → lookup c b.handlers ≡ none
    → w.current_channel ≡ some c
    → w.current_username ≡ some ann
    → v.current_username ≡ some bob
    → ann ≢ ""
    → ann ≢ bob
    → w.calls ≡ []
    → v.calls ≡ []
    → trim w.input_value ≢ ""
    → trim w.input_value ≢ "<JOIN>"
    → trim w.input_value ≢ "<LEAVE>"
    → Carries q
        (server sender (sending p c (payload si (trim w.input_value) (some ann))))
        sender
        c
        (payload si (trim w.input_value) (some ann))
        e
    → q.throws f (obj e) ≡ false
    → let text = trim w.input_value in
      let written = send_message trim si w in
      let joined = connect_to_channel sj c v in
      let sent = run_events p i (client_events connection f written.calls) a in
      let ready = state_of (run_events q j (client_events connection f joined.calls) b) in
      let arrived = server sender (sending p c (payload si text (some ann))) in
      let read = on_data sk (obj e) joined in
      (effects sent ≡ transmit open_ (sending p c (payload si text (some ann))) ∷ [])
      × (written.messages ≡ w.messages ++ message text si.time true ∷ [])
      × (effects (run_event q k (received arrived) ready)
          ≡ invoke f (obj e) ∷ log ("RESPONSE: " <> arrived) ∷ [])
      × (read.messages ≡ v.messages ++ message text (ann <> " • " <> sk.time) false ∷ [])
      × (read.unread_count ≡ (if v.is_open then 0 else 1) + v.unread_count)
unfolding run_events run_event
conversation p q server trim i j k si sj sk a b w v sender c ann bob e connection f on_a on_b
      there_a linked_a there_b linked_b named safe fresh held known_a known_b ann_named apart
      quiet_a quiet_b said no_join no_leave carried fine =
    let (out, own) =
      send_message_lem trim si c ann w connection f there_a linked_a named held known_a said
        quiet_a in
    let (calls, name, messages, unread, open_now) =
      connect_to_channel_lem sj c v connection f there_b linked_b named quiet_b in
    let shown =
      on_data-message si sk (trim w.input_value) ann bob e (connect_to_channel sj c v)
        carried.content ann_named said no_join no_leave (name ∙ known_b) apart in
    let entry : Entry = message (trim w.input_value) (ann <> " • " <> sk.time) false in
    let (appended, counted) = heard entry (connect_to_channel sj c v) in
    let ready =
      ap (λ es. state_of (run_events q j es b)) calls
      ∙ join-handlers q j c (payload sj "<JOIN>" v.current_username) f b on_b named safe fresh in
    (
      ap (λ es. effects (run_events p i es a)) out ∙ send_once p i c _ a on_a,
      own,
      rw ready (
          handler-called q k _ _ sender c _ e f (payload-plain si _ (some ann)) named safe
            (lookup-insert_self c (user f ∷ []) b.handlers) carried fine),
      ap (λ r. r.messages) shown ∙ appended ∙ ap (λ ms. ms ++ entry ∷ []) messages,
      ap (λ r. r.unread_count) shown ∙ counted ∙ ground (arith, unread, open_now),
    )
