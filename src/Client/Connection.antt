-- ===== src/Client/Connection.antt =====
-- app/assets/js/oocsi-web.js: opening the socket, its events, and reconnecting with backoff.
use oocsi_web.Common.{
  ℕ, suc, ◌+◌, ◌*◌, ◌^◌, min, String, Bool, true, false, not, Option, none, some, List, [], ◌∷◌,
  if◌then◌else◌, str_eq, ◌==◌, ◌&&◌, ◌||◌,
}
use oocsi_web.Common.Dict.{insert}
use oocsi_web.Common.Text.{◌<>◌, show}
use oocsi_web.Client.Guid.{fill_digits}
use oocsi_web.Client.Messaging.{connected, submit, resubscribe_all, add_handler, wait_for_socket}
use oocsi_web.Client.State.{
  option_case, branch, connecting, is_connecting, is_open, Callback, resubscribe, State,
  open_socket, set_timeout, clear_timeout, set_interval, log, report_error, Input, Platform,
  remove_timer, Action, skip, emit, assign, when, ◌>>◌,
}

-- `init`: a new socket is connecting.
unfoldable pub init : Action
init s =
    (emit (log ("CONNECTING to " <> s.ws_uri))
        >> emit (open_socket s.ws_uri)
        >> assign (λ s. record s { websocket = some connecting }))
      s

-- The delay of `scheduleReconnect`: the forced one, or a draw below the backoff.
unfoldable pub max_backoff : (attempts : ℕ) → ℕ
max_backoff attempts = min 30000 (500 * 2 ^ attempts)

unfoldable pub reconnect_delay : Input → Option ℕ → (attempts : ℕ) → ℕ
unfolding max_backoff
reconnect_delay i (some forced) attempts = forced
reconnect_delay i none attempts = i.roll 0 (max_backoff attempts)

-- `clearTimeout(reconnectTimer); reconnectTimer = null;` where there is a timer.
unfoldable pub clear_reconnect : Action
clear_reconnect s =
    option_case s.reconnect_timer skip
      (λ t.
        emit (clear_timeout t)
        >> assign (λ s. record s { timers = remove_timer t s.timers; reconnect_timer = none }))
      s

-- `scheduleReconnect`. The timer is not set while the page is hidden.
unfoldable pub schedule_reconnect : Input → Option ℕ → Action
schedule_reconnect i forced s =
    (clear_reconnect
        >> when (not i.hidden) (
            emit (set_timeout s.next_timer (reconnect_delay i forced s.reconnect_attempts))
            >> assign (λ s. record s {
              reconnect_timer = some s.next_timer;
              timers = s.next_timer ∷ s.timers;
              next_timer = suc s.next_timer;
            })))
      s

-- `onOpen`.
unfoldable pub on_open : Action
on_open s =
    (when (connected s) (submit (elim s.username [ none ↦ "undefined" | some u ↦ u ]))
        >> emit (log "CONNECTED")
        >> assign (λ s. record s { reconnect_attempts = 0 })
        >> (λ s. resubscribe_all s.handlers s))
      s

-- `onClose`, with the code of the event and whether "429" stands in its reason.
unfoldable pub on_close : Input → (code : ℕ) → (says_429 : Bool) → Action
on_close i code says_429 =
    emit (log "DISCONNECTED")
    >> schedule_reconnect i
        (if code == 1013 || says_429 then some (30000 + i.roll 0 15000) else none)

-- `onError`, with the text of the event.
unfoldable pub on_error : Input → String → Action
on_error i evt = emit report_error >> emit (log ("ERROR: " <> evt)) >> schedule_reconnect i none

-- `connect` while there is a socket that is connecting or open.
unfoldable pub in_use : State → Bool
in_use s = elim s.websocket [ none ↦ false | some r ↦ is_connecting r || is_open r ]

module _ (p : Platform) where
  -- `internalReconnect`.
  unfoldable pub internal_reconnect : Input → Action
  internal_reconnect i s =
      when (not (in_use s))
        (emit (log ("RECONNECTING (attempt " <> show s.reconnect_attempts <> ")"))
          >> init
          >> wait_for_socket p i resubscribe)
        s

  -- The function that `scheduleReconnect` hands to `setTimeout`.
  unfoldable pub on_reconnect_timer : Input → Action
  on_reconnect_timer i =
      assign (λ s. record s { reconnect_attempts = suc s.reconnect_attempts })
      >> internal_reconnect i

-- The listener of `visibilitychange`.
unfoldable pub on_visibility_change : Input → Action
on_visibility_change i s =
    when (not i.hidden && not (connected s)) (schedule_reconnect i (some 0)) s

-- `clientName && clientName.length > 0 ? clientName : "webclient_####"`, with its digits filled in.
unfoldable pub choose_name : Input → Option String → String
choose_name i none = fill_digits i 0 "webclient_####"
choose_name i (some name) =
    if str_eq name "" then fill_digits i 0 "webclient_####" else fill_digits i 0 name

-- `[fn]`, or `[]` where there is no function.
unfoldable pub handler_list : Option Callback → List Callback
handler_list none = []
handler_list (some f) = f ∷ []

-- The first branch of `connect`.
unfoldable pub connect_again : Option Callback → Action
connect_again fn s =
    (emit (log "ALREADY CONNECTED OR CONNECTING")
        >> option_case fn skip (λ f. option_case s.username skip (λ u.
          when (not (str_eq u ""))
            (assign (λ s. record s { handlers = add_handler u (some f) s.handlers })))))
      s

-- `connect`.
unfoldable pub connect : Input → String → Option String → Option Callback → Action
connect i server client_name fn s =
    let name = choose_name i client_name in
    branch (in_use s) (connect_again fn)
      (assign (λ s. record s {
        ws_uri = server;
        username = some name;
        handlers = insert name (handler_list fn) s.handlers;
      })
        >> init
        >> when (not s.cleanup_running)
            (emit (set_interval 10000) >> assign (λ s. record s { cleanup_running = true })))
      s
