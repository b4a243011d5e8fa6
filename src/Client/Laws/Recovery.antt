-- ===== src/Client/Laws/Recovery.antt =====
-- app/assets/js/oocsi-web.js: a lost connection is opened again, and its channels are subscribed.
use oocsi_web.Common.{
  ℕ, suc, String, true, false, none, some, List, [], ◌∷◌, ◌++◌, ◌≡◌, refl, arith, In, here, there,
  Bool-cases, inl, inr,
}
use oocsi_web.Common.Dict.{Dict}
use oocsi_web.Common.Text.{◌<>◌, show}
use oocsi_web.Client.Messaging.{
  is_dangerous_key, connected, submit, resubscribe_all, wait_for_socket, must_wait, run_deferred,
}
use oocsi_web.Client.Connection.{on_open, in_use, init, internal_reconnect, on_reconnect_timer}
use oocsi_web.Client.State.{
  connecting, open_, closed, Callback, State, Effect, transmit, open_socket, Input, Platform,
  effects, state_of, control, outcome, resubscribe, remove_timer, log,
}
use oocsi_web.Client.Api.{
  run_event, reconnect_fires, opened, socket_moves, retry_fires, retry, retry_first,
}

-- The texts that subscribe again to every channel that has a handler.
unfoldable pub subscriptions : Dict (List Callback) → List Effect
subscriptions [] = []
subscriptions ((ch, []) ∷ rest) = subscriptions rest
subscriptions ((ch, f ∷ fs) ∷ rest) =
    let more = subscriptions rest in
    elim (is_dangerous_key ch) [ true ↦ more | false ↦ transmit open_ ("subscribe " <> ch) ∷ more ]

resubscribe_all_lem :
    (m : Dict (List Callback)) (s : State)
    → s.websocket ≡ some open_
    → resubscribe_all m s ≡ outcome s (subscriptions m) false
unfolding resubscribe_all subscriptions submit control
resubscribe_all_lem [] s e = refl
resubscribe_all_lem ((ch, []) ∷ rest) s e = resubscribe_all_lem rest s e
resubscribe_all_lem ((ch, f ∷ fs) ∷ rest) s e = ground (arith, resubscribe_all_lem rest s e)

In-subscriptions :
    (m : Dict (List Callback)) (ch : String) (f : Callback) (fs : List Callback)
    → is_dangerous_key ch ≡ false
    → In (ch, f ∷ fs) m
    → In (transmit open_ ("subscribe " <> ch)) (subscriptions m)
unfolding subscriptions
In-subscriptions [] ch f fs safe h = elim h [ ]
In-subscriptions ((ch', []) ∷ rest) ch f fs safe (there h) = In-subscriptions rest ch f fs safe h
In-subscriptions ((ch', g ∷ gs) ∷ rest) ch f fs safe here = rw (safe, subscriptions) here
In-subscriptions ((ch', g ∷ gs) ∷ rest) ch f fs safe (there h) =
    let found = In-subscriptions rest ch f fs safe h in
    elim (Bool-cases (is_dangerous_key ch')) [
      | inl e ↦ rw (e, subscriptions) found
      | inr e ↦ rw (e, subscriptions) (there found)
    ]

-- The name that `onOpen` sends; before any `connect` it is the text "undefined".
abbrev pub sent_name : State → String
sent_name s = elim s.username [ none ↦ "undefined" | some u ↦ u ]

-- When the socket opens, the client sends its name, then subscribes again to every channel that has
-- a handler, in the order of the handlers, and counts the attempts to reconnect from 0.
pub on_open_lem :
    (s : State)
    → s.websocket ≡ some open_
    → on_open s
      ≡ outcome
          (record s { reconnect_attempts = 0 })
          (transmit open_ (sent_name s) ∷ log "CONNECTED" ∷ subscriptions s.handlers)
          false
unfolding on_open submit connected control
on_open_lem s e =
    ground (arith, resubscribe_all_lem s.handlers (record s { reconnect_attempts = 0 }) e)

-- Every channel that has a handler and a name that is no dangerous key is subscribed again.
pub on_open-subscribes :
    (s : State) (ch : String) (f : Callback) (fs : List Callback)
    → s.websocket ≡ some open_
    → is_dangerous_key ch ≡ false
    → In (ch, f ∷ fs) s.handlers
    → In (transmit open_ ("subscribe " <> ch)) (effects (on_open s))
on_open-subscribes s ch f fs e safe held =
    rw (on_open_lem s e) (there (there (In-subscriptions s.handlers ch f fs safe held)))

-- `internalReconnect` on a closed socket opens a new one; the subscriptions wait for it.
internal_reconnect_lem :
    (p : Platform) (i : Input) (s : State)
    → s.websocket ≡ some closed
    → internal_reconnect p i s
      ≡ outcome
          (record s { websocket = some connecting; waiting = s.waiting ++ resubscribe ∷ [] })
          (log ("RECONNECTING (attempt " <> show s.reconnect_attempts <> ")")
            ∷ log ("CONNECTING to " <> s.ws_uri)
            ∷ open_socket s.ws_uri
            ∷ [])
          false
unfolding internal_reconnect in_use init wait_for_socket must_wait control
internal_reconnect_lem p i s e = ground arith

-- After the connection was lost, the timeout of the reconnect opens a socket to the same server, and
-- once that is open the client sends its name and subscribes again to every channel that has a
-- handler. The attempts count from 0 again, the handlers and calls are those from before, and the
-- retry of `internalReconnect`, if no other call waits, sends the same subscriptions a second time.
pub reconnect_recovers :
    (p : Platform) (i j : Input) (t : ℕ) (s : State)
    → s.websocket ≡ some closed
    → s.waiting ≡ []
    → let fired = run_event p i (reconnect_fires t) s in
      let opening = state_of (run_event p j (socket_moves open_) (state_of fired)) in
      let recovered = run_event p j opened opening in
      In (open_socket s.ws_uri) (effects fired)
      × (effects recovered
          ≡ transmit open_ (sent_name s) ∷ log "CONNECTED" ∷ subscriptions s.handlers)
      × (state_of (run_event p j retry_fires (state_of recovered)) ≡ record s {
        timers = remove_timer t s.timers;
        websocket = some open_;
        reconnect_attempts = 0;
      })
      × (effects (run_event p j retry_fires (state_of recovered)) ≡ subscriptions s.handlers)
unfolding run_event on_reconnect_timer retry retry_first wait_for_socket must_wait run_deferred
    control
reconnect_recovers p i j t s lost idle =
    let lost' = record s {
      timers = remove_timer t s.timers;
      reconnect_attempts = suc s.reconnect_attempts;
    } in
    let up = record lost' { websocket = some open_; waiting = s.waiting ++ resubscribe ∷ [] } in
    let again =
      resubscribe_all_lem s.handlers (record up { waiting = []; reconnect_attempts = 0 }) in
    rw (internal_reconnect_lem p i lost' lost, on_open_lem up refl)
      (there (there here), refl, ground (arith, again refl), ground (arith, again refl))
