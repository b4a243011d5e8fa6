-- ===== src/Client/Sound/Events.antt =====
-- What every event of app/assets/js/oocsi-web.js keeps, for any property that the single writes keep.
use oocsi_web.Client.Connection.{
  init, schedule_reconnect, on_open, on_close, on_error, internal_reconnect, on_reconnect_timer,
  on_visibility_change, connect_again, connect, handler_list,
}
use oocsi_web.Client.Api.{
  Event, connect_to, send, call, register, subscribe, unsubscribe, variable, listen,
  assign_variable, reconnect, close, opened, closed_with, received, failed, visibility_changed,
  reconnect_fires, retry_fires, cleanup_fires, socket_moves, run_event, CanOccur, initial, Reach,
  start, next, retry_first,
}
use oocsi_web.Client.Sound.Messages.{accessor-Good, wait_for_socket-Good, on_message-Good}
use oocsi_web.Common.{ℕ, String, Bool, Option, some, List, [], ◌∷◌, ◌≡◌, ◌≢◌, arith}
use oocsi_web.Common.Dict.{insert}
use oocsi_web.Client.Messaging.{cleanup_expired_calls}
use oocsi_web.Client.State.{
  ReadyState, connecting, open_, Callback, Deferred, resubscribe, State, Effect, open_socket,
  set_interval, report_error, Input, Platform, remove_timer, skip,
}
use oocsi_web.Client.Sound.{
  Good, good, follow-Good, when-Good, branch-Good, option_case-Good, Stable, submit_kept, weaken,
  resubscribing, Good-state_of,
}

-- The single writes of the operations that open the socket and reconnect. `scheduleReconnect` is
-- taken whole, since it sets a timer and forgets another.
pub record Steady (I : State → Type 0) (Q : Effect → Type 0) : Type 0 where
  pub stable : Stable I Q
  pub opens : (u : String) → Q (open_socket u)
  pub reports : Q report_error
  pub intervals : (n : ℕ) → Q (set_interval n)
  pub schedules : (i : Input) (d : Option ℕ) (s : State) → I s → Good I Q (schedule_reconnect i d s)
  pub drops_timer : (s : State) (t : ℕ) → I s → I (record s { timers = remove_timer t s.timers })
  pub sets_socket : (s : State) (w : Option ReadyState) → I s → I (record s { websocket = w })
  pub counts : (s : State) (n : ℕ) → I s → I (record s { reconnect_attempts = n })
  pub sets_cleanup : (s : State) (b : Bool) → I s → I (record s { cleanup_running = b })
  pub sets_name :
      (s : State) (uri name : String) (f : Option Callback)
      → I s
      → I (record s {
        ws_uri = uri;
        username = some name;
        handlers = insert name (handler_list f) s.handlers;
      })

module _ {I : State → Type 0} {Q : Effect → Type 0} (k : Steady I Q) where
  init-Good : (s : State) → I s → Good I Q (init s)
  unfolding init
  init-Good s inv =
      follow-Good _ _
        (follow-Good _ _ (good inv (k.stable.logs _, tt)) (λ t h. good h (k.opens _, tt)))
        (λ t h. good (k.sets_socket t _ h) tt)

  on_open-Good : (s : State) → s.websocket ≡ some open_ → I s → Good I Q (on_open s)
  unfolding on_open
  on_open-Good s e inv =
      weaken k.stable (λ t h. h.0)
        (follow-Good _ _
          (follow-Good _ _
            (follow-Good _ _
              (when-Good _ _ s (inv, ready) (λ _. submit_kept k.stable _ s inv ready))
              (λ t h. good h (k.stable.logs _, tt)))
            (λ t h. good (k.counts t 0 h.0, h.1) tt))
          (λ t h. resubscribing k.stable t.handlers t h.0 h.1))
    where
      ready : s.websocket ≢ some connecting
      ready c = ground arith

  on_close-Good : (i : Input) (c : ℕ) (b : Bool) (s : State) → I s → Good I Q (on_close i c b s)
  unfolding on_close
  on_close-Good i c b s inv = follow-Good _ _ (good inv (k.stable.logs _, tt)) (k.schedules i _)

  on_error-Good : (i : Input) (t : String) (s : State) → I s → Good I Q (on_error i t s)
  unfolding on_error
  on_error-Good i t s inv =
      follow-Good _ _
        (follow-Good _ _ (good inv (k.reports, tt)) (λ u h. good h (k.stable.logs _, tt)))
        (k.schedules i _)

  connect_again-Good : (f : Option Callback) (s : State) → I s → Good I Q (connect_again f s)
  unfolding connect_again
  connect_again-Good f s inv = follow-Good _ _ (good inv (k.stable.logs _, tt)) (λ t h.
      option_case-Good f skip _ t (λ _. good h tt)
        (λ g _.
          option_case-Good _ skip _ t (λ _. good h tt)
            (λ u _. when-Good _ _ t h (λ _. good (k.stable.adds_handler t u _ h) tt))))

  connect-Good :
      (i : Input) (server : String) (name : Option String) (f : Option Callback) (s : State)
      → I s
      → Good I Q (connect i server name f s)
  unfolding connect
  connect-Good i server name f s inv =
      branch-Good _ _ _ s (λ _. connect_again-Good f s inv)
        (λ _.
          follow-Good _ _ (follow-Good _ _ (good (k.sets_name s server _ f inv) tt) init-Good)
            (λ t h. when-Good _ _ t h (λ _.
              follow-Good _ _ (good h (k.intervals _, tt))
                (λ u h'. good (k.sets_cleanup u _ h') tt))))

  module _ (p : Platform) where
    internal_reconnect-Good : (i : Input) (s : State) → I s → Good I Q (internal_reconnect p i s)
    unfolding internal_reconnect
    internal_reconnect-Good i s inv = when-Good _ _ s inv (λ _.
        follow-Good _ _ (follow-Good _ _ (good inv (k.stable.logs _, tt)) init-Good)
          (wait_for_socket-Good k.stable p i resubscribe))

    retry_first-Good :
        (i : Input) (ds : List Deferred) (s : State) → I s → Good I Q (retry_first p i ds s)
    unfolding retry_first
    retry_first-Good i [] s inv = good inv tt
    retry_first-Good i (d ∷ ds) s inv =
        follow-Good _ _ (good (k.stable.sets_waiting s ds inv) tt)
          (wait_for_socket-Good k.stable p i d)

    -- Whatever happens, if it can happen, keeps `I`, and every call made at it satisfies `Q`.
    pub run_event-Good :
        (i : Input) (e : Event) (s : State) → CanOccur s e → I s → Good I Q (run_event p i e s)
    unfolding run_event on_reconnect_timer on_visibility_change cleanup_expired_calls
    run_event-Good i (connect_to server name f) s _ inv = connect-Good i server name _ s inv
    run_event-Good i (send r m) s _ inv = wait_for_socket-Good k.stable p i _ s inv
    run_event-Good i (call c m t f) s _ inv = wait_for_socket-Good k.stable p i _ s inv
    run_event-Good i (register c f) s _ inv = wait_for_socket-Good k.stable p i _ s inv
    run_event-Good i (subscribe c f) s _ inv = wait_for_socket-Good k.stable p i _ s inv
    run_event-Good i (unsubscribe c) s _ inv = wait_for_socket-Good k.stable p i _ s inv
    run_event-Good i (variable c n t) s _ inv =
        follow-Good _ _ (good (k.stable.sets_variables s _ inv) tt)
          (wait_for_socket-Good k.stable p i _)
    run_event-Good i (listen n f) s _ inv =
        option_case-Good _ skip _ s (λ _. good inv tt)
          (λ v _. good (k.stable.sets_variables s _ inv) tt)
    run_event-Good i (assign_variable n v b) s _ inv = accessor-Good k.stable p i n v b s inv
    run_event-Good i reconnect s _ inv = k.schedules i _ s inv
    run_event-Good i close s _ inv = wait_for_socket-Good k.stable p i _ s inv
    run_event-Good i opened s e inv = on_open-Good s e inv
    run_event-Good i (closed_with c b) s _ inv = on_close-Good i c b s inv
    run_event-Good i (received text) s e inv =
        on_message-Good k.stable p i text s (λ c. ground arith) inv
    run_event-Good i (failed text) s _ inv = on_error-Good i text s inv
    run_event-Good i visibility_changed s _ inv = when-Good _ _ s inv (λ _. k.schedules i _ s inv)
    run_event-Good i (reconnect_fires t) s _ inv =
        follow-Good _ _ (good (k.drops_timer s t inv) tt)
          (λ u h. follow-Good _ _ (good (k.counts u _ h) tt) (internal_reconnect-Good i))
    run_event-Good i retry_fires s _ inv = retry_first-Good i s.waiting s inv
    run_event-Good i cleanup_fires s _ inv = good (k.stable.sets_calls s _ inv) tt
    run_event-Good i (socket_moves r) s _ inv = good (k.sets_socket s _ inv) tt

    -- So what holds at the start holds in every state that can be reached.
    pub Reach-Good : I initial → {s : State} → Reach p s → I s
    Reach-Good h start = h
    Reach-Good h (next {s} r i e ok) = Good-state_of (run_event-Good i e s ok (Reach-Good h r))
