-- ===== src/Client/Laws/Socket.antt =====
-- app/assets/js/oocsi-web.js: when the socket's `send` is called.
use oocsi_web.Common.{ℕ, Option, ◌≢◌, All}
use oocsi_web.Client.State.{connecting, State, Effect, transmit, Input, Platform, effects, skip}
use oocsi_web.Client.Connection.{schedule_reconnect, clear_reconnect}
use oocsi_web.Client.Api.{Event, run_event, CanOccur}
use oocsi_web.Client.Sound.{Good, good, follow-Good, when-Good, option_case-Good, Good-effects}
use oocsi_web.Client.Sound.Events.{Steady, run_event-Good}

-- A send on a socket that is connecting throws an exception in the browser.
abbrev pub IsPermitted : Effect → Type 0
IsPermitted (transmit r m) = r ≢ connecting
IsPermitted _ = Unit {0}

abbrev AnyState : State → Type 0
AnyState s = Unit {0}

schedule-IsPermitted :
    (i : Input) (d : Option ℕ) (s : State) → Good AnyState IsPermitted (schedule_reconnect i d s)
unfolding schedule_reconnect clear_reconnect
schedule-IsPermitted i d s =
    follow-Good _ _
      (option_case-Good _ skip _ s (λ _. good tt tt)
        (λ t _. follow-Good _ _ (good tt (tt, tt)) (λ u h. good tt tt)))
      (λ t h. when-Good _ _ t h (λ _. follow-Good _ _ (good tt (tt, tt)) (λ u h. good tt tt)))

permitted : Steady AnyState IsPermitted
permitted = record {
  stable = record {
    transmits = λ r m h. h;
    shuts = tt;
    logs = λ m. tt;
    invokes = λ f v. tt;
    answers = λ f v r. tt;
    adds_handler = λ s c f h. tt;
    clears_handlers = λ s c h. tt;
    sets_responders = λ s m n h. tt;
    sets_calls = λ s m h. tt;
    sets_variables = λ s m h. tt;
    sets_waiting = λ s m h. tt;
  };
  opens = λ u. tt;
  reports = tt;
  intervals = λ n. tt;
  schedules = λ i d s h. schedule-IsPermitted i d s;
  drops_timer = λ s t h. tt;
  sets_socket = λ s w h. tt;
  counts = λ s n h. tt;
  sets_cleanup = λ s b h. tt;
  sets_name = λ s u n f h. tt;
}

-- At any event that can occur, in any state, every text is sent on a socket that is not connecting,
-- so no `send` of the client throws.
pub run_event-IsPermitted :
    (p : Platform) (i : Input) (e : Event) (s : State)
    → CanOccur s e
    → All IsPermitted (effects (run_event p i e s))
run_event-IsPermitted p i e s ok = Good-effects (run_event-Good permitted p i e s ok tt)
