-- ===== src/Client/Sound/Messages.antt =====
-- What the operations of app/assets/js/oocsi-web.js that send, call and receive keep.
use oocsi_web.Common.{
  ℕ, String, Bool, false, Option, none, some, List, [], ◌∷◌, ◌≢◌, ◌∙◌, ap, get_elem?,
}
use oocsi_web.Json.{Value, Fields, to_string}
use oocsi_web.Client.Receive.{pong, finish_call, run_handlers, route, dispatch, on_message}
use oocsi_web.Client.Messaging.{
  connected, must_wait, cleanup_expired_calls, internal_send, internal_call, call_page, notify,
  accessor, feed_variable, respond_to, run_callback, run_deferred, wait_for_socket,
}
use oocsi_web.Client.State.{
  connecting, Callback, user, responder, feed, PendingCall, Deferred, send_data, call_function,
  register_responder, subscribe_channel, unsubscribe_channel, close_socket, resubscribe, State,
  Effect, Input, Platform, control, skip, throw,
}
use oocsi_web.Client.Sound.{
  Good, good, prefix_out-Good, follow-Good, recover-Good, when-Good, branch-Good, option_case-Good,
  Stable, not_waiting, submit-connected, internal_close-Good, internal_subscribe-Good,
  internal_unsubscribe-Good, internal_register-Good, resubscribe_all-Good,
}

module _ {I : State → Type 0} {Q : Effect → Type 0} (k : Stable I Q) (p : Platform) where
  internal_send-Good : (v : Value) (m : Fields) (s : State) → I s → Good I Q (internal_send p v m s)
  unfolding internal_send
  internal_send-Good v m s inv = when-Good (connected s) _ s inv (λ on.
      option_case-Good (to_string v) throw _ s (λ _. good inv tt)
        (λ c _. submit-connected k _ s on inv))

  internal_call-Good :
      (i : Input) (c : String) (m : Fields) (t : ℕ) (f : Option ℕ) (s : State)
      → I s
      → Good I Q (internal_call p i c m t f s)
  unfolding internal_call cleanup_expired_calls connected control
  internal_call-Good i c m t f s inv =
      when-Good (connected s) _ s inv
        (λ on. prefix_out-Good [] _ tt (submit-connected k _ _ on (k.sets_calls s _ inv)))

  call_page-Good : (f : ℕ) (v : Value) (s : State) → I s → Good I Q (call_page p f v s)
  unfolding call_page
  call_page-Good f v s inv =
      follow-Good _ _ (good inv (k.invokes f v, tt))
        (λ t inv'. when-Good _ _ t inv' (λ _. good inv' tt))

  notify-Good : (fs : List ℕ) (v : Value) (s : State) → I s → Good I Q (notify p fs v s)
  unfolding notify
  notify-Good [] v s inv = good inv tt
  notify-Good (f ∷ fs) v s inv = follow-Good _ _ (call_page-Good f v s inv) (notify-Good fs v)

  pub accessor-Good :
      (i : Input) (n : ℕ) (v : Value) (b : Bool) (s : State) → I s → Good I Q (accessor p i n v b s)
  unfolding accessor
  accessor-Good i n v b s inv =
      option_case-Good (get_elem? s.variables n) skip _ s (λ _. good inv tt)
        (λ w _.
          branch-Good _ skip _ s (λ _. good inv tt)
            (λ _.
              follow-Good _ _
                (follow-Good _ _ (good (k.sets_variables s _ inv) tt) (notify-Good w.listeners v))
                (λ t inv'. when-Good _ _ t inv' (λ _. internal_send-Good _ _ t inv'))))

  feed_variable-Good :
      (i : Input) (n : ℕ) (e : Value) (s : State) → I s → Good I Q (feed_variable p i n e s)
  unfolding feed_variable
  feed_variable-Good i n e s inv =
      option_case-Good (get_elem? s.variables n) skip _ s (λ _. good inv tt)
        (λ w _.
          branch-Good _ throw _ s (λ _. good inv tt)
            (λ _.
              option_case-Good _ skip _ s (λ _. good inv tt)
                (λ v _. accessor-Good i n v false s inv)))

  respond_to-Good : (f : Option ℕ) (e : Value) (s : State) → I s → Good I Q (respond_to p f e s)
  unfolding respond_to
  respond_to-Good none e s inv = good inv tt
  respond_to-Good (some f) e s inv =
      follow-Good _ _
        (follow-Good _ _ (good inv (k.answers f _ _, tt))
          (λ t inv'. when-Good _ _ t inv' (λ _. good inv' tt)))
        (internal_send-Good _ _)

  run_callback-Good :
      (i : Input) (f : Callback) (e : Value) (s : State) → I s → Good I Q (run_callback p i f e s)
  unfolding run_callback
  run_callback-Good i (user f) e s inv = call_page-Good f e s inv
  run_callback-Good i (responder id f) e s inv = respond_to-Good f e s inv
  run_callback-Good i (feed n) e s inv = feed_variable-Good i n e s inv

  run_deferred-Good :
      (i : Input) (d : Deferred) (s : State)
      → s.websocket ≢ some connecting
      → I s
      → Good I Q (run_deferred p i d s)
  unfolding run_deferred
  run_deferred-Good i (send_data r m) s h inv = internal_send-Good _ m s inv
  run_deferred-Good i (call_function c m t f) s h inv = internal_call-Good i c m t f s inv
  run_deferred-Good i (register_responder c f) s h inv = internal_register-Good k c f s inv
  run_deferred-Good i (subscribe_channel c f) s h inv = internal_subscribe-Good k c f s inv
  run_deferred-Good i (unsubscribe_channel c) s h inv = internal_unsubscribe-Good k c s inv
  run_deferred-Good i close_socket s h inv = internal_close-Good k s inv
  run_deferred-Good i resubscribe s h inv = resubscribe_all-Good k s.handlers s h inv

  pub wait_for_socket-Good :
      (i : Input) (d : Deferred) (s : State) → I s → Good I Q (wait_for_socket p i d s)
  unfolding wait_for_socket
  wait_for_socket-Good i d s inv =
      branch-Good (must_wait s) _ _ s (λ _. good (k.sets_waiting s _ inv) tt)
        (λ ready. run_deferred-Good i d s (not_waiting s ready) inv)

  run_handlers-Good :
      (i : Input) (fs : List Callback) (e : Value) (s : State)
      → I s
      → Good I Q (run_handlers p i fs e s)
  unfolding run_handlers
  run_handlers-Good i [] e s inv = good inv tt
  run_handlers-Good i (f ∷ fs) e s inv =
      follow-Good _ _ (run_callback-Good i f e s inv) (run_handlers-Good i fs e)

  route-Good :
      (i : Input) (text : String) (e : Value) (s : State) → I s → Good I Q (route p i text e s)
  unfolding route
  route-Good i text e s inv =
      branch-Good _ _ _ s
        (λ _.
          option_case-Good _ throw _ s (λ _. good inv tt)
            (λ key _.
              option_case-Good _ _ _ s (λ _. good inv (k.logs _, tt))
                (λ fs _. run_handlers-Good i fs e s inv)))
        (λ _. good inv (k.logs _, tt))

  finish_call-Good :
      (i : Input) (key : String) (c : PendingCall) (m : Value) (s : State)
      → I s
      → Good I Q (finish_call p i key c m s)
  unfolding finish_call
  finish_call-Good i key c m s inv =
      follow-Good _ _
        (when-Good _ _ s inv (λ _.
          option_case-Good c.fn throw _ s (λ _. good inv tt) (λ f _. call_page-Good f _ s inv)))
        (λ t inv'. good (k.sets_calls t _ inv') tt)

  dispatch-Good :
      (i : Input) (text : String) (e : Value) (s : State) → I s → Good I Q (dispatch p i text e s)
  unfolding dispatch
  dispatch-Good i text e s inv =
      branch-Good _ _ _ s
        (λ _.
          branch-Good _ _ _ s
            (λ _.
              option_case-Good _ throw _ s (λ _. good inv tt)
                (λ key _.
                  option_case-Good _ _ _ s (λ _. route-Good i text e s inv)
                    (λ c _. finish_call-Good i key c _ s inv)))
            (λ _. route-Good i text e s inv))
        (λ _. good inv tt)

  pub on_message-Good :
      (i : Input) (text : String) (s : State)
      → s.websocket ≢ some connecting
      → I s
      → Good I Q (on_message p i text s)
  unfolding on_message pong
  on_message-Good i text s h inv =
      branch-Good _ _ _ s
        (λ _.
          option_case-Good s.websocket throw _ s (λ _. good inv tt)
            (λ r e.
              branch-Good _ throw _ s (λ _. good inv tt)
                (λ _. good inv (k.transmits r _ (λ c. h (e ∙ ap some c)), tt))))
        (λ _.
          follow-Good _ _
            (recover-Good _ _
              (option_case-Good _ throw _ s (λ _. good inv tt)
                (λ e _. dispatch-Good i text e s inv))
              (λ t inv'. good inv' (k.logs _, tt)))
            (λ t inv'. good inv' (k.logs _, tt)))
