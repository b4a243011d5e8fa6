-- ===== src/Client/Sound.antt =====
-- What every statement of the client keeps: the rules for statements in sequence, and from them the
-- operations, for any property of the state and of the calls that the single writes keep.
pub mod Messages
pub mod Events
use oocsi_web.Common.{
  ℕ, suc, String, Bool, true, false, not, Option, none, some, List, [], ◌∷◌, ◌++◌, ◌≡◌, ◌≢◌, refl,
  ◌⊎◌, inl, inr, ◌∙◌, ap, arith, Bool-cases, Option-cases, All, All-append, if◌then◌else◌, str_eq,
  ◌&&◌, get_elem?, set, ltb, ◌+◌, is_some, ◌||◌,
}
use oocsi_web.Common.Dict.{Dict, lookup, insert, keep_values}
use oocsi_web.Common.Text.{◌<>◌}
use oocsi_web.Json.{
  Value, str, obj, Fields, end, field, set_field, to_string, property, own_property, hides_method,
}
use oocsi_web.Client.Guid.{guid}
use oocsi_web.Client.Messaging.{
  is_dangerous_key, connected, must_wait, submit, internal_close, cleanup_expired_calls,
  resubscribe_all, add_handler, internal_subscribe, internal_unsubscribe, internal_register,
  internal_send, internal_call, call_page, notify, accessor, feed_variable, respond_to,
  run_callback, run_deferred, wait_for_socket,
}
use oocsi_web.Client.State.{
  option_case, ReadyState, connecting, open_, closing, closed, Callback, user, responder, feed,
  PendingCall, Variable, Deferred, send_data, call_function, register_responder, subscribe_channel,
  unsubscribe_channel, close_socket, resubscribe, State, Effect, open_socket, transmit, shut_socket,
  set_timeout, clear_timeout, set_interval, log, report_error, invoke, answer, Input, Platform,
  Action, Outcome, outcome, state_of, effects, threw, skip, throw, emit, assign, when, branch,
  follow, recover, try_catch, prefix_out, ◌>>◌,
}

-- A state with `I`, and every call with `Q`, whether the statement threw or not.
pub data Good (I : State → Type 0) (Q : Effect → Type 0) : Outcome → Type 0 where
  good : {s : State} {es : List Effect} {t : Bool} → I s → All Q es → Good I Q (outcome s es t)

module _ {I : State → Type 0} {Q : Effect → Type 0} where
  pub Good-state_of : {o : Outcome} → Good I Q o → I (state_of o)
  Good-state_of (good inv out) = inv

  pub Good-effects : {o : Outcome} → Good I Q o → All Q (effects o)
  Good-effects (good inv out) = out

  pub Good-of : (o : Outcome) → I (state_of o) → All Q (effects o) → Good I Q o
  Good-of (outcome s es t) inv out = good inv out

  pub prefix_out-Good :
      (es : List Effect) (o : Outcome) → All Q es → Good I Q o → Good I Q (prefix_out es o)
  unfolding prefix_out
  prefix_out-Good es (outcome s fs t) h (good inv out) = good inv (All-append Q es fs h out)

  pub follow-Good :
      (o : Outcome) (b : Action)
      → Good I Q o
      → ((t : State) → I t → Good I Q (b t))
      → Good I Q (follow o b)
  unfolding follow
  follow-Good (outcome s es true) b g h = g
  follow-Good (outcome s es false) b (good inv out) h = prefix_out-Good es (b s) out (h s inv)

  pub recover-Good :
      (o : Outcome) (b : Action)
      → Good I Q o
      → ((t : State) → I t → Good I Q (b t))
      → Good I Q (recover o b)
  unfolding recover
  recover-Good (outcome s es true) b (good inv out) h = prefix_out-Good es (b s) out (h s inv)
  recover-Good (outcome s es false) b g h = g

  pub when-Good :
      (c : Bool) (a : Action) (s : State)
      → I s
      → (c ≡ true → Good I Q (a s))
      → Good I Q (when c a s)
  unfolding when
  when-Good true a s inv h = h refl
  when-Good false a s inv h = good inv tt

  pub branch-Good :
      (c : Bool) (a b : Action) (s : State)
      → (c ≡ true → Good I Q (a s))
      → (c ≡ false → Good I Q (b s))
      → Good I Q (branch c a b s)
  unfolding branch
  branch-Good true a b s h k = h refl
  branch-Good false a b s h k = k refl

  pub option_case-Good {ℓ} :
      {A : Type ℓ} (x : Option A) (a : Action) (f : A → Action) (s : State)
      → (x ≡ none → Good I Q (a s))
      → ((y : A) → x ≡ some y → Good I Q (f y s))
      → Good I Q (option_case x a f s)
  unfolding option_case
  option_case-Good none a f s h k = h refl
  option_case-Good (some y) a f s h k = k y refl

-- The single writes and calls that keep `I` and `Q`: the text that is sent goes to a socket that is
-- not connecting, and the writes are those of the operations.
pub record Stable (I : State → Type 0) (Q : Effect → Type 0) : Type 0 where
  pub transmits : (r : ReadyState) (m : String) → r ≢ connecting → Q (transmit r m)
  pub shuts : Q shut_socket
  pub logs : (m : String) → Q (log m)
  pub invokes : (f : ℕ) (v : Value) → Q (invoke f v)
  pub answers : (f : ℕ) (v : Value) (r : Fields) → Q (answer f v r)
  pub adds_handler :
      (s : State) (c : String) (f : Option Callback)
      → I s
      → I (record s { handlers = add_handler c f s.handlers })
  pub clears_handlers :
      (s : State) (c : String) → I s → I (record s { handlers = insert c [] s.handlers })
  pub sets_responders :
      (s : State) (m : Dict (Option ℕ)) (n : ℕ)
      → I s
      → I (record s { responders = m; next_closure = n })
  pub sets_calls : (s : State) (m : Dict PendingCall) → I s → I (record s { calls = m })
  pub sets_variables : (s : State) (m : List Variable) → I s → I (record s { variables = m })
  pub sets_waiting : (s : State) (m : List Deferred) → I s → I (record s { waiting = m })

pub connected_open : (s : State) → connected s ≡ true → s.websocket ≡ some open_
unfolding connected
connected_open s h = ground arith

pub not_waiting : (s : State) → must_wait s ≡ false → s.websocket ≢ some connecting
unfolding must_wait
not_waiting s h = ground arith

module _ {I : State → Type 0} {Q : Effect → Type 0} (k : Stable I Q) where
  pub submit-Good :
      (m : String) (s : State) → s.websocket ≢ some connecting → I s → Good I Q (submit m s)
  unfolding submit
  submit-Good m s h inv =
      option_case-Good s.websocket skip _ s (λ _. good inv tt)
        (λ r e. good inv (k.transmits r m (λ c. h (e ∙ ap some c)), tt))

  -- A statement that runs only while the client is connected may send.
  pub submit-connected : (m : String) (s : State) → connected s ≡ true → I s → Good I Q (submit m s)
  submit-connected m s h = submit-Good m s (λ e. ground (arith, connected_open s h))

  pub internal_close-Good : (s : State) → I s → Good I Q (internal_close s)
  unfolding internal_close
  internal_close-Good s inv =
      option_case-Good s.websocket skip _ s (λ _. good inv tt) (λ r e. good inv (k.shuts, tt))

  pub internal_subscribe-Good :
      (c : String) (f : Option Callback) (s : State) → I s → Good I Q (internal_subscribe c f s)
  unfolding internal_subscribe
  internal_subscribe-Good c f s inv =
      branch-Good _ _ _ s (λ _. good inv tt)
        (λ _.
          follow-Good _ _ (good (k.adds_handler s c f inv) tt)
            (λ t inv'. when-Good (connected t) _ t inv' (λ on. submit-connected _ t on inv')))

  pub internal_unsubscribe-Good :
      (c : String) (s : State) → I s → Good I Q (internal_unsubscribe c s)
  unfolding internal_unsubscribe
  internal_unsubscribe-Good c s inv = when-Good (connected s) _ s inv (λ on.
      follow-Good _ _ (submit-connected _ s on inv)
        (λ t inv'. when-Good _ _ t inv' (λ _. good (k.clears_handlers t c inv') tt)))

  pub internal_register-Good :
      (c : String) (f : Option ℕ) (s : State) → I s → Good I Q (internal_register c f s)
  unfolding internal_register
  internal_register-Good c f s inv = when-Good _ _ s inv (λ on.
      follow-Good _ _ (good (k.sets_responders s _ _ inv) tt)
        (internal_subscribe-Good c (some (responder s.next_closure f))))

  -- The same, with the socket's state kept too.
  pub submit_kept :
      (m : String) (s : State)
      → I s
      → s.websocket ≢ some connecting
      → Good (λ t. I t × (t.websocket ≢ some connecting)) Q (submit m s)
  unfolding submit
  submit_kept m s inv h =
      option_case-Good s.websocket skip _ s (λ _. good (inv, h) tt)
        (λ r e. good (inv, h) (k.transmits r _ (λ c. h (e ∙ ap some c)), tt))

  pub resubscribing :
      (m : Dict (List Callback)) (s : State)
      → I s
      → s.websocket ≢ some connecting
      → Good (λ t. I t × (t.websocket ≢ some connecting)) Q (resubscribe_all m s)
  unfolding resubscribe_all
  resubscribing [] s inv h = good (inv, h) tt
  resubscribing ((ch, []) ∷ rest) s inv h = resubscribing rest s inv h
  resubscribing ((ch, f ∷ fs) ∷ rest) s inv h =
      follow-Good _ _ (when-Good _ _ s (inv, h) (λ _. submit_kept _ s inv h))
        (λ t both. resubscribing rest t both.0 both.1)

  pub weaken :
      {J : State → Type 0} {o : Outcome} → ((s : State) → J s → I s) → Good J Q o → Good I Q o
  weaken f (good inv out) = good (f _ inv) out

  pub resubscribe_all-Good :
      (m : Dict (List Callback)) (s : State)
      → s.websocket ≢ some connecting
      → I s
      → Good I Q (resubscribe_all m s)
  resubscribe_all-Good m s h inv = weaken (λ t both. both.0) (resubscribing m s inv h)
