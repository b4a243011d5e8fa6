-- ===== src/Client/Laws/Waiting.antt =====
-- app/assets/js/oocsi-web.js: the calls that `waitForSocket` holds back.
use oocsi_web.Common.{
  String, true, false, Option, none, some, List, [], ◌∷◌, ◌++◌, ◌≡◌, refl, sym, ◌∙◌, ap, arith,
  Bool-cases, inl, inr,
}
use mathlib.Core.List.{append-nil, append_assoc}
use oocsi_web.Common.Dict.{Dict}
use oocsi_web.Common.Text.{◌<>◌}
use oocsi_web.Json.{to_string}
use oocsi_web.Client.Messaging.{
  is_dangerous_key, connected, must_wait, submit, internal_close, resubscribe_all,
  internal_subscribe, internal_unsubscribe, internal_register, internal_send, internal_call,
  cleanup_expired_calls, run_deferred, wait_for_socket,
}
use oocsi_web.Client.State.{
  Callback, Deferred, send_data, call_function, register_responder, subscribe_channel,
  unsubscribe_channel, close_socket, resubscribe, State, Effect, Input, Platform, Outcome, outcome,
  effects, state_of, threw, control, branch, follow, when, transmit, connecting, open_, ReadyState,
  prefix_out,
}
use oocsi_web.Client.Api.{run_event, socket_moves, retry_fires, retry, retry_first}

-- What a deferred call leaves as it was: the calls that wait after it, and the socket.
Keeps : State → Outcome → Type 0
Keeps s o =
    ((state_of o).waiting ≡ s.waiting) × ((state_of o).websocket ≡ s.websocket) × (threw o ≡ false)

submit-Keeps : (m : String) (s : State) → Keeps s (submit m s)
unfolding Keeps submit control
submit-Keeps m s = ground arith

resubscribe_all-Keeps : (m : Dict (List Callback)) (s : State) → Keeps s (resubscribe_all m s)
unfolding Keeps resubscribe_all control submit
resubscribe_all-Keeps [] s = (refl, refl, refl)
resubscribe_all-Keeps ((c, []) ∷ m) s = resubscribe_all-Keeps m s
resubscribe_all-Keeps ((c, f ∷ fs) ∷ m) s = ground (arith, resubscribe_all-Keeps m s)

run_deferred-Keeps :
    (p : Platform) (i : Input) (d : Deferred) (s : State) → Keeps s (run_deferred p i d s)
unfolding Keeps run_deferred internal_send internal_call internal_register internal_subscribe
    internal_unsubscribe internal_close cleanup_expired_calls submit control to_string connected
run_deferred-Keeps p i (send_data c m) s = ground arith
run_deferred-Keeps p i (call_function c m t f) s = ground arith
run_deferred-Keeps p i (register_responder c f) s = ground arith
run_deferred-Keeps p i (subscribe_channel c f) s = ground arith
run_deferred-Keeps p i (unsubscribe_channel c) s = ground arith
run_deferred-Keeps p i close_socket s = ground arith
run_deferred-Keeps p i resubscribe s = resubscribe_all-Keeps s.handlers s

-- The same outcome, with other calls waiting.
unfoldable pub with_waiting : List Deferred → Outcome → Outcome
with_waiting w (outcome s es t) = outcome (record s { waiting = w }) es t

prefix_out-waiting :
    (w : List Deferred) (es : List Effect) (o : Outcome)
    → prefix_out es (with_waiting w o) ≡ with_waiting w (prefix_out es o)
unfolding with_waiting prefix_out
prefix_out-waiting w es (outcome s fs t) = refl

-- What is sent on a socket.
abbrev sent_on : Option ReadyState → String → List Effect
sent_on none m = []
sent_on (some r) m = transmit r m ∷ []

submit_lem : (m : String) (s : State) → submit m s ≡ outcome s (sent_on s.websocket m) false
unfolding submit control
submit_lem m s = ground arith

resubscribe_all-waiting :
    (w : List Deferred) (m : Dict (List Callback)) (s : State)
    → resubscribe_all m (record s { waiting = w }) ≡ with_waiting w (resubscribe_all m s)
unfolding with_waiting resubscribe_all control submit
resubscribe_all-waiting w [] s = refl
resubscribe_all-waiting w ((c, []) ∷ m) s = resubscribe_all-waiting w m s
resubscribe_all-waiting w ((c, f ∷ fs) ∷ m) s =
    let rest : (es : List Effect)
        → prefix_out es (resubscribe_all m (record s { waiting = w }))
          ≡ with_waiting w (prefix_out es (resubscribe_all m s)) =
      λ es.
        ap (prefix_out es) (resubscribe_all-waiting w m s)
        ∙ prefix_out-waiting w es (resubscribe_all m s) in
    elim (Bool-cases (is_dangerous_key c)) [
      | inl e ↦ rw (e, when) (rest [])
      | inr e ↦
          let text = "subscribe " <> c in
          rw (e, when)
            (ap (λ o. follow o (resubscribe_all m)) (submit_lem text (record s { waiting = w }))
              ∙ rest (sent_on s.websocket text)
              ∙ sym (ap (λ o. with_waiting w (follow o (resubscribe_all m))) (submit_lem text s)))
    ]

run_deferred-waiting :
    (p : Platform) (i : Input) (w : List Deferred) (d : Deferred) (s : State)
    → run_deferred p i d (record s { waiting = w }) ≡ with_waiting w (run_deferred p i d s)
unfolding with_waiting run_deferred internal_send internal_call internal_register internal_subscribe
    internal_unsubscribe internal_close cleanup_expired_calls submit control to_string connected
run_deferred-waiting p i w (send_data c m) s = ground arith
run_deferred-waiting p i w (call_function c m t f) s = ground arith
run_deferred-waiting p i w (register_responder c f) s = ground arith
run_deferred-waiting p i w (subscribe_channel c f) s = ground arith
run_deferred-waiting p i w (unsubscribe_channel c) s = ground arith
run_deferred-waiting p i w close_socket s = ground arith
run_deferred-waiting p i w resubscribe s = resubscribe_all-waiting w s.handlers s

-- The outcome of calls that are made one after the other, each at its own moment: the state and all that
-- is called.
unfoldable pub make_all : Platform → List (Input × Deferred) → State → State × List Effect
make_all p [] s = (s, [])
make_all p ((i, d) ∷ more) s =
    let o = run_deferred p i d s in
    let (t, out) = make_all p more (state_of o) in (t, effects o ++ out)

-- The moments at which retries fire.
unfoldable pub retry_all : Platform → List (Input × Deferred) → State → State × List Effect
retry_all p [] s = (s, [])
retry_all p ((i, d) ∷ more) s =
    let o = run_event p i retry_fires s in
    let (t, out) = retry_all p more (state_of o) in (t, effects o ++ out)

unfoldable pub held_calls : List (Input × Deferred) → List Deferred
held_calls [] = []
held_calls ((i, d) ∷ more) = d ∷ held_calls more

prefix_out-nothing : (o : Outcome) → prefix_out [] o ≡ o
unfolding prefix_out
prefix_out-nothing (outcome s es t) = refl

with_waiting-parts :
    (w : List Deferred) (o : Outcome)
    → (state_of (with_waiting w o) ≡ record (state_of o) { waiting = w })
      × (effects (with_waiting w o) ≡ effects o)
unfolding with_waiting
with_waiting-parts w (outcome s es t) = (refl, refl)

retry_one :
    (p : Platform) (i : Input) (d : Deferred) (rest : List Deferred) (s : State)
    → s.websocket ≡ some open_
    → s.waiting ≡ d ∷ rest
    → run_event p i retry_fires s
      ≡ with_waiting rest (run_deferred p i d (record s { waiting = [] }))
unfolding run_event retry retry_first wait_for_socket must_wait control
retry_one p i d rest s on held =
    let ready : must_wait s ≡ false = rw (on, must_wait) refl in
    ap (λ ds. retry_first p i ds s) held
    ∙ rw (retry_first, ready, branch)
        (ap (prefix_out []) (run_deferred-waiting p i rest d (record s { waiting = [] }))
          ∙ prefix_out-nothing _)

-- The results of a first call and of those after it.
abbrev joined : List Effect → State × List Effect → State × List Effect
joined es (s, out) = (s, es ++ out)

module _ (p : Platform) where
  retry_all-make_all :
      (calls : List (Input × Deferred)) (s : State)
      → s.websocket ≡ some open_
      → s.waiting ≡ held_calls calls
      → retry_all p calls s ≡ make_all p calls (record s { waiting = [] })
  unfolding retry_all make_all held_calls Keeps
  retry_all-make_all [] s on held = ap (λ w. (record s { waiting = w }, [])) held
  retry_all-make_all ((i, d) ∷ more) s on held =
      let o = run_deferred p i d (record s { waiting = [] }) in
      let (kept, socket, _) = run_deferred-Keeps p i d (record s { waiting = [] }) in
      let (later, same) = with_waiting-parts (held_calls more) o in
      let next : State = record (state_of o) { waiting = held_calls more } in
      ap (λ x. joined (effects x) (retry_all p more (state_of x)))
        (retry_one p i d (held_calls more) s on held)
      ∙ ap (λ t. joined (effects (with_waiting (held_calls more) o)) (retry_all p more t)) later
      ∙ ap (λ es. joined es (retry_all p more next)) same
      ∙ ap (joined (effects o)) (retry_all-make_all more next (socket ∙ on) refl)
      ∙ ap (λ w. joined (effects o) (make_all p more (record (state_of o) { waiting = w })))
          (sym kept)

  make_all-waiting :
      (calls : List (Input × Deferred)) (s : State) → (make_all p calls s).0.waiting ≡ s.waiting
  unfolding make_all Keeps
  make_all-waiting [] s = refl
  make_all-waiting ((i, d) ∷ more) s =
      make_all-waiting more (state_of (run_deferred p i d s)) ∙ (run_deferred-Keeps p i d s).0

  -- Calls that are made one after the other.
  unfoldable pub hold_all : List (Input × Deferred) → State → State
  hold_all [] s = s
  hold_all ((i, d) ∷ more) s = hold_all more (state_of (wait_for_socket p i d s))

  hold_one :
      (i : Input) (d : Deferred) (s : State)
      → s.websocket ≡ some connecting
      → state_of (wait_for_socket p i d s) ≡ record s { waiting = s.waiting ++ d ∷ [] }
  unfolding wait_for_socket must_wait control
  hold_one i d s early =
      let waits : must_wait s ≡ true = rw (early, must_wait) refl in rw (waits, branch) refl

  hold_all-waiting :
      (calls : List (Input × Deferred)) (s : State)
      → s.websocket ≡ some connecting
      → hold_all calls s ≡ record s { waiting = s.waiting ++ held_calls calls }
  unfolding hold_all held_calls
  hold_all-waiting [] s early = ap (λ w. record s { waiting = w }) (sym (append-nil s.waiting))
  hold_all-waiting ((i, d) ∷ more) s early =
      ap (hold_all more) (hold_one i d s early)
      ∙ hold_all-waiting more (record s { waiting = s.waiting ++ d ∷ [] }) early
      ∙ ap (λ w. record s { waiting = w }) (append_assoc s.waiting (d ∷ []) (held_calls more))

  -- Calls that are made while the socket connects, when none waits before. If no retry fires until the socket
  -- is open and each of them then gets its retry, they are made in the order in which the page made them,
  -- each once and as if it was made only at its retry, and none waits any longer.
  pub hold_all-retry_all :
      (calls retries : List (Input × Deferred)) (o : Input) (s : State)
      → s.websocket ≡ some connecting
      → s.waiting ≡ []
      → held_calls calls ≡ held_calls retries
      → let opened = state_of (run_event p o (socket_moves open_) (hold_all calls s)) in
        (retry_all p retries opened ≡ make_all p retries (record s { websocket = some open_ }))
        × ((retry_all p retries opened).0.waiting ≡ [])
  unfolding run_event
  hold_all-retry_all calls retries o s early quiet same =
      let ready : State = record s { websocket = some open_ } in
      let held =
        hold_all-waiting calls s early
        ∙ ap (λ w. record s { waiting = w ++ held_calls calls }) quiet
        ∙ ap (λ w. record s { waiting = w }) same in
      let full : State = record ready { waiting = held_calls retries } in
      let made =
        ap (λ t. retry_all p retries (record t { websocket = some open_ })) held
        ∙ retry_all-make_all retries full refl refl
        ∙ ap (λ w. make_all p retries (record ready { waiting = w })) (sym quiet) in
      (made, ap (λ r. r.0.waiting) made ∙ make_all-waiting retries ready ∙ quiet)
