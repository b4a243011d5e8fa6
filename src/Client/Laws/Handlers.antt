-- ===== src/Client/Laws/Handlers.antt =====
-- app/assets/js/oocsi-web.js: the functions that are kept for a channel, and what they are given.
use oocsi_web.Common.{
  ℕ, String, false, Option, none, some, List, [], ◌∷◌, ◌++◌, ◌≡◌, ◌≢◌, ◌∙◌, refl, arith, All, any,
  Bool-cases, Option-cases, inl, inr, str_eq, eq_iff, ◌||◌,
}
use oocsi_web.Common.Dict.{Dict, lookup, insert}
use oocsi_web.Common.Text.{◌<>◌}
use oocsi_web.Json.{Value, str, obj, Fields, truthy, property, is_object, to_string, get_field}
use oocsi_web.Client.Messaging.{add_handler, is_dangerous_key, call_page, run_callback}
use oocsi_web.Client.Receive.{on_message, dispatch, route, run_handlers, is_dangerous_value}
use oocsi_web.Client.State.{
  Callback, user, responder, feed, same_callback, State, Effect, invoke, Input, Platform, state_of,
  control, branch, outcome, log,
}
use oocsi_web.Client.Laws.Calls.{on_message_parsed}
use oocsi_web.Client.Connection.{handler_list, schedule_reconnect, clear_reconnect}
use oocsi_web.Client.Api.{Reach, initial}
use oocsi_web.Client.Sound.{Good-of}
use oocsi_web.Client.Sound.Events.{Steady, Reach-Good}

-- No function stands twice in a list.
abbrev pub AreDistinct : List Callback → Type 0
AreDistinct [] = Unit {0}
AreDistinct (f ∷ fs) = (any (same_callback f) fs ≡ false) × AreDistinct fs

abbrev pub HasDistinctHandlers : Dict (List Callback) → Type 0
HasDistinctHandlers [] = Unit {0}
HasDistinctHandlers ((ch, fs) ∷ m) = AreDistinct fs × HasDistinctHandlers m

same_callback_symm : (f g : Callback) → same_callback f g ≡ same_callback g f
unfolding same_callback
same_callback_symm (user m) (user n) = ground arith
same_callback_symm (responder i none) (responder j none) = ground arith
same_callback_symm (responder i (some f)) (responder j (some g)) = ground arith
same_callback_symm (feed m) (feed n) = ground arith
same_callback_symm _ _ = ground arith

any-append :
    (f g : Callback) (fs : List Callback)
    → any (same_callback g) (fs ++ f ∷ []) ≡ (any (same_callback g) fs || same_callback g f)
any-append f g [] = ground arith
any-append f g (h ∷ fs) = ground (arith, any-append f g fs)

AreDistinct-append :
    (f : Callback) (fs : List Callback)
    → AreDistinct fs
    → any (same_callback f) fs ≡ false
    → AreDistinct (fs ++ f ∷ [])
AreDistinct-append f [] d h = (refl, tt)
AreDistinct-append f (g ∷ fs) d h =
    ground (arith, any-append f g fs, AreDistinct-append f fs d.1, same_callback_symm f g)

HasDistinctHandlers-lookup :
    (c : String) (fs : List Callback) (m : Dict (List Callback))
    → HasDistinctHandlers m
    → lookup c m ≡ some fs
    → AreDistinct fs
unfolding lookup
HasDistinctHandlers-lookup c fs [] d e = cc
HasDistinctHandlers-lookup c fs ((ch, gs) ∷ m) d e = elim (Bool-cases (str_eq ch c)) [
  | inl hit ↦ let same : gs ≡ fs = ground arith in rw (← same) d.0
  | inr miss ↦ HasDistinctHandlers-lookup c fs m d.1 (ground arith)
]

HasDistinctHandlers-insert :
    (c : String) (fs : List Callback) (m : Dict (List Callback))
    → AreDistinct fs
    → HasDistinctHandlers m
    → HasDistinctHandlers (insert c fs m)
unfolding insert
HasDistinctHandlers-insert c fs [] new d = (new, tt)
HasDistinctHandlers-insert c fs ((ch, gs) ∷ m) new d = elim (Bool-cases (str_eq ch c)) [
  | inl hit ↦ rw hit (new, d.1)
  | inr miss ↦ rw miss (d.0, HasDistinctHandlers-insert c fs m new d.1)
]

add_handler-distinct :
    (c : String) (f : Option Callback) (m : Dict (List Callback))
    → HasDistinctHandlers m
    → HasDistinctHandlers (add_handler c f m)
unfolding add_handler
add_handler-distinct c none m d = elim (Option-cases (lookup c m)) [
  | inl e ↦ rw (e, add_handler) (HasDistinctHandlers-insert c [] m tt d)
  | inr (fs, e) ↦ rw (e, add_handler) d
]
add_handler-distinct c (some f) m d = elim (Option-cases (lookup c m)) [
  | inl e ↦ rw (e, add_handler) (HasDistinctHandlers-insert c (f ∷ []) m (refl, tt) d)
  | inr (fs, e) ↦ elim (Bool-cases (any (same_callback f) fs)) [
    | inl known ↦ rw (e, add_handler, known) d
    | inr new ↦
        let grown = AreDistinct-append f fs (HasDistinctHandlers-lookup c fs m d e) new in
        rw (e, add_handler, new) (HasDistinctHandlers-insert c (fs ++ f ∷ []) m grown d)
  ]
]

handler_list-distinct : (f : Option Callback) → AreDistinct (handler_list f)
unfolding handler_list
handler_list-distinct none = tt
handler_list-distinct (some f) = (refl, tt)

schedule_reconnect-handlers :
    (i : Input) (d : Option ℕ) (s : State)
    → (state_of (schedule_reconnect i d s)).handlers ≡ s.handlers
unfolding schedule_reconnect clear_reconnect control
schedule_reconnect-handlers i d s = ground arith

abbrev AnyCall : Effect → Type 0
AnyCall e = Unit {0}

AnyCall-All : (es : List Effect) → All AnyCall es
AnyCall-All [] = tt
AnyCall-All (e ∷ es) = (tt, AnyCall-All es)

distinct : Steady (λ s. HasDistinctHandlers s.handlers) AnyCall
distinct = record {
  stable = record {
    transmits = λ r m h. tt;
    shuts = tt;
    logs = λ m. tt;
    invokes = λ f v. tt;
    answers = λ f v r. tt;
    adds_handler = λ s c f h. add_handler-distinct c f s.handlers h;
    clears_handlers = λ s c h. HasDistinctHandlers-insert c [] s.handlers tt h;
    sets_responders = λ s m n h. h;
    sets_calls = λ s m h. h;
    sets_variables = λ s m h. h;
    sets_waiting = λ s m h. h;
  };
  opens = λ u. tt;
  reports = tt;
  intervals = λ n. tt;
  schedules = λ i d s h. Good-of _ (rw (schedule_reconnect-handlers i d s) h) (AnyCall-All _);
  drops_timer = λ s t h. h;
  sets_socket = λ s w h. h;
  counts = λ s n h. h;
  sets_cleanup = λ s b h. h;
  sets_name = λ s u n f h.
      HasDistinctHandlers-insert n (handler_list f) s.handlers (handler_list-distinct f) h;
}

-- In every state that can be reached from the start, no function stands twice among the handlers of
-- a channel.
pub Reach-HasDistinctHandlers :
    (p : Platform) (s : State) → Reach p s → HasDistinctHandlers s.handlers
unfolding initial
Reach-HasDistinctHandlers p s r = Reach-Good distinct p tt r

-- The page's functions among the handlers, each called with the event.
unfoldable pub invocations : List ℕ → Value → List Effect
invocations [] e = []
invocations (f ∷ fs) e = invoke f e ∷ invocations fs e

unfoldable pub users : List ℕ → List Callback
users [] = []
users (f ∷ fs) = user f ∷ users fs

module _ (p : Platform) (i : Input) where
  run_handlers-users :
      (fs : List ℕ) (e : Value) (s : State)
      → All (λ f. p.throws f e ≡ false) fs
      → run_handlers p i (users fs) e s ≡ outcome s (invocations fs e) false
  unfolding run_handlers run_callback call_page invocations users control
  run_handlers-users [] e s h = refl
  run_handlers-users (f ∷ fs) e s h = ground (arith, run_handlers-users fs e s h.1)

  pub dispatch_channel :
      (text channel : String) (fs : List Callback) (e m : Fields) (s : State)
      → get_field "data" e ≡ obj m
      → truthy (get_field "_MESSAGE_ID" m) ≡ false
      → get_field "recipient" e ≡ str channel
      → channel ≢ ""
      → is_dangerous_key channel ≡ false
      → lookup channel s.handlers ≡ some fs
      → dispatch p i text (obj e) s ≡ run_handlers p i fs (obj e) s
  unfolding dispatch route control truthy is_object property to_string is_dangerous_value
  dispatch_channel text channel fs e m s got plain to named safe held =
      rw (got, is_object, property, truthy, plain, branch, to, to_string, is_dangerous_value, safe)
        (ground (arith, eq_iff channel ""))

  -- A message without a message id, for a channel whose handlers are functions of the page that do
  -- not throw: each of them gets the event, once for each time it stands there and in that order, and
  -- the state stays as it was. The channel's name is neither empty nor a dangerous key.
  pub on_message-handlers :
      (text channel : String) (fs : List ℕ) (e m : Fields) (s : State)
      → str_eq text "ping" ≡ false
      → p.parse text ≡ some (obj e)
      → get_field "data" e ≡ obj m
      → truthy (get_field "_MESSAGE_ID" m) ≡ false
      → get_field "recipient" e ≡ str channel
      → channel ≢ ""
      → is_dangerous_key channel ≡ false
      → lookup channel s.handlers ≡ some (users fs)
      → All (λ f. p.throws f (obj e) ≡ false) fs
      → on_message p i text s
        ≡ outcome s (invocations fs (obj e) ++ log ("RESPONSE: " <> text) ∷ []) false
  on_message-handlers text channel fs e m s not_ping parsed got plain to named safe held fine =
      on_message_parsed p i s text (obj e) s (invocations fs (obj e)) not_ping parsed (
        dispatch_channel text channel (users fs) e m s got plain to named safe held
        ∙ run_handlers-users fs (obj e) s fine)
