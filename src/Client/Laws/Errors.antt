-- ===== src/Client/Laws/Errors.antt =====
-- app/assets/js/oocsi-web.js: messages that make the code or a handler throw.
use oocsi_web.Common.{
  ℕ, String, true, false, some, List, [], ◌∷◌, ◌++◌, ◌≡◌, ◌≢◌, ◌∙◌, refl, arith, All, str_eq,
}
use oocsi_web.Common.Dict.{lookup}
use oocsi_web.Common.Text.{◌<>◌}
use oocsi_web.Json.{Value, str, obj, Fields, truthy, get_field}
use oocsi_web.Client.Messaging.{is_dangerous_key, call_page, run_callback}
use oocsi_web.Client.Receive.{on_message, dispatch, run_handlers}
use oocsi_web.Client.State.{State, Effect, log, Input, Platform, outcome, control, prefix_out}
use oocsi_web.Client.Laws.Handlers.{users, invocations, dispatch_channel}

module _ (p : Platform) (i : Input) where
  run_handlers_throwing :
      (fs : List ℕ) (f : ℕ) (gs : List ℕ) (e : Value) (s : State)
      → All (λ f. p.throws f e ≡ false) fs
      → p.throws f e ≡ true
      → run_handlers p i (users (fs ++ f ∷ gs)) e s ≡ outcome s (invocations (fs ++ f ∷ []) e) true
  unfolding run_handlers run_callback call_page invocations users control
  run_handlers_throwing [] f gs e s h t = ground (arith, t)
  run_handlers_throwing (g ∷ fs) f gs e s h t =
      ground (arith, h.0, run_handlers_throwing fs f gs e s h.1 t)

  on_message_caught :
      (text : String) (e : Value) (s t : State) (es : List Effect)
      → str_eq text "ping" ≡ false
      → p.parse text ≡ some e
      → dispatch p i text e s ≡ outcome t es true
      → on_message p i text s
        ≡ outcome t
            ((es ++ log ("ERROR: parse exception for event data " <> text) ∷ [])
              ++ log ("RESPONSE: " <> text) ∷ [])
            false
  unfolding on_message control prefix_out
  on_message_caught text e s t es not_ping parsed done = rw (not_ping, parsed, done) refl

  -- A message for a channel where a function of the page throws: the functions before it and the function
  -- itself get the event, those after it do not, the state stays, and the error is logged as one of
  -- the text. The message has no id, and the channel's name is neither empty nor a dangerous key.
  pub on_message_throwing :
      (text channel : String) (fs : List ℕ) (f : ℕ) (gs : List ℕ) (e m : Fields) (s : State)
      → str_eq text "ping" ≡ false
      → p.parse text ≡ some (obj e)
      → get_field "data" e ≡ obj m
      → truthy (get_field "_MESSAGE_ID" m) ≡ false
      → get_field "recipient" e ≡ str channel
      → channel ≢ ""
      → is_dangerous_key channel ≡ false
      → lookup channel s.handlers ≡ some (users (fs ++ f ∷ gs))
      → All (λ f. p.throws f (obj e) ≡ false) fs
      → p.throws f (obj e) ≡ true
      → on_message p i text s
        ≡ outcome s
            ((invocations (fs ++ f ∷ []) (obj e)
                ++ log ("ERROR: parse exception for event data " <> text) ∷ [])
              ++ log ("RESPONSE: " <> text) ∷ [])
            false
  on_message_throwing text channel fs f gs e m s not_ping parsed got plain to named safe held fine
        throwing =
      on_message_caught text (obj e) s s (invocations (fs ++ f ∷ []) (obj e)) not_ping parsed (
        dispatch_channel p i text channel (users (fs ++ f ∷ gs)) e m s got plain to named safe held
        ∙ run_handlers_throwing fs f gs (obj e) s fine throwing)
