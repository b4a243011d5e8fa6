-- ===== src/Client/Laws/Calls.antt =====
-- app/assets/js/oocsi-web.js: calls, their responses and their expiry.
use oocsi_web.Common.{
  ℕ, ◌+◌, ◌<◌, String, true, false, Option, none, some, List, [], ◌∷◌, ◌≡◌, ◌≢◌, refl, ◌∙◌, arith,
  All, if◌then◌else◌, str_eq, eq_iff, eq_refl, ltb, lt→ltb, ◌++◌,
}
use oocsi_web.Common.Dict.{
  Dict, lookup, erase, keep_values, lookup-keep_kept, lookup-erase, lookup-insert_self,
}
use oocsi_web.Common.Text.{◌<>◌}
use oocsi_web.Json.{
  Value, str, obj, Fields, truthy, is_object, property, get_field, delete_field, delete_property,
  to_string, set_field,
}
use oocsi_web.Client.Guid.{guid}
use oocsi_web.Client.Messaging.{connected, submit, cleanup_expired_calls, internal_call, call_page}
use oocsi_web.Client.Receive.{finish_call, dispatch, on_message}
use oocsi_web.Client.State.{
  PendingCall, State, Effect, transmit, log, invoke, Input, Platform, effects, state_of, control,
  open_, outcome, branch, option_case,
}

-- Every call that is kept is one that has not expired.
keep_values-All :
    (now : ℕ) (m : Dict PendingCall)
    → All (λ e. now < e.1.expiration) (keep_values (λ c. ltb now c.expiration) m)
unfolding keep_values
keep_values-All now [] = tt
keep_values-All now ((k, c) ∷ m) = ground (arith, keep_values-All now m)

-- After the cleanup no call is left that has expired, and every call that has not is kept as it was.
pub cleanup_expired_calls_lem :
    (now : ℕ) (s : State)
    → All (λ e. now < e.1.expiration) (state_of (cleanup_expired_calls now s)).calls
      × ((k : String) (c : PendingCall)
          → lookup k s.calls ≡ some c
          → now < c.expiration
          → lookup k (state_of (cleanup_expired_calls now s)).calls ≡ some c)
unfolding cleanup_expired_calls
cleanup_expired_calls_lem now s = (
  keep_values-All now s.calls,
  λ k c e h. lookup-keep_kept _ k c s.calls e (lt→ltb now c.expiration h),
)

module _ (p : Platform) (i : Input) (s : State) where
  -- A message with the id of a pending call goes to that call, and to no handler.
  dispatch_pending :
      (text key : String) (c : PendingCall) (e m : Fields)
      → get_field "data" e ≡ obj m
      → get_field "_MESSAGE_ID" m ≡ str key
      → key ≢ ""
      → lookup key s.calls ≡ some c
      → dispatch p i text (obj e) s ≡ finish_call p i key c (obj m) s
  unfolding dispatch control truthy is_object property to_string
  dispatch_pending text key c e m got id named pending =
      rw (got, is_object, property, truthy, id, truthy) (ground (arith, eq_iff key ""))

  finish_call_lem :
      (key : String) (c : PendingCall) (f : ℕ) (m : Fields)
      → c.fn ≡ some f
      → p.throws f (obj (delete_field "_MESSAGE_ID" m)) ≡ false
      → finish_call p i key c (obj m) s
        ≡ outcome
            (record s { calls = erase key s.calls })
            (if ltb i.now c.expiration
              then invoke f (obj (delete_field "_MESSAGE_ID" m)) ∷ []
              else [])
            false
  unfolding finish_call call_page control delete_property
  finish_call_lem key c f m fn fine = ground arith

  pub on_message_parsed :
      (text : String) (e : Value) (t : State) (es : List Effect)
      → str_eq text "ping" ≡ false
      → p.parse text ≡ some e
      → dispatch p i text e s ≡ outcome t es false
      → on_message p i text s ≡ outcome t (es ++ log ("RESPONSE: " <> text) ∷ []) false
  unfolding on_message control
  on_message_parsed text e t es not_ping parsed done =
      rw (not_ping, branch, parsed, option_case, done)

  -- A message with the id of a pending call: in time, the function of the call gets the message
  -- without the id; too late, it does not. Either way the call is forgotten and every other call is
  -- kept, if the function does not throw.
  pub on_message-answer :
      (text key : String) (c : PendingCall) (f : ℕ) (e m : Fields)
      → str_eq text "ping" ≡ false
      → p.parse text ≡ some (obj e)
      → get_field "data" e ≡ obj m
      → get_field "_MESSAGE_ID" m ≡ str key
      → key ≢ ""
      → lookup key s.calls ≡ some c
      → c.fn ≡ some f
      → p.throws f (obj (delete_field "_MESSAGE_ID" m)) ≡ false
      → (effects (on_message p i text s) ≡ (
          if ltb i.now c.expiration
          then invoke f (obj (delete_field "_MESSAGE_ID" m)) ∷ log ("RESPONSE: " <> text) ∷ []
          else log ("RESPONSE: " <> text) ∷ []))
        × ((j : String)
            → lookup j (state_of (on_message p i text s)).calls
              ≡ (if str_eq key j then none else lookup j s.calls))
  on_message-answer text key c f e m not_ping parsed got id named pending fn fine =
      let run =
        on_message_parsed text (obj e) (record s { calls = erase key s.calls }) _ not_ping parsed
          (dispatch_pending text key c e m got id named pending
            ∙ finish_call_lem key c f m fn fine) in
      (rw run (ground arith), λ j. rw run (lookup-erase key j s.calls))

-- `call` keeps the function under the id that it sends, until the timeout, and sends once.
pub internal_call_lem :
    (p : Platform) (i : Input) (s : State) (c : String) (m : Fields) (timeout : ℕ) (f : Option ℕ)
    → connected s ≡ true
    → (lookup (guid i) (state_of (internal_call p i c m timeout f s)).calls
        ≡ some (record { expiration = i.now + timeout; fn = f }))
      × (effects (internal_call p i c m timeout f s)
          ≡ transmit open_ (
              "sendjson "
              <> c
              <> " "
              <> p.stringify (
                  obj (
                    set_field "_MESSAGE_HANDLE"
                      (str c)
                      (set_field "_MESSAGE_ID" (str (guid i)) m))))
            ∷ [])
unfolding internal_call cleanup_expired_calls submit connected control
internal_call_lem p i s c m timeout f on =
    let c' : PendingCall = record { expiration = i.now + timeout; fn = f } in
    let kept = keep_values (λ (d : PendingCall). ltb i.now d.expiration) s.calls in
    (ground (arith, lookup-insert_self (guid i) c' kept), ground arith)

-- A call of a connected client is answered once: the first message that carries its id, if it comes
-- before the timeout, gives the function of the call the fields of the message without the id, and
-- afterwards the id is that of no pending call.
pub call-answer :
    (p : Platform) (i j : Input) (s : State) (c : String) (m : Fields) (timeout f : ℕ)
    (text : String) (e r : Fields)
    → connected s ≡ true
    → guid i ≢ ""
    → str_eq text "ping" ≡ false
    → p.parse text ≡ some (obj e)
    → get_field "data" e ≡ obj r
    → get_field "_MESSAGE_ID" r ≡ str (guid i)
    → p.throws f (obj (delete_field "_MESSAGE_ID" r)) ≡ false
    → j.now < i.now + timeout
    → let waiting = state_of (internal_call p i c m timeout (some f) s) in
      (effects (on_message p j text waiting)
        ≡ invoke f (obj (delete_field "_MESSAGE_ID" r)) ∷ log ("RESPONSE: " <> text) ∷ [])
      × (lookup (guid i) (state_of (on_message p j text waiting)).calls ≡ none)
call-answer p i j s c m timeout f text e r on named not_ping parsed got id fine early =
    let waiting = state_of (internal_call p i c m timeout (some f) s) in
    let pending = (internal_call_lem p i s c m timeout (some f) on).0 in
    let (out, calls) =
      on_message-answer p j waiting text (guid i)
        (record { expiration = i.now + timeout; fn = some f }) f e r not_ping parsed got id named
        pending refl fine in
    (out ∙ rw (lt→ltb j.now (i.now + timeout) early), calls (guid i) ∙ rw (eq_refl (guid i)))
