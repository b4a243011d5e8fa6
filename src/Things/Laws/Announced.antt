-- ===== src/Things/Laws/Announced.antt =====
-- app/assets/js/things/oocsi-things.js on app/assets/js/oocsi-web.js: a thing announces itself, and another page
-- finds it among its devices.
use oocsi_web.Common.{
  ℕ, ◌-◌, ◌≤◌, String, true, false, some, [], ◌∷◌, ◌≡◌, ◌≢◌, refl, ◌∙◌, arith, get_elem?, eq_iff,
  str_eq, ap,
}
use oocsi_web.Common.Dict.{lookup, insert, lookup-insert_self, lookup-keep_kept}
use oocsi_web.Json.{str, obj, Items, Fields, truthy, property, get_field, to_string}
use oocsi_web.Client.Messaging.{is_dangerous_key, connected}
use oocsi_web.Client.State.{user, State, transmit, invoke, log, Input, Platform, effects, open_}
use oocsi_web.Client.Api.{run_event, received}
use oocsi_web.Client.Laws.Carried.{sending, Carries, run_send, handler-called}
use oocsi_web.Things.Registry.{
  Page, Device, hear_presence, presence, send_presence, is_undefined, presence_key, hear,
  current_devices, run_function, invoke_function,
}
use oocsi_web.Things.System.{serve}

-- The announcement of a thing has its id, and no message id.
presence_key-presence :
    (ins outs : Items) (x : Page) (e : Fields)
    → get_field "data" e ≡ obj (presence ins outs x)
    → x.id ≢ "__proto__"
    → presence_key (obj e) ≡ some x.id
unfolding presence_key presence property get_field is_undefined to_string
presence_key-presence ins outs x e got safe =
    let content : property "data" (obj e) ≡ obj (presence ins outs x) = got in
    let apart : str_eq x.id "__proto__" ≡ false = ground (arith, eq_iff x.id "__proto__") in
    let named : property "id" (property "data" (obj e)) ≡ str x.id = ap (property "id") content in
    rw (named, is_undefined, presence_key, to_string, apart) refl

presence-plain :
    (ins outs : Items) (x : Page) → truthy (get_field "_MESSAGE_ID" (presence ins outs x)) ≡ false
unfolding presence get_field truthy
presence-plain ins outs x = refl

hear-keeps :
    (now later : ℕ) (key : String) (e : Fields) (y : Page)
    → presence_key (obj e) ≡ some key
    → later - now ≤ 20000
    → lookup key (current_devices later (hear now (obj e) y)).devices
      ≡ some (record { info = property "data" (obj e); timestamp = now })
unfolding hear current_devices
hear-keeps now later key e y found soon =
    let device : Device = record { info = property "data" (obj e); timestamp = now } in
    rw (found, hear, current_devices)
      (lookup-keep_kept _ key device (insert key device y.devices)
        (lookup-insert_self key device y.devices) (ground (arith, soon)))

serve-hear :
    (now f : ℕ) (e : Fields) (text : String) (y : Page)
    → get_elem? y.functions f ≡ some hear_presence
    → (serve now (invoke f (obj e) ∷ log text ∷ []) y).0 ≡ hear now (obj e) y
unfolding serve invoke_function run_function
serve-hear now f e text y held = rw (held, invoke_function) refl

-- A thing sends its announcement once. When the server has carried it to another page of the channel, whose
-- client is subscribed with the function of that page and whose function does not throw, the page has
-- the thing among its devices for twenty seconds, with all that was announced and the time. The channel's
-- name is not empty and no dangerous key, and the id of the thing is not __proto__.
pub announcement-arrives :
    (p q : Platform) (server : (sender text : String) → String) (i k : Input) (a b : State)
    (x y : Page) (ins outs : Items) (sender : String) (e : Fields) (f later : ℕ)
    → connected a ≡ true
    → x.channel ≢ ""
    → is_dangerous_key x.channel ≡ false
    → x.id ≢ "__proto__"
    → lookup x.channel b.handlers ≡ some (user f ∷ [])
    → get_elem? y.functions f ≡ some hear_presence
    → q.throws f (obj e) ≡ false
    → Carries q
        (server sender (sending p x.channel (presence ins outs x)))
        sender
        x.channel
        (presence ins outs x)
        e
    → later - k.now ≤ 20000
    → let arrived = server sender (sending p x.channel (presence ins outs x)) in
      let heard = effects (run_event q k (received arrived) b) in
      (effects (run_event p i (send_presence ins outs x) a)
        ≡ transmit open_ (sending p x.channel (presence ins outs x)) ∷ [])
      × (lookup x.id (current_devices later (serve k.now heard y).0).devices
          ≡ some (record { info = obj (presence ins outs x); timestamp = k.now }))
unfolding run_event send_presence property
announcement-arrives p q server i k a b x y ins outs sender e f later on named safe own held known
      fine carried soon =
    let called =
      handler-called q k b _ sender x.channel (presence ins outs x) e f (presence-plain ins outs x)
        named safe held carried fine in
    let content : property "data" (obj e) ≡ obj (presence ins outs x) = carried.content in
    let kept =
      hear-keeps k.now later x.id e y (presence_key-presence ins outs x e carried.content own)
        soon in
    (
      ap effects (run_send p i x.channel (presence ins outs x) a on),
      rw (called, serve-hear k.now f e _ y known)
          (kept ∙ ap (λ v. some (record { info = v; timestamp = k.now })) content),
    )
