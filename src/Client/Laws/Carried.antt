-- ===== src/Client/Laws/Carried.antt =====
-- app/assets/js/oocsi-web.js: a message from one client to another over the server.
use oocsi_web.Common.{ℕ, String, true, false, some, [], ◌∷◌, ◌≡◌, ◌≢◌, refl, ap, str_eq}
use oocsi_web.Common.Dict.{lookup}
use oocsi_web.Common.Text.{◌<>◌}
use oocsi_web.Json.{str, obj, Fields, truthy, get_field, to_string}
use oocsi_web.Client.Messaging.{
  is_dangerous_key, connected, must_wait, submit, internal_send, run_deferred, wait_for_socket,
}
use oocsi_web.Client.Receive.{on_message}
use oocsi_web.Client.State.{
  user, State, outcome, transmit, log, invoke, Input, Platform, effects, control, open_, branch,
}
use oocsi_web.Client.Api.{run_event}
use oocsi_web.Client.Api as Api
use oocsi_web.Client.Sound.{connected_open}
use oocsi_web.Client.Laws.Handlers.{invocations, users, on_message-handlers}

-- The text of a message to a client or a channel.
unfoldable pub sending : Platform → (recipient : String) → Fields → String
sending p recipient m = "sendjson " <> recipient <> " " <> p.stringify (obj m)

-- What the server does with a message to a client or a channel, in documented behaviour: the text that
-- arrives there is no ping, and is read as an object with the sender, the recipient and the data.
pub record Carries (p : Platform) (text sender recipient : String) (m e : Fields) : Type 0 where
  pub not_ping : str_eq text "ping" ≡ false
  pub parsed : p.parse text ≡ some (obj e)
  pub from : get_field "sender" e ≡ str sender
  pub to : get_field "recipient" e ≡ str recipient
  pub content : get_field "data" e ≡ obj m

-- A client that is connected does not wait.
pub must_wait-connected : (s : State) → connected s ≡ true → must_wait s ≡ false
unfolding must_wait
must_wait-connected s on = rw (connected_open s on, must_wait) refl

pub run_send :
    (p : Platform) (i : Input) (c : String) (m : Fields) (s : State)
    → connected s ≡ true
    → run_event p i (Api.send c m) s ≡ outcome s (transmit open_ (sending p c m) ∷ []) false
unfolding run_event wait_for_socket run_deferred internal_send submit control to_string sending
run_send p i c m s on = rw (must_wait-connected s on, branch, on, connected_open s on) refl

-- The client calls the function of the channel with a message that carries no id.
pub handler-called :
    (q : Platform) (k : Input) (s : State) (arrived sender c : String) (m e : Fields) (f : ℕ)
    → truthy (get_field "_MESSAGE_ID" m) ≡ false
    → c ≢ ""
    → is_dangerous_key c ≡ false
    → lookup c s.handlers ≡ some (user f ∷ [])
    → Carries q arrived sender c m e
    → q.throws f (obj e) ≡ false
    → effects (on_message q k arrived s) ≡ invoke f (obj e) ∷ log ("RESPONSE: " <> arrived) ∷ []
unfolding users invocations
handler-called q k s arrived sender c m e f plain named safe held carried fine = ap effects (
    on_message-handlers q k arrived c (f ∷ []) e m s carried.not_ping carried.parsed carried.content
      plain carried.to named safe held (fine, tt))
