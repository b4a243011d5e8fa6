-- ===== src/Client/RemoteTests.antt =====
-- Two clients that call each other over a server with two texts.
use oocsi_web.Common.{
  String, false, none, some, [], ◌∷◌, ◌≡◌, refl, arith, if◌then◌else◌, str_eq, eq_iff,
}
use oocsi_web.Common.Dict.{lookup}
use oocsi_web.Common.Text.{◌<>◌}
use oocsi_web.Json.{num, str, obj, Fields, end, field, get_field, set_field, delete_field}
use oocsi_web.Client.Samples.{moment, ready}
use oocsi_web.Client.Guid.{guid}
use oocsi_web.Client.Messaging.{connected, is_dangerous_key}
use oocsi_web.Client.State.{Platform, State, invoke, log, effects, state_of}
use oocsi_web.Client.Api.{run_event, call, received}
use oocsi_web.Client.Laws.Remote.{request, reply, remote_call}

abbrev numbers : Fields
numbers = field "x" (num "3") (field "y" (num "4") end)

-- The server gives every message of ann one text, and every message of bob another.
abbrev server : String → String → String
server sender text = if str_eq sender "ann" then "request" else "reply"

abbrev asked : Fields
asked = field "sender" (str "ann") (
    field "recipient" (str "add") (
      field "data"
        (obj (
          field "x" (num "3") (
            field "y" (num "4")
              (field "_MESSAGE_ID" (str "id-1") (field "_MESSAGE_HANDLE" (str "add") end)))))
        end))

abbrev answered : Fields
answered = field "sender" (str "bob") (
    field "recipient" (str "ann")
      (field "data" (obj (field "_MESSAGE_ID" (str "id-1") (field "sum" (num "7") end))) end))

abbrev network : Platform
network = record {
  parse = λ text.
      if str_eq text "request"
      then some (obj asked)
      else if str_eq text "reply"
      then some (obj answered)
      else none;
  stringify = λ v. "{}";
  throws = λ f v. false;
  respond = λ f v r. set_field "sum" (num "7") r;
  same_value = λ v w. false;
}

-- Nothing is pending at bob.
abbrev bob : State
bob = record ready { username = some "bob"; calls = [] }

remote_call_example :
    effects (
      run_event network moment
        (received "reply")
        (state_of (run_event network moment (call "add" numbers 200 (some 9)) ready)))
    ≡ invoke 9 (obj (field "sum" (num "7") end)) ∷ log ("RESPONSE: " <> "reply") ∷ []
unfolding lookup connected guid get_field set_field delete_field is_dangerous_key request reply
remote_call_example =
    (remote_call network network server moment moment moment ready bob "ann" "bob" "add" numbers
      asked answered 200 9 5 refl refl (λ e. ground (arith, eq_iff "id-1" ""))
      (λ e. ground (arith, eq_iff "add" "")) refl refl refl
      (record { not_ping = refl; parsed = refl; from = refl; to = refl; content = refl }) refl refl
      (record { not_ping = refl; parsed = refl; from = refl; to = refl; content = refl }) refl
      (omega arith)).2
