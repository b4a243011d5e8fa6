-- ===== src/Client/SharedTests.antt =====
-- Two clients that share the variable light of the channel room.
use oocsi_web.Common.{
  false, none, some, [], ◌∷◌, ◌≡◌, refl, arith, if◌then◌else◌, str_eq, eq_iff, get_elem?,
}
use oocsi_web.Common.Dict.{lookup}
use oocsi_web.Json.{undefined, num, str, obj, Fields, end, field, get_field}
use oocsi_web.Client.Samples.{moment, ready}
use oocsi_web.Client.Messaging.{connected, is_dangerous_key}
use oocsi_web.Client.State.{Platform, State, Variable, feed, state_of}
use oocsi_web.Client.Api.{run_event, received}
use oocsi_web.Client.Laws.Shared.{IsHeld, updated, shared_variable}

abbrev light : Variable
light = record {
  channel = "room";
  name = "light";
  throttle = 500;
  listeners = 5 ∷ [];
  value = undefined;
  last_update = 0;
}

abbrev carried : Fields
carried =
    field "sender" (str "ann")
      (field "recipient" (str "room") (field "data" (obj (field "light" (num "1") end)) end))

abbrev network : Platform
network = record {
  parse = λ text. if str_eq text "carried" then some (obj carried) else none;
  stringify = λ v. "{}";
  throws = λ f v. false;
  respond = λ f v r. r;
  same_value = λ v w. false;
}

abbrev other : State
other = record ready { handlers = ("room", feed 0 ∷ []) ∷ [] }

shared_variable_example :
    get_elem? (state_of (run_event network moment (received "carried") other)).variables 0
    ≡ some (record light { value = num "1"; last_update = 1000 })
unfolding lookup connected get_field is_dangerous_key IsHeld updated
shared_variable_example =
    (shared_variable network network (λ sender text. "carried") moment moment ready other light
      light 0 0 "ann" (num "1") carried refl refl refl refl (refl, tt) (refl, tt) (omega arith)
      (omega arith) refl (λ e. ground (arith, eq_iff "light" "hasOwnProperty"))
      (λ e. ground (arith, eq_iff "light" "_MESSAGE_ID")) (λ e. ground (arith, eq_iff "room" ""))
      refl refl
      (record { not_ping = refl; parsed = refl; from = refl; to = refl; content = refl })).3
