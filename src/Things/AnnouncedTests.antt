-- ===== src/Things/AnnouncedTests.antt =====
-- A lamp announces itself to a page of its team.
use oocsi_web.Common.{false, none, some, [], ◌∷◌, ◌≡◌, refl, arith, if◌then◌else◌, str_eq, eq_iff}
use oocsi_web.Common.Dict.{lookup}
use oocsi_web.Json.{Items, nil, cons, str, obj, Fields, end, field, get_field}
use oocsi_web.Client.Samples.{moment, ready}
use oocsi_web.Client.Messaging.{connected, is_dangerous_key}
use oocsi_web.Client.State.{Platform, State, user, effects}
use oocsi_web.Client.Api.{run_event, received}
use oocsi_web.Things.Registry.{Page, presence, hear_presence, current_devices}
use oocsi_web.Things.System.{serve}
use oocsi_web.Things.Laws.Announced.{announcement-arrives}

abbrev team : Page
team = record {
  team = "blue";
  channel = "blue";
  app_name = "Lamp";
  app_slug = "lamp";
  id = "lamp7";
  data_variables = [];
  devices = [];
  functions = hear_presence ∷ [];
  activity_shown = false;
  connection_shown = false;
}

abbrev outs : Items
outs = cons (str "level") nil

abbrev carried : Fields
carried =
    field "sender" (str "blue/lamp_12")
      (field "recipient" (str "blue") (field "data" (obj (presence nil outs team)) end))

abbrev network : Platform
network = record {
  parse = λ text. if str_eq text "carried" then some (obj carried) else none;
  stringify = λ v. "{}";
  throws = λ f v. false;
  respond = λ f v r. r;
  same_value = λ v w. false;
}

abbrev listener : State
listener = record ready { handlers = ("blue", user 0 ∷ []) ∷ [] }

announcement-arrives_example :
    lookup "lamp7"
      (current_devices 9000
        (serve 1000
          (effects (run_event network moment (received "carried") listener))
          team).0).devices
    ≡ some (record { info = obj (presence nil outs team); timestamp = 1000 })
unfolding lookup connected get_field is_dangerous_key
announcement-arrives_example =
    (announcement-arrives network network (λ sender text. "carried") moment moment ready listener
      team team nil outs "blue/lamp_12" carried 0 9000 refl (λ e. ground (arith, eq_iff "blue" ""))
      refl (λ e. ground (arith, eq_iff "lamp7" "__proto__")) refl refl refl
      (record { not_ping = refl; parsed = refl; from = refl; to = refl; content = refl })
      (omega arith)).1
