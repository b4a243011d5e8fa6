-- ===== src/Things/Registry.antt =====
-- app/assets/js/things/oocsi-things.js: `oocsiThings` after the team is set: what a thing registers, the
-- variables that it links, and the devices that it has heard of. What it calls on the client is a list
-- of the client's events.
use oocsi_web.Common.{
  ℕ, ◌-◌, ◌%◌, String, Bool, true, false, not, Option, none, some, List, [], ◌∷◌, ◌++◌, length, leb,
  get_elem?, if◌then◌else◌, str_eq,
}
use oocsi_web.Common.Dict.{Dict, lookup, insert, keep_values}
use oocsi_web.Common.Text.{◌<>◌, show}
use oocsi_web.Json.{Value, undefined, str, arr, Items, Fields, end, field, property, to_string}
use oocsi_web.Client.Api.{Event, connect_to, send, subscribe, variable, listen, assign_variable}

-- An entry of `devices`: the data of the last message, and its new field `timestamp`.
pub record Device : Type 0 where
  pub info : Value
  pub timestamp : ℕ

-- A function that the page gives to the client: the handler of presence messages, a listener that
-- passes a value on, or one of the thing's own.
pub data PageFunction : Type 0 where
  hear_presence : PageFunction
  pass_on : (own_data : String) → PageFunction
  other : ℕ → PageFunction

-- `globalSettings`, the variables of `oocsiThings`, and what the header shows. The number of a function is
-- its place in `functions`; a variable of the client is its number there.
pub record Page : Type 0 where
  pub team : String
  pub channel : String
  pub app_name : String
  pub app_slug : String
  pub id : String
  pub data_variables : Dict ℕ
  pub devices : Dict Device
  pub functions : List PageFunction
  pub activity_shown : Bool
  pub connection_shown : Bool

-- The page when `finishSetup` has set the team and the channel.
unfoldable pub start_page : (team channel : String) → Page
start_page team channel = record {
  team = team;
  channel = channel;
  app_name = "undefined";
  app_slug = "undefined";
  id = "undefined";
  data_variables = [];
  devices = [];
  functions = [];
  activity_shown = false;
  connection_shown = false;
}

-- `register` up to its first interval, and its subscription.
unfoldable pub register_thing :
    (secure : Bool)
    → (server : String) → (now : ℕ) → (name slug : String) → Page
    → Page × List Event
register_thing secure server now name slug p =
    let protocol : String = if secure then "wss://" else "ws://" in
    (
      record p {
        app_name = name;
        app_slug = slug;
        id = slug <> show (now % 1000);
        functions = p.functions ++ hear_presence ∷ [];
      },
      connect_to (protocol <> server <> "/ws") (some (p.channel <> "/" <> slug <> "_##")) none
          ∷ subscribe p.channel (some (length p.functions))
          ∷ [],
    )

-- The presence message, which is sent every eight seconds.
unfoldable pub presence : (in_vars out_vars : Items) → Page → Fields
presence in_vars out_vars p = field "name" (str p.app_name) (
    field "slug" (str p.app_slug)
      (field "id" (str p.id) (field "in" (arr in_vars) (field "out" (arr out_vars) end))))

unfoldable pub send_presence : (in_vars out_vars : Items) → Page → Event
unfolding presence
send_presence in_vars out_vars p = send p.channel (presence in_vars out_vars p)

unfoldable pub is_undefined : Value → Bool
is_undefined undefined = true
is_undefined _ = false

-- The key of a message's device: none where there is no id or the id has no text, of which the code
-- throws, and for `__proto__`, which makes no entry.
unfoldable pub presence_key : (event : Value) → Option String
unfolding is_undefined
presence_key event =
    let id = property "id" (property "data" event) in
    let found : Option String = elim (to_string id) [
      | none ↦ none
      | some key ↦ if str_eq key "__proto__" then none else some key
    ] in
    if is_undefined id then none else found

-- The handler of presence messages.
unfoldable pub hear : (now : ℕ) → (event : Value) → Page → Page
unfolding presence_key
hear now event p = elim (presence_key event) [
  | none ↦ p
  | some key ↦ record p {
    devices = insert key (record { info = property "data" event; timestamp = now }) p.devices;
  }
]

-- `devices`: the entries that are kept are those that it returns.
unfoldable pub current_devices : (now : ℕ) → Page → Page
current_devices now p = record p {
  devices = keep_values (λ d. leb (now - d.timestamp) 20000) p.devices;
}

-- `data`, with the number of the client's next variable.
unfoldable pub make_data : (next : ℕ) → (name : String) → Page → Page × List Event
make_data next name p = (
  record p { data_variables = insert name next p.data_variables },
  variable p.channel (p.app_slug <> "_" <> name) 500 ∷ [],
)

-- `ownData || name`.
unfoldable pub own_name : (name : String) → Option String → String
own_name name none = name
own_name name (some own) = if str_eq own "" then name else own

-- `connect` and `link`, which do the same. The entries of `data` are the thing's own.
unfoldable pub link_data :
    (next : ℕ) → (app name : String) → Option String → Page → Page × List Event
unfolding own_name
link_data next app name own p =
    let target = own_name name own in
    elim (lookup target p.data_variables) [
      | none ↦ (p, [])
      | some k ↦ (
        record p { functions = p.functions ++ pass_on target ∷ [] },
        variable p.channel (app <> "_" <> name) 500 ∷ listen next (length p.functions) ∷ [],
      )
    ]

-- `subscribe`, with a function of the thing.
unfoldable pub subscribe_thing : (fct : ℕ) → Page → Page × List Event
subscribe_thing fct p = (
  record p { functions = p.functions ++ other fct ∷ [] },
  subscribe p.channel (some (length p.functions)) ∷ [],
)

-- What a function of the page does with the argument that the client gives it.
unfoldable pub run_function :
    (now : ℕ) → PageFunction → (argument : Value) → Page → Page × List Event
unfolding hear
run_function now hear_presence argument p = (hear now argument p, [])
run_function now (pass_on own) argument p = elim (lookup own p.data_variables) [
  | none ↦ (p, [])
  | some k ↦ (p, assign_variable k argument true ∷ [])
]
run_function now (other f) argument p = (p, [])

-- The client calls the function with a number.
unfoldable pub invoke_function : (now : ℕ) → (f : ℕ) → (argument : Value) → Page → Page × List Event
unfolding run_function
invoke_function now f argument p = elim (get_elem? p.functions f) [
  | none ↦ (p, [])
  | some g ↦ run_function now g argument p
]

-- `activity`, its timeout, and the second interval of `register`.
unfoldable pub show_activity : Page → Page
show_activity p = record p { activity_shown = true }

unfoldable pub hide_activity : Page → Page
hide_activity p = record p { activity_shown = false }

unfoldable pub show_connection : (is_connected : Bool) → Page → Page
show_connection is_connected p = record p { connection_shown = not is_connected }
