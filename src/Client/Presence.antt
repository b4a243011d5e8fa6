-- ===== src/Client/Presence.antt =====
-- app/assets/js/oocsi-web.js: `heyOOCSI`, which gathers what a device announces of itself.
use oocsi_web.Common.{String, Option, none, some, List, [], ◌∷◌, if◌then◌else◌, str_eq}
use oocsi_web.Json.{Value, undefined, str, arr, obj, cons, nil, Fields, end, field, set_field}

-- `data[device_name]`, by its three objects.
pub record Device : Type 0 where
  pub name : String
  pub properties : Fields
  pub location : Fields
  pub components : Fields

-- `name || username`, as the key of an object.
unfoldable pub key_text : Option String → String
key_text none = "undefined"
key_text (some u) = u

unfoldable pub device_name : (name username : Option String) → String
unfolding key_text
device_name none username = key_text username
device_name (some n) username = if str_eq n "" then key_text username else n

-- `heyOOCSI`.
unfoldable pub hey_oocsi : (name username : Option String) → Device
unfolding device_name
hey_oocsi name username = record {
  name = device_name name username;
  properties = field "device_id" (elim username [ none ↦ undefined | some u ↦ str u ]) end;
  location = end;
  components = end;
}

-- The functions `add_…_brick`, with their arguments but the name of the component.
pub data Brick : Type 0 where
  sensor : (channel type unit default icon : Value) → Brick
  number : (channel min_max unit default icon : Value) → Brick
  binary_sensor : (channel type default icon : Value) → Brick
  switch : (channel type default icon : Value) → Brick
  light : (channel led_type spectrum min_max state brightness icon : Value) → Brick

-- The object that each of them makes.
unfoldable pub brick_fields : Brick → Fields
brick_fields (sensor channel type unit default icon) = field "channel_name" channel (
    field "type" (str "sensor") (
      field "sensor_type" type (field "unit" unit (field "value" default (field "icon" icon end)))))
brick_fields (number channel min_max unit default icon) = field "channel_name" channel (
    field "type" (str "number")
      (field "min_max" min_max (field "unit" unit (field "value" default (field "icon" icon end)))))
brick_fields (binary_sensor channel type default icon) = field "channel_name" channel (
    field "type" (str "binary_sensor")
      (field "sensor_type" type (field "state" default (field "icon" icon end))))
brick_fields (switch channel type default icon) = field "channel_name" channel (
    field "type" (str "switch")
      (field "sensor_type" type (field "state" default (field "icon" icon end))))
brick_fields (light channel led_type spectrum min_max state brightness icon) =
    field "channel_name" channel (
      field "type" (str "light") (
        field "ledType" led_type (
          field "spectrum" spectrum (
            field "min_max" min_max
              (field "state" state (field "brightness" brightness (field "icon" icon end)))))))

-- The calls of the page on the device.
pub data Addition : Type 0 where
  add_property : String → Value → Addition
  add_location : String → (latitude longitude : Value) → Addition
  add_brick : String → Brick → Addition

-- `fields[key] = v` for an object of its own; `__proto__` sets what the object inherits from, and
-- `JSON.stringify` writes own entries only.
unfoldable pub assign_key : String → Value → Fields → Fields
assign_key key v fields = if str_eq key "__proto__" then fields else set_field key v fields

unfoldable pub add : Addition → Device → Device
unfolding brick_fields assign_key
add (add_property name v) d = record d { properties = assign_key name v d.properties }
add (add_location name latitude longitude) d = record d {
  properties = assign_key name (arr (cons latitude (cons longitude nil))) d.properties;
}
add (add_brick name b) d = record d {
  components = assign_key name (obj (brick_fields b)) d.components;
}

unfoldable pub add_all : List Addition → Device → Device
unfolding add
add_all [] d = d
add_all (a ∷ more) d = add_all more (add a d)

-- `data`, which `submit` and `sayHi` send.
unfoldable pub announcement : Device → Fields
unfolding assign_key
announcement d =
    assign_key d.name
      (obj (
        field "properties" (obj d.properties)
          (field "location" (obj d.location) (field "components" (obj d.components) end))))
      end
