-- ===== src/Client/Laws/Announced.antt =====
-- app/assets/js/oocsi-web.js: what a device announces after the calls of the page.
use oocsi_web.Common.{String, List, [], ◌∷◌, if◌then◌else◌, str_eq}
use oocsi_web.Json.{Value, arr, obj, cons, nil, Fields, get_field, property}
use oocsi_web.Client.Presence.{brick_fields, Addition, add_property, add_location, add_brick}

-- What the announcement says: `properties`, `location` or `components` of the device, and what stands there
-- under a name.
unfoldable pub part : (device section : String) → Fields → Value
part device section message = property section (get_field device message)

unfoldable pub announced : (device section name : String) → Fields → Value
unfolding part
announced device section name message = property name (part device section message)

-- What the calls of the page say last of a component.
unfoldable pub latest : String → List Addition → Value → Value
latest name [] v = v
latest name (add_brick other b ∷ more) v =
    latest name more (if str_eq other name then obj (brick_fields b) else v)
latest name (add_property other w ∷ more) v = latest name more v
latest name (add_location other a b ∷ more) v = latest name more v

-- What they say last of a property, which a location is too.
unfoldable pub latest_property : String → List Addition → Value → Value
latest_property name [] v = v
latest_property name (add_brick other b ∷ more) v = latest_property name more v
latest_property name (add_property other w ∷ more) v =
    latest_property name more (if str_eq other name then w else v)
latest_property name (add_location other a b ∷ more) v =
    latest_property name more (if str_eq other name then arr (cons a (cons b nil)) else v)
