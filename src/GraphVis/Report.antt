-- ===== src/GraphVis/Report.antt =====
-- app/assets/js/oocsi-graphvis.js: what the listener of the event source reads of a message's text. The
-- server writes the names as texts, and the subscribers as one text or a list of texts.
use oocsi_web.Common.{String, Option, none, some, List, [], ◌∷◌, if◌then◌else◌, ◌>>=◌}
use oocsi_web.Json.{Value, undefined, str, arr, Items, nil, cons, property, truthy}

pub record Report : Type 0 where
  pub sender : String
  pub channel : String
  pub subscribers : List String

-- `JSON.parse` in the try block, and `e &&`.
unfoldable pub read_text : (parse : String → Option Value) → String → Option Value
read_text parse text = elim (parse text) [
  | none ↦ none
  | some e ↦ if truthy e then some e else none
]

-- `subscribers = []`, and `Array.isArray(subscribers) ? subscribers : [subscribers]`.
unfoldable pub as_array : Value → Items
as_array undefined = nil
as_array (arr items) = items
as_array v = cons v nil

unfoldable pub as_text : Value → Option String
as_text (str s) = some s
as_text v = none

-- The texts of a list, or `none` where it holds another value.
unfoldable pub texts : Items → Option (List String)
unfolding as_text
texts nil = some []
texts (cons v vs) = do head ← as_text v; tail ← texts vs; some (head ∷ tail)

-- The arguments of `sendMessage`, or `none` where the server would not have written the message.
unfoldable pub report : Value → Option Report
unfolding as_array texts as_text
report e = do
  sender ← as_text (property "PUB" e)
  channel ← as_text (property "CHANNEL" e)
  subscribers ← texts (as_array (property "SUB" e))
  some (record { sender = sender; channel = channel; subscribers = subscribers })
