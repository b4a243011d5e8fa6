-- ===== src/Client/Laws/Shared.antt =====
-- app/assets/js/oocsi-web.js: one variable of two clients.
use oocsi_web.Common.{
  ℕ, ◌+◌, ◌≤◌, String, true, false, some, [], ◌∷◌, ◌++◌, ◌≡◌, ◌≢◌, refl, sym, subst, ◌∙◌, ap, arith,
  All, str_eq, eq_iff, eq_refl, get_elem?, get_elem?-set_self, set,
}
use mathlib.Core.List.{append-nil}
use oocsi_web.Common.Dict.{lookup}
use oocsi_web.Common.Text.{◌<>◌}
use oocsi_web.Json.{
  Value, obj, Fields, end, field, truthy, property, own_property, get_field, has_field,
  hides_method,
}
use oocsi_web.Client.Messaging.{is_dangerous_key, connected, accessor, feed_variable, run_callback}
use oocsi_web.Client.Receive.{run_handlers, on_message}
use oocsi_web.Client.State.{
  feed, Variable, State, outcome, transmit, log, Input, Platform, effects, state_of, control, open_,
}
use oocsi_web.Client.Api.{run_event, assign_variable, received}
use oocsi_web.Client.Laws.Calls.{on_message_parsed}
use oocsi_web.Client.Laws.Carried.{sending, Carries}
use oocsi_web.Client.Laws.Handlers.{dispatch_channel}
use oocsi_web.Client.Laws.Variables.{notifications, accessor_lem}

-- The variable with a new value.
unfoldable pub updated : (now : ℕ) → Value → Variable → Variable
updated now new v = record v { value = new; last_update = now }

-- An accepted value of a variable.
accessor-accepts :
    (p : Platform) (i : Input) (k : ℕ) (new : Value) (s : State) (v : Variable)
    → get_elem? s.variables k ≡ some v
    → All (λ f. p.throws f new ≡ false) v.listeners
    → v.last_update + v.throttle ≤ i.now
    → p.same_value new v.value ≡ false
    → connected s ≡ true
    → accessor p i k new true s
      ≡ outcome
          (record s { variables = set s.variables k (updated i.now new v) })
          (notifications v.listeners new
            ++ transmit open_ (sending p v.channel (field v.name new end)) ∷ [])
          false
unfolding updated sending
accessor-accepts p i k new s v found fine late changed on =
    accessor_lem p i k new true s v found fine ∙ rw (changed, on) (ground (arith, late))

accessor-hears :
    (p : Platform) (i : Input) (k : ℕ) (new : Value) (s : State) (v : Variable)
    → get_elem? s.variables k ≡ some v
    → All (λ f. p.throws f new ≡ false) v.listeners
    → v.last_update + v.throttle ≤ i.now
    → accessor p i k new false s
      ≡ outcome
          (record s { variables = set s.variables k (updated i.now new v) })
          (notifications v.listeners new)
          false
unfolding updated
accessor-hears p i k new s v found fine late =
    accessor_lem p i k new false s v found fine
    ∙ ground (arith, late, append-nil (notifications v.listeners new))

-- The closure of a variable takes the value out of a message with its name.
feed-hears :
    (q : Platform) (k : Input) (n : ℕ) (new : Value) (e : Fields) (s : State) (v : Variable)
    → get_field "data" e ≡ obj (field v.name new end)
    → v.name ≢ "hasOwnProperty"
    → get_elem? s.variables n ≡ some v
    → feed_variable q k n (obj e) s ≡ accessor q k n new false s
unfolding feed_variable control property hides_method own_property has_field get_field
feed-hears q k n new e s v got plain found =
    let named : str_eq v.name "hasOwnProperty" ≡ false =
      ground (arith, eq_iff v.name "hasOwnProperty") in
    rw (found, got, hides_method, has_field, named, eq_refl v.name) refl

-- The client of the variable gets a message with its name.
variable-hears :
    (q : Platform) (k : Input) (text sender c : String) (n : ℕ) (new : Value) (e : Fields)
    (s : State) (v : Variable)
    → Carries q text sender c (field v.name new end) e
    → v.name ≢ "hasOwnProperty"
    → v.name ≢ "_MESSAGE_ID"
    → c ≢ ""
    → is_dangerous_key c ≡ false
    → lookup c s.handlers ≡ some (feed n ∷ [])
    → get_elem? s.variables n ≡ some v
    → All (λ f. q.throws f new ≡ false) v.listeners
    → v.last_update + v.throttle ≤ k.now
    → on_message q k text s
      ≡ outcome
          (record s { variables = set s.variables n (updated k.now new v) })
          (notifications v.listeners new ++ log ("RESPONSE: " <> text) ∷ [])
          false
unfolding run_handlers run_callback control get_field truthy
variable-hears q k text sender c n new e s v carried plain unmarked named safe held found fine
      late =
    let no_id : truthy (get_field "_MESSAGE_ID" (field v.name new end)) ≡ false =
      ground (arith, eq_iff v.name "_MESSAGE_ID") in
    let after : State = record s { variables = set s.variables n (updated k.now new v) } in
    let accepted =
      feed-hears q k n new e s v carried.content plain found
      ∙ accessor-hears q k n new s v found fine late in
    on_message_parsed q k s text (obj e) _ _ carried.not_ping carried.parsed (
      dispatch_channel q k text c (feed n ∷ []) e (field v.name new end) s carried.content no_id
        carried.to named safe held
      ∙ rw accepted
          (ap (λ out. outcome after out false) (append-nil (notifications v.listeners new))))

-- The value of a client's variable.
unfoldable pub IsHeld : (variable : ℕ) → Value → (now : ℕ) → State → Variable → Type 0
unfolding updated
IsHeld n new now s v = get_elem? s.variables n ≡ some (updated now new v)

-- A variable of two clients, neither of which throttles it now. A new value of the first is given to its
-- listeners and sent once; when the server has carried it, the listeners of the second get it, and nothing is
-- sent on; then both variables have the value, with the time of their own client. The listeners do not
-- throw, the value differs from the one before, the clients are connected, and the names of the channel and of
-- the variable are not those that the client treats in a special way.
pub shared_variable :
    (p q : Platform) (server : (sender text : String) → String) (i k : Input) (a b : State)
    (x y : Variable) (l n : ℕ) (sender : String) (new : Value) (e : Fields)
    → connected a ≡ true
    → get_elem? a.variables l ≡ some x
    → get_elem? b.variables n ≡ some y
    → y.name ≡ x.name
    → All (λ f. p.throws f new ≡ false) x.listeners
    → All (λ f. q.throws f new ≡ false) y.listeners
    → x.last_update + x.throttle ≤ i.now
    → y.last_update + y.throttle ≤ k.now
    → p.same_value new x.value ≡ false
    → x.name ≢ "hasOwnProperty"
    → x.name ≢ "_MESSAGE_ID"
    → x.channel ≢ ""
    → is_dangerous_key x.channel ≡ false
    → lookup x.channel b.handlers ≡ some (feed n ∷ [])
    → Carries q
        (server sender (sending p x.channel (field x.name new end)))
        sender
        x.channel
        (field x.name new end)
        e
    → let arrived = server sender (sending p x.channel (field x.name new end)) in
      let assigned = run_event p i (assign_variable l new true) a in
      let heard = run_event q k (received arrived) b in
      (effects assigned
        ≡ notifications x.listeners new
          ++ transmit open_ (sending p x.channel (field x.name new end)) ∷ [])
      × (effects heard ≡ notifications y.listeners new ++ log ("RESPONSE: " <> arrived) ∷ [])
      × IsHeld l new i.now (state_of assigned) x
      × IsHeld n new k.now (state_of heard) y
unfolding run_event IsHeld
shared_variable p q server i k a b x y l n sender new e on found_a found_b same fine_a fine_b late_a
      late_b changed plain unmarked named safe held carried =
    let first = accessor-accepts p i l new a x found_a fine_a late_a changed on in
    let arrived = server sender (sending p x.channel (field x.name new end)) in
    let second =
      variable-hears q k arrived sender x.channel n new e b y
        (subst (λ name. Carries q arrived sender x.channel (field name new end) e) (sym same)
          carried)
        (subst (λ name. name ≢ "hasOwnProperty") (sym same) plain)
        (subst (λ name. name ≢ "_MESSAGE_ID") (sym same) unmarked) named safe held found_b fine_b
        late_b in
    (
      ap effects first,
      ap effects second,
      ap (λ o. get_elem? (state_of o).variables l) first
          ∙ get_elem?-set_self a.variables l x (updated i.now new x) found_a,
      ap (λ o. get_elem? (state_of o).variables n) second
          ∙ get_elem?-set_self b.variables n y (updated k.now new y) found_b,
    )
