-- ===== src/Things/Laws/Links.antt =====
-- app/assets/js/things/oocsi-things.js on app/assets/js/oocsi-web.js: a linked variable passes its values on.
use oocsi_web.Common.{
  ℕ, ◌+◌, ◌≤◌, String, true, false, Option, some, List, [], ◌∷◌, ◌++◌, ◌≡◌, refl, sym, ◌∙◌, ap,
  subst, arith, All, get_elem?, set, length, get_elem?-append_last, set-append_last,
  get_elem?-append_left,
}
use oocsi_web.Common.Dict.{lookup}
use oocsi_web.Common.Text.{◌<>◌}
use oocsi_web.Json.{Value, undefined}
use oocsi_web.Client.State.{
  Variable, State, Effect, invoke, Input, Platform, Action, Outcome, outcome, threw, prefix_out,
  follow, skip, ◌>>◌, state_of, effects, control,
}
use oocsi_web.Client.Messaging.{accessor, wait_for_socket, run_deferred, internal_subscribe, submit}
use oocsi_web.Client.Api.{
  run_events, Event, variable, listen, assign_variable, run_event, make_variable, add_listener,
}
use oocsi_web.Client.Laws.Variables.{notifications, broadcasts, accessor_lem}
use oocsi_web.Things.Registry.{Page, pass_on, own_name, link_data, invoke_function, run_function}
use oocsi_web.Things.System.{serve}

-- A variable that was just made, with its listeners.
abbrev pub new_variable : (channel name : String) → (listeners : List ℕ) → Variable
new_variable channel name listeners = record {
  channel = channel;
  name = name;
  throttle = 500;
  listeners = listeners;
  value = undefined;
  last_update = 0;
}

follow-state_of :
    (o : Outcome) (b : Action) → threw o ≡ false → state_of (follow o b) ≡ state_of (b (state_of o))
unfolding follow prefix_out
follow-state_of (outcome s es true) b h = absurd (ground (arith, h))
follow-state_of (outcome s es false) b h = state_of-prefix_out es (b s)
  where
    state_of-prefix_out : (es : List Effect) (o : Outcome) → state_of (prefix_out es o) ≡ state_of o
    state_of-prefix_out es (outcome s out t) = refl

module _ (P : Platform) (i : Input) where
  -- The variable that `variable` makes is the last one.
  make_variable-variables :
      (channel name : String) (s : State)
      → (state_of (make_variable P i channel name 500 s)).variables
        ≡ s.variables ++ new_variable channel name [] ∷ []
  unfolding make_variable wait_for_socket run_deferred internal_subscribe submit control
  make_variable-variables channel name s = ground arith

  make_variable-threw :
      (channel name : String) (s : State) → threw (make_variable P i channel name 500 s) ≡ false
  unfolding make_variable wait_for_socket run_deferred internal_subscribe submit control
  make_variable-threw channel name s = ground arith

  add_listener-last :
      (xs : List Variable) (channel name : String) (f : ℕ) (s : State)
      → s.variables ≡ xs ++ new_variable channel name [] ∷ []
      → add_listener (length xs) f s
        ≡ outcome (record s { variables = xs ++ new_variable channel name (f ∷ []) ∷ [] }) [] false
  unfolding add_listener control
  add_listener-last xs channel name f s e =
      let found : get_elem? s.variables (length xs) ≡ some (new_variable channel name []) =
        ap (λ l. get_elem? l (length xs)) e
        ∙ get_elem?-append_last xs (new_variable channel name []) in
      let changed : set s.variables (length xs) (new_variable channel name (f ∷ []))
          ≡ xs ++ new_variable channel name (f ∷ []) ∷ [] =
        ap (λ l. set l (length xs) (new_variable channel name (f ∷ []))) e
        ∙ set-append_last xs (new_variable channel name []) (new_variable channel name (f ∷ [])) in
      ground (arith, found, changed)

  -- The two calls of a link: a new variable with the link's function as its listener.
  link_events :
      (channel name : String) (f : ℕ) (s : State)
      → (state_of (
          run_events P i
            (variable channel name 500 ∷ listen (length s.variables) f ∷ [])
            s)).variables
        ≡ s.variables ++ new_variable channel name (f ∷ []) ∷ []
  unfolding run_events run_event control
  link_events channel name f s =
      let made = state_of (make_variable P i channel name 500 s) in
      let listened =
        add_listener-last s.variables channel name f made
          (make_variable-variables channel name s) in
      ap (λ t. t.variables)
        (follow-state_of (make_variable P i channel name 500 s)
          (add_listener (length s.variables) f >> skip) (make_variable-threw channel name s))
      ∙ ap (λ o. (state_of (follow o skip)).variables) listened

  -- A new value for a variable that was just made, with one listener.
  first_value :
      (xs : List Variable) (channel name : String) (f : ℕ) (new : Value) (t : State)
      → t.variables ≡ xs ++ new_variable channel name (f ∷ []) ∷ []
      → P.throws f new ≡ false
      → 500 ≤ i.now
      → let w = record (new_variable channel name (f ∷ [])) { value = new; last_update = i.now } in
        accessor P i (length xs) new false t
        ≡ outcome (record t { variables = xs ++ w ∷ [] }) (invoke f new ∷ []) false
  unfolding notifications
  first_value xs channel name f new t e calm late =
      let made = new_variable channel name (f ∷ []) in
      let w = record made { value = new; last_update = i.now } in
      let found : get_elem? t.variables (length xs) ≡ some made =
        ap (λ l. get_elem? l (length xs)) e ∙ get_elem?-append_last xs made in
      let changed : set t.variables (length xs) w ≡ xs ++ w ∷ [] =
        ap (λ l. set l (length xs) w) e ∙ set-append_last xs made w in
      ground (arith, accessor_lem P i (length xs) new false t made found (calm, tt), changed, late)

  -- The page is called once by the variable, and then gives the value to its own, which keeps it, tells
  -- its listeners, and sends it if it differs and the client is connected.
  pub PassesOn : (new : Value) (k : ℕ) (v : Variable) (s : State) → Page × List Event → Type 0
  PassesOn new k v s (linked, events) =
      let t = state_of (run_events P i events s) in
      let update = accessor P i (length s.variables) new false t in
      let u = state_of update in
      (serve i.now (effects update) linked ≡ (linked, assign_variable k new true ∷ []))
      × (run_event P i (assign_variable k new true) u
          ≡ outcome
              (record u {
                variables = set u.variables k (record v { value = new; last_update = i.now });
              })
              (notifications v.listeners new ++ broadcasts P u v new true) false)

  -- A new value for a variable whose throttle has passed.
  own_value :
      (k : ℕ) (new : Value) (v : Variable) (u : State)
      → get_elem? u.variables k ≡ some v
      → All (λ f. P.throws f new ≡ false) v.listeners
      → v.last_update + v.throttle ≤ i.now
      → run_event P i (assign_variable k new true) u
        ≡ outcome
            (record u {
              variables = set u.variables k (record v { value = new; last_update = i.now });
            })
            (notifications v.listeners new ++ broadcasts P u v new true)
            false
  unfolding run_event
  own_value k new v u found fine passed =
      ground (arith, accessor_lem P i k new true u v found fine, passed)

  link_data_found :
      (app name : String) (own : Option String) (page : Page) (n k : ℕ)
      → lookup (own_name name own) page.data_variables ≡ some k
      → link_data n app name own page ≡ (
        record page { functions = page.functions ++ pass_on (own_name name own) ∷ [] },
        variable page.channel (app <> "_" <> name) 500 ∷ listen n (length page.functions) ∷ [],
      )
  unfolding link_data
  link_data_found app name own page n k owned = rw (owned, link_data) refl

  serve_link :
      (page : Page) (target : String) (k : ℕ) (new : Value)
      → lookup target page.data_variables ≡ some k
      → let linked = record page { functions = page.functions ++ pass_on target ∷ [] } in
        serve i.now (invoke (length page.functions) new ∷ []) linked
        ≡ (linked, assign_variable k new true ∷ [])
  unfolding serve invoke_function run_function
  serve_link page target k new owned =
      ground (arith, owned, get_elem?-append_last page.functions (pass_on target))

  -- A page links a variable of another thing to one of its own, the client's k-th: when the variable that
  -- the link makes gets a value, it passes it on. This is so from half a second after the start of the
  -- clock and when the throttle of the own variable has passed, if no function throws.
  pub link_data-PassesOn :
      (app name : String) (own : Option String) (new : Value) (page : Page) (s : State) (k : ℕ)
      (v : Variable)
      → lookup (own_name name own) page.data_variables ≡ some k
      → get_elem? s.variables k ≡ some v
      → All (λ f. P.throws f new ≡ false) v.listeners
      → P.throws (length page.functions) new ≡ false
      → 500 ≤ i.now
      → v.last_update + v.throttle ≤ i.now
      → PassesOn new k v s (link_data (length s.variables) app name own page)
  unfolding PassesOn
  link_data-PassesOn app name own new page s k v owned found fine calm late passed =
      let target = own_name name own in
      let f = length page.functions in
      let linked = record page { functions = page.functions ++ pass_on target ∷ [] } in
      let events =
        variable page.channel (app <> "_" <> name) 500 ∷ listen (length s.variables) f ∷ [] in
      let t = state_of (run_events P i events s) in
      let told =
        first_value s.variables page.channel (app <> "_" <> name) f new t
          (link_events page.channel (app <> "_" <> name) f s) calm late in
      subst (λ r. PassesOn new k v s r)
        (sym (link_data_found app name own page (length s.variables) k owned))
        (
          ap (λ o. serve i.now (effects o) linked) told ∙ serve_link page target k new owned,
          own_value k new v (state_of (accessor P i (length s.variables) new false t))
              (ap (λ o. get_elem? (state_of o).variables k) told
                ∙ get_elem?-append_left s.variables _ k v found)
              fine passed,
        )
