-- ===== src/Client/Laws/Variables.antt =====
-- app/assets/js/oocsi-web.js: the accessor of a shared variable and its throttle.
use oocsi_web.Common.{
  ℕ, ◌+◌, String, Bool, false, not, some, List, [], ◌∷◌, ◌++◌, ◌≡◌, refl, arith, All, ◌&&◌,
  if◌then◌else◌, ltb, get_elem?, set,
}
use mathlib.Core.List.{append-nil}
use oocsi_web.Common.Text.{◌<>◌}
use oocsi_web.Json.{Value, str, obj, Fields, field, end, to_string}
use oocsi_web.Client.Messaging.{
  connected, submit, internal_send, call_page, notify, accessor, feed_variable,
}
use oocsi_web.Client.State.{
  Variable, State, Effect, transmit, invoke, Input, Platform, effects, control, outcome, skip,
  throw, open_,
}
use oocsi_web.Client.Sound.{
  Good, good, follow-Good, when-Good, branch-Good, option_case-Good, Good-effects,
}

-- Nothing is sent.
abbrev pub IsSilent : Effect → Type 0
IsSilent (transmit r m) = ⊥
IsSilent _ = Unit {0}

abbrev AnyState : State → Type 0
AnyState s = Unit {0}

unfoldable pub notifications : List ℕ → Value → List Effect
notifications [] v = []
notifications (f ∷ fs) v = invoke f v ∷ notifications fs v

module _ (p : Platform) where
  notify-IsSilent : (fs : List ℕ) (v : Value) (s : State) → Good AnyState IsSilent (notify p fs v s)
  unfolding notify call_page
  notify-IsSilent [] v s = good tt tt
  notify-IsSilent (f ∷ fs) v s =
      follow-Good _ _
        (follow-Good _ _ (good tt (tt, tt)) (λ t h. when-Good _ _ t tt (λ _. good tt tt)))
        (λ t h. notify-IsSilent fs v t)

  accessor-IsSilent :
      (i : Input) (k : ℕ) (new : Value) (s : State)
      → Good AnyState IsSilent (accessor p i k new false s)
  unfolding accessor
  accessor-IsSilent i k new s =
      option_case-Good _ skip _ s (λ _. good tt tt)
        (λ v _.
          branch-Good _ skip _ s (λ _. good tt tt)
            (λ _.
              follow-Good _ _
                (follow-Good _ _ (good tt tt) (λ t h. notify-IsSilent v.listeners new t))
                (λ t h. when-Good _ _ t tt (λ c. absurd (ground arith)))))

  feed-IsSilent :
      (i : Input) (k : ℕ) (e : Value) (s : State) → Good AnyState IsSilent (feed_variable p i k e s)
  unfolding feed_variable
  feed-IsSilent i k e s =
      option_case-Good _ skip _ s (λ _. good tt tt)
        (λ v _.
          branch-Good _ throw _ s (λ _. good tt tt)
            (λ _.
              option_case-Good _ skip _ s (λ _. good tt tt) (λ new _. accessor-IsSilent i k new s)))

  -- An update of a variable that comes from another client is never sent on: it cannot echo.
  pub feed_variable-IsSilent :
      (i : Input) (k : ℕ) (e : Value) (s : State) → All IsSilent (effects (feed_variable p i k e s))
  feed_variable-IsSilent i k e s = Good-effects (feed-IsSilent i k e s)

  notify_lem :
      (fs : List ℕ) (v : Value) (s : State)
      → All (λ f. p.throws f v ≡ false) fs
      → notify p fs v s ≡ outcome s (notifications fs v) false
  unfolding notify call_page notifications control
  notify_lem [] v s h = refl
  notify_lem (f ∷ fs) v s h = ground (arith, notify_lem fs v s h.1)

  -- What is sent for a variable that changed, if the client is connected.
  abbrev pub broadcasts : State → Variable → Value → Bool → List Effect
  broadcasts s v new broadcast =
      if (not (p.same_value new v.value) && broadcast) && connected s
      then transmit open_
          ("sendjson " <> v.channel <> " " <> p.stringify (obj (field v.name new end)))
        ∷ []
      else []

  internal_send_lem :
      (c : String) (m : Fields) (s : State)
      → internal_send p (str c) m s
        ≡ outcome s
            (if connected s
              then transmit open_ ("sendjson " <> c <> " " <> p.stringify (obj m)) ∷ []
              else [])
            false
  unfolding internal_send submit connected to_string control
  internal_send_lem c m s = ground arith

  -- A new value for a variable, if no listener throws. Before the throttle has passed since the last
  -- accepted value nothing changes and nobody hears of it. Afterwards the value and the time are kept,
  -- every listener gets the value, and it is sent if it differs, is to be broadcast, and the client is
  -- connected.
  pub accessor_lem :
      (i : Input) (k : ℕ) (new : Value) (broadcast : Bool) (s : State) (v : Variable)
      → get_elem? s.variables k ≡ some v
      → All (λ f. p.throws f new ≡ false) v.listeners
      → accessor p i k new broadcast s ≡ (
          if ltb i.now (v.last_update + v.throttle)
          then outcome s [] false
          else outcome
              (record s {
                variables = set s.variables k (record v { value = new; last_update = i.now });
              })
              (notifications v.listeners new ++ broadcasts s v new broadcast)
              false)
  unfolding accessor control connected
  accessor_lem i k new broadcast s v found fine =
      let s' = record s {
        variables = set s.variables k (record v { value = new; last_update = i.now });
      } in
      ground (
        arith,
        notify_lem v.listeners new s' fine,
        internal_send_lem v.channel (field v.name new end) s',
        append-nil (notifications v.listeners new),
      )
