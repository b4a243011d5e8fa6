-- ===== src/Things/Laws/Presence.antt =====
-- app/assets/js/things/oocsi-things.js: `devices` against the list of all that was heard.
use oocsi_web.Common.{
  ℕ, ◌-◌, ◌≤◌, String, Bool, false, Option, none, some, List, [], ◌∷◌, ◌≡◌, refl, ◌∙◌, ap, arith,
  leb, if◌then◌else◌, str_eq, Bool-cases, Option-cases, inl, inr,
}
use oocsi_web.Common.Dict.{lookup, lookup-insert}
use oocsi_web.Common.Dict.Unique.{
  IsUnique, passed, keep_values-IsUnique, insert-IsUnique, lookup-keep_values,
}
use oocsi_web.Json.{Value, property}
use oocsi_web.Things.Registry.{Device, Page, presence_key, hear, current_devices, start_page}

-- A message that was heard or a question for the devices, with its time.
pub data Moment : Type 0 where
  heard : (now : ℕ) → (event : Value) → Moment
  asked : (now : ℕ) → Moment

abbrev pub time_of : Moment → ℕ
time_of (heard now event) = now
time_of (asked now) = now

-- What the page has after some moments.
unfoldable pub live : List Moment → Page → Page
live [] p = p
live (heard now event ∷ more) p = live more (hear now event p)
live (asked now ∷ more) p = live more (current_devices now p)

-- The times never go back, and none is after the end.
abbrev pub IsOrdered : (from : ℕ) → List Moment → (end : ℕ) → Type 0
IsOrdered from [] end = from ≤ end
IsOrdered from (m ∷ more) end = (from ≤ time_of m) × IsOrdered (time_of m) more end

-- Whether a message is of the device with a name.
unfoldable pub is_of : String → Value → Bool
is_of name event = elim (presence_key event) [ none ↦ false | some key ↦ str_eq key name ]

-- The last message of a device, and its time.
unfoldable pub last_heard : String → List Moment → Option Device → Option Device
last_heard name [] d = d
last_heard name (asked now ∷ more) d = last_heard name more d
last_heard name (heard now event ∷ more) d = last_heard name more (
    if is_of name event then some (record { info = property "data" event; timestamp = now }) else d)

-- A device that was heard in the last twenty seconds.
abbrev pub recent : (now : ℕ) → Option Device → Option Device
recent now d = passed (λ d. leb (now - d.timestamp) 20000) d

module _ (name : String) where
  -- The entries of the page and the last message agree at every time from a moment on.
  Agrees : (from : ℕ) → Page → Option Device → Type 0
  Agrees from p d = (now : ℕ) → from ≤ now → recent now (lookup name p.devices) ≡ recent now d

  lookup-hear :
      (now : ℕ) (event : Value) (p : Page)
      → lookup name (hear now event p).devices ≡ (
          if is_of name event
          then some (record { info = property "data" event; timestamp = now })
          else lookup name p.devices)
  unfolding hear is_of
  lookup-hear now event p = elim (Option-cases (presence_key event)) [
    | inl e ↦ rw (e, hear, is_of) refl
    | inr (key, e) ↦ rw (e, hear, is_of) (lookup-insert key name _ p.devices)
  ]

  hear-IsUnique :
      (now : ℕ) (event : Value) (p : Page)
      → IsUnique p.devices
      → IsUnique (hear now event p).devices
  unfolding hear
  hear-IsUnique now event p h = elim (Option-cases (presence_key event)) [
    | inl e ↦ rw (e, hear) h
    | inr (key, e) ↦ rw (e, hear) (insert-IsUnique key _ p.devices h)
  ]

  -- What was too old at a time is too old later.
  recent_later : (t now : ℕ) (d : Option Device) → t ≤ now → recent now (recent t d) ≡ recent now d
  unfolding passed
  recent_later t now none le = refl
  recent_later t now (some d) le = ground (arith, le)

  live-IsUnique :
      (more : List Moment) (p : Page) → IsUnique p.devices → IsUnique (live more p).devices
  unfolding live current_devices
  live-IsUnique [] p h = h
  live-IsUnique (heard t event ∷ more) p h =
      live-IsUnique more (hear t event p) (hear-IsUnique t event p h)
  live-IsUnique (asked t ∷ more) p h =
      live-IsUnique more (current_devices t p) (keep_values-IsUnique _ p.devices h)

  live-Agrees :
      (more : List Moment) (from end : ℕ) (p : Page) (d : Option Device)
      → IsOrdered from more end
      → IsUnique p.devices
      → Agrees from p d
      → recent end (lookup name (live more p).devices) ≡ recent end (last_heard name more d)
  unfolding live last_heard Agrees current_devices
  live-Agrees [] from end p d le unique agrees = agrees end le
  live-Agrees (heard t event ∷ more) from end p d (le, ordered) unique agrees =
      live-Agrees more t end (hear t event p) _ ordered (hear-IsUnique t event p unique)
        (λ now later.
          ap (recent now) (lookup-hear t event p) ∙ elim (Bool-cases (is_of name event)) [
            | inl e ↦ rw e refl
            | inr e ↦ rw e (agrees now (omega arith))
          ])
  live-Agrees (asked t ∷ more) from end p d (le, ordered) unique agrees =
      live-Agrees more t end (current_devices t p) d ordered
        (keep_values-IsUnique _ p.devices unique)
        (λ now later.
          ap (recent now) (lookup-keep_values _ name p.devices unique)
          ∙ recent_later t now (lookup name p.devices) later
          ∙ agrees now (omega arith))

-- After any messages and questions in the order of time, `devices` has a device exactly if its last
-- message is at most twenty seconds old, with that message.
pub current_devices-last_heard :
    (team channel name : String) (moments : List Moment) (now : ℕ)
    → IsOrdered 0 moments now
    → lookup name (current_devices now (live moments (start_page team channel))).devices
      ≡ recent now (last_heard name moments none)
unfolding current_devices start_page IsUnique Agrees lookup
current_devices-last_heard team channel name moments now ordered =
    lookup-keep_values _ name (live moments (start_page team channel)).devices
      (live-IsUnique name moments (start_page team channel) tt)
    ∙ live-Agrees name moments 0 now (start_page team channel) none ordered tt (λ t le. refl)
