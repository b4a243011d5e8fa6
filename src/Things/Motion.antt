-- ===== src/Things/Motion.antt =====
-- app/assets/js/things/oocsi-things.js: `requestDeviceMotion`, its promises and its button.
use oocsi_web.Common.{
  ℕ, zero, suc, Bool, true, false, Option, none, some, ◌≡◌, if◌then◌else◌, ◌||◌, is_some,
}

-- `deviceMotionSupported`, the requests that are not answered yet (of the function, and of a button), and
-- the number of elements with a button on the page.
pub record Motion : Type 0 where
  pub supported : Option Bool
  pub requests : ℕ
  pub button_requests : ℕ
  pub buttons : ℕ

-- How a request ends: with the response `granted`, with another, or with a rejection.
pub data Answer : Type 0 where
  granted refused rejected : Answer

abbrev pub is_granted : Answer → Bool
is_granted granted = true
is_granted _ = false

abbrev pub initial_motion : Motion
initial_motion = record { supported = none; requests = 0; button_requests = 0; buttons = 0 }

-- `requestDeviceMotion`, and what it returns; the flag says whether the browser asks for permission.
unfoldable pub request_device_motion : (asks : Bool) → Motion → Motion × Option Bool
request_device_motion asks m =
    if is_some m.supported
    then (m, m.supported)
    else if asks
    then (record m { requests = suc m.requests }, none)
    else (record m { supported = some false }, some false)

-- The answer to a request of the function.
unfoldable pub on_answer : Answer → Motion → Motion
on_answer granted m = record m { supported = some true }
on_answer refused m = m
on_answer rejected m = record m { buttons = suc m.buttons }

-- The answer to a request of a button. The element is removed after a response; where none is left, that
-- throws, and the rejection of its promise has the last word.
unfoldable pub remove_button : ℕ → Motion → Motion
remove_button zero m = record m { supported = some false }
remove_button (suc n) m = record m { buttons = n }

unfoldable pub on_button_answer : Answer → Motion → Motion
unfolding remove_button
on_button_answer granted m = remove_button m.buttons (record m { supported = some true })
on_button_answer refused m = remove_button m.buttons m
on_button_answer rejected m = record m { supported = some false }

-- What happens, and whether a permission was granted before.
pub data MotionReach : (was_granted : Bool) → Motion → Type 0 where
  begin : MotionReach false initial_motion
  ask :
      {g : Bool} {m : Motion}
      → MotionReach g m
      → (asks : Bool) → MotionReach g (request_device_motion asks m).0
  answer :
      {g : Bool} {m : Motion} (n : ℕ)
      → MotionReach g m
      → m.requests ≡ suc n
      → (a : Answer) → MotionReach (g || is_granted a) (on_answer a (record m { requests = n }))
  click :
      {g : Bool} {m : Motion} (n : ℕ)
      → MotionReach g m
      → m.buttons ≡ suc n
      → MotionReach g (record m { button_requests = suc m.button_requests })
  button_answer :
      {g : Bool} {m : Motion} (n : ℕ)
      → MotionReach g m
      → m.button_requests ≡ suc n
      → (a : Answer)
      → MotionReach (g || is_granted a) (on_button_answer a (record m { button_requests = n }))
