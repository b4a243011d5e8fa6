-- ===== src/Things/Laws/Granted.antt =====
-- app/assets/js/things/oocsi-things.js: what the page believes of the motion sensor.
use oocsi_web.Common.{Bool, true, some, ◌≡◌, arith}
use oocsi_web.Things.Motion.{
  Motion, request_device_motion, on_answer, remove_button, on_button_answer, MotionReach, begin,
  ask, answer, click, button_answer,
}

-- Whatever is asked and answered, the page takes the motion sensor for supported only if a permission
-- was granted before.
pub MotionReach-granted :
    {g : Bool} {m : Motion} → MotionReach g m → m.supported ≡ some true → g ≡ true
unfolding request_device_motion on_answer on_button_answer remove_button
MotionReach-granted begin h = ground (arith, h)
MotionReach-granted (ask r asks) h = ground (arith, h, MotionReach-granted r)
MotionReach-granted (answer n r e a) h = ground (arith, h, MotionReach-granted r)
MotionReach-granted (click n r e) h = MotionReach-granted r h
MotionReach-granted (button_answer n r e a) h = ground (arith, h, MotionReach-granted r)
