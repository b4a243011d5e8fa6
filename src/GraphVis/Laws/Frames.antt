-- ===== src/GraphVis/Laws/Frames.antt =====
-- app/assets/js/oocsi-graphvis.js: a dot moves on steadily until it is removed.
use oocsi_web.Common.{
  ℕ, zero, suc, ◌+◌, ◌*◌, ◌/◌, ◌≤◌, ◌<◌, List, [], ◌∷◌, ◌++◌, map, ◌≡◌, ◌∙◌, ap, sym, arith, All,
  All-append,
}
use oocsi_web.GraphVis.Animation.{Frame, duration, interval, frame, count_from, frames_from, frames}
use native.Mathlib.Nat.{mul-div_cancel, mul_assoc}

-- No frame is set to come before the one set before it.
unfoldable pub Climbs : (earlier : ℕ) → List Frame → Type 0
Climbs t [] = Unit {0}
Climbs t (f ∷ fs) = (t ≤ f.delay) × Climbs f.delay fs

-- A frame comes at 800 milliseconds for each leg before and 8 for each hundredth, and not after the
-- removal of the dot.
abbrev pub IsOnTime : (legs : ℕ) → Frame → Type 0
IsOnTime legs f = (f.delay ≡ 800 * f.leg + 8 * f.hundredths) × (f.delay ≤ duration legs)

interval_lem : (legs : ℕ) → 0 < legs → interval legs ≡ 8
unfolding interval duration
interval_lem legs some_legs =
    let product : 800 * legs ≡ 8 * (100 * legs) = omega arith in
    ap (λ n. n / (100 * legs)) product ∙ mul-div_cancel 8 (omega arith)

legs_before : (legs j : ℕ) → 0 < legs → j * duration legs / legs ≡ 800 * j
unfolding duration
legs_before legs j some_legs =
    let product : j * (800 * legs) ≡ (j * 800) * legs = sym (mul_assoc j 800 legs) in
    ap (λ n. n / legs) product ∙ mul-div_cancel (j * 800) some_legs ∙ (omega arith)

frame-delay : (legs j i : ℕ) → 0 < legs → (frame legs j i).delay ≡ 800 * j + 8 * i
unfolding frame
frame-delay legs j i some_legs =
    ap (λ n. i * n + j * duration legs / legs) (interval_lem legs some_legs)
    ∙ omega (arith, legs_before legs j some_legs)

Climbs-earlier : (s t : ℕ) (fs : List Frame) → s ≤ t → Climbs t fs → Climbs s fs
unfolding Climbs
Climbs-earlier s t [] le c = tt
Climbs-earlier s t (f ∷ fs) le (first, c) = (omega (arith, le, first), c)

module _ (legs : ℕ) (some_legs : 0 < legs) where
  leg-Climbs :
      (j rounds i t : ℕ) (rest : List Frame)
      → i + rounds ≡ 101
      → t ≤ 800 * j + 8 * i
      → t ≤ 800 * suc j
      → Climbs (800 * suc j) rest
      → Climbs t (map (frame legs j) (count_from rounds i) ++ rest)
  unfolding count_from Climbs
  leg-Climbs j zero i t rest e le less c = Climbs-earlier t (800 * suc j) rest less c
  leg-Climbs j (suc rounds) i t rest e le less c =
      let comes = frame-delay legs j i some_legs in
      (
        omega (arith, comes, le),
        leg-Climbs j rounds (suc i) (frame legs j i).delay rest (omega (arith, e))
            (omega (arith, comes)) (omega (arith, comes, e)) c,
      )

  frames_from-Climbs : (rounds j : ℕ) → Climbs (800 * j) (frames_from legs rounds j)
  unfolding frames_from Climbs
  frames_from-Climbs zero j = tt
  frames_from-Climbs (suc rounds) j =
      leg-Climbs j 101 0 (800 * j) (frames_from legs rounds (suc j)) (omega arith) (omega arith)
        (omega arith) (frames_from-Climbs rounds (suc j))

  leg-IsOnTime :
      (j rounds i : ℕ)
      → suc j ≤ legs
      → i + rounds ≡ 101
      → All (IsOnTime legs) (map (frame legs j) (count_from rounds i))
  unfolding count_from frame duration
  leg-IsOnTime j zero i le e = tt
  leg-IsOnTime j (suc rounds) i le e =
      let comes = frame-delay legs j i some_legs in
      ((comes, omega (arith, comes, le, e)), leg-IsOnTime j rounds (suc i) le (omega (arith, e)))

  frames_from-IsOnTime :
      (rounds j : ℕ) → j + rounds ≤ legs → All (IsOnTime legs) (frames_from legs rounds j)
  unfolding frames_from
  frames_from-IsOnTime zero j le = tt
  frames_from-IsOnTime (suc rounds) j le =
      All-append _ (map (frame legs j) (count_from 101 0)) _
        (leg-IsOnTime j 101 0 (omega (arith, le)) (omega arith))
        (frames_from-IsOnTime rounds (suc j) (omega (arith, le)))

  -- On a path with one leg or more the timeouts that move a dot come in the order in which they are set,
  -- each after 800 milliseconds for every leg before and 8 for every hundredth of its own, and none after the
  -- dot is removed.
  pub frames-IsOnTime : Climbs 0 (frames legs) × All (IsOnTime legs) (frames legs)
  unfolding frames
  frames-IsOnTime = (
    Climbs-earlier 0 (800 * 0) _ (omega arith) (frames_from-Climbs legs 0),
    frames_from-IsOnTime legs 0 (omega arith),
  )
