-- ===== src/GraphVis/Animation.antt =====
-- app/assets/js/oocsi-graphvis.js: the timeouts of `animateDot` that move a dot, in the order in which they
-- are set.
use oocsi_web.Common.{ℕ, zero, suc, ◌+◌, ◌*◌, ◌/◌, List, [], ◌∷◌, ◌++◌, map}

-- A timeout that moves the dot: its delay, the leg `j` of the path, and `i`, the hundredths of the leg.
pub record Frame : Type 0 where
  pub delay : ℕ
  pub leg : ℕ
  pub hundredths : ℕ

-- `duration` and `interval` of a path with a number of legs, `path.length - 1`.
unfoldable pub duration : (legs : ℕ) → ℕ
duration legs = 800 * legs

unfoldable pub interval : (legs : ℕ) → ℕ
unfolding duration
interval legs = duration legs / (100 * legs)

unfoldable pub frame : (legs j i : ℕ) → Frame
unfolding interval duration
frame legs j i = record {
  delay = i * interval legs + j * duration legs / legs;
  leg = j;
  hundredths = i;
}

-- The numbers of a loop from the first one on.
unfoldable pub count_from : (rounds first : ℕ) → List ℕ
count_from zero i = []
count_from (suc rounds) i = i ∷ count_from rounds (suc i)

-- The loop over `j`, and the loop over `i` from 0 to 100 inside.
unfoldable pub frames_from : (legs rounds j : ℕ) → List Frame
unfolding frame count_from
frames_from legs zero j = []
frames_from legs (suc rounds) j =
    map (frame legs j) (count_from 101 0) ++ frames_from legs rounds (suc j)

unfoldable pub frames : (legs : ℕ) → List Frame
unfolding frames_from
frames legs = frames_from legs legs 0
