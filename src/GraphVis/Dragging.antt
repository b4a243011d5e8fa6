-- ===== src/GraphVis/Dragging.antt =====
-- app/assets/js/oocsi-graphvis.js: dragging a node with the mouse or with fingers. What d3 keeps of a node is
-- its `Body`; the alpha target of the simulation is counted in tenths.
use oocsi_web.Common.{
  ℕ, zero, suc, Option, none, some, List, [], ◌∷◌, ◌++◌, ◌≡◌, if◌then◌else◌, ◌==◌, map,
}

-- The fields that d3 and the drag give to a node, with coordinates of any kind.
pub record Body (Coord : Type 0) : Type 0 where
  pub id : ℕ
  pub x : Coord
  pub y : Coord
  pub fx : Option Coord
  pub fy : Option Coord

pub record Stage (Coord : Type 0) : Type 0 where
  pub bodies : List (Body Coord)
  pub alpha_target : ℕ

-- `event.active` at the start and the end of a gesture on `d`, where the gestures `gs` go on besides.
unfoldable pub active_beside : (entered : ℕ → ℕ) → (d : ℕ) → (gs : List ℕ) → ℕ
active_beside entered d [] = 0
active_beside entered d (g ∷ gs) =
    let rest = active_beside entered d gs in if entered g == entered d then suc rest else rest

module _ {Coord : Type 0} where
  -- A write to the fields of the node `d`; every node has an id of its own.
  unfoldable pub change :
      (d : ℕ) → (Body Coord → Body Coord) → List (Body Coord) → List (Body Coord)
  change d f [] = []
  change d f (b ∷ bs) = let rest = change d f bs in if b.id == d then f b ∷ rest else b ∷ rest

  -- `if (!event.active) simulation.alphaTarget(…)`.
  unfoldable pub set_target : (active target : ℕ) → Stage Coord → Stage Coord
  set_target zero target s = record s { alpha_target = target }
  set_target (suc n) target s = s

  unfoldable pub drag_started : (active d : ℕ) → Stage Coord → Stage Coord
  unfolding change set_target
  drag_started active d s =
      let aimed = set_target active 3 s in
      record aimed {
        bodies = change d (λ b. record b { fx = some b.x; fy = some b.y }) aimed.bodies;
      }

  unfoldable pub dragged : (x y : Coord) → (d : ℕ) → Stage Coord → Stage Coord
  unfolding change
  dragged x y d s = record s {
    bodies = change d (λ b. record b { fx = some x; fy = some y }) s.bodies;
  }

  unfoldable pub drag_ended : (active d : ℕ) → Stage Coord → Stage Coord
  unfolding change set_target
  drag_ended active d s =
      let aimed = set_target active 0 s in
      record aimed { bodies = change d (λ b. record b { fx = none; fy = none }) aimed.bodies }

  -- A node that a message adds; d3 gives it a place.
  unfoldable pub appear : (id : ℕ) → (x y : Coord) → Stage Coord → Stage Coord
  appear id x y s = record s {
    bodies = s.bodies ++ record { id = id; x = x; y = y; fx = none; fy = none } ∷ [];
  }

  -- A tick of the simulation moves the nodes.
  unfoldable pub move : (Body Coord → Coord × Coord) → Stage Coord → Stage Coord
  move place s = record s {
    bodies = map {A = Body Coord} (λ b. record b { x = (place b).0; y = (place b).1 }) s.bodies;
  }

  -- What can happen to the stage, with the nodes of the gestures that go on; two fingers may drag one node.
  -- Each `update` makes a behavior of its own for the circles that it adds, and d3 counts in `active`
  -- the other gestures of the same behavior: `entered` is the number of the update that added a node's circle.
  pub data Drags (entered : ℕ → ℕ) : List ℕ → Stage Coord → Type 0 where
    empty_stage : Drags entered [] (record { bodies = []; alpha_target = 0 })
    appears :
        {gs : List ℕ} {s : Stage Coord}
        → Drags entered gs s
        → (id : ℕ) (x y : Coord) → Drags entered gs (appear id x y s)
    ticks :
        {gs : List ℕ} {s : Stage Coord}
        → Drags entered gs s
        → (place : Body Coord → Coord × Coord) → Drags entered gs (move place s)
    starts :
        {gs : List ℕ} {s : Stage Coord}
        → Drags entered gs s
        → (d : ℕ) → Drags entered (d ∷ gs) (drag_started (active_beside entered d gs) d s)
    drags :
        {gs : List ℕ} {s : Stage Coord} (before after : List ℕ) (d : ℕ)
        → Drags entered gs s
        → gs ≡ before ++ d ∷ after
        → (x y : Coord) → Drags entered gs (dragged x y d s)
    ends :
        {gs : List ℕ} {s : Stage Coord} (before after : List ℕ) (d : ℕ)
        → Drags entered gs s
        → gs ≡ before ++ d ∷ after
        → Drags entered
            (before ++ after)
            (drag_ended (active_beside entered d (before ++ after)) d s)
