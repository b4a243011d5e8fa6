-- ===== src/GraphVis/Laws/Dragging.antt =====
-- app/assets/js/oocsi-graphvis.js: what dragging leaves behind.
use oocsi_web.Common.{
  ℕ, zero, suc, true, false, none, List, [], ◌∷◌, ◌++◌, ◌≡◌, ◌≤◌, refl, sym, subst, All-append,
  arith, ◌⊎◌, inl, inr, ◌==◌, ==_iff, map, All, In, here, there, In-append_right, In-cases,
  Bool-cases, is_empty, if◌then◌else◌,
}
use oocsi_web.GraphVis.Dragging.{
  Body, Stage, change, set_target, active_beside, drag_started, dragged, drag_ended, appear, move,
  Drags, empty_stage, appears, ticks, starts, drags, ends,
}

In-without : (a d : ℕ) (xs ys : List ℕ) → In a (xs ++ d ∷ ys) → (a == d) ≡ false → In a (xs ++ ys)
In-without a d [] ys m apart = elim (In-cases m) [
  | inl e ↦ absurd (ground (arith, e, ==_iff a d))
  | inr r ↦ r
]
In-without a d (x ∷ xs) ys m apart = elim (In-cases m) [
  | inl e ↦ subst (λ z. In z (x ∷ xs ++ ys)) (sym e) here
  | inr r ↦ there (In-without a d xs ys r apart)
]

is_empty-at : (before after : List ℕ) (d : ℕ) → is_empty (before ++ d ∷ after) ≡ false
is_empty-at [] after d = refl
is_empty-at (x ∷ before) after d = refl

active_beside-empty :
    (entered : ℕ → ℕ) (d : ℕ) (gs : List ℕ) → is_empty gs ≡ true → active_beside entered d gs ≡ 0
unfolding active_beside
active_beside-empty entered d [] h = refl
active_beside-empty entered d (g ∷ gs) h = absurd (ground (arith, h))

module _ {Coord : Type 0} where
  -- d3 moves the node freely, or a gesture goes on that drags it.
  unfoldable pub IsFree : List ℕ → Body Coord → Type 0
  IsFree gs b = ((b.fx ≡ none) × (b.fy ≡ none)) ⊎ In b.id gs

  -- The simulation is kept warm only while a gesture goes on, and no node is held without one.
  unfoldable pub IsSettled : List ℕ → Stage Coord → Type 0
  IsSettled gs s = All (IsFree gs) s.bodies × (s.alpha_target ≤ (if is_empty gs then 0 else 3))

  change-All :
      (P Q : Body Coord → Type 0) (d : ℕ) (f : Body Coord → Body Coord) (bs : List (Body Coord))
      → All P bs
      → ((b : Body Coord) → P b → (b.id == d) ≡ true → Q (f b))
      → ((b : Body Coord) → P b → (b.id == d) ≡ false → Q b)
      → All Q (change d f bs)
  unfolding change
  change-All P Q d f [] h on off = tt
  change-All P Q d f (b ∷ bs) h on off =
      let rest = change-All P Q d f bs h.1 on off in
      elim (Bool-cases (b.id == d)) [
        | inl e ↦ rw (e, change) (on b h.0 e, rest)
        | inr e ↦ rw (e, change) (off b h.0 e, rest)
      ]

  set_target-bodies : (n t : ℕ) (s : Stage Coord) → (set_target n t s).bodies ≡ s.bodies
  unfolding set_target
  set_target-bodies zero t s = refl
  set_target-bodies (suc n) t s = refl

  set_target-alpha :
      (n t : ℕ) (s : Stage Coord)
      → ((set_target n t s).alpha_target ≡ (if n == 0 then t else s.alpha_target))
  unfolding set_target
  set_target-alpha zero t s = refl
  set_target-alpha (suc n) t s = ground arith

  move-All :
      (gs : List ℕ) (place : Body Coord → Coord × Coord) (bs : List (Body Coord))
      → All (IsFree gs) bs
      → All
          (IsFree gs)
          (map {A = Body Coord} (λ b. record b { x = (place b).0; y = (place b).1 }) bs)
  unfolding IsFree
  move-All gs place [] h = tt
  move-All gs place (b ∷ bs) h = (h.0, move-All gs place bs h.1)

  starts-IsSettled :
      (n : ℕ) (gs : List ℕ) (d : ℕ) (s : Stage Coord)
      → IsSettled gs s
      → IsSettled (d ∷ gs) (drag_started n d s)
  unfolding IsSettled IsFree drag_started
  starts-IsSettled n gs d s (free, warm) =
      let aimed = set_target-bodies n 3 s in
      (
        change-All (IsFree gs) (IsFree (d ∷ gs)) d _ _ (rw aimed free)
            (λ b h e.
              inr (subst (λ z. In z (d ∷ gs)) (sym (ground (arith, e, ==_iff b.id d))) here))
            (λ b h e. elim h [ inl f ↦ inl f | inr m ↦ inr (there m) ]),
        ground (arith, warm, set_target-alpha n 3 s),
      )

  drags-IsSettled :
      (before after : List ℕ) (d : ℕ) (x y : Coord) (s : Stage Coord)
      → IsSettled (before ++ d ∷ after) s
      → IsSettled (before ++ d ∷ after) (dragged x y d s)
  unfolding IsSettled IsFree dragged
  drags-IsSettled before after d x y s (free, warm) =
      let gs : List ℕ = before ++ d ∷ after in
      let held : In d gs = In-append_right before here in
      (
        change-All (IsFree gs) (IsFree gs) d _ s.bodies free
            (λ b h e. inr (subst (λ z. In z gs) (sym (ground (arith, e, ==_iff b.id d))) held))
            (λ b h e. h),
        warm,
      )

  ends-IsSettled :
      (entered : ℕ → ℕ) (before after : List ℕ) (d : ℕ) (s : Stage Coord)
      → IsSettled (before ++ d ∷ after) s
      → IsSettled (before ++ after) (drag_ended (active_beside entered d (before ++ after)) d s)
  unfolding IsSettled IsFree drag_ended
  ends-IsSettled entered before after d s (free, warm) =
      let rest : List ℕ = before ++ after in
      let n : ℕ = active_beside entered d rest in
      let aimed = set_target-bodies n 0 s in
      (
        change-All (IsFree (before ++ d ∷ after)) (IsFree rest) d _ _ (rw aimed free)
            (λ b h e. inl (refl, refl))
            (λ b h e. elim h [ inl f ↦ inl f | inr m ↦ inr (In-without b.id d before after m e) ]),
        ground (
          arith,
          warm,
          is_empty-at before after d,
          set_target-alpha n 0 s,
          active_beside-empty entered d rest,
        ),
      )

  -- Whatever is dragged, by one pointer or by several: when the last gesture has ended the simulation is not
  -- kept warm, and every node is free that no gesture drags.
  pub Drags-IsSettled :
      (entered : ℕ → ℕ) (gs : List ℕ) (s : Stage Coord) → Drags entered gs s → IsSettled gs s
  unfolding IsSettled IsFree appear move
  Drags-IsSettled entered gs s empty_stage = (tt, omega arith)
  Drags-IsSettled entered gs s (appears r id x y) =
      let (free, warm) = Drags-IsSettled entered gs _ r in
      (All-append (IsFree gs) _ _ free (inl (refl, refl), tt), warm)
  Drags-IsSettled entered gs s (ticks r place) =
      let (free, warm) = Drags-IsSettled entered gs _ r in (move-All gs place _ free, warm)
  Drags-IsSettled entered gs s (starts r d) =
      starts-IsSettled _ _ d _ (Drags-IsSettled entered _ _ r)
  Drags-IsSettled entered gs s (drags before after d r e x y) =
      rw e (drags-IsSettled before after d x y _ (rw (← e) (Drags-IsSettled entered _ _ r)))
  Drags-IsSettled entered gs s (ends before after d r e) =
      ends-IsSettled entered before after d _ (rw (← e) (Drags-IsSettled entered _ _ r))
