-- ===== src/GraphVis/Path/Trace.antt =====
-- app/assets/js/oocsi-graphvis.js: following the parents back from a node that was visited.
use oocsi_web.Common.{
  ap, ℕ, zero, suc, ◌<◌, false, none, some, List, [], ◌∷◌, ◌++◌, ◌≡◌, ◌≢◌, refl, ◌⊎◌, inl, inr,
  arith, In, Bool-cases, Option-cases, subst, ◌==◌, if◌then◌else◌, length, length-append, ==_iff,
  ◌∙◌, sym,
}
use mathlib.Core.List.{append_assoc}
use oocsi_web.GraphVis.Path.{parent, trace}

-- The walks along neighbors from a node, with the nodes that they pass.
pub data Walk (adjacent : ℕ → List ℕ) (source : ℕ) : ℕ → List ℕ → Type 0 where
  stay : Walk adjacent source source (source ∷ [])
  step :
      {u v : ℕ} {path : List ℕ}
      → Walk adjacent source u path
      → In v (adjacent u)
      → Walk adjacent source v (path ++ v ∷ [])

-- The nodes of the tree: the source, and those that have a parent.
abbrev pub IsKnown : ℕ → List (ℕ × ℕ) → ℕ → Type 0
IsKnown source ps v = (v ≡ source) ⊎ ((u : ℕ) × (parent ps v ≡ some u))

-- Every parent was in the tree before its child, and the child is its neighbor.
abbrev pub IsTree : (ℕ → List ℕ) → ℕ → List (ℕ × ℕ) → Type 0
IsTree adjacent source [] = Unit {0}
IsTree adjacent source ((v, u) ∷ ps) =
    (v ≢ source)
    × (parent ps v ≡ none)
    × IsKnown source ps u
    × In v (adjacent u)
    × IsTree adjacent source ps

-- The number of parents between a node of the tree and the source.
abbrev pub depth : List (ℕ × ℕ) → ℕ → ℕ
depth [] v = 0
depth ((w, u) ∷ ps) v = if w == v then suc (depth ps u) else depth ps v

module _ (adjacent : ℕ → List ℕ) (source : ℕ) where
  pub IsKnown-newer :
      (w x v : ℕ) (ps : List (ℕ × ℕ)) → IsKnown source ps v → IsKnown source ((w, x) ∷ ps) v
  IsKnown-newer w x v ps (inl e) = inl e
  IsKnown-newer w x v ps (inr (u, e)) = elim (Bool-cases (w == v)) [
    | inl same ↦ inr (x, rw same)
    | inr other ↦ inr (u, rw other e)
  ]

  parent-IsKnown :
      (v u : ℕ) (ps : List (ℕ × ℕ))
      → IsTree adjacent source ps
      → parent ps v ≡ some u
      → IsKnown source ps u
  parent-IsKnown v u [] t e = cc
  parent-IsKnown v u ((w, x) ∷ ps) t e = elim (Bool-cases (w == v)) [
    | inl same ↦ let it : x ≡ u = ground arith in rw (← it) (IsKnown-newer w x x ps t.2)
    | inr other ↦ IsKnown-newer w x u ps (parent-IsKnown v u ps t.4 (rw other at e))
  ]

  pub not_new :
      (w v : ℕ) (ps : List (ℕ × ℕ))
      → w ≢ source
      → parent ps w ≡ none
      → IsKnown source ps v
      → (w == v) ≡ false
  not_new w v ps h e (inl same) = ground arith
  not_new w v ps h e (inr (u, found)) = elim (Bool-cases (w == v)) [
    | inl same ↦
        let it : w ≡ v = (==_iff w v).0 same in absurd (cc (subst (λ n. parent ps n ≡ none) it e))
    | inr other ↦ other
  ]

  trace_root :
      (fuel v : ℕ) (ps : List (ℕ × ℕ)) (path : List ℕ)
      → parent ps v ≡ none
      → trace (suc fuel) ps v path ≡ some (v ∷ path)
  unfolding trace
  trace_root fuel v ps path e = rw (e, trace)

  trace_up :
      (fuel v u : ℕ) (ps : List (ℕ × ℕ)) (path : List ℕ)
      → parent ps v ≡ some u
      → trace (suc fuel) ps v path ≡ trace fuel ps u (v ∷ path)
  unfolding trace
  trace_up fuel v u ps path e = rw (e, trace)

  parent_older :
      (w x v : ℕ) (ps : List (ℕ × ℕ)) → (w == v) ≡ false → parent ((w, x) ∷ ps) v ≡ parent ps v
  parent_older w x v ps e = rw e

  -- Newer entries do not change the trace of a node that is already in the tree.
  trace-newer :
      (fuel w x v : ℕ) (ps : List (ℕ × ℕ)) (path : List ℕ)
      → w ≢ source
      → parent ps w ≡ none
      → IsTree adjacent source ps
      → IsKnown source ps v
      → trace fuel ((w, x) ∷ ps) v path ≡ trace fuel ps v path
  unfolding trace
  trace-newer zero w x v ps path h e t k = refl
  trace-newer (suc fuel) w x v ps path h e t k =
      let same = parent_older w x v ps (not_new w v ps h e k) in
      elim (Option-cases (parent ps v)) [
        | inl root ↦
            trace_root fuel v ((w, x) ∷ ps) path (same ∙ root)
            ∙ sym (trace_root fuel v ps path root)
        | inr (u, up) ↦
            trace_up fuel v u ((w, x) ∷ ps) path (same ∙ up)
            ∙ trace-newer fuel w x u ps (v ∷ path) h e t (parent-IsKnown v u ps t up)
            ∙ sym (trace_up fuel v u ps path up)
      ]

  pub depth_older :
      (w x v : ℕ) (ps : List (ℕ × ℕ)) → (w == v) ≡ false → depth ((w, x) ∷ ps) v ≡ depth ps v
  depth_older w x v ps e = rw e

  pub depth_child : (w x : ℕ) (ps : List (ℕ × ℕ)) → depth ((w, x) ∷ ps) w ≡ suc (depth ps x)
  depth_child w x ps = ground (arith, ==_iff w w)

  -- A node with its walk from the source, as long as it lies deep, which is what following the
  -- parents gives.
  abbrev pub IsTraced : List (ℕ × ℕ) → ℕ → Type 0
  IsTraced ps v =
      (path : List ℕ) × Walk adjacent source v path
      × (length path ≡ suc (depth ps v))
      × ((fuel : ℕ) (acc : List ℕ) → length ps < fuel → trace fuel ps v acc ≡ some (path ++ acc))

  IsTraced-child :
      (w x : ℕ) (ps : List (ℕ × ℕ))
      → IsTree adjacent source ((w, x) ∷ ps)
      → IsTraced ps x
      → IsTraced ((w, x) ∷ ps) w
  IsTraced-child w x ps (h, e, known, near, t) (path, walk, long, follow) =
      (path ++ w ∷ [], step walk near, longer, back)
    where
      longer : length (path ++ w ∷ []) ≡ suc (depth ((w, x) ∷ ps) w)
      longer = omega (arith, length-append path (w ∷ []), long, depth_child w x ps)

      back :
          (fuel : ℕ) (acc : List ℕ)
          → length ((w, x) ∷ ps) < fuel
          → trace fuel ((w, x) ∷ ps) w acc ≡ some ((path ++ w ∷ []) ++ acc)
      back zero acc small = absurd (omega arith)
      back (suc fuel) acc small =
          trace_up fuel w x ((w, x) ∷ ps) acc (ground arith)
          ∙ trace-newer fuel w x x ps (w ∷ acc) h e t known
          ∙ follow fuel (w ∷ acc) (omega arith)
          ∙ ap some (sym (append_assoc path (w ∷ []) acc))

  IsTraced-older :
      (w x v : ℕ) (ps : List (ℕ × ℕ))
      → IsTree adjacent source ((w, x) ∷ ps)
      → IsKnown source ps v
      → IsTraced ps v
      → IsTraced ((w, x) ∷ ps) v
  IsTraced-older w x v ps (h, e, known, near, t) k (path, walk, long, follow) = (
    path,
    walk,
    long ∙ ap suc (sym (depth_older w x v ps (not_new w v ps h e k))),
    λ fuel acc small. trace-newer fuel w x v ps acc h e t k ∙ follow fuel acc (omega arith),
  )

  IsTraced-source : IsTraced [] source
  IsTraced-source = (source ∷ [], stay, refl, back)
    where
      back : (fuel : ℕ) (acc : List ℕ) → 0 < fuel → trace fuel [] source acc ≡ some (source ∷ acc)
      back zero acc small = absurd (omega arith)
      back (suc fuel) acc small = trace_root fuel source [] acc refl

  -- From every node of the tree the parents lead back to the source along a walk.
  pub trace-Walk :
      (v : ℕ) (ps : List (ℕ × ℕ)) → IsTree adjacent source ps → IsKnown source ps v → IsTraced ps v
  trace-Walk v [] t (inl e) = subst (IsTraced []) (sym e) IsTraced-source
  trace-Walk v [] t (inr (u, e)) = cc
  trace-Walk v ((w, x) ∷ ps) t k = elim (Bool-cases (w == v)) [
    | inl same ↦
        subst (IsTraced ((w, x) ∷ ps)) ((==_iff w v).0 same)
          (IsTraced-child w x ps t (trace-Walk x ps t.4 t.2))
    | inr other ↦
        let known = older k other in IsTraced-older w x v ps t known (trace-Walk v ps t.4 known)
  ]
    where
      older : IsKnown source ((w, x) ∷ ps) v → (w == v) ≡ false → IsKnown source ps v
      older (inl e) other = inl e
      older (inr (u, e)) other = inr (u, sym (parent_older w x v ps other) ∙ e)
