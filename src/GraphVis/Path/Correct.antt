-- ===== src/GraphVis/Path/Correct.antt =====
-- app/assets/js/oocsi-graphvis.js: `findPath` ends, and its path is a walk from the source to the
-- target, empty only where there is none.
use oocsi_web.Common.{
  ℕ, zero, suc, ◌+◌, ◌<◌, true, false, some, List, [], ◌∷◌, ◌≡◌, ◌≢◌, refl, ◌⊎◌, inl, inr, arith,
  In, here, Bool-cases, ◌==◌, length, ==_iff, ◌∙◌, subst, List-cases, ap,
}
use mathlib.Core.List.{append-nil}
use oocsi_web.GraphVis.Path.{has, Search, trace, search}
use oocsi_web.GraphVis.Path.Trace.{Walk, stay, step, depth, trace-Walk}
use oocsi_web.GraphVis.Path.Invariant.{unseen, scan-work}
use oocsi_web.GraphVis.Path.Closed.{Inv, Inv-expand, expand}

module _ (adjacent : ℕ → List ℕ) (source target : ℕ) where
  -- With an empty queue every walk from the source ends in a visited node that is not the target.
  exhausted :
      (s : Search)
      → Inv adjacent source target s
      → s.queue ≡ []
      → (v : ℕ) (path : List ℕ) → Walk adjacent source v path
      → has s.visited v ≡ true
  exhausted s h e v path stay = h.marked.of_known source (inl refl)
  exhausted s h e v path (step {u} {path = path'} walk near) =
      elim (h.closed u v (exhausted s h e u path' walk) near) [
        | inl q ↦ absurd (nothing (subst (In u) e q))
        | inr seen ↦ seen
      ]
    where
      nothing : {w : ℕ} → In w [] → ⊥
      nothing m = elim m [ ]

  -- A walk to the target, or nothing where there is none.
  abbrev pub IsFound : List ℕ → Type 0
  IsFound path =
      Walk adjacent source target path
      ⊎ ((path ≡ []) × ((walk : List ℕ) → ¬ Walk adjacent source target walk))

  none_left :
      (s : Search)
      → Inv adjacent source target s
      → s.queue ≡ []
      → (walk : List ℕ) → ¬ Walk adjacent source target walk
  none_left s h e walk w = elim (h.missed target (exhausted s h e target walk w)) [
    | inl q ↦ nothing (subst (In target) e q)
    | inr apart ↦ apart refl
  ]
    where
      nothing : {v : ℕ} → In v [] → ⊥
      nothing m = elim m [ ]

  -- The target is at the head of the queue: the parents give the path.
  pub found :
      (s : Search) (rest : List ℕ)
      → Inv adjacent source target s
      → s.queue ≡ target ∷ rest
      → (path : List ℕ) × (trace (suc (length s.parents)) s.parents target [] ≡ some path)
        × Walk adjacent source target path
        × (length path ≡ suc (depth s.parents target))
  found s rest h e =
      let known = h.marked.known_of target (h.queued target (rw e here)) in
      let (path, walk, long, back) =
        trace-Walk adjacent source target s.parents h.marked.tree known in
      (path, back (suc (length s.parents)) [] (omega arith) ∙ ap some (append-nil path), walk, long)

  pub search_empty :
      (fuel : ℕ) (s : Search) → s.queue ≡ [] → search (suc fuel) adjacent target s ≡ some []
  unfolding search
  search_empty fuel s e = rw (e, search)

  pub search_found :
      (fuel u : ℕ) (rest : List ℕ) (s : Search)
      → s.queue ≡ u ∷ rest
      → (u == target) ≡ true
      → search (suc fuel) adjacent target s ≡ trace (suc (length s.parents)) s.parents target []
  unfolding search
  search_found fuel u rest s e hit = rw (e, search, hit)

  pub search_more :
      (fuel u : ℕ) (rest : List ℕ) (s : Search)
      → s.queue ≡ u ∷ rest
      → (u == target) ≡ false
      → search (suc fuel) adjacent target s
        ≡ search fuel adjacent target (expand adjacent source target s u rest)
  unfolding search expand
  search_more fuel u rest s e miss = rw (e, search, miss)

  pub search-IsFound :
      (universe : List ℕ)
      → ((u v : ℕ) → In v (adjacent u) → In v universe)
      → (fuel : ℕ) (s : Search) → Inv adjacent source target s
      → unseen universe s.visited + length s.queue < fuel
      → (path : List ℕ) × (search fuel adjacent target s ≡ some path) × IsFound path
  unfolding expand
  search-IsFound universe inside zero s h enough = absurd (omega arith)
  search-IsFound universe inside (suc fuel) s h enough = elim (List-cases s.queue) [
    | inl e ↦ ([], search_empty fuel s e, inr (refl, none_left s h e))
    | inr (u, rest, e) ↦ elim (Bool-cases (u == target)) [
      | inl hit ↦
          let it : u ≡ target = (==_iff u target).0 hit in
          let (path, traced, walk, long) = found s rest h (e ∙ rw it) in
          (path, search_found fuel u rest s e hit ∙ traced, inl walk)
      | inr miss ↦
          let apart : u ≢ target = λ it. ground arith in
          let less : unseen universe (expand adjacent source target s u rest).visited
                + length (expand adjacent source target s u rest).queue
              < fuel =
            expand-work u rest e in
          let (path, result, answer) =
            search-IsFound universe inside fuel (expand adjacent source target s u rest)
              (Inv-expand adjacent source target s u rest e h apart) less in
          (path, search_more fuel u rest s e miss ∙ result, answer)
    ]
  ]
    where
      expand-work :
          (u : ℕ) (rest : List ℕ)
          → s.queue ≡ u ∷ rest
          → unseen universe (expand adjacent source target s u rest).visited
              + length (expand adjacent source target s u rest).queue
            < fuel
      expand-work u rest e = omega (
        arith,
        ap length e,
        scan-work universe u (adjacent u) (record s { queue = rest }) (λ v m. inside u v m),
      )
