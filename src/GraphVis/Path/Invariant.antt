-- ===== src/GraphVis/Path/Invariant.antt =====
-- app/assets/js/oocsi-graphvis.js: what the inner loop of `findPath` does to the queue, the visited
-- nodes and the parents.
use oocsi_web.Common.{
  ℕ, suc, ◌+◌, ◌≤◌, true, false, ◌||◌, none, List, [], ◌∷◌, ◌++◌, ◌≡◌, inl, inr, arith, In, here,
  there, Bool-cases, Option-cases, ◌==◌, length, ==_iff, subst, if◌then◌else◌, In-concat,
  In-append_left, In-append_right, length-append,
}
use oocsi_web.GraphVis.Path.{has, parent, Search, offer, scan}
use oocsi_web.GraphVis.Path.Trace.{IsTree, IsKnown, IsKnown-newer}

pub has-offer :
    (current v w : ℕ) (s : Search) → has (offer current v s).visited w ≡ (has s.visited w || v == w)
unfolding offer
has-offer current v w s = ground (arith, ==_iff v w)

In-offer : (current v : ℕ) (s : Search) (w : ℕ) → In w s.queue → In w (offer current v s).queue
unfolding offer
In-offer current v s w h = elim (Bool-cases (has s.visited v)) [
  | inl old ↦ rw (old, offer) h
  | inr new ↦ rw (new, offer) (In-append_left (v ∷ []) h)
]

In-offer_self :
    (current v : ℕ) (s : Search) → has s.visited v ≡ false → In v (offer current v s).queue
unfolding offer
In-offer_self current v s new = rw (new, offer) (In-append_right s.queue here)

offer_old : (current v : ℕ) (s : Search) → has s.visited v ≡ true → offer current v s ≡ s
unfolding offer
offer_old current v s old = rw (old, offer)

offer_new :
    (current v : ℕ) (s : Search)
    → has s.visited v ≡ false
    → (offer current v s).queue ≡ s.queue ++ v ∷ []
unfolding offer
offer_new current v s new = rw (new, offer)

offer-queued :
    (current v : ℕ) (s : Search)
    → ((w : ℕ) → In w s.queue → has s.visited w ≡ true)
    → (w : ℕ) → In w (offer current v s).queue
    → has (offer current v s).visited w ≡ true
offer-queued current v s h w q = elim (Bool-cases (has s.visited v)) [
  | inl old ↦
      let q' : In w s.queue = subst (λ t. In w t.queue) (offer_old current v s old) q in
      rw (has-offer current v w s, h w q')
  | inr new ↦ elim (In-concat s.queue (subst (In w) (offer_new current v s new) q)) [
    | inl q' ↦ rw (has-offer current v w s, h w q')
    | inr e ↦ rw (has-offer current v w s) (ground (arith, ==_iff v w))
  ]
]

module _ (adjacent : ℕ → List ℕ) (source : ℕ) where
  -- The parents form a tree whose nodes are the visited ones.
  pub record IsMarked (s : Search) : Type 0 where
    pub tree : IsTree adjacent source s.parents
    pub known_of : (v : ℕ) → has s.visited v ≡ true → IsKnown source s.parents v
    pub of_known : (v : ℕ) → IsKnown source s.parents v → has s.visited v ≡ true

  offer-IsMarked :
      (current v : ℕ) (s : Search)
      → has s.visited current ≡ true
      → In v (adjacent current)
      → IsMarked s
      → IsMarked (offer current v s)
  unfolding offer
  offer-IsMarked current v s seen near m = elim (Bool-cases (has s.visited v)) [
    | inl old ↦ rw (old, offer) m
    | inr new ↦
        rw (new, offer)
          (record {
            tree = (
              λ e. cc (m.of_known v (inl e)),
              no_parent new,
              m.known_of current seen,
              near,
              m.tree,
            );
            known_of = λ w h. grown w (ground arith);
            of_known = λ w k. ground (arith, shrunk w k);
          })
  ]
    where
      no_parent : has s.visited v ≡ false → parent s.parents v ≡ none
      no_parent new = elim (Option-cases (parent s.parents v)) [
        | inl e ↦ e
        | inr (u, e) ↦ cc (m.of_known v (inr (u, e)))
      ]

      grown :
          (w : ℕ) → (v == w || has s.visited w) ≡ true → IsKnown source ((v, current) ∷ s.parents) w
      grown w h = elim (Bool-cases (v == w)) [
        | inl same ↦ inr (current, rw same)
        | inr other ↦
            IsKnown-newer adjacent source v current w s.parents (m.known_of w (rw other at h))
      ]

      shrunk :
          (w : ℕ) → IsKnown source ((v, current) ∷ s.parents) w → (v == w || has s.visited w) ≡ true
      shrunk w (inl e) = ground (arith, m.of_known w (inl e))
      shrunk w (inr (u, e)) = elim (Bool-cases (v == w)) [
        | inl same ↦ rw same
        | inr other ↦ rw other (m.of_known w (inr (u, rw other at e)))
      ]

  pub scan-IsMarked :
      (current : ℕ) (vs : List ℕ) (s : Search)
      → has s.visited current ≡ true
      → ((v : ℕ) → In v vs → In v (adjacent current))
      → IsMarked s
      → IsMarked (scan current vs s)
  unfolding scan
  scan-IsMarked current [] s seen near m = m
  scan-IsMarked current (v ∷ vs) s seen near m =
      scan-IsMarked current vs (offer current v s) (rw (has-offer current v current s, seen))
        (λ w h. near w (there h)) (offer-IsMarked current v s seen (near v here) m)

-- Exactly the nodes visited before and the neighbors that were offered are visited.
pub has-scan :
    (current : ℕ) (vs : List ℕ) (s : Search) (w : ℕ)
    → has (scan current vs s).visited w ≡ (has s.visited w || has vs w)
unfolding scan
has-scan current [] s w = ground arith
has-scan current (v ∷ vs) s w =
    ground (arith, has-scan current vs (offer current v s) w, has-offer current v w s)

pub In-scan :
    (current : ℕ) (vs : List ℕ) (s : Search) (w : ℕ) → In w s.queue → In w (scan current vs s).queue
unfolding scan
In-scan current [] s w h = h
In-scan current (v ∷ vs) s w h = In-scan current vs (offer current v s) w (In-offer current v s w h)

pub In-scan_new :
    (current : ℕ) (vs : List ℕ) (s : Search) (w : ℕ)
    → has s.visited w ≡ false
    → has vs w ≡ true
    → In w (scan current vs s).queue
unfolding scan
In-scan_new current [] s w new h = cc
In-scan_new current (v ∷ vs) s w new h = elim (Bool-cases (v == w)) [
  | inl same ↦ In-scan current vs (offer current v s) w (
      let it : v ≡ w = (==_iff v w).0 same in
      subst (λ n. In n (offer current v s).queue) it (In-offer_self current v s (rw it new)))
  | inr other ↦
      In-scan_new current vs (offer current v s) w (rw (has-offer current v w s, new, other))
        (rw other at h)
]

-- Whatever is queued is visited.
pub scan-queued :
    (current : ℕ) (vs : List ℕ) (s : Search)
    → ((w : ℕ) → In w s.queue → has s.visited w ≡ true)
    → (w : ℕ) → In w (scan current vs s).queue
    → has (scan current vs s).visited w ≡ true
unfolding scan
scan-queued current [] s h w q = h w q
scan-queued current (v ∷ vs) s h w q =
    scan-queued current vs (offer current v s) (offer-queued current v s h) w q

-- The nodes of a list that are not visited.
unfoldable pub unseen : (universe visited : List ℕ) → ℕ
unseen [] visited = 0
unseen (u ∷ us) visited = if has visited u then unseen us visited else suc (unseen us visited)

unseen-visit : (us vs : List ℕ) (v : ℕ) → unseen us (v ∷ vs) ≤ unseen us vs
unfolding unseen
unseen-visit [] vs v = omega arith
unseen-visit (u ∷ us) vs v = ground (arith, unseen-visit us vs v)

unseen-visit_new :
    (us vs : List ℕ) (v : ℕ) → In v us → has vs v ≡ false → suc (unseen us (v ∷ vs)) ≤ unseen us vs
unfolding unseen
unseen-visit_new [] vs v h new = elim h [ ]
unseen-visit_new (u ∷ us) vs v here new = ground (arith, unseen-visit us vs u)
unseen-visit_new (u ∷ us) vs v (there h) new = ground (arith, unseen-visit_new us vs v h new)

offer-work :
    (universe : List ℕ) (current v : ℕ) (s : Search)
    → In v universe
    → unseen universe (offer current v s).visited + length (offer current v s).queue
      ≤ unseen universe s.visited + length s.queue
unfolding offer
offer-work universe current v s h =
    ground (arith, unseen-visit_new universe s.visited v h, length-append s.queue (v ∷ []))

-- A node is queued only when it is first visited, so the work that is left does not grow.
pub scan-work :
    (universe : List ℕ) (current : ℕ) (vs : List ℕ) (s : Search)
    → ((v : ℕ) → In v vs → In v universe)
    → unseen universe (scan current vs s).visited + length (scan current vs s).queue
      ≤ unseen universe s.visited + length s.queue
unfolding scan
scan-work universe current [] s h = omega arith
scan-work universe current (v ∷ vs) s h = omega (
  arith,
  offer-work universe current v s (h v here),
  scan-work universe current vs (offer current v s) (λ w m. h w (there m)),
)
