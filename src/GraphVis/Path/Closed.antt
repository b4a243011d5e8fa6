-- ===== src/GraphVis/Path/Closed.antt =====
-- app/assets/js/oocsi-graphvis.js: what holds whenever the loop of `findPath` tests the queue.
use oocsi_web.Common.{
  ℕ, true, false, ◌||◌, List, [], ◌∷◌, ◌≡◌, ◌≢◌, refl, ◌⊎◌, inl, inr, arith, In, here, there,
  In-cases, Bool-cases, ==_iff, subst,
}
use oocsi_web.GraphVis.Path.{has, Search, scan, start}
use oocsi_web.GraphVis.Path.Trace.{IsKnown}
use oocsi_web.GraphVis.Path.Invariant.{
  IsMarked, scan-IsMarked, has-scan, In-scan, In-scan_new, scan-queued,
}

pub has-In : (vs : List ℕ) (w : ℕ) → In w vs → has vs w ≡ true
has-In [] w h = elim h [ ]
has-In (v ∷ vs) w here = ground (arith, ==_iff v v)
has-In (v ∷ vs) w (there h) = ground (arith, has-In vs w h)

module _ (adjacent : ℕ → List ℕ) (source target : ℕ) where
  -- What holds whenever the loop tests the queue: a visited node waits in the queue, or it is not the
  -- target and its neighbors are visited.
  pub record Inv (s : Search) : Type 0 where
    pub marked : IsMarked adjacent source s
    pub queued : (v : ℕ) → In v s.queue → has s.visited v ≡ true
    pub missed : (v : ℕ) → has s.visited v ≡ true → In v s.queue ⊎ (v ≢ target)
    pub closed :
        (u v : ℕ)
        → has s.visited u ≡ true
        → In v (adjacent u)
        → In u s.queue ⊎ (has s.visited v ≡ true)

  has_source : (v : ℕ) → (v ≡ source) → has (start source).visited v ≡ true
  unfolding start
  has_source v e = ground (arith, ==_iff source v)

  In-start : (v : ℕ) → has (start source).visited v ≡ true → In v (start source).queue
  unfolding start
  In-start v h = let it : source ≡ v = ground (arith, ==_iff source v) in rw it here

  pub Inv-start : Inv (start source)
  unfolding start
  Inv-start = record {
    marked = record {
      tree = tt;
      known_of = λ v h. inl (ground (arith, ==_iff source v));
      of_known = λ v k. has_source v (root v k);
    };
    queued = λ v q. has_source v (only v q);
    missed = λ v h. inl (In-start v h);
    closed = λ u v h near. inl (In-start u h);
  }
    where
      root : (v : ℕ) → IsKnown source [] v → v ≡ source
      root v (inl e) = e
      root v (inr (u, e)) = cc

      only : (v : ℕ) → In v (source ∷ []) → v ≡ source
      only v here = refl
      only v (there m) = elim m [ ]

  unfoldable pub expand : Search → ℕ → List ℕ → Search
  expand s u rest = scan u (adjacent u) (record s { queue = rest })

  -- The state before the loop over the neighbors: what waits in the queue, without its head.
  pub waits :
      (s : Search) (u v : ℕ) (rest : List ℕ)
      → s.queue ≡ u ∷ rest
      → In v s.queue
      → (v ≡ u) ⊎ In v rest
  waits s u v rest e q = In-cases (subst (In v) e q)

  module _ (s : Search) (u : ℕ) (rest : List ℕ) (e : s.queue ≡ u ∷ rest) (h : Inv s) where
    pub new_waits :
        (v : ℕ)
        → has (expand s u rest).visited v ≡ true
        → has s.visited v ≡ false
        → In v (expand s u rest).queue
    unfolding expand
    new_waits v m new =
        In-scan_new u (adjacent u) (record s { queue = rest }) v new
          (ground (arith, has-scan u (adjacent u) (record s { queue = rest }) v))

    pub old_waits : (v : ℕ) → In v rest → In v (expand s u rest).queue
    unfolding expand
    old_waits v q = In-scan u (adjacent u) (record s { queue = rest }) v q

    pub has-expand :
        (v : ℕ) → has (expand s u rest).visited v ≡ (has s.visited v || has (adjacent u) v)
    unfolding expand
    has-expand v = has-scan u (adjacent u) (record s { queue = rest }) v

    missed_after :
        u ≢ target
        → (v : ℕ) → has (expand s u rest).visited v ≡ true
        → In v (expand s u rest).queue ⊎ (v ≢ target)
    missed_after other v m = elim (Bool-cases (has s.visited v)) [
      | inr new ↦ inl (new_waits v m new)
      | inl old ↦ elim (h.missed v old) [
        | inr apart ↦ inr apart
        | inl q ↦ elim (waits s u v rest e q) [
          | inl same ↦ inr (rw same other)
          | inr later ↦ inl (old_waits v later)
        ]
      ]
    ]

    closed_after :
        (w v : ℕ)
        → has (expand s u rest).visited w ≡ true
        → In v (adjacent w)
        → In w (expand s u rest).queue ⊎ (has (expand s u rest).visited v ≡ true)
    closed_after w v m near = elim (Bool-cases (has s.visited w)) [
      | inr new ↦ inl (new_waits w m new)
      | inl old ↦ elim (h.closed w v old near) [
        | inr seen ↦ inr (rw (has-expand v, seen))
        | inl q ↦ elim (waits s u w rest e q) [
          | inl same ↦ inr (
              rw (has-expand v)
                (ground (arith, has-In (adjacent u) v (subst (λ n. In v (adjacent n)) same near))))
          | inr later ↦ inl (old_waits w later)
        ]
      ]
    ]

    pub Inv-expand : u ≢ target → Inv (expand s u rest)
    unfolding expand
    Inv-expand other =
        let s' : Search = record s { queue = rest } in
        record {
          marked =
              scan-IsMarked adjacent source u (adjacent u) s' (h.queued u (rw e here)) (λ v m. m)
                (record {
                  tree = h.marked.tree;
                  known_of = h.marked.known_of;
                  of_known = h.marked.of_known;
                });
          queued = scan-queued u (adjacent u) s' (λ w q. h.queued w (rw e (there q)));
          missed = missed_after other;
          closed = closed_after;
        }
