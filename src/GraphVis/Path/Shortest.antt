-- ===== src/GraphVis/Path/Shortest.antt =====
-- app/assets/js/oocsi-graphvis.js: no route is shorter than the path of `findPath`.
use oocsi_web.Common.{
  ℕ, zero, suc, ◌+◌, ◌*◌, ◌≤◌, true, some, List, [], ◌∷◌, ◌≡◌, ◌≢◌, ◌∙◌, refl, sym, subst, ap, inl,
  inr, ◌⊎◌, arith, In, here, there, Bool-cases, List-cases, ◌==◌, ==_iff, length, length-append,
}
use oocsi_web.GraphVis.Path.{Link, has, Search, search, start, find_path, neighbors}
use oocsi_web.GraphVis.Path.Trace.{Walk, stay, step, IsTree, depth, depth_older}
use oocsi_web.GraphVis.Path.Levels.{IsOrdered, IsMid, scan-IsMid, depth-scan}
use oocsi_web.GraphVis.Path.Closed.{
  Inv, Inv-start, Inv-expand, expand, waits, new_waits, old_waits, has-expand, has-In,
}
use oocsi_web.GraphVis.Path.Correct.{found, search_empty, search_found, search_more}
use oocsi_web.GraphVis.Path.Routes.{Route, Route-Walk}

module _ (adjacent : ℕ → List ℕ) (source target : ℕ) where
  -- The queue goes down by levels, and a node that was taken off it has its neighbors at most one level
  -- below.
  record Level (s : Search) : Type 0 where
    pub ordered : IsOrdered s.parents s.queue
    pub near_top :
        (u : ℕ) (rest : List ℕ)
        → s.queue ≡ u ∷ rest
        → (v : ℕ) → has s.visited v ≡ true
        → depth s.parents v ≤ suc (depth s.parents u)
    pub closed :
        (u v : ℕ)
        → has s.visited u ≡ true
        → In v (adjacent u)
        → In u s.queue ⊎ ((has s.visited v ≡ true) × (depth s.parents v ≤ suc (depth s.parents u)))

  Level-start : Level (start source)
  unfolding start IsOrdered
  Level-start = record {
    ordered = (λ y m. elim m [ ], tt);
    near_top = λ u rest e v seen. omega arith;
    closed =
        λ u v seen near. let it : source ≡ u = ground (arith, ==_iff source u) in inl (rw it here);
  }

  module _ (s : Search) (u : ℕ) (rest : List ℕ) (e : s.queue ≡ u ∷ rest)
      (h : Inv adjacent source target s) (l : Level s) where
    mid : IsMid u (depth s.parents u) (expand adjacent source target s u rest)
    unfolding expand IsOrdered
    mid =
        let (first, o) = subst (IsOrdered s.parents) e l.ordered in
        scan-IsMid u (depth s.parents u) (adjacent u) (record s { queue = rest })
          (record {
            current_visited = h.queued u (rw e here);
            level = refl;
            queued = λ w q. h.queued w (rw e (there q));
            ordered = o;
            lower = first;
            upper = l.near_top u rest e;
          })

    kept :
        (w : ℕ)
        → has s.visited w ≡ true
        → depth (expand adjacent source target s u rest).parents w ≡ depth s.parents w
    unfolding expand
    kept w seen = depth-scan u (adjacent u) w (record s { queue = rest }) seen

    closed_after :
        (w v : ℕ)
        → has (expand adjacent source target s u rest).visited w ≡ true
        → In v (adjacent w)
        → In w (expand adjacent source target s u rest).queue
          ⊎ ((has (expand adjacent source target s u rest).visited v ≡ true)
              × (depth (expand adjacent source target s u rest).parents v
                  ≤ suc (depth (expand adjacent source target s u rest).parents w)))
    closed_after w v m near = elim (Bool-cases (has s.visited w)) [
      | inr new ↦ inl (new_waits adjacent source target s u rest e h w m new)
      | inl old ↦ elim (l.closed w v old near) [
        | inr (seen, le) ↦ inr (
          rw (has-expand adjacent source target s u rest e h v, seen),
          omega (arith, kept v seen, kept w old, le),
        )
        | inl q ↦ elim (waits adjacent source target s u w rest e q) [
          | inl same ↦
              let seen : has (expand adjacent source target s u rest).visited v ≡ true =
                rw (has-expand adjacent source target s u rest e h v) (
                  ground
                    (arith, has-In (adjacent u) v (subst (λ n. In v (adjacent n)) same near))) in
              inr (
                seen,
                omega (
                  arith,
                  mid.upper v seen,
                  mid.level,
                  ap (depth (expand adjacent source target s u rest).parents) same,
                ),
              )
          | inr later ↦ inl (old_waits adjacent source target s u rest e h w later)
        ]
      ]
    ]

    Level-expand : Level (expand adjacent source target s u rest)
    Level-expand = record {
      ordered = mid.ordered;
      near_top = λ x more f v seen. omega (arith, mid.upper v seen, mid.lower x (rw f here));
      closed = closed_after;
    }

  depth-source : (ps : List (ℕ × ℕ)) → IsTree adjacent source ps → depth ps source ≡ 0
  depth-source [] t = refl
  depth-source ((w, x) ∷ ps) t =
      depth_older adjacent source w x source ps (ground (arith, ==_iff w source, t.0))
      ∙ depth-source ps t.4

  -- A node that a walk reaches is visited and no deeper than the walk is long, or a node waits that lies
  -- less deep.
  Walk-depth :
      (s : Search)
      → Inv adjacent source target s
      → Level s
      → (v : ℕ) (path : List ℕ) → Walk adjacent source v path
      → ((has s.visited v ≡ true) × (suc (depth s.parents v) ≤ length path))
        ⊎ ((u : ℕ) × In u s.queue × (suc (suc (depth s.parents u)) ≤ length path))
  Walk-depth s h l v path stay =
      inl (h.marked.of_known source (inl refl), omega (arith, depth-source s.parents h.marked.tree))
  Walk-depth s h l v path (step {u} {path = before} walk near) =
      let longer = length-append before (v ∷ []) in
      elim (Walk-depth s h l u before walk) [
        | inr (w, q, le) ↦ inr (w, q, omega (arith, longer, le))
        | inl (seen, le) ↦ elim (l.closed u v seen near) [
          | inl q ↦ inr (u, q, omega (arith, longer, le))
          | inr (there_too, less) ↦ inl (there_too, omega (arith, longer, le, less))
        ]
      ]

  -- The head of the queue lies at least as deep as no walk to it is long.
  head-shortest :
      (s : Search) (rest : List ℕ)
      → Inv adjacent source target s
      → Level s
      → s.queue ≡ target ∷ rest
      → (path : List ℕ) → Walk adjacent source target path
      → suc (depth s.parents target) ≤ length path
  unfolding IsOrdered
  head-shortest s rest h l e path walk =
      let (first, o) = subst (IsOrdered s.parents) e l.ordered in
      elim (Walk-depth s h l target path walk) [
        | inl (seen, le) ↦ le
        | inr (u, q, le) ↦ elim (waits adjacent source target s target u rest e q) [
          | inl same ↦ omega (arith, le, ap (depth s.parents) same)
          | inr later ↦ omega (arith, le, first u later)
        ]
      ]

  search-shortest :
      (fuel : ℕ) (s : Search)
      → Inv adjacent source target s
      → Level s
      → (path : List ℕ) → search fuel adjacent target s ≡ some path
      → (walk : List ℕ) → Walk adjacent source target walk
      → length path ≤ length walk
  unfolding search
  search-shortest zero s h l path result walk w = absurd (ground (arith, result))
  search-shortest (suc fuel) s h l path result walk w = elim (List-cases s.queue) [
    | inl e ↦
        let it : some [] ≡ some path =
          sym (search_empty adjacent source target fuel s e) ∙ result in
        ground (arith, it)
    | inr (u, rest, e) ↦ elim (Bool-cases (u == target)) [
      | inl hit ↦
          let head : s.queue ≡ target ∷ rest = e ∙ ap (λ n. n ∷ rest) ((==_iff u target).0 hit) in
          let (way, traced, _, long) = found adjacent source target s rest h head in
          let it : some way ≡ some path =
            sym (search_found adjacent source target fuel u rest s e hit ∙ traced) ∙ result in
          let same : way ≡ path = ground (arith, it) in
          omega (arith, ap length same, long, head-shortest s rest h l head walk w)
      | inr miss ↦
          let apart : u ≢ target = λ it. ground (arith, it, miss, ==_iff u target) in
          search-shortest fuel (expand adjacent source target s u rest)
            (Inv-expand adjacent source target s u rest e h apart) (Level-expand s u rest e h l)
            path (sym (search_more adjacent source target fuel u rest s e miss) ∙ result) walk w
    ]
  ]

-- No route from the source to the target is shorter than the path that `findPath` returns.
pub find_path-shortest :
    (links : List Link) (source target : ℕ) (path way : List ℕ)
    → find_path links source target ≡ some path
    → Route links source target way
    → length path ≤ length way
unfolding find_path
find_path-shortest links source target path way result route =
    search-shortest (neighbors links) source target (2 * length links + 2) (start source)
      (Inv-start (neighbors links) source target) (Level-start (neighbors links) source target) path
      result way (Route-Walk links source route)
