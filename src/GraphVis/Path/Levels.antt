-- ===== src/GraphVis/Path/Levels.antt =====
-- app/assets/js/oocsi-graphvis.js: the queue of `findPath` is in the order of depth, and no node lies more than
-- one level below its head.
use oocsi_web.Common.{
  ℕ, suc, ◌≤◌, true, false, List, [], ◌∷◌, ◌++◌, ◌≡◌, ◌∙◌, refl, sym, subst, inl, inr, arith, In,
  here, there, Bool-cases, ◌==◌, ==_iff, In-concat,
}
use oocsi_web.GraphVis.Path.{has, Search, offer, scan}
use oocsi_web.GraphVis.Path.Trace.{depth}
use oocsi_web.GraphVis.Path.Invariant.{has-offer}

-- No node of the list lies deeper than a later one.
unfoldable pub IsOrdered : List (ℕ × ℕ) → List ℕ → Type 0
IsOrdered ps [] = Unit {0}
IsOrdered ps (x ∷ q) = ((y : ℕ) → In y q → depth ps x ≤ depth ps y) × IsOrdered ps q

IsOrdered-append :
    (ps : List (ℕ × ℕ)) (q : List ℕ) (v : ℕ)
    → IsOrdered ps q
    → ((y : ℕ) → In y q → depth ps y ≤ depth ps v)
    → IsOrdered ps (q ++ v ∷ [])
unfolding IsOrdered
IsOrdered-append ps [] v o le = (λ y m. elim m [ ], tt)
IsOrdered-append ps (x ∷ q) v (first, o) le = (
  λ y m. elim (In-concat q m) [
    | inl old ↦ first y old
    | inr e ↦ subst (λ y. depth ps x ≤ depth ps y) (sym e) (le x here)
  ],
  IsOrdered-append ps q v o (λ y m. le y (there m)),
)

IsOrdered-same :
    (ps qs : List (ℕ × ℕ)) (q : List ℕ)
    → ((y : ℕ) → In y q → depth qs y ≡ depth ps y)
    → IsOrdered ps q
    → IsOrdered qs q
unfolding IsOrdered
IsOrdered-same ps qs [] same o = tt
IsOrdered-same ps qs (x ∷ q) same (first, o) = (
  λ y m. omega (arith, first y m, same x here, same y (there m)),
  IsOrdered-same ps qs q (λ y m. same y (there m)) o,
)

-- What holds while the neighbors of a node at a depth are gone through.
pub record IsMid (current d : ℕ) (s : Search) : Type 0 where
  pub current_visited : has s.visited current ≡ true
  pub level : depth s.parents current ≡ d
  pub queued : (v : ℕ) → In v s.queue → has s.visited v ≡ true
  pub ordered : IsOrdered s.parents s.queue
  pub lower : (v : ℕ) → In v s.queue → d ≤ depth s.parents v
  pub upper : (v : ℕ) → has s.visited v ≡ true → depth s.parents v ≤ suc d

-- A node that was visited stays as deep as it is.
depth-new :
    (current v w : ℕ) (s : Search)
    → has s.visited v ≡ false
    → has s.visited w ≡ true
    → depth ((v, current) ∷ s.parents) w ≡ depth s.parents w
depth-new current v w s new seen = elim (Bool-cases (v == w)) [
  | inl same ↦ absurd (cc (subst (λ n. has s.visited n ≡ false) ((==_iff v w).0 same) new))
  | inr other ↦ rw other
]

offer-IsMid :
    (current d v : ℕ) (s : Search) → IsMid current d s → IsMid current d (offer current v s)
unfolding offer
offer-IsMid current d v s m = elim (Bool-cases (has s.visited v)) [
  | inl old ↦ rw (old, offer) m
  | inr new ↦
      let stays : (w : ℕ)
          → has s.visited w ≡ true
          → depth ((v, current) ∷ s.parents) w ≡ depth s.parents w =
        λ w seen. depth-new current v w s new seen in
      let below : depth ((v, current) ∷ s.parents) v ≡ suc d =
        ground (arith, ==_iff v v, m.level) in
      rw (new, offer)
        (record {
          current_visited = ground (arith, m.current_visited);
          level = stays current m.current_visited ∙ m.level;
          queued = λ w q. elim (In-concat s.queue q) [
            | inl q' ↦ ground (arith, m.queued w q')
            | inr e ↦ ground (arith, ==_iff v w, e)
          ];
          ordered =
              IsOrdered-append _ s.queue v
                (IsOrdered-same s.parents _ s.queue (λ y q. stays y (m.queued y q)) m.ordered)
                (λ y q. omega (arith, stays y (m.queued y q), m.upper y (m.queued y q), below));
          lower = λ w q. elim (In-concat s.queue q) [
            | inl q' ↦ omega (arith, stays w (m.queued w q'), m.lower w q')
            | inr e ↦
                subst (λ w. d ≤ depth ((v, current) ∷ s.parents) w) (sym e) (omega (arith, below))
          ];
          upper = λ w seen. elim (Bool-cases (v == w)) [
            | inl same ↦
                subst (λ w. depth ((v, current) ∷ s.parents) w ≤ suc d) ((==_iff v w).0 same)
                  (omega (arith, below))
            | inr other ↦
                let old : has s.visited w ≡ true = ground (arith, seen, other) in
                omega (arith, stays w old, m.upper w old)
          ];
        })
]

pub scan-IsMid :
    (current d : ℕ) (vs : List ℕ) (s : Search)
    → IsMid current d s
    → IsMid current d (scan current vs s)
unfolding scan
scan-IsMid current d [] s m = m
scan-IsMid current d (v ∷ vs) s m =
    scan-IsMid current d vs (offer current v s) (offer-IsMid current d v s m)

depth-offer :
    (current v w : ℕ) (s : Search)
    → has s.visited w ≡ true
    → depth (offer current v s).parents w ≡ depth s.parents w
unfolding offer
depth-offer current v w s seen = elim (Bool-cases (has s.visited v)) [
  | inl old ↦ rw (old, offer) refl
  | inr new ↦ rw (new, offer) (depth-new current v w s new seen)
]

pub depth-scan :
    (current : ℕ) (vs : List ℕ) (w : ℕ) (s : Search)
    → has s.visited w ≡ true
    → depth (scan current vs s).parents w ≡ depth s.parents w
unfolding scan
depth-scan current [] w s seen = refl
depth-scan current (v ∷ vs) w s seen =
    depth-scan current vs w (offer current v s) (rw (has-offer current v w s, seen))
    ∙ depth-offer current v w s seen
