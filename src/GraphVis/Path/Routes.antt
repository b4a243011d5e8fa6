-- ===== src/GraphVis/Path/Routes.antt =====
-- app/assets/js/oocsi-graphvis.js: the path of `findPath` is a route over the links.
use oocsi_web.Common.{
  ℕ, ◌+◌, ◌*◌, ◌≤◌, ◌<◌, false, some, List, [], ◌∷◌, ◌++◌, ◌≡◌, refl, ◌⊎◌, inl, inr, arith, In,
  here, there, In-cases, length, ==_iff, subst, sym,
}
use oocsi_web.GraphVis.Path.{Link, is_subscription, start, find_path, neighbors}
use oocsi_web.GraphVis.Path.Trace.{Walk, stay, step}
use oocsi_web.GraphVis.Path.Invariant.{unseen}
use oocsi_web.GraphVis.Path.Closed.{Inv-start}
use oocsi_web.GraphVis.Path.Correct.{search-IsFound}

-- A link that is no subscription has these two ends.
unfoldable pub Joins : Link → ℕ → ℕ → Type 0
Joins l u v =
    (is_subscription l.type ≡ false)
    × (((l.source ≡ u) × (l.target ≡ v)) ⊎ ((l.target ≡ u) × (l.source ≡ v)))

-- The nodes on a way from the source, each joined to the next by a link of the picture.
pub data Route (links : List Link) (source : ℕ) : ℕ → List ℕ → Type 0 where
  begin : Route links source source (source ∷ [])
  along :
      {u v : ℕ} {path : List ℕ}
      → Route links source u path
      → (l : Link) → In l links
      → Joins l u v
      → Route links source v (path ++ v ∷ [])

-- The ends of the links.
endpoints : List Link → List ℕ
endpoints [] = []
endpoints (l ∷ ls) = l.source ∷ l.target ∷ endpoints ls

length-endpoints : (links : List Link) → length (endpoints links) ≡ 2 * length links
unfolding endpoints
length-endpoints [] = refl
length-endpoints (l ∷ ls) = omega (arith, length-endpoints ls)

-- A link adds its other end at one of its ends, and nothing elsewhere or if it is a subscription.
neighbors-cons :
    (l : Link) (ls : List Link) (u : ℕ)
    → ((is_subscription l.type ≡ false)
        × (l.source ≡ u)
        × (neighbors (l ∷ ls) u ≡ l.target ∷ neighbors ls u))
      ⊎ (((is_subscription l.type ≡ false)
            × (l.target ≡ u)
            × (neighbors (l ∷ ls) u ≡ l.source ∷ neighbors ls u))
          ⊎ (neighbors (l ∷ ls) u ≡ neighbors ls u))
unfolding neighbors
neighbors-cons l ls u = ground (arith, ==_iff l.source u, ==_iff l.target u)

In-neighbors_joined :
    (links : List Link) (u v : ℕ) → In v (neighbors links u) → (l : Link) × In l links × Joins l u v
unfolding neighbors Joins
In-neighbors_joined [] u v h = elim h [ ]
In-neighbors_joined (l ∷ ls) u v h =
    let later : In v (neighbors ls u) → (k : Link) × In k (l ∷ ls) × Joins k u v =
      λ m. let (k, i, j) = In-neighbors_joined ls u v m in (k, there i, j) in
    elim (neighbors-cons l ls u) [
      | inl (kind, from, e) ↦ elim (In-cases (subst (In v) e h)) [
        | inl same ↦ (l, here, (kind, inl (from, sym same)))
        | inr m ↦ later m
      ]
      | inr (inl (kind, from, e)) ↦ elim (In-cases (subst (In v) e h)) [
        | inl same ↦ (l, here, (kind, inr (from, sym same)))
        | inr m ↦ later m
      ]
      | inr (inr e) ↦ later (subst (In v) e h)
    ]

-- The other end of a link is listed first, and what later links list stays listed.
neighbors-first :
    (l : Link) (ls : List Link) (u v : ℕ) → Joins l u v → neighbors (l ∷ ls) u ≡ v ∷ neighbors ls u
unfolding neighbors Joins
neighbors-first l ls u v (kind, inl (a, b)) = ground (arith, ==_iff l.source u)
neighbors-first l ls u v (kind, inr (a, b)) = ground (arith, ==_iff l.source u, ==_iff l.target u)

joined-In-neighbors :
    (l : Link) (links : List Link) (u v : ℕ) → In l links → Joins l u v → In v (neighbors links u)
joined-In-neighbors l [] u v i j = elim i [ ]
joined-In-neighbors l (_ ∷ ls) u v here j = rw (neighbors-first l ls u v j) here
joined-In-neighbors l (k ∷ ls) u v (there i) j =
    let m = joined-In-neighbors l ls u v i j in
    elim (neighbors-cons k ls u) [
      | inl (_, _, e) ↦ rw e (there m)
      | inr (inl (_, _, e)) ↦ rw e (there m)
      | inr (inr e) ↦ rw e m
    ]

Walk-Route :
    (links : List Link) (source : ℕ) {v : ℕ} {path : List ℕ}
    → Walk (neighbors links) source v path
    → Route links source v path
Walk-Route links source stay = begin
Walk-Route links source (step {u = u} {v = w} walk m) =
    let (l, i, j) = In-neighbors_joined links u w m in along (Walk-Route links source walk) l i j

pub Route-Walk :
    (links : List Link) (source : ℕ) {v : ℕ} {path : List ℕ}
    → Route links source v path
    → Walk (neighbors links) source v path
Route-Walk links source begin = stay
Route-Walk links source (along {u = u} {v = w} route l i j) =
    step (Route-Walk links source route) (joined-In-neighbors l links u w i j)

neighbors-inside : (links : List Link) (u v : ℕ) → In v (neighbors links u) → In v (endpoints links)
unfolding endpoints neighbors
neighbors-inside [] u v h = elim h [ ]
neighbors-inside (l ∷ ls) u v h = elim (neighbors-cons l ls u) [
  | inl (_, _, e) ↦ elim (In-cases (subst (In v) e h)) [
    | inl same ↦ rw same (there here)
    | inr m ↦ there (there (neighbors-inside ls u v m))
  ]
  | inr (inl (_, _, e)) ↦ elim (In-cases (subst (In v) e h)) [
    | inl same ↦ rw same here
    | inr m ↦ there (there (neighbors-inside ls u v m))
  ]
  | inr (inr e) ↦ there (there (neighbors-inside ls u v (subst (In v) e h)))
]

unseen-le : (us vs : List ℕ) → unseen us vs ≤ length us
unfolding unseen
unseen-le [] vs = omega arith
unseen-le (u ∷ us) vs = ground (arith, unseen-le us vs)

-- What a caller of `findPath` wants: a route, or the empty list and no route at all.
unfoldable pub IsAnswer : List Link → (source target : ℕ) → List ℕ → Type 0
IsAnswer links source target path =
    Route links source target path
    ⊎ ((path ≡ []) × ((way : List ℕ) → ¬ Route links source target way))

-- `findPath` always ends, within the fuel. It returns the nodes of a route from the source to the
-- target over links that are not subscriptions, in either direction, or the empty list where there
-- is no such route.
pub find_path-IsAnswer :
    (links : List Link) (source target : ℕ)
    → (path : List ℕ) × (find_path links source target ≡ some path)
      × IsAnswer links source target path
unfolding find_path start IsAnswer
find_path-IsAnswer links source target =
    let (path, result, answer) =
      search-IsFound (neighbors links) source target (endpoints links) (neighbors-inside links)
        (2 * length links + 2) (start source) (Inv-start (neighbors links) source target) enough in
    (
      path,
      result,
      elim answer [
        | inl w ↦ inl (Walk-Route links source w)
        | inr (e, none_found) ↦ inr (e, λ way r. none_found way (Route-Walk links source r))
      ],
    )
  where
    enough :
        unseen (endpoints links) (start source).visited + length (start source).queue
        < 2 * length links + 2
    enough = omega (arith, unseen-le (endpoints links) (source ∷ []), length-endpoints links)
