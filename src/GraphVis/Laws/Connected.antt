-- ===== src/GraphVis/Laws/Connected.antt =====
-- app/assets/js/oocsi-graphvis.js: links that are kept or renewed join what was joined before, and
-- routes can be turned round and put together.
use oocsi_web.Common.{
  ℕ, ◌&&◌, ◌||◌, List, [], ◌∷◌, ◌++◌, subst, In, here, there, In-cases, In-append_left, inl, inr,
  Bool-cases, ◌==◌,
}
use oocsi_web.GraphVis.Path.{Link}
use oocsi_web.GraphVis.Path.Routes.{Joins, Route, begin, along}
use oocsi_web.GraphVis.Message.{renew_link, renew_path}

-- What is joined by the first links is joined by the second ones.
unfoldable pub Covers : List Link → List Link → Type 0
Covers ls ms = (l : Link) → In l ls → (u v : ℕ) → Joins l u v → (k : Link) × In k ms × Joins k u v

pub Covers-refl : (ls : List Link) → Covers ls ls
unfolding Covers
Covers-refl ls l i u v j = (l, i, j)

pub Covers-trans : (ls ms ns : List Link) → Covers ls ms → Covers ms ns → Covers ls ns
unfolding Covers
Covers-trans ls ms ns f g l i u v j = let (k, m, n) = f l i u v j in g k m u v n

pub Covers-append : (ls ms : List Link) → Covers ls (ls ++ ms)
unfolding Covers
Covers-append ls ms l i u v j = (l, In-append_left _ i, j)

Covers-renew_link : (e a b : ℕ) (ls : List Link) → Covers ls (renew_link e a b ls)
unfolding renew_link Covers Joins
Covers-renew_link e a b [] l i u v j = absurd (elim i [ ])
Covers-renew_link e a b (m ∷ ls) l i u v j =
    elim (Bool-cases ((m.source == a && m.target == b) || (m.source == b && m.target == a))) [
      | inl t ↦ elim (In-cases i) [
        | inl same ↦
            rw (t, renew_link) (record m { ttl = e }, here, subst (λ l. Joins l u v) same j)
        | inr old ↦ rw (t, renew_link) (l, there old, j)
      ]
      | inr f ↦ elim (In-cases i) [
        | inl same ↦ rw (f, renew_link) (m, here, subst (λ l. Joins l u v) same j)
        | inr old ↦
            let (k, n, o) = Covers-renew_link e a b ls l old u v j in
            rw (f, renew_link) (k, there n, o)
      ]
    ]

pub Covers-renew_path : (e : ℕ) (path : List ℕ) (ls : List Link) → Covers ls (renew_path e path ls)
unfolding renew_path
Covers-renew_path e [] ls = Covers-refl ls
Covers-renew_path e (a ∷ []) ls = Covers-refl ls
Covers-renew_path e (a ∷ b ∷ path) ls =
    Covers-trans ls _ _ (Covers-renew_link e a b ls) (Covers-renew_path e (b ∷ path) _)

pub Route-Covers :
    (ls ms : List Link) {u v : ℕ} {path : List ℕ}
    → Covers ls ms
    → Route ls u v path
    → Route ms u v path
unfolding Covers
Route-Covers ls ms f begin = begin
Route-Covers ls ms f (along r l i j) =
    let (k, m, n) = f l i _ _ j in along (Route-Covers ls ms f r) k m n

-- A route joins the two nodes.
unfoldable pub Linked : List Link → ℕ → ℕ → Type 0
Linked ls u v = (path : List ℕ) × Route ls u v path

pub Linked-Covers : (ls ms : List Link) (u v : ℕ) → Covers ls ms → Linked ls u v → Linked ms u v
unfolding Linked
Linked-Covers ls ms u v f (path, r) = (path, Route-Covers ls ms f r)

pub Linked-trans :
    (ls : List Link) (u : ℕ) {v w : ℕ} {path : List ℕ}
    → Linked ls u v
    → Route ls v w path
    → Linked ls u w
unfolding Linked
Linked-trans ls u h begin = h
Linked-trans ls u h (along r l i j) = let (path, s) = Linked-trans ls u h r in (_, along s l i j)

Joins-sym : (l : Link) (u v : ℕ) → Joins l u v → Joins l v u
unfolding Joins
Joins-sym l u v (plain, inl (e, f)) = (plain, inr (f, e))
Joins-sym l u v (plain, inr (e, f)) = (plain, inl (f, e))

pub Linked-sym :
    (ls : List Link) (u : ℕ) {v : ℕ} {path : List ℕ} → Route ls u v path → Linked ls v u
unfolding Linked
Linked-sym ls u begin = (_, begin)
Linked-sym ls u (along r l i j) =
    Linked-trans ls _ (_, along begin l i (Joins-sym l _ _ j)) (Linked-sym ls u r).1
