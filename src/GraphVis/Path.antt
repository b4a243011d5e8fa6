-- ===== src/GraphVis/Path.antt =====
-- app/assets/js/oocsi-graphvis.js: `findPath`, a breadth-first search over the links. Nodes are their
-- ids; the sets and maps of the search are lists, the newest entry first.
pub mod Trace
pub mod Invariant
pub mod Levels
pub mod Closed
pub mod Correct
pub mod Shortest
pub mod Routes
use oocsi_web.Common.{
  ℕ, zero, suc, ◌+◌, ◌*◌, Bool, true, false, not, ◌||◌, Option, none, some, List, [], ◌∷◌, ◌++◌,
  if◌then◌else◌, ◌==◌, length, keep, map, any,
}

pub data LinkType : Type 0 where
  client channel subscription : LinkType

-- An entry of `links`; `strength` is counted in tenths.
pub record Link : Type 0 where
  pub id : ℕ
  pub source : ℕ
  pub target : ℕ
  pub type : LinkType
  pub strength : ℕ
  pub ttl : ℕ

abbrev pub is_subscription : LinkType → Bool
is_subscription subscription = true
is_subscription _ = false

-- The `neighbors` of a node: the other ends of its links, without the subscriptions.
unfoldable pub neighbors : List Link → ℕ → List ℕ
neighbors links current =
    map (λ l. if l.source == current then l.target else l.source)
      (keep (λ l. l.source == current || l.target == current)
        (keep (λ l. not (is_subscription l.type)) links))

-- `visited.has`.
abbrev pub has : List ℕ → ℕ → Bool
has [] v = false
has (u ∷ us) v = u == v || has us v

-- `parentMap.get`.
abbrev pub parent : List (ℕ × ℕ) → ℕ → Option ℕ
parent [] v = none
parent ((w, u) ∷ ps) v = if w == v then some u else parent ps v

pub record Search : Type 0 where
  pub queue : List ℕ
  pub visited : List ℕ
  pub parents : List (ℕ × ℕ)

-- The body of the loop over the neighbors of `current`.
unfoldable pub offer : (current neighbor : ℕ) → Search → Search
offer current v s = if has s.visited v then s else record {
  queue = s.queue ++ v ∷ [];
  visited = v ∷ s.visited;
  parents = (v, current) ∷ s.parents;
}

-- The loop over the neighbors of `current`.
unfoldable pub scan : (current : ℕ) → List ℕ → Search → Search
unfolding offer
scan current [] s = s
scan current (v ∷ vs) s = scan current vs (offer current v s)

-- `while (step) { path.unshift(step); step = parentMap.get(step.id); }`, with fuel.
unfoldable pub trace : (fuel : ℕ) → List (ℕ × ℕ) → (step : ℕ) → (path : List ℕ) → Option (List ℕ)
trace zero ps step path = none
trace (suc fuel) ps step path = elim (parent ps step) [
  | none ↦ some (step ∷ path)
  | some u ↦ trace fuel ps u (step ∷ path)
]

-- The loop over the queue, with fuel; `none` where the fuel ran out.
unfoldable pub search :
    (fuel : ℕ) → (adjacent : ℕ → List ℕ) → (target : ℕ) → Search → Option (List ℕ)
search zero adjacent target s = none
search (suc fuel) adjacent target s = elim s.queue [
  | [] ↦ some []
  | current ∷ rest ↦
      let found = trace (suc (length s.parents)) s.parents target [] in
      let more =
        search fuel adjacent target (scan current (adjacent current) (record s { queue = rest })) in
      if current == target then found else more
]

unfoldable pub start : ℕ → Search
start source = record { queue = source ∷ []; visited = source ∷ []; parents = [] }

-- `findPath`. A round of the loop takes a node off the queue, and no node is put there twice.
unfoldable pub find_path : List Link → (source target : ℕ) → Option (List ℕ)
unfolding neighbors start
find_path links source target =
    search (2 * length links + 2) (neighbors links) target (start source)
