-- ===== src/GraphVis/Laws/Opacity.antt =====
-- app/assets/js/oocsi-graphvis.js: the opacity of a line against those of the circles drawn before.
use oocsi_web.Common.{
  ℕ, String, Bool, ◌||◌, some, List, [], ◌∷◌, ◌≡◌, refl, sym, subst, arith, In, here, there,
  if◌then◌else◌, ltb, ◌==◌, ==_iff, find, Bool-cases, inl, inr,
}
use oocsi_web.GraphVis.Path.{Link}
use oocsi_web.GraphVis.Graph.{Node, Graph}
use oocsi_web.GraphVis.Message.{is_shown, is_node_filtered, is_link_filtered}
use oocsi_web.GraphVis.Drawing.{link_opacity, node_opacity}
use oocsi_web.GraphVis.Laws.Growth.{ids, IsDistinct}
use oocsi_web.GraphVis.Laws.Pictures.{Picture, Picture-IsWell}

pub In-ids : (n : Node) (ns : List Node) → In n ns → In n.id (ids ns)
In-ids n [] i = elim i [ ]
In-ids n (m ∷ ns) here = here
In-ids n (m ∷ ns) (there i) = there (In-ids n ns i)

-- A node is found by its id where no two have one.
pub find-id :
    (n : Node) (ns : List Node)
    → In n ns
    → IsDistinct (ids ns)
    → find (λ m. m.id == n.id) ns ≡ some n
unfolding IsDistinct
find-id n [] i d = elim i [ ]
find-id n (m ∷ ns) here d = ground (arith, ==_iff n.id n.id)
find-id n (m ∷ ns) (there i) (apart, d) = elim (Bool-cases (m.id == n.id)) [
  | inl e ↦
      absurd (apart (subst (λ k. In k (ids ns)) (sym ((==_iff m.id n.id).0 e)) (In-ids n ns i)))
  | inr e ↦ ground (arith, e, find-id n ns i d)
]

module _ (to_lower : String → String) (includes : String → String → Bool) where
  is_shown-node :
      (g : Graph) (n : Node) (k : ℕ)
      → In n g.nodes
      → IsDistinct (ids g.nodes)
      → k ≡ n.id
      → is_shown to_lower includes g k ≡ is_node_filtered to_lower includes g.client_filter n
  unfolding is_shown
  is_shown-node g n k i d e =
      subst
        (λ k. is_shown to_lower includes g k ≡ is_node_filtered to_lower includes g.client_filter n)
        (sym e) (rw (find-id n g.nodes i d, is_shown) refl)

  -- In every picture, the opacity of a line whose ends are these two nodes is 0 if one of them is a node of
  -- which update gives a circle that was drawn before the opacity 0; otherwise it is 1 while the line
  -- lives, and half of it afterwards.
  pub link_opacity-node_opacity :
      {g : Graph}
      → Picture to_lower includes g
      → (now : ℕ) (l : Link) (n m : Node) → In n g.nodes
      → In m g.nodes
      → l.source ≡ n.id
      → l.target ≡ m.id
      → link_opacity to_lower includes now g l ≡ (
          if node_opacity to_lower includes g n == 0 || node_opacity to_lower includes g m == 0
          then 0
          else if ltb l.ttl now
          then 5
          else 10)
  unfolding link_opacity node_opacity is_link_filtered is_node_filtered
  link_opacity-node_opacity {g} p now l n m i j e f =
      let distinct = (Picture-IsWell to_lower includes p).0.distinct in
      ground
        (arith, is_shown-node g n l.source i distinct e, is_shown-node g m l.target j distinct f)
