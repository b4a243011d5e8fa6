-- ===== src/GraphVis/Circles.antt =====
-- app/assets/js/oocsi-graphvis.js: the lines, circles and labels that `update` draws. d3 joins the nodes with the circles by their
-- ids: a circle of a node is kept, a node without one gets one, and a circle without a node is removed. So are
-- the labels.
use oocsi_web.Common.{ℕ, String, Bool, Option, none, some, List, ◌==◌, find, map}
use oocsi_web.GraphVis.Graph.{Node, Graph}
use oocsi_web.GraphVis.Path.{Link}
use oocsi_web.GraphVis.Drawing.{link_class, link_opacity, node_class, node_radius, node_opacity}

-- An element of the class `node`, with its attributes; one that was never set is `none`.
pub record Circle : Type 0 where
  pub id : ℕ
  pub class : String
  pub radius : ℕ
  pub opacity : Option ℕ

-- The circle that was drawn for a node before.
unfoldable pub drawn : (id : ℕ) → List Circle → Option Circle
drawn id circles = find (λ c. c.id == id) circles

module _ (to_lower : String → String) (includes : (text part : String) → Bool) where
  -- The opacity is set before the join, so only on a circle that was drawn before.
  unfoldable pub draw_node : Graph → List Circle → Node → Circle
  unfolding drawn
  draw_node g circles n = elim (drawn n.id circles) [
    | none ↦ record { id = n.id; class = node_class n; radius = node_radius n; opacity = none }
    | some c ↦ record c { opacity = some (node_opacity to_lower includes g n) }
  ]

  unfoldable pub update_circles : Graph → List Circle → List Circle
  unfolding draw_node
  update_circles g circles = map {A = Node} (draw_node g circles) g.nodes

-- An element of the class `label`.
pub record Label : Type 0 where
  pub id : ℕ
  pub text : String
  pub opacity : Option ℕ

unfoldable pub drawn_label : (id : ℕ) → List Label → Option Label
drawn_label id labels = find (λ l. l.id == id) labels

-- A line, which is drawn anew: d3 joins the links with the lines by their places.
pub record Line : Type 0 where
  pub class : String
  pub opacity : ℕ

module _ (to_lower : String → String) (includes : (text part : String) → Bool) where
  unfoldable pub draw_label : Graph → List Label → Node → Label
  unfolding drawn_label
  draw_label g labels n = elim (drawn_label n.id labels) [
    | none ↦ record { id = n.id; text = n.label; opacity = none }
    | some l ↦ record l { opacity = some (node_opacity to_lower includes g n) }
  ]

  unfoldable pub update_labels : Graph → List Label → List Label
  unfolding draw_label
  update_labels g labels = map {A = Node} (draw_label g labels) g.nodes

  unfoldable pub update_lines : (now : ℕ) → Graph → List Line
  update_lines now g =
      map {A = Link}
        (λ l. record {
          class = link_class l.type;
          opacity = link_opacity to_lower includes now g l;
        })
        g.links
