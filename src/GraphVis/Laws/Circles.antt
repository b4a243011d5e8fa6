-- ===== src/GraphVis/Laws/Circles.antt =====
-- app/assets/js/oocsi-graphvis.js: which nodes have a circle, and how it is seen.
use oocsi_web.Common.{
  ℕ, String, Bool, Option, none, some, List, [], ◌∷◌, ◌≡◌, refl, sym, ◌∙◌, ap, arith, In,
  Bool-cases, Option-cases, inl, inr, here, there, ◌==◌, ==_iff, map, is_some, any, if◌then◌else◌,
  subst,
}
use oocsi_web.GraphVis.Graph.{Node, Graph}
use oocsi_web.GraphVis.Drawing.{node_opacity}
use oocsi_web.GraphVis.Circles.{
  Circle, Label, drawn, drawn_label, draw_node, draw_label, update_circles, update_labels,
}
use oocsi_web.GraphVis.Laws.Growth.{ids, IsDistinct}
use oocsi_web.GraphVis.Laws.Opacity.{In-ids}
use oocsi_web.GraphVis.Laws.Pictures.{Picture, Picture-IsWell}

drawn-id : (i : ℕ) (cs : List Circle) (c : Circle) → drawn i cs ≡ some c → c.id ≡ i
unfolding drawn
drawn-id i [] c e = cc
drawn-id i (d ∷ cs) c e = ground (arith, e, ==_iff d.id i, drawn-id i cs c)

-- The ids of the circles.
abbrev pub circle_ids : List Circle → List ℕ
circle_ids cs = map {A = Circle} (λ c. c.id) cs

-- The opacity of the circle of a node, where it has one.
unfoldable pub seen : Node → List Circle → Option (Option ℕ)
seen n cs = elim (drawn n.id cs) [ none ↦ none | some c ↦ some c.opacity ]

-- The ids and opacities of the circles, and of the labels.
unfoldable pub circle_shades : List Circle → List (ℕ × Option ℕ)
circle_shades cs = map {A = Circle} (λ c. (c.id, c.opacity)) cs

unfoldable pub label_shades : List Label → List (ℕ × Option ℕ)
label_shades ls = map {A = Label} (λ l. (l.id, l.opacity)) ls

is_some-drawn :
    (i : ℕ) (cs : List Circle) → is_some (drawn i cs) ≡ any (λ s. s.0 == i) (circle_shades cs)
unfolding drawn circle_shades
is_some-drawn i [] = refl
is_some-drawn i (c ∷ cs) = ground (arith, is_some-drawn i cs)

is_some-drawn_label :
    (i : ℕ) (ls : List Label) → is_some (drawn_label i ls) ≡ any (λ s. s.0 == i) (label_shades ls)
unfolding drawn_label label_shades
is_some-drawn_label i [] = refl
is_some-drawn_label i (l ∷ ls) = ground (arith, is_some-drawn_label i ls)

drawn_label-id : (i : ℕ) (ls : List Label) (l : Label) → drawn_label i ls ≡ some l → l.id ≡ i
unfolding drawn_label
drawn_label-id i [] l e = cc
drawn_label-id i (d ∷ ls) l e = ground (arith, e, ==_iff d.id i, drawn_label-id i ls l)

module _ (to_lower : String → String) (includes : (text part : String) → Bool) (g : Graph) where
  draw_node-id : (cs : List Circle) (n : Node) → (draw_node to_lower includes g cs n).id ≡ n.id
  unfolding draw_node
  draw_node-id cs n = elim (Option-cases (drawn n.id cs)) [
    | inl e ↦ rw (e, draw_node) refl
    | inr (c, e) ↦ rw (e, draw_node) (drawn-id n.id cs c e)
  ]

  draw_node-opacity :
      (cs : List Circle) (n : Node)
      → (draw_node to_lower includes g cs n).opacity
        ≡ (if is_some (drawn n.id cs) then some (node_opacity to_lower includes g n) else none)
  unfolding draw_node
  draw_node-opacity cs n = elim (Option-cases (drawn n.id cs)) [
    | inl e ↦ rw (e, draw_node) refl
    | inr (c, e) ↦ rw (e, draw_node) refl
  ]

  drawn-map :
      (cs : List Circle) (n : Node) (ns : List Node)
      → In n ns
      → IsDistinct (ids ns)
      → drawn n.id (map {A = Node} (draw_node to_lower includes g cs) ns)
        ≡ some (draw_node to_lower includes g cs n)
  unfolding drawn IsDistinct
  drawn-map cs n [] m d = elim m [ ]
  drawn-map cs n (k ∷ ns) here d =
      ground (arith, draw_node-id cs n, ==_iff (draw_node to_lower includes g cs n).id n.id)
  drawn-map cs n (k ∷ ns) (there m) (apart, d) = elim (Bool-cases (k.id == n.id)) [
    | inl e ↦
        absurd (apart (subst (λ i. In i (ids ns)) (sym ((==_iff k.id n.id).0 e)) (In-ids n ns m)))
    | inr e ↦ rw (draw_node-id cs k, e) (drawn-map cs n ns m d)
  ]

  circle_ids-map :
      (cs : List Circle) (ns : List Node)
      → circle_ids (map {A = Node} (draw_node to_lower includes g cs) ns) ≡ ids ns
  circle_ids-map cs [] = refl
  circle_ids-map cs (n ∷ ns) = rw (draw_node-id cs n) (ap (λ is. n.id ∷ is) (circle_ids-map cs ns))

  draw_label-shade :
      (ls : List Label) (n : Node)
      → ((draw_label to_lower includes g ls n).id ≡ n.id)
        × ((draw_label to_lower includes g ls n).opacity ≡ (
            if is_some (drawn_label n.id ls)
            then some (node_opacity to_lower includes g n)
            else none))
  unfolding draw_label
  draw_label-shade ls n = elim (Option-cases (drawn_label n.id ls)) [
    | inl e ↦ rw (e, draw_label) (refl, refl)
    | inr (l, e) ↦ rw (e, draw_label) (drawn_label-id n.id ls l e, refl)
  ]

  -- Labels that are like the circles stay like them.
  shades-alike :
      (cs : List Circle) (ls : List Label) (ns : List Node)
      → label_shades ls ≡ circle_shades cs
      → label_shades (map {A = Node} (draw_label to_lower includes g ls) ns)
        ≡ circle_shades (map {A = Node} (draw_node to_lower includes g cs) ns)
  unfolding label_shades circle_shades
  shades-alike cs ls [] h = refl
  shades-alike cs ls (n ∷ ns) h =
      let (named, shade) = draw_label-shade ls n in
      let known : is_some (drawn_label n.id ls) ≡ is_some (drawn n.id cs) =
        is_some-drawn_label n.id ls ∙ ap (any (λ s. s.0 == n.id)) h ∙ sym (is_some-drawn n.id cs) in
      let rest = shades-alike cs ls ns h in
      rw (named, shade, known, draw_node-id cs n, draw_node-opacity cs n, rest) refl

  update-seen :
      (cs : List Circle) (n : Node)
      → In n g.nodes
      → IsDistinct (ids g.nodes)
      → seen n (update_circles to_lower includes g cs)
        ≡ some (if is_some (drawn n.id cs) then some (node_opacity to_lower includes g n) else none)
  unfolding seen update_circles
  update-seen cs n m d = rw (drawn-map cs n g.nodes m d, seen) (ap some (draw_node-opacity cs n))

  -- In every picture update draws one circle for each node, in their order. A circle that was drawn before is
  -- seen exactly if the filter shows its node; a new one is seen in any case, and the next update gives
  -- it the opacity of its node. Labels that were seen as the circles are seen as the circles again.
  pub update_circles-opacity :
      Picture to_lower includes g
      → (cs : List Circle) (ls : List Label) (n : Node) → In n g.nodes
      → label_shades ls ≡ circle_shades cs
      → let once = update_circles to_lower includes g cs in
        let twice = update_circles to_lower includes g once in
        (circle_ids once ≡ ids g.nodes)
        × (seen n once
            ≡ some (
                if is_some (drawn n.id cs)
                then some (node_opacity to_lower includes g n)
                else none))
        × (seen n twice ≡ some (some (node_opacity to_lower includes g n)))
        × (label_shades (update_labels to_lower includes g ls) ≡ circle_shades once)
  unfolding update_circles update_labels
  update_circles-opacity p cs ls n m alike =
      let distinct = (Picture-IsWell to_lower includes p).0.distinct in
      (
        circle_ids-map cs g.nodes,
        update-seen cs n m distinct,
        update-seen (update_circles to_lower includes g cs) n m distinct
            ∙ rw (drawn-map cs n g.nodes m distinct) refl,
        shades-alike cs ls g.nodes alike,
      )
