-- ===== src/GraphVis/Laws/Tied.antt =====
-- app/assets/js/oocsi-graphvis.js: every node of a picture hangs together with the centre.
use oocsi_web.Common.{
  ℕ, String, Bool, true, false, List, [], ◌∷◌, ◌≡◌, refl, sym, subst, arith, In, here,
  In-append_right, In-concat, inl, inr, Bool-cases, Option-cases,
}
use oocsi_web.Common.Text.{◌<>◌}
use oocsi_web.GraphVis.Path.{is_subscription}
use oocsi_web.GraphVis.Path.Routes.{Joins, along}
use oocsi_web.GraphVis.Graph.{
  Graph, find_node, new_link, note_chain, grow, link_again, is_linked, add_components, add_client,
  add_channel, components, link_type,
}
use oocsi_web.GraphVis.Message.{know_client, know_channel}
use oocsi_web.GraphVis.Laws.Growth.{
  ids, In-find, In-grow, ids-append, ids-note_chain, ids-link_again,
}
use oocsi_web.GraphVis.Laws.Connected.{Covers, Covers-refl, Covers-append, Linked, Linked-Covers}

-- Every node is joined to the centre.
unfoldable pub IsTied : Graph → Type 0
IsTied g = (i : ℕ) → In i (ids g.nodes) → Linked g.links 0 i

-- The same nodes over links that cover those before.
pub IsTied-Covers :
    (g h : Graph) → ids h.nodes ≡ ids g.nodes → Covers g.links h.links → IsTied g → IsTied h
unfolding IsTied
IsTied-Covers g h same f t i m = Linked-Covers g.links h.links 0 i f (t i (subst (In i) same m))

plain : (is_client : Bool) → is_subscription (link_type is_client) ≡ false
unfolding link_type
plain true = refl
plain false = refl

module _ (is_client : Bool) (now : ℕ) where
  grow-IsTied :
      (source_name qual_name label : String) (target : ℕ) (g : Graph)
      → In target (ids g.nodes)
      → IsTied g
      → IsTied (grow is_client now source_name qual_name label target g)
  unfolding IsTied grow new_link Joins Linked link_type
  grow-IsTied source_name qual_name label target g m t i n =
      let kept = Covers-append g.links _ in
      let (path, r) = Linked-Covers g.links _ 0 target kept (t target m) in
      elim (In-concat (ids g.nodes) (subst (In i) (ids-append g.nodes _) n)) [
        | inl old ↦ Linked-Covers g.links _ 0 i kept (t i old)
        | inr same ↦
            subst (Linked _ 0) (sym same)
              (_, along r _ (In-append_right _ here) (plain is_client, inr (refl, refl)))
      ]

  link_again-IsTied :
      (node target : ℕ) (g : Graph) → IsTied g → IsTied (link_again is_client now node target g)
  unfolding link_again new_link
  link_again-IsTied node target g t = elim (Bool-cases (is_linked node target g)) [
    | inl e ↦ rw (e, link_again) t
    | inr e ↦ rw (e, link_again) (IsTied-Covers g _ refl (Covers-append g.links _) t)
  ]

  links-note_chain :
      (k : ℕ) (name : String) (g : Graph) → (note_chain is_client k name g).links ≡ g.links
  unfolding note_chain
  links-note_chain k name g = ground arith

  add_components-IsTied :
      (source_name qual_name : String) (previous : ℕ) (comps : List String) (g : Graph)
      → In previous (ids g.nodes)
      → IsTied g
      → IsTied (add_components is_client now source_name qual_name previous comps g)
  unfolding add_components find_node
  add_components-IsTied source_name qual_name previous [] g m t = t
  add_components-IsTied source_name qual_name previous (comp ∷ comps) g m t =
      let name = qual_name <> "/" <> comp in
      let noted = note_chain is_client previous source_name g in
      let same = ids-note_chain is_client now previous source_name g in
      let tied =
        IsTied-Covers g noted same
          (subst (Covers g.links) (sym (links-note_chain previous source_name g))
            (Covers-refl g.links))
          t in
      let before = subst (In previous) (sym same) m in
      elim (Option-cases (find_node name noted)) [
        | inl e ↦
            rw (e, add_components)
              (add_components-IsTied source_name name noted.nodes_index comps _
                (In-grow is_client now source_name name comp previous noted)
                (grow-IsTied source_name name comp previous noted before tied))
        | inr (node, e) ↦
            let known = In-find _ noted.nodes node e in
            rw (e, add_components)
              (add_components-IsTied source_name name node.id comps _
                (subst (In node.id) (sym (ids-link_again is_client now node.id previous noted))
                  known)
                (link_again-IsTied node.id previous noted tied))
      ]

pub know_client-IsTied :
    (now : ℕ) (name : String) (g : Graph)
    → In 0 (ids g.nodes)
    → IsTied g
    → IsTied (know_client now name g)
unfolding know_client add_client
know_client-IsTied now name g m t = elim (Option-cases (find_node ("clients/" <> name) g)) [
  | inl e ↦
      rw (e, know_client) (add_components-IsTied true now name "clients" 0 (components name) g m t)
  | inr (n, e) ↦ rw (e, know_client) t
]

pub know_channel-IsTied :
    (now : ℕ) (name : String) (g : Graph)
    → In 0 (ids g.nodes)
    → IsTied g
    → IsTied (know_channel now name g)
unfolding know_channel add_channel
know_channel-IsTied now name g m t = elim (Option-cases (find_node ("channels/" <> name) g)) [
  | inl e ↦
      rw (e, know_channel)
        (add_components-IsTied false now name "channels" 0 (components name) g m t)
  | inr (n, e) ↦ rw (e, know_channel) t
]
