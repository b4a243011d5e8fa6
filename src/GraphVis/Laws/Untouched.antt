-- ===== src/GraphVis/Laws/Untouched.antt =====
-- app/assets/js/oocsi-graphvis.js: `addClient` and `addChannel` change nothing but the nodes, the links and
-- the next id.
use oocsi_web.Common.{
  ℕ, String, Bool, List, [], ◌∷◌, ◌≡◌, ◌∙◌, refl, true, false, Bool-cases, Option-cases, inl, inr,
  not, ◌&&◌, ◌==◌,
}
use oocsi_web.Common.Text.{◌<>◌}
use oocsi_web.GraphVis.Path.{Link}
use oocsi_web.GraphVis.Graph.{
  Node, Graph, find_node, new_link, note_chain, grow, link_again, is_linked, add_components,
  add_client, add_channel, components,
}
use oocsi_web.GraphVis.Message.{know_client, know_channel}

-- What is read of a picture apart from its nodes, its links and the next id.
module _ {A : Type 0} (part : Graph → A)
    (apart : (g : Graph) (ns : List Node) (k : ℕ) (ls : List Link)
      → part (record g { nodes = ns; nodes_index = k; links = ls }) ≡ part g) where
  note_chain-untouched :
      (is_client : Bool) (k : ℕ) (name : String) (g : Graph)
      → part (note_chain is_client k name g) ≡ part g
  unfolding note_chain
  note_chain-untouched is_client k name g = elim (Bool-cases (is_client && not (k == 0))) [
    | inl e ↦ rw (e, note_chain) (apart g _ _ _)
    | inr e ↦ rw (e, note_chain) refl
  ]

  link_again-untouched :
      (is_client : Bool) (now node target : ℕ) (g : Graph)
      → part (link_again is_client now node target g) ≡ part g
  unfolding link_again new_link
  link_again-untouched is_client now node target g = elim (Bool-cases (is_linked node target g)) [
    | inl e ↦ rw (e, link_again) refl
    | inr e ↦ rw (e, link_again) (apart g _ _ _)
  ]

  grow-untouched :
      (is_client : Bool) (now : ℕ) (source_name name label : String) (target : ℕ) (g : Graph)
      → part (grow is_client now source_name name label target g) ≡ part g
  unfolding grow new_link
  grow-untouched is_client now source_name name label target g = apart g _ _ _

  add_components-untouched :
      (is_client : Bool) (now : ℕ) (source_name qual_name : String) (previous : ℕ)
      (cs : List String) (g : Graph)
      → part (add_components is_client now source_name qual_name previous cs g) ≡ part g
  unfolding add_components
  add_components-untouched is_client now source_name qual_name previous [] g = refl
  add_components-untouched is_client now source_name qual_name previous (c ∷ cs) g =
      let name = qual_name <> "/" <> c in
      let noted = note_chain is_client previous source_name g in
      let same = note_chain-untouched is_client previous source_name g in
      elim (Option-cases (find_node name noted)) [
        | inl e ↦
            rw (e, add_components)
              (add_components-untouched is_client now source_name name noted.nodes_index cs _
                ∙ grow-untouched is_client now source_name name c previous noted
                ∙ same)
        | inr (n, e) ↦
            rw (e, add_components)
              (add_components-untouched is_client now source_name name n.id cs _
                ∙ link_again-untouched is_client now n.id previous noted
                ∙ same)
      ]

  pub know_client-untouched :
      (now : ℕ) (name : String) (g : Graph) → part (know_client now name g) ≡ part g
  unfolding know_client add_client
  know_client-untouched now name g = elim (Option-cases (find_node ("clients/" <> name) g)) [
    | inl e ↦
        rw (e, know_client) (add_components-untouched true now name "clients" 0 (components name) g)
    | inr (n, e) ↦ rw (e, know_client) refl
  ]

  pub know_channel-untouched :
      (now : ℕ) (name : String) (g : Graph) → part (know_channel now name g) ≡ part g
  unfolding know_channel add_channel
  know_channel-untouched now name g = elim (Option-cases (find_node ("channels/" <> name) g)) [
    | inl e ↦
        rw (e, know_channel)
          (add_components-untouched false now name "channels" 0 (components name) g)
    | inr (n, e) ↦ rw (e, know_channel) refl
  ]
