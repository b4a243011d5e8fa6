-- ===== src/GraphVis/Laws/Growth.antt =====
-- app/assets/js/oocsi-graphvis.js: the nodes and links stay sound while `addClient` and `addChannel` grow
-- the picture.
use oocsi_web.Common.{
  ℕ, suc, ◌<◌, String, Bool, true, false, some, List, [], ◌∷◌, ◌++◌, ◌≡◌, refl, ap, sym, subst,
  arith, In, here, there, In-append_left, In-append_right, In-concat, inl, inr, All, All-append,
  All-imp, find, Bool-cases, Option-cases, ◌==◌, not, ◌&&◌,
}
use oocsi_web.Common.Text.{◌<>◌}
use oocsi_web.GraphVis.Path.{Link}
use oocsi_web.GraphVis.Graph.{
  Node, Graph, find_node, new_link, push_chain, note_chain, grow, link_again, is_linked,
  add_components, add_client, add_channel, components,
}

abbrev pub ids : List Node → List ℕ
ids [] = []
ids (n ∷ ns) = n.id ∷ ids ns

unfoldable pub IsDistinct : List ℕ → Type 0
IsDistinct [] = Unit
IsDistinct (i ∷ is) = (¬ In i is) × IsDistinct is

-- Both ends of a link are nodes of the picture.
abbrev pub IsAttached : List ℕ → Link → Type 0
IsAttached is l = In l.source is × In l.target is

-- No two nodes have one id, the next id is new, `centerNode` is there, and no link hangs loose.
pub record IsSound (g : Graph) : Type 0 where
  pub distinct : IsDistinct (ids g.nodes)
  pub fresh : All (λ i. i < g.nodes_index) (ids g.nodes)
  pub centered : In 0 (ids g.nodes)
  pub attached : All (λ l. IsAttached (ids g.nodes) l) g.links

IsDistinct-append :
    (is : List ℕ) (k : ℕ) → IsDistinct is → All (λ i. i < k) is → IsDistinct (is ++ k ∷ [])
unfolding IsDistinct
IsDistinct-append [] k d small = (λ m. elim m [ ], tt)
IsDistinct-append (i ∷ is) k (apart, d) (less, small) = (
  λ m. elim (In-concat is m) [ inl old ↦ apart old | inr e ↦ absurd (omega (arith, e)) ],
  IsDistinct-append is k d small,
)

pub ids-append : (ns : List Node) (n : Node) → ids (ns ++ n ∷ []) ≡ ids ns ++ n.id ∷ []
ids-append [] n = refl
ids-append (m ∷ ns) n = ap (λ is. m.id ∷ is) (ids-append ns n)

ids-push_chain : (k : ℕ) (name : String) (ns : List Node) → ids (push_chain k name ns) ≡ ids ns
unfolding push_chain
ids-push_chain k name [] = refl
ids-push_chain k name (n ∷ ns) = elim (Bool-cases (n.id == k)) [
  | inl e ↦ rw (e, push_chain) (ap (λ is. n.id ∷ is) (ids-push_chain k name ns))
  | inr e ↦ rw (e, push_chain) (ap (λ is. n.id ∷ is) (ids-push_chain k name ns))
]

pub In-find : (p : Node → Bool) (ns : List Node) (n : Node) → find p ns ≡ some n → In n.id (ids ns)
In-find p [] n e = absurd (ground (arith, e))
In-find p (m ∷ ns) n e = elim (Bool-cases (p m)) [
  | inl t ↦
      let same : m ≡ n = ground (arith, e, t) in subst (λ k. In k.id (m.id ∷ ids ns)) same here
  | inr f ↦ there (In-find p ns n (ground (arith, e, f)))
]

module _ (is_client : Bool) (now : ℕ) where
  grow-IsSound :
      (source_name qual_name label : String) (target : ℕ) (g : Graph)
      → In target (ids g.nodes)
      → IsSound g
      → IsSound (grow is_client now source_name qual_name label target g)
  unfolding grow new_link
  grow-IsSound source_name qual_name label target g m h = record {
    distinct =
        subst IsDistinct (sym (ids-append g.nodes _)) (IsDistinct-append _ _ h.distinct h.fresh);
    fresh =
        subst (All (λ i. i < suc (suc g.nodes_index))) (sym (ids-append g.nodes _))
          (All-append _ _ _ (All-imp _ _ _ (λ i less. omega arith) h.fresh) (omega arith, tt));
    centered = subst (In 0) (sym (ids-append g.nodes _)) (In-append_left _ h.centered);
    attached =
        subst
          (λ is.
            All (λ l. IsAttached is l)
              (grow is_client now source_name qual_name label target g).links)
          (sym (ids-append g.nodes _))
          (All-append _ _ _
            (All-imp _ _ g.links (λ l ends. (In-append_left _ ends.0, In-append_left _ ends.1))
              h.attached)
            ((In-append_right _ here, In-append_left _ m), tt));
  }

  pub In-grow :
      (source_name qual_name label : String) (target : ℕ) (g : Graph)
      → In g.nodes_index (ids (grow is_client now source_name qual_name label target g).nodes)
  unfolding grow new_link
  In-grow source_name qual_name label target g =
      subst (In g.nodes_index) (sym (ids-append g.nodes _)) (In-append_right _ here)

  link_again-IsSound :
      (node target : ℕ) (g : Graph)
      → In node (ids g.nodes)
      → In target (ids g.nodes)
      → IsSound g
      → IsSound (link_again is_client now node target g)
  unfolding link_again new_link
  link_again-IsSound node target g n m h = elim (Bool-cases (is_linked node target g)) [
    | inl e ↦ rw (e, link_again) h
    | inr e ↦
        rw (e, link_again)
          (record {
            distinct = h.distinct;
            fresh = All-imp _ _ _ (λ i less. omega arith) h.fresh;
            centered = h.centered;
            attached = All-append _ _ _ h.attached ((n, m), tt);
          })
  ]

  note_chain-IsSound :
      (k : ℕ) (name : String) (g : Graph) → IsSound g → IsSound (note_chain is_client k name g)
  unfolding note_chain
  note_chain-IsSound k name g h =
      let same = sym (ids-push_chain k name g.nodes) in
      elim (Bool-cases (is_client && not (k == 0))) [
        | inl e ↦
            rw (e, note_chain)
              (record {
                distinct = subst IsDistinct same h.distinct;
                fresh = subst (All (λ i. i < g.nodes_index)) same h.fresh;
                centered = subst (In 0) same h.centered;
                attached = subst (λ is. All (λ l. IsAttached is l) g.links) same h.attached;
              })
        | inr e ↦ rw (e, note_chain) h
      ]

  pub ids-note_chain :
      (k : ℕ) (name : String) (g : Graph) → ids (note_chain is_client k name g).nodes ≡ ids g.nodes
  unfolding note_chain
  ids-note_chain k name g = elim (Bool-cases (is_client && not (k == 0))) [
    | inl e ↦ rw (e, note_chain) (ids-push_chain k name g.nodes)
    | inr e ↦ rw (e, note_chain) refl
  ]

  pub ids-link_again :
      (node target : ℕ) (g : Graph)
      → ids (link_again is_client now node target g).nodes ≡ ids g.nodes
  unfolding new_link link_again
  ids-link_again node target g = elim (Bool-cases (is_linked node target g)) [
    | inl e ↦ rw (e, link_again) refl
    | inr e ↦ rw (e, link_again) refl
  ]

  add_components-IsSound :
      (source_name qual_name : String) (previous : ℕ) (comps : List String) (g : Graph)
      → In previous (ids g.nodes)
      → IsSound g
      → IsSound (add_components is_client now source_name qual_name previous comps g)
  unfolding add_components find_node
  add_components-IsSound source_name qual_name previous [] g m h = h
  add_components-IsSound source_name qual_name previous (comp ∷ comps) g m h =
      let name = qual_name <> "/" <> comp in
      let noted = note_chain is_client previous source_name g in
      let sound = note_chain-IsSound previous source_name g h in
      let before = subst (In previous) (sym (ids-note_chain previous source_name g)) m in
      elim (Option-cases (find_node name noted)) [
        | inl e ↦
            rw (e, add_components)
              (add_components-IsSound source_name name noted.nodes_index comps _
                (In-grow source_name name comp previous noted)
                (grow-IsSound source_name name comp previous noted before sound))
        | inr (node, e) ↦
            let known = In-find _ noted.nodes node e in
            rw (e, add_components)
              (add_components-IsSound source_name name node.id comps _
                (subst (In node.id) (sym (ids-link_again node.id previous noted)) known)
                (link_again-IsSound node.id previous noted known before sound))
      ]

  -- No node is taken away.
  pub add_components-keeps :
      (i : ℕ) (source_name qual_name : String) (previous : ℕ) (comps : List String) (g : Graph)
      → In i (ids g.nodes)
      → In i (ids (add_components is_client now source_name qual_name previous comps g).nodes)
  unfolding add_components grow new_link
  add_components-keeps i source_name qual_name previous [] g m = m
  add_components-keeps i source_name qual_name previous (comp ∷ comps) g m =
      let name = qual_name <> "/" <> comp in
      let noted = note_chain is_client previous source_name g in
      let before = subst (In i) (sym (ids-note_chain previous source_name g)) m in
      elim (Option-cases (find_node name noted)) [
        | inl e ↦
            rw (e, add_components)
              (add_components-keeps i source_name name noted.nodes_index comps _
                (subst (In i) (sym (ids-append noted.nodes _)) (In-append_left _ before)))
        | inr (node, e) ↦
            rw (e, add_components)
              (add_components-keeps i source_name name node.id comps _
                (subst (In i) (sym (ids-link_again node.id previous noted)) before))
      ]

-- `addClient` keeps a sound picture sound.
pub add_client-IsSound :
    (now : ℕ) (name : String) (g : Graph) → IsSound g → IsSound (add_client now name g)
unfolding add_client
add_client-IsSound now name g h =
    add_components-IsSound true now name "clients" 0 (components name) g h.centered h

-- `addChannel` keeps a sound picture sound.
pub add_channel-IsSound :
    (now : ℕ) (name : String) (g : Graph) → IsSound g → IsSound (add_channel now name g)
unfolding add_channel
add_channel-IsSound now name g h =
    add_components-IsSound false now name "channels" 0 (components name) g h.centered h
