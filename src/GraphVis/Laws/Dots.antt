-- ===== src/GraphVis/Laws/Dots.antt =====
-- app/assets/js/oocsi-graphvis.js: messages keep the picture sound and the number of dots bounded.
use oocsi_web.Common.{
  ℕ, suc, ◌+◌, ◌≤◌, String, Bool, true, false, not, ◌||◌, ◌&&◌, Option, none, some, List, [], ◌∷◌,
  ◌≡◌, sym, subst, arith, In, All, All-append, All-imp, Bool-cases, Option-cases, inl, inr, ◌==◌,
  ltb, leb, length, all, str_eq,
}
use oocsi_web.Common.Text.{◌<>◌}
use oocsi_web.GraphVis.Path.{Link, find_path}
use oocsi_web.GraphVis.Graph.{
  Node, Graph, find_node, new_link, is_linked, add_components, add_client, add_channel, components,
  grow, link_again, note_chain,
}
use oocsi_web.GraphVis.Message.{
  renew_link, renew_path, max_active_dots, is_shown, animate_dot, know_client, know_channel,
  deliver, send_message, show_node, show_subscribers,
}
use oocsi_web.GraphVis.Laws.Loop.{show_subscribers-keeps}
use oocsi_web.GraphVis.Laws.Growth.{
  ids, IsSound, add_client-IsSound, add_channel-IsSound, In-find, add_components-keeps,
}

-- At most 200 dots move, and each will be removed by a timeout.
abbrev pub IsBounded : Graph → Type 0
IsBounded g = (g.active_dots ≤ 200) × (g.removals ≡ g.active_dots)

module _ (P : Link → Type 0) (keeps : (l : Link) (e : ℕ) → P l → P (record l { ttl = e })) where
  All-renew_link : (e a b : ℕ) (ls : List Link) → All P ls → All P (renew_link e a b ls)
  unfolding renew_link
  All-renew_link e a b [] h = h
  All-renew_link e a b (l ∷ ls) (p, h) =
      elim (Bool-cases ((l.source == a && l.target == b) || (l.source == b && l.target == a))) [
        | inl t ↦ rw (t, renew_link) (keeps l e p, h)
        | inr f ↦ rw (f, renew_link) (p, All-renew_link e a b ls h)
      ]

  All-renew_path :
      (e : ℕ) (path : List ℕ) (ls : List Link) → All P ls → All P (renew_path e path ls)
  unfolding renew_path
  All-renew_path e [] ls h = h
  All-renew_path e (a ∷ []) ls h = h
  All-renew_path e (a ∷ b ∷ path) ls h = All-renew_path e (b ∷ path) _ (All-renew_link e a b ls h)

add_components-dots :
    (is_client : Bool) (now : ℕ) (source_name qual_name : String) (previous : ℕ)
    (comps : List String) (g : Graph)
    → IsBounded g
    → IsBounded (add_components is_client now source_name qual_name previous comps g)
unfolding add_components grow link_again note_chain new_link
add_components-dots is_client now source_name qual_name previous [] g h = h
add_components-dots is_client now source_name qual_name previous (comp ∷ comps) g h =
    let name = qual_name <> "/" <> comp in
    let noted = note_chain is_client previous source_name g in
    let kept : IsBounded noted = ground (arith, h) in
    elim (Option-cases (find_node name noted)) [
      | inl e ↦
          rw (e, add_components)
            (add_components-dots is_client now source_name name noted.nodes_index comps _ kept)
      | inr (node, e) ↦
          rw (e, add_components)
            (add_components-dots is_client now source_name name node.id comps _
              (ground (arith, kept)))
    ]

-- The picture is sound and its dots are bounded.
abbrev pub IsWell : Graph → Type 0
IsWell g = IsSound g × IsBounded g

pub know_client-IsWell :
    (now : ℕ) (name : String) (g : Graph) → IsWell g → IsWell (know_client now name g)
unfolding add_client know_client
know_client-IsWell now name g (h, k) = elim (Option-cases (find_node ("clients/" <> name) g)) [
  | inl e ↦
      rw (e, know_client)
        (
          add_client-IsSound now name g h,
          add_components-dots true now name "clients" 0 (components name) g k,
        )
  | inr (n, e) ↦ rw (e, know_client) (h, k)
]

pub know_client-keeps :
    (i now : ℕ) (name : String) (g : Graph)
    → In i (ids g.nodes)
    → In i (ids (know_client now name g).nodes)
unfolding know_client add_client
know_client-keeps i now name g m = elim (Option-cases (find_node ("clients/" <> name) g)) [
  | inl e ↦
      rw (e, know_client) (add_components-keeps true now i name "clients" 0 (components name) g m)
  | inr (n, e) ↦ rw (e, know_client) m
]

pub know_channel-IsWell :
    (now : ℕ) (name : String) (g : Graph) → IsWell g → IsWell (know_channel now name g)
unfolding add_channel know_channel
know_channel-IsWell now name g (h, k) = elim (Option-cases (find_node ("channels/" <> name) g)) [
  | inl e ↦
      rw (e, know_channel)
        (
          add_channel-IsSound now name g h,
          add_components-dots false now name "channels" 0 (components name) g k,
        )
  | inr (n, e) ↦ rw (e, know_channel) (h, k)
]

-- A message that is counted leaves the picture well.
pub counted-IsWell :
    (g : Graph) → IsWell g → IsWell (record g { reqs_counter = suc g.reqs_counter })
counted-IsWell g (h, k) = (
  record { distinct = h.distinct; fresh = h.fresh; centered = h.centered; attached = h.attached },
  k,
)

pub find_node-In :
    (name : String) (g : Graph) (n : Node) → find_node name g ≡ some n → In n.id (ids g.nodes)
unfolding find_node
find_node-In name g n e = In-find _ g.nodes n e

module _ (to_lower : String → String) (includes : String → String → Bool) where
  animate_dot-IsWell :
      (now : ℕ) (path : List ℕ) (g : Graph)
      → IsWell g
      → IsWell (animate_dot to_lower includes now path g)
  unfolding animate_dot
  animate_dot-IsWell now path g (h, k) =
      elim (Bool-cases (
        ltb (length path) 2
        || not (all (is_shown to_lower includes g) path)
        || leb max_active_dots g.active_dots)) [
          | inl e ↦ rw (e, animate_dot) (h, k)
          | inr e ↦
              rw (e, animate_dot)
                (
                  (record {
                    distinct = h.distinct;
                    fresh = h.fresh;
                    centered = h.centered;
                    attached =
                        All-renew_path _ (λ l e ends. ends) (now + 30000) path g.links h.attached;
                  }),
                  ground (arith, e, k),
                )
        ]

  deliver-IsWell :
      (now : ℕ) (source target : Option Node) (g : Graph)
      → IsWell g
      → IsWell (deliver to_lower includes now source target g).0
  unfolding deliver
  deliver-IsWell now none target g h = h
  deliver-IsWell now (some source) none g h = h
  deliver-IsWell now (some source) (some target) g h =
      elim (Option-cases (find_path g.links source.id target.id)) [
        | inl e ↦ rw (e, deliver) h
        | inr (path, e) ↦ rw (e, deliver) (animate_dot-IsWell now path g h)
      ]

  pub send_message-IsWell :
      (now : ℕ) (sender channel : String) (g : Graph)
      → IsWell g
      → IsWell (send_message to_lower includes now sender channel g).0
  unfolding send_message
  send_message-IsWell now sender channel g (h, k) =
      elim (Bool-cases
        (not (str_eq g.channel_filter "") && not (includes (to_lower channel) g.channel_filter))) [
          | inl e ↦ rw (e, send_message) (h, k)
          | inr e ↦
              rw (e, send_message)
                (deliver-IsWell now _ _ _ (
                  know_channel-IsWell now channel _
                    (know_client-IsWell now sender _ (counted-IsWell g (h, k)))))
        ]

  show_node-IsWell :
      (now target : ℕ) (n : Node) (g : Graph)
      → In target (ids g.nodes)
      → In n.id (ids g.nodes)
      → IsWell g
      → IsWell (show_node to_lower includes now target n g)
  unfolding show_node new_link
  show_node-IsWell now target n g m known (h, k) = elim (Bool-cases (is_linked target n.id g)) [
    | inl e ↦ rw (e, show_node) (animate_dot-IsWell now (target ∷ n.id ∷ []) g (h, k))
    | inr e ↦
        rw (e, show_node)
          (animate_dot-IsWell now (target ∷ n.id ∷ []) _ (
            (record {
              distinct = h.distinct;
              fresh = All-imp _ _ _ (λ i less. omega arith) h.fresh;
              centered = h.centered;
              attached = All-append _ _ _ h.attached ((m, known), tt);
            }),
            k,
          ))
  ]

  pub show_node-nodes :
      (now target : ℕ) (n : Node) (g : Graph)
      → (show_node to_lower includes now target n g).nodes ≡ g.nodes
  unfolding show_node animate_dot new_link
  show_node-nodes now target n g = ground arith

  pub show_node-In :
      (now target i : ℕ) (n : Node) (g : Graph)
      → In i (ids g.nodes)
      → In i (ids (show_node to_lower includes now target n g).nodes)
  show_node-In now target i n g m =
      subst (λ ns. In i (ids ns)) (sym (show_node-nodes now target n g)) m

  pub show_subscribers-IsWell :
      (now target : ℕ) (ss : List String) (g h : Graph)
      → show_subscribers to_lower includes now target ss g ≡ some h
      → In target (ids g.nodes)
      → IsWell g
      → IsWell h
  show_subscribers-IsWell now target ss g h e m w =
      let (_, well) =
        show_subscribers-keeps to_lower includes (λ g. In target (ids g.nodes) × IsWell g) now
          target (λ s g p. (know_client-keeps target now s g p.0, know_client-IsWell now s g p.1))
          (λ s n g f p. (
            show_node-In now target target n g p.0,
            show_node-IsWell now target n g p.0 (find_node-In _ g n f) p.1,
          ))
          ss g h e (m, w) in
      well
