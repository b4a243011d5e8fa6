-- ===== src/GraphVis/Laws/Delivery.antt =====
-- app/assets/js/oocsi-graphvis.js: a message finds the node of its sender and the node of its channel, and
-- a path between them.
use oocsi_web.Common.{
  ℕ, suc, ◌-◌, ◌*◌, String, Bool, true, false, not, ◌&&◌, Option, none, some, List, [], ◌∷◌, ◌++◌,
  ◌≡◌, ◌∙◌, refl, sym, ap, arith, inl, inr, All, Option-cases, str_eq, eq_iff, find, length,
}
use oocsi_web.Common.Text.{◌<>◌}
use oocsi_web.GraphVis.Path.Routes.{Route}
use oocsi_web.GraphVis.Graph.{
  Node, Graph, find_node, has_name, note_chain, grow, link_again, new_link, add_components,
  add_client, add_channel, components,
}
use oocsi_web.GraphVis.Message.{know_client, know_channel, deliver, send_message}
use oocsi_web.GraphVis.Laws.Dots.{find_node-In}
use oocsi_web.GraphVis.Laws.Connected.{Route-Covers}
use oocsi_web.GraphVis.Laws.Names.{IsPiece, joined, qualified, components-joined, qualified-joined}
use oocsi_web.GraphVis.Laws.Tied.{IsTied}
use oocsi_web.GraphVis.Laws.Paths.{
  IsTied-found, known-IsTied, Covers-animate_dot, animate_dot-nodes, Picture-IsTied,
}
use oocsi_web.GraphVis.Laws.Pictures.{Picture, Picture-IsWell}
use text.Mathlib.TextLemmas.{append_assoc}

pub find-append_some {ℓ} :
    {A : Type ℓ} (p : A → Bool) (xs ys : List A) (x : A)
    → find p xs ≡ some x
    → find p (xs ++ ys) ≡ some x
find-append_some p [] ys x e = absurd (ground (arith, e))
find-append_some p (y ∷ xs) ys x e = ground (arith, e, find-append_some p xs ys x)

find-append_none {ℓ} :
    {A : Type ℓ} (p : A → Bool) (xs : List A) (x : A)
    → find p xs ≡ none
    → p x ≡ true
    → find p (xs ++ x ∷ []) ≡ some x
find-append_none p [] x e t = ground (arith, t)
find-append_none p (y ∷ xs) x e t = ground (arith, e, t, find-append_none p xs x)

module _ (is_client : Bool) (now : ℕ) where
  link_again-nodes :
      (node target : ℕ) (g : Graph) → (link_again is_client now node target g).nodes ≡ g.nodes
  unfolding link_again new_link
  link_again-nodes node target g = ground arith

  grow-finds :
      (source_name name label : String) (target : ℕ) (g : Graph)
      → find_node name g ≡ none
      → (n : Node) × find_node name (grow is_client now source_name name label target g) ≡ some n
  unfolding find_node grow new_link has_name
  grow-finds source_name name label target g e =
      (_, find-append_none (has_name name) g.nodes _ e ((eq_iff name name).1 refl))

  -- The last component has a node.
  add_components-finds :
      (source_name qual_name : String) (previous : ℕ) (c : String) (cs : List String) (g : Graph)
      → (n : Node) × find_node
            (qualified qual_name (c ∷ cs))
            (add_components is_client now source_name qual_name previous (c ∷ cs) g)
          ≡ some n
  unfolding add_components qualified find_node
  add_components-finds source_name qual_name previous c [] g =
      let name = qual_name <> "/" <> c in
      let noted = note_chain is_client previous source_name g in
      elim (Option-cases (find_node name noted)) [
        | inl e ↦ rw (e, add_components) (grow-finds source_name name c previous noted e)
        | inr (n, e) ↦
            rw (e, add_components)
              (n, ap (find (has_name name)) (link_again-nodes n.id previous noted) ∙ e)
      ]
  add_components-finds source_name qual_name previous c (d ∷ ds) g =
      let name = qual_name <> "/" <> c in
      let noted = note_chain is_client previous source_name g in
      elim (Option-cases (find_node name noted)) [
        | inl e ↦
            rw (e, add_components) (add_components-finds source_name name noted.nodes_index d ds _)
        | inr (n, e) ↦ rw (e, add_components) (add_components-finds source_name name n.id d ds _)
      ]

  -- The root's name, a slash and the pieces, as the callers write it.
  pieces-finds :
      (root start c : String) (cs : List String) (g : Graph)
      → root <> "/" ≡ start
      → All IsPiece (c ∷ cs)
      → (n : Node) × find_node
            (start <> joined c cs)
            (add_components is_client now (joined c cs) root 0 (components (joined c cs)) g)
          ≡ some n
  pieces-finds root start c cs g e h =
      let (n, found) = add_components-finds (joined c cs) root 0 c cs g in
      let named : qualified root (c ∷ cs) ≡ start <> joined c cs =
        qualified-joined root c cs
        ∙ sym (append_assoc root "/" (joined c cs))
        ∙ ap (λ t. t <> joined c cs) e in
      (n, rw (components-joined c cs h, sym named) found)

pub know_client-finds :
    (now : ℕ) (c : String) (cs : List String) (g : Graph)
    → All IsPiece (c ∷ cs)
    → (n : Node) × find_node ("clients/" <> joined c cs) (know_client now (joined c cs) g) ≡ some n
unfolding know_client add_client
know_client-finds now c cs g h = elim (Option-cases (find_node ("clients/" <> joined c cs) g)) [
  | inl e ↦ rw (e, know_client) (pieces-finds true now "clients" "clients/" c cs g refl h)
  | inr (n, e) ↦ rw (e, know_client) (n, e)
]

pub know_channel-finds :
    (now : ℕ) (c : String) (cs : List String) (g : Graph)
    → All IsPiece (c ∷ cs)
    → (n : Node) × find_node ("channels/" <> joined c cs) (know_channel now (joined c cs) g)
        ≡ some n
unfolding know_channel add_channel
know_channel-finds now c cs g h = elim (Option-cases (find_node ("channels/" <> joined c cs) g)) [
  | inl e ↦ rw (e, know_channel) (pieces-finds false now "channels" "channels/" c cs g refl h)
  | inr (n, e) ↦ rw (e, know_channel) (n, e)
]

-- A channel that is added leaves the nodes as they were.
channel-keeps :
    (now : ℕ) (source_name qual_name wanted : String) (previous : ℕ) (cs : List String) (g : Graph)
    (n : Node)
    → find_node wanted g ≡ some n
    → find_node wanted (add_components false now source_name qual_name previous cs g) ≡ some n
unfolding add_components note_chain grow new_link find_node
channel-keeps now source_name qual_name wanted previous [] g n e = e
channel-keeps now source_name qual_name wanted previous (c ∷ cs) g n e =
    let name = qual_name <> "/" <> c in
    elim (Option-cases (find_node name g)) [
      | inl f ↦
          rw (f, add_components)
            (channel-keeps now source_name name wanted g.nodes_index cs _ n
              (find-append_some (has_name wanted) g.nodes _ n e))
      | inr (m, f) ↦
          rw (f, add_components)
            (channel-keeps now source_name name wanted m.id cs _ n
              (ap (find (has_name wanted)) (link_again-nodes false now m.id previous g) ∙ e))
    ]

pub know_channel-keeps :
    (now : ℕ) (name wanted : String) (g : Graph) (n : Node)
    → find_node wanted g ≡ some n
    → find_node wanted (know_channel now name g) ≡ some n
unfolding know_channel add_channel
know_channel-keeps now name wanted g n e = elim (Option-cases (find_node ("channels/" <> name) g)) [
  | inl f ↦
      rw (f, know_channel) (channel-keeps now name "channels" wanted 0 (components name) g n e)
  | inr (m, f) ↦ rw (f, know_channel) e
]

-- A picture with the message's nodes and a path between them, and the timeout for the subscribers.
pub record IsDelivered (sender channel : String) (h : Graph) (timeout : Option (ℕ × ℕ))
    : Type 0 where
  pub source : Node
  pub target : Node
  pub path : List ℕ
  pub source_found : find_node ("clients/" <> sender) h ≡ some source
  pub target_found : find_node ("channels/" <> channel) h ≡ some target
  pub route : Route h.links source.id target.id path
  pub delayed : timeout ≡ some (target.id, (length path - 1) * 800)

module _ (to_lower : String → String) (includes : String → String → Bool) where
  deliver-IsDelivered :
      (now : ℕ) (sender channel : String) (source target : Node) (g : Graph)
      → IsTied g
      → find_node ("clients/" <> sender) g ≡ some source
      → find_node ("channels/" <> channel) g ≡ some target
      → IsDelivered sender channel
          (deliver to_lower includes now (some source) (some target) g).0
          (deliver to_lower includes now (some source) (some target) g).1
  unfolding deliver find_node
  deliver-IsDelivered now sender channel source target g t e f =
      let (path, result, r) =
        IsTied-found g source.id target.id t (find_node-In _ g source e)
          (find_node-In _ g target f) in
      let same = animate_dot-nodes to_lower includes now path g in
      rw (result, deliver)
        (record {
          source = source;
          target = target;
          path = path;
          source_found = ap (find (has_name ("clients/" <> sender))) same ∙ e;
          target_found = ap (find (has_name ("channels/" <> channel))) same ∙ f;
          route = Route-Covers g.links _ (Covers-animate_dot to_lower includes now path g) r;
          delayed = refl;
        })

  -- In every picture, a message whose sender and channel have names of pieces joined by slashes, neither
  -- empty nor with a slash inside, and whose channel passes the filter, finds a node for either and a
  -- path between them over links that are not subscriptions; the subscribers follow 800 milliseconds
  -- later for each step of the path.
  pub send_message-IsDelivered :
      {g : Graph}
      → Picture to_lower includes g
      → (now : ℕ) (a c : String) (rest cs : List String) → All IsPiece (a ∷ rest)
      → All IsPiece (c ∷ cs)
      → (not (str_eq g.channel_filter "")
          && not (includes (to_lower (joined c cs)) g.channel_filter))
        ≡ false
      → IsDelivered
          (joined a rest)
          (joined c cs)
          (send_message to_lower includes now (joined a rest) (joined c cs) g).0
          (send_message to_lower includes now (joined a rest) (joined c cs) g).1
  unfolding send_message
  send_message-IsDelivered {g} p now a c rest cs h k passes =
      let sender = joined a rest in
      let channel = joined c cs in
      let counted : Graph = record g { reqs_counter = suc g.reqs_counter } in
      let known = know_client now sender counted in
      let (source, found) = know_client-finds now a rest counted h in
      let (target, got) = know_channel-finds now c cs known k in
      rw (passes, found, got, send_message)
        (deliver-IsDelivered now sender channel source target (know_channel now channel known)
          (known-IsTied to_lower includes now sender channel g
            (Picture-IsWell to_lower includes p).0.centered (Picture-IsTied to_lower includes p))
          (know_channel-keeps now channel ("clients/" <> sender) known source found) got)
