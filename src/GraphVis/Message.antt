-- ===== src/GraphVis/Message.antt =====
-- app/assets/js/oocsi-graphvis.js: the filters, the dots, and what a message does to the picture.
use oocsi_web.Common.{
  ℕ, suc, ◌+◌, ◌-◌, ◌*◌, String, Bool, true, false, not, ◌||◌, ◌&&◌, Option, none, some, List, [],
  ◌∷◌, if◌then◌else◌, str_eq, ◌==◌, ltb, leb, length, find, all,
}
use oocsi_web.Common.Text.{◌<>◌, length_text}
use oocsi_web.GraphVis.Path.{Link, subscription, find_path}
use oocsi_web.GraphVis.Graph.{
  NodeType, client_node, Node, Graph, find_node, new_link, is_linked, add_client, add_channel,
}

-- `links.find` of `findLink`, with the link's time to live set anew.
unfoldable pub renew_link : (expiry a b : ℕ) → List Link → List Link
renew_link expiry a b [] = []
renew_link expiry a b (l ∷ ls) =
    let rest = renew_link expiry a b ls in
    if (l.source == a && l.target == b) || (l.source == b && l.target == a)
    then record l { ttl = expiry } ∷ ls
    else l ∷ rest

-- The loop of `animateDot` over the steps of the path.
unfoldable pub renew_path : (expiry : ℕ) → List ℕ → List Link → List Link
unfolding renew_link
renew_path expiry [] links = links
renew_path expiry (a ∷ []) links = links
renew_path expiry (a ∷ b ∷ path) links = renew_path expiry (b ∷ path) (renew_link expiry a b links)

unfoldable pub is_client_node : NodeType → Bool
is_client_node client_node = true
is_client_node _ = false

-- `MAX_ACTIVE_DOTS`.
abbrev pub max_active_dots : ℕ
max_active_dots = 200

-- The node of a client and of a channel is added where it is not found.
unfoldable pub know_client : (now : ℕ) → (name : String) → Graph → Graph
unfolding find_node add_client
know_client now name g = elim (find_node ("clients/" <> name) g) [
  | none ↦ add_client now name g
  | some n ↦ g
]

unfoldable pub know_channel : (now : ℕ) → (name : String) → Graph → Graph
unfolding find_node add_channel
know_channel now name g = elim (find_node ("channels/" <> name) g) [
  | none ↦ add_channel now name g
  | some n ↦ g
]

-- `String.prototype.toLowerCase` and `String.prototype.includes`.
module _ (to_lower : String → String) (includes : (text part : String) → Bool) where
  unfoldable pub has_chain : (filter : String) → List (Option String) → Bool
  has_chain filter [] = false
  has_chain filter (none ∷ cs) = has_chain filter cs
  has_chain filter (some c ∷ cs) = includes (to_lower c) filter || has_chain filter cs

  -- `isNodeFiltered`. The chains of a client are never undefined.
  unfoldable pub is_node_filtered : (filter : String) → Node → Bool
  unfolding is_client_node has_chain
  is_node_filtered filter n =
      str_eq filter "" || (not (is_client_node n.type) || has_chain filter n.chains)

  -- `isNodeFiltered` of the node with an id.
  unfoldable pub is_shown : Graph → (node : ℕ) → Bool
  is_shown g node = elim (find (λ n. n.id == node) g.nodes) [
    | none ↦ false
    | some n ↦ is_node_filtered g.client_filter n
  ]

  -- `isLinkFiltered`.
  unfoldable pub is_link_filtered : Graph → Link → Bool
  unfolding is_shown
  is_link_filtered g l = str_eq g.client_filter "" || (is_shown g l.source && is_shown g l.target)

  -- `animateDot`: the dot is counted, the links of its path live on, and a timeout will remove it.
  unfoldable pub animate_dot : (now : ℕ) → List ℕ → Graph → Graph
  unfolding is_shown renew_path
  animate_dot now path g =
      if ltb (length path) 2 || not (all (is_shown g) path) || leb max_active_dots g.active_dots
      then g
      else record g {
        active_dots = suc g.active_dots;
        removals = suc g.removals;
        links = renew_path (now + 30000) path g.links;
      }

  -- The path and the dot of a message, with the target and the delay of the timeout; `none` where a
  -- node was not found, of which the code reads the id and throws.
  unfoldable pub deliver :
      (now : ℕ) → (source target : Option Node) → Graph → Graph × Option (ℕ × ℕ)
  unfolding animate_dot find_path
  deliver now none target g = (g, none)
  deliver now (some source) none g = (g, none)
  deliver now (some source) (some target) g = elim (find_path g.links source.id target.id) [
    | none ↦ (g, none)
    | some path ↦ (animate_dot now path g, some (target.id, (length path - 1) * 800))
  ]

  -- `sendMessage` up to its timeout.
  unfoldable pub send_message :
      (now : ℕ) → (sender channel : String) → Graph → Graph × Option (ℕ × ℕ)
  unfolding find_node know_client know_channel deliver
  send_message now sender channel g =
      let known = know_client now sender (record g { reqs_counter = suc g.reqs_counter }) in
      let ready = know_channel now channel known in
      if not (str_eq g.channel_filter "") && not (includes (to_lower channel) g.channel_filter)
      then (g, none)
      else deliver now (find_node ("clients/" <> sender) known)
          (find_node ("channels/" <> channel) ready) ready

  -- What the timeout of `sendMessage` does for one subscriber with its node.
  unfoldable pub show_node : (now target : ℕ) → Node → Graph → Graph
  unfolding is_linked new_link animate_dot
  show_node now target n g =
      animate_dot now (target ∷ n.id ∷ [])
        (if is_linked target n.id g then g else new_link now target n.id subscription 0 g)

  -- `none` where the name makes no node: the code then pushes a link without a target, at which d3 throws
  -- in `update`, now and whenever `update` runs again.
  unfoldable pub show_subscriber : (now target : ℕ) → (subscriber : String) → Graph → Option Graph
  unfolding find_node know_client show_node
  show_subscriber now target s g =
      let known = know_client now s g in
      elim (find_node ("clients/" <> s) known) [
        | none ↦ none
        | some n ↦ some (show_node now target n known)
      ]

  -- The timeout of `sendMessage`. As long as every link joins two nodes, `update` throws nothing.
  unfoldable pub show_subscribers : (now target : ℕ) → List String → Graph → Option Graph
  unfolding show_subscriber
  show_subscribers now target [] g = some g
  show_subscribers now target (s ∷ ss) g =
      let passed = show_subscribers now target ss g in
      let shown : Option Graph = elim (show_subscriber now target s g) [
        | none ↦ none
        | some h ↦ show_subscribers now target ss h
      ] in
      if ltb 2 (length_text s) then shown else passed

-- The timeout that removes a dot.
unfoldable pub remove_dot : Graph → Graph
remove_dot g = record g { active_dots = g.active_dots - 1; removals = g.removals - 1 }

-- The listener of the filter's input field.
unfoldable pub on_filter_input : (to_lower : String → String) → (value : String) → Graph → Graph
on_filter_input to_lower value g = record g { client_filter = to_lower value }
