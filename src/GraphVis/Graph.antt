-- ===== src/GraphVis/Graph.antt =====
-- app/assets/js/oocsi-graphvis.js: the nodes and links of the picture, and how names add to them. A node
-- is told by its id; `centerNode` has the id 0.
use oocsi_web.Common.{
  ℕ, suc, ◌+◌, String, Bool, true, false, not, ◌&&◌, Option, none, some, List, [], ◌∷◌, ◌++◌, code,
  if◌then◌else◌, str_eq, ◌==◌, find, any,
}
use oocsi_web.Common.Text.{◌<>◌}
use oocsi_web.GraphVis.Path.{Link, LinkType, client, channel}

pub data NodeType : Type 0 where
  server_node client_node channel_node : NodeType

-- An entry of `nodes`; a field that the source leaves undefined is `none`.
pub record Node : Type 0 where
  pub id : ℕ
  pub qual_name : Option String
  pub label : String
  pub type : NodeType
  pub chains : List (Option String)

-- The variables of the picture that a message changes; `removals` counts the timeouts that will take
-- a dot away.
pub record Graph : Type 0 where
  pub nodes : List Node
  pub nodes_index : ℕ
  pub links : List Link
  pub client_filter : String
  pub channel_filter : String
  pub reqs_counter : ℕ
  pub active_dots : ℕ
  pub removals : ℕ

abbrev pub center : Node
center = record { id = 0; qual_name = none; label = ""; type = server_node; chains = [] }

unfoldable pub initial_graph : (client_filter channel_filter : String) → Graph
initial_graph clients channels = record {
  nodes = center ∷ [];
  nodes_index = 1;
  links = [];
  client_filter = clients;
  channel_filter = channels;
  reqs_counter = 0;
  active_dots = 0;
  removals = 0;
}

-- `sourceName.split('/').filter(c => c.length > 0)`, with what was read of the current piece.
unfoldable pub components_from : (piece : String) → String → List String
components_from piece String.[] = if str_eq piece "" then [] else piece ∷ []
components_from piece (String.◌∷◌ c s) =
    let next = components_from "" s in
    let same = components_from (piece <> String.◌∷◌ c "") s in
    if code c == 47 then (if str_eq piece "" then next else piece ∷ next) else same

unfoldable pub components : String → List String
unfolding components_from
components s = components_from "" s

unfoldable pub has_name : String → Node → Bool
has_name name n = elim n.qual_name [ none ↦ false | some q ↦ str_eq q name ]

-- `findNode`.
unfoldable pub find_node : String → Graph → Option Node
unfolding has_name
find_node name g = find (has_name name) g.nodes

-- `newLink`.
unfoldable pub new_link : (now source target : ℕ) → LinkType → (strength : ℕ) → Graph → Graph
new_link now source target type strength g = record g {
  links =
      g.links
      ++ (record {
        id = g.nodes_index;
        source = source;
        target = target;
        type = type;
        strength = strength;
        ttl = now + 30000;
      })
        ∷ [];
  nodes_index = suc g.nodes_index;
}

-- `links.find(link => link.source === node && link.target === target)`.
unfoldable pub is_linked : (source target : ℕ) → Graph → Bool
is_linked source target g = any (λ l. l.source == source && l.target == target) g.links

-- `target.chains.push(sourceName)`.
unfoldable pub push_chain : (node : ℕ) → String → List Node → List Node
push_chain node name [] = []
push_chain node name (n ∷ ns) =
    let rest = push_chain node name ns in
    if n.id == node then record n { chains = n.chains ++ some name ∷ [] } ∷ rest else n ∷ rest

-- What `addClient` and `addChannel` do differently: whether a chain is pushed and kept in a new node,
-- the kinds of nodes and links, and the strengths.
unfoldable pub node_type : (is_client : Bool) → NodeType
node_type true = client_node
node_type false = channel_node

unfoldable pub link_type : (is_client : Bool) → LinkType
link_type true = client
link_type false = channel

-- The strengths of a link from a new node and of a link that was missing, in tenths.
unfoldable pub new_strength : (is_client : Bool) → (target : ℕ) → ℕ
new_strength true target = 10
new_strength false target = if target == 0 then 10 else 2

unfoldable pub missing_strength : (is_client : Bool) → ℕ
missing_strength true = 10
missing_strength false = 5

-- A new node of a component with its link to the node before: `newNode`, `newLink` and `nodes.push`.
unfoldable pub grow :
    (is_client : Bool)
    → (now : ℕ) → (source_name qual_name label : String) → (target : ℕ) → Graph
    → Graph
unfolding new_link node_type link_type new_strength
grow is_client now source_name qual_name label target g =
    let linked =
      new_link now g.nodes_index target (link_type is_client) (new_strength is_client target)
        (record g { nodes_index = suc g.nodes_index }) in
    record linked {
      nodes =
          linked.nodes
          ++ (record {
            id = g.nodes_index;
            qual_name = some qual_name;
            label = label;
            type = node_type is_client;
            chains = (if is_client then some source_name else none) ∷ [];
          })
            ∷ [];
    }

-- The link that a known node may miss.
unfoldable pub link_again : (is_client : Bool) → (now node target : ℕ) → Graph → Graph
unfolding is_linked new_link link_type missing_strength
link_again is_client now node target g =
    if is_linked node target g
    then g
    else new_link now node target (link_type is_client) (missing_strength is_client) g

-- The chain that `addClient` pushes to the node before, unless that is the centre.
unfoldable pub note_chain :
    (is_client : Bool) → (previous : ℕ) → (source_name : String) → Graph → Graph
unfolding push_chain
note_chain is_client previous source_name g =
    if is_client && not (previous == 0)
    then record g { nodes = push_chain previous source_name g.nodes }
    else g

-- The loop of `addClient` and of `addChannel`, with the id of `previousNode` and the name so far.
unfoldable pub add_components :
    (is_client : Bool)
    → (now : ℕ) → (source_name qual_name : String) → (previous : ℕ) → List String
    → Graph
    → Graph
unfolding grow link_again find_node note_chain
add_components is_client now source_name qual_name previous [] g = g
add_components is_client now source_name qual_name previous (comp ∷ comps) g =
    let name = qual_name <> "/" <> comp in
    let pushed = note_chain is_client previous source_name g in
    elim (find_node name pushed) [
      | none ↦
          add_components is_client now source_name name pushed.nodes_index comps
            (grow is_client now source_name name comp previous pushed)
      | some node ↦
          add_components is_client now source_name name node.id comps
            (link_again is_client now node.id previous pushed)
    ]

-- `addClient` and `addChannel`.
unfoldable pub add_client : (now : ℕ) → String → Graph → Graph
unfolding add_components components
add_client now name g = add_components true now name "clients" 0 (components name) g

unfoldable pub add_channel : (now : ℕ) → String → Graph → Graph
unfolding add_components components
add_channel now name g = add_components false now name "channels" 0 (components name) g
