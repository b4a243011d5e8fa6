-- ===== src/GraphVis/Drawing.antt =====
-- app/assets/js/oocsi-graphvis.js: what `update` gives to the drawing for each link and each node. The
-- opacities are counted in tenths.
use oocsi_web.Common.{ℕ, ◌*◌, String, Bool, if◌then◌else◌, ltb, ◌==◌}
use oocsi_web.Common.Text.{◌<>◌}
use oocsi_web.GraphVis.Path.{Link, LinkType, client, channel, subscription}
use oocsi_web.GraphVis.Graph.{NodeType, server_node, client_node, channel_node, Node, Graph}
use oocsi_web.GraphVis.Message.{is_node_filtered, is_link_filtered}

-- The class of a line.
unfoldable pub link_class : LinkType → String
link_class client = "link client"
link_class channel = "link channel"
link_class subscription = "link subscription"

-- `type`, and the class and the radius of a circle; `value` is 2 for the centre and 1 elsewhere.
unfoldable pub type_name : NodeType → String
type_name server_node = "server"
type_name client_node = "client"
type_name channel_node = "channel"

unfoldable pub node_class : Node → String
unfolding type_name
node_class n = "node " <> type_name n.type

unfoldable pub node_radius : Node → ℕ
node_radius n = 5 * (if n.id == 0 then 2 else 1)

module _ (to_lower : String → String) (includes : (text part : String) → Bool) where
  -- The opacity of a line.
  unfoldable pub link_opacity : (now : ℕ) → Graph → Link → ℕ
  unfolding is_link_filtered
  link_opacity now g l =
      if is_link_filtered to_lower includes g l then (if ltb l.ttl now then 5 else 10) else 0

  -- The opacity of a circle and of a label that were drawn before.
  unfoldable pub node_opacity : Graph → Node → ℕ
  unfolding is_node_filtered
  node_opacity g n = if is_node_filtered to_lower includes g.client_filter n then 10 else 0
