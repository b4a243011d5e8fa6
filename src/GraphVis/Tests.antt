-- ===== src/GraphVis/Tests.antt =====
-- The graph of the picture on small inputs.
use oocsi_web.Common.{
  All, suc, arith, ℕ, String, Bool, none, some, List, [], ◌∷◌, ◌≡◌, refl, str_eq, here, there, inl,
  inr, ◌≤◌, if◌then◌else◌, ◌==◌, ◌||◌, ltb,
}
use oocsi_web.GraphVis.Path.{
  Link, LinkType, client, channel, subscription, find_path, search, scan, trace,
}
use oocsi_web.GraphVis.Graph.{client_node, Node, center, Graph, initial_graph}
use oocsi_web.GraphVis.Message.{send_message, is_node_filtered, on_filter_input}
use oocsi_web.GraphVis.Drawing.{link_opacity, node_opacity}
use oocsi_web.GraphVis.Laws.Growth.{ids}
use oocsi_web.GraphVis.Circles.{update_circles, update_labels, drawn}
use oocsi_web.GraphVis.Laws.Circles.{
  circle_ids, seen, label_shades, circle_shades, update_circles-opacity,
}
use oocsi_web.GraphVis.Laws.Opacity.{link_opacity-node_opacity}
use oocsi_web.GraphVis.Path.Shortest.{find_path-shortest}
use oocsi_web.GraphVis.Laws.Moving.{send_message-moves}
use oocsi_web.GraphVis.Animation.{frames}
use oocsi_web.GraphVis.Laws.Frames.{Climbs, IsOnTime, frames-IsOnTime}
use oocsi_web.GraphVis.Laws.Pictures.{blank, sent, filtered}
use oocsi_web.GraphVis.Laws.Paths.{Picture-find_path}
use oocsi_web.GraphVis.Laws.Names.{joined}
use oocsi_web.GraphVis.Laws.Delivery.{IsDelivered, send_message-IsDelivered}
use oocsi_web.Common.Text.Pieces.{lacks}
use oocsi_web.GraphVis.Path.Routes.{Route, Joins, begin, along, IsAnswer, find_path-IsAnswer}

abbrev link : ℕ → ℕ → LinkType → Link
link a b t = record { id = 9; source = a; target = b; type = t; strength = 1; ttl = 0 }

-- Nodes 1 and 2 hang on the centre 0, node 3 on 2; a subscription joins 3 and 1.
abbrev sample : List Link
sample = link 1 0 client ∷ link 2 0 channel ∷ link 3 2 channel ∷ link 3 1 subscription ∷ []

find_path-sample : find_path sample 1 3 ≡ some (1 ∷ 0 ∷ 2 ∷ 3 ∷ [])
unfolding find_path search scan trace
find_path-sample = refl

find_path-IsAnswer_example :
    (path : List ℕ) × (find_path sample 1 3 ≡ some path) × IsAnswer sample 1 3 path
find_path-IsAnswer_example = find_path-IsAnswer sample 1 3

-- A picture after a message of a client to a channel with two names; every text is its own lower case.
abbrev lower : String → String
lower s = s

abbrev same_text : String → String → Bool
same_text s t = str_eq s t

abbrev first_message : Graph
first_message = (send_message lower same_text 1000 "ann" "home/light" (initial_graph "" "")).0

-- The nodes of the message are numbered 1, 3 and 5.
Picture-find_path_example :
    (path : List ℕ) × (find_path first_message.links 1 5 ≡ some path)
    × Route first_message.links 1 5 path
unfolding find_path search scan trace send_message initial_graph is_node_filtered
Picture-find_path_example =
    Picture-find_path lower same_text (sent (blank "" "") 1000 "ann" "home/light") 1 5 (there here)
      (there (there (there here)))

send_message-IsDelivered_example :
    let message = send_message lower same_text 1000 "ann" "home/light" (initial_graph "" "") in
    IsDelivered "ann" "home/light" message.0 message.1
unfolding joined lacks initial_graph
send_message-IsDelivered_example =
    send_message-IsDelivered lower same_text (blank "" "") 1000 "ann" "home" [] ("light" ∷ [])
      ((refl, refl), tt) ((refl, refl), ((refl, refl), tt)) refl

-- The client of the first message, its line to the centre, and a filter that hides it.
abbrev ann : Node
ann = record {
  id = 1;
  qual_name = some "clients/ann";
  label = "ann";
  type = client_node;
  chains = some "ann" ∷ [];
}

abbrev anns_line : Link
anns_line = record { id = 2; source = 1; target = 0; type = client; strength = 10; ttl = 31000 }

link_opacity-node_opacity_example :
    let hiding = on_filter_input lower "bob" first_message in
    link_opacity lower same_text 2000 hiding anns_line ≡ (
      if node_opacity lower same_text hiding ann == 0
        || node_opacity lower same_text hiding center == 0
      then 0
      else if ltb 31000 2000
      then 5
      else 10)
unfolding send_message initial_graph is_node_filtered on_filter_input search scan trace
link_opacity-node_opacity_example =
    link_opacity-node_opacity lower same_text
      (filtered (sent (blank "" "") 1000 "ann" "home/light") "bob") 2000 anns_line ann center
      (there here) here refl refl

-- Her circle appears although the filter hides her, and is hidden at the next update.
update_circles-opacity_example :
    let hiding = on_filter_input lower "bob" first_message in
    let once = update_circles lower same_text hiding [] in
    (circle_ids once ≡ ids hiding.nodes)
    × (seen ann once ≡ some none)
    × (seen ann (update_circles lower same_text hiding once)
        ≡ some (some (node_opacity lower same_text hiding ann)))
    × (label_shades (update_labels lower same_text hiding []) ≡ circle_shades once)
unfolding send_message initial_graph on_filter_input drawn search scan trace is_node_filtered
    label_shades circle_shades
update_circles-opacity_example =
    update_circles-opacity lower same_text (on_filter_input lower "bob" first_message)
      (filtered (sent (blank "" "") 1000 "ann" "home/light") "bob") [] [] ann (there here) refl

-- A way with a detour, from 1 to the centre and back first.
detour : Route sample 1 3 (1 ∷ 0 ∷ 1 ∷ 0 ∷ 2 ∷ 3 ∷ [])
unfolding Joins
detour =
    along
      (along
        (along
          (along (along begin (link 1 0 client) here (refl, inl (refl, refl))) (link 1 0 client)
            here (refl, inr (refl, refl)))
          (link 1 0 client) here (refl, inl (refl, refl)))
        (link 2 0 channel) (there here) (refl, inr (refl, refl)))
      (link 3 2 channel) (there (there here)) (refl, inr (refl, refl))

find_path-shortest_example : 4 ≤ 6
find_path-shortest_example =
    find_path-shortest sample 1 3 (1 ∷ 0 ∷ 2 ∷ 3 ∷ []) (1 ∷ 0 ∷ 1 ∷ 0 ∷ 2 ∷ 3 ∷ []) find_path-sample
      detour

-- The second message of the client, while the dot of the first moves.
send_message-moves_example :
    (send_message lower same_text 2000 "ann" "home/light" first_message).0.active_dots
    ≡ suc first_message.active_dots
unfolding joined lacks send_message initial_graph is_node_filtered search scan trace
send_message-moves_example =
    send_message-moves lower same_text (sent (blank "" "") 1000 "ann" "home/light") 2000 "ann"
      "home" [] ("light" ∷ []) ((refl, refl), tt) ((refl, refl), ((refl, refl), tt)) refl refl
      (omega arith)

frames-IsOnTime_example : Climbs 0 (frames 3) × All (IsOnTime 3) (frames 3)
frames-IsOnTime_example = frames-IsOnTime 3 (omega arith)
