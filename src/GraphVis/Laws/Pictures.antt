-- ===== src/GraphVis/Laws/Pictures.antt =====
-- app/assets/js/oocsi-graphvis.js: the pictures that messages, timeouts and the filter lead to.
use oocsi_web.Common.{ℕ, suc, String, Bool, List, some, ◌≡◌, refl, arith, In, here}
use oocsi_web.GraphVis.Graph.{Graph, initial_graph}
use oocsi_web.GraphVis.Message.{send_message, show_subscribers, remove_dot, on_filter_input}
use oocsi_web.GraphVis.Widgets.{Sparklines, each_second}
use oocsi_web.GraphVis.Laws.Growth.{ids, IsDistinct}
use oocsi_web.GraphVis.Laws.Dots.{IsWell, send_message-IsWell, show_subscribers-IsWell}

-- A message, its timeout (the target is a node that the message found), the timeout of a dot, another
-- filter, and a second of the sparklines.
pub data Picture (to_lower : String → String) (includes : String → String → Bool)
    : Graph → Type 0 where
  blank : (clients channels : String) → Picture to_lower includes (initial_graph clients channels)
  sent :
      {g : Graph}
      → Picture to_lower includes g
      → (now : ℕ) (sender channel : String)
      → Picture to_lower includes (send_message to_lower includes now sender channel g).0
  told :
      {g h : Graph}
      → Picture to_lower includes g
      → (now target : ℕ) (subscribers : List String) → In target (ids g.nodes)
      → show_subscribers to_lower includes now target subscribers g ≡ some h
      → Picture to_lower includes h
  arrived :
      {g : Graph} (n : ℕ)
      → Picture to_lower includes g
      → g.removals ≡ suc n
      → Picture to_lower includes (remove_dot g)
  filtered :
      {g : Graph}
      → Picture to_lower includes g
      → (value : String) → Picture to_lower includes (on_filter_input to_lower value g)
  ticked :
      {g : Graph}
      → Picture to_lower includes g
      → (now : ℕ) (w : Sparklines) → Picture to_lower includes (each_second now (w, g)).1

blank-IsWell : (clients channels : String) → IsWell (initial_graph clients channels)
unfolding initial_graph IsDistinct
blank-IsWell clients channels = (
  record {
    distinct = (λ m. elim m [ ], tt);
    fresh = (omega arith, tt);
    centered = here;
    attached = tt;
  },
  (omega arith, refl),
)

remove_dot-IsWell : (g : Graph) → IsWell g → IsWell (remove_dot g)
unfolding remove_dot
remove_dot-IsWell g (h, k) = (
  record { distinct = h.distinct; fresh = h.fresh; centered = h.centered; attached = h.attached },
  ground (arith, k),
)

on_filter_input-IsWell :
    (to_lower : String → String) (value : String) (g : Graph)
    → IsWell g
    → IsWell (on_filter_input to_lower value g)
unfolding on_filter_input
on_filter_input-IsWell to_lower value g (h, k) = (
  record { distinct = h.distinct; fresh = h.fresh; centered = h.centered; attached = h.attached },
  k,
)

each_second-IsWell :
    (now : ℕ) (w : Sparklines) (g : Graph) → IsWell g → IsWell (each_second now (w, g)).1
unfolding each_second
each_second-IsWell now w g (h, k) = (
  record { distinct = h.distinct; fresh = h.fresh; centered = h.centered; attached = h.attached },
  k,
)

-- In every picture that messages, timeouts, filters and seconds lead to, no two nodes have one id and the next
-- id is new, every link joins two nodes of the picture, and at most 200 dots move, as many as there are
-- timeouts that will remove one.
pub Picture-IsWell :
    (to_lower : String → String) (includes : String → String → Bool) {g : Graph}
    → Picture to_lower includes g
    → IsWell g
Picture-IsWell to_lower includes (blank clients channels) = blank-IsWell clients channels
Picture-IsWell to_lower includes (sent p now sender channel) =
    send_message-IsWell to_lower includes now sender channel _ (Picture-IsWell to_lower includes p)
Picture-IsWell to_lower includes (told p now target subscribers m e) =
    show_subscribers-IsWell to_lower includes now target subscribers _ _ e m
      (Picture-IsWell to_lower includes p)
Picture-IsWell to_lower includes (arrived n p e) =
    remove_dot-IsWell _ (Picture-IsWell to_lower includes p)
Picture-IsWell to_lower includes (filtered p value) =
    on_filter_input-IsWell to_lower value _ (Picture-IsWell to_lower includes p)
Picture-IsWell to_lower includes (ticked p now w) =
    each_second-IsWell now w _ (Picture-IsWell to_lower includes p)
