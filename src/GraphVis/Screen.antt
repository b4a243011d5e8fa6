-- ===== src/GraphVis/Screen.antt =====
-- app/assets/js/oocsi-graphvis.js: the page as a whole. Its state is the picture, the event source, the
-- sparklines and the timeouts of `sendMessage` that wait; a run is what happens to it, in any order.
use oocsi_web.Common.{ℕ, suc, String, Bool, true, Option, none, some, List, [], ◌∷◌, ◌++◌, ◌≡◌}
use oocsi_web.Json.{Value}
use oocsi_web.GraphVis.Graph.{Graph, initial_graph}
use oocsi_web.GraphVis.Message.{send_message, show_subscribers, remove_dot, on_filter_input}
use oocsi_web.GraphVis.Feed.{Feed, FeedStep, initial_feed}
use oocsi_web.GraphVis.Widgets.{Sparklines, first_sparklines, each_second}
use oocsi_web.GraphVis.Report.{Report, read_text, report}

-- A timeout of `sendMessage`: its delay, the channel's node, and the subscribers.
pub record Telling : Type 0 where
  pub delay : ℕ
  pub target : ℕ
  pub subscribers : List String

pub record Screen : Type 0 where
  pub graph : Graph
  pub feed : Feed
  pub sparklines : Sparklines
  pub tellings : List Telling

-- `channelFilter` and `initialClientFilter`, whether the browser has an observer, and `document.hidden`.
unfoldable pub start_screen : (clients channels : String) → (has_observer hidden : Bool) → Screen
unfolding initial_graph initial_feed
start_screen clients channels has_observer hidden = record {
  graph = initial_graph clients channels;
  feed = initial_feed has_observer hidden;
  sparklines = first_sparklines;
  tellings = [];
}

-- `setTimeout` at the end of `sendMessage`, which an exception before it skips.
unfoldable pub set_telling :
    Option (ℕ × ℕ) → (subscribers : List String) → List Telling → List Telling
set_telling none names ts = ts
set_telling (some (target, delay)) names ts =
    ts ++ (record { delay = delay; target = target; subscribers = names }) ∷ []

-- What happens to the page: a message on a channel, a second of the sparklines, or anything else.
pub data Happening : Type 0 where
  message : (channel : String) → Happening
  second : Happening
  another : Happening

-- The interval of the sparklines.
unfoldable pub pass_second : (now : ℕ) → Screen → Screen
unfolding each_second
pass_second now s =
    let (sparklines, graph) = each_second now (s.sparklines, s.graph) in
    record s { graph = graph; sparklines = sparklines }

module _ (to_lower : String → String) (includes : (text part : String) → Bool)
    (parse : String → Option Value) where
  -- The listener of the event source calls `sendMessage`.
  unfoldable pub receive : (now : ℕ) → Report → Screen → Screen
  unfolding send_message set_telling
  receive now r s =
      let (graph, timeout) = send_message to_lower includes now r.sender r.channel s.graph in
      record s { graph = graph; tellings = set_telling timeout r.subscribers s.tellings }

  -- The runs of the page while every link has a target, the newest happening first. A text that is no JSON or
  -- no true value changes nothing.
  pub data Run : List Happening → Screen → Type 0 where
    begin_run :
        (clients channels : String) (has_observer hidden : Bool)
        → Run [] (start_screen clients channels has_observer hidden)
    hear :
        {hs : List Happening} {s : Screen} (text : String) (e : Value) (r : Report)
        → Run hs s
        → s.feed.event_source ≡ true
        → read_text parse text ≡ some e
        → report e ≡ some r
        → (now : ℕ) → Run (message r.channel ∷ hs) (receive now r s)
    tell :
        {hs : List Happening} {s : Screen} {h : Graph}
        → Run hs s
        → (before after : List Telling) (w : Telling) → s.tellings ≡ before ++ w ∷ after
        → (now : ℕ) → show_subscribers to_lower includes now w.target w.subscribers s.graph ≡ some h
        → Run (another ∷ hs) (record s { graph = h; tellings = before ++ after })
    land :
        {hs : List Happening} {s : Screen} (n : ℕ)
        → Run hs s
        → s.graph.removals ≡ suc n
        → Run (another ∷ hs) (record s { graph = remove_dot s.graph })
    switch_feed :
        {hs : List Happening} {s : Screen} {f : Feed}
        → Run hs s
        → FeedStep s.feed f
        → Run (another ∷ hs) (record s { feed = f })
    type_filter :
        {hs : List Happening} {s : Screen}
        → Run hs s
        → (value : String)
        → Run (another ∷ hs) (record s { graph = on_filter_input to_lower value s.graph })
    tick :
        {hs : List Happening} {s : Screen}
        → Run hs s
        → (now : ℕ) → Run (second ∷ hs) (pass_second now s)

  -- The end of a run: a timeout pushes a link without a target, for a subscriber whose name makes no node. The
  -- force of d3 then throws at this and every later `update`; the page after that is not modelled.
  pub data Breaks : Screen → Telling → Type 0 where
    breaks :
        {hs : List Happening} {s : Screen}
        → Run hs s
        → (before after : List Telling) (w : Telling) → s.tellings ≡ before ++ w ∷ after
        → (now : ℕ) → show_subscribers to_lower includes now w.target w.subscribers s.graph ≡ none
        → Breaks s w
