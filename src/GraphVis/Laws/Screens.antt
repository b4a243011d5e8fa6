-- ===== src/GraphVis/Laws/Screens.antt =====
-- app/assets/js/oocsi-graphvis.js: what holds of the page in every run.
use oocsi_web.Common.{
  ℕ, suc, String, Bool, false, not, ◌&&◌, Option, none, some, List, [], ◌∷◌, ◌++◌, ◌≡◌, refl, sym,
  subst, In, All, All-append, All-imp, inl, inr, Bool-cases, Option-cases, str_eq,
}
use oocsi_web.Common.Text.{◌<>◌}
use oocsi_web.Json.{Value}
use oocsi_web.GraphVis.Path.{find_path}
use oocsi_web.GraphVis.Graph.{Node, Graph, find_node, add_channel, components}
use oocsi_web.GraphVis.Message.{
  know_client, know_channel, deliver, send_message, show_subscribers, remove_dot, on_filter_input,
}
use oocsi_web.GraphVis.Feed.{FeedReach, begin_feed, then_step}
use oocsi_web.GraphVis.Widgets.{each_second}
use oocsi_web.GraphVis.Screen.{
  Telling, Screen, start_screen, set_telling, Happening, receive, pass_second, Run, begin_run, hear,
  tell, land, switch_feed, type_filter, tick,
}
use oocsi_web.GraphVis.Laws.Seen.{IsGated, FeedReach-IsGated}
use oocsi_web.GraphVis.Laws.Growth.{ids, add_components-keeps}
use oocsi_web.GraphVis.Laws.Loop.{show_subscribers-keeps}
use oocsi_web.GraphVis.Laws.Dots.{IsWell, find_node-In, know_client-keeps, show_node-In}
use oocsi_web.GraphVis.Laws.Pictures.{
  Picture, blank, sent, told, arrived, filtered, ticked, Picture-IsWell,
}
use oocsi_web.GraphVis.Laws.Paths.{animate_dot-nodes}

All-without {ℓ κ} :
    {A : Type ℓ} (P : A → Type κ) (xs ys : List A) (x : A)
    → All P (xs ++ x ∷ ys)
    → P x × All P (xs ++ ys)
All-without P [] ys x (p, h) = (p, h)
All-without P (z ∷ xs) ys x (q, h) = let (p, k) = All-without P xs ys x h in (p, (q, k))

know_channel-In :
    (i now : ℕ) (name : String) (g : Graph)
    → In i (ids g.nodes)
    → In i (ids (know_channel now name g).nodes)
unfolding know_channel add_channel
know_channel-In i now name g m = elim (Option-cases (find_node ("channels/" <> name) g)) [
  | inl e ↦
      rw (e, know_channel)
        (add_components-keeps false now i name "channels" 0 (components name) g m)
  | inr (n, e) ↦ rw (e, know_channel) m
]

-- The timeout that is set has a node of the picture.
abbrev IsKnownIn : Graph → Option (ℕ × ℕ) → Type 0
IsKnownIn g none = Unit {0}
IsKnownIn g (some (target, delay)) = In target (ids g.nodes)

module _ (to_lower : String → String) (includes : (text part : String) → Bool) where
  deliver-nodes :
      (now : ℕ) (source target : Option Node) (g : Graph)
      → (deliver to_lower includes now source target g).0.nodes ≡ g.nodes
  unfolding deliver
  deliver-nodes now none target g = refl
  deliver-nodes now (some source) none g = refl
  deliver-nodes now (some source) (some target) g =
      elim (Option-cases (find_path g.links source.id target.id)) [
        | inl e ↦ rw (e, deliver) refl
        | inr (path, e) ↦ rw (e, deliver) (animate_dot-nodes to_lower includes now path g)
      ]

  deliver-IsKnownIn :
      (now : ℕ) (source target : Option Node) (g : Graph)
      → ((n : Node) → target ≡ some n → In n.id (ids g.nodes))
      → let (h, timeout) = deliver to_lower includes now source target g in IsKnownIn h timeout
  unfolding deliver
  deliver-IsKnownIn now none target g known = tt
  deliver-IsKnownIn now (some source) none g known = tt
  deliver-IsKnownIn now (some source) (some target) g known =
      elim (Option-cases (find_path g.links source.id target.id)) [
        | inl e ↦ rw (e, deliver) tt
        | inr (path, e) ↦
            rw (e, deliver)
              (subst (λ ns. In target.id (ids ns))
                (sym (animate_dot-nodes to_lower includes now path g)) (known target refl))
      ]

  send_message-In :
      (i now : ℕ) (sender ch : String) (g : Graph)
      → In i (ids g.nodes)
      → In i (ids (send_message to_lower includes now sender ch g).0.nodes)
  unfolding send_message
  send_message-In i now sender ch g m =
      let counted : Graph = record g { reqs_counter = suc g.reqs_counter } in
      let known = know_client now sender counted in
      let ready = know_channel now ch known in
      elim (Bool-cases
        (not (str_eq g.channel_filter "") && not (includes (to_lower ch) g.channel_filter))) [
          | inl e ↦ rw (e, send_message) m
          | inr e ↦
              rw (e, send_message)
                (subst (λ ns. In i (ids ns)) (sym (deliver-nodes now _ _ ready))
                  (know_channel-In i now ch known (know_client-keeps i now sender counted m)))
        ]

  send_message-IsKnownIn :
      (now : ℕ) (sender ch : String) (g : Graph)
      → let (h, timeout) = send_message to_lower includes now sender ch g in IsKnownIn h timeout
  unfolding send_message
  send_message-IsKnownIn now sender ch g =
      let counted : Graph = record g { reqs_counter = suc g.reqs_counter } in
      let known = know_client now sender counted in
      let ready = know_channel now ch known in
      elim (Bool-cases
        (not (str_eq g.channel_filter "") && not (includes (to_lower ch) g.channel_filter))) [
          | inl e ↦ rw (e, send_message) tt
          | inr e ↦
              rw (e, send_message)
                (deliver-IsKnownIn now _ (find_node ("channels/" <> ch) ready) ready
                  (find_node-In ("channels/" <> ch) ready))
        ]

  -- The timeouts that wait have channels that are nodes of the picture.
  abbrev pub IsAwaited : Graph → List Telling → Type 0
  IsAwaited g ts = All (λ w. In w.target (ids g.nodes)) ts

  IsAwaited-In :
      (g h : Graph) (ts : List Telling)
      → ((i : ℕ) → In i (ids g.nodes) → In i (ids h.nodes))
      → IsAwaited g ts
      → IsAwaited h ts
  IsAwaited-In g h ts keeps a = All-imp _ _ ts (λ w m. keeps w.target m) a

  set_telling-IsAwaited :
      (g : Graph) (timeout : Option (ℕ × ℕ)) (names : List String) (ts : List Telling)
      → IsKnownIn g timeout
      → IsAwaited g ts
      → IsAwaited g (set_telling timeout names ts)
  unfolding set_telling
  set_telling-IsAwaited g none names ts k a = a
  set_telling-IsAwaited g (some (target, delay)) names ts k a = All-append _ ts _ a (k, tt)

  show_subscribers-In :
      (now target : ℕ) (names : List String) (g h : Graph)
      → show_subscribers to_lower includes now target names g ≡ some h
      → (i : ℕ) → In i (ids g.nodes)
      → In i (ids h.nodes)
  show_subscribers-In now target names g h e i m =
      show_subscribers-keeps to_lower includes (λ g. In i (ids g.nodes)) now target
        (λ s g m. know_client-keeps i now s g m)
        (λ s n g f m. show_node-In to_lower includes now target i n g m) names g h e m

  -- The parts of the page.
  pub record IsWhole (s : Screen) : Type 0 where
    pub picture : Picture to_lower includes s.graph
    pub awaited : IsAwaited s.graph s.tellings
    pub reached : FeedReach s.feed

  module _ (parse : String → Option Value) where
    pub Run-IsWhole :
        {hs : List Happening} {s : Screen} → Run to_lower includes parse hs s → IsWhole s
    unfolding start_screen receive pass_second each_second remove_dot on_filter_input
    Run-IsWhole (begin_run clients channels o hidden) = record {
      picture = blank clients channels;
      awaited = tt;
      reached = begin_feed o hidden;
    }
    Run-IsWhole (hear {hs} {s} text e r run live read written now) =
        let whole = Run-IsWhole run in
        let (h, timeout) = send_message to_lower includes now r.sender r.channel s.graph in
        record {
          picture = sent whole.picture now r.sender r.channel;
          awaited =
              set_telling-IsAwaited h timeout r.subscribers s.tellings
                (send_message-IsKnownIn now r.sender r.channel s.graph)
                (IsAwaited-In s.graph h s.tellings
                  (λ i m. send_message-In i now r.sender r.channel s.graph m) whole.awaited);
          reached = whole.reached;
        }
    Run-IsWhole (tell {hs} {s} {h} run before after w waits now e) =
        let whole = Run-IsWhole run in
        let (known, rest) =
          All-without _ before after w (subst (IsAwaited s.graph) waits whole.awaited) in
        record {
          picture = told whole.picture now w.target w.subscribers known e;
          awaited =
              IsAwaited-In s.graph h (before ++ after)
                (show_subscribers-In now w.target w.subscribers s.graph h e) rest;
          reached = whole.reached;
        }
    Run-IsWhole (land n run e) =
        let whole = Run-IsWhole run in
        record {
          picture = arrived n whole.picture e;
          awaited = whole.awaited;
          reached = whole.reached;
        }
    Run-IsWhole (switch_feed run step) =
        let whole = Run-IsWhole run in
        record {
          picture = whole.picture;
          awaited = whole.awaited;
          reached = then_step whole.reached step;
        }
    Run-IsWhole (type_filter run value) =
        let whole = Run-IsWhole run in
        record {
          picture = filtered whole.picture value;
          awaited = whole.awaited;
          reached = whole.reached;
        }
    Run-IsWhole (tick {hs} {s} run now) =
        let whole = Run-IsWhole run in
        record {
          picture = ticked whole.picture now s.sparklines;
          awaited = whole.awaited;
          reached = whole.reached;
        }

    -- However a page runs, as long as no timeout has pushed a link without a target for a subscriber whose name
    -- makes no node: no two nodes have one id and the next id is new, every link joins two nodes of the
    -- picture, and at most 200 dots move, as many as there are timeouts that will remove one; every timeout of a
    -- message that waits has a channel that is a node; and the event source is open only while the picture is in
    -- view on a page that is shown, and while it is, the source is open or a timeout is set that will open it.
    pub Run-IsWell :
        {hs : List Happening} {s : Screen}
        → Run to_lower includes parse hs s
        → IsWell s.graph × IsAwaited s.graph s.tellings × IsGated s.feed
    Run-IsWell run =
        let whole = Run-IsWhole run in
        (
          Picture-IsWell to_lower includes whole.picture,
          whole.awaited,
          FeedReach-IsGated whole.reached,
        )
