-- ===== src/GraphVis/Laws/Told.antt =====
-- app/assets/js/oocsi-graphvis.js: from a message of the server to the links of its subscribers.
use oocsi_web.Common.{
  sym, ◌∙◌, arith, ℕ, String, Bool, true, false, not, ◌&&◌, Option, some, List, [], ◌∷◌, ◌++◌, ◌≡◌,
  refl, ap, In, All, str_eq, ltb,
}
use oocsi_web.Common.Text.{◌<>◌, length_text}
use oocsi_web.Json.{Value}
use oocsi_web.GraphVis.Graph.{Node, Graph, find_node}
use oocsi_web.GraphVis.Message.{send_message, show_subscribers}
use oocsi_web.GraphVis.Report.{Report}
use oocsi_web.GraphVis.Screen.{
  Telling, Screen, set_telling, Happening, receive, Run, Breaks, breaks,
}
use oocsi_web.GraphVis.Laws.Names.{IsPiece, joined}
use oocsi_web.GraphVis.Laws.Delivery.{send_message-IsDelivered}
use oocsi_web.GraphVis.Laws.Subscribers.{IsLinked}
use oocsi_web.GraphVis.Laws.Telling.{IsShowable, show_subscribers-shows, show_subscribers-links}
use oocsi_web.GraphVis.Laws.Growth.{ids}
use oocsi_web.GraphVis.Laws.Dots.{IsWell, find_node-In}
use oocsi_web.GraphVis.Laws.Pictures.{told, Picture-IsWell}
use oocsi_web.GraphVis.Laws.Screens.{Run-IsWhole}

module _ (to_lower : String → String) (includes : (text part : String) → Bool)
    (parse : String → Option Value) where
  -- A message that was heard, with its timeout `w`; `h` is what the timeout makes of the picture `k`, in
  -- which every link joins two nodes, and `subscriber` is one of those that it shows.
  pub record IsTold (now later : ℕ) (r : Report) (s : Screen) (k : Graph) (subscriber : String)
      : Type 0 where
    pub w : Telling
    pub h : Graph
    pub channel_node : Node
    pub set : (receive to_lower includes parse now r s).tellings ≡ s.tellings ++ w ∷ []
    pub found :
        find_node ("channels/" <> r.channel) (receive to_lower includes parse now r s).graph
        ≡ some channel_node
    pub joins : w.target ≡ channel_node.id
    pub shown : show_subscribers to_lower includes later w.target w.subscribers k ≡ some h
    pub whole : IsWell h
    pub linked : IsLinked w.target ("clients/" <> subscriber) h

  -- On a page in any run, a message of the server whose sender and channel have good names and whose
  -- channel passes the filter sets a timeout for its channel. Whenever that timeout comes on a page that is still
  -- in a run, and so has a target for every link, and that has the nodes that it had after the message, the
  -- timeout runs to its end, links the channel to a node of each subscriber of three characters or more, and
  -- leaves a picture in which every link joins two nodes. Good names are made of pieces joined by slashes,
  -- neither empty nor with a slash inside, and the subscribers have good names or fewer than three
  -- characters.
  pub receive-IsTold :
      {hs js : List Happening} {s u : Screen}
      → Run to_lower includes parse hs s
      → Run to_lower includes parse js u
      → (now later : ℕ) (a c b : String) (rest cs bs : List String) (names : List String)
      → All IsPiece (a ∷ rest)
      → All IsPiece (c ∷ cs)
      → (not (str_eq s.graph.channel_filter "")
          && not (includes (to_lower (joined c cs)) s.graph.channel_filter))
        ≡ false
      → All IsShowable names
      → In (joined b bs) names
      → All IsPiece (b ∷ bs)
      → ltb 2 (length_text (joined b bs)) ≡ true
      → ((i : ℕ)
          → In i (
              ids
                (receive to_lower includes parse now
                  (record { sender = joined a rest; channel = joined c cs; subscribers = names })
                  s).graph.nodes)
          → In i (ids u.graph.nodes))
      → IsTold now later
          (record { sender = joined a rest; channel = joined c cs; subscribers = names })
          s
          u.graph
          (joined b bs)
  unfolding receive set_telling
  receive-IsTold {hs} {js} {s} {u} run going now later a c b rest cs bs names p q passes showable m
        l long stays =
      let d =
        send_message-IsDelivered to_lower includes (Run-IsWhole to_lower includes parse run).picture
          now a c rest cs p q passes in
      let (h, e) =
        show_subscribers-shows to_lower includes d.target.id later names u.graph showable in
      let known = stays d.target.id (
        find_node-In ("channels/" <> joined c cs)
          (send_message to_lower includes now (joined a rest) (joined c cs) s.graph).0 d.target
          d.target_found) in
      let picture = (Run-IsWhole to_lower includes parse going).picture in
      record {
        w = record { delay = _; target = d.target.id; subscribers = names };
        h = h;
        channel_node = d.target;
        set = ap (λ t. set_telling t names s.tellings) d.delayed;
        found = d.target_found;
        joins = refl;
        shown = e;
        whole = Picture-IsWell to_lower includes (told picture later d.target.id names known e);
        linked =
            show_subscribers-links to_lower includes d.target.id later b bs names u.graph h m l long
              e;
      }

  -- A timeout breaks the picture of a page, with a link that has no target, only if it has a subscriber of three
  -- characters or more whose name is not made of pieces joined by slashes, neither empty nor with a slash
  -- inside.
  pub Breaks-cause :
      (s : Screen) (w : Telling)
      → Breaks to_lower includes parse s w
      → ¬ All IsShowable w.subscribers
  Breaks-cause s w (breaks run before after w' held now none_shown) showable =
      let (h, shown) =
        show_subscribers-shows to_lower includes w'.target now w'.subscribers s.graph showable in
      absurd (ground (arith, sym none_shown ∙ shown))
