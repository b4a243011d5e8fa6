-- ===== src/GraphVis/Laws/Paths.antt =====
-- app/assets/js/oocsi-graphvis.js: in every picture each node hangs together with the centre, so there is
-- a path between any two.
use oocsi_web.Common.{
  ℕ, suc, ◌+◌, String, Bool, not, ◌&&◌, ◌||◌, Option, none, some, List, [], ◌∷◌, ◌≡◌, refl, arith,
  In, here, there, inl, inr, Bool-cases, Option-cases, str_eq, ltb, ap, length, leb, all,
}
use oocsi_web.GraphVis.Path.{find_path}
use oocsi_web.GraphVis.Path.Routes.{Route, begin, IsAnswer, find_path-IsAnswer}
use oocsi_web.GraphVis.Graph.{Node, Graph, initial_graph, new_link, is_linked}
use oocsi_web.GraphVis.Message.{
  animate_dot, know_client, know_channel, deliver, send_message, show_node, show_subscribers,
  remove_dot, on_filter_input, max_active_dots, is_shown,
}
use oocsi_web.GraphVis.Laws.Growth.{ids}
use oocsi_web.GraphVis.Widgets.{each_second}
use oocsi_web.GraphVis.Laws.Loop.{show_subscribers-keeps}
use oocsi_web.GraphVis.Laws.Dots.{show_node-In, know_client-keeps}
use oocsi_web.GraphVis.Laws.Pictures.{
  Picture, Picture-IsWell, blank, sent, told, arrived, filtered, ticked,
}
use oocsi_web.GraphVis.Laws.Connected.{
  Covers, Covers-refl, Covers-append, Covers-renew_path, Linked, Linked-trans, Linked-sym,
}
use oocsi_web.GraphVis.Laws.Tied.{IsTied, IsTied-Covers, know_client-IsTied, know_channel-IsTied}

module _ (to_lower : String → String) (includes : String → String → Bool) where
  pub Covers-animate_dot :
      (now : ℕ) (path : List ℕ) (g : Graph)
      → Covers g.links (animate_dot to_lower includes now path g).links
  unfolding animate_dot
  Covers-animate_dot now path g =
      elim (Bool-cases (
        ltb (length path) 2
        || not (all (is_shown to_lower includes g) path)
        || leb max_active_dots g.active_dots)) [
          | inl e ↦ rw (e, animate_dot) (Covers-refl g.links)
          | inr e ↦ rw (e, animate_dot) (Covers-renew_path (now + 30000) path g.links)
        ]

  pub animate_dot-nodes :
      (now : ℕ) (path : List ℕ) (g : Graph)
      → (animate_dot to_lower includes now path g).nodes ≡ g.nodes
  unfolding animate_dot
  animate_dot-nodes now path g = ground arith

  animate_dot-IsTied :
      (now : ℕ) (path : List ℕ) (g : Graph)
      → IsTied g
      → IsTied (animate_dot to_lower includes now path g)
  animate_dot-IsTied now path g t =
      IsTied-Covers g _ (ap ids (animate_dot-nodes now path g)) (Covers-animate_dot now path g) t

  deliver-IsTied :
      (now : ℕ) (source target : Option Node) (g : Graph)
      → IsTied g
      → IsTied (deliver to_lower includes now source target g).0
  unfolding deliver
  deliver-IsTied now none target g t = t
  deliver-IsTied now (some source) none g t = t
  deliver-IsTied now (some source) (some target) g t =
      elim (Option-cases (find_path g.links source.id target.id)) [
        | inl e ↦ rw (e, deliver) t
        | inr (path, e) ↦ rw (e, deliver) (animate_dot-IsTied now path g t)
      ]

  pub known-IsTied :
      (now : ℕ) (sender channel : String) (g : Graph)
      → In 0 (ids g.nodes)
      → IsTied g
      → IsTied (
          know_channel now channel
            (know_client now sender (record g { reqs_counter = suc g.reqs_counter })))
  unfolding IsTied
  known-IsTied now sender channel g m t =
      let counted : Graph = record g { reqs_counter = suc g.reqs_counter } in
      know_channel-IsTied now channel (know_client now sender counted)
        (know_client-keeps 0 now sender counted m) (know_client-IsTied now sender counted m t)

  send_message-IsTied :
      (now : ℕ) (sender channel : String) (g : Graph)
      → In 0 (ids g.nodes)
      → IsTied g
      → IsTied (send_message to_lower includes now sender channel g).0
  unfolding send_message
  send_message-IsTied now sender channel g m t =
      elim (Bool-cases
        (not (str_eq g.channel_filter "") && not (includes (to_lower channel) g.channel_filter))) [
          | inl e ↦ rw (e, send_message) t
          | inr e ↦
              rw (e, send_message)
                (deliver-IsTied now _ _ _ (known-IsTied now sender channel g m t))
        ]

  show_node-IsTied :
      (now target : ℕ) (n : Node) (g : Graph)
      → IsTied g
      → IsTied (show_node to_lower includes now target n g)
  unfolding show_node new_link
  show_node-IsTied now target n g t = elim (Bool-cases (is_linked target n.id g)) [
    | inl e ↦ rw (e, show_node) (animate_dot-IsTied now (target ∷ n.id ∷ []) g t)
    | inr e ↦
        rw (e, show_node)
          (animate_dot-IsTied now (target ∷ n.id ∷ []) _
            (IsTied-Covers g _ refl (Covers-append g.links _) t))
  ]

  show_subscribers-IsTied :
      (now target : ℕ) (ss : List String) (g h : Graph)
      → show_subscribers to_lower includes now target ss g ≡ some h
      → In 0 (ids g.nodes)
      → IsTied g
      → IsTied h
  show_subscribers-IsTied now target ss g h e m t =
      let (_, tied) =
        show_subscribers-keeps to_lower includes (λ g. In 0 (ids g.nodes) × IsTied g) now target
          (λ s g p. (know_client-keeps 0 now s g p.0, know_client-IsTied now s g p.0 p.1))
          (λ s n g f p. (
            show_node-In to_lower includes now target 0 n g p.0,
            show_node-IsTied now target n g p.1,
          ))
          ss g h e (m, t) in
      tied

  blank-IsTied : (clients channels : String) → IsTied (initial_graph clients channels)
  unfolding IsTied initial_graph Linked
  blank-IsTied clients channels i here = (_, begin)
  blank-IsTied clients channels i (there m) = absurd (elim m [ ])

  centered : {g : Graph} → Picture to_lower includes g → In 0 (ids g.nodes)
  centered p = (Picture-IsWell to_lower includes p).0.centered

  pub Picture-IsTied : {g : Graph} → Picture to_lower includes g → IsTied g
  unfolding IsTied remove_dot on_filter_input each_second
  Picture-IsTied (blank clients channels) = blank-IsTied clients channels
  Picture-IsTied (sent p now sender channel) =
      send_message-IsTied now sender channel _ (centered p) (Picture-IsTied p)
  Picture-IsTied (told p now target subscribers m e) =
      show_subscribers-IsTied now target subscribers _ _ e (centered p) (Picture-IsTied p)
  Picture-IsTied (arrived n p e) = Picture-IsTied p
  Picture-IsTied (filtered p value) = Picture-IsTied p
  Picture-IsTied (ticked p now w) = Picture-IsTied p

IsTied-Linked :
    (g : Graph) (i j : ℕ) → IsTied g → In i (ids g.nodes) → In j (ids g.nodes) → Linked g.links i j
unfolding IsTied Linked
IsTied-Linked g i j t m n = Linked-trans g.links i (Linked-sym g.links 0 (t i m).1) (t j n).1

pub IsTied-found :
    (g : Graph) (i j : ℕ)
    → IsTied g
    → In i (ids g.nodes)
    → In j (ids g.nodes)
    → (path : List ℕ) × (find_path g.links i j ≡ some path) × Route g.links i j path
unfolding Linked IsAnswer
IsTied-found g i j t m n =
    let (path, result, answer) = find_path-IsAnswer g.links i j in
    (
      path,
      result,
      elim answer [
        | inl r ↦ r
        | inr (e, none_found) ↦
            let (way, r) = IsTied-Linked g i j t m n in absurd (none_found way r)
      ],
    )

-- In every picture `findPath` finds a path between any two nodes, over links that are not subscriptions.
pub Picture-find_path :
    (to_lower : String → String) (includes : String → String → Bool) {g : Graph}
    → Picture to_lower includes g
    → (i j : ℕ) → In i (ids g.nodes)
    → In j (ids g.nodes)
    → (path : List ℕ) × (find_path g.links i j ≡ some path) × Route g.links i j path
Picture-find_path to_lower includes p i j m n =
    IsTied-found _ i j (Picture-IsTied to_lower includes p) m n
