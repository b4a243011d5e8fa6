-- ===== src/GraphVis/Laws/Counting.antt =====
-- app/assets/js/oocsi-graphvis.js: `reqsCounter` counts the messages, and the sparkline of the messages shows
-- its last values.
use oocsi_web.Common.{
  ℕ, suc, String, Bool, Option, none, some, List, ◌++◌, ◌≡◌, ◌∙◌, refl, sym, ap, arith, inl, inr,
  Bool-cases, Option-cases, if◌then◌else◌, str_eq,
}
use oocsi_web.Common.Text.{◌<>◌}
use oocsi_web.GraphVis.Path.{find_path}
use oocsi_web.GraphVis.Graph.{Node, Graph, initial_graph, find_node, new_link}
use oocsi_web.GraphVis.Message.{
  remove_dot, on_filter_input, animate_dot, know_client, know_channel, deliver, send_message,
  show_node, show_subscribers,
}
use oocsi_web.Json.{Value}
use oocsi_web.GraphVis.Widgets.{first_data, push_datum, each_second}
use oocsi_web.GraphVis.Screen.{
  Screen, Happening, Run, begin_run, hear, tell, land, switch_feed, type_filter, tick, start_screen,
  receive, pass_second,
}
use oocsi_web.GraphVis.Laws.Loop.{show_subscribers-keeps}
use oocsi_web.GraphVis.Laws.Untouched.{know_client-untouched, know_channel-untouched}
use oocsi_web.GraphVis.Laws.Sparkline.{
  last_of, push_all, push_all-last_of, push_all-last, is_accepted, tally,
}

-- The counter and the filter of the channels stand as they are.
abbrev Same : (g h : Graph) → Type 0
Same g h = (h.reqs_counter ≡ g.reqs_counter) × (h.channel_filter ≡ g.channel_filter)

know_client-Same : (now : ℕ) (name : String) (g : Graph) → Same g (know_client now name g)
know_client-Same now name g = (
  know_client-untouched (λ g. g.reqs_counter) (λ g ns k ls. refl) now name g,
  know_client-untouched (λ g. g.channel_filter) (λ g ns k ls. refl) now name g,
)

know_channel-Same : (now : ℕ) (name : String) (g : Graph) → Same g (know_channel now name g)
know_channel-Same now name g = (
  know_channel-untouched (λ g. g.reqs_counter) (λ g ns k ls. refl) now name g,
  know_channel-untouched (λ g. g.channel_filter) (λ g ns k ls. refl) now name g,
)

module _ (to_lower : String → String) (includes : (text part : String) → Bool) where
  animate_dot-Same :
      (now : ℕ) (path : List ℕ) (g : Graph) → Same g (animate_dot to_lower includes now path g)
  unfolding animate_dot
  animate_dot-Same now path g = ground arith

  deliver-Same :
      (now : ℕ) (source target : Option Node) (g : Graph)
      → Same g (deliver to_lower includes now source target g).0
  unfolding deliver
  deliver-Same now none target g = (refl, refl)
  deliver-Same now (some source) none g = (refl, refl)
  deliver-Same now (some source) (some target) g =
      elim (Option-cases (find_path g.links source.id target.id)) [
        | inl e ↦ rw (e, deliver) (refl, refl)
        | inr (path, e) ↦ rw (e, deliver) (animate_dot-Same now path g)
      ]

  send_message-counts :
      (now : ℕ) (sender ch : String) (g : Graph)
      → ((send_message to_lower includes now sender ch g).0.reqs_counter ≡ (
          if is_accepted to_lower includes g.channel_filter ch
          then suc g.reqs_counter
          else g.reqs_counter))
        × ((send_message to_lower includes now sender ch g).0.channel_filter ≡ g.channel_filter)
  unfolding send_message is_accepted
  send_message-counts now sender ch g =
      let counted : Graph = record g { reqs_counter = suc g.reqs_counter } in
      let known = know_client now sender counted in
      let ready = know_channel now ch known in
      let a = know_client-Same now sender counted in
      let b = know_channel-Same now ch known in
      let c =
        deliver-Same now (find_node ("clients/" <> sender) known)
          (find_node ("channels/" <> ch) ready) ready in
      elim (Bool-cases (str_eq g.channel_filter "")) [
        | inl e ↦ rw (e, send_message, is_accepted) (c.0 ∙ b.0 ∙ a.0, c.1 ∙ b.1 ∙ a.1)
        | inr e ↦ elim (Bool-cases (includes (to_lower ch) g.channel_filter)) [
          | inl f ↦ rw (e, f, send_message, is_accepted) (c.0 ∙ b.0 ∙ a.0, c.1 ∙ b.1 ∙ a.1)
          | inr f ↦ rw (e, f, send_message, is_accepted) (refl, refl)
        ]
      ]

  show_node-Same :
      (now target : ℕ) (n : Node) (g : Graph) → Same g (show_node to_lower includes now target n g)
  unfolding show_node new_link animate_dot
  show_node-Same now target n g = ground arith

  show_subscribers-Same :
      (now target : ℕ) (names : List String) (g h : Graph)
      → show_subscribers to_lower includes now target names g ≡ some h
      → Same g h
  show_subscribers-Same now target names g h e =
      show_subscribers-keeps to_lower includes (Same g) now target
        (λ s k p. let a = know_client-Same now s k in (a.0 ∙ p.0, a.1 ∙ p.1))
        (λ s n k f p. let a = show_node-Same now target n k in (a.0 ∙ p.0, a.1 ∙ p.1)) names g h e
        (refl, refl)

  -- The state of the sparkline: what was pushed, what is counted, and the filter.
  IsTallied : (filter : String) → List Happening → Screen → Type 0
  IsTallied filter hs s =
      (s.sparklines.messages ≡ push_all (tally to_lower includes filter hs).0 first_data)
      × (s.graph.reqs_counter ≡ (tally to_lower includes filter hs).1)
      × (s.graph.channel_filter ≡ filter)

  module _ (parse : String → Option Value) where
    Run-IsTallied :
        {hs : List Happening} {s : Screen}
        → Run to_lower includes parse hs s
        → (filter : String) × IsTallied filter hs s
    unfolding IsTallied push_all tally start_screen initial_graph receive pass_second each_second
        remove_dot on_filter_input
    Run-IsTallied (begin_run clients channels o hidden) = (channels, (refl, refl, refl))
    Run-IsTallied (hear {hs} {s} text e r run live read written now) =
        let (filter, (shown, counted, same)) = Run-IsTallied run in
        let (more, kept) = send_message-counts now r.sender r.channel s.graph in
        let one_more : String → ℕ → ℕ =
          λ f k. if is_accepted to_lower includes f r.channel then suc k else k in
        let now_counted =
          more ∙ ap (λ f. one_more f s.graph.reqs_counter) same ∙ ap (one_more filter) counted in
        (filter, (shown, now_counted, kept ∙ same))
    Run-IsTallied (tell {s} {h} run before after w waits now e) =
        let (filter, (shown, counted, same)) = Run-IsTallied run in
        let (more, kept) = show_subscribers-Same now w.target w.subscribers s.graph h e in
        (filter, (shown, more ∙ counted, kept ∙ same))
    Run-IsTallied (land n run e) = Run-IsTallied run
    Run-IsTallied (switch_feed run step) = Run-IsTallied run
    Run-IsTallied (type_filter run value) = Run-IsTallied run
    Run-IsTallied (tick {hs} {s} run now) =
        let (filter, (shown, counted, same)) = Run-IsTallied run in
        let (over, running) = tally to_lower includes filter hs in
        let pushed =
          ap (λ k. push_datum k s.sparklines.messages) counted
          ∙ ap (push_datum running) shown
          ∙ sym (push_all-last over running first_data) in
        (filter, (pushed, refl, same))

    -- However a page runs, as long as no timeout has pushed a link without a target, with its filter of the
    -- channels: the sparkline of the messages shows the
    -- last 101 of four zeros and, second by second, the numbers of messages whose channel passes the filter.
    pub Run-tally :
        {hs : List Happening} {s : Screen}
        → Run to_lower includes parse hs s
        → s.sparklines.messages
          ≡ last_of 101 (first_data ++ (tally to_lower includes s.graph.channel_filter hs).0)
    unfolding IsTallied
    Run-tally {hs} {s} run =
        let (filter, (shown, counted, same)) = Run-IsTallied run in
        shown
        ∙ push_all-last_of (tally to_lower includes filter hs).0 first_data (omega arith)
        ∙ ap (λ f. last_of 101 (first_data ++ (tally to_lower includes f hs).0)) (sym same)
