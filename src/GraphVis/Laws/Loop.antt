-- ===== src/GraphVis/Laws/Loop.antt =====
-- app/assets/js/oocsi-graphvis.js: what the loop of the timeout of `sendMessage` keeps.
use oocsi_web.Common.{
  ℕ, String, Bool, some, List, [], ◌∷◌, ◌≡◌, subst, arith, Bool-cases, Option-cases, inl, inr, ltb,
}
use oocsi_web.Common.Text.{◌<>◌, length_text}
use oocsi_web.GraphVis.Graph.{Node, Graph, find_node}
use oocsi_web.GraphVis.Message.{know_client, show_node, show_subscriber, show_subscribers}

-- A property that a client keeps which is added, and that a node keeps which is shown.
module _ {ℓ} (to_lower : String → String) (includes : String → String → Bool) (P : Graph → Type ℓ)
    (now target : ℕ) (know_keeps : (s : String) (g : Graph) → P g → P (know_client now s g))
    (node_keeps : (s : String) (n : Node) (g : Graph)
      → find_node ("clients/" <> s) g ≡ some n
      → P g
      → P (show_node to_lower includes now target n g)) where
  show_subscriber-keeps :
      (s : String) (g h : Graph)
      → show_subscriber to_lower includes now target s g ≡ some h
      → P g
      → P h
  unfolding show_subscriber
  show_subscriber-keeps s g h e p =
      let known = know_client now s g in
      elim (Option-cases (find_node ("clients/" <> s) known)) [
        | inl f ↦ absurd (ground (arith, e, f))
        | inr (n, f) ↦
            let same : show_node to_lower includes now target n known ≡ h = ground (arith, e, f) in
            subst P same (node_keeps s n known f (know_keeps s g p))
      ]

  pub show_subscribers-keeps :
      (ss : List String) (g h : Graph)
      → show_subscribers to_lower includes now target ss g ≡ some h
      → P g
      → P h
  unfolding show_subscribers
  show_subscribers-keeps [] g h e p = let same : g ≡ h = ground (arith, e) in subst P same p
  show_subscribers-keeps (s ∷ ss) g h e p = elim (Bool-cases (ltb 2 (length_text s))) [
    | inr short ↦ show_subscribers-keeps ss g h (ground (arith, e, short)) p
    | inl long ↦ elim (Option-cases (show_subscriber to_lower includes now target s g)) [
      | inl f ↦ absurd (ground (arith, e, long, f))
      | inr (k, f) ↦
          show_subscribers-keeps ss k h (ground (arith, e, long, f))
            (show_subscriber-keeps s g k f p)
    ]
  ]
