-- ===== src/GraphVis/Laws/Telling.antt =====
-- app/assets/js/oocsi-graphvis.js: the timeout of a message links its channel to every subscriber.
use oocsi_web.Common.{
  ℕ, ◌+◌, String, Bool, true, not, ◌&&◌, ◌||◌, some, List, [], ◌∷◌, ◌≡◌, ◌∙◌, refl, ap, arith, In,
  here, there, inl, inr, All, Bool-cases, Option-cases, false, length, ltb, leb, all, any, ◌==◌,
  ==_iff,
}
use oocsi_web.Common.Text.{◌<>◌, length_text}
use oocsi_web.GraphVis.Path.{Link}
use oocsi_web.GraphVis.Graph.{Node, Graph, find_node, is_linked, new_link}
use oocsi_web.GraphVis.Message.{
  renew_link, renew_path, is_shown, max_active_dots, animate_dot, know_client, show_node,
  show_subscriber, show_subscribers,
}
use oocsi_web.GraphVis.Laws.Loop.{show_subscribers-keeps}
use oocsi_web.GraphVis.Laws.Names.{IsPiece, joined}
use oocsi_web.GraphVis.Laws.Delivery.{know_client-finds}
use oocsi_web.GraphVis.Laws.Subscribers.{IsLinked, know_client-IsLinked, any-append, any-last}

module _ (target k : ℕ) where
  is_link : Link → Bool
  is_link l = l.source == target && l.target == k

  any-renew_link : (e a b : ℕ) (ls : List Link) → any is_link (renew_link e a b ls) ≡ any is_link ls
  unfolding renew_link is_link
  any-renew_link e a b [] = refl
  any-renew_link e a b (l ∷ ls) =
      elim (Bool-cases ((l.source == a && l.target == b) || (l.source == b && l.target == a))) [
        | inl t ↦ rw (t, renew_link) refl
        | inr f ↦ rw (f, renew_link) (ap (λ c. is_link l || c) (any-renew_link e a b ls))
      ]

  any-renew_path :
      (e : ℕ) (path : List ℕ) (ls : List Link) → any is_link (renew_path e path ls) ≡ any is_link ls
  unfolding renew_path
  any-renew_path e [] ls = refl
  any-renew_path e (a ∷ []) ls = refl
  any-renew_path e (a ∷ b ∷ path) ls = any-renew_path e (b ∷ path) _ ∙ any-renew_link e a b ls

-- A subscriber that is shown, or passed by since its name is too short. A name is made of pieces joined
-- by slashes, neither empty nor with a slash inside.
pub data IsShowable : String → Type 0 where
  short : (s : String) → ltb 2 (length_text s) ≡ false → IsShowable s
  named : (c : String) (cs : List String) → All IsPiece (c ∷ cs) → IsShowable (joined c cs)

module _ (to_lower : String → String) (includes : String → String → Bool) where
  animate_dot-IsLinked :
      (target : ℕ) (wanted : String) (now : ℕ) (path : List ℕ) (g : Graph)
      → IsLinked target wanted g
      → IsLinked target wanted (animate_dot to_lower includes now path g)
  unfolding IsLinked animate_dot is_link
  animate_dot-IsLinked target wanted now path g (k, found, linked) =
      elim (Bool-cases (
        ltb (length path) 2
        || not (all (is_shown to_lower includes g) path)
        || leb max_active_dots g.active_dots)) [
          | inl e ↦ rw (e, animate_dot) (k, found, linked)
          | inr e ↦
              rw (e, animate_dot)
                (k, found, any-renew_path target k (now + 30000) path g.links ∙ linked)
        ]

  -- What is shown of one subscriber leaves the links of another.
  show_node-IsLinked :
      (target other : ℕ) (wanted : String) (now : ℕ) (n : Node) (g : Graph)
      → IsLinked target wanted g
      → IsLinked target wanted (show_node to_lower includes now other n g)
  unfolding IsLinked show_node new_link
  show_node-IsLinked target other wanted now n g (k, found, linked) =
      elim (Bool-cases (is_linked other n.id g)) [
        | inl e ↦
            rw (e, show_node)
              (animate_dot-IsLinked target wanted now (other ∷ n.id ∷ []) g (k, found, linked))
        | inr e ↦
            rw (e, show_node)
              (animate_dot-IsLinked target wanted now (other ∷ n.id ∷ []) _
                (k, found, any-append _ g.links _ linked))
      ]

  -- The channel is linked to the node of the subscriber.
  show_node-links :
      (target : ℕ) (wanted : String) (now : ℕ) (n : Node) (g : Graph)
      → find_node wanted g ≡ some n
      → IsLinked target wanted (show_node to_lower includes now target n g)
  unfolding IsLinked show_node new_link find_node is_linked
  show_node-links target wanted now n g found = elim (Bool-cases (is_linked target n.id g)) [
    | inl e ↦
        rw (e, show_node)
          (animate_dot-IsLinked target wanted now (target ∷ n.id ∷ []) g
            (n.id, (n, found, refl), e))
    | inr e ↦
        let made = any-last _ g.links _ (ground (arith, ==_iff target target, ==_iff n.id n.id)) in
        rw (e, show_node)
          (animate_dot-IsLinked target wanted now (target ∷ n.id ∷ []) _
            (n.id, (n, found, refl), made))
  ]

  show_subscriber-shows :
      (target now : ℕ) (c : String) (cs : List String) (g : Graph)
      → All IsPiece (c ∷ cs)
      → (h : Graph) × (show_subscriber to_lower includes now target (joined c cs) g ≡ some h)
        × IsLinked target ("clients/" <> joined c cs) h
  unfolding show_subscriber
  show_subscriber-shows target now c cs g h =
      let known = know_client now (joined c cs) g in
      let (n, found) = know_client-finds now c cs g h in
      (
        show_node to_lower includes now target n known,
        rw (found, show_subscriber) refl,
        show_node-links target ("clients/" <> joined c cs) now n known found,
      )

  -- Every subscriber can be shown, one after the other.
  pub show_subscribers-shows :
      (target now : ℕ) (names : List String) (g : Graph)
      → All IsShowable names
      → (h : Graph) × show_subscribers to_lower includes now target names g ≡ some h
  unfolding show_subscribers
  show_subscribers-shows target now [] g hs = (g, refl)
  show_subscribers-shows target now (s ∷ ss) g (short t e, hs) =
      let (h, f) = show_subscribers-shows target now ss g hs in (h, rw (e, show_subscribers) f)
  show_subscribers-shows target now (s ∷ ss) g (named c cs p, hs) =
      elim (Bool-cases (ltb 2 (length_text (joined c cs)))) [
        | inr e ↦
            let (h, f) = show_subscribers-shows target now ss g hs in
            (h, rw (e, show_subscribers) f)
        | inl e ↦
            let (k, shown, _) = show_subscriber-shows target now c cs g p in
            let (h, f) = show_subscribers-shows target now ss k hs in
            (h, rw (e, shown, show_subscribers) f)
      ]

  -- A subscriber of three characters or more has a node that the channel is linked to.
  pub show_subscribers-links :
      (target now : ℕ) (c : String) (cs : List String) (names : List String) (g h : Graph)
      → In (joined c cs) names
      → All IsPiece (c ∷ cs)
      → ltb 2 (length_text (joined c cs)) ≡ true
      → show_subscribers to_lower includes now target names g ≡ some h
      → IsLinked target ("clients/" <> joined c cs) h
  unfolding show_subscribers
  show_subscribers-links target now c cs [] g h m p long e = absurd (elim m [ ])
  show_subscribers-links target now c cs (s ∷ ss) g h here p long e =
      let (k, shown, linked) = show_subscriber-shows target now c cs g p in
      let wanted = "clients/" <> joined c cs in
      show_subscribers-keeps to_lower includes (IsLinked target wanted) now target
        (λ s g l. know_client-IsLinked target wanted now s g l)
        (λ s n g f l. show_node-IsLinked target target wanted now n g l) ss k h
        (rw (long, shown, show_subscribers) at e) linked
  show_subscribers-links target now c cs (s ∷ ss) g h (there m) p long e =
      elim (Bool-cases (ltb 2 (length_text s))) [
        | inr f ↦ show_subscribers-links target now c cs ss g h m p long (ground (arith, e, f))
        | inl f ↦ elim (Option-cases (show_subscriber to_lower includes now target s g)) [
          | inl l ↦ absurd (ground (arith, e, f, l))
          | inr (k, l) ↦
              show_subscribers-links target now c cs ss k h m p long (ground (arith, e, f, l))
        ]
      ]
