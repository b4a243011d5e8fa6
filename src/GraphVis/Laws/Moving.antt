-- ===== src/GraphVis/Laws/Moving.antt =====
-- app/assets/js/oocsi-graphvis.js: a message moves a dot.
use oocsi_web.Common.{
  All-In, ℕ, suc, ◌≤◌, ◌<◌, String, Bool, true, false, not, ◌&&◌, none, some, List, [], ◌∷◌, ◌≡◌,
  ◌≢◌, ◌∙◌, refl, sym, subst, ap, arith, In, here, there, inl, inr, All, Bool-cases, Option-cases,
  str_eq, eq_iff, find, length, length-append, all, ◌==◌, ==_iff, In-concat,
}
use oocsi_web.Common.Text.{◌<>◌, after_prefix}
use oocsi_web.Common.Text.Pieces.{after_prefix-append}
use oocsi_web.GraphVis.Path.{Link}
use oocsi_web.GraphVis.Path.Routes.{Route, begin, along, Joins}
use oocsi_web.GraphVis.Graph.{Node, Graph, find_node, has_name}
use oocsi_web.GraphVis.Message.{
  is_shown, is_node_filtered, animate_dot, know_client, know_channel, deliver, send_message,
}
use oocsi_web.GraphVis.Laws.Growth.{ids, IsDistinct, IsAttached, IsSound}
use oocsi_web.GraphVis.Laws.Dots.{
  find_node-In, know_client-IsWell, know_channel-IsWell, counted-IsWell,
}
use oocsi_web.GraphVis.Laws.Names.{IsPiece, joined}
use oocsi_web.GraphVis.Laws.Opacity.{find-id}
use oocsi_web.GraphVis.Laws.Tied.{IsTied}
use oocsi_web.GraphVis.Laws.Paths.{IsTied-found, known-IsTied, Picture-IsTied}
use oocsi_web.GraphVis.Laws.Delivery.{know_client-finds, know_channel-finds, know_channel-keeps}
use oocsi_web.GraphVis.Laws.Untouched.{know_client-untouched, know_channel-untouched}
use oocsi_web.GraphVis.Laws.Pictures.{Picture, Picture-IsWell}
use text.Mathlib.TextLemmas.{cons-append}

find-holds {ℓ} :
    {A : Type ℓ} (p : A → Bool) (xs : List A) (x : A) → find p xs ≡ some x → In x xs × (p x ≡ true)
find-holds p [] x e = absurd (ground (arith, e))
find-holds p (y ∷ xs) x e = elim (Bool-cases (p y)) [
  | inl t ↦
      let same : y ≡ x = ground (arith, e, t) in
      (subst (λ z. In z (y ∷ xs)) same here, subst (λ z. p z ≡ true) same t)
  | inr f ↦ let (m, t) = find-holds p xs x (ground (arith, e, f)) in (there m, t)
]

-- Two nodes with one id are one.
same_id :
    (n m : Node) (ns : List Node) → IsDistinct (ids ns) → In n ns → In m ns → n.id ≡ m.id → n ≡ m
same_id n m ns d i j e =
    let twice : some n ≡ some m =
      sym (find-id n ns i d) ∙ ap (λ k. find (λ o. o.id == k) ns) e ∙ find-id m ns j d in
    ground (arith, twice)

names-apart : (a c : String) → "clients/" <> a ≢ "channels/" <> c
unfolding after_prefix
names-apart a c e =
    let spelt : "channels/" <> c ≡ String.◌∷◌ "c" (String.◌∷◌ "h" ("annels/" <> c)) =
      cons-append "c" "hannels/" c ∙ ap (λ t. String.◌∷◌ "c" t) (cons-append "h" "annels/" c) in
    let read : some a ≡ none =
      sym (after_prefix-append "clients/" a) ∙ ap (after_prefix "clients/") (e ∙ spelt) in
    absurd (ground (arith, read))

has_name-same : (n : Node) (a b : String) → has_name a n ≡ true → has_name b n ≡ true → a ≡ b
unfolding has_name
has_name-same n a b e f = elim (Option-cases n.qual_name) [
  | inl none_there ↦ absurd (ground (arith, e, none_there))
  | inr (q, there_is) ↦
      let first : str_eq q a ≡ true = ground (arith, e, there_is) in
      let second : str_eq q b ≡ true = ground (arith, f, there_is) in
      sym ((eq_iff q a).0 first) ∙ (eq_iff q b).0 second
]

Route-long : (links : List Link) {u v : ℕ} {path : List ℕ} → Route links u v path → 1 ≤ length path
Route-long links begin = omega arith
Route-long links (along {path = before} r l i j) = omega (arith, length-append before _)

Route-step :
    (links : List Link) {u v : ℕ} {path : List ℕ} → u ≢ v → Route links u v path → 2 ≤ length path
Route-step links apart begin = absurd (apart refl)
Route-step links apart (along {path = before} r l i j) =
    omega (arith, Route-long links r, length-append before _)

-- The nodes of a route are nodes of the picture.
Route-inside :
    (is : List ℕ) (links : List Link) {u v : ℕ} {path : List ℕ}
    → All (IsAttached is) links
    → In u is
    → Route links u v path
    → (i : ℕ) → In i path
    → In i is
unfolding Joins
Route-inside is links h m begin i here = m
Route-inside is links h m begin i (there n) = elim n [ ]
Route-inside is links h m (along {v} {path = before} r l j (plain, ends)) i n =
    elim (In-concat before n) [
      | inl old ↦ Route-inside is links h m r i old
      | inr same ↦
          let (a, b) = All-In (IsAttached is) j h in
          subst (λ k. In k is) (sym same)
            (elim ends [ inl e ↦ subst (λ k. In k is) e.1 b | inr e ↦ subst (λ k. In k is) e.1 a ])
    ]

find-there :
    (i : ℕ) (ns : List Node) → In i (ids ns) → (n : Node) × find (λ n. n.id == i) ns ≡ some n
find-there i [] m = elim m [ ]
find-there i (n ∷ ns) here = (n, ground (arith, ==_iff n.id n.id))
find-there i (n ∷ ns) (there m) = elim (Bool-cases (n.id == i)) [
  | inl e ↦ (n, ground (arith, e))
  | inr e ↦ let (o, found) = find-there i ns m in (o, ground (arith, e, found))
]

module _ (to_lower : String → String) (includes : String → String → Bool) where
  is_shown_all :
      (g : Graph) (i : ℕ)
      → g.client_filter ≡ ""
      → In i (ids g.nodes)
      → is_shown to_lower includes g i ≡ true
  unfolding is_shown is_node_filtered
  is_shown_all g i open_to m =
      let (n, found) = find-there i g.nodes m in
      rw (found, is_shown) (ground (arith, eq_iff g.client_filter "", open_to))

  all-shown :
      (g : Graph) (path : List ℕ)
      → g.client_filter ≡ ""
      → ((i : ℕ) → In i path → In i (ids g.nodes))
      → all (is_shown to_lower includes g) path ≡ true
  all-shown g [] open_to inside = refl
  all-shown g (i ∷ path) open_to inside = ground (
    arith,
    is_shown_all g i open_to (inside i here),
    all-shown g path open_to (λ j m. inside j (there m)),
  )

  animate_dot-moves :
      (now : ℕ) (path : List ℕ) (g : Graph)
      → 2 ≤ length path
      → all (is_shown to_lower includes g) path ≡ true
      → g.active_dots < 200
      → (animate_dot to_lower includes now path g).active_dots ≡ suc g.active_dots
  unfolding animate_dot
  animate_dot-moves now path g long shown few = ground (arith, long, shown, few)

  ids-apart :
      (sender channel : String) (source target : Node) (g : Graph)
      → IsDistinct (ids g.nodes)
      → find_node ("clients/" <> sender) g ≡ some source
      → find_node ("channels/" <> channel) g ≡ some target
      → source.id ≢ target.id
  unfolding find_node
  ids-apart sender channel source target g d e f same =
      let (i, a) = find-holds (has_name ("clients/" <> sender)) g.nodes source e in
      let (j, b) = find-holds (has_name ("channels/" <> channel)) g.nodes target f in
      let one = same_id source target g.nodes d i j same in
      names-apart sender channel
        (has_name-same target _ _ (subst (λ n. has_name ("clients/" <> sender) n ≡ true) one a) b)

  deliver-moves :
      (now : ℕ) (sender channel : String) (source target : Node) (g : Graph)
      → IsSound g
      → IsTied g
      → find_node ("clients/" <> sender) g ≡ some source
      → find_node ("channels/" <> channel) g ≡ some target
      → g.client_filter ≡ ""
      → g.active_dots < 200
      → (deliver to_lower includes now (some source) (some target) g).0.active_dots
        ≡ suc g.active_dots
  unfolding deliver
  deliver-moves now sender channel source target g h t e f open_to few =
      let m = find_node-In _ g source e in
      let (path, result, r) = IsTied-found g source.id target.id t m (find_node-In _ g target f) in
      let apart = ids-apart sender channel source target g h.distinct e f in
      rw (result, deliver)
        (animate_dot-moves now path g (Route-step g.links apart r)
          (all-shown g path open_to (Route-inside (ids g.nodes) g.links h.attached m r)) few)

  -- In every picture that filters no clients and in which fewer than 200 dots move, a message whose
  -- sender and channel have names of pieces joined by slashes, neither empty nor with a slash inside,
  -- and whose channel passes the filter, moves one dot more.
  pub send_message-moves :
      {g : Graph}
      → Picture to_lower includes g
      → (now : ℕ) (a c : String) (rest cs : List String) → All IsPiece (a ∷ rest)
      → All IsPiece (c ∷ cs)
      → (not (str_eq g.channel_filter "")
          && not (includes (to_lower (joined c cs)) g.channel_filter))
        ≡ false
      → g.client_filter ≡ ""
      → g.active_dots < 200
      → (send_message to_lower includes now (joined a rest) (joined c cs) g).0.active_dots
        ≡ suc g.active_dots
  unfolding send_message
  send_message-moves {g} p now a c rest cs h k passes open_to few =
      let sender = joined a rest in
      let channel = joined c cs in
      let counted : Graph = record g { reqs_counter = suc g.reqs_counter } in
      let known = know_client now sender counted in
      let ready = know_channel now channel known in
      let (source, found) = know_client-finds now a rest counted h in
      let (target, got) = know_channel-finds now c cs known k in
      let well = Picture-IsWell to_lower includes p in
      let filter_kept : ready.client_filter ≡ g.client_filter =
        know_channel-untouched (λ g. g.client_filter) (λ g ns k ls. refl) now channel known
        ∙ know_client-untouched (λ g. g.client_filter) (λ g ns k ls. refl) now sender counted in
      let dots_kept : ready.active_dots ≡ g.active_dots =
        know_channel-untouched (λ g. g.active_dots) (λ g ns k ls. refl) now channel known
        ∙ know_client-untouched (λ g. g.active_dots) (λ g ns k ls. refl) now sender counted in
      rw (passes, found, got, send_message)
        (deliver-moves now sender channel source target ready
            (know_channel-IsWell now channel known
              (know_client-IsWell now sender counted (counted-IsWell g well))).0
            (known-IsTied to_lower includes now sender channel g well.0.centered
              (Picture-IsTied to_lower includes p))
            (know_channel-keeps now channel ("clients/" <> sender) known source found) got
            (filter_kept ∙ open_to) (omega (arith, dots_kept, few))
          ∙ ap suc dots_kept)
