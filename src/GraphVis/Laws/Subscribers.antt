-- ===== src/GraphVis/Laws/Subscribers.antt =====
-- app/assets/js/oocsi-graphvis.js: a node that stands for a name, and a link to it, stay when a client is
-- added.
use oocsi_web.Common.{
  ℕ, String, Bool, true, not, ◌&&◌, some, List, [], ◌∷◌, ◌++◌, ◌≡◌, arith, inl, inr, Bool-cases,
  Option-cases, find, any, ◌==◌,
}
use oocsi_web.Common.Text.{◌<>◌}
use oocsi_web.GraphVis.Graph.{
  Node, Graph, find_node, has_name, push_chain, note_chain, grow, link_again, is_linked, new_link,
  add_components, add_client, components,
}
use oocsi_web.GraphVis.Message.{know_client}
use oocsi_web.GraphVis.Laws.Delivery.{find-append_some}

-- The name has a node with the id.
abbrev pub Finds : (wanted : String) (k : ℕ) → List Node → Type 0
Finds wanted k ns = (n : Node) × (find (has_name wanted) ns ≡ some n) × (n.id ≡ k)

Finds-append :
    (wanted : String) (k : ℕ) (ns ms : List Node) → Finds wanted k ns → Finds wanted k (ns ++ ms)
Finds-append wanted k ns ms (n, e, i) = (n, find-append_some (has_name wanted) ns ms n e, i)

Finds-push_chain :
    (wanted : String) (k j : ℕ) (name : String) (ns : List Node)
    → Finds wanted k ns
    → Finds wanted k (push_chain j name ns)
unfolding push_chain has_name
Finds-push_chain wanted k j name [] (n, e, i) = absurd (ground (arith, e))
Finds-push_chain wanted k j name (m ∷ ns) (n, e, i) = elim (Bool-cases (has_name wanted m)) [
  | inl t ↦ elim (Bool-cases (m.id == j)) [
    | inl s ↦ (
      record m { chains = m.chains ++ some name ∷ [] },
      rw (s, push_chain) (ground (arith, t)),
      ground (arith, e, t, i),
    )
    | inr s ↦ (m, rw (s, push_chain) (ground (arith, t)), ground (arith, e, t, i))
  ]
  | inr f ↦
      let (o, found, same) = Finds-push_chain wanted k j name ns (n, ground (arith, e, f), i) in
      elim (Bool-cases (m.id == j)) [
        | inl s ↦ (o, rw (s, push_chain) (ground (arith, f, found)), same)
        | inr s ↦ (o, rw (s, push_chain) (ground (arith, f, found)), same)
      ]
]

pub any-append {ℓ} :
    {A : Type ℓ} (p : A → Bool) (xs ys : List A) → any p xs ≡ true → any p (xs ++ ys) ≡ true
any-append p [] ys e = absurd (ground (arith, e))
any-append p (x ∷ xs) ys e = ground (arith, e, any-append p xs ys)

pub any-last {ℓ} :
    {A : Type ℓ} (p : A → Bool) (xs : List A) (x : A) → p x ≡ true → any p (xs ++ x ∷ []) ≡ true
any-last p [] x e = ground (arith, e)
any-last p (y ∷ xs) x e = ground (arith, any-last p xs x e)

-- The name has a node, and the target is linked to it.
module _ (target : ℕ) (wanted : String) where
  unfoldable pub IsLinked : Graph → Type 0
  IsLinked g =
      (k : ℕ) × Finds wanted k g.nodes
      × (any (λ l. l.source == target && l.target == k) g.links ≡ true)

  note_chain-IsLinked :
      (is_client : Bool) (j : ℕ) (name : String) (g : Graph)
      → IsLinked g
      → IsLinked (note_chain is_client j name g)
  unfolding IsLinked note_chain
  note_chain-IsLinked is_client j name g (k, found, linked) =
      elim (Bool-cases (is_client && not (j == 0))) [
        | inl e ↦ rw (e, note_chain) (k, Finds-push_chain wanted k j name g.nodes found, linked)
        | inr e ↦ rw (e, note_chain) (k, found, linked)
      ]

  grow-IsLinked :
      (is_client : Bool) (now : ℕ) (source_name name label : String) (j : ℕ) (g : Graph)
      → IsLinked g
      → IsLinked (grow is_client now source_name name label j g)
  unfolding IsLinked grow new_link
  grow-IsLinked is_client now source_name name label j g (k, found, linked) =
      (k, Finds-append wanted k g.nodes _ found, any-append _ g.links _ linked)

  link_again-IsLinked :
      (is_client : Bool) (now node j : ℕ) (g : Graph)
      → IsLinked g
      → IsLinked (link_again is_client now node j g)
  unfolding IsLinked link_again new_link
  link_again-IsLinked is_client now node j g (k, found, linked) =
      elim (Bool-cases (is_linked node j g)) [
        | inl e ↦ rw (e, link_again) (k, found, linked)
        | inr e ↦ rw (e, link_again) (k, found, any-append _ g.links _ linked)
      ]

  add_components-IsLinked :
      (is_client : Bool) (now : ℕ) (source_name qual_name : String) (j : ℕ) (cs : List String)
      (g : Graph)
      → IsLinked g
      → IsLinked (add_components is_client now source_name qual_name j cs g)
  unfolding add_components
  add_components-IsLinked is_client now source_name qual_name j [] g h = h
  add_components-IsLinked is_client now source_name qual_name j (c ∷ cs) g h =
      let name = qual_name <> "/" <> c in
      let noted = note_chain is_client j source_name g in
      let kept = note_chain-IsLinked is_client j source_name g h in
      elim (Option-cases (find_node name noted)) [
        | inl e ↦
            rw (e, add_components)
              (add_components-IsLinked is_client now source_name name noted.nodes_index cs _
                (grow-IsLinked is_client now source_name name c j noted kept))
        | inr (n, e) ↦
            rw (e, add_components)
              (add_components-IsLinked is_client now source_name name n.id cs _
                (link_again-IsLinked is_client now n.id j noted kept))
      ]

  pub know_client-IsLinked :
      (now : ℕ) (name : String) (g : Graph) → IsLinked g → IsLinked (know_client now name g)
  unfolding know_client add_client
  know_client-IsLinked now name g h = elim (Option-cases (find_node ("clients/" <> name) g)) [
    | inl e ↦
        rw (e, know_client)
          (add_components-IsLinked true now name "clients" 0 (components name) g h)
    | inr (n, e) ↦ rw (e, know_client) h
  ]
