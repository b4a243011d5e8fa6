-- ===== src/GraphVis/Laws/Names.antt =====
-- app/assets/js/oocsi-graphvis.js: a name of pieces joined by slashes, as `split('/')` reads it and as
-- `qualName` is put together from it.
use oocsi_web.Common.{
  Char, String, true, false, List, [], ◌∷◌, ◌≡◌, ◌∙◌, refl, ap, sym, arith, str_eq, All, subst,
}
use oocsi_web.Common.Text.{◌<>◌}
use oocsi_web.Common.Text.Pieces.{lacks}
use oocsi_web.GraphVis.Graph.{components, components_from}
use text.Mathlib.TextLemmas.{cons-append, nil-append, append_assoc, append-nil}

-- A piece is not empty and has no slash.
abbrev pub IsPiece : String → Type 0
IsPiece s = (str_eq s "" ≡ false) × (lacks 47 s ≡ true)

-- The pieces, joined by slashes.
unfoldable pub joined : String → List String → String
joined c [] = c
joined c (d ∷ ds) = c <> "/" <> joined d ds

-- `qualName` after the loop over the components.
unfoldable pub qualified : String → List String → String
qualified q [] = q
qualified q (c ∷ cs) = qualified (q <> "/" <> c) cs

push_end : (p : String) (x : Char) (c : String) → (p <> String.◌∷◌ x "") <> c ≡ p <> String.◌∷◌ x c
push_end p x c =
    append_assoc p (String.◌∷◌ x "") c
    ∙ ap (λ t. p <> t) (cons-append x "" c ∙ ap (λ t. String.◌∷◌ x t) (nil-append c))

slash_cons : (s : String) → "/" <> s ≡ String.◌∷◌ "/" s
slash_cons s = cons-append "/" "" s ∙ ap (λ r. String.◌∷◌ "/" r) (nil-append s)

components_from-last :
    (p c : String)
    → lacks 47 c ≡ true
    → str_eq (p <> c) "" ≡ false
    → components_from p c ≡ (p <> c) ∷ []
unfolding components_from lacks
components_from-last p String.[] l n =
    rw (append-nil p) (ground (arith, subst (λ t. str_eq t "" ≡ false) (append-nil p) n))
components_from-last p (String.◌∷◌ x c) l n =
    let longer =
      components_from-last (p <> String.◌∷◌ x "") c (ground (arith, l))
        (subst (λ t. str_eq t "" ≡ false) (sym (push_end p x c)) n) in
    let read : components_from p (String.◌∷◌ x c) ≡ components_from (p <> String.◌∷◌ x "") c =
      ground (arith, l) in
    read ∙ longer ∙ ap (λ t. t ∷ []) (push_end p x c)

components_from-append :
    (p c s : String)
    → lacks 47 c ≡ true
    → str_eq (p <> c) "" ≡ false
    → components_from p (c <> "/" <> s) ≡ (p <> c) ∷ components_from "" s
unfolding components_from lacks
components_from-append p String.[] s l n =
    rw (append-nil p, nil-append, slash_cons s)
      (ground (arith, subst (λ t. str_eq t "" ≡ false) (append-nil p) n))
components_from-append p (String.◌∷◌ x c) s l n =
    let longer =
      components_from-append (p <> String.◌∷◌ x "") c s (ground (arith, l))
        (subst (λ t. str_eq t "" ≡ false) (sym (push_end p x c)) n) in
    let read : components_from p (String.◌∷◌ x (c <> "/" <> s))
        ≡ components_from (p <> String.◌∷◌ x "") (c <> "/" <> s) =
      ground (arith, l) in
    ap (components_from p) (cons-append x c ("/" <> s))
    ∙ read
    ∙ longer
    ∙ ap (λ t. t ∷ components_from "" s) (push_end p x c)

-- A name of pieces is split into them.
pub components-joined :
    (c : String) (cs : List String) → All IsPiece (c ∷ cs) → components (joined c cs) ≡ c ∷ cs
unfolding components joined
components-joined c [] (h, hs) =
    components_from-last "" c h.1 (subst (λ t. str_eq t "" ≡ false) (sym (nil-append c)) h.0)
    ∙ ap (λ t. t ∷ []) (nil-append c)
components-joined c (d ∷ ds) (h, hs) =
    components_from-append "" c (joined d ds) h.1
      (subst (λ t. str_eq t "" ≡ false) (sym (nil-append c)) h.0)
    ∙ ap (λ t. t ∷ components_from "" (joined d ds)) (nil-append c)
    ∙ ap (λ cs. c ∷ cs) (components-joined d ds hs)

pub qualified-joined :
    (q c : String) (cs : List String) → qualified q (c ∷ cs) ≡ q <> "/" <> joined c cs
unfolding qualified joined
qualified-joined q c [] = refl
qualified-joined q c (d ∷ ds) =
    qualified-joined (q <> "/" <> c) d ds
    ∙ append_assoc q ("/" <> c) ("/" <> joined d ds)
    ∙ ap (λ t. q <> t) (append_assoc "/" c ("/" <> joined d ds))
