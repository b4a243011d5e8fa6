-- ===== src/Chat/Laws/Escape.antt =====
-- app/assets/js/oocsi-chat.js: `escapeHTML` against a description that reads the text once.
use oocsi_web.Common.{
  ℕ, String, Bool, true, false, ◌≡◌, refl, ap, sym, ◌∙◌, code, Char, arith, if◌then◌else◌, ◌==◌,
  ◌&&◌, not, Bool-cases, inl, inr,
}
use oocsi_web.Common.Text.{◌<>◌}
use oocsi_web.Chat.Text.{replace_all, escape_html}
use text.Mathlib.TextLemmas.{cons-append, nil-append, append_assoc}

-- The entity of a character, or the character.
unfoldable pub entity : Char → String
entity c =
    if code c == 38
    then "&amp;"
    else if code c == 60
    then "&lt;"
    else if code c == 62
    then "&gt;"
    else if code c == 34
    then "&quot;"
    else if code c == 39
    then "&#39;"
    else String.◌∷◌ c ""

unfoldable pub entities : String → String
unfolding entity
entities String.[] = ""
entities (String.◌∷◌ c s) = entity c <> entities s

-- No character of the text opens or closes a tag or a quoted attribute.
unfoldable pub is_inert : String → Bool
is_inert String.[] = true
is_inert (String.◌∷◌ c s) =
    not (code c == 60)
    && not (code c == 62)
    && not (code c == 34)
    && not (code c == 39)
    && is_inert s

replace_all-hit :
    (k : ℕ) (by : String) (c : Char) (s : String)
    → (code c == k) ≡ true
    → replace_all k by (String.◌∷◌ c s) ≡ by <> replace_all k by s
unfolding replace_all
replace_all-hit k by c s e = ground arith

replace_all-miss :
    (k : ℕ) (by : String) (c : Char) (s : String)
    → (code c == k) ≡ false
    → replace_all k by (String.◌∷◌ c s) ≡ String.◌∷◌ c (replace_all k by s)
unfolding replace_all
replace_all-miss k by c s e = ground arith

replace_all-append :
    (k : ℕ) (by s t : String) → replace_all k by (s <> t) ≡ replace_all k by s <> replace_all k by t
unfolding replace_all
replace_all-append k by String.[] t =
    ap (replace_all k by) (nil-append t) ∙ sym (nil-append (replace_all k by t))
replace_all-append k by (String.◌∷◌ c s) t = elim (Bool-cases (code c == k)) [
  | inl e ↦
      ap (replace_all k by) (cons-append c s t)
      ∙ replace_all-hit k by c (s <> t) e
      ∙ ap (λ r. by <> r) (replace_all-append k by s t)
      ∙ sym (append_assoc by (replace_all k by s) (replace_all k by t))
      ∙ ap (λ r. r <> replace_all k by t) (sym (replace_all-hit k by c s e))
  | inr e ↦
      ap (replace_all k by) (cons-append c s t)
      ∙ replace_all-miss k by c (s <> t) e
      ∙ ap (λ r. String.◌∷◌ c r) (replace_all-append k by s t)
      ∙ sym (cons-append c (replace_all k by s) (replace_all k by t))
      ∙ ap (λ r. r <> replace_all k by t) (sym (replace_all-miss k by c s e))
]

escape_html-append : (s t : String) → escape_html (s <> t) ≡ escape_html s <> escape_html t
unfolding escape_html
escape_html-append s t = simp (replace_all-append)

escape_html-char : (c : Char) → escape_html (String.◌∷◌ c "") ≡ entity c
unfolding escape_html replace_all entity
escape_html-char c = elim (Bool-cases (code c == 38)) [
  | inl e38 ↦ rw e38 refl
  | inr e38 ↦ rw e38 (elim (Bool-cases (code c == 60)) [
    | inl e60 ↦ rw e60 refl
    | inr e60 ↦ rw e60 (elim (Bool-cases (code c == 62)) [
      | inl e62 ↦ rw e62 refl
      | inr e62 ↦ rw e62 (elim (Bool-cases (code c == 34)) [
        | inl e34 ↦ rw e34 refl
        | inr e34 ↦
            rw e34
              (elim (Bool-cases (code c == 39)) [ inl e39 ↦ rw e39 refl | inr e39 ↦ rw e39 (refl) ])
      ])
    ])
  ])
]

-- The five passes of `escapeHTML` replace each character by its entity.
pub escape_html-entities : (s : String) → escape_html s ≡ entities s
unfolding entities escape_html replace_all
escape_html-entities String.[] = refl
escape_html-entities (String.◌∷◌ c s) =
    ap escape_html (sym (cons-append c "" s ∙ ap (λ r. String.◌∷◌ c r) (nil-append s)))
    ∙ escape_html-append (String.◌∷◌ c "") s
    ∙ ap (λ r. r <> escape_html s) (escape_html-char c)
    ∙ ap (λ r. entity c <> r) (escape_html-entities s)

is_inert-append : (s t : String) → is_inert (s <> t) ≡ (is_inert s && is_inert t)
unfolding is_inert
is_inert-append String.[] t = ap is_inert (nil-append t)
is_inert-append (String.◌∷◌ c s) t =
    ap is_inert (cons-append c s t) ∙ ground (arith, is_inert-append s t)

is_inert-entity : (c : Char) → is_inert (entity c) ≡ true
unfolding is_inert entity
is_inert-entity c = elim (Bool-cases (code c == 38)) [
  | inl e38 ↦ rw e38 refl
  | inr e38 ↦ rw e38 (elim (Bool-cases (code c == 60)) [
    | inl e60 ↦ rw e60 refl
    | inr e60 ↦ rw e60 (elim (Bool-cases (code c == 62)) [
      | inl e62 ↦ rw e62 refl
      | inr e62 ↦ rw e62 (elim (Bool-cases (code c == 34)) [
        | inl e34 ↦ rw e34 refl
        | inr e34 ↦ rw e34 (elim (Bool-cases (code c == 39)) [
          | inl e39 ↦ rw e39 refl
          | inr e39 ↦ rw e39 ground arith
        ])
      ])
    ])
  ])
]

entities-is_inert : (s : String) → is_inert (entities s) ≡ true
unfolding entities is_inert
entities-is_inert String.[] = refl
entities-is_inert (String.◌∷◌ c s) =
    is_inert-append (entity c) (entities s) ∙ rw (is_inert-entity c) (entities-is_inert s)

-- The text that `escapeHTML` returns has no angle bracket and no quote.
pub escape_html-is_inert : (s : String) → is_inert (escape_html s) ≡ true
escape_html-is_inert s = ap is_inert (escape_html-entities s) ∙ entities-is_inert s
