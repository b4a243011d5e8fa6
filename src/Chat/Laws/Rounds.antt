-- ===== src/Chat/Laws/Rounds.antt =====
-- app/assets/js/oocsi-chat.js: a round of the loop of `getCookie`.
use oocsi_web.Common.{
  ℕ, suc, String, true, none, some, ◌≡◌, refl, ◌∙◌, ap, arith, Option-cases, inl, inr,
}
use oocsi_web.Common.Text.{◌<>◌, after_prefix}
use oocsi_web.Common.Text.Pieces.{lacks}
use oocsi_web.Chat.Text.{first_piece, later_pieces, drop_spaces, find_cookie}
use text.Mathlib.TextLemmas.{cons-append, nil-append}

first_piece_whole : (p : String) → lacks 59 p ≡ true → first_piece p ≡ p
unfolding first_piece lacks
first_piece_whole String.[] h = refl
first_piece_whole (String.◌∷◌ c p) h = ground (arith, h, first_piece_whole p)

first_piece-append : (p s : String) → lacks 59 p ≡ true → first_piece (p <> ";" <> s) ≡ p
unfolding first_piece lacks
first_piece-append String.[] s h = ap first_piece (nil-append (";" <> s) ∙ cons-append ";" "" s)
first_piece-append (String.◌∷◌ c p) s h = rw cons-append (ground (arith, h, first_piece-append p s))

later_pieces-none : (p : String) → lacks 59 p ≡ true → later_pieces p ≡ none
unfolding later_pieces lacks
later_pieces-none String.[] h = refl
later_pieces-none (String.◌∷◌ c p) h = ground (arith, h, later_pieces-none p)

later_pieces-append : (p s : String) → lacks 59 p ≡ true → later_pieces (p <> ";" <> s) ≡ some s
unfolding later_pieces lacks
later_pieces-append String.[] s h =
    ap later_pieces (nil-append (";" <> s) ∙ cons-append ";" "" s) ∙ ap some (nil-append s)
later_pieces-append (String.◌∷◌ c p) s h =
    rw cons-append (ground (arith, h, later_pieces-append p s))

module _ (fuel : ℕ) (start p q : String) (apart : lacks 59 p ≡ true)
    (dropped : drop_spaces p ≡ q) where
  pub find_last : find_cookie (suc fuel) start p ≡ some (after_prefix start q)
  unfolding find_cookie
  find_last = elim (Option-cases (after_prefix start q)) [
    | inl e ↦
        rw (first_piece_whole p apart, dropped, e, later_pieces-none p apart, find_cookie) refl
    | inr (v, e) ↦ rw (first_piece_whole p apart, dropped, e, find_cookie) refl
  ]

  -- A piece that is not the last is passed by or found.
  pub find_next :
      (s : String)
      → find_cookie (suc fuel) start (p <> ";" <> s)
        ≡ elim (after_prefix start q) [ none ↦ find_cookie fuel start s | some v ↦ some (some v) ]
  unfolding find_cookie
  find_next s = elim (Option-cases (after_prefix start q)) [
    | inl e ↦
        rw (first_piece-append p s apart, dropped, e, later_pieces-append p s apart, find_cookie)
          refl
    | inr (v, e) ↦ rw (first_piece-append p s apart, dropped, e, find_cookie) refl
  ]
