-- ===== src/Things/Laws/Saved.antt =====
-- app/assets/js/things/oocsi-things.js: the saved source names the assets of its attributes with their host.
use oocsi_web.Common.{
  ℕ, zero, suc, Char, code, String, Bool, true, false, ◌&&◌, ◌||◌, ◌≡◌, ◌∙◌, refl, sym, ap, arith,
  ◌==◌, ==_iff, is_some, Bool-cases, inl, inr,
}
use oocsi_web.Common.Text.{◌<>◌, after_prefix}
use oocsi_web.Common.Text.Pieces.{lacks}
use oocsi_web.Things.Download.{quote, assets, mark, replace_from, with_origin}
use text.Mathlib.TextLemmas.{cons-append, nil-append}

abbrev starts : (p s : String) → Bool
starts p s = is_some (after_prefix p s)

-- The text has a path of the assets without a host right after a double quote, where the page puts the value of
-- an attribute.
unfoldable pub has_mark : String → Bool
has_mark String.[] = false
has_mark (String.◌∷◌ c s) = starts mark (String.◌∷◌ c s) || has_mark s

starts-cons :
    (a c : Char) (p s : String)
    → starts (String.◌∷◌ a p) (String.◌∷◌ c s) ≡ ((code a == code c) && starts p s)
unfolding after_prefix
starts-cons a c p s = ground arith

starts-empty : (a : Char) (p : String) → starts (String.◌∷◌ a p) "" ≡ false
unfolding after_prefix
starts-empty a p = refl

quote-append : (s : String) → quote <> s ≡ String.◌∷◌ "\"" s
quote-append s = cons-append "\"" "" s ∙ ap (λ t. String.◌∷◌ "\"" t) (nil-append s)

module _ (origin : String) where
  found :
      (c : Char) (s : String)
      → starts mark (String.◌∷◌ c s) ≡ true
      → replace_from origin 0 (String.◌∷◌ c s)
        ≡ quote <> origin <> assets <> replace_from origin 8 s
  unfolding replace_from
  found c s e = rw (e, replace_from) refl

  kept :
      (c : Char) (s : String)
      → starts mark (String.◌∷◌ c s) ≡ false
      → replace_from origin 0 (String.◌∷◌ c s) ≡ String.◌∷◌ c (replace_from origin 0 s)
  unfolding replace_from
  kept c s e = rw (e, replace_from) refl

  -- A text without a quote stands at the front of what is written only if it stood there before.
  starts-replace_from :
      (p s : String)
      → lacks 34 p ≡ true
      → starts p (replace_from origin 0 s) ≡ true
      → starts p s ≡ true
  unfolding lacks replace_from after_prefix
  starts-replace_from String.[] s l e = refl
  starts-replace_from (String.◌∷◌ a p) String.[] l e = e
  starts-replace_from (String.◌∷◌ a p) (String.◌∷◌ c s) l e =
      elim (Bool-cases (starts mark (String.◌∷◌ c s))) [
        | inl t ↦
            let rest = origin <> assets <> replace_from origin 8 s in
            let quoted : ((code a == 34) && starts p rest) ≡ true =
              sym (starts-cons a "\"" p rest)
              ∙ ap (starts (String.◌∷◌ a p)) (sym (found c s t ∙ quote-append rest))
              ∙ e in
            absurd (ground (arith, l, quoted))
        | inr f ↦
            let both : ((code a == code c) && starts p (replace_from origin 0 s)) ≡ true =
              sym (starts-cons a c p (replace_from origin 0 s))
              ∙ ap (starts (String.◌∷◌ a p)) (sym (kept c s f))
              ∙ e in
            starts-cons a c p s ∙ ground (arith, l, both, starts-replace_from p s)
      ]

  -- Before a character that is kept nothing is written that makes a mark with it.
  has_mark-kept :
      (c : Char) (s : String)
      → starts mark (String.◌∷◌ c s) ≡ false
      → has_mark (String.◌∷◌ c (replace_from origin 0 s)) ≡ has_mark (replace_from origin 0 s)
  unfolding has_mark lacks
  has_mark-kept c s f = elim (Bool-cases (starts mark (String.◌∷◌ c (replace_from origin 0 s)))) [
    | inr g ↦ rw (g, has_mark) refl
    | inl t ↦
        let both : ((34 == code c) && starts assets (replace_from origin 0 s)) ≡ true =
          sym (starts-cons "\"" c assets (replace_from origin 0 s)) ∙ t in
        let before : starts assets s ≡ true =
          starts-replace_from assets s refl (ground (arith, both)) in
        let again : starts mark (String.◌∷◌ c s) ≡ true =
          starts-cons "\"" c assets s ∙ ground (arith, both, before) in
        absurd (ground (arith, again, f))
  ]

-- Text without quotes at the front makes no mark.
has_mark-plain : (u t : String) → lacks 34 u ≡ true → has_mark (u <> t) ≡ has_mark t
unfolding has_mark lacks
has_mark-plain String.[] t l = ap has_mark (nil-append t)
has_mark-plain (String.◌∷◌ c u) t l =
    ap has_mark (cons-append c u t)
    ∙ ground (arith, l, starts-cons "\"" c assets (u <> t), has_mark-plain u t)

-- The host of an origin: a text that does not start with a slash, and has no quote.
unfoldable pub IsOrigin : String → Type 0
IsOrigin String.[] = ⊥
IsOrigin (String.◌∷◌ c s) = ((code c == 47) ≡ false) × (lacks 34 (String.◌∷◌ c s) ≡ true)

hosted :
    (c : Char) (s r : String)
    → (code c == 47) ≡ false
    → starts mark (String.◌∷◌ "\"" (String.◌∷◌ c s <> r)) ≡ false
hosted c s r apart =
    starts-cons "\"" "\"" assets (String.◌∷◌ c s <> r)
    ∙ ap (starts assets) (cons-append c s r)
    ∙ starts-cons "/" c "assets/" (s <> r)
    ∙ ground (arith, apart, ==_iff 47 (code c), ==_iff (code c) 47)

has_mark-quoted :
    (origin t : String) → IsOrigin origin → has_mark (quote <> origin <> assets <> t) ≡ has_mark t
unfolding IsOrigin has_mark lacks
has_mark-quoted String.[] t o = absurd o
has_mark-quoted (String.◌∷◌ c s) t (apart, plain) =
    ap has_mark (quote-append _)
    ∙ ap (λ b. b || has_mark (String.◌∷◌ c s <> assets <> t)) (hosted c s (assets <> t) apart)
    ∙ has_mark-plain (String.◌∷◌ c s) (assets <> t) plain
    ∙ has_mark-plain assets t refl

has_mark-replace_from :
    (origin : String) (skip : ℕ) (s : String)
    → IsOrigin origin
    → has_mark (replace_from origin skip s) ≡ false
unfolding has_mark replace_from
has_mark-replace_from origin skip String.[] o = refl
has_mark-replace_from origin (suc skip) (String.◌∷◌ c s) o = has_mark-replace_from origin skip s o
has_mark-replace_from origin zero (String.◌∷◌ c s) o =
    elim (Bool-cases (starts mark (String.◌∷◌ c s))) [
      | inl t ↦
          ap has_mark (found origin c s t)
          ∙ has_mark-quoted origin (replace_from origin 8 s) o
          ∙ has_mark-replace_from origin 8 s o
      | inr f ↦
          ap has_mark (kept origin c s f)
          ∙ has_mark-kept origin c s f
          ∙ has_mark-replace_from origin 0 s o
    ]

replace_from-none :
    (origin : String) (s : String) → has_mark s ≡ false → replace_from origin 0 s ≡ s
unfolding has_mark replace_from
replace_from-none origin String.[] h = refl
replace_from-none origin (String.◌∷◌ c s) h =
    kept origin c s (ground (arith, h))
    ∙ ap (λ t. String.◌∷◌ c t) (replace_from-none origin s (ground (arith, h)))

-- In the saved source no path /assets/ stands right after a double quote, whatever the page holds and whatever
-- texts meet where one was replaced, and saving it again changes nothing. A path after another
-- character is not spoken of. The origin of the page does not start with a slash and has no quote.
pub with_origin-has_mark :
    (origin source : String)
    → IsOrigin origin
    → (has_mark (with_origin origin source) ≡ false)
      × (with_origin origin (with_origin origin source) ≡ with_origin origin source)
unfolding with_origin
with_origin-has_mark origin source o =
    let clean = has_mark-replace_from origin 0 source o in
    (clean, replace_from-none origin (replace_from origin 0 source) clean)
