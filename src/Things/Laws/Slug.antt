-- ===== src/Things/Laws/Slug.antt =====
-- app/assets/js/things/oocsi-things.js: the slug of a team.
use oocsi_web.Common.{
  String, Char, Bool, true, false, not, ◌&&◌, code, if◌then◌else◌, str_eq, ◌==◌, ◌≡◌, refl, arith,
  Bool-cases, inl, inr, eq_iff,
}
use text.Mathlib.TextLemmas.{cons-ne-nil}
use oocsi_web.Things.Team.{
  is_space, is_slug_char, hyphenate, keep_slug_chars, trim_start, trim_end, team_slug,
}

-- A text of characters of a slug.
unfoldable pub is_slug_text : String → Bool
is_slug_text String.[] = true
is_slug_text (String.◌∷◌ c s) = is_slug_char c && is_slug_text s

-- Whether a text starts, and ends, with a hyphen.
unfoldable pub starts_hyphen : String → Bool
starts_hyphen String.[] = false
starts_hyphen (String.◌∷◌ c s) = code c == 45

unfoldable pub ends_hyphen : String → Bool
ends_hyphen String.[] = false
ends_hyphen (String.◌∷◌ c s) = if str_eq s "" then code c == 45 else ends_hyphen s

keep_slug_chars-is_slug_text : (s : String) → is_slug_text (keep_slug_chars s) ≡ true
unfolding is_slug_text keep_slug_chars
keep_slug_chars-is_slug_text String.[] = refl
keep_slug_chars-is_slug_text (String.◌∷◌ c s) = ground (arith, keep_slug_chars-is_slug_text s)

trim_start-is_slug_text : (s : String) → is_slug_text s ≡ true → is_slug_text (trim_start s) ≡ true
unfolding is_slug_text trim_start
trim_start-is_slug_text String.[] h = refl
trim_start-is_slug_text (String.◌∷◌ c s) h = ground (arith, trim_start-is_slug_text s)

trim_end-is_slug_text : (s : String) → is_slug_text s ≡ true → is_slug_text (trim_end s) ≡ true
unfolding is_slug_text trim_end
trim_end-is_slug_text String.[] h = refl
trim_end-is_slug_text (String.◌∷◌ c s) h =
    elim (Bool-cases (code c == 45 && str_eq (trim_end s) "")) [
      | inl e ↦ rw e refl
      | inr e ↦ rw e (ground (arith, h, trim_end-is_slug_text s))
    ]

trim_start-starts : (s : String) → starts_hyphen (trim_start s) ≡ false
unfolding starts_hyphen trim_start
trim_start-starts String.[] = refl
trim_start-starts (String.◌∷◌ c s) = ground (arith, trim_start-starts s)

trim_end-starts : (s : String) → starts_hyphen s ≡ false → starts_hyphen (trim_end s) ≡ false
unfolding starts_hyphen trim_end
trim_end-starts String.[] h = refl
trim_end-starts (String.◌∷◌ c s) h = ground arith

trim_end-ends : (s : String) → ends_hyphen (trim_end s) ≡ false
unfolding ends_hyphen trim_end
trim_end-ends String.[] = refl
trim_end-ends (String.◌∷◌ c s) = ground (arith, trim_end-ends s, eq_iff (trim_end s) "")

-- A text that is a slug already.
pub is_slug : String → Bool
is_slug s = is_slug_text s && not (starts_hyphen s) && not (ends_hyphen s)

slug_char_solid : (c : Char) → is_slug_char c ≡ true → is_space c ≡ false
unfolding is_slug_char is_space
slug_char_solid c h = ground (arith, h)

hyphenate_slug : (b : Bool) (s : String) → is_slug_text s ≡ true → hyphenate b s ≡ s
unfolding is_slug_text hyphenate
hyphenate_slug b String.[] h = refl
hyphenate_slug b (String.◌∷◌ c s) h = ground (arith, h, slug_char_solid c, hyphenate_slug false s)

keep_slug : (s : String) → is_slug_text s ≡ true → keep_slug_chars s ≡ s
unfolding is_slug_text keep_slug_chars
keep_slug String.[] h = refl
keep_slug (String.◌∷◌ c s) h = ground (arith, keep_slug s)

trim_start_slug : (s : String) → starts_hyphen s ≡ false → trim_start s ≡ s
unfolding starts_hyphen trim_start
trim_start_slug String.[] h = refl
trim_start_slug (String.◌∷◌ c s) h = ground arith

trim_end_empty : (s : String) → str_eq s "" ≡ true → trim_end s ≡ s
unfolding trim_end
trim_end_empty String.[] h = refl
trim_end_empty (String.◌∷◌ c s) h = absurd (cons-ne-nil c s ((eq_iff (String.◌∷◌ c s) "").0 h))

trim_end_slug : (s : String) → ends_hyphen s ≡ false → trim_end s ≡ s
unfolding ends_hyphen trim_end
trim_end_slug String.[] h = refl
trim_end_slug (String.◌∷◌ c s) h = elim (Bool-cases (str_eq s "")) [
  | inl e ↦ ground (arith, h, e, trim_end_empty s e)
  | inr e ↦ ground (arith, h, e, trim_end_slug s)
]

module _ (to_lower : String → String) where
  -- The slug of any name has only lower-case letters, digits and hyphens, with no hyphen at its ends.
  pub team_slug-is_slug : (name : String) → is_slug (team_slug to_lower name) ≡ true
  unfolding team_slug is_slug
  team_slug-is_slug name =
      let kept = keep_slug_chars (hyphenate false (to_lower name)) in
      ground (
        arith,
        trim_end-is_slug_text (trim_start kept) (
            trim_start-is_slug_text kept
              (keep_slug_chars-is_slug_text (hyphenate false (to_lower name)))),
        trim_end-starts (trim_start kept) (trim_start-starts kept),
        trim_end-ends (trim_start kept),
      )

  -- A slug is its own slug, if the lower case of a text of the characters of slugs is that text.
  slug_fixed :
      ((s : String) → is_slug_text s ≡ true → to_lower s ≡ s)
      → (s : String) → is_slug s ≡ true
      → team_slug to_lower s ≡ s
  unfolding team_slug is_slug
  slug_fixed low s h =
      let good : is_slug_text s ≡ true = ground (arith, h) in
      let before : starts_hyphen s ≡ false = ground (arith, h) in
      let after : ends_hyphen s ≡ false = ground (arith, h) in
      rw (low s good, hyphenate_slug false s good, keep_slug s good, trim_start_slug s before)
        (trim_end_slug s after)

  -- Making a slug of a slug changes nothing, if the lower case of a text of lower-case letters, digits
  -- and hyphens is that text: a page that is given the slug as its team joins the same channel.
  pub team_slug_idem :
      ((s : String) → is_slug_text s ≡ true → to_lower s ≡ s)
      → (name : String) → team_slug to_lower (team_slug to_lower name) ≡ team_slug to_lower name
  team_slug_idem low name = slug_fixed low (team_slug to_lower name) (team_slug-is_slug name)
