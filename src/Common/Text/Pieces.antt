-- ===== src/Common/Text/Pieces.antt =====
-- Texts without a separator, and prefixes: `name=value` is found by its name.
use oocsi_web.Common.{
  ℕ, code, String, Bool, true, not, ◌&&◌, none, some, ◌≡◌, ◌∙◌, ap, arith, if◌then◌else◌, ◌==◌,
  ==_iff, str_eq, eq_iff,
}
use oocsi_web.Common.Text.{◌<>◌, after_prefix}
use text.Mathlib.TextEquality.{Char-path}
use text.Mathlib.TextLemmas.{cons-append, nil-append, cons-ne-nil}

-- No character of the text has the code.
unfoldable pub lacks : ℕ → String → Bool
lacks k String.[] = true
lacks k (String.◌∷◌ c s) = not (code c == k) && lacks k s

pub lacks-append : (k : ℕ) (s t : String) → lacks k (s <> t) ≡ (lacks k s && lacks k t)
unfolding lacks
lacks-append k String.[] t = ap (lacks k) (nil-append t)
lacks-append k (String.◌∷◌ c s) t = rw cons-append (ground (arith, lacks-append k s t))

pub after_prefix-append : (p s : String) → after_prefix p (p <> s) ≡ some s
unfolding after_prefix
after_prefix-append String.[] s = ap some (nil-append s)
after_prefix-append (String.◌∷◌ c p) s =
    rw cons-append (ground (arith, after_prefix-append p s, ==_iff (code c) (code c)))

equals_cons : (s : String) → "=" <> s ≡ String.◌∷◌ "=" s
equals_cons s = cons-append "=" "" s ∙ ap (λ r. String.◌∷◌ "=" r) (nil-append s)

-- A text `name=value` starts with `wanted=` exactly if the names are equal, where neither has an
-- equality sign.
pub after_prefix-pair :
    (wanted name value : String)
    → lacks 61 wanted ≡ true
    → lacks 61 name ≡ true
    → after_prefix (wanted <> "=") (name <> "=" <> value)
      ≡ (if str_eq name wanted then some value else none)
unfolding after_prefix lacks
after_prefix-pair String.[] String.[] value l m =
    ap (after_prefix "=") (nil-append ("=" <> value)) ∙ after_prefix-append "=" value
after_prefix-pair String.[] (String.◌∷◌ c name) value l m =
    rw cons-append (ground (arith, m, eq_iff (String.◌∷◌ c name) "", cons-ne-nil c name))
after_prefix-pair (String.◌∷◌ a wanted) String.[] value l m =
    rw (cons-append, nil-append, equals_cons value)
      (ground (arith, l, eq_iff "" (String.◌∷◌ a wanted), cons-ne-nil a wanted))
after_prefix-pair (String.◌∷◌ a wanted) (String.◌∷◌ c name) value l m =
    rw (cons-append, cons-append)
      (ground (
        arith,
        l,
        m,
        after_prefix-pair wanted name value,
        Char-path a c,
        eq_iff (String.◌∷◌ c name) (String.◌∷◌ a wanted),
        eq_iff name wanted,
      ))
