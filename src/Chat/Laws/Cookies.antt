-- ===== src/Chat/Laws/Cookies.antt =====
-- app/assets/js/oocsi-chat.js: `getCookie` finds a cookie by its name, and its loop ends.
use oocsi_web.Common.{
  ℕ, zero, suc, ◌+◌, ◌≤◌, ◌<◌, code, String, Bool, true, false, ◌&&◌, Option, none, some, [], ◌∷◌,
  ◌≡◌, refl, sym, ◌∙◌, ap, arith, if◌then◌else◌, ◌==◌, str_eq, length, All, Bool-cases,
  Option-cases, inl, inr,
}
use oocsi_web.Common.Dict.{Dict, lookup}
use oocsi_web.Common.Text.{◌<>◌, length_text, after_prefix}
use oocsi_web.Common.Text.Pieces.{lacks, lacks-append, after_prefix-pair}
use oocsi_web.Chat.Text.{first_piece, later_pieces, drop_spaces, find_cookie, get_cookie}
use text.Mathlib.TextLemmas.{cons-append, nil-append, append_assoc}
use oocsi_web.Chat.Laws.Rounds.{find_last, find_next}

-- What a browser returns as `document.cookie`.
unfoldable pub cookies_text : Dict String → String
cookies_text [] = ""
cookies_text ((name, value) ∷ []) = name <> "=" <> value
cookies_text ((name, value) ∷ next ∷ rest) =
    (name <> "=" <> value) <> "; " <> cookies_text (next ∷ rest)

-- A later piece is shorter than the text.
later_pieces-lt : (s rest : String) → later_pieces s ≡ some rest → length_text rest < length_text s
unfolding later_pieces length_text
later_pieces-lt String.[] rest h = absurd (ground (arith, h))
later_pieces-lt (String.◌∷◌ c s) rest h = ground (arith, h, later_pieces-lt s rest)

-- The loop comes to its end within one round more than the text has characters, and with all the fuel
-- there is beyond that it ends in the same way.
enough_fuel :
    (fuel more : ℕ) (start s : String)
    → length_text s < fuel
    → (result : Option String) × (find_cookie fuel start s ≡ some result)
      × (find_cookie (fuel + more) start s ≡ some result)
unfolding find_cookie
enough_fuel zero more start s h = absurd (omega (arith, h))
enough_fuel (suc fuel) more start s h =
    let later : suc fuel + more ≡ suc (fuel + more) = omega arith in
    elim (Option-cases (after_prefix start (drop_spaces (first_piece s)))) [
      | inr (value, e) ↦ (some value, rw (e, find_cookie) refl, rw (later, e, find_cookie) refl)
      | inl e ↦ elim (Option-cases (later_pieces s)) [
        | inl f ↦ (none, rw (e, f, find_cookie) refl, rw (later, e, f, find_cookie) refl)
        | inr (rest, f) ↦
            let shorter = later_pieces-lt s rest f in
            let (result, ends, still) = enough_fuel fuel more start rest (omega arith) in
            (result, rw (e, f, find_cookie) ends, rw (later, e, f, find_cookie) still)
      ]
    ]

-- The loop of `getCookie` ends: within one round more than the text has characters it returns, and what it
-- returns is what it returns with any more rounds.
pub get_cookie_ends :
    (name cookies : String) (more : ℕ)
    → find_cookie (suc (length_text cookies) + more) (name <> "=") cookies
      ≡ some (get_cookie name cookies)
unfolding get_cookie
get_cookie_ends name cookies more =
    let (result, ends, still) =
      enough_fuel (suc (length_text cookies)) more (name <> "=") cookies (omega arith) in
    rw (ends, get_cookie) still

unfoldable pub starts_space : String → Bool
starts_space String.[] = false
starts_space (String.◌∷◌ c s) = code c == 32

-- A name and a value that a browser keeps as they are, with no equality sign in the name.
abbrev pub IsCookie : String × String → Type 0
IsCookie (name, value) =
    (lacks 61 name ≡ true)
    × (lacks 59 name ≡ true)
    × (lacks 59 value ≡ true)
    × (starts_space name ≡ false)

drop_spaces-entry :
    (name value : String)
    → starts_space name ≡ false
    → drop_spaces (name <> "=" <> value) ≡ name <> "=" <> value
unfolding drop_spaces starts_space
drop_spaces-entry String.[] value h = rw (nil-append, cons-append) refl
drop_spaces-entry (String.◌∷◌ c name) value h = rw cons-append (ground (arith, h))

lacks-entry :
    (name value : String)
    → lacks 59 name ≡ true
    → lacks 59 value ≡ true
    → lacks 59 (name <> "=" <> value) ≡ true
unfolding lacks
lacks-entry name value h k =
    lacks-append 59 name ("=" <> value)
    ∙ ap (λ b. lacks 59 name && b) (lacks-append 59 "=" value)
    ∙ ground (arith, h, k)

-- What may stand before an entry.
abbrev IsBlank : String → Type 0
IsBlank lead = (lacks 59 lead ≡ true) × ((t : String) → drop_spaces (lead <> t) ≡ drop_spaces t)

space-IsBlank : IsBlank " "
unfolding lacks drop_spaces
space-IsBlank = (refl, λ t. ap drop_spaces (cons-append " " "" t) ∙ ap drop_spaces (nil-append t))

cookies_text-more :
    (n v : String) (next : String × String) (jar : Dict String) (lead : String)
    → lead <> cookies_text ((n, v) ∷ next ∷ jar)
      ≡ (lead <> n <> "=" <> v) <> ";" <> (" " <> cookies_text (next ∷ jar))
unfolding cookies_text
cookies_text-more n v next jar lead =
    sym (append_assoc lead (n <> "=" <> v) _)
    ∙ ap (λ t. (lead <> n <> "=" <> v) <> t) (append_assoc ";" " " (cookies_text (next ∷ jar)))

lookup-first :
    (name n v : String) (jar : Dict String)
    → lookup name ((n, v) ∷ jar) ≡ (if str_eq n name then some v else lookup name jar)
unfolding lookup
lookup-first name n v jar = refl

lacks-lead :
    (lead s : String) → lacks 59 lead ≡ true → lacks 59 s ≡ true → lacks 59 (lead <> s) ≡ true
lacks-lead lead s h k = ground (arith, lacks-append 59 lead s, h, k)

module _ (name : String) (plain : lacks 61 name ≡ true) where
  find_cookie-lookup :
      (fuel : ℕ) (jar : Dict String) (entry : String × String) (lead : String)
      → length jar < fuel
      → IsBlank lead
      → IsCookie entry
      → All IsCookie jar
      → find_cookie fuel (name <> "=") (lead <> cookies_text (entry ∷ jar))
        ≡ some (lookup name (entry ∷ jar))
  find_cookie-lookup zero jar entry lead h b c cs = absurd (omega (arith, h))
  find_cookie-lookup (suc fuel) [] (n, v) lead h (solid, dropped) (a, m, w, sp) cs =
      let entry = n <> "=" <> v in
      let apart = lacks-lead lead entry solid (lacks-entry n v m w) in
      unfold cookies_text lookup in
      find_last fuel (name <> "=") (lead <> entry) entry apart
        (dropped entry ∙ drop_spaces-entry n v sp)
      ∙ ap some (after_prefix-pair name n v plain a)
  find_cookie-lookup (suc fuel) (next ∷ jar) (n, v) lead h (solid, dropped) (a, m, w, sp) (c, cs) =
      let entry = n <> "=" <> v in
      let apart = lacks-lead lead entry solid (lacks-entry n v m w) in
      let later = find_cookie-lookup fuel jar next " " (omega arith) space-IsBlank c cs in
      ap (find_cookie (suc fuel) (name <> "=")) (cookies_text-more n v next jar lead)
      ∙ find_next fuel (name <> "=") (lead <> entry) entry apart
          (dropped entry ∙ drop_spaces-entry n v sp) (" " <> cookies_text (next ∷ jar))
      ∙ ap
          (λ o. elim o [
            | none ↦ find_cookie fuel (name <> "=") (" " <> cookies_text (next ∷ jar))
            | some v ↦ some (some v)
          ])
          (after_prefix-pair name n v plain a)
      ∙ elim (Bool-cases (str_eq n name)) [
        | inl e ↦ rw (lookup-first name n v (next ∷ jar), e) refl
        | inr e ↦ rw (lookup-first name n v (next ∷ jar), e) later
      ]

empty-IsBlank : IsBlank ""
unfolding lacks
empty-IsBlank = (refl, λ t. ap drop_spaces (nil-append t))

length_text-append : (s t : String) → length_text (s <> t) ≡ length_text s + length_text t
unfolding length_text
length_text-append String.[] t = omega (arith, ap length_text (nil-append t))
length_text-append (String.◌∷◌ c s) t = rw cons-append (omega (arith, length_text-append s t))

length_text-behind : (s t : String) → suc (length_text t) ≤ length_text (s <> "; " <> t)
unfolding length_text
length_text-behind s t = omega (arith, length_text-append s ("; " <> t), length_text-append "; " t)

length_text-entry : (n v : String) → 1 ≤ length_text (n <> "=" <> v)
unfolding length_text
length_text-entry n v = omega (arith, length_text-append n ("=" <> v), length_text-append "=" v)

cookies_text-next :
    (n v : String) (next : String × String) (jar : Dict String)
    → cookies_text ((n, v) ∷ next ∷ jar) ≡ (n <> "=" <> v) <> "; " <> cookies_text (next ∷ jar)
unfolding cookies_text
cookies_text-next n v next jar = refl

length-cookies_text : (jar : Dict String) → length jar ≤ length_text (cookies_text jar)
length-cookies_text [] = omega arith
length-cookies_text ((n, v) ∷ []) = unfold cookies_text in length_text-entry n v
length-cookies_text ((n, v) ∷ next ∷ jar) = omega (
  arith,
  ap length_text (cookies_text-next n v next jar),
  length_text-behind (n <> "=" <> v) (cookies_text (next ∷ jar)),
  length-cookies_text (next ∷ jar),
)

after_prefix-none : (name : String) → after_prefix (name <> "=") "" ≡ none
unfolding after_prefix
after_prefix-none String.[] = refl
after_prefix-none (String.◌∷◌ c name) = ap (λ p. after_prefix p "") (cons-append c name "=") ∙ refl

get_cookie_empty : (name : String) → get_cookie name (cookies_text []) ≡ lookup name []
unfolding get_cookie first_piece drop_spaces later_pieces lookup cookies_text length_text
get_cookie_empty name =
    let found : find_cookie 1 (name <> "=") "" ≡ some none =
      rw (after_prefix-none name, find_cookie) refl in
    rw (found, get_cookie) refl

-- From the text of a browser's cookies, `getCookie` returns the value of the first cookie with the name,
-- and nothing where there is none. The cookies are as a browser keeps them, without semicolons and
-- with no space at the start of a name, and no name has an equality sign.
pub get_cookie-lookup :
    (name : String) (jar : Dict String)
    → lacks 61 name ≡ true
    → All IsCookie jar
    → get_cookie name (cookies_text jar) ≡ lookup name jar
unfolding get_cookie
get_cookie-lookup name [] plain cs = get_cookie_empty name
get_cookie-lookup name (entry ∷ jar) plain (c, cs) =
    let found =
      ap (find_cookie (suc (length_text (cookies_text (entry ∷ jar)))) (name <> "="))
        (sym (nil-append (cookies_text (entry ∷ jar))))
      ∙ find_cookie-lookup name plain (suc (length_text (cookies_text (entry ∷ jar)))) jar entry ""
          (omega (arith, length-cookies_text (entry ∷ jar))) empty-IsBlank c cs in
    rw (found, get_cookie) refl
