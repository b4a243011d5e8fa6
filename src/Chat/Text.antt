-- ===== src/Chat/Text.antt =====
-- app/assets/js/oocsi-chat.js: the texts that the widget makes and takes apart: the escaping of HTML,
-- the rendering of data, and cookies.
use oocsi_web.Common.{
  ℕ, zero, suc, String, true, false, Option, none, some, code, if◌then◌else◌, str_eq, ◌==◌,
}
use oocsi_web.Common.Text.{◌<>◌, show, length_text, after_prefix}
use oocsi_web.Json.{Value, null, bool, num, str, arr, obj, Items, nil, cons, Fields, end, field}

-- `s.replace(/c/g, text)`, for the character with a code.
unfoldable pub replace_all : (char : ℕ) → (text : String) → String → String
replace_all char text String.[] = ""
replace_all char text (String.◌∷◌ c s) =
    let rest = replace_all char text s in if code c == char then text <> rest else String.◌∷◌ c rest

-- `escapeHTML`, of a text.
unfoldable pub escape_html : String → String
unfolding replace_all
escape_html s = replace_all 39 "&#39;" (
    replace_all 34 "&quot;"
      (replace_all 62 "&gt;" (replace_all 60 "&lt;" (replace_all 38 "&amp;" s))))

-- `String(v)` of what is no object.
unfoldable pub plain_text : Value → String
plain_text null = "null"
plain_text (bool true) = "true"
plain_text (bool false) = "false"
plain_text (num n) = n
plain_text (str s) = s
plain_text _ = "undefined"

-- `html || '{}'`.
unfoldable pub or_braces : String → String
or_braces html = if str_eq html "" then "{}" else html

-- The line of a key whose value is no object.
unfoldable pub pair_line : (key : String) → Value → String
unfolding escape_html plain_text
pair_line key v =
    "<div class=\"oc-json-kv\"><span class=\"oc-json-key\">"
    <> (escape_html key
        <> (":</span> <span class=\"oc-json-val\">"
            <> (escape_html (plain_text v) <> "</span></div>")))

-- The block of a key whose value is an object, with its rendering.
unfoldable pub details : (key html : String) → String
unfolding escape_html
details key html =
    "<details open><summary>"
    <> (escape_html key
        <> ("</summary><div style=\"padding-left:10px\">" <> (html <> "</div></details>")))

-- `renderJSON`.
unfoldable mutual
  pub render_json : Value → String
  render_json (arr xs) = or_braces (render_items 0 xs)
  render_json (obj fs) = or_braces (render_fields fs)
  render_json v = "<span class=\"oc-json-val\">" <> (escape_html (plain_text v) <> "</span>")

  -- A pass of the loop over the keys.
  pub render_entry : (key : String) → Value → String
  render_entry key (arr xs) = details key (or_braces (render_items 0 xs))
  render_entry key (obj fs) = details key (or_braces (render_fields fs))
  render_entry key v = pair_line key v

  pub render_items : (index : ℕ) → Items → String
  render_items index nil = ""
  render_items index (cons v xs) = render_entry (show index) v <> render_items (suc index) xs

  pub render_fields : Fields → String
  render_fields end = ""
  render_fields (field key v fs) = render_entry key v <> render_fields fs

-- The first piece of `s.split(';')`, and what follows its semicolon.
unfoldable pub first_piece : String → String
first_piece String.[] = ""
first_piece (String.◌∷◌ c s) =
    let rest = first_piece s in if code c == 59 then "" else String.◌∷◌ c rest

unfoldable pub later_pieces : String → Option String
later_pieces String.[] = none
later_pieces (String.◌∷◌ c s) = let rest = later_pieces s in if code c == 59 then some s else rest

-- `while (c.charAt(0)==' ') c = c.substring(1, c.length)`.
unfoldable pub drop_spaces : String → String
drop_spaces String.[] = ""
drop_spaces (String.◌∷◌ c s) =
    let rest = drop_spaces s in if code c == 32 then rest else String.◌∷◌ c s

-- The loop of `getCookie` over the pieces, with fuel: what it returns, or `none` where the fuel runs out
-- before the pieces do.
unfoldable pub find_cookie : (fuel : ℕ) → (start cookies : String) → Option (Option String)
find_cookie zero start cookies = none
find_cookie (suc fuel) start cookies =
    elim (after_prefix start (drop_spaces (first_piece cookies))) [
      | some value ↦ some (some value)
      | none ↦ elim (later_pieces cookies) [
        | none ↦ some none
        | some rest ↦ find_cookie fuel start rest
      ]
    ]

-- `getCookie`, with the text of `document.cookie`; each piece but the first takes a semicolon.
unfoldable pub get_cookie : (name cookies : String) → Option String
unfolding find_cookie
get_cookie name cookies = elim (find_cookie (suc (length_text cookies)) (name <> "=") cookies) [
  | none ↦ none
  | some result ↦ result
]

-- The text that `setCookie` assigns to `document.cookie`, with the date of `days` from now, and that
-- of `eraseCookie`.
unfoldable pub cookie_text : (name value date : String) → (days : ℕ) → String
cookie_text name value date days =
    let expires : String = if days == 0 then "" else "; expires=" <> date in
    name <> "=" <> value <> expires <> "; path=/"

unfoldable pub erase_text : String → String
erase_text name = name <> "=; Max-Age=-99999999; path=/"
