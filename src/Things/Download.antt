-- ===== src/Things/Download.antt =====
-- app/assets/js/things/oocsi-things.js: the button that saves the source of the page.
use oocsi_web.Common.{ℕ, zero, suc, String, code, if◌then◌else◌, ◌==◌, is_some, str_eq}
use oocsi_web.Common.Text.{◌<>◌, after_prefix}

-- `/"\/assets\//`: a quote and the path of the assets.
abbrev pub quote : String
quote = "\""

abbrev pub assets : String
assets = "/assets/"

abbrev pub mark : String
mark = "\"/assets/"

-- `source.replace(/"\/assets\//g, '"' + location.origin + '/assets/')`, with the number of characters to
-- skip of a match that was replaced.
unfoldable pub replace_from : (origin : String) → (skip : ℕ) → String → String
replace_from origin skip String.[] = ""
replace_from origin (suc skip) (String.◌∷◌ c s) = replace_from origin skip s
replace_from origin zero (String.◌∷◌ c s) =
    let after = replace_from origin 8 s in
    let next = replace_from origin 0 s in
    if is_some (after_prefix mark (String.◌∷◌ c s))
    then quote <> origin <> assets <> after
    else String.◌∷◌ c next

unfoldable pub with_origin : (origin : String) → (source : String) → String
unfolding replace_from
with_origin origin source = replace_from origin 0 source

-- `location.pathname.split('/').pop()`, with what was read of the last piece.
unfoldable pub last_piece : (piece : String) → String → String
last_piece piece String.[] = piece
last_piece piece (String.◌∷◌ c s) =
    let next = last_piece "" s in
    let same = last_piece (piece <> String.◌∷◌ c "") s in if code c == 47 then next else same

-- `a.download`.
unfoldable pub file_name : (pathname : String) → String
unfolding last_piece
file_name pathname =
    let name = last_piece "" pathname in if str_eq name "" then "thing.html" else name
