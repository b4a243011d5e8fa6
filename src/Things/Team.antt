-- ===== src/Things/Team.antt =====
-- app/assets/js/things/oocsi-things.js: `finishSetup`, which makes a channel of the name of a team, and
-- the cookie that keeps the name.
use oocsi_web.Common.{
  String, Char, Bool, true, false, ◌||◌, ◌&&◌, code, leb, if◌then◌else◌, str_eq, ◌==◌,
}
use oocsi_web.Common.Text.{◌<>◌}

-- `\s`, by code point.
unfoldable pub is_space : Char → Bool
is_space c =
    leb 9 (code c) && leb (code c) 13
    || code c == 32
    || code c == 160
    || code c == 5760
    || leb 8192 (code c) && leb (code c) 8202
    || code c == 8232
    || code c == 8233
    || code c == 8239
    || code c == 8287
    || code c == 12288
    || code c == 65279

-- `[a-z0-9-]`.
unfoldable pub is_slug_char : Char → Bool
is_slug_char c =
    leb 97 (code c) && leb (code c) 122 || leb 48 (code c) && leb (code c) 57 || code c == 45

-- `str.replace(/\s+/g, '-')`; the flag says whether the character before is of the same run.
unfoldable pub hyphenate : (in_run : Bool) → String → String
unfolding is_space
hyphenate in_run String.[] = ""
hyphenate in_run (String.◌∷◌ c s) =
    let spaced = hyphenate true s in
    let kept = hyphenate false s in
    if is_space c then (if in_run then spaced else "-" <> spaced) else String.◌∷◌ c kept

-- `str.replace(/[^a-z0-9-]/g, '')`.
unfoldable pub keep_slug_chars : String → String
unfolding is_slug_char
keep_slug_chars String.[] = ""
keep_slug_chars (String.◌∷◌ c s) =
    let rest = keep_slug_chars s in if is_slug_char c then String.◌∷◌ c rest else rest

-- `str.replace(/^-+|-+$/g, '')`, by its two ends.
unfoldable pub trim_start : String → String
trim_start String.[] = ""
trim_start (String.◌∷◌ c s) =
    let rest = trim_start s in if code c == 45 then rest else String.◌∷◌ c s

unfoldable pub trim_end : String → String
trim_end String.[] = ""
trim_end (String.◌∷◌ c s) =
    let rest = trim_end s in if code c == 45 && str_eq rest "" then "" else String.◌∷◌ c rest

-- `namespace`.
abbrev pub namespace : String
namespace = "OOCSI-things"

-- `String.prototype.toLowerCase`.
module _ (to_lower : String → String) where
  -- `teamSlug`.
  unfoldable pub team_slug : String → String
  unfolding hyphenate keep_slug_chars trim_start trim_end
  team_slug name = trim_end (trim_start (keep_slug_chars (hyphenate false (to_lower name))))

  -- `globalSettings.channel`.
  unfoldable pub team_channel : String → String
  unfolding team_slug
  team_channel name = namespace <> "/" <> team_slug name

-- What `setCookie` assigns to `document.cookie`, with the date a year from now.
unfoldable pub team_cookie : (value expires : String) → String
team_cookie value expires = "ot_teamName=" <> value <> "; expires=" <> expires <> "; path=/"
