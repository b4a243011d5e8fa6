-- ===== src/Things/Tests.antt =====
-- The things page on small inputs, and its theorems at such inputs.
use oocsi_web.Common.{◌||◌, String, true, false, none, some, [], ◌∷◌, ◌≡◌, refl, arith}
use oocsi_web.Common.Text.{◌<>◌, after_prefix}
use oocsi_web.Common.Text.Pieces.{lacks}
use oocsi_web.Common.Dict.{lookup}
use oocsi_web.Json.{nil, cons, to_string, Value, undefined, num, str, obj, end, field}
use oocsi_web.Client.Samples.{browser, moment, ready}
use oocsi_web.Things.Team.{
  team_slug, hyphenate, keep_slug_chars, trim_start, trim_end, is_space, is_slug_char,
}
use oocsi_web.Things.Setup.{PageBrowser, load_page}
use oocsi_web.Things.Registry.{Page, start_page, current_devices, link_data, own_name}
use oocsi_web.Things.Motion.{
  on_answer, request_device_motion, granted, is_granted, begin, ask, answer,
}
use oocsi_web.Things.Laws.Slug.{is_slug, team_slug-is_slug}
use oocsi_web.Things.Laws.Presence.{
  heard, asked, live, recent, last_heard, current_devices-last_heard,
}
use oocsi_web.Things.Header.{header_html, add_arrows, add_html}
use oocsi_web.Things.Download.{with_origin, replace_from}
use oocsi_web.Things.Laws.Saved.{IsOrigin, has_mark, with_origin-has_mark}
use oocsi_web.Things.Laws.Granted.{MotionReach-granted}
use oocsi_web.Things.Laws.Links.{PassesOn, link_data-PassesOn}
use oocsi_web.Things.Laws.Cookie.{join_rows, team_row, load_page-remembers}

abbrev same : String → String
same s = s

team_slug_sample : team_slug same " --team 1 (blue)!-" ≡ "team-1-blue"
unfolding team_slug hyphenate keep_slug_chars trim_start trim_end is_space is_slug_char
team_slug_sample = refl

team_slug-is_slug_example : is_slug (team_slug same "Team 1") ≡ true
team_slug-is_slug_example = team_slug-is_slug same "Team 1"

-- A presence message of a lamp.
abbrev presence : Value
presence = obj (field "data" (obj (field "id" (str "lamp7") (field "name" (str "Lamp") end))) end)

current_devices-last_heard_example :
    lookup "lamp7"
      (current_devices 26000 (
        live
          (heard 1000 presence ∷ asked 2000 ∷ heard 9000 presence ∷ [])
          (start_page "Team 1" "OOCSI-things/team-1"))).devices
    ≡ recent 26000
        (last_heard "lamp7" (heard 1000 presence ∷ asked 2000 ∷ heard 9000 presence ∷ []) none)
current_devices-last_heard_example =
    current_devices-last_heard "Team 1" "OOCSI-things/team-1" "lamp7"
      (heard 1000 presence ∷ asked 2000 ∷ heard 9000 presence ∷ []) 26000 (omega arith)

MotionReach-granted_example : (false || is_granted granted) ≡ true
unfolding request_device_motion on_answer
MotionReach-granted_example = MotionReach-granted (answer 0 (ask begin true) refl granted) refl

-- A page whose own variable `level` is the first of the client.
abbrev page : Page
page = record (start_page "Team 1" "OOCSI-things/team-1") {
  app_slug = "lamp";
  data_variables = ("level", 0) ∷ [];
}

link_data-PassesOn_example :
    PassesOn browser moment
      (num "3")
      0
      (record {
        channel = "room";
        name = "light";
        throttle = 500;
        listeners = 5 ∷ [];
        value = undefined;
        last_update = 0;
      })
      ready
      (link_data 1 "dial" "level" none page)
unfolding own_name start_page lookup
link_data-PassesOn_example =
    link_data-PassesOn browser moment "dial" "level" none (num "3") page ready 0 _ refl refl
      (refl, tt) refl (omega arith) (omega arith)

abbrev page_browser : PageBrowser
page_browser = record {
  to_lower = same;
  trim = same;
  decode = λ s. some s;
  has_thing = true;
  expiry = "later";
}

load_page-remembers_example :
    load_page page_browser none (join_rows ("a=1" ∷ team_row "Team 1" ∷ "b=2" ∷ []))
    ≡ some (record { choice = some "Team 1"; team = none; cookies_set = []; thing_started = false })
unfolding after_prefix lacks
load_page-remembers_example =
    load_page-remembers page_browser ("a=1" ∷ []) "Team 1" ("b=2" ∷ []) ((refl, refl), tt)
      ((refl, refl), tt) refl refl

abbrev source : String
source = "<img src=\"/assets/a.png\">"

with_origin_sample :
    with_origin "https://oocsi.net" source ≡ "<img src=\"https://oocsi.net/assets/a.png\">"
unfolding with_origin replace_from after_prefix
with_origin_sample = refl

with_origin-has_mark_example :
    (has_mark (with_origin "https://oocsi.net" source) ≡ false)
    × (with_origin "https://oocsi.net" (with_origin "https://oocsi.net" source)
        ≡ with_origin "https://oocsi.net" source)
unfolding IsOrigin lacks
with_origin-has_mark_example = with_origin-has_mark "https://oocsi.net" source (refl, refl)

-- The name of a team is written as it is, with the elements that it makes.
header_html_sample :
    header_html same "<i>" "Lamp" (cons (str "level") nil) nil
    ≡ some (
        "<b class=\"grey\"><i>:</b> Lamp <span title=\"level\" class=\"purple\">&darr;</span>"
        <> "<span id=\"activity\">&starf;</span><span id=\"connection\" class=\"red\">&#9832;</span>")
unfolding header_html add_arrows add_html to_string
header_html_sample = refl
