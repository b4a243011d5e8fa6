-- ===== src/Things/Setup.antt =====
-- app/assets/js/things/oocsi-things.js: how a page comes to its team, by its configuration or by the dialog,
-- which starts with the team of the cookie.
use oocsi_web.Common.{
  String, Char, Bool, false, not, ◌&&◌, Option, none, some, List, [], ◌∷◌, ◌++◌, code,
  if◌then◌else◌, str_eq, ◌==◌,
}
use oocsi_web.Common.Text.{after_prefix}
use oocsi_web.Things.Team.{team_channel, team_cookie}

-- A character before the first of some texts.
unfoldable pub push_char : Char → List String → List String
push_char c [] = String.◌∷◌ c "" ∷ []
push_char c (r ∷ rs) = String.◌∷◌ c r ∷ rs

-- `document.cookie.split("; ")`.
unfoldable pub rows : String → List String
unfolding push_char
rows String.[] = "" ∷ []
rows (String.◌∷◌ c String.[]) = String.◌∷◌ c "" ∷ []
rows (String.◌∷◌ c (String.◌∷◌ d s)) =
    let after = rows s in
    let joined = push_char c (rows (String.◌∷◌ d s)) in
    if code c == 59 && code d == 32 then "" ∷ after else joined

-- The text before the first `=`.
unfoldable pub before_equals : String → String
before_equals String.[] = ""
before_equals (String.◌∷◌ c s) =
    let rest = before_equals s in if code c == 61 then "" else String.◌∷◌ c rest

-- `find` over the rows, and the part of the row between its first and its second `=`.
unfoldable pub find_team : List String → Option String
unfolding before_equals
find_team [] = none
find_team (r ∷ rs) = elim (after_prefix "ot_teamName=" r) [
  | some rest ↦ some (before_equals rest)
  | none ↦ find_team rs
]

-- What stands on the page before a thing runs: the dialog with its choice, or the team and the channel;
-- the cookies that were set, and whether the thing's own function was called.
pub record Setup : Type 0 where
  pub choice : Option String
  pub team : Option (String × String)
  pub cookies_set : List String
  pub thing_started : Bool

-- `String.prototype.toLowerCase`, `String.prototype.trim`, `decodeURIComponent` (`none` where it throws),
-- whether the page has a function `thing`, and the date a year from now.
pub record PageBrowser : Type 0 where
  pub to_lower : String → String
  pub trim : String → String
  pub decode : String → Option String
  pub has_thing : Bool
  pub expiry : String

-- `finishSetup`.
unfoldable pub finish_setup : PageBrowser → String → Setup → Setup
unfolding team_channel team_cookie
finish_setup b name s = record s {
  team = some (name, team_channel b.to_lower name);
  cookies_set = s.cookies_set ++ team_cookie name b.expiry ∷ [];
  thing_started = b.has_thing;
}

-- The dialog; `none` where the code throws before the button has a handler.
unfoldable pub open_dialog : PageBrowser → (cookies : String) → Setup → Option Setup
unfolding rows find_team
open_dialog b cookies s = elim (find_team (rows cookies)) [
  | none ↦ some (record s { choice = some "" })
  | some value ↦ elim (b.decode value) [
    | none ↦ none
    | some name ↦ some (record s { choice = some name })
  ]
]

-- The listener of `DOMContentLoaded`, with the `teamspace` of the page's configuration, if it has one.
unfoldable pub load_page :
    PageBrowser → (teamspace : Option String) → (cookies : String) → Option Setup
unfolding finish_setup open_dialog
load_page b teamspace cookies =
    let s : Setup = record {
      choice = none;
      team = none;
      cookies_set = [];
      thing_started = false;
    } in
    elim teamspace [
      | none ↦ open_dialog b cookies s
      | some t ↦
          if not (str_eq t "") && not (str_eq (b.trim t) "")
          then some (finish_setup b t s)
          else open_dialog b cookies s
    ]

-- The button of the dialog, with what stands in its field.
unfoldable pub submit_team : PageBrowser → (field : String) → Setup → Setup
unfolding finish_setup
submit_team b field s = elim s.choice [
  | none ↦ s
  | some c ↦ finish_setup b field (record s { choice = none })
]
