-- ===== src/Things/Header.antt =====
-- app/assets/js/things/oocsi-things.js: the header that `register` writes. What `innerHTML` gives back of a text
-- that was written to it is a parameter.
use oocsi_web.Common.{String, Option, none, some, ◌>>=◌}
use oocsi_web.Common.Text.{◌<>◌}
use oocsi_web.Json.{Items, nil, cons, to_string}

module _ (read_back : String → String) where
  -- `header.innerHTML += …`, with what it gives before.
  unfoldable pub add_html : (html header : String) → String
  add_html html header = read_back (header <> html)

  -- The loop over the variables; `none` where one has no text, of which the code throws.
  unfoldable pub add_arrows : (color arrow : String) → Items → String → Option String
  unfolding add_html
  add_arrows color arrow nil header = some header
  add_arrows color arrow (cons v vs) header = elim (to_string v) [
    | none ↦ none
    | some name ↦ add_arrows color arrow vs (
        add_html
          ("<span title=\"" <> name <> "\" class=\"" <> color <> "\">&" <> arrow <> "arr;</span>")
          header)
  ]

  unfoldable pub header_html : (team app_name : String) → (in_vars out_vars : Items) → Option String
  unfolding add_arrows add_html
  header_html team app_name in_vars out_vars = do
    with_in ←
        add_arrows "purple" "d" in_vars
          (read_back ("<b class=\"grey\">" <> team <> ":</b> " <> app_name <> " "))
    with_out ← add_arrows "blue" "u" out_vars with_in
    some (
        add_html "<span id=\"connection\" class=\"red\">&#9832;</span>"
          (add_html "<span id=\"activity\">&starf;</span>" with_out))
