-- ===== src/Things/Laws/Cookie.antt =====
-- app/assets/js/things/oocsi-things.js: the dialog starts with the team of the cookie.
use oocsi_web.Common.{
  Char, code, String, true, false, none, some, List, [], ◌∷◌, ◌++◌, ◌≡◌, refl, ◌∙◌, ap, arith, ◌==◌,
  All, All-append, All-imp, Option-cases, inl, inr,
}
use oocsi_web.Common.Text.{◌<>◌, after_prefix}
use oocsi_web.Common.Text.Pieces.{lacks, lacks-append, after_prefix-append}
use oocsi_web.Things.Setup.{
  push_char, rows, before_equals, find_team, PageBrowser, open_dialog, load_page,
}
use text.Mathlib.TextLemmas.{cons-append, nil-append}

-- What a browser returns as `document.cookie`, by the rows `name=value`.
unfoldable pub join_rows : List String → String
join_rows [] = ""
join_rows (r ∷ []) = r
join_rows (r ∷ next ∷ more) = r <> "; " <> join_rows (next ∷ more)

rows-cons :
    (c : Char) (s : String) → (code c == 59) ≡ false → rows (String.◌∷◌ c s) ≡ push_char c (rows s)
unfolding rows push_char
rows-cons c String.[] h = refl
rows-cons c (String.◌∷◌ d s) h = ground (arith, h)

rows_whole : (r : String) → lacks 59 r ≡ true → rows r ≡ r ∷ []
unfolding rows lacks push_char
rows_whole String.[] h = refl
rows_whole (String.◌∷◌ c r) h =
    rows-cons c r (ground (arith, h)) ∙ ap (push_char c) (rows_whole r (ground (arith, h)))

rows-append : (r s : String) → lacks 59 r ≡ true → rows (r <> "; " <> s) ≡ r ∷ rows s
unfolding rows lacks push_char
rows-append String.[] s h = ap rows (
    nil-append ("; " <> s)
    ∙ cons-append ";" " " s
    ∙ ap (λ t. String.◌∷◌ ";" t) (cons-append " " "" s ∙ ap (λ t. String.◌∷◌ " " t) (nil-append s)))
rows-append (String.◌∷◌ c r) s h =
    ap rows (cons-append c r ("; " <> s))
    ∙ rows-cons c (r <> "; " <> s) (ground (arith, h))
    ∙ ap (push_char c) (rows-append r s (ground (arith, h)))

rows-join_rows :
    (r : String) (more : List String)
    → lacks 59 r ≡ true
    → All (λ r. lacks 59 r ≡ true) more
    → rows (join_rows (r ∷ more)) ≡ r ∷ more
unfolding join_rows
rows-join_rows r [] h hs = rows_whole r h
rows-join_rows r (next ∷ more) h (k, ks) =
    rows-append r _ h ∙ ap (λ rs. r ∷ rs) (rows-join_rows next more k ks)

before_equals_whole : (s : String) → lacks 61 s ≡ true → before_equals s ≡ s
unfolding before_equals lacks
before_equals_whole String.[] h = refl
before_equals_whole (String.◌∷◌ c s) h = ground (arith, h, before_equals_whole s)

-- A row of another cookie.
abbrev pub IsOther : String → Type 0
IsOther r = (after_prefix "ot_teamName=" r ≡ none) × (lacks 59 r ≡ true)

find_team-found :
    (others : List String) (name : String) (later : List String)
    → All IsOther others
    → lacks 61 name ≡ true
    → find_team (others ++ ("ot_teamName=" <> name) ∷ later) ≡ some name
unfolding find_team
find_team-found [] name later os h =
    rw (after_prefix-append "ot_teamName=" name, find_team) (ap some (before_equals_whole name h))
find_team-found (o ∷ others) name later ((apart, _), os) h =
    rw (apart, find_team) (find_team-found others name later os h)

-- The row that a browser keeps of `setCookie`.
abbrev pub team_row : String → String
team_row name = "ot_teamName=" <> name

rows_among :
    (others : List String) (row : String) (later : List String)
    → All IsOther others
    → lacks 59 row ≡ true
    → All IsOther later
    → rows (join_rows (others ++ row ∷ later)) ≡ others ++ row ∷ later
rows_among others row later os h ls = whole others (
    All-append _ others (row ∷ later) (All-imp IsOther _ others (λ r o. o.1) os)
      (h, All-imp IsOther _ later (λ r o. o.1) ls))
  where
    whole :
        (rs : List String)
        → All (λ r. lacks 59 r ≡ true) (rs ++ row ∷ later)
        → rows (join_rows (rs ++ row ∷ later)) ≡ rs ++ row ∷ later
    whole [] (p, ps) = rows-join_rows row later p ps
    whole (r ∷ rs) (p, ps) = rows-join_rows r (rs ++ row ∷ later) p ps

-- The dialog starts with the decoded team of the cookie: a name without semicolon and equality sign that
-- stands as it is in the cookie, among other cookies. Where the name cannot be decoded, the page
-- stops without a dialog that works.
pub load_page-remembers :
    (b : PageBrowser) (others : List String) (name : String) (later : List String)
    → All IsOther others
    → All IsOther later
    → lacks 61 name ≡ true
    → lacks 59 name ≡ true
    → load_page b none (join_rows (others ++ team_row name ∷ later)) ≡ elim (b.decode name) [
      | none ↦ none
      | some team ↦
          some (record { choice = some team; team = none; cookies_set = []; thing_started = false })
    ]
unfolding load_page open_dialog lacks
load_page-remembers b others name later os ls h k =
    let row : lacks 59 (team_row name) ≡ true =
      lacks-append 59 "ot_teamName=" name ∙ ground (arith, k) in
    elim (Option-cases (b.decode name)) [
      | inl e ↦
          rw
            (
              rows_among others (team_row name) later os row ls,
              find_team-found others name later os h,
              e,
              open_dialog,
            )
            refl
      | inr (team, e) ↦
          rw
            (
              rows_among others (team_row name) later os row ls,
              find_team-found others name later os h,
              e,
              open_dialog,
            )
            refl
    ]
