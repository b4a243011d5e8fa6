-- ===== src/Chat/Laws/Render.antt =====
-- app/assets/js/oocsi-chat.js: what `renderJSON` returns is HTML of the widget's own elements.
use oocsi_web.Common.{ℕ, suc, String, true, ◌≡◌, refl, str_eq, Bool-cases, inl, inr}
use oocsi_web.Common.Text.{◌<>◌, show}
use oocsi_web.Json.{
  Value, undefined, null, bool, num, str, arr, obj, Items, nil, cons, Fields, end, field,
}
use oocsi_web.Chat.Text.{
  escape_html, plain_text, or_braces, pair_line, details, render_json, render_entry, render_items,
  render_fields,
}
use oocsi_web.Chat.Laws.Escape.{is_inert, escape_html-is_inert}

-- HTML made of text without angle brackets and quotes and of the elements that the widget uses, with
-- their ends.
pub data IsMarkup : String → Type 0 where
  inert : (s : String) → is_inert s ≡ true → IsMarkup s
  beside : {s t : String} → IsMarkup s → IsMarkup t → IsMarkup (s <> t)
  value : {s : String} → IsMarkup s → IsMarkup ("<span class=\"oc-json-val\">" <> (s <> "</span>"))
  line :
      {s t : String}
      → IsMarkup s
      → IsMarkup t
      → IsMarkup (
          "<div class=\"oc-json-kv\"><span class=\"oc-json-key\">"
          <> (s <> (":</span> <span class=\"oc-json-val\">" <> (t <> "</span></div>"))))
  block :
      {s t : String}
      → IsMarkup s
      → IsMarkup t
      → IsMarkup (
          "<details open><summary>"
          <> (s <> ("</summary><div style=\"padding-left:10px\">" <> (t <> "</div></details>"))))

escape_html-IsMarkup : (s : String) → IsMarkup (escape_html s)
escape_html-IsMarkup s = inert (escape_html s) (escape_html-is_inert s)

or_braces-IsMarkup : (s : String) → IsMarkup s → IsMarkup (or_braces s)
unfolding or_braces is_inert
or_braces-IsMarkup s h = elim (Bool-cases (str_eq s "")) [
  | inl e ↦ rw e (inert "{}" refl)
  | inr e ↦ rw e h
]

pair_line-IsMarkup : (key : String) (v : Value) → IsMarkup (pair_line key v)
unfolding pair_line
pair_line-IsMarkup key v = line (escape_html-IsMarkup key) (escape_html-IsMarkup (plain_text v))

details-IsMarkup : (key html : String) → IsMarkup html → IsMarkup (details key html)
unfolding details
details-IsMarkup key html h = block (escape_html-IsMarkup key) h

value_of :
    (v : Value)
    → IsMarkup ("<span class=\"oc-json-val\">" <> (escape_html (plain_text v) <> "</span>"))
value_of v = value (escape_html-IsMarkup (plain_text v))

mutual
  unfolding render_json render_entry render_items render_fields is_inert

  IsMarkup-json : (v : Value) → IsMarkup (render_json v)
  IsMarkup-json undefined = value_of undefined
  IsMarkup-json null = value_of null
  IsMarkup-json (bool b) = value_of (bool b)
  IsMarkup-json (num n) = value_of (num n)
  IsMarkup-json (str s) = value_of (str s)
  IsMarkup-json (arr xs) = or_braces-IsMarkup _ (IsMarkup-items 0 xs)
  IsMarkup-json (obj fs) = or_braces-IsMarkup _ (IsMarkup-fields fs)

  IsMarkup-entry : (key : String) (v : Value) → IsMarkup (render_entry key v)
  IsMarkup-entry key undefined = pair_line-IsMarkup key undefined
  IsMarkup-entry key null = pair_line-IsMarkup key null
  IsMarkup-entry key (bool b) = pair_line-IsMarkup key (bool b)
  IsMarkup-entry key (num n) = pair_line-IsMarkup key (num n)
  IsMarkup-entry key (str s) = pair_line-IsMarkup key (str s)
  IsMarkup-entry key (arr xs) = details-IsMarkup key _ (or_braces-IsMarkup _ (IsMarkup-items 0 xs))
  IsMarkup-entry key (obj fs) = details-IsMarkup key _ (or_braces-IsMarkup _ (IsMarkup-fields fs))

  IsMarkup-items : (index : ℕ) (xs : Items) → IsMarkup (render_items index xs)
  IsMarkup-items index nil = inert "" refl
  IsMarkup-items index (cons v xs) =
      beside (IsMarkup-entry (show index) v) (IsMarkup-items (suc index) xs)

  IsMarkup-fields : (fs : Fields) → IsMarkup (render_fields fs)
  IsMarkup-fields end = inert "" refl
  IsMarkup-fields (field key v fs) = beside (IsMarkup-entry key v) (IsMarkup-fields fs)

-- No key and no text in the data makes an element of its own or adds an attribute: the rendering is
-- made of the widget's elements and of text without angle brackets and quotes.
pub render_json-IsMarkup : (v : Value) → IsMarkup (render_json v)
render_json-IsMarkup v = IsMarkup-json v
