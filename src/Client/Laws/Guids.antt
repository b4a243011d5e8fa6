-- ===== src/Client/Laws/Guids.antt =====
-- app/assets/js/oocsi-web.js: the shape of a `guid`.
use oocsi_web.Common.{
  ℕ, zero, suc, ◌+◌, ◌/◌, ◌%◌, ◌<◌, String, Bool, true, none, ◌≡◌, ◌∙◌, ap, refl, arith, ◌&&◌,
  str_eq, eq_iff,
}
use oocsi_web.Common.Text.{◌<>◌, show_in, digit_char, length_text, substring, drop_text, take_text}
use oocsi_web.Client.Guid.{
  hex_byte, version_bits, variant_bits, stamped, group_hex, guid, hex_bytes,
}
use oocsi_web.Client.State.{Input}
use text.Mathlib.TextLemmas.{nil-append, cons-append}

-- A test passed by every byte under a bound, and what the run of it says of each of them.
each_under : (ℕ → Bool) → ℕ → Bool
each_under test zero = true
each_under test (suc bound) = each_under test bound && test bound

each_under-at :
    (test : ℕ → Bool) (bound b : ℕ) → b < bound → each_under test bound ≡ true → test b ≡ true
unfolding each_under
each_under-at test zero b small passed = absurd (omega arith)
each_under-at test (suc bound) b small passed = ground (arith, each_under-at test bound b)

-- The two digits of a byte.
abbrev digits_of : ℕ → String
digits_of b = String.◌∷◌ (digit_char (b / 16)) (String.◌∷◌ (digit_char (b % 16)) "")

hex_byte_table : each_under (λ b. str_eq (hex_byte b) (digits_of b)) 256 ≡ true
unfolding each_under hex_byte show_in digit_char length_text
hex_byte_table = refl

hex_byte_lem : (b : ℕ) → b < 256 → hex_byte b ≡ digits_of b
hex_byte_lem b h = (eq_iff _ _).0 (each_under-at _ 256 b h hex_byte_table)

version_table :
    each_under
      (λ b.
        str_eq (hex_byte (version_bits b)) (String.◌∷◌ "4" (String.◌∷◌ (digit_char (b % 16)) "")))
      256
    ≡ true
unfolding each_under hex_byte show_in digit_char length_text version_bits
version_table = refl

variant_table :
    each_under
      (λ b.
        str_eq
          (hex_byte (variant_bits b))
          (String.◌∷◌ (digit_char (8 + b / 16 % 4)) (String.◌∷◌ (digit_char (b % 16)) "")))
      256
    ≡ true
unfolding each_under hex_byte show_in digit_char length_text variant_bits
variant_table = refl

version_lem :
    (b : ℕ)
    → b < 256
    → hex_byte (version_bits b) ≡ String.◌∷◌ "4" (String.◌∷◌ (digit_char (b % 16)) "")
version_lem b h = (eq_iff _ _).0 (each_under-at _ 256 b h version_table)

variant_lem :
    (b : ℕ)
    → b < 256
    → hex_byte (variant_bits b)
      ≡ String.◌∷◌ (digit_char (8 + b / 16 % 4)) (String.◌∷◌ (digit_char (b % 16)) "")
variant_lem b h = (eq_iff _ _).0 (each_under-at _ 256 b h variant_table)

-- The text of a random (version 4) UUID with these sixteen bytes: the two digits of every byte in five
-- groups, with the version digit 4 and the two variant bits 10 in their places.
unfoldable pub uuid_text : (ℕ → ℕ) → String
uuid_text b =
    digits_of (b 0)
    <> digits_of (b 1)
    <> digits_of (b 2)
    <> digits_of (b 3)
    <> "-"
    <> digits_of (b 4)
    <> digits_of (b 5)
    <> "-"
    <> "4"
    <> String.◌∷◌ (digit_char (b 6 % 16)) ""
    <> digits_of (b 7)
    <> "-"
    <> String.◌∷◌ (digit_char (8 + b 8 / 16 % 4)) ""
    <> String.◌∷◌ (digit_char (b 8 % 16)) ""
    <> digits_of (b 9)
    <> "-"
    <> digits_of (b 10)
    <> digits_of (b 11)
    <> digits_of (b 12)
    <> digits_of (b 13)
    <> digits_of (b 14)
    <> digits_of (b 15)

dash-append : (s : String) → "-" <> s ≡ String.◌∷◌ "-" s
dash-append s = cons-append "-" "" s ∙ ap (String.◌∷◌ "-") (nil-append s)

four-append : (s : String) → "4" <> s ≡ String.◌∷◌ "4" s
four-append s = cons-append "4" "" s ∙ ap (String.◌∷◌ "4") (nil-append s)

-- Where the browser draws random bytes but makes no UUIDs, the id of a call is the text of the
-- version 4 UUID of the sixteen bytes drawn.
pub guid-uuid_text :
    (i : Input)
    → i.random_uuid ≡ none
    → i.random_values ≡ true
    → ((k : ℕ) → i.byte k < 256)
    → guid i ≡ uuid_text i.byte
unfolding guid uuid_text stamped hex_bytes group_hex substring drop_text take_text
guid-uuid_text i no_uuid values bytes =
    rw (no_uuid, values)
      (simp
        (
          hex_byte_lem (i.byte 0) (bytes 0),
          hex_byte_lem (i.byte 1) (bytes 1),
          hex_byte_lem (i.byte 2) (bytes 2),
          hex_byte_lem (i.byte 3) (bytes 3),
          hex_byte_lem (i.byte 4) (bytes 4),
          hex_byte_lem (i.byte 5) (bytes 5),
          version_lem (i.byte 6) (bytes 6),
          hex_byte_lem (i.byte 7) (bytes 7),
          variant_lem (i.byte 8) (bytes 8),
          hex_byte_lem (i.byte 9) (bytes 9),
          hex_byte_lem (i.byte 10) (bytes 10),
          hex_byte_lem (i.byte 11) (bytes 11),
          hex_byte_lem (i.byte 12) (bytes 12),
          hex_byte_lem (i.byte 13) (bytes 13),
          hex_byte_lem (i.byte 14) (bytes 14),
          hex_byte_lem (i.byte 15) (bytes 15),
          dash-append,
          four-append,
          nil-append,
          cons-append,
        )
        refl)
