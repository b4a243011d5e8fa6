-- ===== src/Client/Guid.antt =====
-- app/assets/js/oocsi-web.js: `guid`, the text that ties a response to its call, and the random
-- digits of a client's name.
use oocsi_web.Common.{
  ℕ, suc, ◌+◌, ◌%◌, String, code, none, some, List, [], ◌∷◌, if◌then◌else◌, ◌==◌,
}
use Prim.Native.Nat.{bit_and, bit_or}
use oocsi_web.Common.Text.{◌<>◌, show_in, show, length_text, drop_text, substring}
use oocsi_web.Client.State.{Input}

-- `b.toString(16).padStart(2, '0')`.
unfoldable pub hex_byte : ℕ → String
hex_byte b = let s = show_in 16 b in if length_text s == 1 then "0" <> s else s

-- `Array.from(buf, …).join('')` of the bytes from the k-th on.
unfoldable pub hex_bytes : List ℕ → String
unfolding hex_byte
hex_bytes [] = ""
hex_bytes (b ∷ bs) = hex_byte b <> hex_bytes bs

unfoldable pub version_bits : ℕ → ℕ
version_bits b = bit_or (bit_and b 0x0f) 0x40

unfoldable pub variant_bits : ℕ → ℕ
variant_bits b = bit_or (bit_and b 0x3f) 0x80

-- The sixteen bytes with the version and the variant written in.
unfoldable pub stamped : (ℕ → ℕ) → List ℕ
unfolding version_bits variant_bits
stamped byte =
    byte 0
    ∷ byte 1
    ∷ byte 2
    ∷ byte 3
    ∷ byte 4
    ∷ byte 5
    ∷ version_bits (byte 6)
    ∷ byte 7
    ∷ variant_bits (byte 8)
    ∷ byte 9
    ∷ byte 10
    ∷ byte 11
    ∷ byte 12
    ∷ byte 13
    ∷ byte 14
    ∷ byte 15
    ∷ []

-- The five groups of the hexadecimal text.
unfoldable pub group_hex : String → String
group_hex hex =
    substring 0 8 hex
    <> "-"
    <> substring 8 12 hex
    <> "-"
    <> substring 12 16 hex
    <> "-"
    <> substring 16 20 hex
    <> "-"
    <> drop_text 20 hex

-- `s4`: four hexadecimal digits, by a fifth in front that is cut off.
unfoldable pub s4 : ℕ → String
s4 r = drop_text 1 (show_in 16 (65536 + r))

-- `guid`.
unfoldable pub guid : Input → String
unfolding stamped group_hex hex_bytes s4
guid i = elim i.random_uuid [
  | some uuid ↦ uuid
  | none ↦
      if i.random_values
      then group_hex (hex_bytes (stamped i.byte))
      else (let draw : ℕ → String = λ k. s4 (i.roll k 65536) in
          draw 0
          <> draw 1
          <> "-"
          <> draw 2
          <> "-"
          <> draw 3
          <> "-"
          <> draw 4
          <> "-"
          <> draw 5
          <> draw 6
          <> draw 7)
]

-- One random digit of a name, at the k-th draw.
unfoldable pub name_digit : Input → ℕ → String
name_digit i k = if i.random_values then show (i.byte k % 10) else show (i.roll k 10)

-- `username.replace(/#/g, …)`, from the k-th draw on.
unfoldable pub fill_digits : Input → ℕ → String → String
unfolding name_digit
fill_digits i k String.[] = ""
fill_digits i k (String.◌∷◌ c s) =
    let filled = name_digit i k <> fill_digits i (suc k) s in
    let kept = String.◌∷◌ c (fill_digits i k s) in if code c == b'#' then filled else kept
