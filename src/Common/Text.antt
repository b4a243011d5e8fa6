-- ===== src/Common/Text.antt =====
-- Text: concatenation, the decimal text of a number, pieces of a text.
pub mod Pieces
use Prim.Native.Nat.{ℕ, zero, suc, ◌/◌, ◌%◌}
use Prim.Native.String.{String, [], ◌∷◌}
use Prim.Native.String
use Prim.Native.Char.{Char, code}
use mathlib.Core.Option.{Option, none, some}
use oocsi_web.Common.Tests.{if◌then◌else◌, ◌==◌}

infixr 65 ◌<>◌
abbrev pub ◌<>◌ : String → String → String
a <> b = String.◌++◌ a b

-- `n.toString(16)` of a digit; the digits 0 to 9 are those of `toString()` too.
unfoldable pub digit_char : ℕ → Char
digit_char n =
    if n == 0
    then "0"
    else if n == 1
    then "1"
    else if n == 2
    then "2"
    else if n == 3
    then "3"
    else if n == 4
    then "4"
    else if n == 5
    then "5"
    else if n == 6
    then "6"
    else if n == 7
    then "7"
    else if n == 8
    then "8"
    else if n == 9
    then "9"
    else if n == 10
    then "a"
    else if n == 11
    then "b"
    else if n == 12
    then "c"
    else if n == 13
    then "d"
    else if n == 14
    then "e"
    else "f"

show_from : (base fuel n : ℕ) → String → String
unfolding digit_char
show_from base zero n tail = tail
show_from base (suc fuel) n tail =
    let longer = show_from base fuel (n / base) (digit_char (n % base) ∷ tail) in
    if n / base == 0 then digit_char (n % base) ∷ tail else longer

-- `n.toString(base)` for a base from 2 to 16. There are at most n + 1 digits.
unfoldable pub show_in : (base n : ℕ) → String
unfolding show_from
show_in base n = show_from base (suc n) n ""

-- `String(n)` of a natural number.
unfoldable pub show : ℕ → String
unfolding show_in
show n = show_in 10 n

-- The number of characters, and `s.substring(n)` and `s.substring(0, n)`.
unfoldable pub length_text : String → ℕ
length_text [] = 0
length_text (c ∷ s) = suc (length_text s)

unfoldable pub drop_text : ℕ → String → String
drop_text zero s = s
drop_text (suc n) [] = ""
drop_text (suc n) (c ∷ s) = drop_text n s

unfoldable pub take_text : ℕ → String → String
take_text zero s = ""
take_text (suc n) [] = ""
take_text (suc n) (c ∷ s) = c ∷ take_text n s

-- `s.substring(a, b)` for a ≤ b.
unfoldable pub substring : (a b : ℕ) → String → String
unfolding drop_text take_text
substring a b s = drop_text a (take_text b s)

-- What follows a prefix, if the text has it.
unfoldable pub after_prefix : (prefix text : String) → Option String
after_prefix [] s = some s
after_prefix (a ∷ p) [] = none
after_prefix (a ∷ p) (c ∷ s) =
    let rest = after_prefix p s in if code a == code c then rest else none
