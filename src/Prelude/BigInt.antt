-- ===== src/Prelude/BigInt.antt =====
-- `BigInt(s)` on a text: an optional sign with decimal digits, or digits to the base 16, 8 or 2 behind
-- `0x`, `0o` or `0b`; the empty text is 0. On any other text it throws.
use Prim.Native.Char.{code}
use agrocylo_pip.Prelude.{
  Option, String, if◌then◌else◌, leb, ltb, none, refl, some, ℕ, ◌&&◌, ◌*◌, ◌+◌, ◌-◌, ◌==◌, ◌||◌,
  ◌≡◌,
}
use agrocylo_pip.Prelude.Int.{negated, negsuc, pos, ℤ}
use agrocylo_pip.Prelude.Text.{is_blank, trim}

-- The value of a digit; 36 for what is none
abbrev pub digit_value : ℕ → ℕ
digit_value c =
    if leb b'0' c && leb c b'9'
    then c - b'0'
    else if leb b'a' c && leb c b'z'
    then c - b'a' + 10
    else if leb b'A' c && leb c b'Z'
    then c - b'A' + 10
    else 36

unfoldable pub digits_from : (base acc : ℕ) → String → Option ℕ
digits_from base acc String.[] = some acc
digits_from base acc (String.◌∷◌ c s) =
    let d = digit_value (code c) in
    let rest = digits_from base (acc * base + d) s in if ltb d base then rest else none

-- One digit or more
unfoldable pub digits : (base : ℕ) → String → Option ℕ
unfolding digits_from
digits base s = if is_blank s then none else digits_from base 0 s

abbrev pub map_option : (ℕ → ℤ) → Option ℕ → Option ℤ
map_option f none = none
map_option f (some n) = some (f n)

-- What follows a leading 0
abbrev pub after_zero : String → Option ℕ
after_zero String.[] = some 0
after_zero (String.◌∷◌ c s) =
    if code c == b'x' || code c == b'X'
    then digits 16 s
    else if code c == b'o' || code c == b'O'
    then digits 8 s
    else if code c == b'b' || code c == b'B'
    then digits 2 s
    else digits 10 (String.◌∷◌ c s)

abbrev pub after_trim : String → Option ℤ
after_trim String.[] = some (pos 0)
after_trim (String.◌∷◌ c s) =
    if code c == b'-'
    then map_option negated (digits 10 s)
    else if code c == b'+'
    then map_option pos (digits 10 s)
    else if code c == b'0'
    then map_option pos (after_zero s)
    else map_option pos (digits 10 (String.◌∷◌ c s))

unfoldable pub big_int : String → Option ℤ
unfolding digits trim
big_int s = after_trim (trim s)

big_int_samples :
    (big_int " 42 " ≡ some (pos 42))
    × (big_int "" ≡ some (pos 0))
    × (big_int "-7" ≡ some (negsuc 6))
    × (big_int "0x1F" ≡ some (pos 31))
    × (big_int "007" ≡ some (pos 7))
    × (big_int "4 2" ≡ none)
    × (big_int "12.5" ≡ none)
    × (big_int "-" ≡ none)
unfolding big_int
big_int_samples = (refl, refl, refl, refl, refl, refl, refl, refl)
