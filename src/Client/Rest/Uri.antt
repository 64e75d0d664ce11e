-- ===== src/Client/Rest/Uri.antt =====
-- `encodeURIComponent`
use Prim.Native.Char.{code}
use agrocylo_pip.Prelude.{
  Bool, List, String, [], if◌then◌else◌, leb, ltb, suc, zero, ℕ, ◌%◌, ◌&&◌, ◌+◌, ◌/◌, ◌||◌, ◌∷◌,
}
use agrocylo_pip.Prelude.Text.{concat, has_code}

-- What it leaves as it is: letters, digits, and - _ . ! ~ * ' ( )
abbrev pub is_unreserved : ℕ → Bool
is_unreserved c =
    (leb b'A' c && leb c b'Z')
    || (leb b'a' c && leb c b'z')
    || (leb b'0' c && leb c b'9')
    || has_code (45 ∷ 95 ∷ 46 ∷ 33 ∷ 126 ∷ 42 ∷ 39 ∷ 40 ∷ 41 ∷ []) c

-- The bytes of a character in UTF-8
abbrev pub utf8 : ℕ → List ℕ
utf8 c =
    if ltb c 128
    then c ∷ []
    else if ltb c 2048
    then (192 + c / 64) ∷ (128 + c % 64) ∷ []
    else if ltb c 65536
    then (224 + c / 4096) ∷ (128 + c / 64 % 64) ∷ (128 + c % 64) ∷ []
    else (240 + c / 262144) ∷ (128 + c / 4096 % 64) ∷ (128 + c / 64 % 64) ∷ (128 + c % 64) ∷ []

-- The character at an index, as a text
abbrev pub char_at : ℕ → String → String
char_at n String.[] = String.[]
char_at zero (String.◌∷◌ c s) = String.◌∷◌ c String.[]
char_at (suc n) (String.◌∷◌ c s) = char_at n s

abbrev pub hex_digit : ℕ → String
hex_digit n = char_at n "0123456789ABCDEF"

abbrev pub percent : List ℕ → String
percent [] = ""
percent (b ∷ bs) =
    concat "%" (concat (hex_digit (b / 16)) (concat (hex_digit (b % 16)) (percent bs)))

unfoldable pub encode_uri_component : String → String
encode_uri_component String.[] = ""
encode_uri_component (String.◌∷◌ c s) =
    let rest = encode_uri_component s in
    if is_unreserved (code c) then String.◌∷◌ c rest else concat (percent (utf8 (code c))) rest
