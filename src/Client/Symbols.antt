-- ===== src/Client/Symbols.antt =====
-- lib/soroban/symbol.ts, and the amounts that are typed into the forms.
use Prim.Native.Char.{code}
use agrocylo_pip.Prelude.{Bool, Option, String, leb, ltb, suc, true, ℕ, ◌&&◌, ◌==◌, ◌||◌}
use agrocylo_pip.Prelude.Text.{trim}
use agrocylo_pip.Prelude.Decimal.{parse_ℕ}

abbrev pub is_symbol_char : ℕ → Bool
is_symbol_char c =
    (leb b'A' c && leb c b'Z')
    || (leb b'a' c && leb c b'z')
    || (leb b'0' c && leb c b'9')
    || c == b'_'

abbrev pub all_symbol_chars : String → Bool
all_symbol_chars String.[] = true
all_symbol_chars (String.◌∷◌ c s) = is_symbol_char (code c) && all_symbol_chars s

abbrev pub text_length : String → ℕ
text_length String.[] = 0
text_length (String.◌∷◌ c s) = suc (text_length s)

-- `/^[A-Za-z0-9_]{1,32}$/`
unfoldable pub is_valid_contract_symbol : String → Bool
is_valid_contract_symbol s = all_symbol_chars s && ltb 0 (text_length s) && leb (text_length s) 32

abbrev pub contract_symbol_hint : String
contract_symbol_hint = "Letters, numbers, and underscores only, max 32 characters."

-- `parseWholeAmount` of components/admin/CampaignAdminPanel.tsx: digits, with white space around
unfoldable pub parse_whole_amount : String → Option ℕ
unfolding trim parse_ℕ
parse_whole_amount value = parse_ℕ (trim value)
