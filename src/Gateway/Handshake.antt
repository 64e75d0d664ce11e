-- ===== src/Gateway/Handshake.antt =====
-- `extractTokenFromHandshake` of websocket/ws-auth.ts.
use Prim.Native.Char.{code}
use agrocylo_pip.Prelude.{
  Bool, Option, String, if◌then◌else◌, leb, none, refl, some, ℕ, ◌&&◌, ◌+◌, ◌==◌, ◌||◌, ◌≡◌,
}
use agrocylo_pip.Prelude.Text.{is_blank}
use agrocylo_pip.Js.{Properties, Value, member, string}

-- `HandshakeLike`
pub record Handshake : Type 0 where
  pub auth : Option Properties
  pub headers : Option Properties
  pub query : Option Properties

-- `\s`
abbrev is_space : ℕ → Bool
is_space c =
    leb 9 c && leb c 13
    || c == 32
    || c == 160
    || c == 0x1680
    || leb 0x2000 c && leb c 0x200a
    || c == 0x2028
    || c == 0x2029
    || c == 0x202f
    || c == 0x205f
    || c == 0x3000
    || c == 0xfeff

abbrev to_lower : ℕ → ℕ
to_lower c = if leb b'A' c && leb c b'Z' then c + 32 else c

-- What follows a word in any case, where the text begins with it
after_word : (word s : String) → Option String
after_word String.[] s = some s
after_word (String.◌∷◌ p ps) String.[] = none
after_word (String.◌∷◌ p ps) (String.◌∷◌ c s) =
    let rest = after_word ps s in if to_lower (code c) == code p then rest else none

drop_spaces : String → String
drop_spaces String.[] = String.[]
drop_spaces (String.◌∷◌ c s) =
    let rest = drop_spaces s in if is_space (code c) then rest else String.◌∷◌ c s

-- What is left of `s` where `\s+` is to follow
abbrev after_spaces : (s rest : String) → String
after_spaces s String.[] = s
after_spaces s (String.◌∷◌ c rest) = if is_space (code c) then drop_spaces rest else s

-- `value.replace(/^Bearer\s+/i, '')`
unfoldable pub strip : String → String
unfolding after_word drop_spaces
strip s = elim (after_word "bearer" s) [ none ↦ s | some rest ↦ after_spaces s rest ]

-- `typeof v === 'string' && v.length > 0`
abbrev non_empty : Value → Option String
non_empty (string s) = if is_blank s then none else some s
non_empty v = none

-- `source?.k`, where it is a text that is not empty
abbrev text_at : Option Properties → String → Option String
text_at none k = none
text_at (some ps) k = non_empty (member k ps)

abbrev or_else_strip : Option String → Option String → Option String
or_else_strip none later = later
or_else_strip (some s) later = some (strip s)

unfoldable pub extract_token_from_handshake : Handshake → Option String
unfolding strip
extract_token_from_handshake h = or_else_strip (text_at h.auth "token") (
    or_else_strip (text_at h.headers "authorization")
      (or_else_strip (text_at h.query "token") none))

bearer_samples :
    (strip "Bearer  abc" ≡ "abc")
    × (strip "bEARER x y" ≡ "x y")
    × (strip "Bearer" ≡ "Bearer")
    × (strip "Bearerabc" ≡ "Bearerabc")
unfolding strip
bearer_samples = (refl, refl, refl, refl)
