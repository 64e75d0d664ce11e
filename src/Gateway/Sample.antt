-- ===== src/Gateway/Sample.antt =====
-- A server of rooms in memory that meets the laws of `Io`, and a small platform that meets those of
-- `Platform`, for the examples.
use Prim.Native.Char.{code}
use agrocylo_pip.Prelude.{
  Bool, Bool-cases, List, String, [], ap, arith, eq_iff, false, if◌then◌else◌, inl, inr, not, refl,
  some, str_eq, true, ℕ, ◌&&◌, ◌==◌, ◌||◌, ◌∷◌, ◌≡◌,
}
use mathlib.Core.Path.{ap₂}
use agrocylo_pip.Js.{Value, end, int, number, object, property, string}
use agrocylo_pip.Prelude.Int.{pos}
use agrocylo_pip.Gateway.Token.{Platform}
use agrocylo_pip.Gateway.Io.{Io, occurrences}

-- Who is in which room, as pairs
abbrev pub Pairs : Type 0
Pairs = List (String × String)

abbrev is_in : Pairs → (socket room : String) → Bool
is_in [] j r = false
is_in ((k, q) ∷ s) j r = is_in s j r || str_eq k j && str_eq q r

-- The pairs that a test does not drop
abbrev keep : (String → String → Bool) → Pairs → Pairs
keep drops [] = []
keep drops ((k, q) ∷ s) = let rest = keep drops s in if drops k q then rest else (k, q) ∷ rest

abbrev recipients : Pairs → String → List String
recipients [] r = []
recipients ((k, q) ∷ s) r =
    let rest = recipients s r in if str_eq q r && not (is_in s k r) then k ∷ rest else rest

same_drop :
    (drops : String → String → Bool) (i p j r : String)
    → (str_eq i j && str_eq p r) ≡ true
    → drops i p ≡ drops j r
same_drop drops i p j r h =
    ap₂ drops ((eq_iff i j).0 (ground arith)) ((eq_iff p r).0 (ground arith))

pub is_in-keep :
    (drops : String → String → Bool) (s : Pairs) (j r : String)
    → is_in (keep drops s) j r ≡ (is_in s j r && not (drops j r))
is_in-keep drops [] j r = refl
is_in-keep drops ((i, p) ∷ s) j r = elim (Bool-cases (drops i p)) [
  | inl dropped ↦ rw dropped (ground (arith, is_in-keep drops s j r, same_drop drops i p j r))
  | inr kept ↦ rw kept (ground (arith, is_in-keep drops s j r, same_drop drops i p j r))
]

pub recipients_once :
    (s : Pairs) (r j : String) → occurrences j (recipients s r) ≡ (if is_in s j r then 1 else 0)
recipients_once [] r j = refl
recipients_once ((k, q) ∷ s) r j = elim (Bool-cases (str_eq k j)) [
  | inl same ↦ ground (arith, recipients_once s r j, ap (λ i. is_in s i r) ((eq_iff k j).0 same))
  | inr other_ ↦ ground (arith, recipients_once s r j)
]

abbrev pub in_rooms : Io
in_rooms = record {
  State = Pairs;
  is_in = is_in;
  connect = λ k s. (k, k) ∷ s;
  join = λ k q s. (k, q) ∷ s;
  leave = λ k q s. keep (λ i p. str_eq k i && str_eq q p) s;
  disconnect = λ k s. keep (λ i _. str_eq k i) s;
  recipients = recipients;
  is_in-connect = λ k s j r. refl;
  is_in-join = λ k q s j r. refl;
  is_in-leave = λ k q s j r. is_in-keep (λ i p. str_eq k i && str_eq q p) s j r;
  is_in-disconnect = λ k s j r. is_in-keep (λ i _. str_eq k i) s j r;
  recipients_once = recipients_once;
}

abbrev codes : String → List ℕ
codes String.[] = []
codes (String.◌∷◌ c s) = code c ∷ codes s

abbrev same_codes : List ℕ → List ℕ → Bool
same_codes [] [] = true
same_codes (a ∷ as_) (b ∷ bs) = a == b && same_codes as_ bs
same_codes _ _ = false

pub same_codes_sound : (a b : List ℕ) → same_codes a b ≡ true → a ≡ b
same_codes_sound [] [] h = refl
same_codes_sound (a ∷ as_) (b ∷ bs) h = ground (arith, same_codes_sound as_ bs)
same_codes_sound [] (b ∷ bs) h = cc
same_codes_sound (a ∷ as_) [] h = cc

pub same_codes_refl : (a : List ℕ) → same_codes a a ≡ true
same_codes_refl [] = refl
same_codes_refl (a ∷ as_) = ground (arith, same_codes_refl as_)

-- Two JSON texts, told apart by their first byte
abbrev first_byte : List ℕ → String
first_byte [] = ""
first_byte (b ∷ _) = if b == b'h' then "header" else "payload"

abbrev json_of : String → Value
json_of s =
    if str_eq s "header"
    then object (property "alg" (string "HS256") end)
    else object (
        property "sub" (string "GALICE") (
          property "exp" (number (int (pos 2000)))
            (property "scope" (string "profile notifications:read") end)))

-- Base64 as it stands, and a signature of one byte
abbrev pub toy_platform : Platform
toy_platform = record {
  from_base64 = codes;
  utf8 = first_byte;
  parse_json = λ s. some (json_of s);
  hmac_sha256 = λ secret text. b's' ∷ [];
  timing_safe_equal = same_codes;
  is_reached = λ seconds now. true;
  timing_safe_equal_iff = λ a b _. (same_codes_sound a b, λ e. rw e (same_codes_refl b));
}
