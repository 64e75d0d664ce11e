-- ===== src/Prelude/Decimal.antt =====
-- Big integers as decimal text: `BigInt.prototype.toString`, and `BigInt(s)` on a text that
-- matches `/^-?\d+$/`.
use Prim.Native.Char.{Char, code}
use agrocylo_pip.Prelude.{
  Bool, Bool-cases, Option, String, ap, arith, if◌then◌else◌, inl, inr, leb, ltb, none, refl, some,
  suc, sym, true, zero, ℕ, ◌%◌, ◌&&◌, ◌*◌, ◌+◌, ◌-◌, ◌/◌, ◌<◌, ◌==◌, ◌∙◌, ◌≡◌, ◌≢◌,
}
use agrocylo_pip.Prelude.Int.{negated, negsuc, pos, ℤ}

digit : ℕ → Char
digit zero = "0"
digit (suc zero) = "1"
digit (suc (suc zero)) = "2"
digit (suc (suc (suc zero))) = "3"
digit (suc (suc (suc (suc zero)))) = "4"
digit (suc (suc (suc (suc (suc zero))))) = "5"
digit (suc (suc (suc (suc (suc (suc zero)))))) = "6"
digit (suc (suc (suc (suc (suc (suc (suc zero))))))) = "7"
digit (suc (suc (suc (suc (suc (suc (suc (suc zero)))))))) = "8"
digit (suc (suc (suc (suc (suc (suc (suc (suc (suc _))))))))) = "9"

-- The digits of `n` in front of a text; `n` rounds of fuel are more than its digits.
emit : ℕ → ℕ → String → String
emit zero n s = s
emit (suc f) n s =
    let longer = emit f (n / 10) (String.◌∷◌ (digit (n % 10)) s) in
    if ltb n 10 then String.◌∷◌ (digit n) s else longer

unfoldable pub print_ℕ : ℕ → String
unfolding emit digit
print_ℕ n = emit (suc n) n String.[]

-- `z.toString()`
unfoldable pub print_ℤ : ℤ → String
unfolding print_ℕ
print_ℤ (pos n) = print_ℕ n
print_ℤ (negsuc n) = String.◌∷◌ "-" (print_ℕ (suc n))

unfoldable pub is_digit : ℕ → Bool
is_digit c = leb b'0' c && leb c b'9'

unfoldable pub scan : String → ℕ → Option ℕ
scan String.[] acc = some acc
scan (String.◌∷◌ c s) acc =
    let rest = scan s (acc * 10 + (code c - b'0')) in if is_digit (code c) then rest else none

-- `\d+` from the start of the text
unfoldable pub parse_ℕ : String → Option ℕ
parse_ℕ String.[] = none
parse_ℕ (String.◌∷◌ c s) = scan (String.◌∷◌ c s) 0

abbrev map_ℤ : (ℕ → ℤ) → Option ℕ → Option ℤ
map_ℤ f none = none
map_ℤ f (some n) = some (f n)

-- `/^-?\d+$/.test(s) ? BigInt(s) : none`
unfoldable pub parse_ℤ : String → Option ℤ
unfolding parse_ℕ scan is_digit
parse_ℤ String.[] = none
parse_ℤ (String.◌∷◌ c s) =
    if code c == b'-' then map_ℤ negated (parse_ℕ s) else map_ℤ pos (parse_ℕ (String.◌∷◌ c s))

code-digit : (n : ℕ) → n < 10 → code (digit n) ≡ n + b'0'
unfolding digit
code-digit zero h = refl
code-digit (suc zero) h = refl
code-digit (suc (suc zero)) h = refl
code-digit (suc (suc (suc zero))) h = refl
code-digit (suc (suc (suc (suc zero)))) h = refl
code-digit (suc (suc (suc (suc (suc zero))))) h = refl
code-digit (suc (suc (suc (suc (suc (suc zero)))))) h = refl
code-digit (suc (suc (suc (suc (suc (suc (suc zero))))))) h = refl
code-digit (suc (suc (suc (suc (suc (suc (suc (suc zero)))))))) h = refl
code-digit (suc (suc (suc (suc (suc (suc (suc (suc (suc zero))))))))) h = refl
code-digit (suc (suc (suc (suc (suc (suc (suc (suc (suc (suc n)))))))))) h = absurd (omega arith)

digit_in_range : (n : ℕ) → n < 10 → is_digit (n + b'0') ≡ true
unfolding is_digit
digit_in_range n h = ground arith

scan-digit :
    (n : ℕ) (s : String) (acc : ℕ)
    → n < 10
    → scan (String.◌∷◌ (digit n) s) acc ≡ scan s (acc * 10 + n)
unfolding scan
scan-digit n s acc h =
    let same : n + b'0' - b'0' ≡ n = omega arith in
    rw (code-digit n h) (rw (digit_in_range n h) (rw same refl))

scan-emit : (f n : ℕ) (s : String) → n < f → scan (emit f n s) 0 ≡ scan s n
unfolding emit
scan-emit zero n s h = absurd (omega arith)
scan-emit (suc f) n s h = elim (Bool-cases (ltb n 10)) [
  | inl small ↦ rw small (scan-digit n s 0 (ground arith) ∙ ap (scan s) (omega arith))
  | inr large ↦ rw large (
      scan-emit f (n / 10) (String.◌∷◌ (digit (n % 10)) s) (ground arith)
      ∙ scan-digit (n % 10) s (n / 10) (omega arith)
      ∙ ap (scan s) (omega arith))
]

-- A text with a first character that is no minus sign.
abbrev StartsPlain : String → Type 0
StartsPlain s = (c : Char) × (t : String) × (s ≡ String.◌∷◌ c t) × (code c ≢ b'-')

digit_plain : (n : ℕ) → n < 10 → code (digit n) ≢ b'-'
digit_plain n h = omega (arith, code-digit n h)

emit-StartsPlain : (f n : ℕ) (s : String) → n < f → StartsPlain (emit f n s)
unfolding emit
emit-StartsPlain zero n s h = absurd (omega arith)
emit-StartsPlain (suc f) n s h = elim (Bool-cases (ltb n 10)) [
  | inl small ↦ rw small (digit n, s, refl, digit_plain n (ground arith))
  | inr large ↦
      rw large (emit-StartsPlain f (n / 10) (String.◌∷◌ (digit (n % 10)) s) (ground arith))
]

parse_ℕ-print_ℕ : (n : ℕ) → parse_ℕ (print_ℕ n) ≡ some n
unfolding parse_ℕ print_ℕ
parse_ℕ-print_ℕ n =
    let (c, t, e, _) = emit-StartsPlain (suc n) n String.[] (omega arith) in
    rw e (
      ap (λ s. scan s 0) (sym e)
      ∙ scan-emit (suc n) n String.[] (omega arith)
      ∙ unfold scan in refl)

parse_plain : (s : String) → StartsPlain s → parse_ℤ s ≡ map_ℤ pos (parse_ℕ s)
unfolding parse_ℤ
parse_plain s (c, t, e, h) = rw e (ground arith)

-- `BigInt(z.toString())` is `z`.
pub parse_ℤ-print_ℤ : (z : ℤ) → parse_ℤ (print_ℤ z) ≡ some z
unfolding print_ℤ
parse_ℤ-print_ℤ (pos n) =
    parse_plain (print_ℕ n) (unfold print_ℕ in emit-StartsPlain (suc n) n String.[] (omega arith))
    ∙ ap (map_ℤ pos) (parse_ℕ-print_ℕ n)
parse_ℤ-print_ℤ (negsuc n) = unfold parse_ℤ in ap (map_ℤ negated) (parse_ℕ-print_ℕ (suc n))
