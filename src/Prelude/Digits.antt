-- ===== src/Prelude/Digits.antt =====
-- A text of digits is read alike by `BigInt` and by the check that it has digits only.
use agrocylo_pip.Prelude.Int.{pos}
use Prim.Native.Char.{Char, code}
use agrocylo_pip.Prelude.{
  Bool-cases, String, ap, arith, false, inl, inr, refl, some, true, ℕ, ◌*◌, ◌+◌, ◌-◌, ◌==◌, ◌||◌,
  ◌≡◌,
}
use agrocylo_pip.Prelude.Text.{is_space, trim, trim_end}
use agrocylo_pip.Prelude.Decimal.{is_digit, parse_ℕ, scan}
use agrocylo_pip.Prelude.BigInt.{after_trim, after_zero, big_int, digits, digits_from}

digits_from-scan : (s : String) (acc n : ℕ) → scan s acc ≡ some n → digits_from 10 acc s ≡ some n
unfolding scan digits_from is_digit
digits_from-scan String.[] acc n h = h
digits_from-scan (String.◌∷◌ c s) acc n h =
    ground (arith, digits_from-scan s (acc * 10 + (code c - b'0')) n)

digit_no_space : (c : ℕ) → is_digit c ≡ true → is_space c ≡ false
unfolding is_digit
digit_no_space c h = ground arith

scan-cons :
    (c : Char) (s : String) (acc n : ℕ)
    → scan (String.◌∷◌ c s) acc ≡ some n
    → (is_digit (code c) ≡ true) × (scan s (acc * 10 + (code c - b'0')) ≡ some n)
unfolding scan
scan-cons c s acc n h = ground arith

digit_no_letter :
    (c : ℕ)
    → is_digit c ≡ true
    → ((c == b'x' || c == b'X') ≡ false)
      × ((c == b'o' || c == b'O') ≡ false)
      × ((c == b'b' || c == b'B') ≡ false)
unfolding is_digit
digit_no_letter c h = (ground arith, ground arith, ground arith)

trim_end-scan : (s : String) (acc n : ℕ) → scan s acc ≡ some n → trim_end s ≡ s
unfolding scan trim_end
trim_end-scan String.[] acc n h = refl
trim_end-scan (String.◌∷◌ c s) acc n h =
    let (first, later) = scan-cons c s acc n h in
    rw (digit_no_space (code c) first)
      (ap (String.◌∷◌ c) (trim_end-scan s (acc * 10 + (code c - b'0')) n later))

trim-parse_ℕ : (s : String) (n : ℕ) → parse_ℕ s ≡ some n → trim s ≡ s
unfolding parse_ℕ trim
trim-parse_ℕ String.[] n h = refl
trim-parse_ℕ (String.◌∷◌ c s) n h =
    let (first, later) = scan-cons c s 0 n h in
    rw (digit_no_space (code c) first) (trim_end-scan (String.◌∷◌ c s) 0 n h)

after_zero-scan : (s : String) (n : ℕ) → scan s 0 ≡ some n → after_zero s ≡ some n
unfolding digits
after_zero-scan String.[] n h = unfold scan in h
after_zero-scan (String.◌∷◌ c s) n h =
    let (first, later) = scan-cons c s 0 n h in
    ground (arith, digit_no_letter (code c) first, digits_from-scan (String.◌∷◌ c s) 0 n h)

after_trim-parse_ℕ : (s : String) (n : ℕ) → parse_ℕ s ≡ some n → after_trim s ≡ some (pos n)
unfolding parse_ℕ is_digit digits
after_trim-parse_ℕ String.[] n h = cc h
after_trim-parse_ℕ (String.◌∷◌ c s) n h =
    let (first, later) = scan-cons c s 0 n h in
    elim (Bool-cases (code c == b'0')) [
      | inr plain ↦ ground (arith, digits_from-scan (String.◌∷◌ c s) 0 n h)
      | inl lead ↦
          let none_yet : 0 * 10 + (code c - b'0') ≡ 0 = ground arith in
          let tail : scan s 0 ≡ some n = rw none_yet at later in
          ground (arith, after_zero-scan s n tail)
    ]

-- The same number, in both ways
pub big_int-parse_ℕ : (s : String) (n : ℕ) → parse_ℕ s ≡ some n → big_int s ≡ some (pos n)
unfolding big_int
big_int-parse_ℕ s n h = rw (trim-parse_ℕ s n h) (after_trim-parse_ℕ s n h)
