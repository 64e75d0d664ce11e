-- ===== src/Js.antt =====
-- The JavaScript values that reach the indexer: what `scValToNative` returns, whose TypeScript type
-- is `unknown`. A `number` is an integral double, or any other double known by the text that
-- `String(v)` gives for it. Integral doubles print in plain decimal, as JavaScript's do below
-- 10^21; the decoder makes numbers of 32-bit integers only.
use agrocylo_pip.Prelude.{
  ℕ, zero, suc, ◌+◌, ◌-◌, ◌*◌, ◌/◌, ◌%◌, ◌^◌, ◌<◌, ◌≡◌, refl, Bool, ◌&&◌, ◌||◌, List, [], ◌∷◌,
  String, arith, ltb, ◌==◌, str_eq, if◌then◌else◌, lt→ltb,
}
use agrocylo_pip.Prelude.Int.{ℤ, pos, negsuc}
use agrocylo_pip.Prelude.Decimal.{print_ℤ}

pub data Number : Type 0 where
  int : ℤ → Number
  other : String → Number

mutual
  pub data Value : Type 0 where
    undefined null : Value
    boolean : Bool → Value
    number : Number → Value
    bigint : ℤ → Value
    string : String → Value
    array : Values → Value
    object : Properties → Value

  pub data Values : Type 0 where
    nil : Values
    cons : Value → Values → Values

  pub data Properties : Type 0 where
    end : Properties
    property : String → Value → Properties → Properties

abbrev pub elements : Values → List Value
elements nil = []
elements (cons v vs) = v ∷ elements vs

-- `a[i]`
abbrev pub at : List Value → ℕ → Value
at [] i = undefined
at (v ∷ vs) zero = v
at (v ∷ vs) (suc i) = at vs i

-- `v ?? d`
abbrev pub or_else : Value → Value → Value
or_else undefined d = d
or_else null d = d
or_else v d = v

-- `o.k`
abbrev pub member : String → Properties → Value
member k end = undefined
member k (property j v ps) = if str_eq j k then v else member k ps

abbrev pub type_of : Value → String
type_of undefined = "undefined"
type_of (boolean _) = "boolean"
type_of (number _) = "number"
type_of (bigint _) = "bigint"
type_of (string _) = "string"
type_of _ = "object"

-- How often a magnitude is halved until it fits the 53 bits of a double.
excess_bits : ℕ → ℕ → ℕ
excess_bits zero m = 0
excess_bits (suc f) m = let more = suc (excess_bits f (m / 2)) in if ltb m (2 ^ 53) then 0 else more

-- Round half to even, in units of `u`.
abbrev round_to : ℕ → ℕ → ℕ
round_to u m =
    let q = m / u in
    let r = 2 * (m % u) in if ltb r u || r == u && q % 2 == 0 then q * u else (q + 1) * u

-- The magnitude of the double nearest to an integer of magnitude `m`.
unfoldable pub round_double : ℕ → ℕ
unfolding excess_bits
round_double m = round_to (2 ^ excess_bits 1024 m) m

-- `Number(z)` on a bigint; from 2^1024 on the nearest double is infinite.
unfoldable pub to_number : ℤ → Number
unfolding round_double
to_number (pos m) =
    let m' = round_double m in if ltb m' (2 ^ 1024) then int (pos m') else other "Infinity"
to_number (negsuc m) =
    let m' = round_double (suc m) in
    if ltb m' (2 ^ 1024) then int (negsuc (m' - 1)) else other "-Infinity"

-- `String(v)` on a number
abbrev pub number_text : Number → String
number_text (int z) = print_ℤ z
number_text (other s) = s

round_samples :
    (round_double 12345 ≡ 12345)
    × (round_double (2 ^ 53 + 1) ≡ 2 ^ 53)
    × (round_double (2 ^ 53 + 3) ≡ 2 ^ 53 + 4)
    × (round_double (2 ^ 64 - 1) ≡ 2 ^ 64)
unfolding round_double
round_samples = (refl, refl, refl, refl)

excess_bits-eq-zero : (f m : ℕ) → m < 2 ^ 53 → excess_bits f m ≡ 0
unfolding excess_bits
excess_bits-eq-zero zero m h = refl
excess_bits-eq-zero (suc f) m h = rw (lt→ltb m (2 ^ 53) h)

round_to_one : (m : ℕ) → round_to 1 m ≡ m
round_to_one m = ground arith

-- Up to 53 bits a bigint becomes the number of the same value.
pub to_number_exact : (m : ℕ) → m < 2 ^ 53 → to_number (pos m) ≡ int (pos m)
unfolding to_number round_double
to_number_exact m h =
    rw (excess_bits-eq-zero 1024 m h) (rw (round_to_one m) (rw (lt→ltb m (2 ^ 1024) (omega arith))))
