-- ===== src/Indexer/Decode.antt =====
-- The decoding helpers at the top of indexer/parsers/event-parser.service.ts. A thrown `Error` is a
-- `ParseError`, which keeps what its message is made of.
use agrocylo_pip.Prelude.{
  ℕ, ◌≡◌, refl, Bool, true, false, Option, none, some, List, [], ◌∷◌, String,
}
use agrocylo_pip.Prelude.Int.{ℤ}
use agrocylo_pip.Prelude.Text.{has}
use agrocylo_pip.Prelude.Decimal.{parse_ℤ, print_ℤ}
use agrocylo_pip.Js.{
  Number, int, Value, number, bigint, string, array, object, elements, at, member, type_of,
  to_number, number_text,
}

pub data ParseError : Type 0 where
  expected_string expected_integer expected_number : (field got : String) → ParseError
  expected_tag : (field : String) → Value → ParseError
  payload_length : (event : String) → ℕ → ParseError

-- A decoder's outcome: a value, or what it threw.
pub data Result {ℓ} (A : Type ℓ) : Type ℓ where
  ok : A → Result A
  thrown : ParseError → Result A

module _ {ℓ κ} {A : Type ℓ} {B : Type κ} where
  infixl 5 ◌>>=◌
  abbrev pub ◌>>=◌ : Result A → (A → Result B) → Result B
  ok value >>= rest = rest value
  thrown x >>= rest = thrown x

  -- A `do` block that gives a value has got one from each of its steps.
  pub bind-eq-ok :
      (step : Result A) (rest : A → Result B) {b : B}
      → (step >>= rest) ≡ ok b
      → (value : A) × (step ≡ ok value) × (rest value ≡ ok b)
  bind-eq-ok (thrown x) rest h = cc
  bind-eq-ok (ok value) rest h = (value, refl, h)

infixl 5 ◌>>◌
abbrev pub ◌>>◌ {ℓ} : {B : Type ℓ} → Result (Unit {0}) → Result B → Result B
step >> rest = step >>= λ _. rest

abbrev pub throw_if {ℓ} : Bool → ParseError → Result (Unit {ℓ})
throw_if true e = thrown e
throw_if false e = ok tt

abbrev pub or_throw {ℓ} : {A : Type ℓ} → Option A → ParseError → Result A
or_throw none e = thrown e
or_throw (some a) e = ok a

unfoldable pub as_string : Value → String → Result String
as_string (string s) field = ok s
as_string (number n) field = ok (number_text n)
as_string (bigint z) field = ok (print_ℤ z)
as_string v field = thrown (expected_string field (type_of v))

unfoldable pub as_big_int : Value → String → Result ℤ
as_big_int (bigint z) field = ok z
as_big_int (number (int z)) field = ok z
as_big_int (string s) field = or_throw (parse_ℤ s) (expected_integer field "string")
as_big_int v field = thrown (expected_integer field (type_of v))

unfoldable pub as_number : Value → String → Result Number
as_number (number n) field = ok n
as_number (bigint z) field = ok (to_number z)
as_number v field = thrown (expected_number field (type_of v))

abbrev first_string : Value → Option String
first_string (string s) = some s
first_string v = none

-- The tag of the two shapes other than a bare string: `['Funding']` and `{ tag: 'Funding' }`
unfoldable pub shape_tag : Value → Option String
shape_tag (array vs) = first_string (at (elements vs) 0)
shape_tag (object ps) = first_string (member "tag" ps)
shape_tag v = none

unfoldable pub decode_tag : Value → String → Result String
decode_tag (string s) field = ok s
decode_tag v field = or_throw (shape_tag v) (expected_tag field v)

unfoldable pub is_tag_like : Value → Bool
is_tag_like v = elim (shape_tag v) [ none ↦ false | some _ ↦ true ]

abbrev pub activity_action_tags : List String
activity_action_tags =
    "CampaignCreated" ∷ "CampaignFunded" ∷ "CampaignStatusChanged" ∷ "FundsReleased"
    ∷ "HarvestReported" ∷ "DisputeInitiated" ∷ "DisputeResolved" ∷ "CampaignSettled"
    ∷ "FarmerRegistered" ∷ "CampaignRegistered" ∷ []

-- `catch { return false }`
unfoldable pub is_activity_action_tag : Value → Bool
is_activity_action_tag v = elim (decode_tag v "actionType") [
  | ok tag ↦ has activity_action_tags tag
  | thrown _ ↦ false
]
