-- ===== src/Api/Rows.antt =====
-- What the services of the API share: `numeric`, and a row with its clock column as JSON has it.
use agrocylo_pip.Prelude.{Option, String, none, some}
use agrocylo_pip.Prelude.Int.{ℤ}
use agrocylo_pip.Prelude.Decimal.{print_ℤ}

-- JSON has no BigInt: a column that may be null becomes decimal text or null.
unfoldable pub numeric : Option ℤ → Option String
unfolding print_ℤ
numeric none = none
numeric (some z) = some (print_ℤ z)

-- A row with a column that the database's clock fills, as its ISO text
pub record Stamped (Row : Type 0) : Type 0 where
  pub row : Row
  pub at : String

-- What an endpoint answers: a body, `NotFoundException`, or the error of a call
pub data Answer (Body : Type 0) : Type 0 where
  found : Body → Answer Body
  not_found : String → Answer Body
  failed : String → Answer Body
