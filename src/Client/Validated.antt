-- ===== src/Client/Validated.antt =====
-- What the form of tranches lets through.
use agrocylo_pip.Client.Symbols.{is_valid_contract_symbol, parse_whole_amount}
use agrocylo_pip.Prelude.{
  Bool-cases, List, Option, [], ap, arith, false, inl, inr, none, refl, some, suc, sym, true, zero,
  ℕ, ◌+◌, ◌<◌, ◌∷◌, ◌≡◌,
}
use agrocylo_pip.Prelude.Int.{ltb_ℤ, pos, ℤ, ◌+ℤ◌}
use agrocylo_pip.Client.Mutations.{TrancheInput}
use agrocylo_pip.Client.Admin.{
  TrancheRow, Validation, and_tranche, check_amount, check_row, check_rows, invalid, or_zero, valid,
  validate,
}
use agrocylo_pip.Client.EscrowGuards.{all_positive, is_empty, sum_amounts}

abbrev tranches_of : Validation → List TrancheInput
tranches_of (valid ts) = ts
tranches_of (invalid message) = []

valid-injective : (ts us : List TrancheInput) → valid ts ≡ valid us → ts ≡ us
valid-injective ts us h = ap tranches_of h

abbrev tranche : ℕ → TrancheRow → TrancheInput
tranche n row = record { amount = pos n; milestone = row.milestone }

-- A row that is let through, with what is let through behind it
abbrev Passes : Option ℕ → TrancheRow → Validation → List TrancheInput → Type 0
Passes o row rest ts =
    (n : ℕ) × (us : List TrancheInput) × (o ≡ some n)
    × (rest ≡ valid us)
    × (ts ≡ tranche n row ∷ us)

and_tranche_lem :
    (n : ℕ) (row : TrancheRow) (rest : Validation) (ts : List TrancheInput)
    → and_tranche (tranche n row) rest ≡ valid ts
    → Passes (some n) row rest ts
and_tranche_lem n row (valid us) ts h =
    (n, us, refl, refl, sym (valid-injective (tranche n row ∷ us) ts h))
and_tranche_lem n row (invalid message) ts h = cc h

check_row_lem :
    (o : Option ℕ) (row : TrancheRow) (rest : Validation) (ts : List TrancheInput)
    → check_row o row rest ≡ valid ts
    → Passes o row rest ts
check_row_lem none row rest ts h = cc h
check_row_lem (some n) row rest ts h = elim (Bool-cases (is_valid_contract_symbol row.milestone)) [
  | inl fits ↦ and_tranche_lem n row rest ts (rw fits at h)
  | inr unfit ↦ cc (rw unfit at h)
]

pub check_amount_pos : (o : Option ℕ) (n : ℕ) → check_amount o ≡ some n → 0 < n
check_amount_pos none n h = cc h
check_amount_pos (some zero) n h = cc h
check_amount_pos (some (suc k)) n h = ground arith

-- What `check_rows` lets through
abbrev pub Sums : ℤ → ℕ → List TrancheInput → Type 0
Sums total sum ts =
    (k : ℕ) × (sum_amounts ts ≡ pos k)
    × (all_positive ts ≡ true)
    × (ltb_ℤ total (pos (sum + k)) ≡ false)

Sums-cons :
    (total : ℤ) (sum n : ℕ) (row : TrancheRow) (us : List TrancheInput)
    → 0 < n
    → Sums total (sum + n) us
    → Sums total sum (tranche n row ∷ us)
unfolding ◌+ℤ◌
Sums-cons total sum n row us above (k, added, positive, within) =
    (n + k, rw added (ground arith), ground arith, ground arith)

check_rows_lem :
    (total : ℤ) (sum : ℕ) (rows : List TrancheRow) (ts : List TrancheInput)
    → check_rows total sum rows ≡ valid ts
    → Sums total sum ts
unfolding check_rows
check_rows_lem total sum [] ts h = elim (Bool-cases (ltb_ℤ total (pos sum))) [
  | inl over ↦ cc (rw over at h)
  | inr within ↦ rw (← valid-injective [] ts (rw within at h)) (0, refl, refl, ground arith)
]
check_rows_lem total sum (row ∷ rows) ts h =
    let amount : Option ℕ = check_amount (parse_whole_amount row.amount) in
    let (n, us, e, rest, same) = check_row_lem amount row _ ts h in
    rw same (
      Sums-cons total sum n row us (check_amount_pos _ n e)
        (rw (ap or_zero (sym e)) (check_rows_lem total (sum + or_zero amount) rows us rest)))

is_empty-Passes :
    (total : ℤ) (row : TrancheRow) (rows : List TrancheRow) (ts : List TrancheInput)
    → check_rows total 0 (row ∷ rows) ≡ valid ts
    → is_empty ts ≡ false
unfolding check_rows
is_empty-Passes total row rows ts h =
    let (n, us, e, rest, same) =
      check_row_lem (check_amount (parse_whole_amount row.amount)) row _ ts h in
    rw same refl

-- What is sent of the tranches
pub validate_lem :
    (total : ℤ) (rows : List TrancheRow) (ts : List TrancheInput)
    → validate total rows ≡ valid ts
    → (is_empty ts ≡ false) × Sums total 0 ts
unfolding validate
validate_lem total [] ts h = cc h
validate_lem total (row ∷ rows) ts h =
    (is_empty-Passes total row rows ts h, check_rows_lem total 0 (row ∷ rows) ts h)
