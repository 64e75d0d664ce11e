-- ===== src/Client/Reason.antt =====
-- validateDisputeReason of lib/dispute/eligibility.ts, and the form of
-- components/campaign/OpenDisputeModal.tsx that sends a dispute's reason.
use Prim.Native.Char.{Char, code}
use agrocylo_pip.Prelude.{
  Bool, Option, String, ap, arith, false, if◌then◌else◌, leb, ltb, none, refl, some, suc, true, ℕ,
  ◌≡◌,
}
use agrocylo_pip.Prelude.Text.{is_blank, is_space, trim, trim_end}
use agrocylo_pip.Client.Failures.{to_user_facing_error}
use agrocylo_pip.Client.ContractClient.{Answer, rejected, resolved}
use agrocylo_pip.Client.Mutations.{Mutation, open_dispute}
use agrocylo_pip.Client.Symbols.{
  all_symbol_chars, is_symbol_char, is_valid_contract_symbol, text_length,
}

abbrev dispute_reason_max_length : ℕ
dispute_reason_max_length = 500

-- `s.length`, in units of 16 bits
abbrev pub utf16_length : String → ℕ
utf16_length String.[] = 0
utf16_length (String.◌∷◌ c s) =
    let rest = utf16_length s in if ltb (code c) 65536 then suc rest else suc (suc rest)

pub record ReasonValidation : Type 0 where
  pub valid : Bool
  pub error : Option String

abbrev invalid_as : String → ReasonValidation
invalid_as message = record { valid = false; error = some message }

unfoldable pub validate_dispute_reason : String → ReasonValidation
unfolding trim
validate_dispute_reason reason =
    let trimmed = trim reason in
    if is_blank trimmed
    then invalid_as "A reason is required to open a dispute."
    else if ltb dispute_reason_max_length (utf16_length trimmed)
    then invalid_as "Reason must be 500 characters or fewer."
    else record { valid = true; error = none }

pub record DisputeForm : Type 0 where
  pub reason : String
  pub form_error : Option String

-- `handleSubmit` up to the call of the hook, and what follows the call
abbrev pub send_reason :
    (campaign_id opener : String) → ReasonValidation → DisputeForm → DisputeForm × Option Mutation
send_reason id opener v f =
    if v.valid
    then (record f { form_error = none }, some (open_dispute id opener (trim f.reason)))
    else (record f { form_error = v.error }, none)

unfoldable pub submit_dispute :
    (campaign_id opener : String) → DisputeForm → DisputeForm × Option Mutation
unfolding validate_dispute_reason
submit_dispute id opener f = send_reason id opener (validate_dispute_reason f.reason) f

unfoldable pub settled_dispute : Answer (Unit {0}) → DisputeForm → DisputeForm
settled_dispute (resolved _) f = record f { reason = "" }
settled_dispute (rejected x) f = record f { form_error = some (to_user_facing_error x) }

-- A text of the characters of a symbol has no white space, and one unit for each.
symbol_char_lem : (c : ℕ) → is_symbol_char c ≡ true → (is_space c ≡ false) × (ltb c 65536 ≡ true)
symbol_char_lem c h = (ground arith, ground arith)

abbrev AllSymbol : String → Type 0
AllSymbol s = all_symbol_chars s ≡ true

AllSymbol-cons :
    (c : Char) (s : String)
    → AllSymbol (String.◌∷◌ c s)
    → (is_symbol_char (code c) ≡ true) × AllSymbol s
AllSymbol-cons c s h = (ground arith, ground arith)

trim_end-AllSymbol : (s : String) → AllSymbol s → trim_end s ≡ s
unfolding trim_end
trim_end-AllSymbol String.[] h = refl
trim_end-AllSymbol (String.◌∷◌ c s) h =
    let (first, later) = AllSymbol-cons c s h in
    rw (symbol_char_lem (code c) first).0 (ap (String.◌∷◌ c) (trim_end-AllSymbol s later))

trim-AllSymbol : (s : String) → AllSymbol s → trim s ≡ s
unfolding trim
trim-AllSymbol String.[] h = refl
trim-AllSymbol (String.◌∷◌ c s) h =
    let (first, later) = AllSymbol-cons c s h in
    rw (symbol_char_lem (code c) first).0 (trim_end-AllSymbol (String.◌∷◌ c s) h)

utf16_length-AllSymbol : (s : String) → AllSymbol s → utf16_length s ≡ text_length s
utf16_length-AllSymbol String.[] h = refl
utf16_length-AllSymbol (String.◌∷◌ c s) h =
    let (first, later) = AllSymbol-cons c s h in
    rw (symbol_char_lem (code c) first).1 (ap suc (utf16_length-AllSymbol s later))

validate-AllSymbol :
    (s : String)
    → AllSymbol s
    → ltb 0 (text_length s) ≡ true
    → leb (text_length s) 32 ≡ true
    → (validate_dispute_reason s).valid ≡ true
unfolding validate_dispute_reason
validate-AllSymbol String.[] h filled short = cc filled
validate-AllSymbol (String.◌∷◌ c s) h filled short =
    let fits : ltb 500 (text_length (String.◌∷◌ c s)) ≡ false = ground arith in
    rw (trim-AllSymbol (String.◌∷◌ c s) h, utf16_length-AllSymbol (String.◌∷◌ c s) h, fits) refl

-- Every reason that the contract can take, which is a symbol, is sent as it was typed.
pub symbol_submitted :
    (id opener : String) (f : DisputeForm)
    → is_valid_contract_symbol f.reason ≡ true
    → (submit_dispute id opener f).1 ≡ some (open_dispute id opener f.reason)
unfolding submit_dispute is_valid_contract_symbol
symbol_submitted id opener f h =
    let symbols : AllSymbol f.reason = ground arith in
    rw (validate-AllSymbol f.reason symbols (ground arith) (ground arith))
      (ap (λ r. some (open_dispute id opener r)) (trim-AllSymbol f.reason symbols))
