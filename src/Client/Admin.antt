-- ===== src/Client/Admin.antt =====
-- components/admin/CampaignAdminPanel.tsx: the forms of a campaign's administrator. A form is what it
-- holds; `submit` is its handler up to the call of the hook, and `settled` what follows the call.
pub mod Failing
use agrocylo_pip.Prelude.{
  Bool, List, Option, String, [], false, if◌then◌else◌, none, not, some, suc, true, zero, ℕ, ◌+◌,
  ◌++◌, ◌||◌, ◌∷◌,
}
use agrocylo_pip.Prelude.Int.{ltb_ℤ, pos, ℤ, ◌-ℤ◌}
use agrocylo_pip.Prelude.Decimal.{print_ℤ}
use agrocylo_pip.Prelude.Text.{concat}
use agrocylo_pip.Client.CampaignStatus.{CampaignStatusTag, resolved}
use agrocylo_pip.Client.Failures.{Failure, to_user_facing_error}
use agrocylo_pip.Client.ContractClient.{Answer, rejected, resolved}
use agrocylo_pip.Client.Mutations.{
  DisputeResolutionTag, Mutation, TrancheInput, configure_tranches, full_payout, full_refund,
  partial_settlement, pending, release_tranche, resolve_dispute, settle_campaign,
}
use agrocylo_pip.Client.Symbols.{contract_symbol_hint, is_valid_contract_symbol, parse_whole_amount}

-- The sums of a campaign that the panel reads
pub record Campaign : Type 0 where
  pub farmer : String
  pub status : CampaignStatusTag
  pub total_funded : ℤ
  pub released : ℤ
  pub refundable : ℤ
  pub returnable : ℤ

unfoldable pub escrow_held : Campaign → ℤ
escrow_held c = c.total_funded -ℤ c.released -ℤ c.refundable -ℤ c.returnable

-- What a form shows below its fields
pub record Notice : Type 0 where
  pub form_error : Option String
  pub success : Bool

abbrev pub cleared : Notice
cleared = record { form_error = none; success = false }

abbrev pub refusal : String → Notice
refusal message = record { form_error = some message; success = false }

abbrev pub succeeded : Notice
succeeded = record { form_error = none; success = true }

-- `catch (err) { setFormError(toUserFacingError(err)) }`
abbrev pub failure_notice : Failure → Notice
failure_notice x = refusal (to_user_facing_error x)

-- Configure tranches
pub record TrancheRow : Type 0 where
  pub amount : String
  pub milestone : String

abbrev pub empty_row : TrancheRow
empty_row = record { amount = ""; milestone = "" }

pub data Validation : Type 0 where
  valid : List TrancheInput → Validation
  invalid : String → Validation

abbrev pub and_tranche : TrancheInput → Validation → Validation
and_tranche t (valid ts) = valid (t ∷ ts)
and_tranche t (invalid message) = invalid message

abbrev pub check_amount : Option ℕ → Option ℕ
check_amount none = none
check_amount (some zero) = none
check_amount (some (suc n)) = some (suc n)

-- A row with its amount, none where that is not a whole number above zero
abbrev pub check_row : Option ℕ → TrancheRow → Validation → Validation
check_row none row rest = invalid "Each tranche amount must be a whole number greater than zero."
check_row (some n) row rest =
    if not (is_valid_contract_symbol row.milestone)
    then invalid (concat "Milestone label: " contract_symbol_hint)
    else and_tranche (record { amount = pos n; milestone = row.milestone }) rest

abbrev pub or_zero : Option ℕ → ℕ
or_zero none = 0
or_zero (some n) = n

-- The loop of `validate`, with the sum so far
unfoldable pub check_rows : (total_funded : ℤ) → (sum : ℕ) → List TrancheRow → Validation
check_rows total_funded sum [] =
    if ltb_ℤ total_funded (pos sum)
    then invalid "Total tranche amounts exceed the funded amount."
    else valid []
check_rows total_funded sum (row ∷ rows) =
    let amount = check_amount (parse_whole_amount row.amount) in
    let rest = check_rows total_funded (sum + or_zero amount) rows in check_row amount row rest

unfoldable pub validate : (total_funded : ℤ) → List TrancheRow → Validation
unfolding check_rows
validate total_funded [] = invalid "Add at least one tranche."
validate total_funded (row ∷ rows) = check_rows total_funded 0 (row ∷ rows)

pub record ConfigureForm : Type 0 where
  pub rows : List TrancheRow
  pub notice : Notice

abbrev pub add_row : List TrancheRow → List TrancheRow
add_row rows = rows ++ empty_row ∷ []

abbrev pub remove_at : ℕ → List TrancheRow → List TrancheRow
remove_at i [] = []
remove_at zero (row ∷ rows) = rows
remove_at (suc i) (row ∷ rows) = row ∷ remove_at i rows

-- `{ ...row, ...patch }` in place of the row
abbrev pub update_at : ℕ → (patch : TrancheRow → TrancheRow) → List TrancheRow → List TrancheRow
update_at i patch [] = []
update_at zero patch (row ∷ rows) = patch row ∷ rows
update_at (suc i) patch (row ∷ rows) = row ∷ update_at i patch rows

abbrev pub on_validation :
    (campaign_id : String) → ConfigureForm → Validation → ConfigureForm × Option Mutation
on_validation id f (invalid message) = (record f { notice = refusal message }, none)
on_validation id f (valid ts) = (record f { notice = cleared }, some (configure_tranches id ts))

unfoldable pub submit_configure :
    (campaign_id : String) (total_funded : ℤ) → ConfigureForm → ConfigureForm × Option Mutation
unfolding validate
submit_configure id total_funded f = on_validation id f (validate total_funded f.rows)

unfoldable pub settled_configure : Answer (Unit {0}) → ConfigureForm → ConfigureForm
settled_configure (resolved _) f = record { rows = empty_row ∷ []; notice = succeeded }
settled_configure (rejected x) f = record f { notice = failure_notice x }

-- A form with an amount and its notice: release, resolve and settle
pub record ReleaseForm : Type 0 where
  pub recipient : String
  pub amount : String
  pub notice : Notice

abbrev pub still_held : String → ℤ → String
still_held what held =
    concat what (concat " exceeds the escrow balance still held (" (concat (print_ℤ held) ")."))

-- `isValidAddress`; the two tests are the Stellar SDK's.
module _ (is_valid_public_key is_valid_contract : String → Bool) where
  abbrev pub is_valid_address : String → Bool
  is_valid_address value = is_valid_public_key value || is_valid_contract value

  abbrev pub release_amount :
      (campaign_id : String) (held : ℤ) → ReleaseForm → Option ℕ → ReleaseForm × Option Mutation
  release_amount id held f none =
      (record f { notice = refusal "Enter a whole number greater than zero." }, none)
  release_amount id held f (some n) =
      if ltb_ℤ held (pos n)
      then (record f { notice = refusal (still_held "Amount" held) }, none)
      else (record f { notice = cleared }, some (release_tranche id f.recipient (pos n)))

  abbrev pub release_to :
      (is_valid : Bool) (campaign_id : String) (held : ℤ)
      → ReleaseForm
      → ReleaseForm × Option Mutation
  release_to false id held f =
      (record f { notice = refusal "Enter a valid recipient address." }, none)
  release_to true id held f = release_amount id held f (check_amount (parse_whole_amount f.amount))

  unfoldable pub submit_release :
      (campaign_id : String) (held : ℤ) → ReleaseForm → ReleaseForm × Option Mutation
  submit_release id held f = release_to (is_valid_address f.recipient) id held f

unfoldable pub settled_release : Answer (Unit {0}) → ReleaseForm → ReleaseForm
settled_release (resolved _) f = record f { amount = ""; notice = succeeded }
settled_release (rejected x) f = record f { notice = failure_notice x }

-- Whether it is one of `RESOLUTION_OPTIONS`
abbrev pub is_offered : DisputeResolutionTag → Bool
is_offered pending = false
is_offered full_refund = true
is_offered full_payout = true
is_offered partial_settlement = true

pub record ResolveForm : Type 0 where
  pub resolution : DisputeResolutionTag
  pub payout_amount : String
  pub notice : Notice

abbrev pub refuse_payout : (held : ℤ) → ResolveForm → ResolveForm × Option Mutation
refuse_payout held f = (
  record f {
    notice = refusal (
        concat "Partial settlement payout must be greater than zero and less than the held amount ("
          (concat (print_ℤ held) ")."));
  },
  none,
)

abbrev pub resolve_partially :
    (campaign_id : String) (held : ℤ) → ResolveForm → Option ℕ → ResolveForm × Option Mutation
resolve_partially id held f none = refuse_payout held f
resolve_partially id held f (some n) =
    if not (ltb_ℤ (pos n) held)
    then refuse_payout held f
    else (record f { notice = cleared }, some (resolve_dispute id partial_settlement (pos n)))

abbrev pub resolve_by :
    DisputeResolutionTag
    → (campaign_id : String) (held : ℤ) → ResolveForm
    → ResolveForm × Option Mutation
resolve_by partial_settlement id held f =
    resolve_partially id held f (check_amount (parse_whole_amount f.payout_amount))
resolve_by pending id held f =
    (record f { notice = cleared }, some (resolve_dispute id pending (pos 0)))
resolve_by full_refund id held f =
    (record f { notice = cleared }, some (resolve_dispute id full_refund (pos 0)))
resolve_by full_payout id held f =
    (record f { notice = cleared }, some (resolve_dispute id full_payout (pos 0)))

unfoldable pub submit_resolve :
    (campaign_id : String) (held : ℤ) → ResolveForm → ResolveForm × Option Mutation
submit_resolve id held f = resolve_by f.resolution id held f

unfoldable pub settled_resolve : Answer (Unit {0}) → ResolveForm → ResolveForm
settled_resolve (resolved _) f = record f { payout_amount = ""; notice = succeeded }
settled_resolve (rejected x) f = record f { notice = failure_notice x }

pub record SettleForm : Type 0 where
  pub farmer_payout : String
  pub notice : Notice

abbrev pub settle_amount :
    (campaign_id farmer : String) (held : ℤ) → SettleForm → Option ℕ → SettleForm × Option Mutation
settle_amount id farmer held f none =
    (record f { notice = refusal "Enter a whole number of zero or greater." }, none)
settle_amount id farmer held f (some n) =
    if ltb_ℤ held (pos n)
    then (record f { notice = refusal (still_held "Payout" held) }, none)
    else (record f { notice = cleared }, some (settle_campaign id farmer (pos n)))

unfoldable pub submit_settle :
    (campaign_id farmer : String) (held : ℤ) → SettleForm → SettleForm × Option Mutation
submit_settle id farmer held f = settle_amount id farmer held f (parse_whole_amount f.farmer_payout)

unfoldable pub settled_settle : Answer (Unit {0}) → SettleForm → SettleForm
settled_settle (resolved _) f = record f { farmer_payout = ""; notice = succeeded }
settled_settle (rejected x) f = record f { notice = failure_notice x }
