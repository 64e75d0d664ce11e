-- ===== src/Client/Dispute.antt =====
-- lib/dispute/eligibility.ts: who may open a dispute.
use agrocylo_pip.Prelude.{
  Bool, List, Option, String, [], false, if◌then◌else◌, none, not, some, str_eq, true, ◌&&◌, ◌∷◌,
}
use agrocylo_pip.Prelude.Int.{ltb_ℤ, pos, ℤ}
use agrocylo_pip.Prelude.Text.{is_blank}
use agrocylo_pip.Client.CampaignStatus.{CampaignStatusTag, active, funded, funding, includes}

pub data DisputeOpenerRole : Type 0 where
  farmer : DisputeOpenerRole
  contributor : DisputeOpenerRole
  admin : DisputeOpenerRole

abbrev pub disputable_statuses : List CampaignStatusTag
disputable_statuses = active ∷ funding ∷ funded ∷ []

-- Where the source has null or undefined, none
pub record DisputeEligibilityInput : Type 0 where
  pub status : Option CampaignStatusTag
  pub wallet_address : Option String
  pub farmer_address : Option String
  pub admin_address : Option String
  pub contribution : Option ℤ

pub record DisputeEligibility : Type 0 where
  pub eligible : Bool
  pub role : Option DisputeOpenerRole
  pub reason : Option String

abbrev pub not_eligible : String → DisputeEligibility
not_eligible reason = record { eligible = false; role = none; reason = some reason }

abbrev pub granted : DisputeOpenerRole → DisputeEligibility
granted role = record { eligible = true; role = some role; reason = none }

-- `owner && walletAddress === owner`
abbrev pub is_owner : String → Option String → Bool
is_owner wallet none = false
is_owner wallet (some owner) = not (is_blank owner) && str_eq wallet owner

-- `contribution !== undefined && contribution > 0n`
abbrev pub has_contributed : Option ℤ → Bool
has_contributed none = false
has_contributed (some amount) = ltb_ℤ (pos 0) amount

-- The roles, of a connected wallet while a dispute may be opened
unfoldable pub evaluate_role : String → DisputeEligibilityInput → DisputeEligibility
evaluate_role wallet input =
    if is_owner wallet input.farmer_address
    then granted farmer
    else if is_owner wallet input.admin_address
    then granted admin
    else if has_contributed input.contribution
    then granted contributor
    else not_eligible
        "Only the campaign farmer, a contributing investor, or an admin can open a dispute."

unfoldable pub evaluate_status :
    String → Option CampaignStatusTag → DisputeEligibilityInput → DisputeEligibility
unfolding evaluate_role
evaluate_status wallet none input = not_eligible "Campaign status is still loading."
evaluate_status wallet (some status) input =
    if not (includes disputable_statuses status)
    then not_eligible "Disputes can only be opened while a campaign is Active, Funding, Funded."
    else evaluate_role wallet input

unfoldable pub evaluate_wallet : Option String → DisputeEligibilityInput → DisputeEligibility
unfolding evaluate_status
evaluate_wallet none input = not_eligible "Connect your wallet to open a dispute."
evaluate_wallet (some wallet) input =
    if is_blank wallet
    then not_eligible "Connect your wallet to open a dispute."
    else evaluate_status wallet input.status input

unfoldable pub evaluate_dispute_eligibility : DisputeEligibilityInput → DisputeEligibility
unfolding evaluate_wallet
evaluate_dispute_eligibility input = evaluate_wallet input.wallet_address input
