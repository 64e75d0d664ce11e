-- ===== src/Client/Mutations.antt =====
-- hooks/contract/useEscrowMutations.ts and useRegistryMutations.ts: the calls that change the contracts.
-- Escrow and Registry have what each hook does before and after.
pub mod Escrow
pub mod Registry
pub mod Hooks
use agrocylo_pip.Prelude.{List, String, false, none, some, ◌∷◌}
use agrocylo_pip.Prelude.Int.{ℤ}
use agrocylo_pip.Prelude.BigInt.{big_int}
use agrocylo_pip.Prelude.Text.{concat}
use agrocylo_pip.Client.Failures.{error}
use agrocylo_pip.Client.ContractClient.{
  Answer, Arguments, Contract, Tranche, bigint, rejected, resolved,
}
use agrocylo_pip.Client.QueryKeys.{QueryKey}

pub data DisputeResolutionTag : Type 0 where
  pending : DisputeResolutionTag
  full_refund : DisputeResolutionTag
  partial_settlement : DisputeResolutionTag
  full_payout : DisputeResolutionTag

abbrev pub resolution_name : DisputeResolutionTag → String
resolution_name pending = "Pending"
resolution_name full_refund = "FullRefund"
resolution_name partial_settlement = "PartialSettlement"
resolution_name full_payout = "FullPayout"

pub record CreateCampaignInput : Type 0 where
  pub campaign_id : ℤ
  pub farmer : String
  pub target_amount : ℤ
  pub token_address : String
  pub deadline : ℤ
  pub harvest_metadata : String

pub record RegisterCampaignInput : Type 0 where
  pub campaign_id : ℤ
  pub farmer : String
  pub title : String
  pub description : String

-- A row of the input of `useConfigureTranches`
pub record TrancheInput : Type 0 where
  pub amount : ℤ
  pub milestone : String

-- The hooks, each with its input
pub data Mutation : Type 0 where
  create_campaign : CreateCampaignInput → Mutation
  fund_campaign : (campaign_id investor : String) (amount : ℤ) → Mutation
  report_harvest : (campaign_id farmer outcome : String) → Mutation
  open_dispute : (campaign_id opener reason : String) → Mutation
  configure_tranches : (campaign_id : String) → List TrancheInput → Mutation
  release_tranche : (campaign_id recipient : String) (amount : ℤ) → Mutation
  resolve_dispute : (campaign_id : String) → DisputeResolutionTag → (payout_amount : ℤ) → Mutation
  settle_campaign : (campaign_id farmer : String) (farmer_payout : ℤ) → Mutation
  mark_failed : (campaign_id : String) → Mutation
  claim_refund : (campaign_id investor : String) → Mutation
  claim_return : (campaign_id investor : String) → Mutation
  register_farmer : (farmer name location : String) → Mutation
  register_campaign : RegisterCampaignInput → Mutation

abbrev pub unreleased : TrancheInput → Tranche
unreleased t = record { amount = t.amount; milestone = t.milestone; released = false }

-- `campaign_id: BigInt(input.campaignId)` before the other arguments; it throws on other texts.
abbrev pub with_campaign_id : String → Arguments → Answer Arguments
with_campaign_id id rest = elim (big_int id) [
  | none ↦ rejected (error (concat "Cannot convert " (concat id " to a BigInt")))
  | some n ↦ resolved (("campaign_id", bigint n) ∷ rest)
]

-- What a hook gives `useMutation` for an input: the contract and its method, the arguments, the titles
-- of its toasts, what the one of success says, and the keys that `onSuccess` invalidates, in order
pub record Hook : Type 0 where
  pub contract : Contract
  pub method : String
  pub args : Answer Arguments
  pub success_title : String
  pub error_title : String
  pub success_description : String
  pub invalidated : List QueryKey
