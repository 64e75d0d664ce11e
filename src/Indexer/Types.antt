-- ===== src/Indexer/Types.antt =====
-- The events of indexer/types/soroban-events.types.ts. `type` and `data` of a `ParsedEvent` always go
-- together: they are one tagged union, `Payload`, with `event_type` for the tag's text. A field that
-- the source types `number` but fills by `asNumber` is a `Number`; amounts are kept as decimal text.
use agrocylo_pip.Prelude.{ℕ, Option, List, String}
use agrocylo_pip.Prelude.Int.{ℤ}
use agrocylo_pip.Js.{Number, Value}

pub record RawSorobanEvent : Type 0 where
  pub id : String
  pub type : String
  pub contract_id : Option String
  pub topic : List Value
  pub value : Value
  pub ledger : ℕ
  pub ledger_closed_at : String
  pub tx_hash : String

pub record CampaignEscrowCreatedData : Type 0 where
  pub campaign_id : String
  pub farmer : String
  pub timestamp : Number
  pub target_amount : String

pub record CampaignInvestedData : Type 0 where
  pub campaign_id : String
  pub investor : String
  pub amount : String
  pub timestamp : Number

pub record CampaignFundedData : Type 0 where
  pub campaign_id : String
  pub timestamp : Number
  pub total_funded : String

pub record TranchesConfiguredData : Type 0 where
  pub campaign_id : String
  pub timestamp : Number
  pub tranche_count : Number

pub record TrancheReleasedData : Type 0 where
  pub campaign_id : String
  pub recipient : String
  pub amount : String
  pub timestamp : Number

pub record HarvestReportedData : Type 0 where
  pub campaign_id : String
  pub farmer : String
  pub outcome : String
  pub timestamp : Number

pub record CampaignFailedData : Type 0 where
  pub campaign_id : String
  pub timestamp : Number
  pub refundable : String

pub record ReturnClaimedData : Type 0 where
  pub campaign_id : String
  pub investor : String
  pub amount : String
  pub timestamp : Number

pub record RefundClaimedData : Type 0 where
  pub campaign_id : String
  pub investor : String
  pub amount : String
  pub timestamp : Number

pub record DisputeOpenedData : Type 0 where
  pub campaign_id : String
  pub opener : String
  pub reason : String
  pub timestamp : Number
  pub ledger_sequence : Number

pub record DisputeResolvedData : Type 0 where
  pub campaign_id : String
  pub admin : String
  pub resolution : String
  pub payout_to_farmer : String
  pub refundable_to_investors : String
  pub timestamp : Number
  pub ledger_sequence : Number

pub record CampaignSettledData : Type 0 where
  pub campaign_id : String
  pub farmer : String
  pub timestamp : Number
  pub farmer_payout : String
  pub investor_returns : String

pub record AdminInitializedData : Type 0 where
  pub admin : String
  pub timestamp : Number
  pub ledger_sequence : Number

pub record AdminUpdatedData : Type 0 where
  pub actor : String
  pub old_admin : String
  pub new_admin : String
  pub timestamp : Number
  pub ledger_sequence : Number

pub record ContractApprovedData : Type 0 where
  pub actor : String
  pub contract : String
  pub timestamp : Number
  pub ledger_sequence : Number

pub record ContractRevokedData : Type 0 where
  pub actor : String
  pub contract : String
  pub timestamp : Number
  pub ledger_sequence : Number

pub record FarmerRegisteredData : Type 0 where
  pub farmer : String
  pub name : Option String
  pub timestamp : Number
  pub ledger_sequence : Number

pub record CampaignCreatedData : Type 0 where
  pub campaign_id : String
  pub farmer : String
  pub title : Option String
  pub timestamp : Number
  pub ledger_sequence : Number

pub record CampaignEscrowLinkedData : Type 0 where
  pub campaign_id : String
  pub farmer : String
  pub escrow_contract : String
  pub timestamp : Number
  pub ledger_sequence : Number

pub record CampaignStatusUpdatedData : Type 0 where
  pub campaign_id : String
  pub prev_status : Option String
  pub new_status : Option String
  pub timestamp : Number
  pub ledger_sequence : Number

pub record ActivityRecordedData : Type 0 where
  pub campaign_id : String
  pub actor : String
  pub action_type : String
  pub timestamp : Number
  pub ledger_sequence : Number

-- `type` with `data`, as every call of `buildEvent` pairs them
pub data Payload : Type 0 where
  escrow_created : CampaignEscrowCreatedData → Payload
  invested : CampaignInvestedData → Payload
  contrib_reconciled : CampaignInvestedData → Payload
  funded : CampaignFundedData → Payload
  tranches_configured : TranchesConfiguredData → Payload
  tranche_released : TrancheReleasedData → Payload
  harvest_reported : HarvestReportedData → Payload
  failed : CampaignFailedData → Payload
  return_claimed : ReturnClaimedData → Payload
  refund_claimed : RefundClaimedData → Payload
  dispute_opened : DisputeOpenedData → Payload
  dispute_resolved : DisputeResolvedData → Payload
  settled : CampaignSettledData → Payload
  created : CampaignCreatedData → Payload
  escrow_linked : CampaignEscrowLinkedData → Payload
  status_updated : CampaignStatusUpdatedData → Payload
  farmer_registered : FarmerRegisteredData → Payload
  admin_initialized : AdminInitializedData → Payload
  admin_updated : AdminUpdatedData → Payload
  contract_approved : ContractApprovedData → Payload
  contract_revoked : ContractRevokedData → Payload
  activity_recorded : ActivityRecordedData → Payload

abbrev pub event_type : Payload → String
event_type (escrow_created _) = "campaign.escrow_created"
event_type (invested _) = "campaign.invested"
event_type (contrib_reconciled _) = "campaign.contrib_reconciled"
event_type (funded _) = "campaign.funded"
event_type (tranches_configured _) = "campaign.tranches_configured"
event_type (tranche_released _) = "campaign.tranche_released"
event_type (harvest_reported _) = "campaign.harvest_reported"
event_type (failed _) = "campaign.failed"
event_type (return_claimed _) = "campaign.return_claimed"
event_type (refund_claimed _) = "campaign.refund_claimed"
event_type (dispute_opened _) = "campaign.dispute_opened"
event_type (dispute_resolved _) = "campaign.dispute_resolved"
event_type (settled _) = "campaign.settled"
event_type (created _) = "campaign.created"
event_type (escrow_linked _) = "campaign.escrow_linked"
event_type (status_updated _) = "campaign.status_updated"
event_type (farmer_registered _) = "registry.farmer_registered"
event_type (admin_initialized _) = "registry.admin_initialized"
event_type (admin_updated _) = "registry.admin_updated"
event_type (contract_approved _) = "registry.contract_approved"
event_type (contract_revoked _) = "registry.contract_revoked"
event_type (activity_recorded _) = "registry.activity_recorded"

pub record ParsedEvent : Type 0 where
  pub id : String
  pub payload : Payload
  pub contract_event : String
  pub contract_id : String
  pub ledger : ℕ
  pub tx_hash : String
  pub raw_topics : List Value
  pub raw_value : Value
  pub campaign_id : Option String
  pub user_address : Option String
  pub amount : Option ℤ
