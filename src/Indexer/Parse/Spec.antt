-- ===== src/Indexer/Parse/Spec.antt =====
-- What a parsed event says, written independently of the parsers.
use agrocylo_pip.Prelude.{◌≡◌, Option, none, some, List, [], ◌∷◌, String}
use agrocylo_pip.Prelude.Int.{ℤ}
use agrocylo_pip.Prelude.Decimal.{parse_ℤ}
use agrocylo_pip.Indexer.Types.{RawSorobanEvent, ParsedEvent, Payload}

-- The campaign that a payload names
abbrev pub campaign_of : Payload → Option String
campaign_of (Payload.escrow_created d) = some d.campaign_id
campaign_of (Payload.invested d) = some d.campaign_id
campaign_of (Payload.contrib_reconciled d) = some d.campaign_id
campaign_of (Payload.funded d) = some d.campaign_id
campaign_of (Payload.tranches_configured d) = some d.campaign_id
campaign_of (Payload.tranche_released d) = some d.campaign_id
campaign_of (Payload.harvest_reported d) = some d.campaign_id
campaign_of (Payload.failed d) = some d.campaign_id
campaign_of (Payload.return_claimed d) = some d.campaign_id
campaign_of (Payload.refund_claimed d) = some d.campaign_id
campaign_of (Payload.dispute_opened d) = some d.campaign_id
campaign_of (Payload.dispute_resolved d) = some d.campaign_id
campaign_of (Payload.settled d) = some d.campaign_id
campaign_of (Payload.created d) = some d.campaign_id
campaign_of (Payload.escrow_linked d) = some d.campaign_id
campaign_of (Payload.status_updated d) = some d.campaign_id
campaign_of (Payload.activity_recorded d) = some d.campaign_id
campaign_of _ = none

-- The user row that a payload's audit row refers to
abbrev pub user_of : Payload → Option String
user_of (Payload.escrow_created d) = some d.farmer
user_of (Payload.invested d) = some d.investor
user_of (Payload.contrib_reconciled d) = some d.investor
user_of (Payload.tranche_released d) = some d.recipient
user_of (Payload.harvest_reported d) = some d.farmer
user_of (Payload.return_claimed d) = some d.investor
user_of (Payload.refund_claimed d) = some d.investor
user_of (Payload.dispute_opened d) = some d.opener
user_of (Payload.settled d) = some d.farmer
user_of (Payload.created d) = some d.farmer
user_of (Payload.escrow_linked d) = some d.farmer
user_of (Payload.farmer_registered d) = some d.farmer
user_of _ = none

-- The token amount that a payload moves, as the number that its text denotes
abbrev pub amount_of : Payload → Option ℤ
amount_of (Payload.invested d) = parse_ℤ d.amount
amount_of (Payload.contrib_reconciled d) = parse_ℤ d.amount
amount_of (Payload.funded d) = parse_ℤ d.total_funded
amount_of (Payload.tranche_released d) = parse_ℤ d.amount
amount_of (Payload.failed d) = parse_ℤ d.refundable
amount_of (Payload.return_claimed d) = parse_ℤ d.amount
amount_of (Payload.refund_claimed d) = parse_ℤ d.amount
amount_of _ = none

-- The type under which each contract event is indexed.
abbrev pub indexed_types : List (String × String)
indexed_types =
    ("CampaignCreated", "campaign.escrow_created")
    ∷ ("ContribReceived", "campaign.invested")
    ∷ ("ContribReconciled", "campaign.contrib_reconciled")
    ∷ ("CampaignFunded", "campaign.funded")
    ∷ ("TranchesConfigured", "campaign.tranches_configured")
    ∷ ("TrancheReleased", "campaign.tranche_released")
    ∷ ("HarvestReported", "campaign.harvest_reported")
    ∷ ("CampaignFailed", "campaign.failed")
    ∷ ("ReturnClaimed", "campaign.return_claimed")
    ∷ ("RefundClaimed", "campaign.refund_claimed")
    ∷ ("DisputeOpened", "campaign.dispute_opened")
    ∷ ("DisputeResolved", "campaign.dispute_resolved")
    ∷ ("CampaignSettled", "campaign.settled")
    ∷ ("AdminInitialized", "registry.admin_initialized")
    ∷ ("AdminUpdated", "registry.admin_updated")
    ∷ ("ContractApproved", "registry.contract_approved")
    ∷ ("ContractRevoked", "registry.contract_revoked")
    ∷ ("FarmerRegistered", "registry.farmer_registered")
    ∷ ("CampaignRegistered", "campaign.created")
    ∷ ("CampaignEscrowLinked", "campaign.escrow_linked")
    ∷ ("CampaignStatusUpdated", "campaign.status_updated")
    ∷ ("ActivityRecorded", "registry.activity_recorded")
    ∷ []

-- The parsed event keeps the raw event's identity, and its `extra` fields agree with its payload.
pub record IsFaithful (raw : RawSorobanEvent) (e : ParsedEvent) : Type 0 where
  pub same_id : e.id ≡ raw.id
  pub same_ledger : e.ledger ≡ raw.ledger
  pub same_hash : e.tx_hash ≡ raw.tx_hash
  pub campaign : e.campaign_id ≡ campaign_of e.payload
  pub user : e.user_address ≡ user_of e.payload
  pub amount : e.amount ≡ amount_of e.payload
