-- ===== src/Indexer/Handlers.antt =====
-- `persistEvent` and its handlers in indexer/parsers/event-parser.service.ts. Log lines are left out.
use agrocylo_pip.Prelude.{Option, none, some, String, str_eq, if◌then◌else◌, ◌&&◌}
use agrocylo_pip.Prelude.Int.{ℤ, pos, ◌+ℤ◌}
use agrocylo_pip.Js.{Number}
use agrocylo_pip.Indexer.Types.{
  ParsedEvent, Payload, CampaignEscrowCreatedData, CampaignInvestedData, CampaignFundedData,
  TranchesConfiguredData, TrancheReleasedData, HarvestReportedData, CampaignFailedData,
  DisputeOpenedData, DisputeResolvedData, CampaignSettledData, CampaignCreatedData,
  CampaignEscrowLinkedData, CampaignStatusUpdatedData, FarmerRegisteredData,
}
use agrocylo_pip.Store.Tables.{Campaign, User, Dispute}
use agrocylo_pip.Store.Client.{
  upsert_user, upsert_campaign, update_campaign, update_many_campaigns, create_investment,
  create_tranche, create_dispute, update_dispute, Prisma,
}
use agrocylo_pip.Store.Action.{
  Action, pure, ◌>>=◌, ◌>>◌, big_int_of_text, big_int_of_number, run, find_open_dispute,
}

-- A row that `create` makes from the given columns and the defaults of the schema.
abbrev pub new_campaign : String → String → ℤ → Campaign
new_campaign id farmer created_at = record {
  id = id;
  farmer = farmer;
  title = "";
  description = "";
  target_amount = none;
  token_address = none;
  deadline = none;
  status = "Active";
  total_funded = pos 0;
  escrow_contract = "";
  tranche_count = none;
  harvest_outcome = none;
  harvest_reported_at = none;
  refundable = pos 0;
  returnable = pos 0;
  created_at = created_at;
}

-- `data.title !== undefined ? { farmer, title } : { farmer }`
abbrev pub retitled : String → Option String → Campaign → Campaign
retitled farmer none c = record c { farmer = farmer }
retitled farmer (some title) c = record c { farmer = farmer; title = title }

abbrev pub or_empty : Option String → String
or_empty none = ""
or_empty (some s) = s

-- `data.name !== undefined ? { name } : {}`
abbrev pub renamed : Option String → User → User
renamed none u = u
renamed (some name) u = record u { name = some name }

module _ (prisma : Prisma) where
  open prisma use {State}

  unfoldable pub ensure_user : String → Number → Action State (Unit {0})
  ensure_user address timestamp = do
    first_seen_at ← big_int_of_number timestamp
    run prisma (
        upsert_user address (λ u. u)
          (record { address = address; name = none; first_seen_at = some first_seen_at }))

  unfoldable pub handle_campaign_escrow_created :
      CampaignEscrowCreatedData → Action State (Unit {0})
  handle_campaign_escrow_created d = do
    ensure_user d.farmer d.timestamp
    target_amount ← big_int_of_text d.target_amount
    created_at ← big_int_of_number d.timestamp
    run prisma (
        upsert_campaign d.campaign_id
          (λ c. record c { farmer = d.farmer; target_amount = some target_amount })
          (let c = new_campaign d.campaign_id d.farmer created_at in
            record c { target_amount = some target_amount }))

  unfoldable pub handle_campaign_invested :
      ParsedEvent → CampaignInvestedData → Action State (Unit {0})
  handle_campaign_invested parsed d = do
    ensure_user d.investor d.timestamp
    amount ← big_int_of_text d.amount
    timestamp ← big_int_of_number d.timestamp
    run prisma (
        create_investment (record {
          id = parsed.id;
          campaign_id = d.campaign_id;
          investor = d.investor;
          amount = amount;
          tx_hash = some parsed.tx_hash;
          timestamp = some timestamp;
        }))
    run prisma
        (update_campaign d.campaign_id (λ c. record c { total_funded = c.total_funded +ℤ amount }))

  unfoldable pub handle_contrib_reconciled : CampaignInvestedData → Action State (Unit {0})
  handle_contrib_reconciled d = do
    ensure_user d.investor d.timestamp
    amount ← big_int_of_text d.amount
    run prisma
        (update_campaign d.campaign_id (λ c. record c { total_funded = c.total_funded +ℤ amount }))

  unfoldable pub handle_campaign_funded : CampaignFundedData → Action State (Unit {0})
  handle_campaign_funded d = do
    total_funded ← big_int_of_text d.total_funded
    run prisma (
        update_campaign d.campaign_id
          (λ c. record c { status = "Funded"; total_funded = total_funded }))

  unfoldable pub handle_tranches_configured : TranchesConfiguredData → Action State (Unit {0})
  handle_tranches_configured d =
      run prisma
        (update_campaign d.campaign_id (λ c. record c { tranche_count = some d.tranche_count }))

  unfoldable pub handle_tranche_released :
      ParsedEvent → TrancheReleasedData → Action State (Unit {0})
  handle_tranche_released parsed d = do
    ensure_user d.recipient d.timestamp
    amount ← big_int_of_text d.amount
    released_at ← big_int_of_number d.timestamp
    run prisma (
        create_tranche (record {
          id = parsed.id;
          campaign_id = d.campaign_id;
          recipient = d.recipient;
          amount = amount;
          released_at = released_at;
          tx_hash = some parsed.tx_hash;
        }))
    run prisma (
        update_many_campaigns (λ c. str_eq c.id d.campaign_id && str_eq c.status "Funded")
          (λ c. record c { status = "InProduction" }))

  unfoldable pub handle_harvest_reported : HarvestReportedData → Action State (Unit {0})
  handle_harvest_reported d = do
    reported_at ← big_int_of_number d.timestamp
    run prisma (
        update_campaign d.campaign_id (λ c. record c {
          status = "Harvested";
          harvest_outcome = some d.outcome;
          harvest_reported_at = some reported_at;
        }))

  unfoldable pub handle_campaign_failed : CampaignFailedData → Action State (Unit {0})
  handle_campaign_failed d = do
    refundable ← big_int_of_text d.refundable
    run prisma (
        update_campaign d.campaign_id
          (λ c. record c { status = "Failed"; refundable = refundable }))

  -- The claim's investor and timestamp: all that `handleClaim` reads of its two payload types
  unfoldable pub handle_claim : String → Number → Action State (Unit {0})
  handle_claim investor timestamp = ensure_user investor timestamp

  unfoldable pub handle_dispute_opened : ParsedEvent → DisputeOpenedData → Action State (Unit {0})
  handle_dispute_opened parsed d = do
    ensure_user d.opener d.timestamp
    opened_at ← big_int_of_number d.timestamp
    run prisma (
        create_dispute (record {
          id = parsed.id;
          campaign_id = d.campaign_id;
          opener = d.opener;
          reason = d.reason;
          status = "Open";
          resolution = none;
          admin = none;
          payout_to_farmer = none;
          refundable_to_investors = none;
          opened_at = opened_at;
          resolved_at = none;
          ledger_sequence = some d.ledger_sequence;
        }))
    run prisma (update_campaign d.campaign_id (λ c. record c { status = "Disputed" }))

  -- `if (openDispute) { ... }`, with the warning of the other branch left out
  unfoldable pub close_dispute : DisputeResolvedData → Option Dispute → Action State (Unit {0})
  close_dispute d none = pure tt
  close_dispute d (some open_dispute) = do
    payout_to_farmer ← big_int_of_text d.payout_to_farmer
    refundable_to_investors ← big_int_of_text d.refundable_to_investors
    resolved_at ← big_int_of_number d.timestamp
    run prisma (
        update_dispute open_dispute.id (λ r. record r {
          status = "Resolved";
          resolution = some d.resolution;
          admin = some d.admin;
          payout_to_farmer = some payout_to_farmer;
          refundable_to_investors = some refundable_to_investors;
          resolved_at = some resolved_at;
        }))

  unfoldable pub handle_dispute_resolved : DisputeResolvedData → Action State (Unit {0})
  handle_dispute_resolved d = do
    open_dispute ← find_open_dispute prisma d.campaign_id
    close_dispute d open_dispute
    refundable ← big_int_of_text d.refundable_to_investors
    run prisma (
        update_campaign d.campaign_id
          (λ c. record c { status = "Resolved"; refundable = c.refundable +ℤ refundable }))

  unfoldable pub handle_campaign_settled : CampaignSettledData → Action State (Unit {0})
  handle_campaign_settled d = do
    returns ← big_int_of_text d.investor_returns
    run prisma (
        update_campaign d.campaign_id
          (λ c. record c { status = "Settled"; returnable = c.returnable +ℤ returns }))

  unfoldable pub handle_campaign_created : CampaignCreatedData → Action State (Unit {0})
  handle_campaign_created d = do
    ensure_user d.farmer d.timestamp
    created_at ← big_int_of_number d.timestamp
    run prisma (
        upsert_campaign d.campaign_id (retitled d.farmer d.title) (
          let c = new_campaign d.campaign_id d.farmer created_at in
          record c { title = or_empty d.title }))

  unfoldable pub handle_campaign_escrow_linked : CampaignEscrowLinkedData → Action State (Unit {0})
  handle_campaign_escrow_linked d = run prisma (
      update_campaign d.campaign_id
        (λ c. record c { escrow_contract = d.escrow_contract; farmer = d.farmer }))

  -- `if (!data.newStatus) return`: undefined and the empty text
  unfoldable pub set_status : String → Option String → Action State (Unit {0})
  set_status campaign_id none = pure tt
  set_status campaign_id (some status) =
      if str_eq status ""
      then pure tt
      else run prisma (update_campaign campaign_id (λ c. record c { status = status }))

  unfoldable pub handle_campaign_status_updated :
      CampaignStatusUpdatedData → Action State (Unit {0})
  handle_campaign_status_updated d = set_status d.campaign_id d.new_status

  unfoldable pub handle_farmer_registered : FarmerRegisteredData → Action State (Unit {0})
  handle_farmer_registered d = do
    first_seen_at ← big_int_of_number d.timestamp
    run prisma (
        upsert_user d.farmer (renamed d.name)
          (record { address = d.farmer; name = d.name; first_seen_at = some first_seen_at }))

  -- The `switch` of `persistEvent`
  unfoldable pub handle : ParsedEvent → Payload → Action State (Unit {0})
  handle parsed (Payload.escrow_created d) = handle_campaign_escrow_created d
  handle parsed (Payload.invested d) = handle_campaign_invested parsed d
  handle parsed (Payload.contrib_reconciled d) = handle_contrib_reconciled d
  handle parsed (Payload.funded d) = handle_campaign_funded d
  handle parsed (Payload.tranches_configured d) = handle_tranches_configured d
  handle parsed (Payload.tranche_released d) = handle_tranche_released parsed d
  handle parsed (Payload.harvest_reported d) = handle_harvest_reported d
  handle parsed (Payload.failed d) = handle_campaign_failed d
  handle parsed (Payload.return_claimed d) = handle_claim d.investor d.timestamp
  handle parsed (Payload.refund_claimed d) = handle_claim d.investor d.timestamp
  handle parsed (Payload.dispute_opened d) = handle_dispute_opened parsed d
  handle parsed (Payload.dispute_resolved d) = handle_dispute_resolved d
  handle parsed (Payload.settled d) = handle_campaign_settled d
  handle parsed (Payload.created d) = handle_campaign_created d
  handle parsed (Payload.escrow_linked d) = handle_campaign_escrow_linked d
  handle parsed (Payload.status_updated d) = handle_campaign_status_updated d
  handle parsed (Payload.farmer_registered d) = handle_farmer_registered d
  handle parsed (Payload.admin_initialized d) = pure tt
  handle parsed (Payload.admin_updated d) = pure tt
  handle parsed (Payload.contract_approved d) = pure tt
  handle parsed (Payload.contract_revoked d) = pure tt
  handle parsed (Payload.activity_recorded d) = pure tt
