-- ===== src/Indexer/Escrow.antt =====
-- The parsers of ProductionEscrowContract events, `parseCampaignEscrowCreated` to
-- `parseCampaignSettled` of indexer/parsers/event-parser.service.ts.
use agrocylo_pip.Prelude.{none, some, ltb, length}
use agrocylo_pip.Prelude.Decimal.{print_ℤ}
use agrocylo_pip.Js.{at}
use agrocylo_pip.Indexer.Types.{
  escrow_created, invested, contrib_reconciled, funded, tranches_configured, tranche_released,
  harvest_reported, failed, return_claimed, refund_claimed, dispute_opened, dispute_resolved,
  settled,
}
use agrocylo_pip.Indexer.Decode.{
  payload_length, ◌>>=◌, ◌>>◌, throw_if, as_string, as_big_int, as_number, decode_tag,
}
use agrocylo_pip.Indexer.Build.{Parser, build_event}

unfoldable pub parse_campaign_escrow_created : Parser
parse_campaign_escrow_created raw topics arr = do
  throw_if (ltb (length arr) 3) (payload_length "CampaignCreated" 3)
  campaign_id ← as_string (at topics 1) "campaignId"
  farmer ← as_string (at arr 0) "farmer"
  timestamp ← as_number (at arr 1) "timestamp"
  target_amount ← as_big_int (at arr 2) "targetAmount"
  build_event raw topics
      (escrow_created (record {
        campaign_id = campaign_id;
        farmer = farmer;
        timestamp = timestamp;
        target_amount = print_ℤ target_amount;
      }))
      (some campaign_id) (some farmer) none

unfoldable pub parse_campaign_invested : Parser
parse_campaign_invested raw topics arr = do
  throw_if (ltb (length arr) 3) (payload_length "ContribReceived" 3)
  campaign_id ← as_string (at topics 1) "campaignId"
  investor ← as_string (at arr 0) "investor"
  timestamp ← as_number (at arr 1) "timestamp"
  amount ← as_big_int (at arr 2) "amount"
  build_event raw topics
      (invested (record {
        campaign_id = campaign_id;
        investor = investor;
        amount = print_ℤ amount;
        timestamp = timestamp;
      }))
      (some campaign_id) (some investor) (some amount)

unfoldable pub parse_contrib_reconciled : Parser
parse_contrib_reconciled raw topics arr = do
  throw_if (ltb (length arr) 3) (payload_length "ContribReconciled" 3)
  campaign_id ← as_string (at topics 1) "campaignId"
  investor ← as_string (at arr 0) "investor"
  timestamp ← as_number (at arr 1) "timestamp"
  amount ← as_big_int (at arr 2) "amount"
  build_event raw topics
      (contrib_reconciled (record {
        campaign_id = campaign_id;
        investor = investor;
        amount = print_ℤ amount;
        timestamp = timestamp;
      }))
      (some campaign_id) (some investor) (some amount)

unfoldable pub parse_campaign_funded : Parser
parse_campaign_funded raw topics arr = do
  throw_if (ltb (length arr) 2) (payload_length "CampaignFunded" 2)
  campaign_id ← as_string (at topics 1) "campaignId"
  timestamp ← as_number (at arr 0) "timestamp"
  total_funded ← as_big_int (at arr 1) "totalFunded"
  build_event raw topics
      (funded (record {
        campaign_id = campaign_id;
        timestamp = timestamp;
        total_funded = print_ℤ total_funded;
      }))
      (some campaign_id) none (some total_funded)

unfoldable pub parse_tranches_configured : Parser
parse_tranches_configured raw topics arr = do
  throw_if (ltb (length arr) 2) (payload_length "TranchesConfigured" 2)
  campaign_id ← as_string (at topics 1) "campaignId"
  timestamp ← as_number (at arr 0) "timestamp"
  tranche_count ← as_number (at arr 1) "trancheCount"
  build_event raw topics
      (tranches_configured (record {
        campaign_id = campaign_id;
        timestamp = timestamp;
        tranche_count = tranche_count;
      }))
      (some campaign_id) none none

unfoldable pub parse_tranche_released : Parser
parse_tranche_released raw topics arr = do
  throw_if (ltb (length arr) 3) (payload_length "TrancheReleased" 3)
  campaign_id ← as_string (at topics 1) "campaignId"
  recipient ← as_string (at arr 0) "recipient"
  timestamp ← as_number (at arr 1) "timestamp"
  amount ← as_big_int (at arr 2) "amount"
  build_event raw topics
      (tranche_released (record {
        campaign_id = campaign_id;
        recipient = recipient;
        amount = print_ℤ amount;
        timestamp = timestamp;
      }))
      (some campaign_id) (some recipient) (some amount)

unfoldable pub parse_harvest_reported : Parser
parse_harvest_reported raw topics arr = do
  throw_if (ltb (length arr) 3) (payload_length "HarvestReported" 3)
  campaign_id ← as_string (at topics 1) "campaignId"
  farmer ← as_string (at arr 0) "farmer"
  outcome ← as_string (at arr 1) "outcome"
  timestamp ← as_number (at arr 2) "timestamp"
  build_event raw topics
      (harvest_reported (record {
        campaign_id = campaign_id;
        farmer = farmer;
        outcome = outcome;
        timestamp = timestamp;
      }))
      (some campaign_id) (some farmer) none

unfoldable pub parse_campaign_failed : Parser
parse_campaign_failed raw topics arr = do
  throw_if (ltb (length arr) 2) (payload_length "CampaignFailed" 2)
  campaign_id ← as_string (at topics 1) "campaignId"
  timestamp ← as_number (at arr 0) "timestamp"
  refundable ← as_big_int (at arr 1) "refundable"
  build_event raw topics
      (failed (record {
        campaign_id = campaign_id;
        timestamp = timestamp;
        refundable = print_ℤ refundable;
      }))
      (some campaign_id) none (some refundable)

unfoldable pub parse_return_claimed : Parser
parse_return_claimed raw topics arr = do
  throw_if (ltb (length arr) 3) (payload_length "ReturnClaimed" 3)
  campaign_id ← as_string (at topics 1) "campaignId"
  investor ← as_string (at arr 0) "investor"
  timestamp ← as_number (at arr 1) "timestamp"
  amount ← as_big_int (at arr 2) "amount"
  build_event raw topics
      (return_claimed (record {
        campaign_id = campaign_id;
        investor = investor;
        amount = print_ℤ amount;
        timestamp = timestamp;
      }))
      (some campaign_id) (some investor) (some amount)

unfoldable pub parse_refund_claimed : Parser
parse_refund_claimed raw topics arr = do
  throw_if (ltb (length arr) 3) (payload_length "RefundClaimed" 3)
  campaign_id ← as_string (at topics 1) "campaignId"
  investor ← as_string (at arr 0) "investor"
  timestamp ← as_number (at arr 1) "timestamp"
  amount ← as_big_int (at arr 2) "amount"
  build_event raw topics
      (refund_claimed (record {
        campaign_id = campaign_id;
        investor = investor;
        amount = print_ℤ amount;
        timestamp = timestamp;
      }))
      (some campaign_id) (some investor) (some amount)

unfoldable pub parse_dispute_opened : Parser
parse_dispute_opened raw topics arr = do
  throw_if (ltb (length arr) 4) (payload_length "DisputeOpened" 4)
  campaign_id ← as_string (at topics 1) "campaignId"
  opener ← as_string (at arr 0) "opener"
  reason ← as_string (at arr 1) "reason"
  timestamp ← as_number (at arr 2) "timestamp"
  ledger_sequence ← as_number (at arr 3) "ledgerSequence"
  build_event raw topics
      (dispute_opened (record {
        campaign_id = campaign_id;
        opener = opener;
        reason = reason;
        timestamp = timestamp;
        ledger_sequence = ledger_sequence;
      }))
      (some campaign_id) (some opener) none

unfoldable pub parse_dispute_resolved : Parser
parse_dispute_resolved raw topics arr = do
  throw_if (ltb (length arr) 6) (payload_length "DisputeResolved" 6)
  campaign_id ← as_string (at topics 1) "campaignId"
  admin ← as_string (at arr 0) "admin"
  resolution ← decode_tag (at arr 1) "resolution"
  payout_to_farmer ← as_big_int (at arr 2) "payoutToFarmer"
  refundable_to_investors ← as_big_int (at arr 3) "refundableToInvestors"
  timestamp ← as_number (at arr 4) "timestamp"
  ledger_sequence ← as_number (at arr 5) "ledgerSequence"
  build_event raw topics
      (dispute_resolved (record {
        campaign_id = campaign_id;
        admin = admin;
        resolution = resolution;
        payout_to_farmer = print_ℤ payout_to_farmer;
        refundable_to_investors = print_ℤ refundable_to_investors;
        timestamp = timestamp;
        ledger_sequence = ledger_sequence;
      }))
      (some campaign_id) none none

unfoldable pub parse_campaign_settled : Parser
parse_campaign_settled raw topics arr = do
  throw_if (ltb (length arr) 4) (payload_length "CampaignSettled" 4)
  campaign_id ← as_string (at topics 1) "campaignId"
  farmer ← as_string (at arr 0) "farmer"
  timestamp ← as_number (at arr 1) "timestamp"
  farmer_payout ← as_big_int (at arr 2) "farmerPayout"
  investor_returns ← as_big_int (at arr 3) "investorReturns"
  build_event raw topics
      (settled (record {
        campaign_id = campaign_id;
        farmer = farmer;
        timestamp = timestamp;
        farmer_payout = print_ℤ farmer_payout;
        investor_returns = print_ℤ investor_returns;
      }))
      (some campaign_id) (some farmer) none
