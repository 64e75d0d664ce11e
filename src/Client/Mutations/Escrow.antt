-- ===== src/Client/Mutations/Escrow.antt =====
-- The hooks of useEscrowMutations.ts.
use agrocylo_pip.Prelude.{List, String, [], map, ◌∷◌}
use agrocylo_pip.Prelude.Int.{ℤ}
use agrocylo_pip.Prelude.Decimal.{print_ℤ}
use agrocylo_pip.Prelude.Text.{concat}
use agrocylo_pip.Client.ContractClient.{bigint, escrow, resolved, text, tranches, variant}
use agrocylo_pip.Client.QueryKeys.{
  admin_campaigns_overview_key, campaign_key, contribution_key, dispute_key, harvest_record_key,
  tranches_key,
}
use agrocylo_pip.Client.Mutations.{
  CreateCampaignInput, DisputeResolutionTag, Hook, TrancheInput, resolution_name, unreleased,
  with_campaign_id,
}

abbrev pub use_create_campaign : CreateCampaignInput → Hook
use_create_campaign input = record {
  contract = escrow;
  method = "create_campaign";
  args = resolved (
      ("campaign_id", bigint input.campaign_id)
      ∷ ("farmer", text input.farmer)
      ∷ ("target_amount", bigint input.target_amount)
      ∷ ("token_address", text input.token_address)
      ∷ ("deadline", bigint input.deadline)
      ∷ ("harvest_metadata", text input.harvest_metadata)
      ∷ []);
  success_title = "Campaign created";
  error_title = "Could not create campaign";
  success_description = concat "Campaign #" (concat (print_ℤ input.campaign_id) " is on-chain.");
  invalidated = campaign_key (print_ℤ input.campaign_id) ∷ [];
}

abbrev pub use_fund_campaign : (campaign_id investor : String) (amount : ℤ) → Hook
use_fund_campaign id investor amount = record {
  contract = escrow;
  method = "fund_campaign";
  args = with_campaign_id id (("investor", text investor) ∷ ("amount", bigint amount) ∷ []);
  success_title = "Contribution submitted";
  error_title = "Could not fund campaign";
  success_description = concat "Funded campaign #" (concat id ".");
  invalidated = campaign_key id ∷ contribution_key id investor ∷ [];
}

abbrev pub use_report_harvest : (campaign_id farmer outcome : String) → Hook
use_report_harvest id farmer outcome = record {
  contract = escrow;
  method = "report_harvest";
  args = with_campaign_id id (("farmer", text farmer) ∷ ("outcome", text outcome) ∷ []);
  success_title = "Harvest reported";
  error_title = "Could not report harvest";
  success_description = concat "Harvest recorded for campaign #" (concat id ".");
  invalidated = campaign_key id ∷ harvest_record_key id ∷ [];
}

abbrev pub use_open_dispute : (campaign_id opener reason : String) → Hook
use_open_dispute id opener reason = record {
  contract = escrow;
  method = "open_dispute";
  args = with_campaign_id id (("opener", text opener) ∷ ("reason", text reason) ∷ []);
  success_title = "Dispute opened";
  error_title = "Could not open dispute";
  success_description = concat "Dispute opened on campaign #" (concat id ".");
  invalidated = campaign_key id ∷ dispute_key id ∷ [];
}

abbrev pub use_configure_tranches : (campaign_id : String) → List TrancheInput → Hook
use_configure_tranches id rows = record {
  contract = escrow;
  method = "configure_tranches";
  args = with_campaign_id id (("tranches", tranches (map unreleased rows)) ∷ []);
  success_title = "Tranches configured";
  error_title = "Could not configure tranches";
  success_description = concat "Tranches set for campaign #" (concat id ".");
  invalidated = tranches_key id ∷ admin_campaigns_overview_key ∷ [];
}

abbrev pub use_release_tranche : (campaign_id recipient : String) (amount : ℤ) → Hook
use_release_tranche id recipient amount = record {
  contract = escrow;
  method = "release_tranche";
  args = with_campaign_id id (("recipient", text recipient) ∷ ("amount", bigint amount) ∷ []);
  success_title = "Tranche released";
  error_title = "Could not release tranche";
  success_description = concat "Released funds for campaign #" (concat id ".");
  invalidated = campaign_key id ∷ tranches_key id ∷ admin_campaigns_overview_key ∷ [];
}

abbrev pub use_resolve_dispute :
    (campaign_id : String) → DisputeResolutionTag → (payout_amount : ℤ) → Hook
use_resolve_dispute id resolution payout = record {
  contract = escrow;
  method = "resolve_dispute";
  args = with_campaign_id id (
      ("resolution", variant (resolution_name resolution)) ∷ ("payout_amount", bigint payout) ∷ []);
  success_title = "Dispute resolved";
  error_title = "Could not resolve dispute";
  success_description = concat "Dispute resolved for campaign #" (concat id ".");
  invalidated = campaign_key id ∷ dispute_key id ∷ admin_campaigns_overview_key ∷ [];
}

abbrev pub use_settle_campaign : (campaign_id farmer : String) (farmer_payout : ℤ) → Hook
use_settle_campaign id farmer payout = record {
  contract = escrow;
  method = "settle_campaign";
  args = with_campaign_id id (("farmer", text farmer) ∷ ("farmer_payout", bigint payout) ∷ []);
  success_title = "Campaign settled";
  error_title = "Could not settle campaign";
  success_description = concat "Campaign #" (concat id " settled.");
  invalidated = campaign_key id ∷ admin_campaigns_overview_key ∷ [];
}

abbrev pub use_mark_failed : (campaign_id : String) → Hook
use_mark_failed id = record {
  contract = escrow;
  method = "mark_failed";
  args = with_campaign_id id [];
  success_title = "Campaign marked failed";
  error_title = "Could not mark campaign failed";
  success_description = concat "Campaign #" (concat id " marked as failed.");
  invalidated = campaign_key id ∷ admin_campaigns_overview_key ∷ [];
}

abbrev pub use_claim_refund : (campaign_id investor : String) → Hook
use_claim_refund id investor = record {
  contract = escrow;
  method = "claim_refund";
  args = with_campaign_id id (("investor", text investor) ∷ []);
  success_title = "Refund claimed";
  error_title = "Could not claim refund";
  success_description = concat "Claimed refund for campaign #" (concat id ".");
  invalidated = campaign_key id ∷ contribution_key id investor ∷ [];
}

abbrev pub use_claim_return : (campaign_id investor : String) → Hook
use_claim_return id investor = record {
  contract = escrow;
  method = "claim_return";
  args = with_campaign_id id (("investor", text investor) ∷ []);
  success_title = "Return claimed";
  error_title = "Could not claim return";
  success_description = concat "Claimed return payout for campaign #" (concat id ".");
  invalidated = campaign_key id ∷ contribution_key id investor ∷ [];
}
