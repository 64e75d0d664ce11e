-- ===== src/Indexer/Persist/Writes.antt =====
-- The handlers write every table but the audit rows; nothing else is known of them here.
use agrocylo_pip.Prelude.{
  ◌≡◌, ap, sym, Bool, true, ◌&&◌, arith, eq_iff, Option, none, some, Bool-cases, inl, inr, String,
  str_eq,
}
use agrocylo_pip.Indexer.Types.{
  ParsedEvent, Payload, DisputeResolvedData, CampaignCreatedData, CampaignEscrowCreatedData,
  CampaignEscrowLinkedData, CampaignFailedData, CampaignFundedData, CampaignInvestedData,
  CampaignSettledData, DisputeOpenedData, FarmerRegisteredData, HarvestReportedData,
  TrancheReleasedData, TranchesConfiguredData,
}
use agrocylo_pip.Indexer.Handlers.{
  ensure_user, handle_campaign_escrow_created, handle_campaign_invested, handle_contrib_reconciled,
  handle_campaign_funded, handle_tranches_configured, handle_tranche_released,
  handle_harvest_reported, handle_campaign_failed, handle_claim, handle_dispute_opened,
  close_dispute, handle_dispute_resolved, handle_campaign_settled, handle_campaign_created,
  handle_campaign_escrow_linked, set_status, handle_campaign_status_updated,
  handle_farmer_registered, handle,
}
use agrocylo_pip.Indexer.Parse.Spec.{campaign_of}
use agrocylo_pip.Js.{Number}
use agrocylo_pip.Store.Client.{Prisma}
use agrocylo_pip.Store.Tables.{Campaign, Dispute}
use agrocylo_pip.Store.Trace.{Performs, IsWriteFor, performs_rules}

-- The rows that `{ id: k, ... }` finds
id_tested :
    (k : String) (c : Campaign) (b : Bool) → (str_eq c.id k && b) ≡ true → some k ≡ some c.id
id_tested k c b e = ap some (sym same)
  where
    same : c.id ≡ k
    same = ground (arith, eq_iff c.id k)

module _ (prisma : Prisma) where
  ensure_user-Performs :
      {o : Option String} (a : String) (n : Number)
      → Performs prisma (IsWriteFor o) (ensure_user prisma a n)
  unfolding ensure_user
  ensure_user-Performs a n = search performs_rules

  handle_campaign_escrow_created-Performs :
      (d : CampaignEscrowCreatedData)
      → Performs prisma (IsWriteFor (some d.campaign_id)) (handle_campaign_escrow_created prisma d)
  unfolding handle_campaign_escrow_created
  handle_campaign_escrow_created-Performs d = search (performs_rules, ensure_user-Performs) depth 12

  handle_campaign_invested-Performs :
      (parsed : ParsedEvent) (d : CampaignInvestedData)
      → Performs prisma (IsWriteFor (some d.campaign_id)) (handle_campaign_invested prisma parsed d)
  unfolding handle_campaign_invested
  handle_campaign_invested-Performs parsed d =
      search (performs_rules, ensure_user-Performs) depth 12

  handle_contrib_reconciled-Performs :
      (d : CampaignInvestedData)
      → Performs prisma (IsWriteFor (some d.campaign_id)) (handle_contrib_reconciled prisma d)
  unfolding handle_contrib_reconciled
  handle_contrib_reconciled-Performs d = search (performs_rules, ensure_user-Performs) depth 12

  handle_campaign_funded-Performs :
      (d : CampaignFundedData)
      → Performs prisma (IsWriteFor (some d.campaign_id)) (handle_campaign_funded prisma d)
  unfolding handle_campaign_funded
  handle_campaign_funded-Performs d = search performs_rules depth 12

  handle_tranches_configured-Performs :
      (d : TranchesConfiguredData)
      → Performs prisma (IsWriteFor (some d.campaign_id)) (handle_tranches_configured prisma d)
  unfolding handle_tranches_configured
  handle_tranches_configured-Performs d = search performs_rules depth 12

  handle_tranche_released-Performs :
      (parsed : ParsedEvent) (d : TrancheReleasedData)
      → Performs prisma (IsWriteFor (some d.campaign_id)) (handle_tranche_released prisma parsed d)
  unfolding handle_tranche_released
  handle_tranche_released-Performs parsed d =
      search (performs_rules, ensure_user-Performs, id_tested) depth 12

  handle_harvest_reported-Performs :
      (d : HarvestReportedData)
      → Performs prisma (IsWriteFor (some d.campaign_id)) (handle_harvest_reported prisma d)
  unfolding handle_harvest_reported
  handle_harvest_reported-Performs d = search performs_rules depth 12

  handle_campaign_failed-Performs :
      (d : CampaignFailedData)
      → Performs prisma (IsWriteFor (some d.campaign_id)) (handle_campaign_failed prisma d)
  unfolding handle_campaign_failed
  handle_campaign_failed-Performs d = search performs_rules depth 12

  handle_dispute_opened-Performs :
      (parsed : ParsedEvent) (d : DisputeOpenedData)
      → Performs prisma (IsWriteFor (some d.campaign_id)) (handle_dispute_opened prisma parsed d)
  unfolding handle_dispute_opened
  handle_dispute_opened-Performs parsed d = search (performs_rules, ensure_user-Performs) depth 12

  handle_campaign_settled-Performs :
      (d : CampaignSettledData)
      → Performs prisma (IsWriteFor (some d.campaign_id)) (handle_campaign_settled prisma d)
  unfolding handle_campaign_settled
  handle_campaign_settled-Performs d = search performs_rules depth 12

  handle_campaign_created-Performs :
      (d : CampaignCreatedData)
      → Performs prisma (IsWriteFor (some d.campaign_id)) (handle_campaign_created prisma d)
  unfolding handle_campaign_created
  handle_campaign_created-Performs d = search (performs_rules, ensure_user-Performs) depth 12

  handle_campaign_escrow_linked-Performs :
      (d : CampaignEscrowLinkedData)
      → Performs prisma (IsWriteFor (some d.campaign_id)) (handle_campaign_escrow_linked prisma d)
  unfolding handle_campaign_escrow_linked
  handle_campaign_escrow_linked-Performs d = search performs_rules depth 12

  handle_farmer_registered-Performs :
      (d : FarmerRegisteredData)
      → Performs prisma (IsWriteFor none) (handle_farmer_registered prisma d)
  unfolding handle_farmer_registered
  handle_farmer_registered-Performs d = search performs_rules depth 12

  close_dispute-Performs :
      (d : DisputeResolvedData) (o : Option Dispute)
      → Performs prisma (IsWriteFor (some d.campaign_id)) (close_dispute prisma d o)
  unfolding close_dispute
  close_dispute-Performs d none = search performs_rules
  close_dispute-Performs d (some r) = search performs_rules depth 12

  handle_dispute_resolved-Performs :
      (d : DisputeResolvedData)
      → Performs prisma (IsWriteFor (some d.campaign_id)) (handle_dispute_resolved prisma d)
  unfolding handle_dispute_resolved
  handle_dispute_resolved-Performs d = search (performs_rules, close_dispute-Performs) depth 12

  set_status-Performs :
      (id : String) (o : Option String)
      → Performs prisma (IsWriteFor (some id)) (set_status prisma id o)
  unfolding set_status
  set_status-Performs id none = search performs_rules
  set_status-Performs id (some status) = elim (Bool-cases (str_eq status "")) [
    | inl empty ↦ rw empty (search performs_rules)
    | inr filled ↦ rw filled (search performs_rules)
  ]

  -- Whatever the event, its handler writes no audit row.
  pub handle-Performs :
      (parsed : ParsedEvent) (p : Payload)
      → Performs prisma (IsWriteFor (campaign_of p)) (handle prisma parsed p)
  unfolding handle handle_claim handle_campaign_status_updated
  handle-Performs parsed (Payload.escrow_created d) = handle_campaign_escrow_created-Performs d
  handle-Performs parsed (Payload.invested d) = handle_campaign_invested-Performs parsed d
  handle-Performs parsed (Payload.contrib_reconciled d) = handle_contrib_reconciled-Performs d
  handle-Performs parsed (Payload.funded d) = handle_campaign_funded-Performs d
  handle-Performs parsed (Payload.tranches_configured d) = handle_tranches_configured-Performs d
  handle-Performs parsed (Payload.tranche_released d) = handle_tranche_released-Performs parsed d
  handle-Performs parsed (Payload.harvest_reported d) = handle_harvest_reported-Performs d
  handle-Performs parsed (Payload.failed d) = handle_campaign_failed-Performs d
  handle-Performs parsed (Payload.dispute_opened d) = handle_dispute_opened-Performs parsed d
  handle-Performs parsed (Payload.dispute_resolved d) = handle_dispute_resolved-Performs d
  handle-Performs parsed (Payload.settled d) = handle_campaign_settled-Performs d
  handle-Performs parsed (Payload.created d) = handle_campaign_created-Performs d
  handle-Performs parsed (Payload.escrow_linked d) = handle_campaign_escrow_linked-Performs d
  handle-Performs parsed (Payload.farmer_registered d) = handle_farmer_registered-Performs d
  handle-Performs parsed (Payload.return_claimed d) = ensure_user-Performs d.investor d.timestamp
  handle-Performs parsed (Payload.refund_claimed d) = ensure_user-Performs d.investor d.timestamp
  handle-Performs parsed (Payload.status_updated d) = set_status-Performs d.campaign_id d.new_status
  handle-Performs parsed (Payload.admin_initialized d) = search performs_rules
  handle-Performs parsed (Payload.admin_updated d) = search performs_rules
  handle-Performs parsed (Payload.contract_approved d) = search performs_rules
  handle-Performs parsed (Payload.contract_revoked d) = search performs_rules
  handle-Performs parsed (Payload.activity_recorded d) = search performs_rules
